-- ===== src/Judge/Updater.antt =====
-- oiajudge/pkg/oiajudge/updater.go: what an event of the contest system changes in the judge.
pub mod Best
pub mod Recalculate
pub mod Keys
pub mod Balance
pub mod Complete
pub mod Unknown
use oiaj.Base.{List, [], ◌∷◌}
use oiaj.Bridge.{ObjectId, Arith, Submission, Task}
use oiaj.Store.Action.{◌>>=◌, ◌>>◌}
use oiaj.Store.Session.{with_local_tx}
use oiaj.Judge.Tables.{JudgeTx}
use oiaj.Judge.Submissions.{create_submission, get_all_scores}
use oiaj.Judge.Tasks.{save_task}
use oiaj.Judge.Scores.{save_user_score, get_user_task_score, increment_user_score}

module _ {F : Type 0} (num : Arith F) where
  -- The inner loops over one submission: `by_subtask` is first padded with zeros to the length of
  -- `v`, then raised index by index.
  raise_scores : List F → List F → List F
  raise_scores best [] = best
  raise_scores [] (x ∷ v) = num.max num.zero x ∷ raise_scores [] v
  raise_scores (b ∷ best) (x ∷ v) = num.max b x ∷ raise_scores best v

  -- `for _, v := range scores`
  pub by_subtask : List F → List (List F) → List F
  unfolding raise_scores
  by_subtask best [] = best
  by_subtask best (v ∷ scores) = by_subtask (raise_scores best v) scores

  -- `for _, v := range by_subtask`
  total_from : F → List F → F
  total_from acc [] = acc
  total_from acc (x ∷ xs) = total_from (num.add acc x) xs

  unfoldable pub base_score : List (List F) → F
  unfolding by_subtask total_from
  base_score scores = total_from num.zero (by_subtask [] scores)

  -- The steps of `recalculateUserScoreForTask`, last to first.
  unfoldable pub add_gain : ObjectId → F → F → JudgeTx F Unit
  unfolding increment_user_score
  add_gain uid previous_score score = increment_user_score num uid (num.sub score previous_score)

  unfoldable pub save_best : ObjectId → ObjectId → List (List F) → F → JudgeTx F Unit
  unfolding save_user_score base_score add_gain
  save_best uid tid scores previous_score = do
    score ← save_user_score num uid tid (base_score scores)
    add_gain uid previous_score score

  unfoldable pub use_scores : ObjectId → ObjectId → List (List F) → JudgeTx F Unit
  unfolding get_user_task_score save_best
  use_scores uid tid scores = do
    previous_score ← get_user_task_score num uid tid
    save_best uid tid scores previous_score

  -- `recalculateUserScoreForTask`
  unfoldable pub recalculate : ObjectId → ObjectId → JudgeTx F Unit
  unfolding get_all_scores use_scores
  recalculate uid tid = do scores ← get_all_scores uid tid; use_scores uid tid scores

  -- `handleSubmission`, from the answer of `Bridge.GetSubmission` on.
  unfoldable pub store_submission : Submission F → JudgeTx F Unit
  unfolding create_submission recalculate
  store_submission submission =
      with_local_tx
        (create_submission num submission >> recalculate submission.user_id submission.problem_id)

  -- `handleTask`, from the answer of `Bridge.GetTask` on.
  unfoldable pub store_task : Task F → JudgeTx F Unit
  unfolding save_task
  store_task task = with_local_tx (save_task num task)
