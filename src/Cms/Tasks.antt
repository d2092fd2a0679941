-- ===== src/Cms/Tasks.antt =====
-- `GetTask` of oiajudge/pkg/cmsbridge/task.go.
use oiaj.Base.{ℕ, ◌+◌, false, Option, none, some, List, [], ◌∷◌, map, select, if◌then◌else◌}
use oiaj.Base.Int.{pos, eq_ℤ}
use oiaj.Text.Bytes.{Bytes, codes, bytes_eq, bytes_ltb}
use oiaj.Bridge.{ObjectId, Task}
use oiaj.Store.Errors.{json_syntax, float_syntax, plain, text, Outcome, ok, err, panic}
use oiaj.Store.Action.{◌>>=◌, pure, throw, lift}
use oiaj.Store.Session.{query_row, query}
use oiaj.Cms.Tables.{CmsTask, Dataset, CmsDb, CmsTx}
use oiaj.Cms.Platform.{Platform, Json, number, other, OiajTaskEmbeddedData}
use oiaj.Cms.Objects.{join_all, pages_under, by_pageno, contents}
use oiaj.Cms.Submissions.{head}

-- The columns of the first SELECT.
pub record TaskHeader : Type 0 where
  pub name : Bytes
  pub title : Bytes
  pub score_type : Bytes
  pub score_parameters : Bytes
  pub dataset_id : ObjectId
  pub submission_format : List Bytes
  pub description : Bytes

abbrev count_rows : {A : Type 0} → List A → ℕ
count_rows [] = 0
count_rows (x ∷ xs) = count_rows xs + 1

header_of : CmsTask → Dataset → TaskHeader
header_of t v = record {
  name = t.name;
  title = t.title;
  score_type = v.score_type;
  score_parameters = v.score_type_parameters;
  dataset_id = v.id;
  submission_format = t.submission_format;
  description = v.description;
}

module _ {F : Type 0} where
  unfoldable pub task_headers : ObjectId → CmsDb F → List TaskHeader
  unfolding header_of
  task_headers tid d =
      join_all (λ t. map (header_of t) (select (λ v. eq_ℤ v.task_id t.id) d.datasets))
        (select (λ t. eq_ℤ t.id tid) d.tasks)

  unfoldable pub select_task : ObjectId → CmsTx F TaskHeader
  unfolding task_headers
  select_task tid =
      query_row
        "SELECT name, title, score_type, score_type_parameters, datasets.id, submission_format, datasets.description FROM tasks INNER JOIN datasets ON datasets.task_id = tasks.id WHERE tasks.id = $1"
        λ d s. (ok (head (task_headers tid d)), d, s)

  unfoldable pub count_testcases : ObjectId → CmsTx F ℕ
  count_testcases dataset_id =
      query_row "SELECT count(testcases.id) FROM testcases WHERE dataset_id = $1" λ d s.
        (ok (some (count_rows (select (λ t. eq_ℤ t.dataset_id dataset_id) d.testcases))), d, s)

  unfoldable pub select_attachments : ObjectId → CmsTx F (List Bytes)
  select_attachments tid =
      query "SELECT filename, digest FROM attachments WHERE task_id = $1"
        λ d s. (ok (map (λ a. a.filename) (select (λ a. eq_ℤ a.task_id tid) d.attachments)), d, s)

  -- The pages of the statements of a task.
  unfoldable pub select_statement : ObjectId → CmsTx F Bytes
  unfolding contents
  select_statement tid = do
    pages ←
        query
          "SELECT pg_largeobject.data FROM statements INNER JOIN fsobjects ON statements.digest = fsobjects.digest INNER JOIN pg_largeobject ON fsobjects.loid = pg_largeobject.loid WHERE statements.task_id = $1 ORDER BY pg_largeobject.pageno ASC;"
          λ d s. (
            ok (
                by_pageno (
                  join_all (λ v. pages_under v.digest d)
                    (select (λ v. eq_ℤ v.task_id tid) d.statements))),
            d,
            s,
          )
    pure (contents pages)

module _ {F : Type 0} (go : Platform F) where
  -- `case "Sum"`
  unfoldable pub with_cases : ObjectId → Option F → CmsTx F F
  unfolding count_testcases
  with_cases dataset_id none = throw float_syntax
  with_cases dataset_id (some multiplier) = do
    cases ← count_testcases dataset_id
    pure (go.num.mul multiplier (go.of_int (pos cases)))

  -- `default`: the first entry of each list is a number of points, and has to be there.
  unfoldable pub sum_points : F → List (List (Json F)) → Outcome F
  sum_points acc [] = ok acc
  sum_points acc ([] ∷ params) = panic "index out of range [0] with length 0"
  sum_points acc ((other ∷ rest) ∷ params) = err (plain (text "invalid score type"))
  sum_points acc ((number x ∷ rest) ∷ params) = sum_points (go.num.add acc x) params

  unfoldable pub with_parameters : Option (List (List (Json F))) → CmsTx F F
  unfolding sum_points
  with_parameters none = throw json_syntax
  with_parameters (some params) = lift (sum_points go.num.zero params)

  -- The `switch` on the score type.
  unfoldable pub max_score_of : TaskHeader → CmsTx F F
  unfolding with_cases with_parameters
  max_score_of h =
      if bytes_eq h.score_type (codes "Sum")
      then with_cases h.dataset_id (go.parse_float h.score_parameters)
      else with_parameters (go.parameters h.score_parameters)

  -- The data in the description, or what stands for it.
  unfoldable pub embedded_or_default : Option (OiajTaskEmbeddedData F) → OiajTaskEmbeddedData F
  embedded_or_default none = record { tags = []; multiplier = go.num.one }
  embedded_or_default (some e) = e

  unfoldable pub task_with : ObjectId → TaskHeader → F → List Bytes → Bytes → Task F
  unfolding embedded_or_default
  task_with tid h max_score attachments statement =
      let e = embedded_or_default (go.embedded_data h.description) in
      record {
        id = tid;
        name = h.name;
        title = h.title;
        tags = e.tags;
        statement = statement;
        deleted = false;
        max_score = max_score;
        multiplier = e.multiplier;
        submission_format = h.submission_format;
        attachments = go.sort_names bytes_ltb attachments;
      }

  -- The rest of `GetTask`, last part first.
  unfoldable pub add_statement : ObjectId → TaskHeader → F → List Bytes → CmsTx F (Task F)
  unfolding select_statement task_with
  add_statement tid h max_score attachments = do
    statement ← select_statement tid
    pure (task_with tid h max_score attachments statement)

  unfoldable pub add_attachments : ObjectId → TaskHeader → F → CmsTx F (Task F)
  unfolding select_attachments add_statement
  add_attachments tid h max_score = do
    attachments ← select_attachments tid
    add_statement tid h max_score attachments

  unfoldable pub read_task : ObjectId → TaskHeader → CmsTx F (Task F)
  unfolding max_score_of add_attachments
  read_task tid h = do max_score ← max_score_of h; add_attachments tid h max_score

  -- `GetTask`
  unfoldable pub get_task : ObjectId → CmsTx F (Task F)
  unfolding select_task read_task
  get_task tid = do h ← select_task tid; read_task tid h
