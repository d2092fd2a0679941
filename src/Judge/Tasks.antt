-- ===== src/Judge/Tasks.antt =====
-- Tasks as the judge keeps them: `SaveTask`, `GetTasks`, `GetSingleTask` and `GetTaskStatement` of
-- oiajudge/pkg/oiajudge/store.go.
use oiaj.Base.{Bool, false, List, [], ◌∷◌, ◌++◌, map, if◌then◌else◌, any, first, update}
use mathlib.Core.Option
use oiaj.Base.Int.{eq_ℤ}
use oiaj.Text.Bytes.{Bytes}
use oiaj.Bridge.{ObjectId, Arith, Task}
use oiaj.Store.Errors.{ok}
use oiaj.Store.Session.{exec, query_row, query}
use oiaj.Judge.Tables.{TaskRow, JudgeTx, Sql}

module _ {F : Type 0} where
  abbrev pub is_task : ObjectId → TaskRow F → Bool
  is_task tid r = eq_ℤ r.id tid

  -- What the table keeps of a task: REAL columns round.
  unfoldable pub task_row : Arith F → Task F → TaskRow F
  task_row num task = record {
    id = task.id;
    title = task.title;
    name = task.name;
    statement = task.statement;
    max_score = num.to_real task.max_score;
    submission_format = task.submission_format;
    tags = task.tags;
    multiplier = num.to_real task.multiplier;
    attachments = task.attachments;
  }

  -- The columns that are read back, without the statement.
  unfoldable pub task_of : TaskRow F → Task F
  task_of r = record {
    id = r.id;
    name = r.name;
    title = r.title;
    tags = r.tags;
    statement = [];
    deleted = false;
    max_score = r.max_score;
    multiplier = r.multiplier;
    submission_format = r.submission_format;
    attachments = r.attachments;
  }

  upsert_task : TaskRow F → Sql F Unit
  upsert_task new d s =
      if any (is_task new.id) d.tasks
      then (ok tt, record d { tasks = update (is_task new.id) (λ r. new) d.tasks }, s)
      else (ok tt, record d { tasks = d.tasks ++ new ∷ [] }, s)

  -- `SaveTask`
  unfoldable pub save_task : Arith F → Task F → JudgeTx F Unit
  unfolding task_row upsert_task
  save_task num task =
      exec
        "INSERT INTO oia_task(id, title, name, statement, max_score, multiplier, submission_format, tags, attachments) VALUES ($1, $2, $3, $4, $5, $6, $7, $8, $9) ON CONFLICT(id) DO UPDATE SET title = EXCLUDED.title, name = EXCLUDED.name, statement = EXCLUDED.statement, max_score = EXCLUDED.max_score, multiplier = EXCLUDED.multiplier, tags = EXCLUDED.tags, submission_format = EXCLUDED.submission_format, attachments = EXCLUDED.attachments;"
        (upsert_task (task_row num task))

  -- `GetTasks`
  unfoldable pub get_tasks : JudgeTx F (List (Task F))
  unfolding task_of
  get_tasks =
      query
        "SELECT id, name, title, max_score, multiplier, submission_format, tags, attachments FROM oia_task"
        λ d s. (ok (map task_of d.tasks), d, s)

  -- `GetSingleTask`
  unfoldable pub get_single_task : ObjectId → JudgeTx F (Task F)
  unfolding task_of
  get_single_task tid =
      query_row
        "SELECT id, name, title, max_score, multiplier, submission_format, tags, attachments FROM oia_task WHERE id = $1"
        λ d s. (ok (Option.map task_of (first (is_task tid) d.tasks)), d, s)

  -- `GetTaskStatement`
  unfoldable pub get_task_statement : ObjectId → JudgeTx F Bytes
  get_task_statement tid =
      query_row "SELECT statement FROM oia_task WHERE id = $1"
        λ d s. (ok (Option.map (λ r. r.statement) (first (is_task tid) d.tasks)), d, s)
