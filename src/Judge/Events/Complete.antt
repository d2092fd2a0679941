-- ===== src/Judge/Events/Complete.antt =====
-- `handleSubmission` of oiajudge/pkg/oiajudge/updater.go when PostgreSQL answers.
use oiaj.Bridge.{Arith, Submission}
use oiaj.Judge.Tables.{Db}
use oiaj.Judge.Submissions.Complete.{arrived}
use oiaj.Judge.Updater.Recalculate.{rescored}
use oiaj.Judge.Server.{Server}

module _ {F : Type 0} (num : Arith F) where
  -- The tables after a submission has arrived and its user has been rescored.
  abbrev pub updated : Submission F → F → Db F → Db F
  updated s m d =
      rescored num s.user_id s.problem_id m (record d { submissions = arrived num s d.submissions })
