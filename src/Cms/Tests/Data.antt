-- ===== src/Cms/Tests/Data.antt =====
-- A contest system with one user, one task with two testcases and one scored submission, whose
-- events wait in the queue.
use oiaj.Base.{◌-◌, true, false, none, some, List, [], ◌∷◌}
use oiaj.Base.Int.{ℤ, pos}
use oiaj.Text.Bytes.{codes}
use oiaj.Store.Errors.{ok}
use oiaj.Judge.Server.{Bcrypt, Config, Server}
use oiaj.Judge.Tests.Data.{num_ℤ, world, plain_compare}
use oiaj.Cms.Tables.{
  CmsUser, Participation, Dataset, TestcaseRow, CmsSubmission, ResultRow, Evaluation, QueueRow,
  CmsDb, CmsWorld, Schema,
}
use oiaj.Cms.Platform.{Platform}
use oiaj.Cms.Impl.{Settings, judge_config}
use oiaj.Cms.Tests.Sort.{insertion_sort}

-- The first byte of a number is its digit, and no JSON is read.
abbrev pub go : Platform ℤ
go = record {
  num = num_ℤ;
  parse_float = λ s. elim s [ [] ↦ none | c ∷ rest ↦ some (pos (c - 48)) ];
  of_int = λ n. n;
  groups = λ s. [];
  embedded_data = λ s. none;
  parameters = λ s. none;
  digest = λ s. 35 ∷ s;
  pages_of = λ s. s ∷ [];
  sort_events = insertion_sort;
  sort_names = insertion_sort;
  sort_testcases = insertion_sort;
}

abbrev pub schema : Schema ℤ
schema = record {
  user_violation = λ r d. none;
  participation_violation = λ r d. none;
  submission_violation = λ r d. none;
  object_violation = λ r d. none;
  file_violation = λ r d. none;
}

abbrev pub settings : Settings
settings = record { cms_contest_id = pos 1; now = pos 5000000000 }

abbrev pub bcrypt : Bcrypt
bcrypt = record { generate = λ salt p. ok p; compare_hash = plain_compare }

abbrev ana : CmsUser
ana = record {
  id = pos 1;
  username = codes "ana";
  password = [];
  first_name = [];
  last_name = [];
  preferred_languages = [];
}

abbrev participation : Participation
participation = record {
  id = pos 11;
  user_id = pos 1;
  contest_id = pos 1;
  hidden = false;
  unrestricted = false;
  delay_time = pos 0;
  extra_time = pos 0;
}

abbrev dataset : Dataset
dataset = record {
  id = pos 70;
  task_id = pos 7;
  description = [];
  score_type = codes "Sum";
  score_type_parameters = codes "5";
}

abbrev testcases : List TestcaseRow
testcases =
    record { id = pos 71; dataset_id = pos 70; codename = codes "2" }
    ∷ record { id = pos 72; dataset_id = pos 70; codename = codes "1" }
    ∷ []

abbrev sent : CmsSubmission
sent = record {
  id = pos 42;
  participation_id = some (pos 11);
  task_id = pos 7;
  timestamp = pos 5000000000;
  language = codes "C++11 / g++";
  comment = [];
  official = true;
}

abbrev outcome : ResultRow ℤ
outcome = record {
  submission_id = pos 42;
  compilation_outcome = some (codes "ok");
  compilation_stderr = none;
  evaluation_outcome = some (codes "ok");
  score = some (pos 5);
  score_details = some (codes "[]");
}

-- The first testcase passes.
abbrev evaluations : List (Evaluation ℤ)
evaluations =
    record {
      submission_id = pos 42;
      testcase_id = pos 71;
      outcome = some (codes "0");
      messages = [];
      execution_time = none;
      execution_memory = none;
    }
    ∷ record {
      submission_id = pos 42;
      testcase_id = pos 72;
      outcome = some (codes "1");
      messages = [];
      execution_time = none;
      execution_memory = none;
    }
    ∷ []

-- The task arrived after the submission, and a row from before the start was never deleted.
abbrev pub queue : List QueueRow
queue =
    record { id = pos 1; foreign_id = pos 9; object_type = codes "submission"; seen = true }
    ∷ record { id = pos 2; foreign_id = pos 42; object_type = codes "submission"; seen = false }
    ∷ record { id = pos 3; foreign_id = pos 7; object_type = codes "task"; seen = false }
    ∷ []

abbrev pub contest_db : CmsDb ℤ
contest_db = record {
  users = ana ∷ [];
  participations = participation ∷ [];
  tasks =
      record { id = pos 7; name = codes "suma"; title = codes "Suma"; submission_format = [] } ∷ [];
  datasets = dataset ∷ [];
  testcases = testcases;
  submissions = sent ∷ [];
  results = outcome ∷ [];
  evaluations = evaluations;
  files = [];
  attachments = [];
  statements = [];
  objects = [];
  pages = [];
  queue = queue;
}

abbrev pub contest : CmsWorld ℤ
contest = record {
  db = contest_db;
  sequences = record {
    users = 1;
    participations = 11;
    submissions = 42;
    events = 3;
    large_objects = 0;
  };
  schedule = [];
  secrets = [];
  aborted = false;
  leaked = 0;
}

abbrev pub joint : Server ℤ (CmsWorld ℤ)
joint = record { judge = world; contest = contest; clock = pos 9000000000; mock_time = none }

abbrev pub joint_config : Config ℤ (CmsWorld ℤ)
joint_config = judge_config go schema settings bcrypt (pos 1000000000) false
