-- ===== src/Judge/Tests/Data.antt =====
-- A judge with one user, one task and one submission, a contest system that answers with that
-- submission, and integers for the scores.
use oiaj.Base.{suc, ◌*◌, refl, true, false, none, some, [], ◌∷◌, arith, if◌then◌else◌}
use oiaj.Base.Int.{ℤ, pos, negsuc, ◌+ℤ◌, ◌-ℤ◌, ltb_ℤ, sub_ℕ, eq_ℤ, eq_of_parts, int_laws}
use oiaj.Text.Bytes.{Bytes, codes, bytes_eq}
use oiaj.Bridge.{Arith, SubmissionResult, scored, Submission, Bridge}
use oiaj.Store.Errors.{plain, text, Outcome, ok, err}
use oiaj.Judge.Tables.{UserRow, TokenRow, TaskRow, Db, JudgeWorld}
use oiaj.Judge.Server.{Config, Server}
use oiaj.Judge.Updater.Balance.{IsExact, total_of, IsBalanced}
use oiaj.Judge.Updater.Best.{IsMax}

abbrev mul_ℤ : ℤ → ℤ → ℤ
mul_ℤ (pos a) (pos b) = pos (a * b)
mul_ℤ (pos a) (negsuc b) = sub_ℕ 0 (a * suc b)
mul_ℤ (negsuc a) (pos b) = sub_ℕ 0 (suc a * b)
mul_ℤ (negsuc a) (negsuc b) = pos (suc a * suc b)

abbrev max_ℤ : ℤ → ℤ → ℤ
max_ℤ a b = if ltb_ℤ a b then b else a

abbrev pub num_ℤ : Arith ℤ
num_ℤ = record {
  zero = pos 0;
  one = pos 1;
  add = ◌+ℤ◌;
  sub = ◌-ℤ◌;
  mul = mul_ℤ;
  max = max_ℤ;
  to_real = λ x. x;
  is_finite = λ x. true;
  text_of = λ s. s;
  has_year = λ t. true;
}

pub num_ℤ-IsExact : IsExact num_ℤ
unfolding ◌+ℤ◌ ◌-ℤ◌
num_ℤ-IsExact = record {
  comm = λ a b. ground arith;
  assoc = λ a b c. omega int_laws;
  add_zero = λ a. ground arith;
  sub_add = λ a b. omega int_laws;
  fits = λ a. refl;
}

pub num_ℤ-IsMax : IsMax num_ℤ
num_ℤ-IsMax = record {
  comm = λ a b. ground (arith, eq_of_parts a b);
  assoc = λ a b c. ground arith;
  selective = λ a b. ground arith;
}

abbrev pub user : UserRow ℤ
user = record {
  id = pos 1;
  email = codes "ana@oia.ar";
  is_email_verified = false;
  username = codes "ana";
  password_hash = codes "mate";
  score = pos 6;
  last_submission_ms = pos 5000;
}

abbrev pub token_row : TokenRow
token_row = record { id = pos 3; user_id = pos 1; secret = 7 ∷ 200 ∷ [] }

abbrev task_row : TaskRow ℤ
task_row = record {
  id = pos 7;
  title = codes "Suma";
  name = codes "suma";
  statement = [];
  max_score = pos 100;
  submission_format = codes "suma.%l" ∷ [];
  tags = [];
  multiplier = pos 2;
  attachments = [];
}

abbrev result : SubmissionResult ℤ
result = record {
  score = record { score = pos 9; max_score = pos 100 };
  subtasks =
      record {
        subtask = pos 0;
        score = record { score = pos 5; max_score = pos 50 };
        testcases = [];
      }
      ∷ record {
        subtask = pos 1;
        score = record { score = pos 4; max_score = pos 50 };
        testcases = [];
      }
      ∷ [];
  testcases = [];
}

abbrev pub attempt : Submission ℤ
attempt = record {
  id = pos 42;
  user_id = pos 1;
  problem_id = pos 7;
  submission_status = scored;
  timestamp = pos 5000000000;
  compilation_message = [];
  result = some result;
  deleted = false;
}

-- The user had three points before the multiplier, all of one subtask.
abbrev pub db : Db ℤ
db = record {
  users = user ∷ [];
  tokens = token_row ∷ [];
  submissions = [];
  tasks = task_row ∷ [];
  task_scores = record { user_id = pos 1; task_id = pos 7; score = pos 6; base_score = pos 3 } ∷ [];
}

abbrev pub world : JudgeWorld ℤ
world = record {
  db = db;
  sequences = 3;
  schedule = [];
  secrets = (9 ∷ 8 ∷ []) ∷ [];
  aborted = false;
  leaked = 0;
}

abbrev contest : Bridge ℤ Unit
contest = record {
  create_user = λ name b. (ok (pos 2), b);
  get_submission = λ id b. (ok (record attempt { id = id }), b);
  get_task = λ id b. (err (plain (text "no task")), b);
  make_submission = λ user task sources b. (ok tt, b);
  get_attachment = λ id name b. (ok [], b);
}

-- A password is its own hash, and an empty hash matches nothing.
abbrev pub plain_compare : Bytes → Bytes → Outcome Unit
plain_compare [] p = err (plain (text "hash too short"))
plain_compare (c ∷ hash) p = if bytes_eq (c ∷ hash) p then ok tt else err (plain (text "mismatch"))

abbrev pub config : Config ℤ Unit
config = record {
  num = num_ℤ;
  bridge = contest;
  bcrypt = record { generate = λ salt p. ok p; compare_hash = plain_compare };
  submission_cooldown = pos 1000000000;
  debug = false;
}

abbrev pub server : Server ℤ Unit
server = record { judge = world; contest = tt; clock = pos 9000000000; mock_time = none }

pub db-IsBalanced : IsBalanced num_ℤ db
unfolding ◌+ℤ◌ eq_ℤ total_of
db-IsBalanced = record { sums = (refl, tt); keyed = (refl, tt) }
