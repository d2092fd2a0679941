-- ===== src/Judge/Server.antt =====
-- `Server` of oiajudge/pkg/oiajudge/sever.go, its clock (mock.go) and what it calls.
pub mod Keeping
use oiaj.Base.{Bool, Option, none, some}
use oiaj.Base.Int.{ℤ}
use oiaj.Text.Bytes.{Bytes}
use oiaj.Bridge.{Arith, Bridge}
use oiaj.Store.Errors.{Outcome}
use oiaj.Store.Action.{Action}
use oiaj.Judge.Tables.{JudgeWorld, JudgeTx}

-- golang.org/x/crypto/bcrypt: `generate salt password` is `GenerateFromPassword`, which draws its
-- salt from the random source, and `compare hash password` is `CompareHashAndPassword`.
pub record Bcrypt : Type 0 where
  pub generate : Bytes → Bytes → Outcome Bytes
  pub compare_hash : Bytes → Bytes → Outcome Unit

-- What does not change while the server runs. `submission_cooldown` is in nanoseconds.
pub record Config (F B : Type 0) : Type 0 where
  pub num : Arith F
  pub bridge : Bridge F B
  pub bcrypt : Bcrypt
  pub submission_cooldown : ℤ
  pub debug : Bool

-- `clock` is what `time.Now()` answers; `contest` is the state behind the bridge.
pub record Server (F B : Type 0) : Type 0 where
  pub judge : JudgeWorld F
  pub contest : B
  pub clock : ℤ
  pub mock_time : Option ℤ

abbrev pub Api : Type 0 → Type 0 → Type 0 → Type 0
Api F B A = Action (Server F B) A

module _ {F B : Type 0} where
  abbrev pub on_judge : {A : Type 0} → JudgeTx F A → Api F B A
  on_judge m s = let (r, w) = m s.judge in (r, record s { judge = w })

  abbrev pub on_contest : {A : Type 0} → Action B A → Api F B A
  on_contest m s = let (r, b) = m s.contest in (r, record s { contest = b })

  -- `GetTime`
  unfoldable pub get_time : Server F B → ℤ
  get_time s = elim s.mock_time [ none ↦ s.clock | some t ↦ t ]

  -- `SetMockTime`
  unfoldable pub set_mock_time : ℤ → Server F B → Server F B
  set_mock_time t s = record s { mock_time = some t }

  -- `UnmockTime`
  unfoldable pub unmock_time : Server F B → Server F B
  unmock_time s = record s { mock_time = none }
