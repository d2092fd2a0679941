-- ===== src/Judge/Api/Accounts.antt =====
-- What the API functions of oiajudge/pkg/oiajudge/api.go do to the scores.
use oiaj.Base.{Bool-cases, inl, inr}
use oiaj.Base.Int.{ℤ, ◌+ℤ◌, ltb_ℤ}
use oiaj.Text.Bytes.{Bytes}
use oiaj.Bridge.{ObjectId, Arith}
use oiaj.Store.Errors.{Outcome, ok, err, panic}
use oiaj.Store.Action.{◌>>=◌, pure, recover, lift}
use oiaj.Store.Session.{read_random}
use oiaj.Store.Session.Keeping.{
  IsKeeping, >>=-IsKeeping, recover-IsKeeping, query_row-IsKeeping, read_random-IsKeeping,
}
use oiaj.Judge.Tables.{JudgeTx}
use oiaj.Judge.Users.{
  create_user, create_user_token, get_user_password_and_id, select_stamp, last_user_submission,
  set_user_submission,
}
use oiaj.Judge.Users.Clock.{from_milli}
use oiaj.Judge.Users.Accounts.{
  IsSettled, create_user-IsSettled, create_user_token-IsSettled, set_user_submission-IsSettled,
}
use oiaj.Judge.Server.{Bcrypt}
use oiaj.Judge.Api.{
  CreateUserQuery, UserLoginQuery, decide_submission, admit_submission, open_session, make_user,
  register, no_user, check_password, enter, login,
}

module _ {F : Type 0} (num : Arith F) where
  abbrev Settles : {A : Type 0} → JudgeTx F A → Type 0
  Settles m = IsKeeping (IsSettled num) m

  last_user_submission-IsSettled : (uid : ObjectId) → Settles (last_user_submission uid)
  unfolding last_user_submission select_stamp
  last_user_submission-IsSettled uid =
      >>=-IsKeeping (IsSettled num) (select_stamp uid) (λ unixms. pure (from_milli unixms))
        (query_row-IsKeeping (IsSettled num) _ _ λ d s h. h) λ ms w h. h

  decide_submission-IsSettled :
      (cooldown now : ℤ) (uid : ObjectId) (last : ℤ)
      → Settles (decide_submission cooldown now uid last)
  unfolding decide_submission
  decide_submission-IsSettled cooldown now uid last w h =
      elim (Bool-cases (ltb_ℤ now (last +ℤ cooldown))) [
        | inl early ↦ rw early h
        | inr due ↦ rw due (
            recover-IsKeeping (IsSettled num) (set_user_submission uid now) (λ e. pure tt)
              (set_user_submission-IsSettled num uid now) (λ e w h. h) w h)
      ]

  pub admit_submission-IsSettled :
      (cooldown now : ℤ) (uid : ObjectId) → Settles (admit_submission cooldown now uid)
  unfolding admit_submission
  admit_submission-IsSettled cooldown now uid =
      >>=-IsKeeping (IsSettled num) (last_user_submission uid)
        (λ last. decide_submission cooldown now uid last) (last_user_submission-IsSettled uid)
        (decide_submission-IsSettled cooldown now uid)

  open_session-IsSettled : (uid : ObjectId) → Settles (open_session uid)
  unfolding open_session
  open_session-IsSettled uid =
      >>=-IsKeeping (IsSettled num) (create_user_token uid)
        (λ token. pure (record { user_id = uid; token = token }))
        (create_user_token-IsSettled num uid) λ token w h. h

  make_user-IsSettled :
      (bcrypt : Bcrypt) (q : CreateUserQuery) (id : ObjectId) → Settles (make_user num bcrypt q id)
  unfolding make_user
  make_user-IsSettled bcrypt q id =
      >>=-IsKeeping (IsSettled num) read_random
        (λ salt. lift (bcrypt.generate salt q.password) >>= λ hash.
          create_user num q.email q.username id hash)
        (read_random-IsKeeping (IsSettled num))
        λ salt.
          >>=-IsKeeping (IsSettled num) (lift (bcrypt.generate salt q.password))
            (λ hash. create_user num q.email q.username id hash) (λ w h. h)
            λ hash. create_user-IsSettled num q.email q.username id hash

  pub register-IsSettled :
      (bcrypt : Bcrypt) (q : CreateUserQuery) (id : ObjectId) → Settles (register num bcrypt q id)
  unfolding register
  register-IsSettled bcrypt q id =
      >>=-IsKeeping (IsSettled num) (make_user num bcrypt q id) open_session
        (make_user-IsSettled bcrypt q id) open_session-IsSettled

  check_password-IsSettled : (r : Outcome Unit) → Settles (check_password r)
  unfolding check_password
  check_password-IsSettled (ok u) w h = h
  check_password-IsSettled (err e) w h = h
  check_password-IsSettled (panic m) w h = h

  enter-IsSettled :
      (bcrypt : Bcrypt) (password : Bytes) (found : Bytes × ObjectId)
      → Settles (enter bcrypt password found)
  unfolding enter
  enter-IsSettled bcrypt password (hash, uid) =
      >>=-IsKeeping (IsSettled num) (check_password (bcrypt.compare_hash hash password))
        (λ _. open_session uid) (check_password-IsSettled (bcrypt.compare_hash hash password))
        λ u. open_session-IsSettled uid

  pub login-IsSettled : (bcrypt : Bcrypt) (q : UserLoginQuery) → Settles (login bcrypt q)
  unfolding login get_user_password_and_id no_user
  login-IsSettled bcrypt q =
      >>=-IsKeeping (IsSettled num) (recover (get_user_password_and_id q.username) no_user)
        (enter bcrypt q.password)
        (recover-IsKeeping (IsSettled num) (get_user_password_and_id q.username) no_user
          (query_row-IsKeeping (IsSettled num) _ _ λ d s h. h) λ e w h. h)
        (enter-IsSettled bcrypt q.password)
