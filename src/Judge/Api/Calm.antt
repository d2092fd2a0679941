-- ===== src/Judge/Api/Calm.antt =====
-- Panics in the transactions of oiajudge/pkg/oiajudge/api.go, and in bcrypt.
use oiaj.Base.{◌≢◌, refl, String, inl, inr, Bool-cases}
use oiaj.Base.Int.{ℤ, ◌+ℤ◌, ◌-ℤ◌, ltb_ℤ}
use oiaj.Text.Bytes.{Bytes}
use oiaj.Bridge.{ObjectId, Arith}
use oiaj.Store.Errors.{oia_caused, text, Outcome, ok, err, panic}
use oiaj.Store.Action.{◌>>=◌, pure, recover, lift}
use oiaj.Store.Action.Calm.{
  IsCalm, pure-IsCalm, throw-IsCalm, lift-IsCalm, >>=-IsCalm, recover-IsCalm,
}
use oiaj.Store.Session.{read_random}
use oiaj.Store.Session.Calm.{Quiet, read_random-IsCalm}
use oiaj.Judge.Tables.{JudgeTx}
use oiaj.Judge.Users.{
  create_user, create_user_token, get_user_password_and_id, last_user_submission,
  set_user_submission,
}
use oiaj.Judge.Users.Calm.{
  create_user-IsCalm, create_user_token-IsCalm, get_user_password_and_id-IsCalm,
  last_user_submission-IsCalm, set_user_submission-IsCalm,
}
use oiaj.Judge.Server.{Bcrypt}
use oiaj.Judge.Api.{
  CreateUserQuery, UserLoginQuery, too_many_requests, decide_submission, admit_submission,
  open_session, make_user, register, no_user, check_password, enter, login,
}

-- bcrypt returns a value or an error.
pub record IsTame (bcrypt : Bcrypt) : Type 0 where
  pub generates : (salt password : Bytes) (m : String) → bcrypt.generate salt password ≢ panic m
  pub compares : (hash password : Bytes) (m : String) → bcrypt.compare_hash hash password ≢ panic m

module _ {F : Type 0} where
  abbrev Calmly : {A : Type 0} → JudgeTx F A → Type 0
  Calmly m = IsCalm Quiet m

  decide_submission-IsCalm :
      (cooldown now : ℤ) (uid : ObjectId) (last : ℤ)
      → Calmly (decide_submission cooldown now uid last)
  unfolding decide_submission
  decide_submission-IsCalm cooldown now uid last w g =
      elim (Bool-cases (ltb_ℤ now (last +ℤ cooldown))) [
        | inl early ↦
            rw early (throw-IsCalm Quiet (too_many_requests (last +ℤ cooldown -ℤ now)) w g)
        | inr due ↦ rw due (
            recover-IsCalm Quiet (set_user_submission uid now) (λ e. pure tt)
              (set_user_submission-IsCalm uid now) (λ e. pure-IsCalm Quiet tt) w g)
      ]

  pub admit_submission-IsCalm :
      (cooldown now : ℤ) (uid : ObjectId) → Calmly (admit_submission cooldown now uid)
  unfolding admit_submission
  admit_submission-IsCalm cooldown now uid =
      >>=-IsCalm Quiet (last_user_submission uid) (λ last. decide_submission cooldown now uid last)
        (last_user_submission-IsCalm uid) (decide_submission-IsCalm cooldown now uid)

  open_session-IsCalm : (uid : ObjectId) → Calmly (open_session uid)
  unfolding open_session
  open_session-IsCalm uid =
      >>=-IsCalm Quiet (create_user_token uid)
        (λ token. pure (record { user_id = uid; token = token })) (create_user_token-IsCalm uid)
        λ token. pure-IsCalm Quiet (record { user_id = uid; token = token })

  module _ (bcrypt : Bcrypt) (tame : IsTame bcrypt) where
    make_user-IsCalm :
        (num : Arith F) (q : CreateUserQuery) (id : ObjectId) → Calmly (make_user num bcrypt q id)
    unfolding make_user
    make_user-IsCalm num q id =
        >>=-IsCalm Quiet read_random
          (λ salt. lift (bcrypt.generate salt q.password) >>= λ hash.
            create_user num q.email q.username id hash)
          read_random-IsCalm
          λ salt.
            >>=-IsCalm Quiet (lift (bcrypt.generate salt q.password))
              (λ hash. create_user num q.email q.username id hash)
              (lift-IsCalm Quiet (bcrypt.generate salt q.password) (tame.generates salt q.password))
              λ hash. create_user-IsCalm num q.email q.username id hash

    pub register-IsCalm :
        (num : Arith F) (q : CreateUserQuery) (id : ObjectId) → Calmly (register num bcrypt q id)
    unfolding register
    register-IsCalm num q id =
        >>=-IsCalm Quiet (make_user num bcrypt q id) open_session (make_user-IsCalm num q id)
          open_session-IsCalm

    check_password-IsCalm :
        (r : Outcome Unit) → ((m : String) → r ≢ panic m) → Calmly (check_password r)
    unfolding check_password
    check_password-IsCalm (ok u) h w g = pure-IsCalm Quiet tt w g
    check_password-IsCalm (err e) h w g = throw-IsCalm Quiet (oia_caused 401 (text "") e) w g
    check_password-IsCalm (panic m) h w g = absurd (h m refl)

    enter-IsCalm :
        (password : Bytes) (found : Bytes × ObjectId) → Calmly (enter bcrypt password found)
    unfolding enter
    enter-IsCalm password (hash, uid) =
        >>=-IsCalm Quiet (check_password (bcrypt.compare_hash hash password))
          (λ _. open_session uid)
          (check_password-IsCalm (bcrypt.compare_hash hash password) (tame.compares hash password))
          λ u. open_session-IsCalm uid

    pub login-IsCalm : (q : UserLoginQuery) → Calmly (login bcrypt q)
    unfolding login no_user
    login-IsCalm q =
        >>=-IsCalm Quiet (recover (get_user_password_and_id q.username) no_user)
          (enter bcrypt q.password)
          (recover-IsCalm Quiet (get_user_password_and_id q.username) no_user
            (get_user_password_and_id-IsCalm q.username) λ e. pure-IsCalm Quiet _)
          (enter-IsCalm q.password)
