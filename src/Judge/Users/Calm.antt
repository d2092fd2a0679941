-- ===== src/Judge/Users/Calm.antt =====
-- Panics in the functions of oiajudge/pkg/oiajudge/store.go on `oia_user` and `oia_tokens`.
use oiaj.Base.{inl, inr, Option, none, some, arith, Bool-cases}
use oiaj.Base.Int.{ℤ}
use oiaj.Text.Bytes.{Bytes, bytes_eq}
use oiaj.Bridge.{ObjectId, Arith}
use oiaj.Store.Action.{pure}
use oiaj.Store.Action.Calm.{IsCalm, pure-IsCalm, throw-IsCalm, >>=-IsCalm}
use oiaj.Store.Session.{read_random}
use oiaj.Store.Session.Calm.{Quiet, IsSafe, exec-IsCalm, query_row-IsCalm, read_random-IsCalm}
use oiaj.Judge.Tables.{JudgeTx}
use oiaj.Judge.Users.{
  Credential, insert_user, create_user, insert_token, draw_token, store_secret, create_user_token,
  print_token, read_token, get_user_password_and_id, select_secret, fetch_secret, compare_secret,
  check_credential, check_user_token, malformed_token, invalid_credentials, get_user, select_stamp,
  last_user_submission, set_user_submission,
}
use oiaj.Judge.Users.Clock.{from_milli}

module _ {F : Type 0} where
  abbrev Calmly : {A : Type 0} → JudgeTx F A → Type 0
  Calmly m = IsCalm Quiet m

  pub create_user-IsCalm :
      (num : Arith F) (email username : Bytes) (id : ObjectId) (hash : Bytes)
      → Calmly (create_user num email username id hash)
  unfolding create_user insert_user
  create_user-IsCalm num email username id hash =
      >>=-IsCalm Quiet _ (λ _. pure id) (exec-IsCalm _ (insert_user _) λ d s m h. ground arith)
        λ u. pure-IsCalm Quiet id

  insert_token-IsSafe : (uid : ObjectId) (secret : Bytes) → IsSafe (insert_token {F = F} uid secret)
  unfolding insert_token
  insert_token-IsSafe uid secret d s m h = ground arith

  pub create_user_token-IsCalm : (uid : ObjectId) → Calmly (create_user_token uid)
  unfolding create_user_token store_secret draw_token
  create_user_token-IsCalm uid =
      >>=-IsCalm Quiet read_random (store_secret uid) read_random-IsCalm λ secret.
        >>=-IsCalm Quiet (draw_token uid secret) (λ id. pure (print_token id secret))
          (query_row-IsCalm _ (insert_token uid secret) (insert_token-IsSafe uid secret))
          λ id. pure-IsCalm Quiet (print_token id secret)

  pub get_user_password_and_id-IsCalm :
      (username : Bytes) → Calmly (get_user_password_and_id username)
  unfolding get_user_password_and_id
  get_user_password_and_id-IsCalm username = query_row-IsCalm _ _ λ d s m h. ground arith

  compare_secret-IsCalm : (c : Credential) (secret : Bytes) → Calmly (compare_secret c secret)
  unfolding compare_secret
  compare_secret-IsCalm c secret w g = elim (Bool-cases (bytes_eq secret c.value)) [
    | inl same ↦ rw same (pure-IsCalm Quiet tt w g)
    | inr other ↦ rw other (throw-IsCalm Quiet invalid_credentials w g)
  ]

  check_credential-IsCalm :
      (uid : ObjectId) (o : Option Credential) → Calmly (check_credential uid o)
  unfolding check_credential fetch_secret select_secret
  check_credential-IsCalm uid none w g = throw-IsCalm Quiet malformed_token w g
  check_credential-IsCalm uid (some c) w g =
      >>=-IsCalm Quiet (fetch_secret uid c) (compare_secret c)
        (query_row-IsCalm _ (select_secret c.token_id uid) λ d s m h. ground arith)
        (compare_secret-IsCalm c) w g

  pub check_user_token-IsCalm :
      (uid : ObjectId) (token : Bytes) → Calmly (check_user_token uid token)
  unfolding check_user_token
  check_user_token-IsCalm uid token = check_credential-IsCalm uid (read_token token)

  pub get_user-IsCalm : (uid : ObjectId) → Calmly (get_user uid)
  unfolding get_user
  get_user-IsCalm uid = query_row-IsCalm _ _ λ d s m h. ground arith

  pub last_user_submission-IsCalm : (uid : ObjectId) → Calmly (last_user_submission uid)
  unfolding last_user_submission select_stamp
  last_user_submission-IsCalm uid =
      >>=-IsCalm Quiet (select_stamp uid) (λ unixms. pure (from_milli unixms))
        (query_row-IsCalm _ _ λ d s m h. ground arith) λ ms. pure-IsCalm Quiet (from_milli ms)

  pub set_user_submission-IsCalm : (uid : ObjectId) (t : ℤ) → Calmly (set_user_submission uid t)
  unfolding set_user_submission
  set_user_submission-IsCalm uid t = exec-IsCalm _ _ λ d s m h. ground arith
