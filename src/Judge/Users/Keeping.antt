-- ===== src/Judge/Users/Keeping.antt =====
-- What holds of the tables through `CheckUserToken` of oiajudge/pkg/oiajudge/store.go.
use oiaj.Base.{Option, none, some, inl, inr, Bool-cases}
use oiaj.Text.Bytes.{Bytes, bytes_eq}
use oiaj.Bridge.{ObjectId}
use oiaj.Store.Session.Keeping.{IsKeeping, >>=-IsKeeping, query_row-IsKeeping}
use oiaj.Judge.Tables.{Db}
use oiaj.Judge.Users.{
  Credential, read_token, fetch_secret, compare_secret, check_user_token, check_credential,
  select_secret,
}

module _ {F : Type 0} (P : Db F → Type 0) where
  compare_secret-IsKeeping :
      (c : Credential) (secret : Bytes) → IsKeeping P (compare_secret {F = F} c secret)
  unfolding compare_secret
  compare_secret-IsKeeping c secret w h = elim (Bool-cases (bytes_eq secret c.value)) [
    | inl same ↦ rw same h
    | inr other ↦ rw other h
  ]

  check_credential-IsKeeping :
      (uid : ObjectId) (o : Option Credential) → IsKeeping P (check_credential {F = F} uid o)
  unfolding check_credential fetch_secret select_secret
  check_credential-IsKeeping uid none w h = h
  check_credential-IsKeeping uid (some c) w p =
      >>=-IsKeeping P (fetch_secret uid c) (compare_secret c)
        (query_row-IsKeeping P _ (select_secret c.token_id uid) λ d s h. h)
        (compare_secret-IsKeeping c) w p

  pub check_user_token-IsKeeping :
      (uid : ObjectId) (token : Bytes) → IsKeeping P (check_user_token {F = F} uid token)
  unfolding check_user_token
  check_user_token-IsKeeping uid token = check_credential-IsKeeping uid (read_token token)
