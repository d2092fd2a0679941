-- ===== src/Cms/Users.antt =====
-- `CreateUser` of oiajudge/pkg/cmsbridge/store.go.
use oiaj.Base.{◌+◌, false, none, some, [], ◌∷◌, ◌++◌, first}
use mathlib.Core.Option
use oiaj.Base.Int.{pos}
use oiaj.Text.Bytes.{Bytes, codes, bytes_eq}
use oiaj.Bridge.{ObjectId}
use oiaj.Store.Errors.{ok, err}
use oiaj.Store.Action.{◌>>=◌, ◌>>◌, pure}
use oiaj.Store.Session.{exec, query_row}
use oiaj.Cms.Tables.{CmsUser, Participation, CmsTx, CmsSql, Schema}

module _ {F : Type 0} (schema : Schema F) where
  unfoldable pub insert_cms_user : Bytes → CmsSql F Unit
  insert_cms_user username d s =
      let row : CmsUser = record {
        id = pos (s.users + 1);
        username = username;
        password = codes "plaintext:dummy";
        first_name = [];
        last_name = [];
        preferred_languages = [];
      } in
      let s' = record s { users = s.users + 1 } in
      elim (schema.user_violation row d) [
        | none ↦ (ok tt, record d { users = d.users ++ row ∷ [] }, s')
        | some e ↦ (err e, d, s')
      ]

  unfoldable pub insert_participation : ObjectId → ObjectId → CmsSql F Unit
  insert_participation uid cid d s =
      let row : Participation = record {
        id = pos (s.participations + 1);
        user_id = uid;
        contest_id = cid;
        hidden = false;
        unrestricted = false;
        delay_time = pos 0;
        extra_time = pos 0;
      } in
      let s' = record s { participations = s.participations + 1 } in
      elim (schema.participation_violation row d) [
        | none ↦ (ok tt, record d { participations = d.participations ++ row ∷ [] }, s')
        | some e ↦ (err e, d, s')
      ]

  unfoldable pub find_cms_user : Bytes → CmsTx F ObjectId
  find_cms_user username =
      query_row "SELECT id FROM users WHERE username = $1" λ d s.
        (ok (Option.map (λ u. u.id) (first (λ u. bytes_eq u.username username) d.users)), d, s)

  unfoldable pub add_participation : ObjectId → ObjectId → CmsTx F ObjectId
  unfolding insert_participation
  add_participation cid d =
      exec
        "INSERT INTO participations (user_id, contest_id, hidden, unrestricted, delay_time, extra_time) VALUES ($1, $2, $3, $4, $5, $6)"
        (insert_participation d cid)
      >> pure d

  -- `CreateUser`
  unfoldable pub create_user : ObjectId → Bytes → CmsTx F ObjectId
  unfolding insert_cms_user find_cms_user add_participation
  create_user cid username = do
    exec
        "INSERT INTO users (username, password, first_name, last_name, preferred_languages) VALUES ($1, $2, $3, $4, $5)"
        (insert_cms_user username)
    d ← find_cms_user username
    add_participation cid d
