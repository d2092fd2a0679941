-- ===== src/Judge/Http.antt =====
-- The handlers around the API functions: `Outer`, `NoAuth`, `WithUserAuth`, `ServeStatement` and
-- `ServeAttachment` of oiajudge/pkg/oiajudge/sever.go. A response is its status and its body; the
-- text of an error in a body is the error itself.
pub mod Auth
pub mod Bearer
pub mod Keeping
pub mod Calm
pub mod Files
use oiaj.Base.{ℕ, String, Bool, Option, none, some, [], ◌∷◌, ◌==◌, if◌then◌else◌}
use oiaj.Base.Int.{ℤ}
use oiaj.Text.Bytes.{Bytes, codes, bytes_eq}
use oiaj.Text.Decimal.{parse_int}
use oiaj.Bridge.{ObjectId}
use oiaj.Store.Errors.{
  Error, json_unsupported_value, json_syntax, oia, oia_caused, text, Outcome, ok, err, panic,
}
use oiaj.Store.Action.{◌>>=◌, ◌>>◌, pure, throw, recover}
use oiaj.Store.Session.{with_local_tx}
use oiaj.Judge.Users.{check_user_token}
use oiaj.Judge.Server.{Config, Server, Api, on_judge}
use oiaj.Judge.Api.{get_task_statement, get_attachment}

-- What a handler reads of a request whose body decodes to `Q`: `body` is `none` where
-- `json.Decoder` fails, and a missing header is empty.
pub record Request (Q : Type 0) : Type 0 where
  pub body : Option Q
  pub authorization : Bytes

pub data Body (R : Type 0) : Type 0 where
  empty : Body R
  json : R → Body R
  raw : Bytes → Body R
  error_text : Error → Body R
  unexpected_error : Error → Body R
  literal : String → Body R

pub record Response (R : Type 0) : Type 0 where
  pub status : ℕ
  pub body : Body R

-- `err.(*OiaError)` looks at the error itself, not at what it wraps.
unfoldable pub process_error : {R : Type 0} → Error → Response R
process_error (oia code m) = record { status = code; body = error_text (oia code m) }
process_error (oia_caused code m e) = record {
  status = code;
  body = error_text (oia_caused code m e);
}
process_error e = record { status = 500; body = unexpected_error e }

-- `strings.HasPrefix` and `strings.TrimPrefix` together.
strip_prefix : Bytes → Bytes → Option Bytes
strip_prefix [] s = some s
strip_prefix (p ∷ ps) [] = none
strip_prefix (p ∷ ps) (c ∷ s) = if p == c then strip_prefix ps s else none

-- The token of an `Authorization` header.
unfoldable pub bearer_token : Bytes → Option Bytes
unfolding strip_prefix
bearer_token header = strip_prefix (codes "Bearer ") header

abbrev pub malformed_auth : Error
malformed_auth =
    oia 400 (text "Authorization header must be of the form `Bearer <token-id>:<token-value>`")

abbrev pub bad_json : Error
bad_json = oia_caused 400 (text "could not parse json body") json_syntax

abbrev pub unauthorized : Error → Error
unauthorized e = oia_caused 401 (text "Unauthorized") e

module _ {F B : Type 0} where
  -- An error ends the request with a response.
  respond_error :
      {R : Type 0} → Outcome (Response R) × Server F B → Outcome (Response R) × Server F B
  respond_error (ok r, s) = (ok r, s)
  respond_error (err e, s) = (ok (process_error e), s)
  respond_error (panic m, s) = (panic m, s)

  body_of : {Q : Type 0} → Option Q → Api F B Q
  body_of none = throw bad_json
  body_of (some q) = pure q

  -- `Outer`: `marshals` says which results `json.Marshal` accepts.
  unfoldable pub outer :
      {Q R : Type 0}
      → (R → Bool)
      → (Q → Bytes → Api F B Unit)
      → (Q → Api F B R)
      → Request Q
      → Api F B (Response R)
  unfolding respond_error body_of process_error
  outer marshals auth handler r s = respond_error (
      (do
        query ← body_of r.body
        auth query r.authorization
        resp ← handler query
        if marshals resp
            then pure (record { status = 200; body = json resp })
            else throw json_unsupported_value)
        s)

  -- `NoAuth`
  unfoldable pub no_auth :
      {Q R : Type 0} → (R → Bool) → (Q → Api F B R) → Request Q → Api F B (Response R)
  unfolding outer
  no_auth marshals f = outer marshals (λ q header. pure tt) f

  unfoldable pub check_bearer : ObjectId → Option Bytes → Api F B Unit
  unfolding check_user_token
  check_bearer uid none = throw malformed_auth
  check_bearer uid (some token) =
      on_judge (with_local_tx (recover (check_user_token uid token) (λ e. throw (unauthorized e))))

  -- The authenticator of `WithUserAuth`.
  unfoldable pub authenticate : ObjectId → Bytes → Api F B Unit
  unfolding check_bearer bearer_token
  authenticate uid header = check_bearer uid (bearer_token header)

  -- `WithUserAuth`, with the query's `Uid`.
  unfoldable pub with_user_auth :
      {Q R : Type 0}
      → (Q → ObjectId)
      → (R → Bool)
      → (Q → Api F B R)
      → Request Q
      → Api F B (Response R)
  unfolding outer
  with_user_auth uid marshals f = outer marshals (λ q header. authenticate (uid q) header) f

  -- `Health`
  unfoldable pub health : Api F B (Response Unit)
  health = pure (record { status = 200; body = empty })

  abbrev bad_request : Body Unit → Api F B (Response Unit)
  bad_request b = pure (record { status = 400; body = b })

  module _ (config : Config F B) where
    statement_of : Option ℤ → Api F B (Response Unit)
    unfolding get_task_statement
    statement_of none = bad_request empty
    statement_of (some tid) =
        recover
          (do
            statement ← get_task_statement config tid
            pure (record { status = 200; body = raw statement }))
          (λ e. bad_request empty)

    -- `ServeStatement`; `tid_s` is the variable that the router matched, if it has one.
    unfoldable pub serve_statement : Option Bytes → Api F B (Response Unit)
    unfolding statement_of
    serve_statement none = bad_request empty
    serve_statement (some tid_s) = statement_of (parse_int tid_s)

    attachment_of : Option ℤ → Bytes → Api F B (Response Unit)
    unfolding get_attachment
    attachment_of none filename = bad_request (literal "task_id must be an integer")
    attachment_of (some tid) filename =
        recover
          (do
            attachment ← get_attachment config tid filename
            pure (record { status = 200; body = raw attachment }))
          (λ e. pure (record { status = 500; body = error_text e }))

    -- `ServeAttachment`; a missing query parameter is empty.
    unfoldable pub serve_attachment : Bytes → Bytes → Api F B (Response Unit)
    unfolding attachment_of
    serve_attachment filename tid_s =
        if bytes_eq filename []
        then bad_request (literal "filename is required")
        else if bytes_eq tid_s []
        then bad_request (literal "task_id is required")
        else attachment_of (parse_int tid_s) filename
