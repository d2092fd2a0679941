-- ===== src/Judge/Http/Files.antt =====
-- Responses of `ServeStatement` and `ServeAttachment` of oiajudge/pkg/oiajudge/sever.go.
use oiaj.Base.{refl, inl, inr, Option, none, some, [], Bool-cases}
use oiaj.Base.Int.{ℤ}
use oiaj.Text.Bytes.{Bytes, bytes_eq}
use oiaj.Text.Decimal.{parse_int}
use oiaj.Bridge.{ObjectId}
use oiaj.Store.Errors.{Error, Outcome, ok, err, panic}
use oiaj.Store.Action.{Action, ◌>>=◌, pure, recover}
use oiaj.Store.Action.Calm.{Calm, IsCalm, pure-IsCalm, >>=-IsCalm}
use oiaj.Judge.Server.{Config, Server, Api}
use oiaj.Judge.Api.{get_task_statement, get_attachment}
use oiaj.Judge.Http.{Body, Response, statement_of, serve_statement, attachment_of, serve_attachment}
use oiaj.Judge.Http.Calm.{Answers, Still}

recovered-Answers :
    {W A : Type 0} (G : W → Type 0) (x : Outcome A × W) (h : Error → Action W A)
    → Calm G x
    → ((e : Error) (w : W) → Answers (h e w))
    → Answers (recover (λ w. x) h x.1)
recovered-Answers G (ok a, w) h c k = (a, w, refl)
recovered-Answers G (err e, w) h c k = k e w
recovered-Answers G (panic m, w) h c k = absurd (c.returns m refl)

module _ {F B : Type 0} (config : Config F B) (Fine : B → Type 0) where
  -- A file that is read is a response, and an error another.
  file-Answers :
      (read : Api F B Bytes) (failed : Error → Response Unit) (s : Server F B)
      → IsCalm (Still Fine) read
      → Still Fine s
      → Answers (
          recover
            (read >>= λ b. pure (record { status = 200; body = Body.raw b }))
            (λ e. pure (failed e))
            s)
  file-Answers read failed s h g =
      recovered-Answers (Still Fine) _ (λ e. pure (failed e))
        (>>=-IsCalm (Still Fine) read (λ b. pure (record { status = 200; body = Body.raw b })) h
          (λ b. pure-IsCalm (Still Fine) (record { status = 200; body = Body.raw b })) s g)
        λ e w. (failed e, w, refl)

  statement_of-Answers :
      (o : Option ℤ) (s : Server F B)
      → ((tid : ObjectId) → IsCalm (Still Fine) (get_task_statement config tid))
      → Still Fine s
      → Answers (statement_of config o s)
  unfolding statement_of
  statement_of-Answers none s h g = (record { status = 400; body = Body.empty }, s, refl)
  statement_of-Answers (some tid) s h g =
      file-Answers (get_task_statement config tid) (λ e. record { status = 400; body = Body.empty })
        s (h tid) g

  pub serve_statement-Answers :
      (o : Option Bytes) (s : Server F B)
      → ((tid : ObjectId) → IsCalm (Still Fine) (get_task_statement config tid))
      → Still Fine s
      → Answers (serve_statement config o s)
  unfolding serve_statement
  serve_statement-Answers none s h g = (record { status = 400; body = Body.empty }, s, refl)
  serve_statement-Answers (some tid_s) s h g = statement_of-Answers (parse_int tid_s) s h g

  attachment_of-Answers :
      (o : Option ℤ) (filename : Bytes) (s : Server F B)
      → ((tid : ObjectId) (name : Bytes) → IsCalm (Still Fine) (get_attachment config tid name))
      → Still Fine s
      → Answers (attachment_of config o filename s)
  unfolding attachment_of
  attachment_of-Answers none filename s h g =
      (record { status = 400; body = Body.literal "task_id must be an integer" }, s, refl)
  attachment_of-Answers (some tid) filename s h g =
      file-Answers (get_attachment config tid filename)
        (λ e. record { status = 500; body = Body.error_text e }) s (h tid filename) g

  pub serve_attachment-Answers :
      (filename tid_s : Bytes) (s : Server F B)
      → ((tid : ObjectId) (name : Bytes) → IsCalm (Still Fine) (get_attachment config tid name))
      → Still Fine s
      → Answers (serve_attachment config filename tid_s s)
  unfolding serve_attachment
  serve_attachment-Answers filename tid_s s h g = elim (Bool-cases (bytes_eq filename [])) [
    | inl missing ↦
        rw missing (record { status = 400; body = Body.literal "filename is required" }, s, refl)
    | inr named ↦ elim (Bool-cases (bytes_eq tid_s [])) [
      | inl missing ↦
          rw (named, missing)
            (record { status = 400; body = Body.literal "task_id is required" }, s, refl)
      | inr given ↦ rw (named, given) (attachment_of-Answers (parse_int tid_s) filename s h g)
    ]
  ]
