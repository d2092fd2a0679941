-- ===== src/Store/Listen.antt =====
-- `ListenOn` of oiajudge/pkg/store/store.go.
use oiaj.Base.{◌+◌, ◌≡◌, none, some, arith}
use oiaj.Text.Bytes.{Bytes, codes}
use oiaj.Store.Errors.{database, ok, err}
use oiaj.Store.Session.{World, Tx, next_fault, pass, code_of}

module _ {D S : Type 0} where
  -- `conn.Exec(ctx, "LISTEN event_queue")`: the name that the caller gives is not read. A connection
  -- that cannot listen is not released.
  listen_event_queue : Tx D S Bytes
  listen_event_queue w = elim (next_fault w) [
    | some f ↦ (err (database (code_of f)), record (pass w) { leaked = w.leaked + 1 })
    | none ↦ (ok (codes "event_queue"), pass w)
  ]

  -- The channel of PostgreSQL whose notifications arrive.
  unfoldable pub listen_on : Bytes → Tx D S Bytes
  unfolding listen_event_queue
  listen_on channel w = elim (next_fault w) [
    | some f ↦ (err (database (code_of f)), pass w)
    | none ↦ listen_event_queue (pass w)
  ]

  -- Listening changes no table, and no sequence.
  pub listen_on-db : (channel : Bytes) (w : World D S) → (listen_on channel w).1.db ≡ w.db
  unfolding listen_on listen_event_queue
  listen_on-db channel w = ground arith
