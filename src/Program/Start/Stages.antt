-- ===== src/Program/Start/Stages.antt =====
-- The stages of the start of the program (oiajudge/pkg/cmsbridge/cmsbridge.go,
-- oiajudge/pkg/oiajudge/sever.go): what each of them has done where it went through.
use oiaj.Base.{◌≡◌, refl, sym, ap, ◌∙◌, true, Option, none, some, List, map, All, arith}
use mathlib.Core.Path.{subst}
use oiaj.Base.Int.{ℤ}
use oiaj.Text.Bytes.{Bytes, codes}
use oiaj.Store.Errors.{Error, Outcome, ok}
use oiaj.Store.Action.{◌>>=◌, ◌>>◌, pure, lift, >>=-inv, >>=-state, recover-state}
use oiaj.Store.Session.{World, Statement}
use oiaj.Store.Session.Atomic.{started, with_tx-ok}
use oiaj.Store.Migrations.{Versioned, open_table, apply_versions, make_client}
use oiaj.Store.Migrations.Applied.{has}
use oiaj.Store.Migrations.Twice.{applied}
use oiaj.Store.Listen.{listen_on, listen_on-db}
use oiaj.Program.Start.{
  Host, Machine, BridgeConfig, Running, absent, read_port, on_judge_db, on_contest_db,
  create_cms_bridge, listen_for_events, address, scripts_of, bridge_config, open_contest,
  open_judge, hear, listen_and_serve, start_serving, server_config,
}

module _ {T S : Type 0} (run : Bytes → Statement T S Unit) where
  -- A start that has gone through leaves every script recorded.
  make_client-applied :
      (sort_keys : List Bytes → List Bytes) (init_sql : List (Bytes × Bytes))
      (w w' : World (Versioned T) S)
      → make_client run sort_keys init_sql w ≡ (ok tt, w')
      → All (λ k. has k w'.db.versions ≡ true) (sort_keys (map (λ x. x.0) init_sql))
  unfolding make_client
  make_client-applied sort_keys init_sql w w' ran =
      let keys = sort_keys (map (λ x. x.0) init_sql) in
      let body = open_table >> apply_versions run init_sql keys in
      let (returned, committed) = with_tx-ok body w tt (ap (λ x. x.0) ran) in
      let w2 = (body (started w)).1 in
      let last : w2.db ≡ w'.db = sym (ap (λ x. x.1.db) (sym ran) ∙ committed.0) in
      let (stand, rest) =
        applied run init_sql keys (started w) w2 (ap (λ o. (o, w2)) returned) committed.1 in
      subst (λ d. All (λ k. has k d.versions ≡ true) keys) last stand

absent-inv :
    {W : Type 0} (o : Option Error) (w w' : W) → absent o w ≡ (ok tt, w') → (o ≡ none) × (w ≡ w')
unfolding absent
absent-inv none w w' h = (refl, ap (λ x. x.1) h)
absent-inv (some e) w w' h = absurd (ground arith)

pub read_port-inv :
    {W : Type 0} (o : Option ℤ) (n : ℤ) (w w' : W)
    → read_port o w ≡ (ok n, w')
    → (o ≡ some n) × (w ≡ w')
unfolding read_port
read_port-inv none n w w' h = absurd (ground arith)
read_port-inv (some m) n w w' h = (ground arith, ap (λ x. x.1) h)

module _ {J C S Q : Type 0} (host : Host J C S Q) where
  -- Every script of a package is recorded.
  pub record IsApplied {T : Type 0} (files : Outcome (List (Bytes × Bytes))) (d : Versioned T)
      : Type 0 where
    pub sql : List (Bytes × Bytes)
    pub read : files ≡ ok sql
    pub recorded : All (λ k. has k d.versions ≡ true) (host.sort_keys (map (λ x. x.0) sql))

  abbrev pub Recorded : {T : Type 0} → List (Bytes × Bytes) → Versioned T → Type 0
  Recorded sql d = All (λ k. has k d.versions ≡ true) (host.sort_keys (map (λ x. x.0) sql))

  open_contest-inv :
      (sql : List (Bytes × Bytes)) (s s' : Machine J C S Q)
      → open_contest host sql s ≡ (ok tt, s')
      → Recorded sql s'.contest.db
  unfolding open_contest
  open_contest-inv sql s s' h =
      let client = make_client host.run_bridge host.sort_keys sql in
      let (u, s1, pooled, made) =
        >>=-inv (absent (host.new_pool (address host))) (λ _. on_contest_db client) s h in
      make_client-applied host.run_bridge host.sort_keys sql s1.contest s'.contest
        (ap (λ x. (x.0, x.1.contest)) made)

  open_judge-inv :
      (sql : List (Bytes × Bytes)) (s s' : Machine J C S Q)
      → open_judge host sql s ≡ (ok tt, s')
      → Recorded sql s'.judge.db × (s'.contest.db ≡ s.contest.db)
  unfolding open_judge
  open_judge-inv sql s s' h =
      let client = make_client host.run_judge host.sort_keys sql in
      let (u, s1, pooled, made) =
        >>=-inv (absent (host.new_pool (address host))) (λ _. on_judge_db client) s h in
      let (free, same) = absent-inv (host.new_pool (address host)) s s1 pooled in
      (
        make_client-applied host.run_judge host.sort_keys sql s1.judge s'.judge
            (ap (λ x. (x.0, x.1.judge)) made),
        ap (λ x. x.1.contest.db) (sym made) ∙ ap (λ x. x.contest.db) (sym same),
      )

  pub create_cms_bridge-inv :
      (s s' : Machine J C S Q) (b : BridgeConfig)
      → create_cms_bridge host s ≡ (ok b, s')
      → IsApplied (scripts_of host host.bridge_files) s'.contest.db
  unfolding create_cms_bridge bridge_config
  create_cms_bridge-inv s s' b h =
      let (sql, s1, read, h1) =
        >>=-inv (lift (scripts_of host host.bridge_files))
          (λ sql. open_contest host sql >> pure (bridge_config host)) s h in
      let (u, s2, opened, h2) =
        >>=-inv (open_contest host sql) (λ _. pure (bridge_config host)) s1 h1 in
      record {
        sql = sql;
        read = ap (λ x. x.0) read;
        recorded = open_contest-inv sql s1 s' (opened ∙ ap (λ t. (ok tt, t)) (ap (λ x. x.1) h2));
      }

  listen_for_events-tables :
      (s : Machine J C S Q)
      → ((listen_for_events host s).1.judge ≡ s.judge)
        × ((listen_for_events host s).1.contest.db ≡ s.contest.db)
  unfolding listen_for_events hear
  listen_for_events-tables s =
      let G = λ (t : Machine J C S Q). (t.judge ≡ s.judge) × (t.contest.db ≡ s.contest.db) in
      let heard : G (hear host s).1 =
        >>=-state G (on_contest_db (listen_on (codes "event_queue")))
          (λ channel. pure (some channel)) s (refl, listen_on-db (codes "event_queue") s.contest)
          λ channel. (refl, listen_on-db (codes "event_queue") s.contest) in
      recover-state G (hear host) (λ e. pure none) s heard λ e. heard

  listen_and_serve-inv :
      (b : BridgeConfig) (port : ℤ) (events : Option Bytes) (running : Running)
      (s s' : Machine J C S Q)
      → listen_and_serve host b port events s ≡ (ok running, s')
      → (host.port_error port ≡ none)
        × (running ≡ record { bridge = b; config = server_config host port; events = events })
        × (s' ≡ s)
  unfolding listen_and_serve
  listen_and_serve-inv b port events running s s' h =
      let (u, s1, free, done) =
        >>=-inv (absent (host.port_error port))
          (λ _. pure (record { bridge = b; config = server_config host port; events = events })) s
          h in
      let (none_there, same) = absent-inv (host.port_error port) s s1 free in
      (none_there, ground arith, ap (λ x. x.1) (sym done) ∙ sym same)

  -- What the end of `RunServer` leaves, when the server serves.
  pub record IsStarted (b : BridgeConfig) (port : ℤ) (running : Running) (s s' : Machine J C S Q)
      : Type 0 where
    pub free : host.port_error port ≡ none
    pub config : running.config ≡ server_config host port
    pub contest : s'.contest.db ≡ s.contest.db

  pub start_serving-inv :
      (b : BridgeConfig) (port : ℤ) (sql : List (Bytes × Bytes)) (running : Running)
      (s s' : Machine J C S Q)
      → start_serving host b port sql s ≡ (ok running, s')
      → Recorded sql s'.judge.db × IsStarted b port running s s'
  unfolding start_serving
  start_serving-inv b port sql running s s' h =
      let (u, s1, opened, h1) =
        >>=-inv (open_judge host sql)
          (λ _. listen_for_events host >>= λ events. listen_and_serve host b port events) s h in
      let (events, s2, heard, served) =
        >>=-inv (listen_for_events host) (λ events. listen_and_serve host b port events) s1 h1 in
      let (recorded, apart) = open_judge-inv sql s s1 opened in
      let (judge, contest) = listen_for_events-tables s1 in
      let (free, is, same) = listen_and_serve-inv b port events running s2 s' served in
      let after : (listen_for_events host s1).1 ≡ s' = ap (λ x. x.1) heard ∙ sym same in
      (
        subst (λ d. Recorded sql d) (ap (λ w. w.db) (sym judge) ∙ ap (λ t. t.judge.db) after)
            recorded,
        record {
          free = free;
          config = ap (λ r. r.config) is;
          contest = ap (λ t. t.contest.db) (sym after) ∙ contest ∙ apart;
        },
      )
