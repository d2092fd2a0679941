-- ===== src/Program/Start/Serving.antt =====
-- A program that has started: what `main` of oiajudge/main.go went through.
use oiaj.Base.{◌≡◌, refl, ap, ◌∙◌, ◌⊎◌, ◌≢◌, true, false, All, none, some, List, [], arith}
use oiaj.Base.Int.{ℤ, pos}
use oiaj.Text.Bytes.{Bytes, codes}
use oiaj.Text.Decimal.{parse_int}
use oiaj.Store.Errors.{Error, Outcome, ok, err, panic}
use oiaj.Store.Action.{◌>>=◌, pure, lift, recover, >>=-ok}
use oiaj.Store.Session.{World}
use oiaj.Store.Migrations.{Versioned, make_client}
use oiaj.Store.Migrations.Applied.{has}
use oiaj.Store.Embedded.{Entry, Fs}
use oiaj.Store.Listen.{listen_on}
use oiaj.Judge.Settings.{from_milliseconds}
use oiaj.Program.Start.{
  Host, Machine, BridgeConfig, Running, absent, read_port, scripts_of, address, on_judge_db,
  on_contest_db, open_judge, hear, listen_for_events, server_config, listen_and_serve,
  start_serving, prepare, run_server,
}

-- A channel that cannot be had is none.
without_channel :
    {W : Type 0} (x : Outcome Bytes × W) (e : Error)
    → x.0 ≡ err e
    → recover ((λ w. x) >>= λ channel. pure (some channel)) (λ e. pure none) x.1 ≡ (ok none, x.1)
without_channel (ok c, w) e h = absurd (ground arith)
without_channel (err y, w) e h = refl
without_channel (panic m, w) e h = absurd (ground arith)

-- Every script of a package, which is an entry of its directory but a directory itself, stands among
-- the versions.
pub record IsRecorded {T : Type 0} (files : Fs) (d : Versioned T) : Type 0 where
  pub entries : List Entry
  pub listed : files.read_dir (codes "migrations") ≡ ok entries
  pub recorded : All (λ e. (e.is_dir ≡ true) ⊎ (has e.name d.versions ≡ true)) entries

module _ {J C S Q : Type 0} (host : Host J C S Q) where
  -- What a server that serves has been given, and has done.
  pub record IsServing (running : Running) (s : Machine J C S Q) : Type 0 where
    pub port :
        parse_int (host.getenv (codes "OIAJ_SERVER_PORT")) ≡ some running.config.oia_server_port
    pub free : host.port_error running.config.oia_server_port ≡ none
    pub cooldown :
        (ms : ℤ) × ((parse_int (host.getenv (codes "OIAJ_SUBMISSION_COOLDOWN_MS")) ≡ some ms)
          ⊎ ((parse_int (host.getenv (codes "OIAJ_SUBMISSION_COOLDOWN_MS")) ≡ none)
              × (ms ≡ pos 60000)))
        × (running.config.submission_cooldown ≡ from_milliseconds ms)
    pub debug :
        ((host.getenv (codes "OIAJ_DEBUG") ≡ []) × (running.config.debug ≡ false))
        ⊎ ((host.getenv (codes "OIAJ_DEBUG") ≢ []) × (running.config.debug ≡ true))
    pub judge_scripts : IsRecorded host.judge_files s.judge.db
    pub bridge_scripts : IsRecorded host.bridge_files s.contest.db

  -- Where the port is a number that net/http can listen on, the scripts are read and the client of
  -- the judge's database is made, but the client of the contest system's database gets no connection
  -- or cannot listen on it, `RunServer` serves all the same, and hears no notification.
  pub run_server-deaf :
      (b : BridgeConfig) (port : ℤ) (sql : List (Bytes × Bytes)) (e : Error) (s : Machine J C S Q)
      (w : World (Versioned J) S)
      → parse_int (host.getenv (codes "OIAJ_SERVER_PORT")) ≡ some port
      → scripts_of host host.judge_files ≡ ok sql
      → host.new_pool (address host) ≡ none
      → make_client host.run_judge host.sort_keys sql s.judge ≡ (ok tt, w)
      → (listen_on (codes "event_queue") s.contest).0 ≡ err e
      → host.port_error port ≡ none
      → run_server host b s ≡ (
        ok (record { bridge = b; config = server_config host port; events = none }),
        record { judge = w; contest = (listen_on (codes "event_queue") s.contest).1 },
      )
  unfolding run_server prepare start_serving open_judge listen_for_events hear listen_and_serve
      absent read_port
  run_server-deaf b port sql e s w said read pooled made refused free =
      let s1 : Machine J C S Q = record { judge = w; contest = s.contest } in
      let client = make_client host.run_judge host.sort_keys sql in
      let opened : open_judge host sql s ≡ (ok tt, s1) =
        >>=-ok (absent (host.new_pool (address host))) s (λ _. on_judge_db client)
          (ap (λ o. absent o s) pooled)
        ∙ ap (λ x. (x.0, record s { judge = x.1 })) made in
      let silent : listen_for_events host s1 ≡ (
        ok none,
        record { judge = w; contest = (listen_on (codes "event_queue") s.contest).1 },
      ) =
        without_channel (on_contest_db (listen_on (codes "event_queue")) s1) e refused in
      >>=-ok (read_port (parse_int (host.getenv (codes "OIAJ_SERVER_PORT")))) s
        (λ port. prepare host b port) (ap (λ o. read_port o s) said)
      ∙ >>=-ok (lift (scripts_of host host.judge_files)) s (λ sql. start_serving host b port sql)
          (ap (λ o. (o, s)) read)
      ∙ >>=-ok (open_judge host sql) s
          (λ _. listen_for_events host >>= λ events. listen_and_serve host b port events) opened
      ∙ >>=-ok (listen_for_events host) s1 (λ events. listen_and_serve host b port events) silent
      ∙ rw free refl
