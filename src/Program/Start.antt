-- ===== src/Program/Start.antt =====
-- The start of the program: `main` of oiajudge/main.go, `CreateCmsBridge` of
-- oiajudge/pkg/cmsbridge/cmsbridge.go, `HandleEvents` of oiajudge/pkg/cmsbridge/impl.go as far as it
-- returns, and `RunServer` of oiajudge/pkg/oiajudge/sever.go.
pub mod Stages
pub mod Serving
use oiaj.Base.{◌*◌, Bool, true, false, not, Option, none, some, List, []}
use oiaj.Base.Int.{ℤ, pos}
use oiaj.Text.Bytes.{Bytes, codes, bytes_eq}
use oiaj.Text.Decimal.{parse_int}
use oiaj.Bridge.{ObjectId}
use oiaj.Store.Errors.{Error, plain, text, Outcome, ok, err, panic}
use oiaj.Store.Action.{Action, ◌>>=◌, ◌>>◌, pure, throw, recover, lift, fail_hard}
use oiaj.Store.Session.{World, Tx, Statement}
use oiaj.Store.Migrations.{Versioned, make_client}
use oiaj.Store.Embedded.{Fs, extract_embedded_fs_into_file_map}
use oiaj.Store.Listen.{listen_on}
use oiaj.Judge.Settings.{cooldown_setting}

-- What the program finds: its environment, the files that are built into its two packages, the
-- order that `sort.Slice` makes, what PostgreSQL makes of a script, `pgxpool.New` on an address, and
-- whether net/http can listen on a port.
pub record Host (J C S Q : Type 0) : Type 0 where
  pub getenv : Bytes → Bytes
  pub judge_files : Fs
  pub bridge_files : Fs
  pub sort_keys : List Bytes → List Bytes
  pub run_judge : Bytes → Statement J S Unit
  pub run_bridge : Bytes → Statement C Q Unit
  pub new_pool : Bytes → Option Error
  pub port_error : ℤ → Option Error

-- What the two pools reach.
pub record Machine (J C S Q : Type 0) : Type 0 where
  pub judge : World (Versioned J) S
  pub contest : World (Versioned C) Q

-- `Config` of cmsbridge.go
pub record BridgeConfig : Type 0 where
  pub static_asset_directory : Bytes
  pub db_connection_string : Bytes
  pub cms_contest_id : ObjectId
  pub cms_bridge_address : Bytes
  pub oia_submitter_address : Bytes

-- `Config` of sever.go
pub record ServerConfig : Type 0 where
  pub oia_db_connection_string : Bytes
  pub oia_server_port : ℤ
  pub submission_cooldown : ℤ
  pub debug : Bool

-- A server that has started. `events` is the channel of PostgreSQL whose notifications reach
-- `HandleEvents`, if any do.
pub record Running : Type 0 where
  pub bridge : BridgeConfig
  pub config : ServerConfig
  pub events : Option Bytes

abbrev pub Run : Type 0 → Type 0 → Type 0 → Type 0 → Type 0 → Type 0
Run J C S Q A = Action (Machine J C S Q) A

unfoldable pub absent : {W : Type 0} → Option Error → Action W Unit
absent none = pure tt
absent (some e) = throw e

unfoldable pub read_port : {W : Type 0} → Option ℤ → Action W ℤ
read_port none = throw (plain (text "strconv.ParseInt"))
read_port (some n) = pure n

module _ {J C S Q : Type 0} where
  abbrev pub on_judge_db : {A : Type 0} → Tx (Versioned J) S A → Run J C S Q A
  on_judge_db m s = let (r, w) = m s.judge in (r, record s { judge = w })

  abbrev pub on_contest_db : {A : Type 0} → Tx (Versioned C) Q A → Run J C S Q A
  on_contest_db m s = let (r, w) = m s.contest in (r, record s { contest = w })

  module _ (host : Host J C S Q) where
    abbrev pub address : Bytes
    address = host.getenv (codes "OIAJ_DB_CONNECTION_STRING")

    abbrev pub scripts_of : Fs → Outcome (List (Bytes × Bytes))
    scripts_of files = extract_embedded_fs_into_file_map files (codes "migrations")

    bridge_config : BridgeConfig
    bridge_config = record {
      static_asset_directory = [];
      db_connection_string = address;
      cms_contest_id = pos 1;
      cms_bridge_address = host.getenv (codes "OIAJ_CMS_BRIDGE_ADDRESS");
      oia_submitter_address = [];
    }

    -- `store.MakeClientWithInitScript`, for the bridge and for the judge.
    unfoldable pub open_contest : List (Bytes × Bytes) → Run J C S Q Unit
    unfolding absent make_client
    open_contest sql =
        absent (host.new_pool address)
        >> on_contest_db (make_client host.run_bridge host.sort_keys sql)

    unfoldable pub open_judge : List (Bytes × Bytes) → Run J C S Q Unit
    unfolding absent make_client
    open_judge sql =
        absent (host.new_pool address)
        >> on_judge_db (make_client host.run_judge host.sort_keys sql)

    -- `CreateCmsBridge`; `log.Fatal` ends the program, as an error does.
    unfoldable pub create_cms_bridge : Run J C S Q BridgeConfig
    unfolding open_contest bridge_config extract_embedded_fs_into_file_map
    create_cms_bridge = do
      sql ← lift (scripts_of host.bridge_files)
      open_contest sql
      pure bridge_config

    unfoldable pub hear : Run J C S Q (Option Bytes)
    unfolding listen_on
    hear = do channel ← on_contest_db (listen_on (codes "event_queue")); pure (some channel)

    -- `bridge.HandleEvents` as `RunServer` calls it: its error is dropped.
    unfoldable pub listen_for_events : Run J C S Q (Option Bytes)
    unfolding hear
    listen_for_events = recover hear (λ e. pure none)

    unfoldable pub server_config : ℤ → ServerConfig
    unfolding cooldown_setting
    server_config port = record {
      oia_db_connection_string = address;
      oia_server_port = port;
      submission_cooldown = cooldown_setting host.getenv;
      debug = not (bytes_eq (host.getenv (codes "OIAJ_DEBUG")) []);
    }

    -- `http.ListenAndServe`
    unfoldable pub listen_and_serve : BridgeConfig → ℤ → Option Bytes → Run J C S Q Running
    unfolding absent server_config
    listen_and_serve bridge port events =
        absent (host.port_error port)
        >> pure (record { bridge = bridge; config = server_config port; events = events })

    -- The end of `RunServer`, from the scripts on.
    unfoldable pub start_serving : BridgeConfig → ℤ → List (Bytes × Bytes) → Run J C S Q Running
    unfolding open_judge listen_for_events listen_and_serve
    start_serving bridge port sql = do
      open_judge sql
      events ← listen_for_events
      listen_and_serve bridge port events

    unfoldable pub prepare : BridgeConfig → ℤ → Run J C S Q Running
    unfolding start_serving extract_embedded_fs_into_file_map
    prepare bridge port = do sql ← lift (scripts_of host.judge_files); start_serving bridge port sql

    -- `RunServer`, which returns only with an error.
    unfoldable pub run_server : BridgeConfig → Run J C S Q Running
    unfolding read_port prepare
    run_server bridge = do
      port ← read_port (parse_int (host.getenv (codes "OIAJ_SERVER_PORT")))
      prepare bridge port

    -- `main`
    unfoldable pub main : Run J C S Q Running
    unfolding create_cms_bridge run_server
    main = do bridge ← create_cms_bridge; run_server bridge
