-- ===== src/Program/Tests/Launch.antt =====
-- Starts of the program: the tables of both databases are the number of script parts that have run.
use oiaj.Base.{ℕ, suc, ◌≡◌, refl, true, false, Option, none, some, List, [], ◌∷◌, if◌then◌else◌}
use mathlib.Core.List.Permᴰ
use oiaj.Base.Int.{pos}
use oiaj.Text.Bytes.{Bytes, codes, bytes_eq}
use oiaj.Text.Decimal.{parse_int}
use oiaj.Store.Errors.{database, ok}
use oiaj.Store.Session.{Fault, refused, World, Statement, exec, query_row, with_tx}
use oiaj.Store.Migrations.{Versioned, make_client}
use oiaj.Store.Embedded.{Fs, extract_embedded_fs_into_file_map}
use oiaj.Store.Listen.{listen_on}
use oiaj.Program.Start.{Host, Machine, BridgeConfig, Running, server_config, run_server, main}
use oiaj.Program.Start.Serving.{run_server-deaf}

-- One script, beside a directory.
abbrev files : Fs
files = record {
  read_dir = λ dir. ok (
      record { name = codes "old"; is_dir = true }
      ∷ record { name = codes "001.sql"; is_dir = false }
      ∷ []);
  read_file = λ path. ok (codes "a;;c");
}

abbrev getenv : Bytes → Bytes
getenv name = if bytes_eq name (codes "OIAJ_SERVER_PORT") then codes "8080" else []

abbrev tally : Bytes → Statement ℕ ℕ Unit
tally part n s = (ok tt, suc n, s)

abbrev host : Host ℕ ℕ ℕ ℕ
host = record {
  getenv = getenv;
  judge_files = files;
  bridge_files = files;
  sort_keys = λ ks. ks;
  run_judge = tally;
  run_bridge = tally;
  new_pool = λ url. none;
  port_error = λ port. none;
}

abbrev fresh : List (Option Fault) → World (Versioned ℕ) ℕ
fresh schedule = record {
  db = record { versions = none; tables = 0 };
  sequences = 0;
  schedule = schedule;
  secrets = [];
  aborted = false;
  leaked = 0;
}

abbrev machine : List (Option Fault) → Machine ℕ ℕ ℕ ℕ
machine schedule = record { judge = fresh []; contest = fresh schedule }

abbrev bridge : BridgeConfig
bridge = record {
  static_asset_directory = [];
  db_connection_string = [];
  cms_contest_id = pos 1;
  cms_bridge_address = [];
  oia_submitter_address = [];
}

abbrev running : Option Bytes → Running
running events = record { bridge = bridge; config = server_config host (pos 8080); events = events }

started : (main host (machine [])).0 ≡ ok (running (some (codes "event_queue")))
unfolding main bytes_eq parse_int make_client exec query_row with_tx listen_on
    extract_embedded_fs_into_file_map
started = refl

abbrev serving : Machine ℕ ℕ ℕ ℕ
serving = (main host (machine [])).1

-- The bridge gets no connection to listen on.
abbrev silent : Machine ℕ ℕ ℕ ℕ
silent = machine (some (refused 53) ∷ [])

abbrev client : World (Versioned ℕ) ℕ
client = (make_client tally (λ ks. ks) ((codes "001.sql", codes "a;;c") ∷ []) (fresh [])).1

run_server-deaf_example : run_server host bridge silent ≡ (
  ok (running none),
  record {
    judge = client;
    contest = (listen_on (codes "event_queue") (fresh (some (refused 53) ∷ []))).1;
  },
)
unfolding bytes_eq parse_int make_client exec query_row with_tx listen_on
    extract_embedded_fs_into_file_map
run_server-deaf_example =
    run_server-deaf host bridge (pos 8080) ((codes "001.sql", codes "a;;c") ∷ []) (database 53)
      silent client refl refl refl refl refl refl
