-- ===== src/Programs/ServerLife.antt =====
-- The life of kv-distributed/cmd/server/main.go.
use fast_kv_a_lightweight_ke.Base.{◌≡◌, refl, ◌∙◌, Bool, true, false, none, Failure}
use fast_kv_a_lightweight_ke.Base.Bytes.{Bytes, bytes_key}
use fast_kv_a_lightweight_ke.Storage.Engine.{Disk, content, set_persistence_file, save_to_file}
use fast_kv_a_lightweight_ke.Storage.Engine.Logging.{restart, content-insert_self}
use fast_kv_a_lightweight_ke.Storage.Engine.Restarts.{IsLog}
use fast_kv_a_lightweight_ke.Service.KvService.{new_kv_service, load_from, save_to}
use fast_kv_a_lightweight_ke.Api
use fast_kv_a_lightweight_ke.Api.{KvServer, new_kv_server}
use fast_kv_a_lightweight_ke.Api.Effects.{shards_of}
use fast_kv_a_lightweight_ke.Api.Dispatch.{Environment, dispatch}
use fast_kv_a_lightweight_ke.Api.Durability.{CallGoesWell, dispatch-IsDurable}
use fast_kv_a_lightweight_ke.Programs.Lifecycle.{Program, down, up, Reaches, restarted, no_failure}
use fast_kv_a_lightweight_ke.Programs.ServerMain.{load_service, server_start, server_stop}

-- A start is a restart of the store under new layers.
pub start-restart :
    (data_file : Bytes) (disk : Disk)
    → ((server_start data_file true disk).0.service.storage ≡ (restart disk data_file).0)
      × ((server_start data_file true disk).1 ≡ (restart disk data_file).1)
unfolding server_start load_service new_kv_server load_from new_kv_service restart
start-restart data_file disk = (refl, refl)

-- A stop leaves the log's file as it was.
pub content-server_stop :
    (data_file : Bytes) (opens : Bool) (s : KvServer)
    → content data_file (server_stop data_file opens s) ≡ content data_file s.service.storage.disk
unfolding server_stop save_to save_to_file set_persistence_file
content-server_stop data_file true s =
    content-insert_self data_file (content data_file s.service.storage.disk) s.service.storage.disk
content-server_stop data_file false s = refl

-- The RPC server: a request is a call by any name. `opens` is whether a stop can open the file.
abbrev pub rpc_program : (data_file : Bytes) → Bool → Program data_file
rpc_program data_file opens = record {
  Server = KvServer;
  storage = λ s. s.service.storage;
  start = λ disk. (server_start data_file true disk).0;
  stop = server_stop data_file opens;
  Request = Environment × Bytes × Api.Request;
  GoesWell = λ q. CallGoesWell q.0 q.1 q.2;
  serve = λ q s. (dispatch q.0 q.1 q.2 s).0;
  storage-start = λ disk. (start-restart data_file disk).0;
  content-stop = content-server_stop data_file opens;
  serve-IsDurable = λ q s well d. dispatch-IsDurable data_file q.0 q.1 q.2 s d well;
}

-- A server that has started from a log of whole records, or without one, and has gone through any
-- calls whose arguments fit, whose writes go well and which start no compaction of the log, stops,
-- crashes between calls and starts, has after one more stop or crash and a start the memory that it
-- had, and the start answers no error.
pub server_restart_anytime :
    (data_file : Bytes) (opens : Bool) (disk : Disk) (s : KvServer)
    → IsLog data_file disk
    → Reaches (rpc_program data_file opens) (down disk) (up s)
    → let stopped : KvServer × Failure =
        server_start data_file true (server_stop data_file opens s) in
      let crashed : KvServer × Failure = server_start data_file true s.service.storage.disk in
      (shards_of stopped.0 ≡ shards_of s)
      × (stopped.1 ≡ none)
      × (shards_of crashed.0 ≡ shards_of s)
      × (crashed.1 ≡ none)
server_restart_anytime data_file opens disk s log reached =
    let p : Program data_file = rpc_program data_file opens in
    let same = restarted p disk s log reached in
    let quiet = no_failure p disk s log reached in
    (
      same.0,
      (start-restart data_file (server_stop data_file opens s)).1 ∙ quiet.0,
      same.1,
      (start-restart data_file s.service.storage.disk).1 ∙ quiet.1,
    )
