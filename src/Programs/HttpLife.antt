-- ===== src/Programs/HttpLife.antt =====
-- The life of kv-distributed/cmd/http-server/main.go.
use fast_kv_a_lightweight_ke.Base.{◌≡◌, refl, ◌∙◌, true, none, Failure}
use fast_kv_a_lightweight_ke.Base.Bytes.{Bytes, text}
use fast_kv_a_lightweight_ke.Storage.Engine.{Disk, content}
use fast_kv_a_lightweight_ke.Storage.Engine.Logging.{restart}
use fast_kv_a_lightweight_ke.Storage.Engine.Restarts.{IsLog}
use fast_kv_a_lightweight_ke.Service.KvService.{new_kv_service, load_from}
use fast_kv_a_lightweight_ke.Http.{HttpServer}
use fast_kv_a_lightweight_ke.Http.Counts.{Visit, visit}
use fast_kv_a_lightweight_ke.Http.Durability.{VisitGoesWell, visit-IsDurable}
use fast_kv_a_lightweight_ke.Programs.Lifecycle.{Program, down, up, Reaches, restarted, no_failure}
use fast_kv_a_lightweight_ke.Programs.ServerMain.{load_service, http_server_start, http_server_stop}

abbrev pub hrux_wal : Bytes
hrux_wal = text "hrux.wal"

pub http_start-restart :
    (disk : Disk)
    → ((http_server_start true disk).0.service.storage ≡ (restart disk hrux_wal).0)
      × ((http_server_start true disk).1 ≡ (restart disk hrux_wal).1)
unfolding http_server_start load_service load_from new_kv_service restart
http_start-restart disk = (refl, refl)

pub content-http_server_stop :
    (s : HttpServer)
    → content hrux_wal (http_server_stop s) ≡ content hrux_wal s.service.storage.disk
unfolding http_server_stop
content-http_server_stop s = refl

-- The HTTP server under a key: a request is a visit of any route. A stop saves nothing.
abbrev pub http_program : Bytes → Program hrux_wal
http_program hrux_api_key = record {
  Server = HttpServer;
  storage = λ s. s.service.storage;
  start = λ disk. (http_server_start true disk).0;
  stop = http_server_stop;
  Request = Visit;
  GoesWell = VisitGoesWell;
  serve = λ v s. (visit hrux_api_key v s).0;
  storage-start = λ disk. (http_start-restart disk).0;
  content-stop = content-http_server_stop;
  serve-IsDurable = visit-IsDurable hrux_wal hrux_api_key;
}

-- An HTTP server that has started from a log of whole records, or without one, and has gone through
-- any requests on any routes, with its key or without, whose arguments fit, whose writes go well and
-- which start no compaction of the log, stops, crashes between requests and starts, has after one more
-- start the memory that it had, and the start answers no error.
pub http_restart_anytime :
    (hrux_api_key : Bytes) (disk : Disk) (s : HttpServer)
    → IsLog hrux_wal disk
    → Reaches (http_program hrux_api_key) (down disk) (up s)
    → let again : HttpServer × Failure = http_server_start true (http_server_stop s) in
      (again.0.service.storage.shards ≡ s.service.storage.shards) × (again.1 ≡ none)
http_restart_anytime hrux_api_key disk s log reached =
    let p : Program hrux_wal = http_program hrux_api_key in
    (
      (restarted p disk s log reached).0,
      (http_start-restart (http_server_stop s)).1 ∙ (no_failure p disk s log reached).0,
    )
