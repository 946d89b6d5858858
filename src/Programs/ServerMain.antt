-- ===== src/Programs/ServerMain.antt =====
-- kv-distributed/cmd/server/main.go: the start of the RPC server and what its handler of signals does,
-- and the start of kv-distributed/cmd/http-server/main.go. The flags are arguments; an error of the
-- load is answered, where the program writes it to its own log and goes on.
use fast_kv_a_lightweight_ke.Base.{Bool, Failure}
use fast_kv_a_lightweight_ke.Base.Bytes.{Bytes, bytes_key, text}
use fast_kv_a_lightweight_ke.Storage.Engine.{Disk, new_storage}
use fast_kv_a_lightweight_ke.Service.KvService.{KvService, new_kv_service, load_from, save_to}
use fast_kv_a_lightweight_ke.Api.{KvServer, new_kv_server}
use fast_kv_a_lightweight_ke.Http.{HttpServer}

-- The layers over one another, then `LoadFromFile`; `opens` is whether the file can be opened.
unfoldable pub load_service : Bytes → Bool → Disk → KvService × Failure
load_service data_file opens disk = load_from data_file opens (new_kv_service (new_storage disk))

unfoldable pub server_start : Bytes → Bool → Disk → KvServer × Failure
unfolding load_service new_kv_server
server_start data_file opens disk =
    let (service, failure) = load_service data_file opens disk in (new_kv_server service, failure)

-- What a signal leaves: `SaveToFile`, `Stop` and the exit.
unfoldable pub server_stop : Bytes → Bool → KvServer → Disk
server_stop data_file opens s = (save_to data_file opens s.service).0.storage.disk

-- The HTTP server's start; on a signal it saves nothing.
unfoldable pub http_server_start : Bool → Disk → HttpServer × Failure
unfolding load_service
http_server_start opens disk =
    let (service, failure) = load_service (text "hrux.wal") opens disk in
    (record { service = service; ops_counter = 0 }, failure)

unfoldable pub http_server_stop : HttpServer → Disk
http_server_stop s = s.service.storage.disk
