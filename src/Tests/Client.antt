-- ===== src/Tests/Client.antt =====
-- A client of kv-distributed/client/client.go over a connection inside of one process, and the
-- programs of kv-distributed/cmd.
use fast_kv_a_lightweight_ke.Base.{
  nat_eq, ◌≡◌, refl, true, false, none, some, Option, List, [], ◌∷◌, if◌then◌else◌, ok, Failure,
  arith, shut_down,
}
use fast_kv_a_lightweight_ke.Base.Bytes.{Bytes, bytes_key, text}
use fast_kv_a_lightweight_ke.Base.Dict.{lookup, insert, in_order}
use fast_kv_a_lightweight_ke.Base.Nested.{lookup_in}
use fast_kv_a_lightweight_ke.Base.Words.{positive64}
use fast_kv_a_lightweight_ke.Storage.Memory.{get_shard}
use fast_kv_a_lightweight_ke.Storage.Memory.Invariant.{new_shards-IsWellFormed}
use fast_kv_a_lightweight_ke.Storage.Memory.View.{value_at, expiry_at}
use fast_kv_a_lightweight_ke.Storage.Wal.{replay}
use fast_kv_a_lightweight_ke.Storage.Engine
use fast_kv_a_lightweight_ke.Storage.Engine.{Io, content, new_storage}
use fast_kv_a_lightweight_ke.Storage.Engine.Restarts.{blank-IsLog}
use fast_kv_a_lightweight_ke.DataStructures
use fast_kv_a_lightweight_ke.Service.KvService
use fast_kv_a_lightweight_ke.Service.KvService.{KvService, new_kv_service}
use fast_kv_a_lightweight_ke.Api.{KvServer, new_kv_server, empty_response, with_turns}
use fast_kv_a_lightweight_ke.Api
use fast_kv_a_lightweight_ke.Api.JsonBridge.{Nils}
use fast_kv_a_lightweight_ke.Api.Effects.{shards_of}
use fast_kv_a_lightweight_ke.Api.Dispatch.{Environment, dispatch}
use fast_kv_a_lightweight_ke.Client.{Link, Rpc, empty_request, delivered}
use fast_kv_a_lightweight_ke.Client.Calls.{
  Call, queue_push_call, queue_pop_call, queue_peek_call, local,
}
use fast_kv_a_lightweight_ke.Client.Session.{run_remote, run_local, run_remote-refines}
use fast_kv_a_lightweight_ke.Programs.Script.{Output, Outcome, completed}
use fast_kv_a_lightweight_ke.Programs.ClientMain.{harsh, client_main}
use fast_kv_a_lightweight_ke.Programs.Serves.{Serves}
use fast_kv_a_lightweight_ke.Programs.ClientRun.{values, client_main-completes}
use fast_kv_a_lightweight_ke.Programs.ServerMain.{server_start, server_stop}
use fast_kv_a_lightweight_ke.Programs.Lifecycle.{
  down, up, starts, serves, crashes, Reaches, stays, then_step,
}
use fast_kv_a_lightweight_ke.Programs.ServerLife.{rpc_program, server_restart_anytime}

-- Package rpc with nothing in between.
abbrev in_process : Rpc
in_process = record {
  call = λ w name req l.
      if l.is_open
      then delivered (dispatch w name req l.server)
      else (l, empty_response, some shut_down);
  close = λ l. (record l { is_open = false }, none);
  call-open = λ w name req l opened. rw opened refl;
  call-shut = λ w name req l shut. rw shut refl;
  close-open = λ l opened. refl;
}

abbrev whole : Io
whole = record { fault = none; latency = 10 }

abbrev all_nil_empty : Nils
all_nil_empty = record {
  nil_value = true;
  nil_values = true;
  nil_keys = true;
  nil_list = true;
  nil_errors = true;
}

abbrev world : Environment
world = record {
  now = 10;
  io = whole;
  order = in_order;
  set_order = in_order;
  turns = λ i. (10, whole);
  nils = all_nil_empty;
}

abbrev users : Bytes
users = text "users"

abbrev server : KvServer
server = record { service = new_kv_service (new_storage []); slaves = []; sent = [] }

abbrev link : Link
link = record { server = server; is_open = true }

abbrev calls : List (Environment × Call)
calls =
    (world, queue_push_call users (text "a"))
    ∷ (world, queue_pop_call users)
    ∷ (world, queue_peek_call users)
    ∷ []

run_remote-refines_example :
    ((run_remote in_process calls link).0.is_open ≡ true)
    × ((run_remote in_process calls link).0.server.service ≡ (run_local calls server.service).0)
    × ((run_remote in_process calls link).1 ≡ (run_local calls server.service).1)
unfolding run_local local KvService.queue_push KvService.queue_pop KvService.queue_peek
    DataStructures.queue_push DataStructures.queue_pop DataStructures.queue_peek new_kv_service
    DataStructures.slice_at lookup insert
run_remote-refines_example = run_remote-refines in_process calls link refl refl

link-Serves : Serves none link
unfolding new_kv_service new_storage value_at expiry_at get_shard lookup_in lookup
link-Serves = record {
  opened = refl;
  ready = tt;
  formed = new_shards-IsWellFormed;
  lasting = refl;
  stored = refl;
}

client_main-completes_example :
    let done : Option Link × List Output × Outcome (Unit {0}) =
      client_main in_process (λ i. world) (ok link) in
    (done.2 ≡ completed tt)
    × (values done.1 ≡ harsh ∷ [])
    × ((end : Link) × (done.0 ≡ some end) × (end.is_open ≡ false))
client_main-completes_example =
    client_main-completes in_process (λ i. world) (λ i. refl) none link link-Serves

no_file : content users [] ≡ []
unfolding content lookup
no_file = refl

abbrev put_request : Api.Request
put_request = record empty_request { bucket = users; key = users; value = text "1" }

-- A server that has started, taken a put, crashed and started again.
abbrev first : KvServer
first = (server_start users true []).0

abbrev second : KvServer
second = (dispatch world (text "KVServer.Put") put_request first).0

abbrev third : KvServer
third = (server_start users true second.service.storage.disk).0

reached : Reaches (rpc_program users true) (down []) (up third)
unfolding lookup positive64 insert server_start dispatch KvService.load_from KvService.put Api.put
    new_kv_service new_storage content Engine.load_from_file Engine.set_persistence_file Engine.put
    Engine.log_op replay
reached =
    then_step (down []) (down second.service.storage.disk) (up third)
      (then_step (down []) (up second) (down second.service.storage.disk)
        (then_step (down []) (up first) (up second)
          (then_step (down []) (down []) (up first) (stays (down [])) (starts []))
          (serves (world, text "KVServer.Put", put_request) first
            (
              record {
                encodable = record {
                  bucket_fits = omega arith;
                  key_fits = omega arith;
                  value_fits = omega arith;
                  ttl_fits = omega arith;
                };
              },
              refl,
            )
            refl))
        (crashes second))
      (starts second.service.storage.disk)

server_restart_anytime_example :
    let stopped : KvServer × Failure = server_start users true (server_stop users true third) in
    let crashed : KvServer × Failure = server_start users true third.service.storage.disk in
    (shards_of stopped.0 ≡ shards_of third)
    × (stopped.1 ≡ none)
    × (shards_of crashed.0 ≡ shards_of third)
    × (crashed.1 ≡ none)
server_restart_anytime_example =
    server_restart_anytime users true [] third (blank-IsLog users [] no_file) reached
