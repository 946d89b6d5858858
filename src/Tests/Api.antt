-- ===== src/Tests/Api.antt =====
-- A server and a replica of kv-distributed/internal/api/server.go on small inputs.
use fast_kv_a_lightweight_ke.Base.{
  ◌≡◌, refl, true, false, none, some, [], ◌∷◌, ◌++◌, Result, ok, is_ok, if◌then◌else◌,
}
use fast_kv_a_lightweight_ke.Base.Bytes.{Bytes, bytes_key, text}
use fast_kv_a_lightweight_ke.Base.Dict.{lookup}
use fast_kv_a_lightweight_ke.Storage.Memory.View.{value_at}
use fast_kv_a_lightweight_ke.Storage.Engine.{Io, content, new_storage, set_persistence_file}
use fast_kv_a_lightweight_ke.Storage.Engine.Recovery.{IsDurable}
use fast_kv_a_lightweight_ke.Storage.Engine.Sessions.{opened-IsDurable}
use fast_kv_a_lightweight_ke.Service.KvService.{new_kv_service}
use fast_kv_a_lightweight_ke.Api.{
  Request, Response, empty_response, KvServer, ok_response, put, put_method,
}
use fast_kv_a_lightweight_ke.Api.Effects.{IsReady, shards_of, calls_of, handle}
use fast_kv_a_lightweight_ke.Api.Replication.{replica_in_step}
use fast_kv_a_lightweight_ke.Api.JsonBridge.{
  Nils, convert_response, read_back, read_back-convert_response,
}
use fast_kv_a_lightweight_ke.Api.Divergence.{failed_put_diverges}

abbrev users : Bytes
users = text "users"

abbrev ann : Bytes
ann = text "ann"

-- A server with one replica, and the replica.
abbrev server : KvServer
server = record {
  service = new_kv_service (set_persistence_file (new_storage []) users true).0;
  slaves = 7 ∷ [];
  sent = [];
}

abbrev replica : KvServer
replica = record { service = new_kv_service (new_storage []); slaves = []; sent = [] }

abbrev put_ann : Request
put_ann = record {
  bucket = users;
  key = ann;
  value = text "1";
  ttl_seconds = 60;
  set_name = [];
  list_name = [];
  map_name = [];
  queue_name = [];
  stack_name = [];
  prefix = [];
  start = [];
  end = [];
  value_str = [];
  transaction = [];
  cursor = 0;
  count = 0;
}

abbrev whole : Io
whole = record { fault = none; latency = 10 }

abbrev cut : Io
cut = record { fault = some 2; latency = 10 }

server-IsDurable : IsDurable users server.service.storage
unfolding new_kv_service content lookup
server-IsDurable = opened-IsDurable [] users refl

server-IsReady : IsReady server.service.storage
unfolding new_kv_service set_persistence_file
server-IsReady = refl

replica-IsReady : IsReady replica.service.storage
unfolding new_kv_service new_storage
replica-IsReady = tt

same_shards : shards_of server ≡ shards_of replica
unfolding new_kv_service new_storage set_persistence_file
same_shards = refl

replica_in_step_example :
    let done : KvServer × Result Response = handle put_method 10 whole put_ann server in
    if is_ok done.1
    then (done.0.sent ≡ server.sent ++ calls_of put_method put_ann server)
      × (shards_of (handle put_method 10 whole put_ann replica).0 ≡ shards_of done.0)
    else (done.0.sent ≡ server.sent) × (shards_of replica ≡ shards_of done.0)
replica_in_step_example =
    replica_in_step put_method 10 whole whole put_ann server replica server-IsReady replica-IsReady
      refl refl same_shards

failed_put_diverges_example :
    ((put 10 cut put_ann server).1 ≡ ok ok_response)
    × ((put 10 cut put_ann server).0.sent ≡ server.sent ++ calls_of put_method put_ann server)
    × (shards_of (put 10 cut put_ann server).0 ≡ shards_of server)
    × (value_at (shards_of (put 10 whole put_ann replica).0) users ann ≡ some (text "1"))
failed_put_diverges_example =
    failed_put_diverges users 10 cut whole put_ann server replica 2 server-IsDurable replica-IsReady
      refl refl

abbrev resp : Response
resp = record empty_response { keys = ann ∷ []; next_cursor = 3 }

abbrev nils : Nils
nils = record {
  nil_value = true;
  nil_values = true;
  nil_keys = true;
  nil_list = false;
  nil_errors = true;
}

read_back-convert_response_example :
    read_back (convert_response nils resp) ≡ record resp { next_cursor = 0 }
read_back-convert_response_example = read_back-convert_response nils resp
