-- ===== src/Tests/Http.antt =====
-- Requests to kv-distributed/cmd/http-server/main.go.
use fast_kv_a_lightweight_ke.Base.{
  ℕ, nat_eq, ◌≡◌, refl, true, none, Failure, All, List, [], ◌∷◌, arith,
}
use fast_kv_a_lightweight_ke.Base.Bytes.{Bytes, bytes_key, text}
use fast_kv_a_lightweight_ke.Base.Dict.{insert, lookup, in_order}
use fast_kv_a_lightweight_ke.Base.Words.{add64, positive64}
use fast_kv_a_lightweight_ke.Storage.Wal.{replay}
use fast_kv_a_lightweight_ke.Service.KvService
use fast_kv_a_lightweight_ke.Storage.Engine
use fast_kv_a_lightweight_ke.Storage.Engine.{
  content, new_storage, put_with_ttl, put_expiring, log_op, expiry_of,
}
use fast_kv_a_lightweight_ke.Storage.Engine.Restarts.{blank-IsLog}
use fast_kv_a_lightweight_ke.Service.KvService.{new_kv_service}
use fast_kv_a_lightweight_ke.Http.{
  HttpRequest, HttpServer, World, delete_route, token_of, serve, put_route, get_route, HttpResponse,
  answered, success, no_payload, text_payload,
}
use fast_kv_a_lightweight_ke.Http.Guards.{
  Guarded, with_key, serve_all, answers_with_key, IsTurnedAway, serve_all-with_key,
}
use fast_kv_a_lightweight_ke.Http.Answers.{IsAdmitted, get-put_over_http}
use fast_kv_a_lightweight_ke.Http.Counts.{guarded_visit, visit}
use fast_kv_a_lightweight_ke.Http.Stream.{event, Ended, stream_loop, turns_of, stream_delivers}
use fast_kv_a_lightweight_ke.Programs.Lifecycle.{
  down, up, starts, serves, crashes, Reaches, stays, then_step,
}
use fast_kv_a_lightweight_ke.Programs.ServerMain.{http_server_start, http_server_stop}
use fast_kv_a_lightweight_ke.Programs.HttpLife.{hrux_wal, http_program, http_restart_anytime}
use fast_kv_a_lightweight_ke.Service.PubSub.{PubSub, new_pub_sub, subscribe}
use fast_kv_a_lightweight_ke.Service.PubSub.Invariant.{new_pub_sub-IsWellFormed}
use fast_kv_a_lightweight_ke.Service.PubSub.Runs.{publish_all}

abbrev world : World
world = record {
  now = 10;
  io = record { fault = none; latency = 0 };
  order = in_order;
  set_order = in_order;
  channel_order = in_order;
  can_flush = true;
}

abbrev server : HttpServer
server = record { service = new_kv_service (new_storage []); ops_counter = 4 }

abbrev keyless : HttpRequest
keyless = record {
  method = text "POST";
  authorization = [];
  query_key = [];
  query_channel = [];
  body = record {
    bucket = text "users";
    key = text "ann";
    value = [];
    ttl = 0;
    set_name = [];
    list_name = [];
    map_name = [];
    value_str = [];
    queue_name = [];
    stack_name = [];
    cursor = 0;
    count = 0;
  };
}

abbrev keyed : HttpRequest
keyed = record keyless { query_key = text "hrux_dev_key_123" }

keyed-IsAdmitted : IsAdmitted [] keyed
unfolding token_of
keyed-IsAdmitted = record { no_preflight = refl; with_key = refl }

-- The same request with a number of seconds.
abbrev timed : HttpRequest
timed = record keyed { body = record keyless.body { value = text "1"; ttl = 60 } }

timed-IsAdmitted : IsAdmitted [] timed
unfolding token_of
timed-IsAdmitted = record { no_preflight = refl; with_key = refl }

-- A put with the key and a deletion without it.
abbrev guarded_calls : List Guarded
guarded_calls = (world, put_route, timed) ∷ (world, delete_route, keyless) ∷ []

serve_all-with_key_example :
    ((serve_all [] guarded_calls server).0.service
      ≡ (serve_all [] ((world, put_route, timed) ∷ []) server).0.service)
    × (answers_with_key [] (serve_all [] guarded_calls server).1
        ≡ (serve_all [] ((world, put_route, timed) ∷ []) server).1)
    × All (IsTurnedAway []) (serve_all [] guarded_calls server).1
unfolding with_key token_of
serve_all-with_key_example = serve_all-with_key [] guarded_calls server

abbrev later : World
later = record world { now = 70 }

takes_write :
    (put_with_ttl 10 server.service.storage (text "users") (text "ann") (text "1") 60 world.io).1
    ≡ none
unfolding put_with_ttl put_expiring log_op new_storage new_kv_service
takes_write = refl

get-put_over_http_example :
    let put_done : HttpServer × HttpResponse = serve [] world put_route timed server in
    let got : HttpServer × HttpResponse = serve [] later get_route keyed put_done.0 in
    (put_done.1 ≡ answered (success no_payload))
    × (got.1 ≡ answered (success (text_payload (text "1"))))
get-put_over_http_example =
    get-put_over_http [] world later timed keyed server timed-IsAdmitted keyed-IsAdmitted refl refl
      refl (omega arith) (omega arith) (omega arith) takes_write

no_file : content hrux_wal [] ≡ []
unfolding content lookup
no_file = refl

-- A server that has started, taken a put, refused a deletion, crashed and started again.
abbrev first : HttpServer
first = (http_server_start true []).0

abbrev second : HttpServer
second = (visit [] (guarded_visit world put_route timed) first).0

abbrev third : HttpServer
third = (visit [] (guarded_visit world delete_route keyless) second).0

abbrev fourth : HttpServer
fourth = (http_server_start true third.service.storage.disk).0

reached : Reaches (http_program []) (down []) (up fourth)
unfolding lookup insert expiry_of add64 positive64 http_server_start visit serve KvService.load_from
    KvService.put_with_ttl new_kv_service new_storage content Engine.load_from_file
    Engine.set_persistence_file put_with_ttl log_op replay
reached =
    then_step (down []) (down third.service.storage.disk) (up fourth)
      (then_step (down []) (up third) (down third.service.storage.disk)
        (then_step (down []) (up second) (up third)
          (then_step (down []) (up first) (up second)
            (then_step (down []) (down []) (up first) (stays (down [])) (starts []))
            (serves (guarded_visit world put_route timed) first
              (
                record {
                  encodable = record {
                    bucket_fits = omega arith;
                    key_fits = omega arith;
                    value_fits = omega arith;
                    ttl_fits = omega arith;
                  };
                },
                refl,
              )
              refl))
          (serves (guarded_visit world delete_route keyless) second
            (
              record {
                encodable = record {
                  bucket_fits = omega arith;
                  key_fits = omega arith;
                  value_fits = omega arith;
                  ttl_fits = omega arith;
                };
              },
              refl,
            )
            refl))
        (crashes third))
      (starts third.service.storage.disk)

http_restart_anytime_example :
    let again : HttpServer × Failure = http_server_start true (http_server_stop fourth) in
    (again.0.service.storage.shards ≡ fourth.service.storage.shards) × (again.1 ≡ none)
http_restart_anytime_example =
    http_restart_anytime [] [] fourth (blank-IsLog hrux_wal [] no_file) reached

abbrev messages : List Bytes
messages = text "a" ∷ text "b" ∷ []

stream_delivers_example :
    let subscribed : PubSub × ℕ = subscribe (text "news") new_pub_sub in
    let published : PubSub = publish_all in_order (text "news") messages subscribed.0 in
    let done : PubSub × List Bytes =
      stream_loop (text "news") subscribed.1 (turns_of 2) published in
    (done.1 ≡ event (text "a") ∷ event (text "b") ∷ []) × Ended (text "news") subscribed.1 done.0
stream_delivers_example =
    stream_delivers in_order (text "news") messages new_pub_sub new_pub_sub-IsWellFormed
      (omega arith)
