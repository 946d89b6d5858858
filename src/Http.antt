-- ===== src/Http.antt =====
-- kv-distributed/cmd/http-server/main.go: the two guards of the HTTP server and its handlers. Package
-- json decodes a body, with empty fields if it cannot; package http delivers the request.
pub mod Guards
pub mod Open
pub mod Counts
pub mod Answers
pub mod Stream
pub mod Durability
use fast_kv_a_lightweight_ke.Base.{
  ℕ, nat_eq, Bool, ◌&&◌, ◌||◌, Option, none, some, List, [], length, take, drop, ltb, if◌then◌else◌,
  Result, ok, err, Error,
}
use fast_kv_a_lightweight_ke.Base.Bytes.{Bytes, bytes_key, bytes_eq, text}
use fast_kv_a_lightweight_ke.Base.Dict.{Dict, RangeOrder}
use fast_kv_a_lightweight_ke.Base.Words.{Int64, add64, positive64}
use fast_kv_a_lightweight_ke.Storage.Engine.{Io}
use fast_kv_a_lightweight_ke.Service.KvService
use fast_kv_a_lightweight_ke.Service.KvService.{KvService}
use fast_kv_a_lightweight_ke.Service.Scan

pub record KvRequest : Type 0 where
  pub bucket : Bytes
  pub key : Bytes
  pub value : Bytes
  pub ttl : Int64
  pub set_name : Bytes
  pub list_name : Bytes
  pub map_name : Bytes
  pub value_str : Bytes
  pub queue_name : Bytes
  pub stack_name : Bytes
  pub cursor : Int64
  pub count : Int64

-- A request: its method, its header, the two parameters of its query that are read, its body.
pub record HttpRequest : Type 0 where
  pub method : Bytes
  pub authorization : Bytes
  pub query_key : Bytes
  pub query_channel : Bytes
  pub body : KvRequest

-- The field `Data` of a response.
pub data Payload : Type 0 where
  no_payload : Payload
  text_payload : Bytes → Payload
  map_payload : Dict Bytes Bytes → Payload
  keys_payload : List Bytes → Int64 → Payload

-- The numbers of the runtime, as they are read.
pub record MemStats : Type 0 where
  pub alloc : ℕ
  pub sys : ℕ
  pub num_gc : ℕ
  pub gc_cpu_fraction : ℕ

pub record Metrics : Type 0 where
  pub mem : MemStats
  pub total_ops : ℕ
  pub active_lanes : ℕ
  pub wal_writes : ℕ
  pub wal_bytes : ℕ
  pub wal_lat_ns : ℕ

-- `KVResponse`, or an answer without one: an empty one, a status, the metrics, or an open stream of a channel's messages.
pub data Reply : Type 0 where
  success : Payload → Reply
  failure : Error → Reply
  rejected : Bytes → Reply
  no_body : Reply
  health : Reply
  metrics : Metrics → Reply
  stream : ℕ → Reply

pub record HttpResponse : Type 0 where
  pub status : ℕ
  pub reply : Reply

abbrev pub answered : Reply → HttpResponse
answered reply = record { status = 200; reply = reply }

pub record HttpServer : Type 0 where
  pub service : KvService
  pub ops_counter : Int64

abbrev pub Handler : Type 0
Handler = HttpRequest → HttpServer → HttpServer × HttpResponse

-- A preflight request is answered here, and no handler sees it.
unfoldable pub cors : Handler → Handler
cors next r s =
    let counted : HttpServer = record s { ops_counter = add64 s.ops_counter 1 } in
    if bytes_eq r.method (text "OPTIONS") then (counted, answered no_body) else next r counted

abbrev pub expected_key : Bytes → Bytes
expected_key hrux_api_key =
    if bytes_eq hrux_api_key [] then text "hrux_dev_key_123" else hrux_api_key

unfoldable pub token_of : HttpRequest → Bytes
token_of r =
    if ltb 7 (length r.authorization) && bytes_eq (take 7 r.authorization) (text "Bearer ")
    then drop 7 r.authorization
    else r.query_key

unfoldable pub auth : Bytes → Handler → Handler
unfolding token_of
auth hrux_api_key next r s =
    if bytes_eq (token_of r) (expected_key hrux_api_key)
    then next r s
    else (s, record { status = 401; reply = rejected (text "Unauthorized: Invalid API Key") })

-- What the machine decides for one request: the clock, a write, the orders of the maps,
-- and whether package http's writer can be flushed.
pub record World : Type 0 where
  pub now : Int64
  pub io : Io
  pub order : RangeOrder Bytes Bytes
  pub set_order : RangeOrder Bytes (Unit {0})
  pub channel_order : RangeOrder ℕ Bool
  pub can_flush : Bool

-- The routes behind the two guards.
pub data Route : Type 0 where
  put_route get_route delete_route list_route scan_route : Route
  set_add_route set_list_route sorted_list_add_route sorted_list_get_route : Route
  map_put_route map_get_route queue_push_route queue_pop_route stack_push_route stack_pop_route :
      Route
  publish_route subscribe_route : Route

-- `if err != nil` around the two answers
abbrev pub reply_of {ℓ} : {A : Type ℓ} → (A → Payload) → Result A → Reply
reply_of payload (ok a) = success (payload a)
reply_of payload (err e) = failure e

abbrev pub with_service : HttpServer → KvService → Reply → HttpServer × HttpResponse
with_service s service reply = (record s { service = service }, answered reply)

unfoldable pub put_handler : World → Handler
put_handler w r s =
    let req : KvRequest = r.body in
    if bytes_eq req.bucket [] || bytes_eq req.key []
    then (s, answered (rejected (text "bucket & key required")))
    else if positive64 req.ttl
    then with_service s
        (KvService.put_with_ttl w.now req.bucket req.key req.value req.ttl w.io s.service)
        (success no_payload)
    else with_service s (KvService.put req.bucket req.key req.value w.io s.service)
        (success no_payload)

unfoldable pub delete_handler : World → Handler
delete_handler w r s =
    let (service, error) = KvService.delete r.body.bucket r.body.key w.io s.service in
    with_service s service (elim error [ some e ↦ failure e | none ↦ success no_payload ])

unfoldable pub publish_handler : World → Handler
publish_handler w r s =
    if bytes_eq r.body.bucket []
    then (s, answered (rejected (text "channel (bucket field) required")))
    else with_service s (KvService.publish w.channel_order r.body.bucket r.body.value s.service)
        (success no_payload)

-- The subscription; the receives of its loop are steps of their own.
unfoldable pub subscribe_handler : World → Handler
subscribe_handler w r s =
    if bytes_eq r.query_channel []
    then (s, record { status = 400; reply = rejected (text "channel query parameter is required") })
    else if w.can_flush
    then (let (service, ch) = KvService.subscribe r.query_channel s.service in
        with_service s service (stream ch))
    else (s, record { status = 500; reply = rejected (text "Streaming unsupported") })

unfoldable pub pop_handler : KvService × Result Bytes → Handler
pop_handler popped r s = with_service s popped.0 (reply_of text_payload popped.1)

unfoldable pub handler : World → Route → Handler
unfolding put_handler delete_handler publish_handler subscribe_handler pop_handler
handler w put_route r s = put_handler w r s
handler w get_route r s =
    (s, answered (reply_of text_payload (KvService.get w.now r.body.bucket r.body.key s.service)))
handler w delete_route r s = delete_handler w r s
handler w list_route r s =
    (s, answered (reply_of map_payload (KvService.list w.order w.now r.body.bucket s.service)))
handler w scan_route r s =
    let page : List Bytes × Int64 =
      Scan.scan_keys w.order w.now s.service.storage.shards r.body.bucket r.body.cursor
        r.body.count in
    (s, answered (success (keys_payload page.0 page.1)))
handler w set_add_route r s =
    with_service s (KvService.set_add r.body.set_name r.body.value_str s.service)
      (success no_payload)
handler w set_list_route r s = (
  s,
  answered (
      reply_of (λ keys. keys_payload keys 0)
        (KvService.set_list w.set_order r.body.set_name s.service)),
)
handler w sorted_list_add_route r s =
    with_service s (KvService.sorted_list_add r.body.list_name r.body.value_str s.service)
      (success no_payload)
handler w sorted_list_get_route r s = (
  s,
  answered (
      reply_of (λ keys. keys_payload keys 0)
        (KvService.sorted_list_get r.body.list_name s.service)),
)
handler w map_put_route r s =
    with_service s (KvService.map_put r.body.map_name r.body.key r.body.value_str s.service)
      (success no_payload)
handler w map_get_route r s =
    (s, answered (reply_of text_payload (KvService.map_get r.body.map_name r.body.key s.service)))
handler w queue_push_route r s =
    with_service s (KvService.queue_push r.body.queue_name r.body.value_str s.service)
      (success no_payload)
handler w queue_pop_route r s = pop_handler (KvService.queue_pop r.body.queue_name s.service) r s
handler w stack_push_route r s =
    with_service s (KvService.stack_push r.body.stack_name r.body.value_str s.service)
      (success no_payload)
handler w stack_pop_route r s = pop_handler (KvService.stack_pop r.body.stack_name s.service) r s
handler w publish_route r s = publish_handler w r s
handler w subscribe_route r s = subscribe_handler w r s

unfoldable pub serve : Bytes → World → Route → Handler
unfolding cors auth handler
serve hrux_api_key w route = cors (auth hrux_api_key (handler w route))
