-- ===== src/Http/Durability.antt =====
-- Requests over HTTP whose writes go well, against a restart.
use fast_kv_a_lightweight_ke.Base.{
  nat_eq, ◌≡◌, ◌||◌, [], if◌then◌else◌, arith, Bool-cases, inl, inr,
}
use fast_kv_a_lightweight_ke.Base.Bytes.{Bytes, bytes_key, bytes_eq, text}
use fast_kv_a_lightweight_ke.Base.Words.{add64, positive64}
use fast_kv_a_lightweight_ke.Storage.Engine.Recovery.{IsDurable}
use fast_kv_a_lightweight_ke.Storage.Engine.Sessions.{
  Request, put_req, put_with_ttl_req, delete_req, execute, GoesWell, execute-IsDurable,
}
use fast_kv_a_lightweight_ke.Service.KvService
use fast_kv_a_lightweight_ke.Service.KvService.{KvService}
use fast_kv_a_lightweight_ke.Http.{
  KvRequest, HttpRequest, HttpServer, World, Route, Handler, MemStats, token_of, expected_key, cors,
  auth, handler, serve, put_handler, delete_handler, publish_handler, subscribe_handler,
  pop_handler, put_route, get_route, delete_route, list_route, scan_route, set_add_route,
  set_list_route, sorted_list_add_route, sorted_list_get_route, map_put_route, map_get_route,
  queue_push_route, queue_pop_route, stack_push_route, stack_pop_route, publish_route,
  subscribe_route,
}
use fast_kv_a_lightweight_ke.Http.Open.{
  OpenRoute, health_route, metrics_route, open_handler, serve_open,
}
use fast_kv_a_lightweight_ke.Http.Counts.{Visit, guarded_visit, open_visit, visit}

-- The request that a put makes of the store.
abbrev pub put_of : World → KvRequest → Request
put_of w req =
    if positive64 req.ttl
    then put_with_ttl_req w.now req.bucket req.key req.value req.ttl
    else put_req req.bucket req.key req.value

-- The names and the value of a visit fit the log, and its write goes well.
abbrev pub VisitGoesWell : Visit → Type 0
VisitGoesWell (guarded_visit w put_route r) = GoesWell (put_of w r.body, w.io)
VisitGoesWell (guarded_visit w delete_route r) =
    GoesWell (delete_req r.body.bucket r.body.key, w.io)
VisitGoesWell v = Unit

module _ (w : World) (r : HttpRequest) (s : HttpServer) where
  storage-put_handler : (put_handler w r s).0.service.storage ≡ (
      if bytes_eq r.body.bucket [] || bytes_eq r.body.key []
      then s.service.storage
      else (execute s.service.storage (put_of w r.body) w.io).0)
  unfolding put_handler KvService.put KvService.put_with_ttl execute
  storage-put_handler = ground arith

  storage-publish_handler : (publish_handler w r s).0.service.storage ≡ s.service.storage
  unfolding publish_handler KvService.publish
  storage-publish_handler = ground arith

  storage-subscribe_handler : (subscribe_handler w r s).0.service.storage ≡ s.service.storage
  unfolding subscribe_handler KvService.subscribe
  storage-subscribe_handler = ground arith

-- A handler behind the guards sees the store as it was, or is not called.
abbrev KeepsDurable : Bytes → Handler → HttpRequest → Type 0
KeepsDurable filename next r =
    (s : HttpServer)
    → IsDurable filename s.service.storage
    → IsDurable filename (next r s).0.service.storage

keeps-put :
    (filename : Bytes) (w : World) (r : HttpRequest)
    → GoesWell (put_of w r.body, w.io)
    → KeepsDurable filename (put_handler w) r
keeps-put filename w r well s d =
    elim (Bool-cases (bytes_eq r.body.bucket [] || bytes_eq r.body.key [])) [
      | inl unnamed ↦ rw (storage-put_handler w r s, unnamed) d
      | inr named ↦
          rw (storage-put_handler w r s, named)
            (execute-IsDurable filename s.service.storage (put_of w r.body) w.io d well.0 well.1)
    ]

keeps-delete :
    (filename : Bytes) (w : World) (r : HttpRequest)
    → GoesWell (delete_req r.body.bucket r.body.key, w.io)
    → KeepsDurable filename (delete_handler w) r
unfolding delete_handler KvService.delete execute
keeps-delete filename w r well s d =
    execute-IsDurable filename s.service.storage (delete_req r.body.bucket r.body.key) w.io d well.0
      well.1

keeps-handler :
    (filename : Bytes) (w : World) (route : Route) (r : HttpRequest)
    → VisitGoesWell (guarded_visit w route r)
    → KeepsDurable filename (handler w route) r
unfolding handler pop_handler KvService.set_add KvService.sorted_list_add KvService.map_put
    KvService.queue_push KvService.queue_pop KvService.stack_push KvService.stack_pop
keeps-handler filename w put_route r well s d = keeps-put filename w r well s d
keeps-handler filename w delete_route r well s d = keeps-delete filename w r well s d
keeps-handler filename w get_route r well s d = d
keeps-handler filename w list_route r well s d = d
keeps-handler filename w scan_route r well s d = d
keeps-handler filename w set_add_route r well s d = d
keeps-handler filename w set_list_route r well s d = d
keeps-handler filename w sorted_list_add_route r well s d = d
keeps-handler filename w sorted_list_get_route r well s d = d
keeps-handler filename w map_put_route r well s d = d
keeps-handler filename w map_get_route r well s d = d
keeps-handler filename w queue_push_route r well s d = d
keeps-handler filename w queue_pop_route r well s d = d
keeps-handler filename w stack_push_route r well s d = d
keeps-handler filename w stack_pop_route r well s d = d
keeps-handler filename w publish_route r well s d = rw (storage-publish_handler w r s) d
keeps-handler filename w subscribe_route r well s d = rw (storage-subscribe_handler w r s) d

keeps-auth :
    (filename hrux_api_key : Bytes) (next : Handler) (r : HttpRequest)
    → KeepsDurable filename next r
    → KeepsDurable filename (auth hrux_api_key next) r
unfolding auth
keeps-auth filename hrux_api_key next r keeps s d =
    elim (Bool-cases (bytes_eq (token_of r) (expected_key hrux_api_key))) [
      | inl right ↦ rw right (keeps s d)
      | inr wrong ↦ rw wrong d
    ]

keeps-cors :
    (filename : Bytes) (next : Handler) (r : HttpRequest)
    → KeepsDurable filename next r
    → KeepsDurable filename (cors next) r
unfolding cors
keeps-cors filename next r keeps s d = elim (Bool-cases (bytes_eq r.method (text "OPTIONS"))) [
  | inl preflight ↦ rw preflight d
  | inr plain ↦ rw plain (keeps (record s { ops_counter = add64 s.ops_counter 1 }) d)
]

keeps-open :
    (filename : Bytes) (mem : MemStats) (route : OpenRoute) (r : HttpRequest)
    → KeepsDurable filename (open_handler mem route) r
unfolding open_handler
keeps-open filename mem health_route r s d = d
keeps-open filename mem metrics_route r s d = d

-- A visit whose names and value fit and whose write goes well, whatever it is answered, leaves a log
-- that rebuilds the memory.
pub visit-IsDurable :
    (filename hrux_api_key : Bytes) (v : Visit) (s : HttpServer)
    → VisitGoesWell v
    → IsDurable filename s.service.storage
    → IsDurable filename (visit hrux_api_key v s).0.service.storage
unfolding visit serve serve_open
visit-IsDurable filename hrux_api_key (guarded_visit w route r) s well d =
    keeps-cors filename (auth hrux_api_key (handler w route)) r
      (keeps-auth filename hrux_api_key (handler w route) r (keeps-handler filename w route r well))
      s d
visit-IsDurable filename hrux_api_key (open_visit mem route r) s well d =
    keeps-cors filename (open_handler mem route) r (keeps-open filename mem route r) s d
