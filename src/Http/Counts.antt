-- ===== src/Http/Counts.antt =====
-- The counter of requests over any visits.
use fast_kv_a_lightweight_ke.Base.{
  nat_eq, ◌+◌, ◌%◌, ◌^◌, ◌<◌, ◌≡◌, refl, false, List, [], ◌∷◌, length, arith,
}
use fast_kv_a_lightweight_ke.Base.Bytes.{Bytes, bytes_eq, text}
use fast_kv_a_lightweight_ke.Base.Words.{add64}
use fast_kv_a_lightweight_ke.Storage.Engine.{get_wal_metrics}
use fast_kv_a_lightweight_ke.Http.{
  HttpRequest, HttpServer, HttpResponse, MemStats, World, Route, Handler, cors, auth, put_route,
  get_route, delete_route, list_route, scan_route, set_add_route, set_list_route,
  sorted_list_add_route, sorted_list_get_route, map_put_route, map_get_route, queue_push_route,
  queue_pop_route, stack_push_route, stack_pop_route, publish_route, subscribe_route, handler,
  serve, put_handler, delete_handler, publish_handler, subscribe_handler, pop_handler, metrics,
  answered,
}
use fast_kv_a_lightweight_ke.Http.Open.{
  OpenRoute, health_route, metrics_route, open_handler, serve_open,
}

-- A handler leaves the counter alone.
abbrev KeepsCounter : Handler → Type 0
KeepsCounter next = (r : HttpRequest) (s : HttpServer) → (next r s).0.ops_counter ≡ s.ops_counter

keeps-handler : (w : World) (route : Route) → KeepsCounter (handler w route)
unfolding handler put_handler delete_handler publish_handler subscribe_handler pop_handler
keeps-handler w put_route r s = ground arith
keeps-handler w get_route r s = refl
keeps-handler w delete_route r s = refl
keeps-handler w list_route r s = refl
keeps-handler w scan_route r s = refl
keeps-handler w set_add_route r s = refl
keeps-handler w set_list_route r s = refl
keeps-handler w sorted_list_add_route r s = refl
keeps-handler w sorted_list_get_route r s = refl
keeps-handler w map_put_route r s = refl
keeps-handler w map_get_route r s = refl
keeps-handler w queue_push_route r s = refl
keeps-handler w queue_pop_route r s = refl
keeps-handler w stack_push_route r s = refl
keeps-handler w stack_pop_route r s = refl
keeps-handler w publish_route r s = ground arith
keeps-handler w subscribe_route r s = ground arith

keeps-auth :
    (hrux_api_key : Bytes) (next : Handler)
    → KeepsCounter next
    → KeepsCounter (auth hrux_api_key next)
unfolding auth
keeps-auth hrux_api_key next keeps r s = ground (arith, keeps r s)

counts-cors :
    (next : Handler) (r : HttpRequest) (s : HttpServer)
    → KeepsCounter next
    → (cors next r s).0.ops_counter ≡ add64 s.ops_counter 1
unfolding cors
counts-cors next r s keeps =
    ground (arith, keeps r (record s { ops_counter = add64 s.ops_counter 1 }))

-- A request to the server: on a route behind the two guards, or on one of the other two.
pub data Visit : Type 0 where
  guarded_visit : World → Route → HttpRequest → Visit
  open_visit : MemStats → OpenRoute → HttpRequest → Visit

unfoldable pub visit : Bytes → Visit → HttpServer → HttpServer × HttpResponse
visit hrux_api_key (guarded_visit w route r) s = serve hrux_api_key w route r s
visit hrux_api_key (open_visit mem route r) s = serve_open mem route r s

unfoldable pub visit_all : Bytes → List Visit → HttpServer → HttpServer
unfolding visit
visit_all hrux_api_key [] s = s
visit_all hrux_api_key (v ∷ visits) s = visit_all hrux_api_key visits (visit hrux_api_key v s).0

keeps-open : (mem : MemStats) (route : OpenRoute) → KeepsCounter (open_handler mem route)
unfolding open_handler
keeps-open mem health_route r s = refl
keeps-open mem metrics_route r s = refl

counts-visit :
    (hrux_api_key : Bytes) (v : Visit) (s : HttpServer)
    → (visit hrux_api_key v s).0.ops_counter ≡ add64 s.ops_counter 1
unfolding visit serve serve_open open_handler
counts-visit hrux_api_key (guarded_visit w route r) s =
    counts-cors (auth hrux_api_key (handler w route)) r s
      (keeps-auth hrux_api_key (handler w route) (keeps-handler w route))
counts-visit hrux_api_key (open_visit mem route r) s =
    counts-cors (open_handler mem route) r s (keeps-open mem route)

counts-visit_all :
    (hrux_api_key : Bytes) (visits : List Visit) (s : HttpServer)
    → s.ops_counter < 2 ^ 64
    → (visit_all hrux_api_key visits s).ops_counter ≡ (s.ops_counter + length visits) % 2 ^ 64
unfolding visit_all
counts-visit_all hrux_api_key [] s small = omega arith
counts-visit_all hrux_api_key (v ∷ visits) s small =
    let next : HttpServer = (visit hrux_api_key v s).0 in
    let counted : next.ops_counter ≡ (s.ops_counter + 1) % 2 ^ 64 =
      unfold add64 in counts-visit hrux_api_key v s in
    let later = counts-visit_all hrux_api_key visits next (omega (arith, counted)) in
    omega (arith, counted, later)

-- After any visits, on any routes and with any answers, the metrics tell how many requests the server
-- was given, the one for the metrics included, modulo 2 ^ 64, and the counters of the store.
pub metrics_count :
    (hrux_api_key : Bytes) (visits : List Visit) (mem : MemStats) (r : HttpRequest) (s : HttpServer)
    → s.ops_counter < 2 ^ 64
    → bytes_eq r.method (text "OPTIONS") ≡ false
    → let before : HttpServer = visit_all hrux_api_key visits s in
      (visit hrux_api_key (open_visit mem metrics_route r) before).1
      ≡ answered (
          metrics (record {
            mem = mem;
            total_ops = (s.ops_counter + length visits + 1) % 2 ^ 64;
            active_lanes = 256;
            wal_writes = before.service.storage.wal_writes;
            wal_bytes = before.service.storage.wal_bytes_written;
            wal_lat_ns = before.service.storage.wal_latency_ns;
          }))
unfolding visit serve_open open_handler cors get_wal_metrics
metrics_count hrux_api_key visits mem r s small plain =
    let counted = counts-visit_all hrux_api_key visits s small in
    let total : add64 (visit_all hrux_api_key visits s).ops_counter 1
        ≡ (s.ops_counter + length visits + 1) % 2 ^ 64 =
      unfold add64 in omega (arith, counted) in
    rw (plain, total) refl
