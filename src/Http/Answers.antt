-- ===== src/Http/Answers.antt =====
-- A client of the HTTP server that puts a key and gets it back.
use fast_kv_a_lightweight_ke.Base.{
  nat_eq, [], ◌+◌, ◌^◌, ◌<◌, ◌≡◌, refl, ap, ◌∙◌, ◌||◌, true, false, none, leb, if◌then◌else◌,
  key_expired, arith,
}
use fast_kv_a_lightweight_ke.Base.Bytes.{Bytes, bytes_key, bytes_eq, bytes_eq_refl, text}
use fast_kv_a_lightweight_ke.Base.Words.{Int64, add64, less64, positive64}
use fast_kv_a_lightweight_ke.Storage.Engine.{put_with_ttl}
use fast_kv_a_lightweight_ke.Storage.Engine.Expiry.{ttl_window}
use fast_kv_a_lightweight_ke.Service.KvService
use fast_kv_a_lightweight_ke.Http.{
  HttpRequest, HttpServer, HttpResponse, World, Handler, cors, auth, token_of, expected_key,
  handler, serve, put_handler, put_route, get_route, success, failure, no_payload, text_payload,
  answered, reply_of,
}

-- A request that passes the two guards.
pub record IsAdmitted (hrux_api_key : Bytes) (r : HttpRequest) : Type 0 where
  pub no_preflight : bytes_eq r.method (text "OPTIONS") ≡ false
  pub with_key : token_of r ≡ expected_key hrux_api_key

-- Such a request reaches the handler, counted.
admitted_lem :
    (hrux_api_key : Bytes) (next : Handler) (r : HttpRequest) (s : HttpServer)
    → IsAdmitted hrux_api_key r
    → cors (auth hrux_api_key next) r s ≡ next r (record s { ops_counter = add64 s.ops_counter 1 })
unfolding cors auth
admitted_lem hrux_api_key next r s admitted =
    rw (admitted.no_preflight, admitted.with_key, bytes_eq_refl (expected_key hrux_api_key)) refl

module _ (hrux_api_key : Bytes) (r : HttpRequest) (s : HttpServer)
    (admitted : IsAdmitted hrux_api_key r) where
  abbrev counted : HttpServer
  counted = record s { ops_counter = add64 s.ops_counter 1 }

  serve-put :
      (w : World)
      → (bytes_eq r.body.bucket [] || bytes_eq r.body.key []) ≡ false
      → positive64 r.body.ttl ≡ true
      → serve hrux_api_key w put_route r s ≡ (
        record counted {
          service =
              KvService.put_with_ttl w.now r.body.bucket r.body.key r.body.value r.body.ttl w.io
                s.service;
        },
        answered (success no_payload),
      )
  unfolding serve handler put_handler
  serve-put w named timed =
      admitted_lem hrux_api_key (handler w put_route) r s admitted
      ∙ rw (named, timed, handler, put_handler) refl

  serve-get :
      (w : World)
      → (serve hrux_api_key w get_route r s).1
        ≡ answered (reply_of text_payload (KvService.get w.now r.body.bucket r.body.key s.service))
  unfolding serve handler
  serve-get w =
      ap (λ (x : HttpServer × HttpResponse). x.1)
        (admitted_lem hrux_api_key (handler w get_route) r s admitted)

positive-ttl : (ttl : Int64) → 0 < ttl → ttl < 2 ^ 63 → positive64 ttl ≡ true
unfolding positive64 less64
positive-ttl ttl some_time small = ground arith

-- With the server's key, a put over HTTP of a named key, with a positive number of seconds whose sum
-- with the clock is an int64, and whose write goes well, is answered with success; a get of the key
-- by a later request is answered with the value up to and at the last of those seconds, and with the
-- error for an expired key from then on.
pub get-put_over_http :
    (hrux_api_key : Bytes) (w later : World) (r1 r2 : HttpRequest) (s : HttpServer)
    → IsAdmitted hrux_api_key r1
    → IsAdmitted hrux_api_key r2
    → (bytes_eq r1.body.bucket [] || bytes_eq r1.body.key []) ≡ false
    → r2.body.bucket ≡ r1.body.bucket
    → r2.body.key ≡ r1.body.key
    → 0 < r1.body.ttl
    → w.now + r1.body.ttl < 2 ^ 63
    → later.now < 2 ^ 63
    → (put_with_ttl w.now s.service.storage r1.body.bucket r1.body.key r1.body.value r1.body.ttl
        w.io).1
      ≡ none
    → let put_done : HttpServer × HttpResponse = serve hrux_api_key w put_route r1 s in
      let got : HttpServer × HttpResponse = serve hrux_api_key later get_route r2 put_done.0 in
      (put_done.1 ≡ answered (success no_payload))
      × (got.1
          ≡ answered (
              if leb later.now (w.now + r1.body.ttl)
              then success (text_payload r1.body.value)
              else failure key_expired))
unfolding KvService.put_with_ttl KvService.get
get-put_over_http hrux_api_key w later r1 r2 s in1 in2 named same_bucket same_key some_time fits
      clock done =
    let stored =
      serve-put hrux_api_key r1 s in1 w named (positive-ttl r1.body.ttl some_time (omega arith)) in
    let window =
      ttl_window w.now s.service.storage r1.body.bucket r1.body.key r1.body.value r1.body.ttl w.io
        done later.now some_time fits clock in
    (
      ap (λ (x : HttpServer × HttpResponse). x.1) stored,
      serve-get hrux_api_key r2 (serve hrux_api_key w put_route r1 s).0 in2 later
          ∙ rw (stored, same_bucket, same_key, window) (ground arith),
    )
