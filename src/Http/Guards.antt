-- ===== src/Http/Guards.antt =====
-- What the two guards let through: requests without the key might as well not have been made.
use fast_kv_a_lightweight_ke.Base.{
  nat_eq, ◌≡◌, refl, sym, ap, ap₂, ◌∙◌, Bool, false, List, [], ◌∷◌, All, if◌then◌else◌, arith,
  Bool-cases, inl, inr,
}
use fast_kv_a_lightweight_ke.Base.Bytes.{Bytes, bytes_key, bytes_eq, text}
use fast_kv_a_lightweight_ke.Base.Words.{Int64, add64}
use fast_kv_a_lightweight_ke.Http.{
  HttpRequest, HttpResponse, HttpServer, World, Route, Handler, cors, auth, token_of, expected_key,
  serve, handler, put_route, get_route, delete_route, list_route, scan_route, set_add_route,
  set_list_route, sorted_list_add_route, sorted_list_get_route, map_put_route, map_get_route,
  queue_push_route, queue_pop_route, stack_push_route, stack_pop_route, publish_route,
  subscribe_route, put_handler, delete_handler, publish_handler, subscribe_handler, pop_handler,
}

-- The same server with another count of requests.
abbrev counting : Int64 → HttpServer → HttpServer
counting n s = record s { ops_counter = n }

-- A handler's answer, and what it does to the service, do not depend on the count.
abbrev IgnoresCount : Handler → Type 0
IgnoresCount next =
    (r : HttpRequest) (s : HttpServer) (n : Int64)
    → ((next r (counting n s)).0.service ≡ (next r s).0.service)
      × ((next r (counting n s)).1 ≡ (next r s).1)

handler-IgnoresCount : (w : World) (route : Route) → IgnoresCount (handler w route)
unfolding handler put_handler delete_handler publish_handler subscribe_handler pop_handler
handler-IgnoresCount w put_route r s n = ground arith
handler-IgnoresCount w get_route r s n = (refl, refl)
handler-IgnoresCount w delete_route r s n = (refl, refl)
handler-IgnoresCount w list_route r s n = (refl, refl)
handler-IgnoresCount w scan_route r s n = (refl, refl)
handler-IgnoresCount w set_add_route r s n = (refl, refl)
handler-IgnoresCount w set_list_route r s n = (refl, refl)
handler-IgnoresCount w sorted_list_add_route r s n = (refl, refl)
handler-IgnoresCount w sorted_list_get_route r s n = (refl, refl)
handler-IgnoresCount w map_put_route r s n = (refl, refl)
handler-IgnoresCount w map_get_route r s n = (refl, refl)
handler-IgnoresCount w queue_push_route r s n = (refl, refl)
handler-IgnoresCount w queue_pop_route r s n = (refl, refl)
handler-IgnoresCount w stack_push_route r s n = (refl, refl)
handler-IgnoresCount w stack_pop_route r s n = (refl, refl)
handler-IgnoresCount w publish_route r s n = ground arith
handler-IgnoresCount w subscribe_route r s n = ground arith

serve-IgnoresCount :
    (hrux_api_key : Bytes) (w : World) (route : Route) → IgnoresCount (serve hrux_api_key w route)
unfolding serve cors auth
serve-IgnoresCount hrux_api_key w route r s n =
    let here = handler-IgnoresCount w route r (counting (add64 s.ops_counter 1) s) (add64 n 1) in
    ground (arith, here)

-- A request to a route behind the guards.
abbrev pub Guarded : Type 0
Guarded = World × Route × HttpRequest

abbrev pub has_key : Bytes → HttpRequest → Bool
has_key hrux_api_key r = bytes_eq (token_of r) (expected_key hrux_api_key)

-- One request after the other, and what each is answered.
unfoldable pub serve_all :
    Bytes → List Guarded → HttpServer → HttpServer × List (HttpRequest × HttpResponse)
serve_all hrux_api_key [] s = (s, [])
serve_all hrux_api_key ((w, route, r) ∷ calls) s =
    let done : HttpServer × HttpResponse = serve hrux_api_key w route r s in
    let later : HttpServer × List (HttpRequest × HttpResponse) =
      serve_all hrux_api_key calls done.0 in
    (later.0, (r, done.1) ∷ later.1)

unfoldable pub with_key : Bytes → List Guarded → List Guarded
with_key hrux_api_key [] = []
with_key hrux_api_key ((w, route, r) ∷ calls) =
    let rest : List Guarded = with_key hrux_api_key calls in
    if has_key hrux_api_key r then (w, route, r) ∷ rest else rest

unfoldable pub answers_with_key :
    Bytes → List (HttpRequest × HttpResponse) → List (HttpRequest × HttpResponse)
answers_with_key hrux_api_key [] = []
answers_with_key hrux_api_key ((r, answer) ∷ answers) =
    let rest : List (HttpRequest × HttpResponse) = answers_with_key hrux_api_key answers in
    if has_key hrux_api_key r then (r, answer) ∷ rest else rest

-- A request without the key is answered so.
abbrev pub IsTurnedAway : Bytes → HttpRequest × HttpResponse → Type 0
IsTurnedAway hrux_api_key answer =
    has_key hrux_api_key answer.0 ≡ false
    → answer.1.status ≡ (if bytes_eq answer.0.method (text "OPTIONS") then 200 else 401)

turned_away :
    (hrux_api_key : Bytes) (w : World) (route : Route) (r : HttpRequest) (s : HttpServer)
    → has_key hrux_api_key r ≡ false
    → ((serve hrux_api_key w route r s).0 ≡ counting (add64 s.ops_counter 1) s)
      × ((serve hrux_api_key w route r s).1.status
          ≡ (if bytes_eq r.method (text "OPTIONS") then 200 else 401))
unfolding serve cors auth
turned_away hrux_api_key w route r s wrong = ground (arith, wrong)

module _ (hrux_api_key : Bytes) where
  -- A server that has counted otherwise serves the requests alike.
  serve_all-counting :
      (calls : List Guarded) (s t : HttpServer)
      → s.service ≡ t.service
      → ((serve_all hrux_api_key calls s).0.service ≡ (serve_all hrux_api_key calls t).0.service)
        × ((serve_all hrux_api_key calls s).1 ≡ (serve_all hrux_api_key calls t).1)
  unfolding serve_all
  serve_all-counting [] s t same = (same, refl)
  serve_all-counting ((w, route, r) ∷ calls) s t same =
      let one : counting s.ops_counter t ≡ s = ap (λ x. record s { service = x }) (sym same) in
      let here = serve-IgnoresCount hrux_api_key w route r t s.ops_counter in
      let moved = ap (λ x. serve hrux_api_key w route r x) one in
      let later =
        serve_all-counting calls (serve hrux_api_key w route r s).0
          (serve hrux_api_key w route r t).0 (ap (λ x. x.0.service) (sym moved) ∙ here.0) in
      (
        later.0,
        ap₂
            (λ (answer : HttpResponse) (rest : List (HttpRequest × HttpResponse)).
              (r, answer) ∷ rest)
            (ap (λ x. x.1) (sym moved) ∙ here.1) later.1,
      )

  -- Any requests to the routes behind the guards: those without the server's key might as well not
  -- have been made. Without them the service ends as it does, and the requests with the key are
  -- answered the same; and each without it is answered with the status 401, or 200 if it is a preflight.
  pub serve_all-with_key :
      (calls : List Guarded) (s : HttpServer)
      → ((serve_all hrux_api_key calls s).0.service
          ≡ (serve_all hrux_api_key (with_key hrux_api_key calls) s).0.service)
        × (answers_with_key hrux_api_key (serve_all hrux_api_key calls s).1
            ≡ (serve_all hrux_api_key (with_key hrux_api_key calls) s).1)
        × All (IsTurnedAway hrux_api_key) (serve_all hrux_api_key calls s).1
  unfolding serve_all with_key answers_with_key
  serve_all-with_key [] s = (refl, refl, tt)
  serve_all-with_key ((w, route, r) ∷ calls) s =
      let done : HttpServer × HttpResponse = serve hrux_api_key w route r s in
      let ih = serve_all-with_key calls done.0 in
      elim (Bool-cases (has_key hrux_api_key r)) [
        | inl keyed ↦ rw keyed (
          ih.0,
          ap (λ (rest : List (HttpRequest × HttpResponse)). (r, done.1) ∷ rest) ih.1,
          ((λ unkeyed. absurd (ground (arith, keyed, unkeyed))), ih.2),
        )
        | inr keyless ↦
            let away = turned_away hrux_api_key w route r s keyless in
            let same =
              serve_all-counting (with_key hrux_api_key calls) done.0 s
                (ap (λ x. x.service) away.0) in
            rw keyless (ih.0 ∙ same.0, ih.1 ∙ same.1, ((λ unkeyed. away.1), ih.2))
      ]
