-- ===== src/Client/QueryLaws.antt =====
-- What a query does to the cache and to the network.
use doh_auth_proxy.Prelude.{
  ℕ, ◌+◌, ◌≢◌, ◌∙◌, leb, ◌≡◌, refl, ap, true, Option, none, some, List, Outcome, ok, if◌then◌else◌,
}
use doh_auth_proxy.Url.{UrlLib}
use doh_auth_proxy.Hickory.{Hickory}
use doh_auth_proxy.Dns.{Request, request_try_from, is_query, encode}
use doh_auth_proxy.Path.{DohPath, get_path}
use doh_auth_proxy.Cache.Linked.{LinkedHashMap}
use doh_auth_proxy.Cache.{
  CacheObject, get, put, build_response, cache_object, is_cacheable, min_ttl, from_secs,
}
use doh_auth_proxy.Cache.Put.{IsValid}
use doh_auth_proxy.Cache.Get.{get-put}
use doh_auth_proxy.Manipulation.Libs.{CedarLib}
use doh_auth_proxy.Manipulation.Apply.{pass_through, synthetic_response}
use doh_auth_proxy.Client.Http.{HttpLib, HttpRequest, HttpResponse, OdohLib}
use doh_auth_proxy.Client.Exchange.{Net}
use doh_auth_proxy.Client.Query.{
  DohClient, ClientState, manipulated, make_doh_query_inner, make_doh_query,
}

module _ (U : UrlLib) (H : Hickory) (C : CedarLib) (W : HttpLib) (O : OdohLib)
    (http : HttpRequest W → Option HttpResponse) {dec : Discrete (Request H)}
    (L : LinkedHashMap (Request H) (CacheObject H) dec) (draw : ℕ → ℕ → ℕ)
    (c : DohClient U H C W O) where
  -- The packet is a query with the key `req`, which the manipulators let pass.
  pub record IsPassed (packet_buf : List ℕ) (m : H.Message) (req : Request H) : Type 0 where
    pub decodes : is_query H packet_buf ≡ ok m
    pub keyed : request_try_from H m ≡ ok req
    pub passed : manipulated U H C W O http c m req ≡ ok pass_through

  abbrev pub run :
      ℕ
      → ℕ
      → ClientState U H C W O http L
      → List ℕ
      → ClientState U H C W O http L × Outcome (List ℕ)
  run now after s packet_buf = make_doh_query U H C W O http L now after draw c s packet_buf

  -- A query with a key that the manipulators answer is answered so, and leaves the cache and the
  -- network alone.
  pub make_doh_query_blocked :
      (now after : ℕ) (s : ClientState U H C W O http L) (packet_buf : List ℕ)
      (m answer : H.Message) (req : Request H)
      → is_query H packet_buf ≡ ok m
      → request_try_from H m ≡ ok req
      → manipulated U H C W O http c m req ≡ ok (synthetic_response answer)
      → run now after s packet_buf ≡ (s, encode H answer)
  unfolding make_doh_query
  make_doh_query_blocked now after s packet_buf m answer req e1 e2 e3 = rw (e1, e2, e3) refl

  -- A query that the cache does not answer goes to a path, and its response to the cache.
  make_doh_query_miss :
      (now after : ℕ) (s : ClientState U H C W O http L) (packet_buf : List ℕ) (m : H.Message)
      (req : Request H) (p : DohPath) (n : Net U W O) (buf : List ℕ) (r : H.Message)
      → IsPassed packet_buf m req
      → (get H L now s.cache req).1 ≡ none
      → get_path draw c.path_manager ≡ ok (some p)
      → make_doh_query_inner U H C W O http c s.net packet_buf p ≡ (n, ok (buf, r))
      → run now after s packet_buf
        ≡ (record { cache = (put H L after (get H L now s.cache req).0 req r).0; net = n }, ok buf)
  unfolding make_doh_query
  make_doh_query_miss now after s packet_buf m req p n buf r q miss path inner =
      rw (q.decodes, q.keyed, q.passed, miss, path, inner) refl

  -- A query that the cache answers sends nothing.
  make_doh_query_hit :
      (now after : ℕ) (s : ClientState U H C W O http L) (packet_buf : List ℕ) (m : H.Message)
      (req : Request H) (o : CacheObject H) (buf : List ℕ)
      → IsPassed packet_buf m req
      → (get H L now s.cache req).1 ≡ some o
      → build_response H now o (H.parts m).id ≡ ok buf
      → run now after s packet_buf ≡ (record s { cache = (get H L now s.cache req).0 }, ok buf)
  unfolding make_doh_query
  make_doh_query_hit now after s packet_buf m req o buf q hit built =
      rw (q.decodes, q.keyed, q.passed, hit, built) refl

  -- A query that the manipulators let pass and a valid cache does not answer is sent along the
  -- chosen path and the response returned; if that response is cacheable with no TTL of zero, a
  -- query with the same key, up to its smallest TTL later, is answered by the stored response and
  -- sends nothing.
  pub make_doh_query_twice :
      (now after delay later : ℕ) (s : ClientState U H C W O http L) (first second : List ℕ)
      (m m' : H.Message) (req : Request H) (p : DohPath) (n : Net U W O) (buf answer : List ℕ)
      (r : H.Message)
      → IsPassed first m req
      → IsPassed second m' req
      → (get H L now s.cache req).1 ≡ none
      → get_path draw c.path_manager ≡ ok (some p)
      → make_doh_query_inner U H C W O http c s.net first p ≡ (n, ok (buf, r))
      → IsValid L (get H L now s.cache req).0
      → is_cacheable H r ≡ true
      → min_ttl H r ≢ 0
      → leb delay (from_secs (min_ttl H r)) ≡ true
      → build_response H (after + delay) (cache_object H after r) (H.parts m').id ≡ ok answer
      → (run now after s first).1 ≡ ok buf
        × ((run (after + delay) later (run now after s first).0 second).1 ≡ ok answer)
        × ((run (after + delay) later (run now after s first).0 second).0.net ≡ n)
  make_doh_query_twice now after delay later s first second m m' req p n buf answer r q q' miss path
        inner valid cacheable ttl fresh built =
      let e1 = make_doh_query_miss now after s first m req p n buf r q miss path inner in
      let c0 = (get H L now s.cache req).0 in
      let t : ClientState U H C W O http L = record {
        cache = (put H L after c0 req r).0;
        net = n;
      } in
      let found : (get H L (after + delay) t.cache req).1 ≡ some (cache_object H after r) =
        get-put L c0 req r after delay valid cacheable ttl
        ∙ ap (λ b. if b then some (cache_object H after r) else none) fresh in
      let e2 =
        make_doh_query_hit (after + delay) later t second m' req (cache_object H after r) answer q'
          found built in
      let same = ap (λ x. run (after + delay) later x.0 second) e1 ∙ e2 in
      (ap (λ x. x.1) e1, ap (λ x. x.1) same, ap (λ x. x.0.net) same)
