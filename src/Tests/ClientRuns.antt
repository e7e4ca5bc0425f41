-- ===== src/Tests/ClientRuns.antt =====
-- A client with one path, and a server that gives the same answer to every request.
use doh_auth_proxy.Prelude.{
  ℕ, ◌+◌, ◌≡◌, ◌≢◌, refl, ap, true, false, Option, none, some, List, [], ◌∷◌, Outcome, ok, panic,
  arith, leb, ℕ_discrete,
}
use doh_auth_proxy.Text.{Text, codes, to_ascii_lowercase}
use doh_auth_proxy.Dns.{Request, request_try_from, is_query, is_response, encode}
use doh_auth_proxy.Path.{standard, https, DohPath, as_url, get_path, prune}
use doh_auth_proxy.Cache.{get, is_cacheable, min_ttl, from_secs, cache_object, build_response}
use doh_auth_proxy.Cache.Put.{IsValid}
use doh_auth_proxy.Client.Http.{HttpLib, HttpRequest, HttpResponse, OdohLib, post_method}
use doh_auth_proxy.Client.Exchange.{Net}
use doh_auth_proxy.Client.Query.{DohClient, ClientState, make_doh_query_inner, manipulated}
use doh_auth_proxy.Client.QueryLaws.{IsPassed, run, make_doh_query_twice}
use doh_auth_proxy.Tests.Toy.{toy_url}
use doh_auth_proxy.Tests.Message.{toy_hickory, toy_query, toy_answer}
use doh_auth_proxy.Tests.Libs.{toy_cedar_lib}
use doh_auth_proxy.Tests.CacheRuns.{entries_map, two, two-IsValid}

abbrev pub web : HttpLib
web = record {
  Headers = List (Text × Text);
  HeaderValue = Text;
  no_headers = [];
  header_value = λ s. some s;
  insert = λ hs k v. (k, v) ∷ hs;
  base64url = λ b. b;
}

abbrev pub odoh : OdohLib
odoh = record {
  Contents = ℕ;
  Plaintext = List ℕ;
  Encrypted = List ℕ;
  Secret = ℕ;
  parse_configs = λ b. some b;
  new_plaintext = λ b n. b;
  encrypt = λ p k. some (p, k);
  compose = λ e. some e;
  parse_message = λ b. some b;
  decrypt = λ p e s. some e;
  into_msg = λ p. p;
}

abbrev pub path : DohPath
path = record {
  target = record { authority = codes "a:1"; path = codes "/q"; scheme = https };
  relays = [];
  is_healthy = true;
  doh_type = standard;
}

abbrev pub client : DohClient toy_url toy_hickory toy_cedar_lib web odoh
client = record {
  id_token = none;
  path_manager = record {
    paths = ((path ∷ []) ∷ []) ∷ [];
    target_randomization = false;
    nexthop_randomization = false;
  };
  doh_type = standard;
  doh_method = post_method;
  headers = [];
  query_manipulators = none;
}

-- The address 9 with the TTL 60, to every request.
abbrev pub server : HttpRequest web → Option HttpResponse
server r = some (record { status = 200; content_length = none; body = some (5 ∷ 1 ∷ 60 ∷ 9 ∷ []) })

abbrev pub offline : Net toy_url web odoh
offline = record { sent = []; odoh_configs = none }

abbrev pub start : ClientState toy_url toy_hickory toy_cedar_lib web odoh server entries_map
start = record { cache = two; net = offline }

-- The packet of a query for `a.` with an id.
abbrev packet : ℕ → List ℕ
packet id = id ∷ 0 ∷ codes "a."

abbrev key : Request toy_hickory
key = record { keys = record { query_name = codes "a."; query_type = 1; query_class = 1 } ∷ [] }

packet-IsPassed :
    (id : ℕ)
    → IsPassed toy_url toy_hickory toy_cedar_lib web odoh server entries_map
        (λ i n. 0)
        client
        (packet id)
        (toy_query id (codes "a."))
        key
unfolding is_query request_try_from to_ascii_lowercase manipulated
packet-IsPassed id = record { decodes = refl; keyed = refl; passed = refl }

abbrev after_one : Net toy_url web odoh
after_one = record {
  sent = record { method = post_method; url = codes "a:1/q"; headers = []; body = packet 3 } ∷ [];
  odoh_configs = none;
}

answered :
    make_doh_query_inner toy_url toy_hickory toy_cedar_lib web odoh server client offline
      (packet 3)
      path
    ≡ (after_one, ok (5 ∷ 1 ∷ 60 ∷ 9 ∷ [], toy_answer 5 60 9))
unfolding make_doh_query_inner as_url is_response
answered = refl

missed : (get toy_hickory entries_map 7 two key).1 ≡ none
unfolding get
missed = refl

chosen : get_path (λ i n. 0) client.path_manager ≡ ok (some path)
unfolding get_path prune
chosen = refl

kept-IsValid : IsValid entries_map (get toy_hickory entries_map 7 two key).0
unfolding get
kept-IsValid = two-IsValid

answer_cacheable : is_cacheable toy_hickory (toy_answer 5 60 9) ≡ true
unfolding is_cacheable ℕ_discrete
answer_cacheable = refl

answer_ttl : min_ttl toy_hickory (toy_answer 5 60 9) ≢ 0
unfolding min_ttl
answer_ttl e = omega arith

in_time : leb 100 (from_secs (min_ttl toy_hickory (toy_answer 5 60 9))) ≡ true
unfolding min_ttl
in_time = refl

-- 100 nanoseconds later 59 seconds of the TTL are left.
rebuilt :
    build_response toy_hickory (8 + 100) (cache_object toy_hickory 8 (toy_answer 5 60 9)) 4
    ≡ ok (4 ∷ 1 ∷ 59 ∷ 9 ∷ [])
unfolding build_response cache_object encode
rebuilt = refl

abbrev runs :
    ℕ
    → ℕ
    → ClientState toy_url toy_hickory toy_cedar_lib web odoh server entries_map
    → List ℕ
    → ClientState toy_url toy_hickory toy_cedar_lib web odoh server entries_map × Outcome (List ℕ)
runs = run toy_url toy_hickory toy_cedar_lib web odoh server entries_map (λ i n. 0) client

make_doh_query_twice_example :
    ((runs 7 8 start (packet 3)).1 ≡ ok (5 ∷ 1 ∷ 60 ∷ 9 ∷ []))
    × ((runs (8 + 100) 200 (runs 7 8 start (packet 3)).0 (packet 4)).1 ≡ ok (4 ∷ 1 ∷ 59 ∷ 9 ∷ []))
    × ((runs (8 + 100) 200 (runs 7 8 start (packet 3)).0 (packet 4)).0.net ≡ after_one)
make_doh_query_twice_example =
    make_doh_query_twice toy_url toy_hickory toy_cedar_lib web odoh server entries_map (λ i n. 0)
      client 7 8 100 200 start (packet 3) (packet 4) (toy_query 3 (codes "a."))
      (toy_query 4 (codes "a.")) key path after_one (5 ∷ 1 ∷ 60 ∷ 9 ∷ []) (4 ∷ 1 ∷ 59 ∷ 9 ∷ [])
      (toy_answer 5 60 9) (packet-IsPassed 3) (packet-IsPassed 4) missed chosen answered
      kept-IsValid answer_cacheable answer_ttl in_time rebuilt

not_panic :
    (make_doh_query_inner toy_url toy_hickory toy_cedar_lib web odoh server client offline
      (packet 3)
      path).1
    ≢ panic
not_panic e = let same = ap (λ x. x.1) answered in cc
