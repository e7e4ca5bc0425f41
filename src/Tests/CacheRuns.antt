-- ===== src/Tests/CacheRuns.antt =====
-- A cache of two entries, and a response that lives for sixty seconds.
use doh_auth_proxy.Prelude.{
  ◌+◌, ◌%◌, ◌^◌, ◌≡◌, ◌≢◌, refl, ap, ◌≤◌, true, none, some, [], ◌∷◌, ok, arith, if◌then◌else◌, leb,
  All, ℕ_discrete,
}
use doh_auth_proxy.Text.{codes}
use doh_auth_proxy.Dns.{Request}
use doh_auth_proxy.Cache.Linked.{LinkedHashMap, DistinctKeys}
use doh_auth_proxy.Cache.{
  Cache, CacheObject, put, get, cache_object, is_cacheable, min_ttl, from_secs, as_secs,
  remained_ttl, response_message,
}
use doh_auth_proxy.Cache.Put.{IsValid, put-IsValid}
use doh_auth_proxy.Cache.Get.{get-put}
use doh_auth_proxy.Cache.Response.{with_ttl, parts-response_message, response_ttl-le}
use doh_auth_proxy.Tests.Toy.{toy_map}
use doh_auth_proxy.Tests.Message.{ToyMessage, toy_hickory, toy_answer, request_discrete}

abbrev pub entries_map :
    LinkedHashMap (Request toy_hickory) (CacheObject toy_hickory) request_discrete
entries_map = toy_map request_discrete

abbrev pub two : Cache toy_hickory entries_map
two = record { cache = []; max_size = 2 }

pub two-IsValid : IsValid entries_map two
two-IsValid = record { positive = omega arith; bounded = omega arith; distinct = tt }

abbrev key : Request toy_hickory
key = record { keys = record { query_name = codes "a."; query_type = 1; query_class = 1 } ∷ [] }

abbrev answer : ToyMessage
answer = toy_answer 5 60 9

put-IsValid_example :
    (c' : Cache toy_hickory entries_map) × (put toy_hickory entries_map 7 two key answer
      ≡ (c', ok tt))
    × IsValid entries_map c'
    × (c'.max_size ≡ 2)
put-IsValid_example = put-IsValid entries_map two 7 key answer two-IsValid

answer_cacheable : is_cacheable toy_hickory answer ≡ true
unfolding is_cacheable ℕ_discrete
answer_cacheable = refl

answer_ttl : min_ttl toy_hickory answer ≢ 0
unfolding min_ttl
answer_ttl e = omega arith

get-put_example :
    (get toy_hickory entries_map (7 + 100) (put toy_hickory entries_map 7 two key answer).0 key).1
    ≡ (if leb 100 (from_secs (min_ttl toy_hickory answer))
        then some (cache_object toy_hickory 7 answer)
        else none)
get-put_example = get-put entries_map two key answer 7 100 two-IsValid answer_cacheable answer_ttl

-- One entry that has expired at 50, and one that has not.
abbrev held : Cache toy_hickory entries_map
held = record {
  cache =
      (key, record { message = answer; create_at = 0; expire_at = 40 })
      ∷ (record { keys = [] }, record { message = answer; create_at = 0; expire_at = 60 })
      ∷ [];
  max_size = 2;
}

held_distinct : DistinctKeys request_discrete held.cache
held_distinct = ((apart, tt), (tt, tt))
  where
    apart : ◌≢◌ {A = Request toy_hickory} (record { keys = [] }) key
    apart e = let no : [] ≡ key.keys = ap (λ (r : Request toy_hickory). r.keys) e in cc

parts-response_message_example :
    toy_hickory.parts (response_message toy_hickory 10 (cache_object toy_hickory 7 answer) 3)
    ≡ record (with_ttl toy_hickory
        (as_secs (remained_ttl toy_hickory 10 (cache_object toy_hickory 7 answer)) % 2 ^ 32)
        (toy_hickory.parts (cache_object toy_hickory 7 answer).message)) { id = 3 }
parts-response_message_example =
    parts-response_message toy_hickory 10 (cache_object toy_hickory 7 answer) 3

fresh : 1000000000 ≤ from_secs (min_ttl toy_hickory answer)
unfolding min_ttl
fresh = omega arith

response_ttl-le_example :
    All
      (λ r.
        All
          (λ r'. toy_hickory.ttl r + as_secs 1000000000 ≤ toy_hickory.ttl r')
          (toy_hickory.parts answer).answers)
      (toy_hickory.parts (
        response_message toy_hickory
          (7 + 1000000000)
          (cache_object toy_hickory 7 answer)
          3)).answers
response_ttl-le_example = response_ttl-le toy_hickory answer 7 1000000000 3 fresh
