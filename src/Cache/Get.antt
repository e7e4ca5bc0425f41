-- ===== src/Cache/Get.antt =====
-- What `Cache::get` returns, moves and drops.
use doh_auth_proxy.Prelude.{
  ℕ, ◌+◌, ◌≡◌, ◌≢◌, refl, sym, ap, subst, ◌∙◌, inl, inr, true, Option, none, some, [], ◌∷◌, ◌++◌,
  arith, if◌then◌else◌, leb, Bool-cases, Option-cases, length-append,
}
use doh_auth_proxy.Hickory.{Hickory}
use doh_auth_proxy.Dns.{Request}
use doh_auth_proxy.Cache.{
  Cache, CacheObject, cache_object, expired, is_cacheable, min_ttl, put, get, from_secs,
}
use doh_auth_proxy.Cache.Linked.{
  LinkedHashMap, lookup, remove, move_back, Absent-remove, DistinctKeys-remove, DistinctKeys-append,
  length-remove-le, length-remove-lt, lookup-append_ne, lookup-remove_ne, remove-Absent,
  remove-append_self,
}
use doh_auth_proxy.Cache.Put.{contents, IsValid, lookup-put, put-IsValid}

module _ {H : Hickory} {dec : Discrete (Request H)}
    (L : LinkedHashMap (Request H) (CacheObject H) dec) (now : ℕ) where
  -- The object of a lookup, if it has not expired.
  abbrev pub live : Option (CacheObject H) → Option (CacheObject H)
  live none = none
  live (some o) = if expired H now o then none else some o

  module _ (c : Cache H L) (key : Request H) where
    pub get-none : lookup dec key (contents L c) ≡ none → get H L now c key ≡ (c, none)
    unfolding get
    get-none h = rw (get, L.find_lem c.cache key, h)

    pub get-some :
        (o : CacheObject H)
        → lookup dec key (contents L c) ≡ some o
        → (c' : Cache H L) × (get H L now c key ≡ (c', live (some o)))
          × (c'.max_size ≡ c.max_size)
          × (contents L c' ≡ (
              if expired H now o
              then remove dec key (contents L c)
              else remove dec key (contents L c) ++ (key, o) ∷ []))
    unfolding get
    get-some o h =
        let moved = L.to_back c.cache key in
        let at_back : L.entries moved ≡ remove dec key (contents L c) ++ (key, o) ∷ [] =
          L.entries-to_back c.cache key ∙ rw (move_back, h) refl in
        elim (Bool-cases (expired H now o)) [
          | inl old ↦ (
            record c { cache = L.remove_entry moved key },
            rw (get, L.find_lem c.cache key, h, old),
            refl,
            rw old (
                L.entries-remove_entry moved key
                ∙ ap (remove dec key) at_back
                ∙ remove-append_self dec key o (remove dec key (contents L c))
                ∙ remove-Absent dec key _ (Absent-remove dec key (contents L c))),
          )
          | inr young ↦ (
            record c { cache = moved },
            rw (get, L.find_lem c.cache key, h, young),
            refl,
            rw young at_back,
          )
        ]

    -- `get` returns what is stored for the key if it has not expired, and nothing else; on a valid
    -- cache it leaves a valid cache, in which every other key finds what it found before.
    pub get_lem :
        IsValid L c
        → ((get H L now c key).1 ≡ live (lookup dec key (contents L c)))
          × IsValid L (get H L now c key).0
          × ((q : Request H)
              → key ≢ q
              → lookup dec q (contents L (get H L now c key).0) ≡ lookup dec q (contents L c))
    get_lem v = elim (Option-cases (lookup dec key (contents L c))) [
      | inl miss ↦ rw (get-none miss, miss) (refl, v, λ q n. refl)
      | inr (o, hit) ↦
          let (c', e, same, held) = get-some o hit in
          let rest = remove dec key (contents L c) in
          rw (e, hit)
            (
              refl,
              record {
                positive = rw same v.positive;
                bounded =
                    rw (held, same)
                      (elim (Bool-cases (expired H now o)) [
                        | inl old ↦ rw old (omega (arith, length-remove-le dec key (contents L c)))
                        | inr young ↦ rw young (
                            omega (
                              arith,
                              length-append rest ((key, o) ∷ []),
                              length-remove-lt dec key (contents L c) o hit,
                            ))
                      ]);
                distinct = rw held (elim (Bool-cases (expired H now o)) [
                  | inl old ↦ rw old (DistinctKeys-remove dec key _ v.distinct)
                  | inr young ↦ rw young (
                      DistinctKeys-append dec key o rest (DistinctKeys-remove dec key _ v.distinct)
                        (Absent-remove dec key (contents L c)))
                ]);
              },
              λ q n. rw held (elim (Bool-cases (expired H now o)) [
                | inl old ↦ rw old (lookup-remove_ne dec q key (contents L c) n)
                | inr young ↦ rw young (
                    lookup-append_ne dec q key o rest n
                    ∙ lookup-remove_ne dec q key (contents L c) n)
              ]),
            )
    ]

-- A cacheable response with a smallest TTL above zero, stored in a valid cache, is returned for its
-- key up to that TTL later, and not after that.
pub get-put :
    {H : Hickory} {dec : Discrete (Request H)} (L : LinkedHashMap (Request H) (CacheObject H) dec)
    (c : Cache H L) (key : Request H) (m : H.Message) (now after : ℕ)
    → IsValid L c
    → is_cacheable H m ≡ true
    → min_ttl H m ≢ 0
    → (get H L (now + after) (put H L now c key m).0 key).1
      ≡ (if leb after (from_secs (min_ttl H m)) then some (cache_object H now m) else none)
unfolding cache_object
get-put {H} {dec} L c key m now after v cacheable ttl =
    let (c', e, v', _) = put-IsValid L c now key m v in
    let (found, _, _) = lookup-put L c now key m v cacheable ttl in
    let valid = subst (IsValid L) (sym (ap (λ r. r.0) e)) v' in
    (get_lem L (now + after) (put H L now c key m).0 key valid).0
    ∙ ap (live L (now + after)) found
    ∙ ground arith
