-- ===== src/Cache/Put.antt =====
-- What `Cache::put` stores, evicts and keeps.
use doh_auth_proxy.Prelude.{
  ℕ, suc, ◌≤◌, ◌<◌, ◌≡◌, ◌≢◌, ◌⊎◌, ℕ_discrete, refl, sym, ap, subst, ◌∙◌, inl, inr, true, false,
  some, List, [], ◌∷◌, ◌++◌, arith, ok, err, other, if◌then◌else◌, leb, ◌==◌, Bool-cases, length,
  length-append,
}
use doh_auth_proxy.Hickory.{Hickory}
use doh_auth_proxy.Dns.{Request}
use doh_auth_proxy.Cache.{
  Cache, CacheObject, cache_object, is_cacheable, min_ttl, size, make_room, insert_after, put,
}
use doh_auth_proxy.Cache.Linked.{
  LinkedHashMap, lookup, remove, DistinctKeys, Absent-remove, DistinctKeys-remove,
  DistinctKeys-append, length-remove-le, lookup-append_self, lookup-append_ne, lookup-remove_ne,
}

-- The entries once there is room for one more.
abbrev pub evict {ℓ} : {A : Type ℓ} → ℕ → List A → List A
evict most [] = []
evict most (x ∷ xs) = if leb most (suc (length xs)) then xs else x ∷ xs

length-evict {ℓ} :
    {A : Type ℓ} (most : ℕ) (xs : List A)
    → 0 < most
    → length xs ≤ most
    → suc (length (evict most xs)) ≤ most
length-evict most [] p h = omega arith
length-evict most (x ∷ xs) p h = ground arith

evict_free {ℓ} : {A : Type ℓ} (most : ℕ) (xs : List A) → length xs < most → evict most xs ≡ xs
evict_free most [] h = refl
evict_free most (x ∷ xs) h = ground arith

DistinctKeys-evict {ℓ} :
    {K V : Type ℓ} (dec : Discrete K) (most : ℕ) (l : List (K × V))
    → DistinctKeys dec l
    → DistinctKeys dec (evict most l)
DistinctKeys-evict dec most [] h = tt
DistinctKeys-evict dec most (e ∷ l) (a, h) = elim (Bool-cases (leb most (suc (length l)))) [
  | inl t ↦ rw t h
  | inr f ↦ rw f (a, h)
]

module _ {H : Hickory} {dec : Discrete (Request H)}
    (L : LinkedHashMap (Request H) (CacheObject H) dec) where
  abbrev pub contents : Cache H L → List (Request H × CacheObject H)
  contents c = L.entries c.cache

  -- The cache can hold an entry, holds at most its size, and no key twice.
  pub record IsValid (c : Cache H L) : Type 0 where
    pub positive : 0 < c.max_size
    pub bounded : length (contents c) ≤ c.max_size
    pub distinct : DistinctKeys dec (contents c)

  module _ (c : Cache H L) where
    pub size_lem : size H L c ≡ length (contents c)
    unfolding size
    size_lem = L.len_lem c.cache

    make_room_lem :
        0 < c.max_size
        → (c' : Cache H L) × (make_room H L c ≡ ok c')
          × (contents c' ≡ evict c.max_size (contents c))
          × (c'.max_size ≡ c.max_size)
    unfolding make_room
    make_room_lem p = go (contents c) refl
      where
        go :
            (l : List (Request H × CacheObject H))
            → contents c ≡ l
            → (c' : Cache H L) × (make_room H L c ≡ ok c')
              × (contents c' ≡ evict c.max_size l)
              × (c'.max_size ≡ c.max_size)
        go [] e = (c, ground (arith, size_lem, e), e, refl)
        go (x ∷ xs) e = elim (Bool-cases (leb c.max_size (suc (length xs)))) [
          | inl full ↦
              let (m, popped, rest) = L.pop_front_cons c.cache x xs e in
              (record c { cache = m }, rw (size_lem, e, full, popped), rw full rest, refl)
          | inr free ↦ (c, rw (size_lem, e, free), rw free e, refl)
        ]

    module _ (now : ℕ) (key : Request H) (m : H.Message) where
      abbrev stored : List (Request H × CacheObject H) → List (Request H × CacheObject H)
      stored l = remove dec key l ++ (key, cache_object H now m) ∷ []

      -- A response that is not NOERROR or NXDOMAIN, or has no positive TTL, is not cached.
      pub put_skips :
          (is_cacheable H m ≡ false) ⊎ (min_ttl H m ≡ 0) → put H L now c key m ≡ (c, ok tt)
      unfolding put
      put_skips h = ground arith

      -- A cacheable response is stored at the back, behind what is left after an eviction, and the
      -- call succeeds.
      pub put_stores :
          0 < c.max_size
          → is_cacheable H m ≡ true
          → min_ttl H m ≢ 0
          → (c' : Cache H L) × (put H L now c key m ≡ (c', ok tt))
            × (contents c' ≡ stored (evict c.max_size (contents c)))
            × (c'.max_size ≡ c.max_size)
      unfolding put insert_after
      put_stores p cacheable ttl =
          let (c1, room, rest, same) = make_room_lem p in
          let some_ttl : (min_ttl H m == 0) ≡ false = ground arith in
          (
            record c1 { cache = L.insert c1.cache key (cache_object H now m) },
            rw (cacheable, some_ttl, room),
            L.entries-insert _ _ _ ∙ ap stored rest,
            same,
          )

      -- Where the cache has no room at all and is empty, storing fails and changes nothing.
      pub put_no_room :
          c.max_size ≡ 0
          → contents c ≡ []
          → is_cacheable H m ≡ true
          → min_ttl H m ≢ 0
          → put H L now c key m ≡ (c, err other)
      unfolding put insert_after make_room
      put_no_room z e cacheable ttl = ground (arith, size_lem, L.pop_front_nil c.cache e)

      pub put-cases :
          ((is_cacheable H m ≡ false) ⊎ (min_ttl H m ≡ 0))
          ⊎ ((is_cacheable H m ≡ true) × (min_ttl H m ≢ 0))
      put-cases = elim (Bool-cases (is_cacheable H m)) [
        | inr f ↦ inl (inl f)
        | inl t ↦ elim (ℕ_discrete (min_ttl H m) 0) [ yes z ↦ inl (inr z) | no n ↦ inr (t, n) ]
      ]

      -- On a valid cache `put` never fails, whatever the message, and leaves a valid cache of the
      -- same size.
      pub put-IsValid :
          IsValid c
          → (c' : Cache H L) × (put H L now c key m ≡ (c', ok tt))
            × IsValid c'
            × (c'.max_size ≡ c.max_size)
      put-IsValid v = elim put-cases [
        | inl skip ↦ (c, put_skips skip, v, refl)
        | inr (cacheable, ttl) ↦
            let (c', e, held, same) = put_stores v.positive cacheable ttl in
            let base = evict c.max_size (contents c) in
            (
              c',
              e,
              record {
                positive = rw same v.positive;
                bounded =
                    rw (held, same)
                      (omega (
                        arith,
                        length-append (remove dec key base) ((key, cache_object H now m) ∷ []),
                        length-remove-le dec key base,
                        length-evict c.max_size (contents c) v.positive v.bounded,
                      ));
                distinct = subst (DistinctKeys dec) (sym held) (
                    DistinctKeys-append dec key _ _
                      (DistinctKeys-remove dec key base
                        (DistinctKeys-evict dec c.max_size (contents c) v.distinct))
                      (Absent-remove dec key base));
              },
              same,
            )
      ]

      -- After a response was stored, its key finds it; every other key finds what it found among
      -- the entries that the eviction left, which are all entries if the cache was not full.
      pub lookup-put :
          IsValid c
          → is_cacheable H m ≡ true
          → min_ttl H m ≢ 0
          → (lookup dec key (contents (put H L now c key m).0) ≡ some (cache_object H now m))
            × ((q : Request H)
                → key ≢ q
                → lookup dec q (contents (put H L now c key m).0)
                  ≡ lookup dec q (evict c.max_size (contents c)))
            × (length (contents c) < c.max_size → evict c.max_size (contents c) ≡ contents c)
      lookup-put v cacheable ttl =
          let (c', e, held, _) = put_stores v.positive cacheable ttl in
          let base = evict c.max_size (contents c) in
          rw (e, held)
            (
              lookup-append_self dec key _ (remove dec key base) (Absent-remove dec key base),
              (λ q n.
                  lookup-append_ne dec q key _ (remove dec key base) n
                  ∙ lookup-remove_ne dec q key base n),
              evict_free c.max_size (contents c),
            )
