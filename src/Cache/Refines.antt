-- ===== src/Cache/Refines.antt =====
-- The cache as an implementation of a specification: a store that remembers the last cacheable
-- response under every key, and forgets nothing.
pub mod Found
use doh_auth_proxy.Prelude.{
  ℕ, ◌<◌, ◌≡◌, ◌≢◌, sym, ap, subst, ◌∙◌, ◌⊎◌, inl, inr, true, false, not, ◌||◌, Option, none, some,
  List, [], ◌∷◌, ◌++◌, arith, if◌then◌else◌, is_yes, ◌==◌, Option-cases,
}
use doh_auth_proxy.Hickory.{Hickory}
use doh_auth_proxy.Dns.{Request}
use doh_auth_proxy.Cache.{
  Cache, CacheObject, cache_object, expired, is_cacheable, min_ttl, new, put, get,
  purge_expired_entries,
}
use doh_auth_proxy.Cache.Linked.{LinkedHashMap, lookup, remove}
use doh_auth_proxy.Cache.Put.{contents, IsValid, put_skips, put-cases, put-IsValid, lookup-put}
use doh_auth_proxy.Cache.Get.{live, get_lem, get-none, get-some}
use doh_auth_proxy.Cache.Purge.{purge_lem}
use doh_auth_proxy.Cache.Refines.Found.{FoundIn, FoundIn-filter, FoundIn-evict, found_before}

module _ (H : Hickory) {dec : Discrete (Request H)}
    (L : LinkedHashMap (Request H) (CacheObject H) dec) where
  -- A call of the cache, at an instant.
  pub data Op : Type 0 where
    store : ℕ → Request H → H.Message → Op
    fetch : ℕ → Request H → Op
    sweep : ℕ → Op

  -- The calls one after another, and what the fetches among them return.
  unfoldable pub answers : Cache H L → List Op → List (Option (CacheObject H))
  answers c [] = []
  answers c (store now key m ∷ ops) = answers (put H L now c key m).0 ops
  answers c (fetch now key ∷ ops) = (get H L now c key).1 ∷ answers (get H L now c key).0 ops
  answers c (sweep now ∷ ops) = answers (purge_expired_entries H L now c).0 ops

  -- The specification: a function from keys, changed only by cacheable responses with a TTL.
  abbrev pub Store : Type 0
  Store = Request H → Option (CacheObject H)

  abbrev pub remember : ℕ → Request H → H.Message → Store → Store
  remember now key m s q =
      if not (is_cacheable H m) || (min_ttl H m == 0)
      then s q
      else if is_yes (dec key q)
      then some (cache_object H now m)
      else s q

  unfoldable pub store_answers : Store → List Op → List (Option (CacheObject H))
  store_answers s [] = []
  store_answers s (store now key m ∷ ops) = store_answers (remember now key m s) ops
  store_answers s (fetch now key ∷ ops) = live L now (s key) ∷ store_answers s ops
  store_answers s (sweep now ∷ ops) = store_answers s ops

  -- Every answer is a miss or the answer of the specification.
  abbrev pub MissOrSame : List (Option (CacheObject H)) → List (Option (CacheObject H)) → Type 0
  MissOrSame [] [] = Unit
  MissOrSame [] (b ∷ bs) = ⊥
  MissOrSame (a ∷ as') [] = ⊥
  MissOrSame (a ∷ as') (b ∷ bs) = ((a ≡ none) ⊎ (a ≡ b)) × MissOrSame as' bs

  abbrev Refines : Cache H L → Store → Type 0
  Refines c s =
      (q : Request H) (o : CacheObject H) → lookup dec q (contents L c) ≡ some o → s q ≡ some o

  put_skipped :
      (c : Cache H L) (s : Store) (now : ℕ) (key : Request H) (m : H.Message)
      → (is_cacheable H m ≡ false) ⊎ (min_ttl H m ≡ 0)
      → (q : Request H) (o : CacheObject H) → s q ≡ some o
      → remember now key m s q ≡ some o
  put_skipped c s now key m h q o e = ground arith

  put_stored :
      (c : Cache H L) (s : Store) (now : ℕ) (key : Request H) (m : H.Message)
      → is_cacheable H m ≡ true
      → min_ttl H m ≢ 0
      → (q : Request H) (o : CacheObject H)
      → ((key ≡ q) × (some (cache_object H now m) ≡ some o)) ⊎ ((key ≢ q) × (s q ≡ some o))
      → remember now key m s q ≡ some o
  put_stored c s now key m cacheable ttl q o h =
      let some_ttl : (min_ttl H m == 0) ≡ false = ground arith in
      rw (cacheable, some_ttl)
        ((elim (dec key q)
          as (λ d. (if is_yes d then some (cache_object H now m) else s q) ≡ some o) [
            | yes same ↦ elim h [ inl (_, e) ↦ e | inr (n, _) ↦ absurd (n same) ]
            | no n ↦ elim h [ inl (same, _) ↦ absurd (n same) | inr (_, e) ↦ e ]
          ]))

  FoundIn-get :
      (c : Cache H L) (now : ℕ) (key : Request H)
      → FoundIn dec (contents L (get H L now c key).0) (contents L c)
  FoundIn-get c now key q o e = elim (Option-cases (lookup dec key (contents L c))) [
    | inl miss ↦ rw (get-none L now c key miss) at e
    | inr (v, hit) ↦
        let (c', same, _, held) = get-some L now c key v hit in
        let rest = remove dec key (contents L c) in
        let e' : lookup dec q (if expired H now v then rest else rest ++ (key, v) ∷ []) ≡ some o =
          subst (λ l. lookup dec q l ≡ some o) held (rw same at e) in
        found_before dec (expired H now v) (contents L c) key v hit q o e'
  ]

  Refines-put :
      (c : Cache H L) (s : Store) (now : ℕ) (key : Request H) (m : H.Message)
      → IsValid L c
      → Refines c s
      → IsValid L (put H L now c key m).0 × Refines (put H L now c key m).0 (remember now key m s)
  Refines-put c s now key m v r = elim (put-cases L c now key m) [
    | inl skip ↦
        let same = put_skips L c now key m skip in
        (
          subst (IsValid L) (sym (ap (λ r. r.0) same)) v,
          λ q o e. put_skipped c s now key m skip q o (
              r q o (
                subst (λ (c : Cache H L). lookup dec q (contents L c) ≡ some o) (ap (λ r. r.0) same)
                  e)),
        )
    | inr (cacheable, ttl) ↦
        let (c', e, v', _) = put-IsValid L c now key m v in
        let (found, others, _) = lookup-put L c now key m v cacheable ttl in
        (
          subst (IsValid L) (sym (ap (λ r. r.0) e)) v',
          λ q o e. put_stored c s now key m cacheable ttl q o (elim (dec key q) [
            | yes same ↦ inl (
              same,
              sym found
                  ∙ subst (λ q. lookup dec q (contents L (put H L now c key m).0) ≡ some o)
                      (sym same) e,
            )
            | no n ↦ inr (
              n,
              r q o (
                  FoundIn-evict dec c.max_size (contents L c) v.distinct q o
                    (sym (others q n) ∙ e)),
            )
          ]),
        )
  ]

  Refines-get :
      (c : Cache H L) (s : Store) (now : ℕ) (key : Request H)
      → IsValid L c
      → Refines c s
      → IsValid L (get H L now c key).0
        × Refines (get H L now c key).0 s
        × (((get H L now c key).1 ≡ none) ⊎ ((get H L now c key).1 ≡ live L now (s key)))
  Refines-get c s now key v r =
      let (answer, v', others) = get_lem L now c key v in
      (
        v',
        (λ q o e. r q o (FoundIn-get c now key q o e)),
        elim (Option-cases (lookup dec key (contents L c))) [
          | inl miss ↦ inl (answer ∙ ap (live L now) miss)
          | inr (o, hit) ↦ inr (answer ∙ ap (live L now) (hit ∙ sym (r key o hit)))
        ],
      )

  Refines-purge :
      (c : Cache H L) (s : Store) (now : ℕ)
      → IsValid L c
      → Refines c s
      → IsValid L (purge_expired_entries H L now c).0
        × Refines (purge_expired_entries H L now c).0 s
  Refines-purge c s now v r =
      let (kept, _, v') = purge_lem L now c v in
      (
        v',
        λ q o e. r q o (
            FoundIn-filter dec (λ e. not (expired H now e.1)) (contents L c) v.distinct q o
              (rw kept at e)),
      )

  answers-Refines :
      (ops : List Op) (c : Cache H L) (s : Store)
      → IsValid L c
      → Refines c s
      → MissOrSame (answers c ops) (store_answers s ops)
  unfolding answers store_answers
  answers-Refines [] c s v r = tt
  answers-Refines (store now key m ∷ ops) c s v r =
      let (v', r') = Refines-put c s now key m v r in answers-Refines ops _ _ v' r'
  answers-Refines (fetch now key ∷ ops) c s v r =
      let (v', r', a) = Refines-get c s now key v r in (a, answers-Refines ops _ _ v' r')
  answers-Refines (sweep now ∷ ops) c s v r =
      let (v', r') = Refines-purge c s now v r in answers-Refines ops _ _ v' r'

  -- Whatever calls a cache of positive size gets from its creation on, and at whatever instants,
  -- every fetch misses or returns what the specification returns: the last cacheable response that
  -- was stored under this key, as long as its smallest TTL has not passed.
  pub answers-new :
      (max_size : ℕ) (ops : List Op)
      → 0 < max_size
      → MissOrSame (answers (new H L max_size) ops) (store_answers (λ key. none) ops)
  unfolding new
  answers-new max_size ops p =
      answers-Refines ops (new H L max_size) (λ key. none)
        (record {
          positive = p;
          bounded = rw L.entries-new_map (omega arith);
          distinct = rw L.entries-new_map tt;
        })
        (λ q o e. rw L.entries-new_map at e)
