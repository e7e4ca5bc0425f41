-- ===== src/Cache/Threads/Bounds.antt =====
-- How many entries the cache has when calls are interleaved (dap-lib/src/doh_client/cache.rs).
use doh_auth_proxy.Prelude.{
  ℕ, suc, ◌+◌, ◌≤◌, ◌<◌, ◌≡◌, ◌≢◌, refl, sym, ap, subst, ◌∙◌, inl, inr, false, Option, none, some,
  List, [], ◌∷◌, ◌++◌, arith, leb, length, length-append, Bool-cases, Option-cases, Change, first,
  later, weight, weight-Change, All-append,
}
use doh_auth_proxy.Hickory.{Hickory}
use doh_auth_proxy.Dns.{Request}
use doh_auth_proxy.Cache.{Cache, CacheObject, size, get, expired}
use doh_auth_proxy.Cache.Linked.{
  LinkedHashMap, lookup, remove, move_back, Absent, length-remove-le, length-remove-lt,
  remove-Absent,
}
use doh_auth_proxy.Cache.Put.{contents, size_lem}
use doh_auth_proxy.Cache.Threads.{
  Phase, checking, evicting, storing, done, Shared, live, about_to_store, tested, Step, enter, test,
  evict, fail, store, read, purge, Run, stay, more,
}

some_inj : {A : Type 0} {a b : A} → some a ≡ some b → a ≡ b
some_inj {a = a} e = ap (λ o. elim o [ none ↦ a | some x ↦ x ]) e

module _ {H : Hickory} {dec : Discrete (Request H)}
    (L : LinkedHashMap (Request H) (CacheObject H) dec) where
  -- Entries there are, with those that are sure to come, and the bound.
  abbrev InBounds : ℕ → ℕ → Shared L → Type 0
  InBounds most max s =
      (weight (live L) s.tasks ≤ most)
      × (s.cache.max_size ≡ max)
      × (length (contents L s.cache) + weight (about_to_store L) s.tasks < max + most)

  popped :
      (m m' : L.Map) → L.pop_front m ≡ some m' → suc (length (L.entries m')) ≡ length (L.entries m)
  popped m m' e = go (L.entries m) refl
    where
      go :
          (l : List (Request H × CacheObject H))
          → L.entries m ≡ l
          → suc (length (L.entries m')) ≡ length l
      go [] h = let no : none ≡ some m' = sym (L.pop_front_nil m h) ∙ e in cc
      go (x ∷ l) h =
          let (k, f, held) = L.pop_front_cons m x l h in
          let same : k ≡ m' = some_inj (sym f ∙ e) in
          ap suc (ap length (ap L.entries (sym same) ∙ held))

  length-move_back :
      (key : Request H) (l : List (Request H × CacheObject H))
      → length (move_back dec key l) ≤ length l
  length-move_back key l = elim (Option-cases (lookup dec key l)) [
    | inl miss ↦ subst Fits (sym miss) (omega arith)
    | inr (v, hit) ↦ subst Fits (sym hit) (
        omega (
          arith,
          length-append (remove dec key l) ((key, v) ∷ []),
          length-remove-lt dec key l v hit,
        ))
  ]
    where
      Fits : Option (CacheObject H) → Type 0
      Fits o = length (elim o [ none ↦ l | some v ↦ remove dec key l ++ (key, v) ∷ [] ]) ≤ length l

  length-get-le :
      (now : ℕ) (c : Cache H L) (key : Request H)
      → (length (contents L (get H L now c key).0) ≤ length (contents L c))
        × ((get H L now c key).0.max_size ≡ c.max_size)
  unfolding get
  length-get-le now c key = elim (Option-cases (L.find c.cache key)) [
    | inl miss ↦ rw (get, miss) (omega arith, refl)
    | inr (o, hit) ↦
        let moved = length-move_back key (L.entries c.cache) in
        let back = L.entries-to_back c.cache key in
        elim (Bool-cases (expired H now o)) [
          | inl old ↦
              rw (get, hit, old, L.entries-remove_entry, back)
                (
                  omega (
                    arith,
                    moved,
                    length-remove-le dec key (move_back dec key (L.entries c.cache)),
                  ),
                  refl,
                )
          | inr young ↦ rw (get, hit, young, back) (moved, refl)
        ]
  ]

  about_to_store-le : (l : List (Phase L)) → weight (about_to_store L) l ≤ weight (live L) l
  about_to_store-le [] = omega arith
  about_to_store-le (done ∷ l) = omega (arith, about_to_store-le l)
  about_to_store-le (checking key o ∷ l) = omega (arith, about_to_store-le l)
  about_to_store-le (evicting key o ∷ l) = omega (arith, about_to_store-le l)
  about_to_store-le (storing key o ∷ l) = omega (arith, about_to_store-le l)

  test-InBounds :
      {most : ℕ} {l l' : List (Phase L)} (c : Cache H L) (max : ℕ) (key : Request H)
      (o : CacheObject H)
      → Change (checking key o) (tested L c key o) l l'
      → InBounds most max (record { cache = c; tasks = l })
      → InBounds most max (record { cache = c; tasks = l' })
  test-InBounds {l = l} {l' = l'} c max key o ch (a, b, d) =
      elim (Bool-cases (leb c.max_size (size H L c))) [
        | inl full ↦
            let ch' : Change (checking key o) (evicting key o) l l' = rw full at ch in
            (
              omega (arith, weight-Change (live L) ch'),
              b,
              omega (arith, weight-Change (about_to_store L) ch'),
            )
        | inr room ↦
            let ch' : Change (checking key o) (storing key o) l l' = rw room at ch in
            let n : size H L c ≡ length (contents L c) = size_lem L c in
            let fits : size H L c < c.max_size = ground arith in
            (
              omega (arith, weight-Change (live L) ch'),
              b,
              omega (arith, weight-Change (live L) ch', about_to_store-le l'),
            )
      ]

  Step-InBounds :
      {most : ℕ} {s t : Shared L} (max : ℕ)
      → 0 < max
      → Step L most s t
      → InBounds most max s
      → InBounds most max t
  Step-InBounds max p (enter key o room) (a, b, d) = (omega arith, b, omega arith)
  Step-InBounds max p (test {c} key o ch) s = test-InBounds c max key o ch s
  Step-InBounds max p (evict {c} key o m e ch) (a, b, d) = (
    omega (arith, weight-Change (live L) ch),
    b,
    omega (arith, weight-Change (about_to_store L) ch, popped c.cache m e),
  )
  Step-InBounds max p (fail key o e ch) (a, b, d) = (
    omega (arith, weight-Change (live L) ch),
    b,
    omega (arith, weight-Change (about_to_store L) ch),
  )
  Step-InBounds max p (store {c} key o ch) (a, b, d) = (
    omega (arith, weight-Change (live L) ch),
    b,
    omega (
      arith,
      weight-Change (about_to_store L) ch,
      ap length (L.entries-insert c.cache key o),
      length-append (remove dec key (contents L c)) ((key, o) ∷ []),
      length-remove-le dec key (contents L c),
    ),
  )
  Step-InBounds max p (read {c} now key) (a, b, d) =
      let (le, same) = length-get-le now c key in (a, same ∙ b, omega arith)
  Step-InBounds max p (purge {c} key) (a, b, d) = (
    a,
    b,
    omega (
      arith,
      ap length (L.entries-remove_entry c.cache key),
      length-remove-le dec key (contents L c),
    ),
  )

  -- With at most `most` calls of `put` at a time, the cache never holds its size and `most` entries
  -- more, however their steps, those of `get` and those of a purge are interleaved.
  pub Run-bounded :
      {most : ℕ} {s t : Shared L}
      → Run L most s t
      → 0 < s.cache.max_size
      → 0 < most
      → s.tasks ≡ []
      → length (contents L s.cache) ≤ s.cache.max_size
      → length (contents L t.cache) < s.cache.max_size + most
  Run-bounded {most} {s} r p m none_yet b = let (_, _, d) = go r in omega arith
    where
      begins : InBounds most s.cache.max_size s
      begins = rw none_yet (omega arith, refl, omega arith)

      go : {t : Shared L} → Run L most s t → InBounds most s.cache.max_size t
      go stay = begins
      go (more r st) = Step-InBounds s.cache.max_size p st (go r)

  -- The bound is reached: where one place is left, two calls of `put` with new keys that both test
  -- the size before either inserts leave the cache with one entry more than its size.
  pub two_puts_exceed :
      (c : Cache H L) (j k : Request H) (o p : CacheObject H)
      → suc (length (contents L c)) ≡ c.max_size
      → Absent dec j (contents L c)
      → Absent dec k (contents L c)
      → j ≢ k
      → (t : Shared L) × Run L 2 (record { cache = c; tasks = [] }) t
        × (t.tasks ≡ done ∷ done ∷ [])
        × (length (contents L t.cache) ≡ suc c.max_size)
  two_puts_exceed c j k o p e aj ak n =
      let m1 = L.insert c.cache j o in
      let c1 : Cache H L = record c { cache = m1 } in
      let c2 : Cache H L = record c { cache = L.insert m1 k p } in
      let s = size_lem L c in
      let room : leb c.max_size (size H L c) ≡ false = ground arith in
      let to_store : (key : Request H) (x : CacheObject H) → tested L c key x ≡ storing key x =
        (λ key x. rw room refl) in
      let change : (key : Request H) (x : CacheObject H) (l l' : List (Phase L))
          → Change (checking key x) (storing key x) l l'
          → Change (checking key x) (tested L c key x) l l' =
        (λ key x l l' ch.
          subst (λ ph. Change (checking key x) ph l l') (sym (to_store key x)) ch) in
      let r1 = more stay (enter j o (omega arith)) in
      let r2 = more r1 (enter k p (omega arith)) in
      let r3 = more r2 (
        test k p (
          change k p (checking k p ∷ checking j o ∷ []) (storing k p ∷ checking j o ∷ []) first)) in
      let r4 = more r3 (
        test j o (
          change j o (storing k p ∷ checking j o ∷ []) (storing k p ∷ storing j o ∷ [])
            (later first))) in
      let r5 = more r4 (store {l' = storing k p ∷ done ∷ []} j o (later first)) in
      let r6 = more r5 (store {l' = done ∷ done ∷ []} k p first) in
      let h1 =
        L.entries-insert c.cache j o ∙ ap (λ l. l ++ (j, o) ∷ []) (remove-Absent dec j _ aj) in
      let h2 =
        L.entries-insert m1 k p
        ∙ ap (λ l. l ++ (k, p) ∷ [])
            (remove-Absent dec k _ (
              subst (Absent dec k) (sym h1)
                (All-append _ (contents L c) ((j, o) ∷ []) ak (n, tt)))) in
      (
        record { cache = c2; tasks = done ∷ done ∷ [] },
        r6,
        refl,
        omega (
          arith,
          ap length h1,
          ap length h2,
          length-append (contents L c) ((j, o) ∷ []),
          length-append (L.entries m1) ((k, p) ∷ []),
        ),
      )
