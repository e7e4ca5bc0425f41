-- ===== src/Cache/Purge.antt =====
-- What `Cache::purge_expired_entries` keeps and counts.
use doh_auth_proxy.Prelude.{
  ℕ, ◌+◌, ◌≤◌, ◌≡◌, refl, sym, ap, subst, ◌∙◌, inl, inr, Bool, not, List, [], ◌∷◌, arith,
  if◌then◌else◌, is_yes, Bool-cases, length, filter, All-filter_of_All,
}
use doh_auth_proxy.Hickory.{Hickory}
use doh_auth_proxy.Dns.{Request}
use doh_auth_proxy.Cache.{Cache, CacheObject, expired, purge_loop, purge_expired_entries}
use doh_auth_proxy.Cache.Linked.{LinkedHashMap, remove, DistinctKeys, Absent, remove-Absent}
use doh_auth_proxy.Cache.Put.{contents, IsValid}

module _ {ℓ} {K V : Type ℓ} (dec : Discrete K) where
  -- The list without the keys of other entries, one after another.
  abbrev remove_all : List (K × V) → List (K × V) → List (K × V)
  remove_all [] l = l
  remove_all (e ∷ es) l = remove_all es (remove dec e.0 l)

  remove_all_keep :
      (x : K × V) (es l : List (K × V))
      → Absent dec x.0 es
      → remove_all es (x ∷ l) ≡ x ∷ remove_all es l
  remove_all_keep x [] l h = refl
  remove_all_keep x (e ∷ es) l (n, h) =
      elim (dec x.0 e.0)
        as (λ d.
          remove_all es (if is_yes d then remove dec e.0 l else x ∷ remove dec e.0 l)
          ≡ x ∷ remove_all es (remove dec e.0 l)) [
            | yes same ↦ absurd (n (sym same))
            | no other ↦ remove_all_keep x es (remove dec e.0 l) h
          ]

  remove_self : (x : K × V) (l : List (K × V)) → Absent dec x.0 l → remove dec x.0 (x ∷ l) ≡ l
  remove_self x l h =
      elim (dec x.0 x.0)
        as (λ d. (if is_yes d then remove dec x.0 l else x ∷ remove dec x.0 l) ≡ l) [
          | yes same ↦ remove-Absent dec x.0 l h
          | no n ↦ absurd (n refl)
        ]

  -- With distinct keys, removing the keys of the entries with a property drops exactly those.
  remove_all-filter :
      (p : K × V → Bool) (l : List (K × V))
      → DistinctKeys dec l
      → remove_all (filter p l) l ≡ filter (λ e. not (p e)) l
  remove_all-filter p [] d = refl
  remove_all-filter p (x ∷ l) (a, d) = elim (Bool-cases (p x)) [
    | inl t ↦ rw t (ap (remove_all (filter p l)) (remove_self x l a) ∙ remove_all-filter p l d)
    | inr f ↦
        rw (f, remove_all_keep x (filter p l) l (All-filter_of_All _ p l a))
          (ap (◌∷◌ x) (remove_all-filter p l d))
  ]

  DistinctKeys-filter :
      (p : K × V → Bool) (l : List (K × V)) → DistinctKeys dec l → DistinctKeys dec (filter p l)
  DistinctKeys-filter p [] d = tt
  DistinctKeys-filter p (x ∷ l) (a, d) = elim (Bool-cases (p x)) [
    | inl t ↦ rw t (All-filter_of_All _ p l a, DistinctKeys-filter p l d)
    | inr f ↦ rw f (DistinctKeys-filter p l d)
  ]

length-filter-le {ℓ} : {A : Type ℓ} (p : A → Bool) (l : List A) → length (filter p l) ≤ length l
length-filter-le p [] = omega arith
length-filter-le p (x ∷ l) = ground (arith, length-filter-le p l)

module _ {H : Hickory} {dec : Discrete (Request H)}
    (L : LinkedHashMap (Request H) (CacheObject H) dec) (now : ℕ) where
  module _ (c : Cache H L) where
    purge_loop_lem :
        (n : ℕ) (es : List (Request H × CacheObject H)) (c0 : Cache H L)
        → ((purge_loop H L c0 n es).1 ≡ n + length es)
          × (contents L (purge_loop H L c0 n es).0 ≡ remove_all dec es (contents L c0))
          × ((purge_loop H L c0 n es).0.max_size ≡ c0.max_size)
    unfolding purge_loop
    purge_loop_lem n [] c0 = (omega arith, refl, refl)
    purge_loop_lem n (e ∷ es) c0 =
        let (count, held, same) =
          purge_loop_lem (n + 1) es (record c0 { cache = L.remove_entry c0.cache e.0 }) in
        (omega arith, held ∙ ap (remove_all dec es) (L.entries-remove_entry c0.cache e.0), same)

    -- On a valid cache a purge leaves exactly the entries that have not expired, in their order,
    -- counts the others, and leaves the cache valid.
    pub purge_lem :
        IsValid L c
        → (contents L (purge_expired_entries H L now c).0
            ≡ filter (λ e. not (expired H now e.1)) (contents L c))
          × ((purge_expired_entries H L now c).1
              ≡ length (filter (λ e. expired H now e.1) (contents L c)))
          × IsValid L (purge_expired_entries H L now c).0
    unfolding purge_expired_entries
    purge_lem v =
        let (count, held, same) =
          purge_loop_lem 0 (filter (λ e. expired H now e.1) (contents L c)) c in
        let kept =
          held ∙ remove_all-filter dec (λ e. expired H now e.1) (contents L c) v.distinct in
        (
          kept,
          omega arith,
          record {
            positive = rw same v.positive;
            bounded =
                rw (kept, same)
                  (omega (
                    arith,
                    length-filter-le (λ (e : Request H × CacheObject H). not (expired H now e.1))
                        (contents L c),
                  ));
            distinct =
                subst (DistinctKeys dec) (sym kept)
                  (DistinctKeys-filter dec _ (contents L c) v.distinct);
          },
        )
