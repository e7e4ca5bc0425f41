-- ===== src/Cache/Refines/Found.antt =====
-- Entries that a list of the cache still has after an operation on it.
use doh_auth_proxy.Prelude.{
  ℕ, suc, ◌≡◌, ◌≢◌, sym, subst, ◌∙◌, inl, inr, Bool, true, false, none, some, List, [], ◌∷◌, ◌++◌,
  if◌then◌else◌, is_yes, leb, length, filter, Bool-cases,
}
use doh_auth_proxy.Cache.Linked.{
  lookup, remove, DistinctKeys, Absent, Absent-remove, lookup-append_self, lookup-append_ne,
  lookup-remove_ne, lookup-Absent, Absent-remove,
}
use doh_auth_proxy.Cache.Put.{evict}

module _ {ℓ} {K V : Type ℓ} (dec : Discrete K) where
  -- What is found in the first list is found in the second.
  abbrev pub FoundIn : List (K × V) → List (K × V) → Type ℓ
  FoundIn l' l = (q : K) (v : V) → lookup dec q l' ≡ some v → lookup dec q l ≡ some v

  -- Behind an entry with another key.
  lookup_behind :
      (x : K × V) (l : List (K × V)) (q : K) (v : V)
      → Absent dec x.0 l
      → lookup dec q l ≡ some v
      → lookup dec q (x ∷ l) ≡ some v
  lookup_behind x l q v a e =
      elim (dec x.0 q) as (λ d. (if is_yes d then some x.1 else lookup dec q l) ≡ some v) [
        | no n ↦ e
        | yes same ↦
            let gone : lookup dec q l ≡ none =
              lookup-Absent dec q l (subst (λ k. Absent dec k l) same a) in
            cc
      ]

  head_or_behind :
      (x : K × V) (l l' : List (K × V)) (q : K) (v : V)
      → (lookup dec q l' ≡ some v → lookup dec q l ≡ some v)
      → lookup dec q (x ∷ l') ≡ some v
      → lookup dec q (x ∷ l) ≡ some v
  head_or_behind x l l' q v behind e =
      (elim (dec x.0 q)
          as (λ d.
            (if is_yes d then some x.1 else lookup dec q l') ≡ some v
            → (if is_yes d then some x.1 else lookup dec q l) ≡ some v) [
              | yes same ↦ (λ h. h)
              | no other ↦ behind
            ])
        e

  pub FoundIn-filter :
      (p : K × V → Bool) (l : List (K × V)) → DistinctKeys dec l → FoundIn (filter p l) l
  FoundIn-filter p [] d q v e = e
  FoundIn-filter p (x ∷ l) (a, d) q v e = elim (Bool-cases (p x)) [
    | inr drop ↦ lookup_behind x l q v a (FoundIn-filter p l d q v (rw drop at e))
    | inl keep ↦
        let e' : (if is_yes (dec x.0 q) then some x.1 else lookup dec q (filter p l)) ≡ some v =
          rw keep at e in
        head_or_behind x l (filter p l) q v (FoundIn-filter p l d q v) e'
  ]

  -- After an entry was dropped, or moved to the back.
  pub found_before :
      (drop : Bool) (l : List (K × V)) (k : K) (w : V)
      → lookup dec k l ≡ some w
      → (q : K) (v : V)
      → lookup dec q (if drop then remove dec k l else remove dec k l ++ (k, w) ∷ []) ≡ some v
      → lookup dec q l ≡ some v
  found_before drop l k w hit q v e = elim (dec k q) [
    | no n ↦ before_other drop l k w q n ∙ e
    | yes same ↦
        let e' =
          subst
            (λ q.
              lookup dec q (if drop then remove dec k l else remove dec k l ++ (k, w) ∷ [])
              ≡ some v)
            (sym same) e in
        subst (λ q. lookup dec q l ≡ some v) same (hit ∙ before_same drop l k w v e')
  ]
    where
      before_other :
          (drop : Bool) (l : List (K × V)) (k : K) (w : V) (q : K)
          → k ≢ q
          → lookup dec q l
            ≡ lookup dec q (if drop then remove dec k l else remove dec k l ++ (k, w) ∷ [])
      before_other true l k w q n = sym (lookup-remove_ne dec q k l n)
      before_other false l k w q n =
          sym (lookup-append_ne dec q k w (remove dec k l) n ∙ lookup-remove_ne dec q k l n)

      before_same :
          (drop : Bool) (l : List (K × V)) (k : K) (w v : V)
          → lookup dec k (if drop then remove dec k l else remove dec k l ++ (k, w) ∷ []) ≡ some v
          → some w ≡ some v
      before_same true l k w v e =
          let gone = lookup-Absent dec k (remove dec k l) (Absent-remove dec k l) in
          let clash : none ≡ some v = sym gone ∙ e in cc
      before_same false l k w v e =
          sym (lookup-append_self dec k w (remove dec k l) (Absent-remove dec k l)) ∙ e

  pub FoundIn-evict : (most : ℕ) (l : List (K × V)) → DistinctKeys dec l → FoundIn (evict most l) l
  FoundIn-evict most [] d q v e = e
  FoundIn-evict most (x ∷ l) (a, d) q v e = elim (Bool-cases (leb most (suc (length l)))) [
    | inl full ↦ lookup_behind x l q v a (rw full at e)
    | inr room ↦ rw room at e
  ]
