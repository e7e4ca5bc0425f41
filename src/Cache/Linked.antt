-- ===== src/Cache/Linked.antt =====
-- What the cache takes from hashlink's `LinkedHashMap`, which is not part of the repository: a map
-- that keeps its entries in a list, the least recently used in front.
use doh_auth_proxy.Prelude.{
  ℕ, suc, ◌≡◌, ◌≢◌, refl, sym, Option, none, some, List, [], ◌∷◌, ◌++◌, arith, if◌then◌else◌,
  is_yes, length, All, ◌≤◌, All-append,
}

module _ {ℓ} {K V : Type ℓ} (dec : Discrete K) where
  abbrev pub lookup : K → List (K × V) → Option V
  lookup k [] = none
  lookup k ((j, v) ∷ l) = if is_yes (dec j k) then some v else lookup k l

  -- The list without the entries of a key.
  abbrev pub remove : K → List (K × V) → List (K × V)
  remove k [] = []
  remove k ((j, v) ∷ l) = if is_yes (dec j k) then remove k l else (j, v) ∷ remove k l

  -- The entry of a key moved to the back.
  abbrev pub move_back : K → List (K × V) → List (K × V)
  move_back k l = elim (lookup k l) [ none ↦ l | some v ↦ remove k l ++ (k, v) ∷ [] ]

abbrev pub uncons {ℓ} : {A : Type ℓ} → List A → Option (A × List A)
uncons [] = none
uncons (x ∷ xs) = some (x, xs)

pub record LinkedHashMap (K V : Type 0) (dec : Discrete K) : Type 1 where
  pub Map : Type 0
  pub entries : Map → List (K × V)
  pub new_map : Map
  pub len : Map → ℕ
  pub insert : Map → K → V → Map
  pub pop_front : Map → Option Map
  pub find : Map → K → Option V
  pub to_back : Map → K → Map
  pub remove_entry : Map → K → Map
  pub entries-new_map : entries new_map ≡ []
  pub len_lem : (m : Map) → len m ≡ length (entries m)
  pub entries-insert :
      (m : Map) (k : K) (v : V) → entries (insert m k v) ≡ remove dec k (entries m) ++ (k, v) ∷ []
  pub pop_front_nil : (m : Map) → entries m ≡ [] → pop_front m ≡ none
  pub pop_front_cons :
      (m : Map) (e : K × V) (l : List (K × V))
      → entries m ≡ e ∷ l
      → (m' : Map) × (pop_front m ≡ some m') × (entries m' ≡ l)
  pub find_lem : (m : Map) (k : K) → find m k ≡ lookup dec k (entries m)
  pub entries-to_back : (m : Map) (k : K) → entries (to_back m k) ≡ move_back dec k (entries m)
  pub entries-remove_entry :
      (m : Map) (k : K) → entries (remove_entry m k) ≡ remove dec k (entries m)

-- No key stands twice.
module _ {ℓ} {K V : Type ℓ} (dec : Discrete K) where
  abbrev pub Absent : K → List (K × V) → Type ℓ
  Absent k = All (λ e. e.0 ≢ k)

  abbrev pub DistinctKeys : List (K × V) → Type ℓ
  DistinctKeys [] = Unit
  DistinctKeys (e ∷ l) = Absent e.0 l × DistinctKeys l

  pub Absent-remove : (k : K) (l : List (K × V)) → Absent k (remove dec k l)
  Absent-remove k [] = tt
  Absent-remove k ((j, v) ∷ l) =
      elim (dec j k)
        as (λ d. Absent k (if is_yes d then remove dec k l else (j, v) ∷ remove dec k l)) [
          | yes e ↦ Absent-remove k l
          | no n ↦ (n, Absent-remove k l)
        ]

  pub Absent-remove_of : (k j : K) (l : List (K × V)) → Absent j l → Absent j (remove dec k l)
  Absent-remove_of k j [] h = tt
  Absent-remove_of k j ((i, v) ∷ l) (n, h) =
      elim (dec i k)
        as (λ d. Absent j (if is_yes d then remove dec k l else (i, v) ∷ remove dec k l)) [
          | yes e ↦ Absent-remove_of k j l h
          | no m ↦ (n, Absent-remove_of k j l h)
        ]

  pub DistinctKeys-remove :
      (k : K) (l : List (K × V)) → DistinctKeys l → DistinctKeys (remove dec k l)
  DistinctKeys-remove k [] h = tt
  DistinctKeys-remove k ((i, v) ∷ l) (a, h) =
      elim (dec i k)
        as (λ d. DistinctKeys (if is_yes d then remove dec k l else (i, v) ∷ remove dec k l)) [
          | yes e ↦ DistinctKeys-remove k l h
          | no m ↦ (Absent-remove_of k i l a, DistinctKeys-remove k l h)
        ]

  pub DistinctKeys-append :
      (k : K) (v : V) (l : List (K × V))
      → DistinctKeys l
      → Absent k l
      → DistinctKeys (l ++ (k, v) ∷ [])
  DistinctKeys-append k v [] h a = (tt, tt)
  DistinctKeys-append k v (e ∷ l) (b, h) (n, a) =
      (All-append _ l ((k, v) ∷ []) b ((λ q. n (sym q)), tt), DistinctKeys-append k v l h a)

  pub length-remove-le : (k : K) (l : List (K × V)) → length (remove dec k l) ≤ length l
  length-remove-le k [] = omega arith
  length-remove-le k ((j, v) ∷ l) = ground (arith, length-remove-le k l)

  pub length-remove-lt :
      (k : K) (l : List (K × V)) (v : V)
      → lookup dec k l ≡ some v
      → suc (length (remove dec k l)) ≤ length l
  length-remove-lt k [] v h = cc
  length-remove-lt k ((j, w) ∷ l) v h = ground (arith, length-remove-lt k l v, length-remove-le k l)

  pub remove-Absent : (k : K) (l : List (K × V)) → Absent k l → remove dec k l ≡ l
  remove-Absent k [] h = refl
  remove-Absent k ((j, v) ∷ l) (n, h) = ground (arith, remove-Absent k l h)

  pub remove-append_self :
      (k : K) (v : V) (l : List (K × V)) → remove dec k (l ++ (k, v) ∷ []) ≡ remove dec k l
  remove-append_self k v [] = ground arith
  remove-append_self k v ((j, w) ∷ l) = ground (arith, remove-append_self k v l)

  pub lookup-append_self :
      (k : K) (v : V) (l : List (K × V)) → Absent k l → lookup dec k (l ++ (k, v) ∷ []) ≡ some v
  lookup-append_self k v [] h = ground arith
  lookup-append_self k v ((j, w) ∷ l) (n, h) = ground (arith, lookup-append_self k v l h)

  pub lookup-append_ne :
      (q k : K) (v : V) (l : List (K × V))
      → k ≢ q
      → lookup dec q (l ++ (k, v) ∷ []) ≡ lookup dec q l
  lookup-append_ne q k v [] n = ground arith
  lookup-append_ne q k v ((j, w) ∷ l) n = ground (arith, lookup-append_ne q k v l n)

  pub lookup-remove_ne :
      (q k : K) (l : List (K × V)) → k ≢ q → lookup dec q (remove dec k l) ≡ lookup dec q l
  lookup-remove_ne q k [] n = refl
  lookup-remove_ne q k ((j, w) ∷ l) n = ground (arith, lookup-remove_ne q k l n)

  pub lookup-Absent : (k : K) (l : List (K × V)) → Absent k l → lookup dec k l ≡ none
  lookup-Absent k [] h = refl
  lookup-Absent k ((j, w) ∷ l) (n, h) = ground (arith, lookup-Absent k l h)
