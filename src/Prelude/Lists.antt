-- ===== src/Prelude/Lists.antt =====
-- Lists measured and indexed by native numbers, Boolean filters, and predicates on elements.
use Prim.Native.Nat.{ℕ, zero, suc, ◌+◌, ◌<◌}
use mathlib.Core.Path.{◌≡◌, refl, ap, sym, subst, ◌∙◌}
use mathlib.Core.Logic.{◌⊎◌, inl, inr}
use mathlib.Core.Bool.{Bool, true, false, ◌&&◌, ◌||◌}
use mathlib.Core.List.{List, [], ◌∷◌, ◌++◌, map, Memᴰ}
use mathlib.Core.Option.{Option, none, some}
use native.Mathlib.Omega.{arith}
use doh_auth_proxy.Prelude.Tests.{if◌then◌else◌, Bool-cases}

module _ {ℓ} {A : Type ℓ} where
  abbrev pub length : List A → ℕ
  length [] = 0
  length (x ∷ xs) = suc (length xs)

  abbrev pub is_empty : List A → Bool
  is_empty [] = true
  is_empty (x ∷ xs) = false

  abbrev pub get_elem? : List A → ℕ → Option A
  get_elem? [] i = none
  get_elem? (x ∷ xs) zero = some x
  get_elem? (x ∷ xs) (suc i) = get_elem? xs i

  abbrev pub drop : ℕ → List A → List A
  drop zero xs = xs
  drop (suc n) [] = []
  drop (suc n) (x ∷ xs) = drop n xs

  -- The elements with a true test, as `Iterator::filter` keeps them.
  abbrev pub filter : (A → Bool) → List A → List A
  filter p [] = []
  filter p (x ∷ xs) = if p x then x ∷ filter p xs else filter p xs

  abbrev pub any : (A → Bool) → List A → Bool
  any p [] = false
  any p (x ∷ xs) = p x || any p xs

  abbrev pub all : (A → Bool) → List A → Bool
  all p [] = true
  all p (x ∷ xs) = p x && all p xs

  -- `Iterator::enumerate`, from a given index.
  abbrev pub enumerate_from : ℕ → List A → List (ℕ × A)
  enumerate_from i [] = []
  enumerate_from i (x ∷ xs) = (i, x) ∷ enumerate_from (suc i) xs

  pub length-append : (xs ys : List A) → length (xs ++ ys) ≡ length xs + length ys
  length-append [] ys = omega arith
  length-append (x ∷ xs) ys = omega (arith, length-append xs ys)

  pub get_elem?-lt :
      (xs : List A) (i : ℕ) → i < length xs → (x : A) × (get_elem? xs i ≡ some x) × Memᴰ x xs
  get_elem?-lt [] i h = elim h [ ]
  get_elem?-lt (x ∷ xs) zero h = (x, refl, Memᴰ.head refl)
  get_elem?-lt (x ∷ xs) (suc i) h =
      let (y, e, m) = get_elem?-lt xs i (omega arith) in (y, e, Memᴰ.tail m)

module _ {ℓ κ} {A : Type ℓ} (P : A → Type κ) where
  abbrev pub All : List A → Type κ
  All [] = Unit
  All (x ∷ xs) = P x × All xs

  pub All-append : (xs ys : List A) → All xs → All ys → All (xs ++ ys)
  All-append [] ys _ k = k
  All-append (x ∷ xs) ys (p, h) k = (p, All-append xs ys h k)

  pub All-of_append : (xs ys : List A) → All (xs ++ ys) → All xs × All ys
  All-of_append [] ys h = (tt, h)
  All-of_append (x ∷ xs) ys (p, h) = let (a, b) = All-of_append xs ys h in ((p, a), b)

  pub All-mem : {a : A} (xs : List A) → Memᴰ a xs → All xs → P a
  All-mem [] m _ = elim m [ ]
  All-mem (x ∷ xs) (Memᴰ.head e) (p, _) = subst P (sym e) p
  All-mem (x ∷ xs) (Memᴰ.tail m) (_, h) = All-mem xs m h

  pub All-of_mem : (xs : List A) → ((a : A) → Memᴰ a xs → P a) → All xs
  All-of_mem [] h = tt
  All-of_mem (x ∷ xs) h = (h x (Memᴰ.head refl), All-of_mem xs (λ a m. h a (Memᴰ.tail m)))

module _ {ℓ} {A : Type ℓ} (p : A → Bool) where
  pub mem-filter : {a : A} (xs : List A) → Memᴰ a xs → p a ≡ true → Memᴰ a (filter p xs)
  mem-filter [] m h = elim m [ ]
  mem-filter {a} (x ∷ xs) (Memᴰ.head e) h = rw (ap p (sym e) ∙ h) (Memᴰ.head e)
  mem-filter (x ∷ xs) (Memᴰ.tail m) h = elim (Bool-cases (p x)) [
    | inl t ↦ rw t (Memᴰ.tail (mem-filter xs m h))
    | inr f ↦ rw f (mem-filter xs m h)
  ]

  kept_mem :
      {a x : A} {xs ys : List A}
      → p x ≡ true
      → (Memᴰ a ys → Memᴰ a xs × (p a ≡ true))
      → Memᴰ a (x ∷ ys)
      → Memᴰ a (x ∷ xs) × (p a ≡ true)
  kept_mem t ih (Memᴰ.head e) = (Memᴰ.head e, ap p e ∙ t)
  kept_mem t ih (Memᴰ.tail m) = let (k, h) = ih m in (Memᴰ.tail k, h)

  pub mem_of_mem-filter : {a : A} (xs : List A) → Memᴰ a (filter p xs) → Memᴰ a xs × (p a ≡ true)
  mem_of_mem-filter [] m = elim m [ ]
  mem_of_mem-filter {a} (x ∷ xs) m = elim (Bool-cases (p x)) [
    | inl t ↦ kept_mem t (mem_of_mem-filter xs) (rw t at m)
    | inr f ↦ let (k, h) = mem_of_mem-filter xs (rw f at m) in (Memᴰ.tail k, h)
  ]

module _ {ℓ κ} {A : Type ℓ} {B : Type κ} (f : A → B) where
  pub mem-map : {a : A} (xs : List A) → Memᴰ a xs → Memᴰ (f a) (map f xs)
  mem-map [] m = elim m [ ]
  mem-map (x ∷ xs) (Memᴰ.head e) = Memᴰ.head (ap f e)
  mem-map (x ∷ xs) (Memᴰ.tail m) = Memᴰ.tail (mem-map xs m)

  pub mem_of_mem-map : {b : B} (xs : List A) → Memᴰ b (map f xs) → (a : A) × Memᴰ a xs × (b ≡ f a)
  mem_of_mem-map [] m = elim m [ ]
  mem_of_mem-map (x ∷ xs) (Memᴰ.head e) = (x, Memᴰ.head refl, e)
  mem_of_mem-map (x ∷ xs) (Memᴰ.tail m) = let (a, k, e) = mem_of_mem-map xs m in (a, Memᴰ.tail k, e)

module _ {ℓ κ ν} {A : Type ℓ} {B : Type κ} (P : B → Type ν) (f : A → B) where
  pub All-map : (xs : List A) → All (λ a. P (f a)) xs → All P (map f xs)
  All-map [] h = tt
  All-map (x ∷ xs) (p, h) = (p, All-map xs h)

module _ {ℓ} {A : Type ℓ} where
  abbrev pub take : ℕ → List A → List A
  take zero xs = []
  take (suc n) [] = []
  take (suc n) (x ∷ xs) = x ∷ take n xs

  -- The elements of the lists of a list, in order.
  abbrev pub concat : List (List A) → List A
  concat [] = []
  concat (xs ∷ xss) = xs ++ concat xss

  pub mem-singleton : {a x : A} → Memᴰ a (x ∷ []) → a ≡ x
  mem-singleton (Memᴰ.head e) = e
  mem-singleton (Memᴰ.tail m) = elim m [ ]

  pub mem-append_left : {a : A} (xs ys : List A) → Memᴰ a xs → Memᴰ a (xs ++ ys)
  mem-append_left [] ys m = elim m [ ]
  mem-append_left (x ∷ xs) ys (Memᴰ.head e) = Memᴰ.head e
  mem-append_left (x ∷ xs) ys (Memᴰ.tail m) = Memᴰ.tail (mem-append_left xs ys m)

  pub mem-append_right : {a : A} (xs ys : List A) → Memᴰ a ys → Memᴰ a (xs ++ ys)
  mem-append_right [] ys m = m
  mem-append_right (x ∷ xs) ys m = Memᴰ.tail (mem-append_right xs ys m)

  pub mem_of_mem-append : {a : A} (xs ys : List A) → Memᴰ a (xs ++ ys) → Memᴰ a xs ⊎ Memᴰ a ys
  mem_of_mem-append [] ys m = inr m
  mem_of_mem-append (x ∷ xs) ys (Memᴰ.head e) = inl (Memᴰ.head e)
  mem_of_mem-append (x ∷ xs) ys (Memᴰ.tail m) = elim (mem_of_mem-append xs ys m) [
    | inl k ↦ inl (Memᴰ.tail k)
    | inr k ↦ inr k
  ]

  pub mem-concat :
      {a : A} {xs : List A} (xss : List (List A)) → Memᴰ xs xss → Memᴰ a xs → Memᴰ a (concat xss)
  mem-concat [] m k = elim m [ ]
  mem-concat {a} (ys ∷ xss) (Memᴰ.head e) k = mem-append_left ys (concat xss) (subst (Memᴰ a) e k)
  mem-concat (ys ∷ xss) (Memᴰ.tail m) k = mem-append_right ys (concat xss) (mem-concat xss m k)

  pub mem_of_mem-concat :
      {a : A} (xss : List (List A)) → Memᴰ a (concat xss) → (xs : List A) × Memᴰ xs xss × Memᴰ a xs
  mem_of_mem-concat [] m = elim m [ ]
  mem_of_mem-concat (xs ∷ xss) m = elim (mem_of_mem-append xs (concat xss) m) [
    | inl k ↦ (xs, Memᴰ.head refl, k)
    | inr k ↦ let (ys, p, q) = mem_of_mem-concat xss k in (ys, Memᴰ.tail p, q)
  ]

module _ {ℓ κ} {A : Type ℓ} (P : A → Type κ) (p : A → Bool) where
  pub All-filter : ((a : A) → p a ≡ true → P a) → (xs : List A) → All P (filter p xs)
  All-filter h [] = tt
  All-filter h (x ∷ xs) = elim (Bool-cases (p x)) [
    | inl t ↦ rw t (h x t, All-filter h xs)
    | inr f ↦ rw f (All-filter h xs)
  ]

  pub All-filter_of_All : (xs : List A) → All P xs → All P (filter p xs)
  All-filter_of_All [] h = tt
  All-filter_of_All (x ∷ xs) (q, h) = elim (Bool-cases (p x)) [
    | inl t ↦ rw t (q, All-filter_of_All xs h)
    | inr f ↦ rw f (All-filter_of_All xs h)
  ]

module _ {ℓ κ ν} {A : Type ℓ} (P : A → Type κ) (Q : A → Type ν) where
  pub All-zip : (xs : List A) → All P xs → All Q xs → All (λ a. P a × Q a) xs
  All-zip [] h k = tt
  All-zip (x ∷ xs) (p, h) (q, k) = ((p, q), All-zip xs h k)
