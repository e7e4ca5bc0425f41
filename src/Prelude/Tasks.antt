-- ===== src/Prelude/Tasks.antt =====
-- Concurrent tasks as the list of their program points, of which a step changes one.
use Prim.Native.Nat.{ℕ, ◌+◌}
use mathlib.Core.Path.{◌≡◌}
use mathlib.Core.List.{List, [], ◌∷◌}
use native.Mathlib.Omega.{arith}

module _ {A : Type 0} where
  -- One `x` of the list becomes `y`.
  pub data Change (x y : A) : List A → List A → Type 0 where
    first : {l : List A} → Change x y (x ∷ l) (y ∷ l)
    later : {z : A} {l l' : List A} → Change x y l l' → Change x y (z ∷ l) (z ∷ l')

  abbrev pub weight : (A → ℕ) → List A → ℕ
  weight w [] = 0
  weight w (x ∷ l) = w x + weight w l

  pub weight-Change :
      (w : A → ℕ) {x y : A} {l l' : List A} → Change x y l l' → weight w l' + w x ≡ weight w l + w y
  weight-Change w first = omega arith
  weight-Change w (later c) = omega (arith, weight-Change w c)
