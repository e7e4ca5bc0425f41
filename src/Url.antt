-- ===== src/Url.antt =====
-- What the program takes from the crates url and itertools, which are not part of the repository.
use doh_auth_proxy.Prelude.{ℕ, suc, ◌↔◌, Bool, Option, List, [], ◌∷◌, Memᴰ}
use doh_auth_proxy.Text.{Text}

-- `url::Url`: parsing, the parts that are read and the parts that are set. `set_scheme` may refuse.
pub record UrlLib : Type 1 where
  pub Url : Type 0
  pub parse : Text → Option Url
  pub as_str : Url → Text
  pub authority : Url → Text
  pub path : Url → Text
  pub scheme : Url → Text
  pub host_domain : Url → Option Text
  pub port : Url → Option ℕ
  pub cannot_be_a_base : Url → Bool
  pub set_scheme : Url → Text → Option Url
  pub set_path : Url → Text → Url
  pub append_pair : Url → Text → Text → Url

module _ {ℓ} {A : Type ℓ} where
  -- Taking one element out of a list, with what is left.
  pub data Pick : A → List A → List A → Type ℓ where
    here : {x : A} {xs : List A} → Pick x (x ∷ xs) xs
    later : {x y : A} {xs rest : List A} → Pick x xs rest → Pick x (y ∷ xs) (y ∷ rest)

  -- `p` takes `k` elements from different places of `xs`, in any order.
  pub data Arrangement : ℕ → List A → List A → Type ℓ where
    none_left : {xs : List A} → Arrangement 0 xs []
    pick :
        {k : ℕ} {x : A} {xs rest p : List A}
        → Pick x xs rest
        → Arrangement k rest p
        → Arrangement (suc k) xs (x ∷ p)

-- `Itertools::permutations`: all arrangements of `k` elements.
pub record Permutations {ℓ} (A : Type ℓ) : Type ℓ where
  pub permutations : List A → ℕ → List (List A)
  pub permutations_iff :
      (xs : List A) (k : ℕ) (p : List A) → Memᴰ p (permutations xs k) ↔ Arrangement k xs p
