-- ===== src/Text.antt =====
-- Text of the program as its list of code points, with what the program takes from `str`:
-- equality, ASCII lower case, the length in bytes of UTF-8, popping the last character.
use Prim.Native.Char.{code}
use Prim.Native.String.{String}
use mathlib.Core.List.{reverse}
use doh_auth_proxy.Prelude.{
  ℕ, ◌+◌, ◌<◌, ◌≡◌, refl, ap, ◌⊎◌, inl, inr, Bool, true, false, ◌&&◌, Option, none, some, List, [],
  ◌∷◌, ◌++◌, map, arith, if◌then◌else◌, leb, ltb, ◌==◌, ℕ_discrete, Option-cases, subst,
}

abbrev pub Text : Type 0
Text = List ℕ

-- The code points of a literal of the source.
abbrev pub codes : String → Text
codes String.[] = []
codes (String.◌∷◌ c s) = code c ∷ codes s

abbrev pub text_eq : Text → Text → Bool
text_eq [] [] = true
text_eq [] (y ∷ ys) = false
text_eq (x ∷ xs) [] = false
text_eq (x ∷ xs) (y ∷ ys) = x == y && text_eq xs ys

pub text_eq_refl : (s : Text) → text_eq s s ≡ true
text_eq_refl [] = refl
text_eq_refl (x ∷ xs) = ground (arith, text_eq_refl xs)

pub eq_of_text_eq : (s t : Text) → text_eq s t ≡ true → s ≡ t
eq_of_text_eq [] [] h = refl
eq_of_text_eq [] (y ∷ ys) h = cc
eq_of_text_eq (x ∷ xs) [] h = cc
eq_of_text_eq (x ∷ xs) (y ∷ ys) h = ground (arith, eq_of_text_eq xs ys)

pub Text-discrete : Discrete Text
Text-discrete = hlevel ℕ_discrete

-- `char::to_ascii_lowercase`.
unfoldable pub ascii_lower : ℕ → ℕ
ascii_lower c = if leb b'A' c && leb c b'Z' then c + 32 else c

unfoldable pub to_ascii_lowercase : Text → Text
unfolding ascii_lower
to_ascii_lowercase = map ascii_lower

ascii_lower_idem : (c : ℕ) → ascii_lower (ascii_lower c) ≡ ascii_lower c
unfolding ascii_lower
ascii_lower_idem c = ground arith

pub to_ascii_lowercase_idem :
    (s : Text) → to_ascii_lowercase (to_ascii_lowercase s) ≡ to_ascii_lowercase s
unfolding to_ascii_lowercase
to_ascii_lowercase_idem [] = refl
to_ascii_lowercase_idem (c ∷ s) = rw (ascii_lower_idem c, to_ascii_lowercase_idem s)

-- The bytes that UTF-8 takes for a code point.
unfoldable pub utf8_len : ℕ → ℕ
utf8_len c = if ltb c 0x80 then 1 else if ltb c 0x800 then 2 else if ltb c 0x10000 then 3 else 4

-- `str::len`.
unfoldable pub byte_len : Text → ℕ
byte_len [] = 0
byte_len (c ∷ s) = utf8_len c + byte_len s

pub utf8_len_pos : (c : ℕ) → 0 < utf8_len c
unfolding utf8_len
utf8_len_pos c = ground arith

pub byte_len-append : (s t : Text) → byte_len (s ++ t) ≡ byte_len s + byte_len t
unfolding byte_len
byte_len-append [] t = omega arith
byte_len-append (c ∷ s) t = omega (arith, byte_len-append s t)

-- Only the empty text has no bytes.
pub byte_len-eq-zero : (s : Text) → byte_len s ≡ 0 → s ≡ []
unfolding byte_len
byte_len-eq-zero [] h = refl
byte_len-eq-zero (c ∷ s) h = absurd (omega (arith, utf8_len_pos c))

-- `String::pop`: what is left, and the character taken off the end.
unfoldable pub pop : Text → Option (Text × ℕ)
pop [] = none
pop (c ∷ []) = some ([], c)
pop (c ∷ d ∷ s) = elim (pop (d ∷ s)) [ none ↦ none | some (r, e) ↦ some (c ∷ r, e) ]

pub pop-append : (s : Text) (c : ℕ) → pop (s ++ c ∷ []) ≡ some (s, c)
unfolding pop
pop-append [] c = refl
pop-append (d ∷ []) c = refl
pop-append (d ∷ e ∷ s) c = rw (pop-append (e ∷ s) c)

pop-ne-none : (c : ℕ) (s : Text) → pop (c ∷ s) ≡ none → ⊥
unfolding pop
pop-ne-none c [] e = cc
pop-ne-none c (d ∷ s) e = elim (Option-cases (pop (d ∷ s))) [
  | inl n ↦ pop-ne-none d s n
  | inr (p, h) ↦ cc (
      subst
        (λ o.
          elim o as (λ _. Option (Text × ℕ)) [ none ↦ none | some (r, x) ↦ some (c ∷ r, x) ] ≡ none)
        h e)
]

-- What `pop` returns: nothing for the empty text, and otherwise the text in two parts.
pub pop-cases :
    (s : Text) → (pop s ≡ none) ⊎ ((r : Text) × (c : ℕ) × (pop s ≡ some (r, c)) × (s ≡ r ++ c ∷ []))
unfolding pop
pop-cases [] = inl refl
pop-cases (c ∷ []) = inr ([], c, refl, refl)
pop-cases (c ∷ d ∷ s) = elim (pop-cases (d ∷ s)) [
  | inl e ↦ absurd (pop-ne-none d s e)
  | inr (r, x, e, back) ↦ inr (c ∷ r, x, rw e, ap (◌∷◌ c) back)
]

abbrev pub reverse_string : Text → Text
reverse_string = reverse

-- `q` begins with `p`.
abbrev pub Prefix : Text → Text → Type 0
Prefix p q = (r : Text) × (p ++ r ≡ q)
