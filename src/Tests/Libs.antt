-- ===== src/Tests/Libs.antt =====
-- Instances of the interfaces to regex and cedarwood, and of the parsers of addresses.
use doh_auth_proxy.Prelude.{
  ℕ, ◌≡◌, ◌≢◌, refl, ap, sym, subst, Bool, true, false, Option, none, some, List, [], ◌∷◌, ◌++◌,
  map, Memᴰ, ◌&&◌, ◌==◌, ==_iff, if◌then◌else◌, filter, mem-map, mem_of_mem-map, mem-filter,
  mem_of_mem-filter, Bool-cases, inl, inr, length,
}
use doh_auth_proxy.Text.{Text, text_eq, Prefix}
use doh_auth_proxy.Globals.{v4, AddrParser}
use doh_auth_proxy.Manipulation.Libs.{Regex, StarPatterns, start_with_star, end_with_star, CedarLib}

abbrev begins : Text → Text → Bool
begins [] q = true
begins (c ∷ p) [] = false
begins (c ∷ p) (d ∷ q) = c == d && begins p q

begins_sound : (p q : Text) → begins p q ≡ true → Prefix p q
begins_sound [] q h = (q, refl)
begins_sound (c ∷ p) [] h = cc
begins_sound (c ∷ p) (d ∷ q) h = elim (Bool-cases (c == d)) [
  | inr n ↦ cc (rw n at h)
  | inl e ↦ let (r, same) = begins_sound p q (rw e at h) in (r, λ i. (==_iff c d).0 e i ∷ same i)
]

begins_complete : (p q : Text) → Prefix p q → begins p q ≡ true
begins_complete p q (r, e) = subst (λ q. begins p q ≡ true) e (own p r)
  where
    own : (p r : Text) → begins p (p ++ r) ≡ true
    own [] r = refl
    own (c ∷ p) r = rw ((==_iff c c).1 refl) (own p r)

abbrev search_all : List (Text × ℕ) → Text → List (ℕ × ℕ)
search_all kv q =
    map (λ (e : Text × ℕ). (e.1, length e.0)) (filter (λ (e : Text × ℕ). begins e.0 q) kv)

pub found_sound :
    (kv : List (Text × ℕ)) (q : Text) (v n : ℕ)
    → Memᴰ (v, n) (search_all kv q)
    → (k : Text) × Memᴰ (k, v) kv × Prefix k q
found_sound kv q v n m =
    let (e, k, same) = mem_of_mem-map (λ (e : Text × ℕ). (e.1, length e.0)) _ m in
    let (l, h) = mem_of_mem-filter (λ (e : Text × ℕ). begins e.0 q) kv k in
    (e.0, subst (λ w. Memᴰ (e.0, w) kv) (sym (ap (λ p. p.0) same)) l, begins_sound e.0 q h)

pub found_complete :
    (kv : List (Text × ℕ)) (q k : Text) (v : ℕ)
    → k ≢ []
    → Memᴰ (k, v) kv
    → Prefix k q
    → (v' : ℕ) × (n : ℕ) × Memᴰ (v', n) (search_all kv q) × Memᴰ (k, v') kv
found_complete kv q k v h m p = (
  v,
  length k,
  mem-map (λ (e : Text × ℕ). (e.1, length e.0)) _
      (mem-filter (λ (e : Text × ℕ). begins e.0 q) kv m (begins_complete k q p)),
  m,
)

-- A trie as the list of its keys and values.
abbrev pub toy_cedar_lib : CedarLib
toy_cedar_lib = record {
  Cedar = List (Text × ℕ);
  build = λ kv. kv;
  common_prefix_iter = search_all;
  found_sound = found_sound;
  found_complete = found_complete;
}

abbrev starts : Text → Bool
starts (a ∷ b ∷ c ∷ r) = a == b'*' && b == b'.'
starts _ = false

-- Every text matches, but the pattern with a star in front wants one, and no text ends in a star.
abbrev pub toy_regex : Regex
toy_regex = record {
  is_match = λ p s.
      if text_eq p start_with_star
      then starts s
      else if text_eq p end_with_star
      then false
      else true;
}

starts_lem : (s : Text) → starts s ≡ true → (c : ℕ) × (r : Text) × (s ≡ b'*' ∷ b'.' ∷ c ∷ r)
starts_lem [] h = cc
starts_lem (a ∷ []) h = cc
starts_lem (a ∷ b ∷ []) h = cc
starts_lem (a ∷ b ∷ c ∷ r) h = elim (Bool-cases (a == b'*')) [
  | inr n ↦ cc (rw n at h)
  | inl e ↦ elim (Bool-cases (b == b'.')) [
    | inr n ↦ cc (rw (e, n) at h)
    | inl f ↦ (c, r, λ i. (==_iff a b'*').0 e i ∷ (==_iff b b'.').0 f i ∷ c ∷ r)
  ]
]

pub toy_star : StarPatterns toy_regex
toy_star = record {
  start_with_star_lem = λ s h. starts_lem s h;
  end_with_star_lem = λ s h. absurd (false_ne h);
}
  where
    false_ne : false ≡ true → ⊥
    false_ne e = cc

-- A text of one character is the address with that number.
abbrev one_char : Text → Option ℕ
one_char (c ∷ []) = some c
one_char _ = none

abbrev pub toy_addr : AddrParser
toy_addr = record {
  parse_v4 = one_char;
  parse_v6 = λ s. none;
  parse_ip = λ s. elim (one_char s) [ none ↦ none | some n ↦ some (v4 n) ];
  parse_socket = λ s. none;
}
