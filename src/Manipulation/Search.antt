-- ===== src/Manipulation/Search.antt =====
-- What the search of the tries for entries at the border of a label finds.
use mathlib.Core.List.{reverse, reverse-append, reverse-reverse}
use native.Mathlib.Nat.{zero-add}
use doh_auth_proxy.Prelude.{
  ℕ, zero, suc, ◌+◌, ◌^◌, ◌<◌, ◌≡◌, ◌≢◌, ◌⊎◌, ◌↔◌, refl, sym, ap, subst, ◌∙◌, inl, inr, Bool, true,
  false, ◌||◌, Option, some, List, [], ◌∷◌, ◌++◌, Memᴰ, arith, ok, if◌then◌else◌, ◌==◌, Bool-cases,
  ==_iff, length, get_elem?, enumerate_from, mem_of_mem-map, mem-map, append_assoc, append-nil, All,
  All-mem,
}
use doh_auth_proxy.Text.{Text, byte_len, byte_len-append, byte_len-eq-zero, reverse_string}
use doh_auth_proxy.Manipulation.Libs.{CedarLib, as_i32, as_usize}
use doh_auth_proxy.Manipulation.Block.{first_match, is_dot, suffix_test, prefix_test, key_values}

-- A name is an entry or stands below it: `www.example.com` below `example.com`.
abbrev pub IsBelow : Text → Text → Type 0
IsBelow d nn = (nn ≡ d) ⊎ ((s : Text) × (nn ≡ s ++ b'.' ∷ d))

-- A name begins with an entry and a dot: `example.com` under the entry `example`.
abbrev pub IsUnder : Text → Text → Type 0
IsUnder p nn = (s : Text) × (nn ≡ p ++ b'.' ∷ s)

-- The positions of a dictionary, as the values of the trie.
mem-enumerate_from :
    {k : Text} (i n : ℕ) (dict : List Text)
    → Memᴰ (n, k) (enumerate_from i dict)
    → (j : ℕ) × (n ≡ i + j) × (get_elem? dict j ≡ some k) × (j < length dict)
mem-enumerate_from i n [] m = elim m [ ]
mem-enumerate_from i n (x ∷ xs) (Memᴰ.head e) =
    (0, ap (λ p. p.0) e ∙ omega arith, ap some (sym (ap (λ p. p.1) e)), omega arith)
mem-enumerate_from i n (x ∷ xs) (Memᴰ.tail m) =
    let (j, e, g, l) = mem-enumerate_from (suc i) n xs m in (suc j, omega arith, g, omega arith)

enumerate_from-mem :
    {k : Text} (i : ℕ) (dict : List Text)
    → Memᴰ k dict
    → (n : ℕ) × Memᴰ (n, k) (enumerate_from i dict)
enumerate_from-mem i [] m = elim m [ ]
enumerate_from-mem i (x ∷ xs) (Memᴰ.head e) = (i, Memᴰ.head (ap (λ t. (i, t)) e))
enumerate_from-mem i (x ∷ xs) (Memᴰ.tail m) =
    let (n, k) = enumerate_from-mem (suc i) xs m in (n, Memᴰ.tail k)

get_elem?-mem {ℓ} : {A : Type ℓ} {a : A} (xs : List A) (i : ℕ) → get_elem? xs i ≡ some a → Memᴰ a xs
get_elem?-mem [] i e = cc
get_elem?-mem (x ∷ xs) zero e = Memᴰ.head (cc)
get_elem?-mem (x ∷ xs) (suc i) e = Memᴰ.tail (get_elem?-mem xs i e)

as_usize-as_i32 : (j : ℕ) → j < 2 ^ 31 → as_usize (as_i32 j) ≡ j
as_usize-as_i32 j h = ground arith

mem-key_values :
    {k : Text} {v : ℕ} (dict : List Text)
    → length dict < 2 ^ 31
    → Memᴰ (k, v) (key_values dict)
    → get_elem? dict (as_usize v) ≡ some k
mem-key_values {k} {v} dict small m =
    let (e, me, eq) =
      mem_of_mem-map (λ (e : ℕ × Text). (e.1, as_i32 e.0)) (enumerate_from 0 dict) m in
    let (j, ej, g, l) = mem-enumerate_from 0 e.0 dict me in
    let v_eq = ap (λ p. p.1) eq in
    let k_eq = ap (λ p. p.0) eq in
    let ix =
      ap as_usize v_eq
      ∙ ap (λ n. as_usize (as_i32 n)) (ej ∙ zero-add j)
      ∙ as_usize-as_i32 j (omega arith) in
    subst (λ i. get_elem? dict i ≡ some k) (sym ix) (g ∙ ap some (sym k_eq))

-- What the search for a match decides, where every value found is a position of the dictionary.
first_match_lem :
    (test : Text → Bool) (dict : List Text) (items : List (ℕ × ℕ))
    → ((v n : ℕ) → Memᴰ (v, n) items → (k : Text) × (get_elem? dict (as_usize v) ≡ some k))
    → (b : Bool) × (first_match test dict items ≡ ok b)
      × (b ≡ true
          → (v : ℕ) × (n : ℕ) × (k : Text) × Memᴰ (v, n) items
            × (get_elem? dict (as_usize v) ≡ some k)
            × (test k ≡ true))
      × ((v n : ℕ) (k : Text)
          → Memᴰ (v, n) items
          → get_elem? dict (as_usize v) ≡ some k
          → test k ≡ true
          → b ≡ true)
unfolding first_match
first_match_lem test dict [] h = (false, refl, λ e. cc, λ v n k m. elim m [ ])
first_match_lem test dict ((x, l) ∷ rest) h =
    let (found, ef) = h x l (Memᴰ.head refl) in
    elim (Bool-cases (test found)) [
      | inl t ↦ (true, rw (ef, t), λ _. (x, l, found, Memᴰ.head refl, ef, t), λ v n k m g e. refl)
      | inr f ↦
          let (b, eb, to, from) = first_match_lem test dict rest (λ v n m. h v n (Memᴰ.tail m)) in
          (
            b,
            rw (ef, f) eb,
            (λ e. let (v, n, k, m, g, t) = to e in (v, n, k, Memᴰ.tail m, g, t)),
            λ v n k m g e. elim (split m) [
              | inl same ↦ absurd (
                  clash (get_elem? dict (as_usize v)) g
                    (ap (λ (p : ℕ × ℕ). get_elem? dict (as_usize p.0)) same ∙ ef) e f)
              | inr m' ↦ from v n k m' g e
            ],
          )
    ]
  where
    clash :
        {k k' : Text} (o : Option Text)
        → o ≡ some k
        → o ≡ some k'
        → test k ≡ true
        → test k' ≡ false
        → ⊥
    clash o a b c d = cc

    split : {a x : ℕ × ℕ} {xs : List (ℕ × ℕ)} → Memᴰ a (x ∷ xs) → (a ≡ x) ⊎ Memᴰ a xs
    split (Memᴰ.head e) = inl e
    split (Memᴰ.tail m) = inr m

-- What follows a found entry is nothing, or begins with a dot.
abbrev pub AtBorder : Text → Type 0
AtBorder r = (r ≡ []) ⊎ ((s : Text) × (r ≡ b'.' ∷ s))

get_elem?-append : (p r : Text) → get_elem? (p ++ r) (length p) ≡ get_elem? r 0
get_elem?-append [] r = refl
get_elem?-append (c ∷ p) r = get_elem?-append p r

is_dot_iff : (r : Text) → (is_dot (get_elem? r 0) ≡ true) ↔ ((s : Text) × (r ≡ b'.' ∷ s))
is_dot_iff [] = (λ e. cc, λ (s, e). cc)
is_dot_iff (c ∷ r) =
    (λ e. (r, ap (λ x. x ∷ r) ((==_iff c b'.').0 e)), λ (s, e). (==_iff c b'.').1 (cc))

pub prefix_test_iff :
    (q p r : Text) → p ++ r ≡ q → (prefix_test q p ≡ true) ↔ ((s : Text) × (r ≡ b'.' ∷ s))
unfolding prefix_test
prefix_test_iff q p r e =
    subst (λ t. (is_dot (get_elem? t (length p)) ≡ true) ↔ ((s : Text) × (r ≡ b'.' ∷ s))) e
      (rw (get_elem?-append p r) (is_dot_iff r))

pub suffix_test_iff : (q p r : Text) → p ++ r ≡ q → (suffix_test q p ≡ true) ↔ AtBorder r
unfolding suffix_test prefix_test byte_len
suffix_test_iff q p r e = elim (Bool-cases (byte_len p == byte_len q)) [
  | inl same ↦ rw same (
    (λ _. inl (byte_len-eq-zero r (ground (arith, byte_len-append p r, ap byte_len e)))),
    λ _. refl,
  )
  | inr longer ↦ rw longer (
    (λ t. inr ((prefix_test_iff q p r e).0 t)),
    λ b. elim b [
      | inl none_left ↦
          absurd (ground (arith, byte_len-append p r, ap byte_len e, ap byte_len none_left))
      | inr dot ↦ (prefix_test_iff q p r e).1 dot
    ],
  )
]

pub IsBelow-iff :
    (d nn : Text)
    → IsBelow d nn ↔ ((r : Text) × (reverse_string d ++ r ≡ reverse_string nn) × AtBorder r)
IsBelow-iff d nn = (to, from)
  where
    to : IsBelow d nn → (r : Text) × (reverse d ++ r ≡ reverse nn) × AtBorder r
    to (inl e) = ([], append-nil (reverse d) ∙ ap reverse (sym e), inl refl)
    to (inr (s, e)) = (
      b'.' ∷ reverse s,
      sym (
          ap reverse e
          ∙ reverse-append s (b'.' ∷ d)
          ∙ ap (λ t. t ++ reverse s) (reverse-append (b'.' ∷ []) d)
          ∙ append_assoc (reverse d) (b'.' ∷ []) (reverse s)),
      inr (reverse s, refl),
    )

    from : (r : Text) × (reverse d ++ r ≡ reverse nn) × AtBorder r → IsBelow d nn
    from (r, e, inl z) = inl (
        sym (reverse-reverse nn)
        ∙ ap reverse (sym e ∙ ap (λ t. reverse d ++ t) z ∙ append-nil (reverse d))
        ∙ reverse-reverse d)
    from (r, e, inr (s, z)) = inr (
      reverse s,
      sym (reverse-reverse nn)
          ∙ ap reverse (sym e ∙ ap (λ t. reverse d ++ t) z)
          ∙ reverse-append (reverse d) (b'.' ∷ s)
          ∙ ap (λ t. t ++ reverse (reverse d)) (reverse-append (b'.' ∷ []) s)
          ∙ append_assoc (reverse s) (b'.' ∷ []) (reverse (reverse d))
          ∙ ap (λ t. reverse s ++ b'.' ∷ t) (reverse-reverse d),
    )

-- A dictionary that the trie can index, with no empty entry.
abbrev pub IsDict : List Text → Type 0
IsDict dict = (length dict < 2 ^ 31) × All (λ k. k ≢ []) dict

pub or_outcome : (b b' : Bool) → (if b then ok true else ok b') ≡ ok (b || b')
or_outcome true b' = refl
or_outcome false b' = refl

pub or_iff :
    {P Q : Type 0} (b b' : Bool) → (b ≡ true) ↔ P → (b' ≡ true) ↔ Q → ((b || b') ≡ true) ↔ (P ⊎ Q)
or_iff true b' h h' = ((λ _. inl (h.0 refl)), λ _. refl)
or_iff false b' h h' =
    ((λ e. inr (h'.0 e)), λ c. elim c [ inl p ↦ absurd (false_true (h.1 p)) | inr q ↦ h'.1 q ])
  where
    false_true : false ≡ true → ⊥
    false_true e = cc

module _ (C : CedarLib) where
  open C use {build, common_prefix_iter, found_sound, found_complete}

  -- The search over one dictionary, for any test that reads what follows the entry.
  pub search_iff :
      (Border : Text → Type 0) (test : Text → Bool) (q : Text) (dict : List Text)
      → ((p r : Text) → p ++ r ≡ q → (test p ≡ true) ↔ Border r)
      → IsDict dict
      → (b : Bool) × (first_match test dict (common_prefix_iter (build (key_values dict)) q) ≡ ok b)
        × ((b ≡ true) ↔ ((k : Text) × Memᴰ k dict × ((r : Text) × (k ++ r ≡ q) × Border r)))
  search_iff Border test q dict test_iff (small, full) =
      let (b, e, to, from) =
        first_match_lem test dict (common_prefix_iter (build (key_values dict)) q) (λ v n m.
          let (k, mk, _) = found_sound (key_values dict) q v n m in
          (k, mem-key_values dict small mk)) in
      (
        b,
        e,
        (
          (λ t.
              let (v, n, k, m, g, tk) = to t in
              let (k', mk, pre) = found_sound (key_values dict) q v n m in
              let (r, er) = pre in
              let g' = mem-key_values dict small mk in
              (k', get_elem?-mem dict (as_usize v) g', (r, er, (test_iff k' r er).0 (cc)))),
          λ (k, mk, rest).
              let (r, er, br) = rest in
              let (i, mi) = enumerate_from-mem 0 dict mk in
              let (v, n, m, mv) =
                found_complete (key_values dict) q k (as_i32 i) (All-mem _ dict mk full)
                  (mem-map (λ (e : ℕ × Text). (e.1, as_i32 e.0)) (enumerate_from 0 dict) mi)
                  (r, er) in
              from v n k m (mem-key_values dict small mv) ((test_iff k r er).1 br),
        ),
      )
