-- ===== src/Manipulation/BlockRule.antt =====
-- Which dictionaries `Option<DomainBlockRule>::try_from` builds from the configured lines.
use doh_auth_proxy.Prelude.{
  ℕ, zero, suc, ◌+◌, ◌-◌, ◌≡◌, ◌≢◌, ◌⊎◌, ◌↔◌, refl, sym, ap, subst, ◌∙◌, inl, inr, true, false, not,
  some, List, [], ◌∷◌, ◌++◌, map, Memᴰ, arith, Outcome, ok, ◌>>=◌, traverse, ltb, leb, Bool-cases,
  filter, mem_of_mem-map, mem-map, mem-filter, mem_of_mem-filter,
}
use doh_auth_proxy.Text.{
  Text, byte_len, byte_len-append, utf8_len, utf8_len_pos, to_ascii_lowercase, reverse_string,
}
use doh_auth_proxy.Globals.{QueryManipulationConfig}
use doh_auth_proxy.Manipulation.Libs.{
  Regex, StarPatterns, start_with_star, end_with_star, CedarLib, slice_from, slice_to,
}
use doh_auth_proxy.Manipulation.Block.{
  strip_star, chop_star, is_entry, rule_of, block_rule, block_rule_try_from,
}

slice_to-zero : (t : Text) → slice_to 0 t ≡ ok []
unfolding slice_to
slice_to-zero t = refl

slice_to-cons :
    (n m c : ℕ) (s : Text)
    → n ≡ utf8_len c + m
    → slice_to n (c ∷ s) ≡ (slice_to m s >>= λ r. ok (c ∷ r))
unfolding slice_to
slice_to-cons zero m c s e = absurd (omega (arith, utf8_len_pos c))
slice_to-cons (suc n) m c s e =
    let fits : leb (utf8_len c) (suc n) ≡ true = ground arith in
    let left : suc n - utf8_len c ≡ m = omega arith in rw (fits, left)

slice_to_lem : (p t : Text) → slice_to (byte_len p) (p ++ t) ≡ ok p
unfolding byte_len
slice_to_lem [] t = slice_to-zero t
slice_to_lem (c ∷ p) t =
    slice_to-cons (utf8_len c + byte_len p) (byte_len p) c (p ++ t) refl ∙ rw (slice_to_lem p t)

byte_len_star : byte_len (b'.' ∷ b'*' ∷ []) ≡ 2
unfolding byte_len utf8_len
byte_len_star = refl

chop_star-append : (p : Text) → chop_star (p ++ b'.' ∷ b'*' ∷ []) ≡ ok p
unfolding chop_star
chop_star-append p =
    let bytes : byte_len (p ++ b'.' ∷ b'*' ∷ []) ≡ byte_len p + 2 =
      byte_len-append p (b'.' ∷ b'*' ∷ []) ∙ ap (λ n. byte_len p + n) byte_len_star in
    let long : ltb (byte_len (p ++ b'.' ∷ b'*' ∷ [])) 2 ≡ false = ground arith in
    let cut : byte_len (p ++ b'.' ∷ b'*' ∷ []) - 2 ≡ byte_len p = omega arith in
    rw (long, cut) (slice_to_lem p (b'.' ∷ b'*' ∷ []))

-- `collect` of a function that succeeds on every element.
traverse_lem {ℓ κ} :
    {A : Type ℓ} {B : Type κ} (f : A → Outcome B) (xs : List A)
    → ((x : A) → Memᴰ x xs → (y : B) × (f x ≡ ok y))
    → (ys : List B) × (traverse f xs ≡ ok ys)
      × ((y : B) → Memᴰ y ys ↔ ((x : A) × Memᴰ x xs × (f x ≡ ok y)))
traverse_lem f [] h = ([], refl, λ y. ((λ m. elim m [ ]), λ (x, m, e). elim m [ ]))
traverse_lem {A} {B} f (x ∷ xs) h =
    let (y, e) = h x (Memᴰ.head refl) in
    let (ys, es, iff) = traverse_lem f xs (λ a m. h a (Memᴰ.tail m)) in
    (y ∷ ys, rw (e, es), λ z. (to y e ys iff z, from y e ys iff z))
  where
    to :
        (y : B)
        → f x ≡ ok y
        → (ys : List B) → ((z : B) → Memᴰ z ys ↔ ((a : A) × Memᴰ a xs × (f a ≡ ok z)))
        → (z : B) → Memᴰ z (y ∷ ys)
        → (a : A) × Memᴰ a (x ∷ xs) × (f a ≡ ok z)
    to y e ys iff z (Memᴰ.head q) = (x, Memᴰ.head refl, e ∙ ap ok (sym q))
    to y e ys iff z (Memᴰ.tail m) = let (a, k, q) = (iff z).0 m in (a, Memᴰ.tail k, q)

    from :
        (y : B)
        → f x ≡ ok y
        → (ys : List B) → ((z : B) → Memᴰ z ys ↔ ((a : A) × Memᴰ a xs × (f a ≡ ok z)))
        → (z : B) → (a : A) × Memᴰ a (x ∷ xs) × (f a ≡ ok z)
        → Memᴰ z (y ∷ ys)
    from y e ys iff z (a, Memᴰ.head q, fa) = Memᴰ.head (cc (ap f q))
    from y e ys iff z (a, Memᴰ.tail m, fa) = Memᴰ.tail ((iff z).1 (a, m, fa))

module _ (R : Regex) (star : StarPatterns R) where
  strip_star_lem :
      (d : Text) → (s : Text) × (strip_star R d ≡ ok s) × ((s ≡ d) ⊎ (d ≡ b'*' ∷ b'.' ∷ s))
  unfolding strip_star slice_from utf8_len
  strip_star_lem d = elim (Bool-cases (R.is_match start_with_star d)) [
    | inl t ↦
        let (c, r, e) = star.start_with_star_lem d t in (c ∷ r, rw t (ap (slice_from 2) e), inr e)
    | inr f ↦ (d, rw f, inl refl)
  ]

  chop_star_lem :
      (d : Text)
      → R.is_match end_with_star d ≡ true
      → (p : Text) × (chop_star d ≡ ok p) × (p ≢ []) × (d ≡ p ++ b'.' ∷ b'*' ∷ [])
  chop_star_lem d t =
      let (c, r, e) = star.end_with_star_lem d t in
      (c ∷ r, ap chop_star e ∙ chop_star-append (c ∷ r), (λ q. cc), e)

  -- The entries of the configured lines: the star in front is taken off, what is neither a domain
  -- nor a single label is dropped, and the rest is in lower case.
  abbrev pub IsEntryOf : List Text → Text → Type 0
  IsEntryOf lines x =
      (line : Text) × (s : Text) × Memᴰ line lines
      × (strip_star R line ≡ ok s)
      × (is_entry R s ≡ true)
      × (x ≡ to_ascii_lowercase s)

  module _ (lines stripped : List Text)
      (in_stripped : (s : Text)
        → Memᴰ s stripped ↔ ((line : Text) × Memᴰ line lines × (strip_star R line ≡ ok s))) where
    abbrev dict : List Text
    dict = map to_ascii_lowercase (filter (is_entry R) stripped)

    mem-dict : (x : Text) → Memᴰ x dict ↔ IsEntryOf lines x
    mem-dict x = (
      (λ m.
          let (s, ms, e) = mem_of_mem-map to_ascii_lowercase (filter (is_entry R) stripped) m in
          let (k, entry) = mem_of_mem-filter (is_entry R) stripped ms in
          let (line, ml, el) = (in_stripped s).0 k in (line, s, ml, el, entry, e)),
      λ (line, s, ml, el, entry, e).
          subst (λ t. Memᴰ t dict) (sym e)
            (mem-map to_ascii_lowercase (filter (is_entry R) stripped)
              (mem-filter (is_entry R) stripped ((in_stripped s).1 (line, ml, el)) entry)),
    )

    mem-suffixes :
        (d : Text)
        → Memᴰ d (filter (λ d. not (R.is_match end_with_star d)) dict)
          ↔ (IsEntryOf lines d × (R.is_match end_with_star d ≡ false))
    mem-suffixes d = (
      (λ m.
          let (k, t) = mem_of_mem-filter (λ d. not (R.is_match end_with_star d)) dict m in
          ((mem-dict d).0 k, ground arith)),
      λ (x, f). mem-filter (λ d. not (R.is_match end_with_star d)) dict ((mem-dict d).1 x) (rw f),
    )

    mem-prefixes :
        (prefixes : List Text)
        → ((p : Text)
            → Memᴰ p prefixes ↔ (
                (x : Text) × Memᴰ x (filter (R.is_match end_with_star) dict)
                × (chop_star x ≡ ok p)))
        → (p : Text)
        → Memᴰ p prefixes ↔ (
            (p ≢ [])
            × IsEntryOf lines (p ++ b'.' ∷ b'*' ∷ [])
            × (R.is_match end_with_star (p ++ b'.' ∷ b'*' ∷ []) ≡ true))
    mem-prefixes prefixes in_prefixes p = (
      (λ m.
          let (x, mx, ex) = (in_prefixes p).0 m in
          let (k, t) = mem_of_mem-filter (R.is_match end_with_star) dict mx in
          let (p', e', full, back) = chop_star_lem x t in
          let same : p' ≡ p = cc (sym e' ∙ ex) in
          let whole = back ∙ ap (λ q. q ++ b'.' ∷ b'*' ∷ []) same in
          (
            subst (λ q. q ≢ []) same full,
            (mem-dict _).0 (subst (λ q. Memᴰ q dict) whole k),
            subst (λ q. R.is_match end_with_star q ≡ true) whole t,
          )),
      λ (full, x, t). (in_prefixes p).1 (
        p ++ b'.' ∷ b'*' ∷ [],
        mem-filter (R.is_match end_with_star) dict ((mem-dict _).1 x) t,
        chop_star-append p,
      ),
    )

  -- From configured lines the rule is built without a panic. Its suffix entries are the entries
  -- with no star at the end, and its prefix entries, none of which is empty, are the others with
  -- that star and the dot before it taken off.
  pub block_rule_lem :
      (C : CedarLib) (config : QueryManipulationConfig) (lines : List Text)
      → config.domain_block ≡ some lines
      → (prefixes : List Text) × (suffixes : List Text) × (block_rule_try_from C R config
          ≡ ok (some (rule_of C prefixes (map reverse_string suffixes))))
        × ((d : Text)
            → Memᴰ d suffixes ↔ (IsEntryOf lines d × (R.is_match end_with_star d ≡ false)))
        × ((p : Text)
            → Memᴰ p prefixes ↔ (
                (p ≢ [])
                × IsEntryOf lines (p ++ b'.' ∷ b'*' ∷ [])
                × (R.is_match end_with_star (p ++ b'.' ∷ b'*' ∷ []) ≡ true)))
  unfolding block_rule_try_from
  block_rule_lem C config lines e =
      let (stripped, es, in_stripped) =
        traverse_lem (strip_star R) lines (λ d _. let (s, q, _) = strip_star_lem d in (s, q)) in
      let entries = dict lines stripped in_stripped in
      let (prefixes, ep, in_prefixes) =
        traverse_lem chop_star (filter (R.is_match end_with_star) entries) (λ d m.
          let (_, t) = mem_of_mem-filter (R.is_match end_with_star) entries m in
          let (p, q, _, _) = chop_star_lem d t in (p, q)) in
      (
        prefixes,
        filter (λ d. not (R.is_match end_with_star d)) entries,
        rw (block_rule, e, es, ep),
        mem-suffixes lines stripped in_stripped,
        mem-prefixes lines stripped in_stripped prefixes in_prefixes,
      )
