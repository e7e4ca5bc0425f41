-- ===== src/Manipulation/Blocked.antt =====
-- Which names `DomainBlockRule` blocks, in terms of the entries of its dictionaries.
use doh_auth_proxy.Prelude.{
  ◌≡◌, ◌≢◌, ◌⊎◌, ◌↔◌, refl, sym, ap, subst, ◌∙◌, inl, inr, Bool, true, ◌||◌, List, [], ◌∷◌, ◌++◌,
  map, Memᴰ, ok, err, other, ◌==◌, Bool-cases, ==_iff, mem_of_mem-map, mem-map,
}
use doh_auth_proxy.Text.{Text, pop-append, pop-cases, reverse_string, to_ascii_lowercase}
use doh_auth_proxy.Hickory.{Hickory}
use doh_auth_proxy.Dns.{QueryKey}
use doh_auth_proxy.Manipulation.Libs.{CedarLib}
use doh_auth_proxy.Manipulation.Block.{
  suffix_test, prefix_test, DomainBlockRule, rule_of, find_suffix_match, find_prefix_match,
  in_lists, in_blocklist,
}
use doh_auth_proxy.Manipulation.Search.{
  IsBelow, IsUnder, IsDict, AtBorder, IsBelow-iff, search_iff, suffix_test_iff, prefix_test_iff,
  or_outcome, or_iff,
}

module _ (C : CedarLib) where
  module _ (prefixes suffixes : List Text) (pd : IsDict prefixes)
      (sd : IsDict (map reverse_string suffixes)) (nn : Text) where
    abbrev rule : DomainBlockRule C
    rule = rule_of C prefixes (map reverse_string suffixes)

    suffix_iff :
        (b : Bool) × (find_suffix_match C rule nn ≡ ok b)
        × ((b ≡ true) ↔ ((d : Text) × Memᴰ d suffixes × IsBelow d nn))
    unfolding find_suffix_match rule_of
    suffix_iff =
        let (b, e, h) =
          search_iff C AtBorder (suffix_test (reverse_string nn)) (reverse_string nn)
            (map reverse_string suffixes) (suffix_test_iff (reverse_string nn)) sd in
        (
          b,
          e,
          (
            (λ t.
                let (k, mk, r) = h.0 t in
                let (d, md, ed) = mem_of_mem-map reverse_string suffixes mk in
                (
                  d,
                  md,
                  (IsBelow-iff d nn).1
                      (subst (λ k. (r : Text) × (k ++ r ≡ reverse_string nn) × AtBorder r) ed r),
                )),
            λ (d, md, below).
                h.1 (
                  reverse_string d,
                  mem-map reverse_string suffixes md,
                  (IsBelow-iff d nn).0 below,
                ),
          ),
        )

    prefix_iff :
        (b : Bool) × (find_prefix_match C rule nn ≡ ok b)
        × ((b ≡ true) ↔ ((p : Text) × Memᴰ p prefixes × IsUnder p nn))
    unfolding find_prefix_match rule_of
    prefix_iff =
        let (b, e, h) =
          search_iff C (λ r. (s : Text) × (r ≡ b'.' ∷ s)) (prefix_test nn) nn prefixes
            (prefix_test_iff nn) pd in
        (
          b,
          e,
          (
            (λ t.
                let (k, mk, rest) = h.0 t in
                let (r, er, br) = rest in (k, mk, (br.0, sym er ∙ ap (λ t. k ++ t) br.1))),
            λ (p, mp, under). h.1 (p, mp, (b'.' ∷ under.0, sym under.1, (under.0, refl))),
          ),
        )

    -- A rule over dictionaries that can be indexed decides for each name, without failing, whether
    -- one of its suffix entries is the name or stands above it, or one of its prefix entries
    -- begins the name in front of a dot.
    pub in_lists_iff :
        (b : Bool) × (in_lists C rule nn ≡ ok b)
        × ((b ≡ true) ↔ (
            ((d : Text) × Memᴰ d suffixes × IsBelow d nn)
            ⊎ ((p : Text) × Memᴰ p prefixes × IsUnder p nn)))
    unfolding in_lists
    in_lists_iff =
        let (b, e, h) = suffix_iff in
        let (b', e', h') = prefix_iff in (b || b', rw (e, e') (or_outcome b b'), or_iff b b' h h')

    -- With no empty entry and fewer than 2 ^ 31 of each kind, whether a query's name, in lower case
    -- and without its final dot, is blocked is decided without failing: it is exactly where it is a
    -- suffix entry or stands below one, or begins with a prefix entry and a dot.
    pub in_blocklist_iff :
        {H : Hickory} (q_key : QueryKey H)
        → to_ascii_lowercase q_key.query_name ≡ nn ++ b'.' ∷ []
        → (b : Bool) × (in_blocklist C rule q_key ≡ ok b)
          × ((b ≡ true) ↔ (
              ((d : Text) × Memᴰ d suffixes × IsBelow d nn)
              ⊎ ((p : Text) × Memᴰ p prefixes × IsUnder p nn)))
    unfolding in_blocklist
    in_blocklist_iff q_key e =
        let (b, eb, h) = in_lists_iff in (b, rw (in_blocklist, e, pop-append nn b'.') eb, h)

-- A name without a final dot is an error, whatever the rule.
pub in_blocklist_no_dot :
    {H : Hickory} (C : CedarLib) (r : DomainBlockRule C) (q_key : QueryKey H)
    → ((nn : Text) → to_ascii_lowercase q_key.query_name ≢ nn ++ b'.' ∷ [])
    → in_blocklist C r q_key ≡ err other
unfolding in_blocklist
in_blocklist_no_dot C r q_key h = elim (pop-cases (to_ascii_lowercase q_key.query_name)) [
  | inl empty ↦ rw (in_blocklist, empty)
  | inr (nn, dot, e, back) ↦ elim (Bool-cases (dot == b'.')) [
    | inl is ↦ absurd (h nn (back ∙ ap (λ c. nn ++ c ∷ []) ((==_iff dot b'.').0 is)))
    | inr isnt ↦ rw (in_blocklist, e, isnt)
  ]
]
