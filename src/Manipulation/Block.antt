-- ===== src/Manipulation/Block.antt =====
-- dap-lib/src/doh_client/manipulation/domain_block.rs.
use doh_auth_proxy.Prelude.{
  ℕ, suc, ◌-◌, Bool, true, false, not, ◌||◌, Option, none, some, List, [], ◌∷◌, ◌++◌, map, Outcome,
  ok, err, panic, other, ◌>>=◌, if◌then◌else◌, ltb, ◌==◌, filter, length, get_elem?, enumerate_from,
  traverse, unwrap,
}
use doh_auth_proxy.Text.{Text, codes, to_ascii_lowercase, byte_len, pop, reverse_string}
use doh_auth_proxy.Globals.{QueryManipulationConfig}
use doh_auth_proxy.Hickory.{Hickory}
use doh_auth_proxy.Dns.{QueryKey}
use doh_auth_proxy.Manipulation.Libs.{
  Regex, regexp_domain_or_prefix, start_with_star, end_with_star, CedarLib, as_i32, as_usize,
  slice_from, slice_to,
}

-- `x.split('.').count()`.
abbrev pub split_count : Text → ℕ
split_count [] = 1
split_count (c ∷ s) = let n = split_count s in if c == b'.' then suc n else n

-- The loop of `filter(..).next().is_some()` over the search's values, up to the first match.
unfoldable pub first_match : (Text → Bool) → List Text → List (ℕ × ℕ) → Outcome Bool
first_match test dict [] = ok false
first_match test dict ((x, _) ∷ rest) = unwrap (get_elem? dict (as_usize x)) >>= λ found.
    if test found then ok true else first_match test dict rest

abbrev pub is_dot : Option ℕ → Bool
is_dot none = false
is_dot (some c) = c == b'.'

-- The closures that decide whether a found entry ends at the border of a label.
unfoldable pub suffix_test : Text → Text → Bool
suffix_test rev_nn found =
    if byte_len found == byte_len rev_nn then true else is_dot (get_elem? rev_nn (length found))

unfoldable pub prefix_test : Text → Text → Bool
prefix_test query_domain found = is_dot (get_elem? query_domain (length found))

abbrev pub key_values : List Text → List (Text × ℕ)
key_values dict = map (λ (e : ℕ × Text). (e.1, as_i32 e.0)) (enumerate_from 0 dict)

-- `|d| if start_with_star.is_match(d) { &d[2..] } else { d }`.
unfoldable pub strip_star : Regex → Text → Outcome Text
strip_star R d = if R.is_match start_with_star d then slice_from 2 d else ok d

-- `|d| d[..d.len() - 2].to_string()`.
unfoldable pub chop_star : Text → Outcome Text
chop_star d = if ltb (byte_len d) 2 then panic else slice_to (byte_len d - 2) d

unfoldable pub is_entry : Regex → Text → Bool
is_entry R x =
    R.is_match (codes "^" ++ (regexp_domain_or_prefix ++ codes "$")) x || split_count x == 1

module _ (C : CedarLib) where
  pub record DomainBlockRule : Type 0 where
    pub prefix_cedar : C.Cedar
    pub suffix_cedar : C.Cedar
    pub prefix_dict : List Text
    pub suffix_dict : List Text

  -- The rule over the two dictionaries.
  unfoldable pub rule_of : List Text → List Text → DomainBlockRule
  rule_of prefix_dict suffix_dict = record {
    prefix_cedar = C.build (key_values prefix_dict);
    suffix_cedar = C.build (key_values suffix_dict);
    prefix_dict = prefix_dict;
    suffix_dict = suffix_dict;
  }

  unfoldable pub block_rule : Regex → Option (List Text) → Outcome (Option DomainBlockRule)
  block_rule R none = ok none
  block_rule R (some config_domain_block) = do
    stripped ← traverse (strip_star R) config_domain_block
    let dict = map to_ascii_lowercase (filter (is_entry R) stripped)
    prefix_dict ← traverse chop_star (filter (R.is_match end_with_star) dict)
    let suffix_dict = map reverse_string (filter (λ d. not (R.is_match end_with_star d)) dict)
    ok (some (rule_of prefix_dict suffix_dict))

  -- `Option<DomainBlockRule>::try_from`.
  unfoldable pub block_rule_try_from :
      Regex → QueryManipulationConfig → Outcome (Option DomainBlockRule)
  unfolding block_rule
  block_rule_try_from R config = block_rule R config.domain_block

  unfoldable pub find_suffix_match : DomainBlockRule → Text → Outcome Bool
  unfolding first_match suffix_test
  find_suffix_match rule query_domain =
      let rev_nn = reverse_string query_domain in
      first_match (suffix_test rev_nn) rule.suffix_dict
        (C.common_prefix_iter rule.suffix_cedar rev_nn)

  unfoldable pub find_prefix_match : DomainBlockRule → Text → Outcome Bool
  unfolding first_match prefix_test
  find_prefix_match rule query_domain =
      first_match (prefix_test query_domain) rule.prefix_dict
        (C.common_prefix_iter rule.prefix_cedar query_domain)

  -- `in_blocklist` once the final dot is taken off.
  unfoldable pub in_lists : DomainBlockRule → Text → Outcome Bool
  in_lists rule nn = do
    suffix ← find_suffix_match rule nn
    if suffix then ok true else find_prefix_match rule nn

  unfoldable pub in_blocklist : {H : Hickory} → DomainBlockRule → QueryKey H → Outcome Bool
  unfolding in_lists find_suffix_match find_prefix_match
  in_blocklist rule q_key = elim (pop (to_ascii_lowercase q_key.query_name)) [
    | none ↦ err other
    | some (nn, dot) ↦ if dot == b'.' then in_lists rule nn else err other
  ]
