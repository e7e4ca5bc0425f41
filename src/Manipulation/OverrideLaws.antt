-- ===== src/Manipulation/OverrideLaws.antt =====
-- Which address `DomainOverrideRule` maps a query to, in terms of the configured lines.
use doh_auth_proxy.Prelude.{
  ◌≡◌, refl, sym, ap, ◌∙◌, inl, inr, Option, none, some, List, [], ◌∷◌, ◌++◌, arith, if◌then◌else◌,
  filter, Bool-cases, Option-cases, append_assoc, append-nil,
}
use doh_auth_proxy.Text.{Text, text_eq, text_eq_refl, eq_of_text_eq, to_ascii_lowercase, pop-append}
use doh_auth_proxy.Globals.{IpAddr, AddrParser, QueryManipulationConfig}
use doh_auth_proxy.Hickory.{Hickory}
use doh_auth_proxy.Dns.{QueryKey}
use doh_auth_proxy.Manipulation.Libs.{Regex}
use doh_auth_proxy.Manipulation.Override.{
  DomainOverrideRule, split_whitespace, lookup_domain, push_target, maps_to, is_rule_line, add_rule,
  add_rules, override_rule_try_from, find_in, find_target, find_mapping,
}

-- The targets of a name, nothing if it has none.
abbrev targets_of : Option (List IpAddr) → List IpAddr
targets_of none = []
targets_of (some ts) = ts

abbrev targets_in : Text → List (Text × List IpAddr) → List IpAddr
targets_in k m = targets_of (lookup_domain k m)

targets_in-push :
    (k j : Text) (a : IpAddr) (m : List (Text × List IpAddr))
    → targets_in k (push_target j a m) ≡ targets_in k m ++ (if text_eq j k then a ∷ [] else [])
unfolding lookup_domain push_target
targets_in-push k j a [] = ground arith
targets_in-push k j a ((i, ts) ∷ m) = ground (
  arith,
  targets_in-push k j a m,
  eq_of_text_eq i j,
  eq_of_text_eq i k,
  eq_of_text_eq j k,
  text_eq_refl i,
  append-nil ts,
  append-nil (targets_in k m),
)

find_in_lem :
    (H : Hickory) (t : H.RecordType) (o : Option (List IpAddr))
    → find_in H t o ≡ find_target H t (targets_of o)
find_in_lem H t none = refl
find_in_lem H t (some ts) = refl

module _ (R : Regex) (A : AddrParser) where
  -- The target that a line gives a name: its second word, if that is an address and the first
  -- is the name in any case.
  abbrev pub line_target : Text → List Text → List IpAddr
  line_target nn (domain ∷ target ∷ []) =
      if text_eq (to_ascii_lowercase domain) nn
      then elim (maps_to R A target) [ none ↦ [] | some a ↦ a ∷ [] ]
      else []
  line_target nn _ = []

  -- The targets of a name by the configured lines, in their order.
  abbrev pub line_targets : Text → List Text → List IpAddr
  line_targets nn [] = []
  line_targets nn (line ∷ lines) =
      if is_rule_line R A line
      then line_target nn (split_whitespace line) ++ line_targets nn lines
      else line_targets nn lines

  targets_in-add_rule :
      (nn : Text) (inner : List (Text × List IpAddr)) (words : List Text)
      → targets_in nn (add_rule R A inner words) ≡ targets_in nn inner ++ line_target nn words
  unfolding add_rule
  targets_in-add_rule nn inner [] = sym (append-nil _)
  targets_in-add_rule nn inner (domain ∷ []) = sym (append-nil _)
  targets_in-add_rule nn inner (domain ∷ target ∷ x ∷ xs) = sym (append-nil _)
  targets_in-add_rule nn inner (domain ∷ target ∷ []) = elim (Option-cases (maps_to R A target)) [
    | inl e ↦
        rw (add_rule, line_target, e)
          (elim (Bool-cases (text_eq (to_ascii_lowercase domain) nn)) [
            | inl t ↦ rw t (sym (append-nil _))
            | inr f ↦ rw f (sym (append-nil _))
          ])
    | inr (a, e) ↦
        rw (add_rule, line_target, e) (targets_in-push nn (to_ascii_lowercase domain) a inner)
  ]

  targets_in-add_rules :
      (nn : Text) (inner : List (Text × List IpAddr)) (lines : List Text)
      → targets_in nn (add_rules R A inner (filter (is_rule_line R A) lines))
        ≡ targets_in nn inner ++ line_targets nn lines
  unfolding add_rules
  targets_in-add_rules nn inner [] = sym (append-nil _)
  targets_in-add_rules nn inner (line ∷ lines) = elim (Bool-cases (is_rule_line R A line)) [
    | inl t ↦ rw t (
        targets_in-add_rules nn (add_rule R A inner (split_whitespace line)) lines
        ∙ ap (λ x. x ++ line_targets nn lines)
            (targets_in-add_rule nn inner (split_whitespace line))
        ∙ append_assoc (targets_in nn inner) (line_target nn (split_whitespace line))
            (line_targets nn lines))
    | inr f ↦ rw f (targets_in-add_rules nn inner lines)
  ]

  -- The rule is built from configured lines, with the configured TTL; it maps a query whose name
  -- ends in a dot to the first address of its type among those that the lines give its name, in the
  -- order of the lines; the case of the name and of the lines does not count.
  pub find_mapping_lem :
      (H : Hickory) (config : QueryManipulationConfig) (lines : List Text) (q_key : QueryKey H)
      (nn : Text)
      → config.domain_override ≡ some lines
      → to_ascii_lowercase q_key.query_name ≡ nn ++ b'.' ∷ []
      → (rule : DomainOverrideRule) × (override_rule_try_from R A config ≡ some rule)
        × (rule.min_ttl ≡ config.min_ttl)
        × (find_mapping H rule q_key ≡ find_target H q_key.query_type (line_targets nn lines))
  unfolding override_rule_try_from find_mapping lookup_domain
  find_mapping_lem H config lines q_key nn e n = (
    record { inner = add_rules R A [] (filter (is_rule_line R A) lines); min_ttl = config.min_ttl },
    rw e,
    refl,
    found,
  )
    where
      found :
          find_mapping H
            (record {
              inner = add_rules R A [] (filter (is_rule_line R A) lines);
              min_ttl = config.min_ttl;
            })
            q_key
          ≡ find_target H q_key.query_type (line_targets nn lines)
      found =
          rw (find_mapping, n, pop-append nn b'.')
            (find_in_lem H q_key.query_type (lookup_domain nn _)
              ∙ ap (find_target H q_key.query_type) (targets_in-add_rules nn [] lines))
