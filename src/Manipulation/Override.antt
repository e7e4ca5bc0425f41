-- ===== src/Manipulation/Override.antt =====
-- dap-lib/src/doh_client/manipulation/domain_override.rs.
use doh_auth_proxy.Prelude.{
  ℕ, Bool, ◌&&◌, ◌||◌, Option, none, some, List, [], ◌∷◌, ◌++◌, if◌then◌else◌, leb, ◌==◌, filter,
  is_yes,
}
use doh_auth_proxy.Text.{Text, codes, text_eq, to_ascii_lowercase, pop}
use doh_auth_proxy.Globals.{IpAddr, v4, v6, AddrParser, QueryManipulationConfig}
use doh_auth_proxy.Hickory.{Hickory}
use doh_auth_proxy.Dns.{QueryKey}
use doh_auth_proxy.Manipulation.Libs.{Regex, regexp_domain, regexp_ipv4, regexp_ipv6}

-- `char::is_whitespace`.
unfoldable pub is_whitespace : ℕ → Bool
is_whitespace c =
    (leb 9 c && leb c 13)
    || c == 32
    || c == 0x85
    || c == 0xa0
    || c == 0x1680
    || (leb 0x2000 c && leb c 0x200a)
    || c == 0x2028
    || c == 0x2029
    || c == 0x202f
    || c == 0x205f
    || c == 0x3000

abbrev push_word : Text → List Text → List Text
push_word [] ws = ws
push_word (c ∷ w) ws = (c ∷ w) ∷ ws

-- `split_whitespace`: the words, and the beginning of the first if it has no space before it.
split_words : Text → Text × List Text
split_words [] = ([], [])
split_words (c ∷ s) =
    let (w, ws) = split_words s in if is_whitespace c then ([], push_word w ws) else (c ∷ w, ws)

unfoldable pub split_whitespace : Text → List Text
unfolding split_words is_whitespace
split_whitespace s = let (w, ws) = split_words s in push_word w ws

-- A `HashMap` from domains to lists of targets, as an association list.
unfoldable pub lookup_domain : Text → List (Text × List IpAddr) → Option (List IpAddr)
lookup_domain k [] = none
lookup_domain k ((j, ts) ∷ m) = if text_eq j k then some ts else lookup_domain k m

-- `entry(k).or_default().push(a)`.
unfoldable pub push_target : Text → IpAddr → List (Text × List IpAddr) → List (Text × List IpAddr)
push_target k a [] = (k, a ∷ []) ∷ []
push_target k a ((j, ts) ∷ m) =
    if text_eq j k then (j, ts ++ a ∷ []) ∷ m else (j, ts) ∷ push_target k a m

pub record DomainOverrideRule : Type 0 where
  pub inner : List (Text × List IpAddr)
  pub min_ttl : ℕ

abbrev map_v4 : Option ℕ → Option IpAddr
map_v4 none = none
map_v4 (some a) = some (v4 a)

abbrev map_v6 : Option ℕ → Option IpAddr
map_v6 none = none
map_v6 (some a) = some (v6 a)

module _ (R : Regex) (A : AddrParser) where
  -- `MapsTo::new`.
  unfoldable pub maps_to : Text → Option IpAddr
  maps_to override_target =
      if R.is_match (codes "^" ++ (regexp_ipv4 ++ codes "$")) override_target
      then map_v4 (A.parse_v4 override_target)
      else if R.is_match (codes "^" ++ (regexp_ipv6 ++ codes "$")) override_target
      then map_v6 (A.parse_v6 override_target)
      else none

  abbrev pub is_rule_line : Text → Bool
  is_rule_line = R.is_match (codes "^" ++ (regexp_domain ++ codes "\\s+\\S+$"))

  -- One round of the loop, over the words of a line.
  unfoldable pub add_rule : List (Text × List IpAddr) → List Text → List (Text × List IpAddr)
  add_rule inner (domain ∷ target ∷ []) = elim (maps_to target) [
    | none ↦ inner
    | some a ↦ push_target (to_ascii_lowercase domain) a inner
  ]
  add_rule inner _ = inner

  unfoldable pub add_rules : List (Text × List IpAddr) → List Text → List (Text × List IpAddr)
  add_rules inner [] = inner
  add_rules inner (line ∷ lines) = add_rules (add_rule inner (split_whitespace line)) lines

  unfoldable pub override_rule : Option (List Text) → ℕ → Option DomainOverrideRule
  override_rule none ttl = none
  override_rule (some lines) ttl =
      some (record { inner = add_rules [] (filter is_rule_line lines); min_ttl = ttl })

  -- `Option<DomainOverrideRule>::try_from`; the pattern is a valid one, so it does not fail.
  unfoldable pub override_rule_try_from : QueryManipulationConfig → Option DomainOverrideRule
  unfolding override_rule
  override_rule_try_from config = override_rule config.domain_override config.min_ttl

module _ (H : Hickory) where
  abbrev pub type_matches : H.RecordType → IpAddr → Bool
  type_matches t (v4 _) = is_yes (H.type_discrete t H.type_a)
  type_matches t (v6 _) = is_yes (H.type_discrete t H.type_aaaa)

  -- `iter().find(..)`.
  abbrev pub find_target : H.RecordType → List IpAddr → Option IpAddr
  find_target t [] = none
  find_target t (a ∷ as') = if type_matches t a then some a else find_target t as'

  abbrev pub find_in : H.RecordType → Option (List IpAddr) → Option IpAddr
  find_in t none = none
  find_in t (some targets) = find_target t targets

  unfoldable pub find_mapping : DomainOverrideRule → QueryKey H → Option IpAddr
  find_mapping rule q_key = elim (pop (to_ascii_lowercase q_key.query_name)) [
    | none ↦ none
    | some (nn, dot) ↦
        if dot == b'.' then find_in q_key.query_type (lookup_domain nn rule.inner) else none
  ]
