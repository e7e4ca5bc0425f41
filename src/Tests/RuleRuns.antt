-- ===== src/Tests/RuleRuns.antt =====
-- Rules of blocking and overriding, on the query for `a.b.`.
use doh_auth_proxy.Prelude.{
  ◌≡◌, ◌≢◌, refl, ◌↔◌, ◌⊎◌, Bool, true, false, some, List, [], ◌∷◌, ◌++◌, map, Memᴰ, ok, panic,
  arith,
}
use doh_auth_proxy.Text.{Text, codes, to_ascii_lowercase, reverse_string}
use doh_auth_proxy.Globals.{v4, QueryManipulationConfig}
use doh_auth_proxy.Dns.{QueryKey, build_response_given_ipaddr}
use doh_auth_proxy.Manipulation.Libs.{end_with_star}
use doh_auth_proxy.Manipulation.Block.{DomainBlockRule, rule_of, in_blocklist, block_rule_try_from}
use doh_auth_proxy.Manipulation.Blocked.{in_blocklist_iff}
use doh_auth_proxy.Manipulation.Search.{IsBelow, IsUnder}
use doh_auth_proxy.Manipulation.BlockRule.{IsEntryOf, block_rule_lem}
use doh_auth_proxy.Manipulation.Override.{
  DomainOverrideRule, find_mapping, find_target, override_rule_try_from,
}
use doh_auth_proxy.Manipulation.OverrideLaws.{line_targets, find_mapping_lem}
use doh_auth_proxy.Manipulation.ApplyLaws.{build_response_given_ipaddr_panics}
use doh_auth_proxy.Tests.Message.{toy_hickory, toy_answer}
use doh_auth_proxy.Tests.Libs.{toy_cedar_lib, toy_regex, toy_star, toy_addr}

abbrev pub key : QueryKey toy_hickory
key = record { query_name = codes "a.b."; query_type = 1; query_class = 1 }

abbrev pub rule : DomainBlockRule toy_cedar_lib
rule = rule_of toy_cedar_lib (codes "a" ∷ []) (map reverse_string (codes "b" ∷ []))

key_lower : to_ascii_lowercase key.query_name ≡ codes "a.b" ++ b'.' ∷ []
unfolding to_ascii_lowercase
key_lower = refl

in_blocklist_iff_example :
    (b : Bool) × (in_blocklist toy_cedar_lib rule key ≡ ok b)
    × ((b ≡ true) ↔ (
        ((d : Text) × Memᴰ d (codes "b" ∷ []) × IsBelow d (codes "a.b"))
        ⊎ ((p : Text) × Memᴰ p (codes "a" ∷ []) × IsUnder p (codes "a.b"))))
in_blocklist_iff_example =
    in_blocklist_iff toy_cedar_lib (codes "a" ∷ []) (codes "b" ∷ []) (omega arith, (λ e. cc, tt))
      (omega arith, (λ e. cc, tt)) (codes "a.b") key key_lower

-- Three lines of a list: a domain, the names below one, and one in upper case.
abbrev lines : List Text
lines = codes "b.c" ∷ codes "*.d.e" ∷ codes "F.G" ∷ []

abbrev config : QueryManipulationConfig
config = record {
  domain_override = some (codes "A.b x" ∷ []);
  domain_block = some lines;
  min_ttl = 10;
}

block_rule_lem_example :
    (prefixes : List Text) × (suffixes : List Text) × (block_rule_try_from toy_cedar_lib toy_regex
        config
      ≡ ok (some (rule_of toy_cedar_lib prefixes (map reverse_string suffixes))))
    × ((d : Text)
        → Memᴰ d suffixes
          ↔ (IsEntryOf toy_regex toy_star lines d × (toy_regex.is_match end_with_star d ≡ false)))
    × ((p : Text)
        → Memᴰ p prefixes ↔ (
            (p ≢ [])
            × IsEntryOf toy_regex toy_star lines (p ++ b'.' ∷ b'*' ∷ [])
            × (toy_regex.is_match end_with_star (p ++ b'.' ∷ b'*' ∷ []) ≡ true)))
block_rule_lem_example = block_rule_lem toy_regex toy_star toy_cedar_lib config lines refl

find_mapping_lem_example :
    (r : DomainOverrideRule) × (override_rule_try_from toy_regex toy_addr config ≡ some r)
    × (r.min_ttl ≡ 10)
    × (find_mapping toy_hickory r key
        ≡ find_target toy_hickory 1
            (line_targets toy_regex toy_addr (codes "a.b") (codes "A.b x" ∷ [])))
find_mapping_lem_example =
    find_mapping_lem toy_regex toy_addr toy_hickory config (codes "A.b x" ∷ []) key (codes "a.b")
      refl key_lower

abbrev pub over : DomainOverrideRule
over = record { inner = (codes "a.b", v4 9 ∷ []) ∷ []; min_ttl = 10 }

build_response_given_ipaddr_panics_example :
    build_response_given_ipaddr toy_hickory (toy_answer 3 60 8) key (v4 9) 10 ≡ panic
build_response_given_ipaddr_panics_example =
    build_response_given_ipaddr_panics toy_hickory (toy_answer 3 60 8) key (v4 9) 10 (codes "a.b.")
      refl refl
