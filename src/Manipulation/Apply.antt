-- ===== src/Manipulation/Apply.antt =====
-- dap-lib/src/doh_client/manipulation/mod.rs, and the `apply` of the two kinds of rules.
use doh_auth_proxy.Prelude.{
  Option, none, some, List, [], ◌∷◌, ◌++◌, Outcome, ok, ◌>>=◌, if◌then◌else◌,
}
use doh_auth_proxy.Globals.{AddrParser, QueryManipulationConfig}
use doh_auth_proxy.Hickory.{Hickory}
use doh_auth_proxy.Dns.{QueryKey, build_response_nx, build_response_given_ipaddr}
use doh_auth_proxy.Manipulation.Libs.{Regex, CedarLib}
use doh_auth_proxy.Manipulation.Block.{DomainBlockRule, in_blocklist, block_rule_try_from}
use doh_auth_proxy.Manipulation.Override.{DomainOverrideRule, find_mapping, override_rule_try_from}

-- `QueryManipulationResult`.
pub data ManipulationResult (H : Hickory) : Type 0 where
  pass_through : ManipulationResult H
  synthetic_response : H.Message → ManipulationResult H

-- The `match` of the loop: go on after a pass-through.
abbrev pub or_else :
    {H : Hickory}
    → ManipulationResult H
    → Outcome (ManipulationResult H)
    → Outcome (ManipulationResult H)
or_else pass_through rest = rest
or_else (synthetic_response m) rest = ok (synthetic_response m)

-- The implementations of the trait `QueryManipulation`.
pub data Manipulator (C : CedarLib) : Type 0 where
  domain_override : DomainOverrideRule → Manipulator C
  domain_block : DomainBlockRule C → Manipulator C

module _ (H : Hickory) (C : CedarLib) where
  open H use {Message}

  unfoldable pub apply_block :
      DomainBlockRule C → Message → QueryKey H → Outcome (ManipulationResult H)
  apply_block rule query_message query_key = do
    blocked ← in_blocklist C rule query_key
    if blocked then ok (synthetic_response (build_response_nx H query_message)) else ok pass_through

  unfoldable pub apply_override :
      DomainOverrideRule → Message → QueryKey H → Outcome (ManipulationResult H)
  apply_override rule query_message query_key = elim (find_mapping H rule query_key) [
    | none ↦ ok pass_through
    | some mapsto ↦ do
      response_msg ← build_response_given_ipaddr H query_message query_key mapsto rule.min_ttl
      ok (synthetic_response response_msg)
  ]

  unfoldable pub apply : Manipulator C → Message → QueryKey H → Outcome (ManipulationResult H)
  unfolding apply_block apply_override
  apply (domain_override rule) = apply_override rule
  apply (domain_block rule) = apply_block rule

  -- `QueryManipulators::apply`: the first synthetic response.
  unfoldable pub apply_all :
      List (Manipulator C) → Message → QueryKey H → Outcome (ManipulationResult H)
  unfolding apply
  apply_all [] query_message query_key = ok pass_through
  apply_all (manipulator ∷ rest) query_message query_key =
      apply manipulator query_message query_key >>= λ result.
      or_else result (apply_all rest query_message query_key)

module _ (C : CedarLib) where
  abbrev push_override : Option DomainOverrideRule → List (Manipulator C)
  push_override none = []
  push_override (some rule) = domain_override rule ∷ []

  abbrev push_block : Option (DomainBlockRule C) → List (Manipulator C)
  push_block none = []
  push_block (some rule) = domain_block rule ∷ []

  -- `QueryManipulators::try_from`.
  unfoldable pub manipulators_try_from :
      Regex → AddrParser → QueryManipulationConfig → Outcome (List (Manipulator C))
  manipulators_try_from R A config = do
    block_rule ← block_rule_try_from C R config
    ok (push_override (override_rule_try_from R A config) ++ push_block block_rule)
