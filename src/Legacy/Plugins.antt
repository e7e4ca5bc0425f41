-- ===== src/Legacy/Plugins.antt =====
-- legacy/src/plugins: the rules of a file and how they are executed. Looking a name up in a rule is
-- the same code as in dap-lib/src/doh_client/manipulation, whose models are used here.
use doh_auth_proxy.Prelude.{
  ℕ, ◌≡◌, refl, sym, ◌∙◌, Bool, true, false, not, Option, none, some, List, [], ◌∷◌, ◌++◌, map,
  filter, Outcome, ok, err, panic, ◌>>=◌, if◌then◌else◌, traverse, inl, inr, Option-cases,
  Outcome-cases,
}
use doh_auth_proxy.Text.{Text, to_ascii_lowercase, reverse_string}
use doh_auth_proxy.Globals.{IpAddr, AddrParser}
use doh_auth_proxy.Hickory.{Hickory}
use doh_auth_proxy.Dns.{QueryKey, build_response_nx, build_response_given_ipaddr}
use doh_auth_proxy.Manipulation.Libs.{Regex, CedarLib, end_with_star}
use doh_auth_proxy.Manipulation.Block.{
  DomainBlockRule, rule_of, strip_star, is_entry, chop_star, in_blocklist,
}
use doh_auth_proxy.Manipulation.Override.{
  is_rule_line, split_whitespace, maps_to, push_target, find_mapping,
}
use doh_auth_proxy.Manipulation.Apply.{
  ManipulationResult, Manipulator, apply, apply_override, apply_block, or_else, pass_through,
  synthetic_response, domain_override, domain_block, apply_all,
}

-- `DomainBlockRule::from`.
unfoldable pub block_rule_from : (C : CedarLib) → Regex → List Text → Outcome (DomainBlockRule C)
block_rule_from C R vec_domain_str = do
  stripped ← traverse (strip_star R) vec_domain_str
  let dict = map to_ascii_lowercase (filter (is_entry R) stripped)
  prefix_dict ← traverse chop_star (filter (R.is_match end_with_star) dict)
  let suffix_dict = map reverse_string (filter (λ d. not (R.is_match end_with_star d)) dict)
  ok (rule_of C prefix_dict suffix_dict)

-- A rule without a time to live, which the execution brings along.
abbrev pub OverrideRule : Type 0
OverrideRule = List (Text × List IpAddr)

module _ (R : Regex) (A : AddrParser) where
  add_target : OverrideRule → Text → Option IpAddr → OverrideRule
  add_target hm domain none = hm
  add_target hm domain (some a) = push_target (to_ascii_lowercase domain) a hm

  add_words : OverrideRule → List Text → OverrideRule
  unfolding add_target
  add_words hm (domain ∷ target ∷ []) = add_target hm domain (maps_to R A target)
  add_words hm _ = hm

  add_lines : OverrideRule → List Text → OverrideRule
  unfolding add_words
  add_lines hm [] = hm
  add_lines hm (line ∷ lines) = add_lines (add_words hm (split_whitespace line)) lines

  -- `DomainOverrideRule::from`.
  unfoldable pub override_rule_from : List Text → OverrideRule
  unfolding add_lines
  override_rule_from vec_domain_map_str =
      add_lines [] (filter (is_rule_line R A) vec_domain_map_str)

pub data QueryPluginAction : Type 0 where
  blocked overridden pass : QueryPluginAction

pub record QueryPluginExecutionResult (H : Hickory) : Type 0 where
  pub action : QueryPluginAction
  pub response_msg : Option H.Message

pub data QueryPlugin (C : CedarLib) : Type 0 where
  plugin_domain_block : DomainBlockRule C → QueryPlugin C
  plugin_domain_override : OverrideRule → QueryPlugin C

-- `QueryPluginsApplied::add`.
unfoldable pub add : {C : CedarLib} → List (QueryPlugin C) → QueryPlugin C → List (QueryPlugin C)
add plugins plugin = plugins ++ plugin ∷ []

module _ (H : Hickory) (C : CedarLib) where
  open H use {Message}

  abbrev pub passed : QueryPluginExecutionResult H
  passed = record { action = pass; response_msg = none }

  module _ (dns_msg : Message) (q_key : QueryKey H) (min_ttl : ℕ) where
    -- An error of a rule is only reported, and a rule that blocks does not end the loop.
    after_block :
        QueryPluginExecutionResult H → Outcome Bool → Outcome (QueryPluginExecutionResult H)
    after_block response (ok v) = ok (
        if v
        then record { action = blocked; response_msg = some (build_response_nx H dns_msg) }
        else response)
    after_block response (err e) = ok response
    after_block response panic = panic

    overridden_by : IpAddr → Outcome (QueryPluginExecutionResult H)
    overridden_by mapsto = build_response_given_ipaddr H dns_msg q_key mapsto min_ttl >>= λ m.
        ok (record { action = overridden; response_msg = some m })

    -- The loop of `execute` with the response so far.
    execute_from :
        QueryPluginExecutionResult H → List (QueryPlugin C) → Outcome (QueryPluginExecutionResult H)
    unfolding after_block overridden_by
    execute_from response [] = ok response
    execute_from response (plugin_domain_override override_rule ∷ rest) =
        elim (find_mapping H (record { inner = override_rule; min_ttl = min_ttl }) q_key) [
          | none ↦ execute_from response rest
          | some mapsto ↦ overridden_by mapsto
        ]
    execute_from response (plugin_domain_block block_rule ∷ rest) =
        after_block response (in_blocklist C block_rule q_key) >>= λ r. execute_from r rest

    unfoldable pub execute : List (QueryPlugin C) → Outcome (QueryPluginExecutionResult H)
    unfolding execute_from
    execute plugins = execute_from passed plugins

    -- What the manipulators of the present client make of the same rules.
    abbrev pub as_manipulation :
        Outcome (QueryPluginExecutionResult H) → Outcome (ManipulationResult H)
    as_manipulation r = r >>= λ result. elim result.response_msg [
      | none ↦ ok pass_through
      | some m ↦ ok (synthetic_response m)
    ]

    abbrev mapping : OverrideRule → Option IpAddr
    mapping override_rule =
        find_mapping H (record { inner = override_rule; min_ttl = min_ttl }) q_key

    overridden_lem :
        (m : IpAddr)
        → as_manipulation (overridden_by m) ≡ (
            build_response_given_ipaddr H dns_msg q_key m min_ttl >>= λ r.
            ok (synthetic_response r))
    unfolding overridden_by
    overridden_lem m =
        elim (Outcome-cases (build_response_given_ipaddr H dns_msg q_key m min_ttl)) [
          | inl (r, e) ↦ rw e refl
          | inr (inl (x, e)) ↦ rw e refl
          | inr (inr e) ↦ rw e refl
        ]

    apply_override-none :
        (override_rule : OverrideRule)
        → mapping override_rule ≡ none
        → apply_override H C (record { inner = override_rule; min_ttl = min_ttl }) dns_msg q_key
          ≡ ok pass_through
    unfolding apply_override
    apply_override-none override_rule n = rw (apply_override, n) refl

    apply_override-some :
        (override_rule : OverrideRule) (m : IpAddr)
        → mapping override_rule ≡ some m
        → apply_override H C (record { inner = override_rule; min_ttl = min_ttl }) dns_msg q_key ≡ (
            build_response_given_ipaddr H dns_msg q_key m min_ttl >>= λ r.
            ok (synthetic_response r))
    unfolding apply_override
    apply_override-some override_rule m s = rw (apply_override, s) refl

    apply_block-ok :
        (block_rule : DomainBlockRule C) (in_list : Bool)
        → in_blocklist C block_rule q_key ≡ ok in_list
        → apply_block H C block_rule dns_msg q_key
          ≡ ok (if in_list then synthetic_response (build_response_nx H dns_msg) else pass_through)
    unfolding apply_block
    apply_block-ok block_rule true e = rw e refl
    apply_block-ok block_rule false e = rw e refl

    ends_lem :
        (m : IpAddr) (rest : Outcome (ManipulationResult H))
        → ((build_response_given_ipaddr H dns_msg q_key m min_ttl >>= λ r.
              ok (synthetic_response r))
            >>= λ result. or_else result rest)
          ≡ (build_response_given_ipaddr H dns_msg q_key m min_ttl >>= λ r.
              ok (synthetic_response r))
    ends_lem m rest = elim (Outcome-cases (build_response_given_ipaddr H dns_msg q_key m min_ttl)) [
      | inl (r, e) ↦ rw e refl
      | inr (inl (x, e)) ↦ rw e refl
      | inr (inr e) ↦ rw e refl
    ]

    abbrev old_plugins : DomainBlockRule C → OverrideRule → List (QueryPlugin C)
    old_plugins block_rule override_rule =
        plugin_domain_block block_rule ∷ plugin_domain_override override_rule ∷ []

    abbrev new_manipulators : DomainBlockRule C → OverrideRule → List (Manipulator C)
    new_manipulators block_rule override_rule =
        domain_override (record { inner = override_rule; min_ttl = min_ttl })
        ∷ domain_block block_rule
        ∷ []

    abbrev verdict : Bool → Outcome (ManipulationResult H)
    verdict in_list =
        ok (if in_list then synthetic_response (build_response_nx H dns_msg) else pass_through)

    module _ (block_rule : DomainBlockRule C) (override_rule : OverrideRule) where
      execute-none :
          (in_list : Bool)
          → in_blocklist C block_rule q_key ≡ ok in_list
          → mapping override_rule ≡ none
          → as_manipulation (execute (old_plugins block_rule override_rule)) ≡ verdict in_list
      unfolding execute execute_from after_block
      execute-none true e n = rw (e, n) refl
      execute-none false e n = rw (e, n) refl

      execute-some :
          (in_list : Bool) (m : IpAddr)
          → in_blocklist C block_rule q_key ≡ ok in_list
          → mapping override_rule ≡ some m
          → as_manipulation (execute (old_plugins block_rule override_rule)) ≡ (
              build_response_given_ipaddr H dns_msg q_key m min_ttl >>= λ r.
              ok (synthetic_response r))
      unfolding execute execute_from after_block
      execute-some in_list m e s = rw (e, s) (overridden_lem m)

      apply_all-none :
          (in_list : Bool)
          → in_blocklist C block_rule q_key ≡ ok in_list
          → mapping override_rule ≡ none
          → apply_all H C (new_manipulators block_rule override_rule) dns_msg q_key
            ≡ verdict in_list
      unfolding apply_all apply
      apply_all-none true e n =
          rw (apply_override-none override_rule n, apply_block-ok block_rule true e) refl
      apply_all-none false e n =
          rw (apply_override-none override_rule n, apply_block-ok block_rule false e) refl

      apply_all-some :
          (m : IpAddr)
          → mapping override_rule ≡ some m
          → apply_all H C (new_manipulators block_rule override_rule) dns_msg q_key ≡ (
              build_response_given_ipaddr H dns_msg q_key m min_ttl >>= λ r.
              ok (synthetic_response r))
      unfolding apply_all apply
      apply_all-some m s = rw (apply_override-some override_rule m s) (ends_lem m _)

    -- With a block rule before an override rule, as the old configuration puts them, the old plugins
    -- give the same as the manipulators of the present client, which have the override rule first,
    -- for every query whose name the block rule can look up.
    pub execute-eq-apply_all :
        (block_rule : DomainBlockRule C) (override_rule : OverrideRule) (in_list : Bool)
        → in_blocklist C block_rule q_key ≡ ok in_list
        → as_manipulation
            (execute (plugin_domain_block block_rule ∷ plugin_domain_override override_rule ∷ []))
          ≡ apply_all H C
              (domain_override (record { inner = override_rule; min_ttl = min_ttl })
                ∷ domain_block block_rule
                ∷ [])
              dns_msg
              q_key
    execute-eq-apply_all block_rule override_rule in_list e =
        elim (Option-cases (mapping override_rule)) [
          | inl n ↦
              execute-none block_rule override_rule in_list e n
              ∙ sym (apply_all-none block_rule override_rule in_list e n)
          | inr (m, s) ↦
              execute-some block_rule override_rule in_list m e s
              ∙ sym (apply_all-some block_rule override_rule m s)
        ]
