-- ===== src/Path/Laws.antt =====
-- The manager that `DoHPathManager::new` builds: its paths, its groups, and their URLs.
use doh_auth_proxy.Prelude.{
  ℕ, ◌≡◌, refl, sym, ap, subst, ◌∙◌, ◌↔◌, Bool, true, false, not, Option, none, some, List, [], ◌∷◌,
  Memᴰ, arith, ok, All-map, All-of_mem, mem_of_mem-map, mem-singleton, length,
}
use doh_auth_proxy.Url.{UrlLib, Permutations}
use doh_auth_proxy.Globals.{NextHopRelayConfig, SubseqRelayConfig, ProxyConfig}
use doh_auth_proxy.Path.{standard, DohTarget, DohRelay, DohPath, is_looped, targets}
use doh_auth_proxy.Path.Build.{target_of, new_path, maybe_looped_paths, new_from, new}
use doh_auth_proxy.Path.Loops.{
  Distinct, authorities, is_looped-eq-false_iff, Listed, HasNoEmpty, Listed-prune, prune-HasNoEmpty,
}
use doh_auth_proxy.Path.Complete.{
  MayFollow, IsConfigured, IsConfigured-of_Listed, Listed-of_configured,
}
use doh_auth_proxy.Path.Choose.{targets_lem}

not-eq-true : (b : Bool) → not b ≡ true → b ≡ false
not-eq-true b h = ground arith

module _ (U : UrlLib) (perms : Permutations DohRelay) where
  module _ (config : ProxyConfig U) where
    Listed-new_from :
        (nexthop : NextHopRelayConfig U) (p : DohPath)
        → Listed p (new_from U perms config (some nexthop)).paths
          ↔ (IsConfigured U perms config nexthop p × Distinct (authorities p))
    unfolding new_from
    Listed-new_from nexthop p =
        let pruned =
          Listed-prune (λ q. not (is_looped q)) (maybe_looped_paths U perms config nexthop) in
        (
          (λ l.
              let (listed, loop_free) = pruned.0 l in
              (
                IsConfigured-of_Listed U perms config nexthop p listed,
                (is_looped-eq-false_iff p).0 (not-eq-true _ loop_free),
              )),
          λ (c, d). pruned.1 (
            Listed-of_configured U perms config nexthop p c,
            rw ((is_looped-eq-false_iff p).1 d),
          ),
        )

    -- With relays configured, the manager lists exactly the configured paths (a configured target,
    -- a configured next hop, and behind it any arrangement of any number of relays in the middle)
    -- whose authorities are pairwise different.
    pub Listed-new_iff :
        (nexthop : NextHopRelayConfig U)
        → config.nexthop_relay_config ≡ some nexthop
        → (p : DohPath)
        → Listed p (new U perms config).paths
          ↔ (IsConfigured U perms config nexthop p × Distinct (authorities p))
    unfolding new
    Listed-new_iff nexthop e p =
        subst
          (λ n.
            Listed p (new_from U perms config n).paths
            ↔ (IsConfigured U perms config nexthop p × Distinct (authorities p)))
          (sym e) (Listed-new_from nexthop p)

    Listed-new_from-none :
        (p : DohPath)
        → Listed p (new_from U perms config none).paths
        → (url : U.Url) × Memᴰ url config.target_config.doh_target_urls
          × (p ≡ new_path standard (target_of U url) [])
    unfolding new_from
    Listed-new_from-none p (t, h, mt, mh, mp) =
        let (target, m1, e1) =
          mem_of_mem-map (λ target. (new_path standard target [] ∷ []) ∷ []) _ mt in
        let (url, mu, eu) = mem_of_mem-map (target_of U) _ m1 in
        let e2 = mem-singleton (subst (Memᴰ h) e1 mh) in
        (url, mu, mem-singleton (subst (Memᴰ p) e2 mp) ∙ ap (λ t. new_path standard t []) eu)

    pub Listed-new-none :
        (p : DohPath)
        → config.nexthop_relay_config ≡ none
        → Listed p (new U perms config).paths
        → (url : U.Url) × Memᴰ url config.target_config.doh_target_urls
          × (p ≡ new_path standard (target_of U url) [])
    unfolding new
    Listed-new-none p e l =
        Listed-new_from-none p (subst (λ n. Listed p (new_from U perms config n).paths) e l)

    new_from-HasNoEmpty :
        (n : Option (NextHopRelayConfig U)) → HasNoEmpty (new_from U perms config n).paths
    unfolding new_from
    new_from-HasNoEmpty none = All-map _ _ _ (All-of_mem _ _ (λ t m. (refl, (refl, tt))))
    new_from-HasNoEmpty (some nexthop) = prune-HasNoEmpty _ _

    -- No group of the manager's paths is empty, so `targets` does not panic on it and gives one
    -- target for each group.
    pub targets-new :
        (ts : List DohTarget) × (targets (new U perms config) ≡ ok ts)
        × (length ts ≡ length (new U perms config).paths)
    unfolding new
    targets-new = targets_lem (new U perms config) (new_from-HasNoEmpty config.nexthop_relay_config)

  module _ (config : ProxyConfig U) (nexthop : NextHopRelayConfig U) (v : SubseqRelayConfig U)
      (most : ℕ) (p : DohPath) (e : config.nexthop_relay_config ≡ some nexthop)
      (f : config.subseq_relay_config ≡ some v) where
    abbrev with_most : ProxyConfig U
    with_most = record config { subseq_relay_config = some (record v { max_mid_relays = most }) }

    to_most : IsConfigured U perms config nexthop p → IsConfigured U perms with_most nexthop p
    to_most c = record {
      target_url = c.target_url;
      has_target = c.has_target;
      hop_url = c.hop_url;
      has_hop = c.has_hop;
      rest = c.rest;
      may_follow = subst (λ s. MayFollow U perms s c.rest) f c.may_follow;
      made = c.made;
    }

    of_most : IsConfigured U perms with_most nexthop p → IsConfigured U perms config nexthop p
    of_most c = record {
      target_url = c.target_url;
      has_target = c.has_target;
      hop_url = c.hop_url;
      has_hop = c.has_hop;
      rest = c.rest;
      may_follow = subst (λ s. MayFollow U perms s c.rest) (sym f) c.may_follow;
      made = c.made;
    }

    -- The configured largest number of relays in the middle has no effect: with any other number
    -- the manager lists the same paths.
    pub Listed-new_ignores_max :
        Listed p (new U perms config).paths ↔ Listed p (new U perms with_most).paths
    Listed-new_ignores_max =
        let here = Listed-new_iff config nexthop e p in
        let there = Listed-new_iff with_most nexthop e p in
        (
          λ l. let (c, d) = here.0 l in there.1 (to_most c, d),
          λ l. let (c, d) = there.0 l in here.1 (of_most c, d),
        )
