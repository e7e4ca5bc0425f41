-- ===== src/Path/Build.antt =====
-- `DoHPathManager::new` of dap-lib/src/doh_client/path_manage.rs: all paths without a loop.
use doh_auth_proxy.Prelude.{
  ℕ, zero, suc, ◌+◌, max, Bool, true, false, not, Option, none, some, List, [], ◌∷◌, map, length,
  concat,
}
use doh_auth_proxy.Url.{UrlLib, Permutations}
use doh_auth_proxy.Globals.{NextHopRelayConfig, SubseqRelayConfig, ProxyConfig}
use doh_auth_proxy.Path.{
  DohType, standard, oblivious, DohTarget, DohRelay, DohPath, DohPathManager, scheme_or_https,
  prune, is_looped,
}

-- The numbers of a range `from..from + n`.
unfoldable pub range : ℕ → ℕ → List ℕ
range from zero = []
range from (suc n) = from ∷ range (suc from) n

unfoldable pub new_path : DohType → DohTarget → List DohRelay → DohPath
new_path t target relays = record {
  target = target;
  relays = relays;
  is_healthy = true;
  doh_type = t;
}

module _ (U : UrlLib) where
  open U use {Url, authority, path, scheme}

  unfoldable pub target_of : Url → DohTarget
  target_of url = record {
    authority = authority url;
    path = path url;
    scheme = scheme_or_https (scheme url);
  }

  unfoldable pub relay_of : Bool → Url → DohRelay
  relay_of next_hop url = record {
    authority = authority url;
    path = path url;
    scheme = scheme_or_https (scheme url);
    can_be_next_hop = next_hop;
  }

unfoldable pub relays_from : Option (List (List DohRelay)) → DohRelay → List (List DohRelay)
relays_from none nexthop = (nexthop ∷ []) ∷ []
relays_from (some subseq) nexthop = map (λ s. nexthop ∷ s) subseq

module _ (U : UrlLib) (perms : Permutations DohRelay) where
  open perms use {permutations}

  -- The relays that may follow the next hop: permutations of every size in `0..max + 1`.
  unfoldable pub paths_after_nexthop : SubseqRelayConfig U → List (List DohRelay)
  unfolding range relay_of
  paths_after_nexthop v =
      let subseq_relays = map (relay_of U false) v.mid_relay_urls in
      let most = max v.max_mid_relays (length subseq_relays) in
      concat (map (λ num. permutations subseq_relays num) (range 0 (most + 1)))

  unfoldable pub subseq_of : Option (SubseqRelayConfig U) → Option (List (List DohRelay))
  unfolding paths_after_nexthop
  subseq_of none = none
  subseq_of (some v) = some (paths_after_nexthop v)

  unfoldable pub maybe_looped_paths :
      ProxyConfig U → NextHopRelayConfig U → List (List (List DohPath))
  unfolding target_of relay_of new_path relays_from subseq_of
  maybe_looped_paths config nexthop =
      let hops = map (relay_of U true) nexthop.odoh_relay_urls in
      let relay_paths = map (relays_from (subseq_of config.subseq_relay_config)) hops in
      map (λ target. map (λ group. map (new_path oblivious target) group) relay_paths)
        (map (target_of U) config.target_config.doh_target_urls)

  unfoldable pub new_from : ProxyConfig U → Option (NextHopRelayConfig U) → DohPathManager
  unfolding target_of new_path maybe_looped_paths
  new_from config none = record {
    paths =
        map (λ target. (new_path standard target [] ∷ []) ∷ [])
          (map (target_of U) config.target_config.doh_target_urls);
    target_randomization = config.target_config.target_randomization;
    nexthop_randomization = false;
  }
  new_from config (some nexthop) = record {
    paths = prune (λ p. not (is_looped p)) (maybe_looped_paths config nexthop);
    target_randomization = config.target_config.target_randomization;
    nexthop_randomization = nexthop.odoh_relay_randomization;
  }

  -- `DoHPathManager::new`; it has no error.
  unfoldable pub new : ProxyConfig U → DohPathManager
  unfolding new_from
  new config = new_from config config.nexthop_relay_config
