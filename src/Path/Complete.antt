-- ===== src/Path/Complete.antt =====
-- Which paths `DoHPathManager::new` lists.
use doh_auth_proxy.Prelude.{
  ℕ, zero, suc, ◌+◌, ◌≤◌, ◌<◌, max, ◌≡◌, refl, sym, ap, subst, ◌∙◌, ◌↔◌, true, false, Option, none,
  some, List, [], ◌∷◌, map, Memᴰ, arith, length, concat, mem-map, mem_of_mem-map, mem-concat,
  mem_of_mem-concat, ℕ_discrete,
}
use doh_auth_proxy.Url.{UrlLib, Pick, here, later, Arrangement, none_left, pick, Permutations}
use doh_auth_proxy.Globals.{NextHopRelayConfig, SubseqRelayConfig, ProxyConfig}
use doh_auth_proxy.Path.{oblivious, DohRelay, DohPath}
use doh_auth_proxy.Path.Build.{
  range, target_of, relay_of, new_path, paths_after_nexthop, relays_from, subseq_of,
  maybe_looped_paths,
}
use doh_auth_proxy.Path.Loops.{Listed}

mem-range : (from n m : ℕ) → from ≤ m → m < from + n → Memᴰ m (range from n)
unfolding range
mem-range from zero m p q = absurd (omega arith)
mem-range from (suc n) m p q = elim (ℕ_discrete m from) [
  | yes e ↦ Memᴰ.head e
  | no ne ↦ Memᴰ.tail (mem-range (suc from) n m (omega arith) (omega arith))
]

length-Pick {ℓ} :
    {A : Type ℓ} {x : A} {xs rest : List A} → Pick x xs rest → length xs ≡ suc (length rest)
length-Pick here = refl
length-Pick (later p) = ap suc (length-Pick p)

Arrangement-le {ℓ} : {A : Type ℓ} {k : ℕ} {xs p : List A} → Arrangement k xs p → k ≤ length xs
Arrangement-le none_left = omega arith
Arrangement-le (pick q a) = omega (arith, length-Pick q, Arrangement-le a)

module _ (U : UrlLib) (perms : Permutations DohRelay) where
  open U use {Url}
  open perms use {permutations, permutations_iff}

  -- The relays that may follow the next hop: without relays in the middle none, and else any
  -- arrangement of any number of them.
  abbrev pub MayFollow : Option (SubseqRelayConfig U) → List DohRelay → Type 0
  MayFollow none rest = rest ≡ []
  MayFollow (some v) rest = (k : ℕ) × Arrangement k (map (relay_of U false) v.mid_relay_urls) rest

  mem-paths_after_nexthop :
      (v : SubseqRelayConfig U) (rest : List DohRelay)
      → Memᴰ rest (paths_after_nexthop U perms v) ↔ MayFollow (some v) rest
  unfolding paths_after_nexthop
  mem-paths_after_nexthop v rest = (to, from)
    where
      mids : List DohRelay
      mids = map (relay_of U false) v.mid_relay_urls

      most : ℕ
      most = max v.max_mid_relays (length mids)

      to :
          Memᴰ rest (concat (map (λ num. permutations mids num) (range 0 (most + 1))))
          → (k : ℕ) × Arrangement k mids rest
      to m =
          let (xs, mx, mr) = mem_of_mem-concat _ m in
          let (k, _, e) = mem_of_mem-map (λ num. permutations mids num) _ mx in
          (k, (permutations_iff mids k rest).0 (subst (Memᴰ rest) e mr))

      from :
          (k : ℕ) × Arrangement k mids rest
          → Memᴰ rest (concat (map (λ num. permutations mids num) (range 0 (most + 1))))
      from (k, a) =
          mem-concat _
            (mem-map (λ num. permutations mids num) _
              (mem-range 0 (most + 1) k (omega arith) (omega (arith, Arrangement-le a))))
            ((permutations_iff mids k rest).1 a)

  mem-relays_from :
      (s : Option (SubseqRelayConfig U)) (hop : DohRelay) (relays : List DohRelay)
      → Memᴰ relays (relays_from (subseq_of U perms s) hop)
        ↔ ((rest : List DohRelay) × (relays ≡ hop ∷ rest) × MayFollow s rest)
  unfolding relays_from subseq_of
  mem-relays_from none hop relays = (to, λ (rest, e, n). Memᴰ.head (e ∙ ap (◌∷◌ hop) n))
    where
      to :
          Memᴰ relays ((hop ∷ []) ∷ [])
          → (rest : List DohRelay) × (relays ≡ hop ∷ rest) × (rest ≡ [])
      to (Memᴰ.head e) = ([], e, refl)
      to (Memᴰ.tail m) = elim m [ ]
  mem-relays_from (some v) hop relays = (
    (λ m.
        let (rest, k, e) = mem_of_mem-map (λ s. hop ∷ s) _ m in
        (rest, e, (mem-paths_after_nexthop v rest).0 k)),
    λ (rest, e, f).
        subst (λ r. Memᴰ r (map (λ s. hop ∷ s) (paths_after_nexthop U perms v))) (sym e)
          (mem-map (λ s. hop ∷ s) _ ((mem-paths_after_nexthop v rest).1 f)),
  )

  -- A path that the configuration describes: a configured target behind a configured next hop
  -- and relays that may follow it.
  pub record IsConfigured (config : ProxyConfig U) (nexthop : NextHopRelayConfig U) (p : DohPath)
      : Type 0 where
    pub target_url : U.Url
    pub has_target : Memᴰ target_url config.target_config.doh_target_urls
    pub hop_url : U.Url
    pub has_hop : Memᴰ hop_url nexthop.odoh_relay_urls
    pub rest : List DohRelay
    pub may_follow : MayFollow config.subseq_relay_config rest
    pub made : p ≡ new_path oblivious (target_of U target_url) (relay_of U true hop_url ∷ rest)

  module _ (config : ProxyConfig U) (nexthop : NextHopRelayConfig U) (p : DohPath) where
    pub IsConfigured-of_Listed :
        Listed p (maybe_looped_paths U perms config nexthop) → IsConfigured config nexthop p
    unfolding maybe_looped_paths
    IsConfigured-of_Listed (t, h, mt, mh, mp) =
        let (target, m1, e1) = mem_of_mem-map _ _ mt in
        let (url, mu, eu) = mem_of_mem-map (target_of U) _ m1 in
        let (group, m2, e2) = mem_of_mem-map _ _ (subst (Memᴰ h) e1 mh) in
        let (hop, m3, e3) = mem_of_mem-map _ _ m2 in
        let (hop_url, m4, e4) = mem_of_mem-map (relay_of U true) _ m3 in
        let (relays, m5, e5) = mem_of_mem-map _ _ (subst (Memᴰ p) e2 mp) in
        let (rest, e6, follow) =
          (mem-relays_from config.subseq_relay_config hop relays).0 (subst (Memᴰ relays) e3 m5) in
        record {
          target_url = url;
          has_target = mu;
          hop_url = hop_url;
          has_hop = m4;
          rest = rest;
          may_follow = follow;
          made = e5 ∙ cc;
        }

    pub Listed-of_configured :
        IsConfigured config nexthop p → Listed p (maybe_looped_paths U perms config nexthop)
    unfolding maybe_looped_paths
    Listed-of_configured c = (
      _,
      _,
      mem-map _ _ (mem-map (target_of U) _ c.has_target),
      mem-map _ _ (mem-map _ _ (mem-map (relay_of U true) _ c.has_hop)),
      subst
          (λ q. Memᴰ q (
            map (new_path oblivious (target_of U c.target_url)) (
              relays_from (subseq_of U perms config.subseq_relay_config)
                (relay_of U true c.hop_url))))
          (sym c.made)
          (mem-map (new_path oblivious (target_of U c.target_url)) _ (
            (mem-relays_from config.subseq_relay_config (relay_of U true c.hop_url) _).1
              (c.rest, refl, c.may_follow))),
    )
