-- ===== src/Path/Urls.antt =====
-- The URLs of paths: the query of an oblivious path, and the standard path.
use native.Mathlib.Numerals.{add-one}
use doh_auth_proxy.Prelude.{
  ℕ, suc, ◌-◌, ◌≡◌, ◌≢◌, refl, sym, ap, fun_ext, subst, true, none, some, List, [], ◌∷◌, ◌++◌,
  arith, Outcome, ok, err, ◌>>=◌, url_error, ok_or, length, take, enumerate_from, All,
}
use doh_auth_proxy.Text.{Text, codes}
use doh_auth_proxy.Url.{UrlLib, Permutations}
use doh_auth_proxy.Globals.{NextHopRelayConfig, ProxyConfig}
use doh_auth_proxy.Path.{
  oblivious, DohTarget, DohRelay, DohPath, scheme_str, show, append_relays, as_url,
}
use doh_auth_proxy.Path.Build.{target_of, relay_of, new_path, new}
use doh_auth_proxy.Path.Loops.{Listed}
use doh_auth_proxy.Path.Laws.{Listed-new_iff, Listed-new-none}

take-enumerate_from {ℓ} :
    {A : Type ℓ} (i : ℕ) (xs : List A)
    → take (length xs) (enumerate_from i xs) ≡ enumerate_from i xs
take-enumerate_from i [] = refl
take-enumerate_from i (x ∷ xs) = ap (◌∷◌ (i, x)) (take-enumerate_from (suc i) xs)

-- The numbered pairs `relayhost[i]`, `relaypath[i]` of the relays, from the number `i` on.
abbrev pub relay_pairs : ℕ → List DohRelay → List (Text × Text)
relay_pairs i [] = []
relay_pairs i (r ∷ rs) =
    (codes "relayhost[" ++ (show i ++ codes "]"), r.authority)
    ∷ (codes "relaypath[" ++ (show i ++ codes "]"), r.path)
    ∷ relay_pairs (suc i) rs

-- The query of an oblivious path: the target, and then the relays behind the next hop from 1 on.
abbrev pub query_pairs : DohTarget → List DohRelay → List (Text × Text)
query_pairs target rest =
    (codes "targethost", target.authority) ∷ (codes "targetpath", target.path) ∷ relay_pairs 1 rest

module _ (U : UrlLib) where
  open U use {Url, parse, set_path, append_pair}

  abbrev pub with_pairs : Url → List (Text × Text) → Url
  with_pairs url [] = url
  with_pairs url ((k, v) ∷ ps) = with_pairs (append_pair url k v) ps

  append_relays_lem :
      (i : ℕ) (url : Url) (rs : List DohRelay)
      → append_relays U url (enumerate_from i rs) ≡ with_pairs url (relay_pairs (suc i) rs)
  unfolding append_relays
  append_relays_lem i url [] = refl
  append_relays_lem i url (r ∷ rs) = rw (append_relays, add-one) (append_relays_lem (suc i) _ rs)

  -- The URL that the specification gives a path behind a next hop.
  abbrev pub url_through : DohTarget → DohRelay → List DohRelay → Outcome Url
  url_through target hop rest =
      ok_or url_error (parse (scheme_str hop.scheme ++ (codes "://" ++ hop.authority))) >>= λ url.
      ok (with_pairs (set_path url hop.path) (query_pairs target rest))

  as_url-new_path :
      (target : DohTarget) (hop : DohRelay) (rest : List DohRelay)
      → hop.can_be_next_hop ≡ true
      → as_url U (new_path oblivious target (hop ∷ rest)) ≡ url_through target hop rest
  unfolding as_url new_path
  as_url-new_path target hop rest e =
      let n : suc (length rest) - 1 ≡ length rest = omega arith in
      rw (e, n, take-enumerate_from 0 rest)
        (ap
          (λ (f : Url → Url).
            ok_or url_error (parse (scheme_str hop.scheme ++ (codes "://" ++ hop.authority)))
            >>= λ url. ok (f url))
          (fun_ext (λ url. append_relays_lem 0 _ rest)))

  relay_of-next_hop : (url : Url) → (relay_of U true url).can_be_next_hop ≡ true
  unfolding relay_of
  relay_of-next_hop url = refl

  module _ (perms : Permutations DohRelay) (config : ProxyConfig U) where
    -- With relays configured, a listed path has the URL of its next hop, with the target and the
    -- other relays as the pairs of its query; it fails only where the next hop's address does not
    -- parse.
    pub as_url-new :
        (nexthop : NextHopRelayConfig U) (p : DohPath)
        → config.nexthop_relay_config ≡ some nexthop
        → Listed p (new U perms config).paths
        → (hop : DohRelay) × (rest : List DohRelay) × (p.relays ≡ hop ∷ rest)
          × (as_url U p ≡ url_through p.target hop rest)
    unfolding new_path
    as_url-new nexthop p e l =
        let (c, _) = (Listed-new_iff U perms config nexthop e p).0 l in
        let hop = relay_of U true c.hop_url in
        (
          hop,
          c.rest,
          ap (λ (q : DohPath). q.relays) c.made,
          subst (λ (q : DohPath). as_url U q ≡ url_through q.target hop c.rest) (sym c.made)
              (as_url-new_path (target_of U c.target_url) hop c.rest (relay_of-next_hop c.hop_url)),
        )

    -- Without relays every listed path is parsed from the target's authority alone, without its
    -- scheme: where a text with no colon is no URL, such a path with no colon in that authority has
    -- no URL.
    pub as_url-new_standard :
        (p : DohPath)
        → ((s : Text) → All (λ c. c ≢ b':') s → parse s ≡ none)
        → config.nexthop_relay_config ≡ none
        → Listed p (new U perms config).paths
        → All (λ c. c ≢ b':') p.target.authority
        → as_url U p ≡ err url_error
    unfolding as_url new_path
    as_url-new_standard p no_base e l plain =
        let (url, _, made) = Listed-new-none U perms config p e l in
        let bad = no_base p.target.authority plain in
        subst (λ (q : DohPath). parse q.target.authority ≡ none → as_url U q ≡ err url_error)
          (sym made) (λ h. rw h) bad
