-- ===== src/Config/Laws.antt =====
-- What the conversion of the relays guarantees: it never panics, and a converted configuration has
-- no more intermediate relays than URLs for them.
use doh_auth_proxy.Prelude.{
  ℕ, suc, ◌≤◌, ◌<◌, ◌≡◌, ◌⊎◌, refl, ap, inl, inr, Bool, true, false, Option, none, some, List, [],
  ◌∷◌, Outcome, ok, err, other, arith, all, ltb, length, unwrap, traverse, Bool-cases, Option-cases,
}
use doh_auth_proxy.Text.{Text}
use doh_auth_proxy.Url.{UrlLib}
use doh_auth_proxy.Globals.{ProxyConfig, SubseqRelayConfig, NextHopRelayConfig}
use doh_auth_proxy.Config.{
  Anonymization, unwrap_or, verify_target_url, parse_urls, mid_relays, nexthop_relays,
  set_anonymization,
}

module _ {A B : Type 0} (test : A → Bool) (f : A → Outcome B)
    (safe : (a : A) → test a ≡ true → (b : B) × (f a ≡ ok b)) where
  -- Code that succeeds on each tested element succeeds on a list of them.
  traverse_lem :
      (xs : List A)
      → all test xs ≡ true
      → (ys : List B) × (traverse f xs ≡ ok ys) × (length ys ≡ length xs)
  traverse_lem [] h = ([], refl, refl)
  traverse_lem (x ∷ xs) h = elim (Bool-cases (test x)) [
    | inr bad ↦ cc (rw bad at h)
    | inl good ↦
        let (y, e) = safe x good in
        let (ys, es, same) = traverse_lem xs (rw good at h) in
        (y ∷ ys, rw (e, es) refl, ap suc same)
  ]

module _ (U : UrlLib) where
  parsed : (v : Text) → verify_target_url U v ≡ true → (url : U.Url) × (unwrap (U.parse v) ≡ ok url)
  unfolding verify_target_url
  parsed v h = elim (Option-cases (U.parse v)) [
    | inl e ↦ cc (rw e at h)
    | inr (url, e) ↦ (url, rw e refl)
  ]

  parse_urls_lem :
      (val : List Text)
      → ((all (verify_target_url U) val ≡ false) × (parse_urls U val ≡ err other))
        ⊎ ((all (verify_target_url U) val ≡ true)
            × ((urls : List U.Url) × (parse_urls U val ≡ ok urls)
                × (traverse (λ v. unwrap (U.parse v)) val ≡ ok urls)
                × (length urls ≡ length val)))
  unfolding parse_urls
  parse_urls_lem val = elim (Bool-cases (all (verify_target_url U) val)) [
    | inr bad ↦ inl (bad, rw bad refl)
    | inl all_ok ↦
        let (urls, e, same) =
          traverse_lem (verify_target_url U) (λ v. unwrap (U.parse v)) parsed val all_ok in
        inr (all_ok, (urls, rw (all_ok, e) refl, e, same))
  ]

  -- At least one relay, and no more of them in a path than there are.
  abbrev pub IsBounded : SubseqRelayConfig U → Type 0
  IsBounded v = (0 < length v.mid_relay_urls) × (v.max_mid_relays ≤ length v.mid_relay_urls)

  abbrev pub HasBoundedRelays : Option (SubseqRelayConfig U) → Type 0
  HasBoundedRelays none = Unit
  HasBoundedRelays (some v) = IsBounded v

  mid_relays_lem :
      (val : Option (List Text)) (most : Option ℕ)
      → (mid_relays U val most ≡ err other)
        ⊎ ((s : Option (SubseqRelayConfig U)) × (mid_relays U val most ≡ ok s) × HasBoundedRelays s)
  unfolding mid_relays
  mid_relays_lem none most = inr (none, refl, tt)
  mid_relays_lem (some []) most = inl refl
  mid_relays_lem (some (x ∷ xs)) none = elim (parse_urls_lem (x ∷ xs)) [
    | inl (bad, e) ↦ inl (rw bad refl)
    | inr (good, (urls, e, raw, same)) ↦ inr (
      some (record { mid_relay_urls = urls; max_mid_relays = 1 }),
      rw (good, raw) refl,
      (omega arith, omega arith),
    )
  ]
  mid_relays_lem (some (x ∷ xs)) (some n) = elim (parse_urls_lem (x ∷ xs)) [
    | inl (bad, e) ↦ inl (rw bad refl)
    | inr (good, (urls, e, raw, same)) ↦ elim (Bool-cases (ltb (length (x ∷ xs)) n)) [
      | inl more ↦ inl (rw (good, more) refl)
      | inr fits ↦ inr (
        some (record { mid_relay_urls = urls; max_mid_relays = n }),
        rw (good, fits, raw) refl,
        (omega arith, ground (arith)),
      )
    ]
  ]

  abbrev hop : Anonymization → List U.Url → NextHopRelayConfig U
  hop anon urls = record {
    odoh_relay_urls = urls;
    odoh_relay_randomization = unwrap_or true anon.odoh_relay_randomization;
  }

  -- The configuration with the relays set.
  abbrev with_relays :
      Anonymization → List U.Url → Option (SubseqRelayConfig U) → ProxyConfig U → ProxyConfig U
  with_relays anon urls subseq c = record c {
    nexthop_relay_config = some (hop anon urls);
    subseq_relay_config = elim subseq [ none ↦ c.subseq_relay_config | some v ↦ some v ];
  }

  nexthop_relays_lem :
      (anon : Anonymization) (val : List Text) (c : ProxyConfig U)
      → c.subseq_relay_config ≡ none
      → (nexthop_relays U anon val c ≡ err other)
        ⊎ ((c' : ProxyConfig U) × (nexthop_relays U anon val c ≡ ok c')
            × HasBoundedRelays c'.subseq_relay_config
            × ((c'.subseq_relay_config ≡ none)
                ⊎ ((n : NextHopRelayConfig U) × (c'.nexthop_relay_config ≡ some n))))
  unfolding nexthop_relays
  nexthop_relays_lem anon val c h = elim (parse_urls_lem val) [
    | inl (bad, e) ↦ inl (rw e refl)
    | inr (good, (urls, e, raw, same)) ↦
        elim (mid_relays_lem anon.mid_relay_urls anon.max_mid_relays) [
          | inl fails ↦ inl (rw (e, fails) refl)
          | inr (none, made, b) ↦
              inr (
                with_relays anon urls none c,
                rw (e, made) refl,
                rw h tt,
                inr (hop anon urls, refl),
              )
          | inr (some v, made, b) ↦
              inr
                (with_relays anon urls (some v) c, rw (e, made) refl, b, inr (hop anon urls, refl))
        ]
  ]

  -- Converting the relays of the file does not panic: either it fails, or, from a configuration
  -- without intermediate relays, those of the result are at least one and no fewer than their
  -- maximum number in a path, and where the result has some it has a next hop as well.
  pub set_anonymization_lem :
      (anon : Option Anonymization) (c : ProxyConfig U)
      → c.subseq_relay_config ≡ none
      → (set_anonymization U anon c ≡ err other)
        ⊎ ((c' : ProxyConfig U) × (set_anonymization U anon c ≡ ok c')
            × HasBoundedRelays c'.subseq_relay_config
            × ((c'.subseq_relay_config ≡ none)
                ⊎ ((n : NextHopRelayConfig U) × (c'.nexthop_relay_config ≡ some n))))
  unfolding set_anonymization
  set_anonymization_lem none c h = inr (c, refl, rw h tt, inl h)
  set_anonymization_lem (some anon) c h = elim (Option-cases anon.odoh_relay_urls) [
    | inl e ↦ inr (c, rw e refl, rw h tt, inl h)
    | inr (val, e) ↦ rw e (nexthop_relays_lem anon val c h)
  ]
