-- ===== src/Legacy/Config/Laws.antt =====
-- The relays that the configuration of legacy/src/config/config_parser.rs leaves.
use doh_auth_proxy.Prelude.{
  ℕ, ◌≤◌, ◌<◌, ◌≡◌, refl, subst, ◌⊎◌, inl, inr, Bool, true, false, not, Option, none, some, List,
  [], ◌∷◌, ok, err, panic, ◌>>=◌, other, >>=-eq-ok, ok_inj, Bool-cases, Option-cases, if◌then◌else◌,
  is_empty, all, ltb, length, unwrap, arith,
}
use doh_auth_proxy.Text.{Text}
use doh_auth_proxy.Url.{UrlLib}
use doh_auth_proxy.Manipulation.Libs.{CedarLib}
use doh_auth_proxy.Config.{Anonymization, unwrap_or, verify_target_url}
use doh_auth_proxy.Legacy.Context.{Settings}
use doh_auth_proxy.Legacy.Config.{
  set_mid_relays, set_max_mid_relays, check_mid_relays, set_relays, set_anonymization,
}

module _ (U : UrlLib) (C : CedarLib) where
  -- No relays behind the next hop, or some that are verified, with a number that they suffice for.
  abbrev pub HasEnoughRelays : Settings C → Type 0
  HasEnoughRelays c =
      (c.mid_relay_urls ≡ none)
      ⊎ ((v : List Text) × (c.mid_relay_urls ≡ some v)
          × (0 < length v)
          × (all (verify_target_url U) v ≡ true)
          × (c.max_mid_relays ≤ length v))

  -- Next hops and at least one relay behind them, all verified, without a number for the relays, end
  -- the program in a panic wherever messages of that level are logged.
  pub set_anonymization-panics :
      (anon : Anonymization) (hops v : List Text) (c : Settings C)
      → anon.odoh_relay_urls ≡ some hops
      → all (verify_target_url U) hops ≡ true
      → anon.mid_relay_urls ≡ some v
      → all (verify_target_url U) v ≡ true
      → 0 < length v
      → anon.max_mid_relays ≡ none
      → set_anonymization U C true (some anon) c ≡ panic
  unfolding set_anonymization set_relays set_mid_relays set_max_mid_relays check_mid_relays
  set_anonymization-panics anon hops [] c e1 e2 e3 e4 h e5 = absurd (omega arith)
  set_anonymization-panics anon hops (v ∷ vs) c e1 e2 e3 e4 h e5 =
      let enough : ltb (length (v ∷ vs)) 1 ≡ false = ground arith in
      rw (e1, e2, e3, e4, e5, enough) refl

  abbrev HasRelays : Settings C → Type 0
  HasRelays c =
      (c.mid_relay_urls ≡ none)
      ⊎ ((v : List Text) × (c.mid_relay_urls ≡ some v)
          × (0 < length v)
          × (all (verify_target_url U) v ≡ true))

  set_some_relays :
      (verified : Bool) (v : List Text) (c c1 : Settings C)
      → all (verify_target_url U) v ≡ verified
      → c.mid_relay_urls ≡ none
      → (if not verified
          then err other
          else if is_empty v
          then ok c
          else ok (record c { mid_relay_urls = some v }))
        ≡ ok c1
      → HasRelays c1
  set_some_relays false v c c1 a n e = cc
  set_some_relays true [] c c1 a n e = subst HasRelays (ok_inj e) (inl n)
  set_some_relays true (u ∷ us) c c1 a n e =
      subst HasRelays (ok_inj e) (inr (u ∷ us, refl, omega arith, a))

  set_mid_relays_lem :
      (mid : Option (List Text)) (c c1 : Settings C)
      → c.mid_relay_urls ≡ none
      → set_mid_relays U C mid c ≡ ok c1
      → HasRelays c1
  unfolding set_mid_relays
  set_mid_relays_lem none c c1 n e = subst HasRelays (ok_inj e) (inl n)
  set_mid_relays_lem (some v) c c1 n e =
      set_some_relays (all (verify_target_url U) v) v c c1 refl n e

  set_max_mid_relays_lem :
      (most : Option ℕ) (c : Settings C) → HasRelays c → HasRelays (set_max_mid_relays U C most c)
  unfolding set_max_mid_relays
  set_max_mid_relays_lem (some m) c h = h
  set_max_mid_relays_lem none c h = h

  checked_lem :
      (too_many info_on : Bool) (most : Option ℕ) (c c' : Settings C)
      → (if too_many then err other else if info_on then (unwrap most >>= λ _. ok c) else ok c)
        ≡ ok c'
      → (too_many ≡ false) × (c ≡ c')
  checked_lem true info_on most c c' e = cc
  checked_lem false true none c c' e = cc
  checked_lem false true (some m) c c' e = (refl, ok_inj e)
  checked_lem false false most c c' e = (refl, ok_inj e)

  check_mid_relays_lem :
      (info_on : Bool) (most : Option ℕ) (c c' : Settings C)
      → HasRelays c
      → check_mid_relays U C info_on most c.mid_relay_urls c ≡ ok c'
      → HasEnoughRelays c'
  unfolding check_mid_relays
  check_mid_relays_lem info_on most c c' (inl n) e =
      let e' = subst (λ o. check_mid_relays U C info_on most o c ≡ ok c') n e in
      subst HasEnoughRelays (ok_inj e') (inl n)
  check_mid_relays_lem info_on most c c' (inr (v, s, pos, a)) e =
      let e' = subst (λ o. check_mid_relays U C info_on most o c ≡ ok c') s e in
      let (enough, same) = checked_lem (ltb (length v) c.max_mid_relays) info_on most c c' e' in
      let le : c.max_mid_relays ≤ length v = ground arith in
      subst HasEnoughRelays same (inr (v, s, pos, a, le))

  set_relays_lem :
      (info_on : Bool) (anon : Anonymization) (hops : List Text) (c c' : Settings C)
      → c.mid_relay_urls ≡ none
      → set_relays U C info_on anon hops c ≡ ok c'
      → HasEnoughRelays c'
  unfolding set_relays
  set_relays_lem info_on anon hops c c' n e = elim (Bool-cases (all (verify_target_url U) hops)) [
    | inr bad ↦ cc (rw bad at e)
    | inl good ↦
        let b = record c {
          odoh_relay_urls = some hops;
          odoh_relay_randomization =
              unwrap_or c.odoh_relay_randomization anon.odoh_relay_randomization;
        } in
        let (c1, e1, e2) = >>=-eq-ok (set_mid_relays U C anon.mid_relay_urls b) _ (rw good at e) in
        check_mid_relays_lem info_on anon.max_mid_relays
          (set_max_mid_relays U C anon.max_mid_relays c1) c'
          (set_max_mid_relays_lem anon.max_mid_relays c1
            (set_mid_relays_lem anon.mid_relay_urls b c1 n e1))
          e2
  ]

  -- From settings without relays behind the next hop, whatever section is read and whatever is
  -- logged, settings that come out have no such relays, or some that are verified, and no more of
  -- them may be used than there are.
  pub set_anonymization-HasEnoughRelays :
      (info_on : Bool) (anon : Option Anonymization) (c c' : Settings C)
      → c.mid_relay_urls ≡ none
      → set_anonymization U C info_on anon c ≡ ok c'
      → HasEnoughRelays c'
  unfolding set_anonymization
  set_anonymization-HasEnoughRelays info_on none c c' n e = subst HasEnoughRelays (ok_inj e) (inl n)
  set_anonymization-HasEnoughRelays info_on (some anon) c c' n e =
      elim (Option-cases anon.odoh_relay_urls) [
        | inl none_given ↦ subst HasEnoughRelays (ok_inj (rw none_given at e)) (inl n)
        | inr (hops, s) ↦ set_relays_lem info_on anon hops c c' n (rw s at e)
      ]
