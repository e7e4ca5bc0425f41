-- ===== src/Legacy/Client/Relays.antt =====
-- `get_randomized_mid_relay_str` of legacy/src/client/doh_client.rs: the relays between the next hop
-- and the target. `shuffle` and `gen_range` are those of the crate rand; the latter gets the two ends
-- of a range that is not empty, since it panics on an empty one.
use doh_auth_proxy.Prelude.{
  ℕ, suc, ◌+◌, ◌<◌, ◌≡◌, refl, Option, none, some, List, [], ◌∷◌, ◌++◌, Outcome, ok, panic, ◌>>=◌,
  if◌then◌else◌, unwrap, leb, length, take, arith,
}
use doh_auth_proxy.Text.{Text, codes}
use doh_auth_proxy.Url.{UrlLib}
use doh_auth_proxy.Path.{show}
use doh_auth_proxy.Legacy.Libs.{UrlText}
use doh_auth_proxy.Legacy.Client.{host_and_port}

module _ (U : UrlLib) (X : UrlText U) where
  -- What the loop appends for a relay.
  unfoldable pub relay_part : ℕ → Text → Outcome Text
  relay_part idx item = do
    rurl ← unwrap (U.parse item)
    rhost_str ← host_and_port U X rurl
    ok (
        codes "&relayhost["
        ++ (show idx
            ++ (codes "]="
                ++ (rhost_str
                    ++ (codes "&relaypath[" ++ (show idx ++ (codes "]=" ++ U.path rurl)))))))

  -- The loop over the relays that are left, with the text so far.
  unfoldable pub append_relays : Text → ℕ → List Text → Outcome Text
  unfolding relay_part
  append_relays mid_relay_str idx [] = ok mid_relay_str
  append_relays mid_relay_str idx (item ∷ rest) =
      relay_part idx item >>= λ part. append_relays (mid_relay_str ++ part) (suc idx) rest

  module _ (shuffle : List Text → List Text) (gen_range : ℕ → ℕ → ℕ) where
    unfoldable pub gen_in : ℕ → ℕ → Outcome ℕ
    gen_in low high = if leb high low then panic else ok (gen_range low high)

    unfoldable pub get_randomized_mid_relay_str : Option (List Text) → ℕ → Outcome (Option Text)
    unfolding append_relays gen_in
    get_randomized_mid_relay_str none max_mid_relays = ok none
    get_randomized_mid_relay_str (some []) max_mid_relays = ok none
    get_randomized_mid_relay_str (some (u ∷ us)) max_mid_relays = do
      let copied = shuffle (u ∷ us)
      num ← gen_in 1 (max_mid_relays + 1)
      s ← append_relays [] 0 (take num copied)
      ok (some s)

    -- Where relays are configured, but none of them may be used, choosing them panics.
    pub get_randomized_mid_relay_str-zero :
        (mid_relay_urls : List Text)
        → 0 < length mid_relay_urls
        → get_randomized_mid_relay_str (some mid_relay_urls) 0 ≡ panic
    unfolding get_randomized_mid_relay_str
    get_randomized_mid_relay_str-zero [] h = absurd (omega arith)
    get_randomized_mid_relay_str-zero (u ∷ us) h = refl
