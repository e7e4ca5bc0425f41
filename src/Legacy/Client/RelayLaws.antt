-- ===== src/Legacy/Client/RelayLaws.antt =====
-- The relays that legacy/src/client/doh_client.rs puts between the next hop and the target.
use doh_auth_proxy.Prelude.{
  ℕ, zero, suc, ◌+◌, ◌≤◌, ◌<◌, ◌≡◌, refl, sym, ap, ◌∙◌, false, none, some, List, [], ◌∷◌, ◌++◌,
  Memᴰ, Outcome, ok, ◌>>=◌, unwrap, leb, length, take, enumerate_from, arith, traverse, concat,
  append_assoc, append-nil,
}
use doh_auth_proxy.Text.{Text, codes}
use doh_auth_proxy.Url.{UrlLib}
use doh_auth_proxy.Path.{show}
use doh_auth_proxy.Legacy.Libs.{UrlText}
use doh_auth_proxy.Legacy.Client.{host_and_port}
use doh_auth_proxy.Legacy.Client.Relays.{
  relay_part, append_relays, gen_in, get_randomized_mid_relay_str,
}

module _ (U : UrlLib) (X : UrlText U) where
  -- A text that is a URL with a host.
  abbrev pub HasHost : Text → Type 0
  HasHost item =
      (url : U.Url) × (host : Text) × (U.parse item ≡ some url) × (X.host_str url ≡ some host)

  -- The parts for relays that are numbered from an index on.
  abbrev pub relay_parts : ℕ → List Text → Outcome (List Text)
  relay_parts idx rs = traverse (λ (e : ℕ × Text). relay_part U X e.0 e.1) (enumerate_from idx rs)

  host_and_port_lem :
      (url : U.Url) (host : Text)
      → X.host_str url ≡ some host
      → (s : Text) × (host_and_port U X url ≡ ok s)
  unfolding host_and_port
  host_and_port_lem url host e =
      elim (U.port url)
        as (λ o.
          (s : Text) × (elim o [
            | some port ↦ unwrap (X.host_str url) >>= λ h. ok (h ++ (codes ":" ++ show port))
            | none ↦ unwrap (X.host_str url)
          ]
            ≡ ok s)) [
              | none ↦ (host, rw e refl)
              | some p ↦ (host ++ (codes ":" ++ show p), rw e refl)
            ]

  relay_part_lem :
      (idx : ℕ) (item : Text) → HasHost item → (part : Text) × (relay_part U X idx item ≡ ok part)
  unfolding relay_part
  relay_part_lem idx item (url, host, parsed, hosted) =
      let (s, e) = host_and_port_lem url host hosted in
      (
        codes "&relayhost["
            ++ (show idx
                ++ (codes "]="
                    ++ (s ++ (codes "&relaypath[" ++ (show idx ++ (codes "]=" ++ U.path url)))))),
        rw (parsed, e) refl,
      )

  append_relays_lem :
      (acc : Text) (idx : ℕ) (rs : List Text)
      → ((item : Text) → Memᴰ item rs → HasHost item)
      → (parts : List Text) × (relay_parts idx rs ≡ ok parts)
        × (append_relays U X acc idx rs ≡ ok (acc ++ concat parts))
  unfolding append_relays
  append_relays_lem acc idx [] h = ([], refl, ap ok (sym (append-nil acc)))
  append_relays_lem acc idx (item ∷ rs) h =
      let (part, e) = relay_part_lem idx item (h item (Memᴰ.head refl)) in
      let (parts, es, text) =
        append_relays_lem (acc ++ part) (suc idx) rs (λ i m. h i (Memᴰ.tail m)) in
      (part ∷ parts, rw (e, es) refl, rw e (text ∙ ap ok (append_assoc acc part (concat parts))))

  mem_of_mem-take : {x : Text} (n : ℕ) (xs : List Text) → Memᴰ x (take n xs) → Memᴰ x xs
  mem_of_mem-take zero xs m = elim m [ ]
  mem_of_mem-take (suc n) [] m = elim m [ ]
  mem_of_mem-take (suc n) (x ∷ xs) (Memᴰ.head e) = Memᴰ.head e
  mem_of_mem-take (suc n) (x ∷ xs) (Memᴰ.tail m) = Memᴰ.tail (mem_of_mem-take n xs m)

  take_nonempty : (n : ℕ) (xs : List Text) → 0 < n → 0 < length xs → 0 < length (take n xs)
  take_nonempty zero xs h k = absurd (omega arith)
  take_nonempty (suc n) [] h k = absurd (omega arith)
  take_nonempty (suc n) (x ∷ xs) h k = omega arith

  length-take_le : (n : ℕ) (xs : List Text) → length (take n xs) ≤ n
  length-take_le zero xs = omega arith
  length-take_le (suc n) [] = omega arith
  length-take_le (suc n) (x ∷ xs) = omega (arith, length-take_le n xs)

  module _ (shuffle : List Text → List Text) (gen_range : ℕ → ℕ → ℕ)
      (shuffle_mem : (x : Text) (xs : List Text) → Memᴰ x (shuffle xs) → Memᴰ x xs)
      (shuffle_length : (xs : List Text) → length (shuffle xs) ≡ length xs)
      (gen_range_lem : (low high : ℕ)
        → low < high
        → (low ≤ gen_range low high) × (gen_range low high < high)) where
    -- Where the configured relays are URLs with a host and at least one may be used, the result is
    -- the text of at least one of them and of no more than may be used, each numbered by its place.
    pub get_randomized_mid_relay_str_lem :
        (mid_relay_urls : List Text) (max_mid_relays : ℕ)
        → ((item : Text) → Memᴰ item mid_relay_urls → HasHost item)
        → 0 < length mid_relay_urls
        → 0 < max_mid_relays
        → (relays parts : List Text) × ((item : Text) → Memᴰ item relays → Memᴰ item mid_relay_urls)
          × (0 < length relays)
          × (length relays ≤ max_mid_relays)
          × (relay_parts 0 relays ≡ ok parts)
          × (get_randomized_mid_relay_str U X shuffle gen_range (some mid_relay_urls) max_mid_relays
              ≡ ok (some (concat parts)))
    unfolding get_randomized_mid_relay_str gen_in
    get_randomized_mid_relay_str_lem [] most h some_url some_use = absurd (omega arith)
    get_randomized_mid_relay_str_lem (u ∷ us) most h some_url some_use =
        let (low, high) = gen_range_lem 1 (most + 1) (omega arith) in
        let num = gen_range 1 (most + 1) in
        let relays = take num (shuffle (u ∷ us)) in
        let among : (item : Text) → Memᴰ item relays → Memᴰ item (u ∷ us) =
          λ item m. shuffle_mem item (u ∷ us) (mem_of_mem-take num (shuffle (u ∷ us)) m) in
        let len = shuffle_length (u ∷ us) in
        let (parts, es, text) = append_relays_lem [] 0 relays (λ i m. h i (among i m)) in
        let in_range : leb (most + 1) 1 ≡ false = ground arith in
        (
          relays,
          parts,
          among,
          take_nonempty num (shuffle (u ∷ us)) (omega arith) (omega arith),
          (let le = length-take_le num (shuffle (u ∷ us)) in omega arith),
          es,
          rw (in_range, text) refl,
        )
