-- ===== src/HttpClient/Service.antt =====
-- When the service that resolves the endpoints gives up.
use doh_auth_proxy.Prelude.{
  ℕ, zero, suc, ◌+◌, ◌≡◌, ◌↔◌, refl, sym, ap, ◌∙◌, ◌⊎◌, inl, inr, Bool, true, false, ◌&&◌, Option,
  none, some, List, [], ◌∷◌, ◌++◌, map, ok, err, panic, arith, too_many_fails_to_resolve_ips,
  if◌then◌else◌, ltb, All, ◌≢◌, Outcome-cases, subst, Bool-cases, DapError,
}
use doh_auth_proxy.Text.{Text}
use doh_auth_proxy.Url.{UrlLib}
use doh_auth_proxy.HttpClient.{
  ResolveIpResponse, is_err, resolve_ips, ClientBuilderLib, HttpClient, Round, prepared, new_inner,
  update_inner, service_round, primary_round, fallback_round, endpoint_ip_service,
}

-- So many failures, one after another.
abbrev pub failures : ℕ → List Bool
failures zero = []
failures (suc n) = true ∷ failures n

-- The loop on the failures alone: nothing once it gives up.
abbrev counted_run : ℕ → List Bool → Option ℕ
counted_run k [] = some k
counted_run k (false ∷ l) = counted_run 0 l
counted_run k (true ∷ l) = let rest = counted_run (k + 1) l in if ltb 3 (k + 1) then none else rest

abbrev BeginsWith : ℕ → List Bool → Type 0
BeginsWith n l = (post : List Bool) × (l ≡ failures n ++ post)

-- Four failures in a row, somewhere.
abbrev pub FourInRow : List Bool → Type 0
FourInRow l = (pre : List Bool) × (post : List Bool) × (l ≡ pre ++ (failures 4 ++ post))

counted_run_stops :
    (n k : ℕ) (l : List Bool)
    → k + n ≡ 3
    → counted_run k l ≡ none
    → BeginsWith (suc n) l ⊎ FourInRow l
counted_run_stops n k [] h e = cc
counted_run_stops n k (false ∷ l) h e = elim (counted_run_stops 3 0 l refl e) [
  | inl (post, same) ↦ inr (false ∷ [], post, ap (◌∷◌ false) same)
  | inr (pre, post, same) ↦ inr (false ∷ pre, post, ap (◌∷◌ false) same)
]
counted_run_stops zero k (true ∷ l) h e = inl (l, refl)
counted_run_stops (suc n) k (true ∷ l) h e =
    let more : ltb 3 (k + 1) ≡ false = ground arith in
    elim (counted_run_stops n (k + 1) l (omega arith) (rw more at e)) [
      | inl (post, same) ↦ inl (post, ap (◌∷◌ true) same)
      | inr (pre, post, same) ↦ inr (true ∷ pre, post, ap (◌∷◌ true) same)
    ]

counted_run_row : (n k : ℕ) (post : List Bool) → counted_run k (failures 4 ++ post) ≡ none
counted_run_row n k post = ground arith

counted_run_four :
    (k : ℕ) (pre post : List Bool) → counted_run k (pre ++ (failures 4 ++ post)) ≡ none
counted_run_four k [] post = counted_run_row 0 k post
counted_run_four k (false ∷ pre) post = counted_run_four 0 pre post
counted_run_four k (true ∷ pre) post = ground (arith, counted_run_four (k + 1) pre post)

counted_run-eq-none_iff : (l : List Bool) → (counted_run 0 l ≡ none) ↔ FourInRow l
counted_run-eq-none_iff l = (
  λ e. elim (counted_run_stops 3 0 l refl e) [
    | inl (post, same) ↦ ([], post, same)
    | inr four ↦ four
  ],
  λ (pre, post, same). ap (counted_run 0) same ∙ counted_run_four 0 pre post,
)

ok_ne_err : {A : Type 0} {a : A} {e : DapError} → ok a ≡ err e → ⊥
ok_ne_err h = cc

some_ne_none : {A : Type 0} {a : A} → some a ≡ none → ⊥
some_ne_none h = cc

module _ (K : ClientBuilderLib) (U : UrlLib) (version : Text) where
  -- A round in which neither resolver has all addresses.
  abbrev pub round_fails : List U.Url → Round K U → Bool
  round_fails endpoints r =
      is_err (resolve_ips endpoints r.primary) && is_err (resolve_ips endpoints r.fallback)

  abbrev pub HasNoPanic : List U.Url → List (Round K U) → Type 0
  HasNoPanic endpoints =
      All (λ r.
        (resolve_ips endpoints r.primary ≢ panic) × (resolve_ips endpoints r.fallback ≢ panic))

  module _ (builds : (b : K.Builder) → (client : K.Client) × (K.build b ≡ some client)) where
    update_lem :
        (c : HttpClient K U) (ips : List ResolveIpResponse)
        → (c' : HttpClient K U) × (update_inner K U version c ips ≡ ok c')
          × (c'.endpoints ≡ c.endpoints)
    unfolding update_inner new_inner
    update_lem c ips =
        let (client, e) = builds (prepared K U version c.timeout_sec c.default_headers ips) in
        (record c { inner = client }, rw e refl, refl)

    -- One round: the count goes back to 0, or up by one to at most 3, or the service gives up.
    service_round_lem :
        (c : HttpClient K U) (k : ℕ) (r : Round K U)
        → (resolve_ips c.endpoints r.primary ≢ panic)
        → (resolve_ips c.endpoints r.fallback ≢ panic)
        → ((round_fails c.endpoints r ≡ false)
            × ((c' : HttpClient K U) × (service_round K U version c k r ≡ ok (c', 0))
                × (c'.endpoints ≡ c.endpoints)))
          ⊎ ((round_fails c.endpoints r ≡ true)
              × (service_round K U version c k r
                  ≡ (if ltb 3 (k + 1) then err too_many_fails_to_resolve_ips else ok (c, k + 1))))
    unfolding service_round primary_round fallback_round
    service_round_lem c k r np nf = elim (Outcome-cases (resolve_ips c.endpoints r.primary)) [
      | inl (ips, e) ↦
          let (c', u, same) = update_lem c ips in inl (rw e refl, (c', rw (e, u) refl, same))
      | inr (inr e) ↦ absurd (np e)
      | inr (inl (x, e)) ↦ elim (Outcome-cases (resolve_ips c.endpoints r.fallback)) [
        | inl (ips, f) ↦
            let (c', u, same) = update_lem c ips in
            inl (rw (e, f) refl, (c', rw (e, f, u) refl, same))
        | inr (inr f) ↦ absurd (nf f)
        | inr (inl (y, f)) ↦ inr (rw (e, f) refl, rw (e, f) refl)
      ]
    ]

    -- The service on rounds without a panic: it gives up where the count of failures does.
    service_lem :
        (rounds : List (Round K U)) (c : HttpClient K U) (k : ℕ)
        → HasNoPanic c.endpoints rounds
        → ((counted_run k (map (round_fails c.endpoints) rounds) ≡ none)
            × (endpoint_ip_service K U version rounds c k ≡ err too_many_fails_to_resolve_ips))
          ⊎ ((j : ℕ) × (c' : HttpClient K U) × (counted_run k (map (round_fails c.endpoints) rounds)
                ≡ some j)
              × (endpoint_ip_service K U version rounds c k ≡ ok (c', j)))
    unfolding endpoint_ip_service
    service_lem [] c k h = inr (k, c, refl, refl)
    service_lem (r ∷ rounds) c k ((np, nf), h) = elim (service_round_lem c k r np nf) [
      | inl (well, (c', e, same)) ↦
          elim (service_lem rounds c' 0 (subst (λ es. HasNoPanic es rounds) (sym same) h)) [
            | inl (stops, ends) ↦ inl (
              rw well (subst (λ es. counted_run 0 (map (round_fails es) rounds) ≡ none) same stops),
              rw e ends,
            )
            | inr (j, d, goes, ends) ↦ inr (
              j,
              d,
              rw well
                  (subst (λ es. counted_run 0 (map (round_fails es) rounds) ≡ some j) same goes),
              rw e ends,
            )
          ]
      | inr (fails, e) ↦ elim (Bool-cases (ltb 3 (k + 1))) [
        | inl most ↦ inl (rw (fails, most) refl, rw (e, most) refl)
        | inr room ↦ elim (service_lem rounds c (k + 1) h) [
          | inl (stops, ends) ↦ inl (rw (fails, room) stops, rw (e, room) ends)
          | inr (j, d, goes, ends) ↦ inr (j, d, rw (fails, room) goes, rw (e, room) ends)
        ]
      ]
    ]

    -- Where building the inner client succeeds and no resolver panics, the service gives up over
    -- a sequence of rounds exactly if in four of them, one after another, neither resolver has all
    -- addresses; otherwise it goes on after the last one.
    pub endpoint_ip_service_iff :
        (rounds : List (Round K U)) (c : HttpClient K U)
        → HasNoPanic c.endpoints rounds
        → ((endpoint_ip_service K U version rounds c 0 ≡ err too_many_fails_to_resolve_ips)
            ↔ FourInRow (map (round_fails c.endpoints) rounds))
          × ((endpoint_ip_service K U version rounds c 0 ≡ err too_many_fails_to_resolve_ips)
              ⊎ ((s : HttpClient K U × ℕ) × (endpoint_ip_service K U version rounds c 0 ≡ ok s)))
    endpoint_ip_service_iff rounds c h =
        let flags = map (round_fails c.endpoints) rounds in
        elim (service_lem rounds c 0 h) [
          | inl (stops, ends) ↦
              ((λ _. (counted_run-eq-none_iff flags).0 stops, λ _. ends), inl ends)
          | inr (j, d, goes, ends) ↦ (
            (
              λ e. absurd (ok_ne_err (sym ends ∙ e)),
              λ four. absurd (some_ne_none (sym goes ∙ (counted_run-eq-none_iff flags).1 four)),
            ),
            inr ((d, j), ends),
          )
        ]
