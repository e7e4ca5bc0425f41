-- ===== src/Client/HealthRound.antt =====
-- One round of `healthcheck_service` of dap-lib/src/doh_client/doh_client_healthcheck.rs, up to its
-- sleep. The checks of the paths run at the same time; here they take their turns in the order of
-- the paths.
use doh_auth_proxy.Prelude.{
  ℕ, ◌≡◌, ◌≢◌, refl, sym, ap, subst, ◌∙◌, Bool, true, Option, List, [], ◌∷◌, Outcome, ok, err,
  panic, ◌>>=◌, All, ok_inj, Outcome-cases, inl, inr, ◌⊎◌, DapError,
}
use doh_auth_proxy.Text.{Text, codes}
use doh_auth_proxy.Url.{UrlLib}
use doh_auth_proxy.Hickory.{Hickory}
use doh_auth_proxy.Dns.{Request, encode}
use doh_auth_proxy.Dns.BuildQuery.{QueryLib, build_query_a}
use doh_auth_proxy.Path.{DohPath}
use doh_auth_proxy.Cache.{CacheObject, Cache, purge_expired_entries}
use doh_auth_proxy.Cache.Linked.{LinkedHashMap}
use doh_auth_proxy.Manipulation.Libs.{CedarLib}
use doh_auth_proxy.Client.Http.{HttpLib, HttpRequest, HttpResponse, OdohLib}
use doh_auth_proxy.Client.Exchange.{Net, Run, then_run}
use doh_auth_proxy.Client.Query.{DohClient, make_doh_query_inner}
use doh_auth_proxy.Client.Health.{
  healthcheck, healthcheck_lem, healthcheck_panics, logged, answered_well,
}

module _ (U : UrlLib) (W : HttpLib) (O : OdohLib) where
  -- `map` of a check over a list, one element after another.
  abbrev pub walk :
      {A : Type 0} → (Net U W O → A → Run U W O A) → Net U W O → List A → Run U W O (List A)
  walk check n [] = (n, ok [])
  walk check n (a ∷ l) =
      then_run U W O (check n a)
        (λ n1 a'. then_run U W O (walk check n1 l) (λ n2 l'. (n2, ok (a' ∷ l'))))

  then_run-eq-ok :
      {A B : Type 0} (r : Run U W O A) (f : Net U W O → A → Run U W O B) (b : B)
      → (then_run U W O r f).1 ≡ ok b
      → (a : A) × (r.1 ≡ ok a) × ((f r.0 a).1 ≡ ok b)
  then_run-eq-ok (n, ok a) f b e = (a, refl, e)
  then_run-eq-ok (n, err x) f b e = cc
  then_run-eq-ok (n, panic) f b e = cc

  All-walk :
      {A : Type 0} (P : A → Type 0) (check : Net U W O → A → Run U W O A)
      → ((n : Net U W O) (a a' : A) → (check n a).1 ≡ ok a' → P a')
      → (n : Net U W O) (l l' : List A) → (walk check n l).1 ≡ ok l'
      → All P l'
  All-walk P check h n [] l' e = subst (All P) (ok_inj e) tt
  All-walk P check h n (a ∷ l) l' e =
      let (a', first, more) = then_run-eq-ok (check n a) _ l' e in
      let (rest, walked, same) = then_run-eq-ok (walk check (check n a).0 l) _ l' more in
      subst (All P) (ok_inj same) (h n a a' first, All-walk P check h (check n a).0 l rest walked)

module _ (U : UrlLib) (H : Hickory) (rdata_to_string : H.RData → Text) (C : CedarLib) (W : HttpLib)
    (O : OdohLib) (warn_on debug_on : Bool) where
  after_warning : DohPath → Outcome (Unit {0}) → Outcome DohPath
  after_warning path (ok _) = ok path
  after_warning path (err _) = ok path
  after_warning path panic = panic

  -- What the loop makes of the result of a check: an error is reported, with the URL of the path.
  reported : DohPath × Outcome (Unit {0}) → Outcome DohPath
  unfolding after_warning
  reported (path, ok _) = ok path
  reported (path, err e) =
      after_warning path (logged H rdata_to_string U C W O warn_on debug_on warn_on path)
  reported (path, panic) = panic

  after_warning-eq-ok :
      (path : DohPath) (r : Outcome (Unit {0})) (p : DohPath)
      → after_warning path r ≡ ok p
      → path ≡ p
  unfolding after_warning
  after_warning-eq-ok path (ok _) p e = ok_inj e
  after_warning-eq-ok path (err _) p e = ok_inj e
  after_warning-eq-ok path panic p e = cc

  reported-eq-ok :
      (r : DohPath × Outcome (Unit {0})) (p : DohPath)
      → reported r ≡ ok p
      → (r.0 ≡ p) × (r.1 ≢ panic)
  unfolding reported
  reported-eq-ok (path, ok _) p e = (ok_inj e, λ h. cc)
  reported-eq-ok (path, err x) p e = (after_warning-eq-ok path _ p e, λ h. cc)
  reported-eq-ok (path, panic) p e = cc

  module _ (Q : QueryLib H) (http : HttpRequest W → Option HttpResponse) (c : DohClient U H C W O)
      (random : DohPath → ℕ) where
    -- The packet of a check, with the id that is drawn for it.
    abbrev pub query_packet : DohPath → Outcome (List ℕ)
    query_packet path =
        build_query_a H Q (random path) (codes "dns.google.") >>= λ q_msg. encode H q_msg

    check_with : Net U W O → DohPath → Outcome (List ℕ) → Run U W O DohPath
    unfolding reported
    check_with n path (ok packet_buf) =
        let (n1, r) =
          healthcheck H rdata_to_string U C W O warn_on debug_on http c n packet_buf path in
        (n1, reported r)
    check_with n path (err e) = (n, reported (path, err e))
    check_with n path panic = (n, panic)

    check_path : Net U W O → DohPath → Run U W O DohPath
    unfolding check_with
    check_path n path = check_with n path (query_packet path)

    check_paths : Net U W O → List (List (List DohPath)) → Run U W O (List (List (List DohPath)))
    unfolding check_path
    check_paths = walk U W O (walk U W O (walk U W O check_path))

    -- The query of a check of this path was answered well.
    abbrev pub AnsweredWell : DohPath → Type 0
    AnsweredWell path =
        (n : Net U W O) × (before : DohPath) × (packet_buf : List ℕ) × (path
          ≡ record before { is_healthy = true })
        × (query_packet before ≡ ok packet_buf)
        × (answered_well H rdata_to_string U C W O warn_on debug_on
              (make_doh_query_inner U H C W O http c n packet_buf before).1
            ≡ true)

    abbrev pub IsChecked : DohPath → Type 0
    IsChecked path =
        path.is_healthy ≡ true → AnsweredWell path ⊎ ((e : DapError) × (query_packet path ≡ err e))

    check_path-IsChecked :
        (n : Net U W O) (path path' : DohPath) → (check_path n path).1 ≡ ok path' → IsChecked path'
    unfolding check_path check_with
    check_path-IsChecked n path path' e healthy = elim (Outcome-cases (query_packet path)) [
      | inl (packet_buf, built) ↦
          let (same, fine) = reported-eq-ok _ path' (rw built at e) in
          let flag =
            healthcheck_lem H rdata_to_string U C W O warn_on debug_on http c n packet_buf path
              (λ h. fine (
                healthcheck_panics H rdata_to_string U C W O warn_on debug_on http c n packet_buf
                  path h)) in
          let good =
            sym (ap (λ (p : DohPath). p.is_healthy) flag)
            ∙ ap (λ (p : DohPath). p.is_healthy) same
            ∙ healthy in
          inl (
            n,
            path,
            packet_buf,
            sym same ∙ flag ∙ ap (λ b. record path { is_healthy = b }) good,
            built,
            good,
          )
      | inr (inl (x, failed)) ↦
          let (same, _) = reported-eq-ok (path, err x) path' (rw failed at e) in
          inr (x, subst (λ p. query_packet p ≡ err x) same failed)
      | inr (inr failed) ↦ cc (rw failed at e)
    ]

    module _ {dec : Discrete (Request H)} (L : LinkedHashMap (Request H) (CacheObject H) dec) where
      -- The cache is purged at `now`, every path is checked.
      unfoldable pub healthcheck_round :
          ℕ → Cache H L → Net U W O → Cache H L × Run U W O (List (List (List DohPath)))
      unfolding check_paths
      healthcheck_round now cache n =
          ((purge_expired_entries H L now cache).0, check_paths n c.path_manager.paths)

      -- After a round that does not panic, whatever the flags were before, a path is healthy only if
      -- its query was answered in this round by a message without an error code that has a record
      -- with the expected address, or if no packet could be built for its query.
      pub healthcheck_round_lem :
          (now : ℕ) (cache : Cache H L) (n : Net U W O) (paths : List (List (List DohPath)))
          → (healthcheck_round now cache n).1.1 ≡ ok paths
          → All (All (All IsChecked)) paths
      unfolding healthcheck_round check_paths
      healthcheck_round_lem now cache n paths e =
          All-walk U W O (All (All IsChecked)) (walk U W O (walk U W O check_path))
            (λ n l l' h.
              All-walk U W O (All IsChecked) (walk U W O check_path)
                (λ n l l' h. All-walk U W O IsChecked check_path check_path-IsChecked n l l' h) n l
                l' h)
            n c.path_manager.paths paths e
