-- ===== src/Client/OdohLaws.antt =====
-- What an update leaves in the store of ODoH keys.
use doh_auth_proxy.Prelude.{
  ◌≡◌, refl, sym, ap, subst, ◌∙◌, inl, inr, Bool, true, ◌&&◌, Option, none, some, List, [], ◌∷◌,
  Outcome, ok, ◌>>=◌, >>=-eq-ok, ok_inj, arith, traverse, Bool-cases,
}
use doh_auth_proxy.Text.{text_eq, eq_of_text_eq}
use doh_auth_proxy.Url.{UrlLib}
use doh_auth_proxy.Path.{DohTarget, Scheme, http, https, scheme_str}
use doh_auth_proxy.Client.Http.{HttpLib, HttpRequest, HttpResponse, OdohLib}
use doh_auth_proxy.Client.Odoh.{
  OdohConfig, OdohConfigStore, target_eq, find_config, get_config, config_in, config_request,
  update_odoh_config,
}

scheme_eq : (s t : Scheme) → text_eq (scheme_str s) (scheme_str t) ≡ true → s ≡ t
scheme_eq http http e = refl
scheme_eq http https e = cc
scheme_eq https http e = cc
scheme_eq https https e = refl

and_parts : (a b : Bool) → (a && b) ≡ true → (a ≡ true) × (b ≡ true)
and_parts a b h = ground arith

module _ (O : OdohLib) where
  target_eq_sound : (s t : DohTarget) → target_eq O s t ≡ true → s ≡ t
  target_eq_sound s t h =
      let (a, r) = and_parts _ _ h in
      let (b, c) = and_parts _ _ r in
      λ i. record {
        authority = eq_of_text_eq s.authority t.authority a i;
        path = eq_of_text_eq s.path t.path b i;
        scheme = scheme_eq s.scheme t.scheme c i;
      }

  module _ (U : UrlLib) (W : HttpLib) (answer : HttpRequest W → Option HttpResponse) where
    abbrev fetched : DohTarget × Option (OdohConfig O) → Outcome (DohTarget × Option (OdohConfig O))
    fetched e = config_request O U W e.0 >>= λ r. ok (e.0, config_in O e.0 (answer r))

    -- What the entry found under a target becomes.
    abbrev pub renewed :
        DohTarget → HttpRequest W → Option (Option (OdohConfig O)) → Option (Option (OdohConfig O))
    renewed target r none = none
    renewed target r (some old) = some (config_in O target (answer r))

    find_config_lem :
        (l l' : List (DohTarget × Option (OdohConfig O))) (target : DohTarget) (r : HttpRequest W)
        → traverse fetched l ≡ ok l'
        → config_request O U W target ≡ ok r
        → find_config O target l' ≡ renewed target r (find_config O target l)
    find_config_lem [] l' target r e h = ap (find_config O target) (sym (ok_inj e))
    find_config_lem ((t, old) ∷ l) l' target r e h =
        let (y, ey, e1) = >>=-eq-ok (fetched (t, old)) _ e in
        let (ys, eys, e2) = >>=-eq-ok (traverse fetched l) _ e1 in
        let (rt, er, ery) = >>=-eq-ok (config_request O U W t) _ ey in
        let y_is : (t, config_in O t (answer rt)) ≡ y = ok_inj ery in
        let l_is : (t, config_in O t (answer rt)) ∷ ys ≡ l' = (λ i. y_is i ∷ ys) ∙ ok_inj e2 in
        subst (λ k. find_config O target k ≡ renewed target r (find_config O target ((t, old) ∷ l)))
          l_is
          (elim (Bool-cases (target_eq O t target)) [
            | inr differ ↦ rw differ (find_config_lem l ys target r eys h)
            | inl found ↦
                let same = target_eq_sound t target found in
                let one : rt ≡ r = ok_inj (sym er ∙ ap (config_request O U W) same ∙ h) in
                rw found (λ i. some (config_in O (same i) (answer (one i))))
          ])

    -- After an update a target of the store has what its own request was answered with, a
    -- configuration or none, whatever it had before; no other target has come in.
    pub get_config-update :
        (s s' : OdohConfigStore O) (sent : List (HttpRequest W)) (target : DohTarget)
        (r : HttpRequest W)
        → update_odoh_config O U W answer s ≡ ok (sent, s')
        → config_request O U W target ≡ ok r
        → get_config O s' target ≡ renewed target r (get_config O s target)
    unfolding update_odoh_config get_config
    get_config-update s s' sent target r e h =
        let (rs, ers, e1) =
          >>=-eq-ok
            (traverse (λ (x : DohTarget × Option (OdohConfig O)). config_request O U W x.0) s.inner)
            _ e in
        let (l, el, e2) = >>=-eq-ok (traverse fetched s.inner) _ e1 in
        let same : l ≡ s'.inner = ap (λ p. p.1.inner) (ok_inj e2) in
        subst (λ k. find_config O target k ≡ renewed target r (find_config O target s.inner)) same
          (find_config_lem s.inner l target r el h)
