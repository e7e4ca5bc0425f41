-- ===== src/Legacy/Credential/Laws.antt =====
-- What a login and a refresh of legacy/src/client/credential.rs leave when they succeed.
use doh_auth_proxy.Prelude.{
  ℕ, ◌≡◌, refl, sym, ap, subst, ◌∙◌, true, false, Option, none, some, ◌++◌, ok, err, other,
  >>=-eq-ok, ok_inj, if◌then◌else◌, ok_or, Bool-cases, inl, inr, ◌==◌,
}
use doh_auth_proxy.Text.{Text, codes, text_eq, eq_of_text_eq}
use doh_auth_proxy.Client.Http.{HttpLib}
use doh_auth_proxy.Legacy.Libs.{Response, JsonLib, JwtLib, Net, get_request}
use doh_auth_proxy.Legacy.Credential.{
  Credential, keep_key, pem_in, get_meta_from_id_token, verify_id_token,
  update_validation_key_matched_to_key_id, accept_token, login, refresh, login_request,
  refresh_request, token_field, json_of, ask,
}

-- The account that a credential is for.
abbrev pub SameAccount : Credential → Credential → Type 0
SameAccount c c' =
    (c'.username ≡ c.username)
    × (c'.password ≡ c.password)
    × (c'.client_id ≡ c.client_id)
    × (c'.token_api ≡ c.token_api)

module _ (J : JsonLib) (T : JwtLib) where
  -- At that time the stored key verifies the stored token, for the client and the API of the
  -- credential.
  abbrev pub IsVerified : ℕ → Credential → Type 0
  IsVerified now c = (clm : T.Claims) × (verify_id_token J T now c ≡ ok clm)

  keep_key_lem : (pem : Text) (key : Option Text) → keep_key J T pem key ≡ some pem
  keep_key_lem pem none = refl
  keep_key_lem pem (some p) = elim (Bool-cases (text_eq p pem)) [
    | inl same ↦ rw same (ap some (eq_of_text_eq p pem same))
    | inr changed ↦ rw changed refl
  ]

  module _ (W : HttpLib) {Conn : Type 0} (N : Net W Conn) (now : ℕ) where
    -- The key in what the endpoint of the keys answers for the token of a credential.
    abbrev pub IsServedKey : Credential → Text → Type 0
    IsServedKey c pem =
        (meta : T.Metadata) × (response : Response) × (get_meta_from_id_token J T c ≡ ok meta)
        × (ask J T W N now (c.token_api ++ codes "/jwks") true
              (get_request (c.token_api ++ codes "/jwks"))
            ≡ ok response)
        × (pem_in J T meta response ≡ ok pem)

    -- A credential that has come out of a login or a refresh of another one.
    abbrev pub IsRenewed : Credential → Credential → Type 0
    IsRenewed c c' =
        SameAccount c c'
        × IsVerified now c'
        × ((pem : Text) × (c'.validation_key ≡ some pem) × IsServedKey c' pem)

    accept_token_lem :
        (c c' : Credential)
        → accept_token J T W N now c ≡ ok c'
        → (pem : Text) × (record c { validation_key = some pem } ≡ c')
          × IsVerified now c'
          × IsServedKey c' pem
    unfolding accept_token update_validation_key_matched_to_key_id get_meta_from_id_token
    accept_token_lem c c' e =
        let (meta, em, e1) = >>=-eq-ok (get_meta_from_id_token J T c) _ e in
        let (d, ed, e2) =
          >>=-eq-ok (update_validation_key_matched_to_key_id J T W N now c meta) _ e1 in
        let (clm, ev, e3) = >>=-eq-ok (verify_id_token J T now d) _ e2 in
        let (response, er, e4) =
          >>=-eq-ok (ask J T W N now (c.token_api ++ codes "/jwks") true _) _ ed in
        let (pem, ep, e5) = >>=-eq-ok (pem_in J T meta response) _ e4 in
        let same =
          ap (λ k. record c { validation_key = k }) (sym (keep_key_lem pem c.validation_key))
          ∙ ok_inj e5
          ∙ ok_inj e3 in
        (
          pem,
          same,
          (clm, subst (λ b. verify_id_token J T now b ≡ ok clm) (ok_inj e3) ev),
          subst (λ b. IsServedKey b pem) same (meta, response, em, er, ep),
        )

    IsRenewed-of_accept :
        (c b c' : Credential)
        → SameAccount c b
        → accept_token J T W N now b ≡ ok c'
        → IsRenewed c c'
    IsRenewed-of_accept c b c' account e =
        let (pem, same, verified, served) = accept_token_lem b c' e in
        (
          subst (SameAccount c) same account,
          verified,
          (pem, ap (λ (k : Credential). k.validation_key) (sym same), served),
        )

    -- A login that succeeds gives a credential of the same account with an identifying token that is
    -- verified for it by the key that the endpoint of the keys has just given for that token.
    pub login-IsRenewed : (c c' : Credential) → login J T W N now c ≡ ok c' → IsRenewed c c'
    unfolding login
    login-IsRenewed c c' e =
        let (r, _, e1) =
          >>=-eq-ok (ask J T W N now (c.token_api ++ codes "/tokens") true (login_request c)) _ e in
        let (json, _, e2) = >>=-eq-ok (if r.status == 200 then json_of J T r else err other) _ e1 in
        let (id_token, _, e3) = >>=-eq-ok (ok_or other (token_field J T (codes "id") json)) _ e2 in
        let (token, _, e4) =
          >>=-eq-ok (ok_or other (token_field J T (codes "refresh") json)) _ e3 in
        IsRenewed-of_accept c (record c { id_token = some id_token; refresh_token = some token }) c'
          (refl, refl, refl, refl) e4

    -- A refresh that succeeds does the same, and leaves the refresh token.
    pub refresh-IsRenewed :
        (c c' : Credential)
        → refresh J T W N now c ≡ ok c'
        → IsRenewed c c' × (c'.refresh_token ≡ c.refresh_token)
    unfolding refresh
    refresh-IsRenewed c c' e =
        let (client, _, e1) =
          >>=-eq-ok (N.connect (c.token_api ++ codes "/refresh") none false) _ e in
        let (token, _, e2) = >>=-eq-ok (ok_or other c.refresh_token) _ e1 in
        let (r, _, e3) = >>=-eq-ok (ok_or other (N.send client (refresh_request c token))) _ e2 in
        let (json, _, e4) = >>=-eq-ok (json_of J T r) _ e3 in
        let (id_token, _, e5) = >>=-eq-ok (ok_or other (token_field J T (codes "id") json)) _ e4 in
        let b = record c { id_token = some id_token } in
        let (_, same, _, _) = accept_token_lem b c' e5 in
        (
          IsRenewed-of_accept c b c' (refl, refl, refl, refl) e5,
          ap (λ (k : Credential). k.refresh_token) (sym same),
        )
