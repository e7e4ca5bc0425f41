-- ===== src/Legacy/Proxy/Trust.antt =====
-- Which tokens the credential of legacy/src/proxy.rs can hold.
use doh_auth_proxy.Prelude.{
  ℕ, ◌≡◌, refl, sym, subst, ◌⊎◌, inl, inr, Option, none, some, List, Outcome, ok, err, panic,
  Bool-cases, ltb, leb,
}
use doh_auth_proxy.Text.{Text}
use doh_auth_proxy.Url.{UrlLib}
use doh_auth_proxy.Hickory.{Hickory}
use doh_auth_proxy.Dns.{Request}
use doh_auth_proxy.Cache.Linked.{LinkedHashMap}
use doh_auth_proxy.Cache.{CacheObject, Cache}
use doh_auth_proxy.Manipulation.Libs.{CedarLib}
use doh_auth_proxy.Client.Http.{HttpLib, OdohLib}
use doh_auth_proxy.Legacy.Libs.{JsonLib, JwtLib, UrlText, Net}
use doh_auth_proxy.Legacy.Credential.{Credential, login, refresh, id_token_expires_in_secs}
use doh_auth_proxy.Legacy.Credential.Laws.{IsVerified, login-IsRenewed, refresh-IsRenewed}
use doh_auth_proxy.Legacy.Context.{Context, stored, updated_credential, update_credential}
use doh_auth_proxy.Legacy.Client.QueryLaws.{Keeps}
use doh_auth_proxy.Legacy.Proxy.{
  authenticated, authenticate, Turn, goes_on, update_client, counted, refreshed, timed,
  checked_with, checked, logged_in_again, token_turn,
}
use doh_auth_proxy.Legacy.Proxy.Keeps.{update_client-Keeps}

module _ (J : JsonLib) (T : JwtLib) (Seen : ℕ → Type 0) where
  -- No credential, one without a token yet, or one whose token its key verified at a time seen.
  abbrev pub IsTrusted : Option Credential → Type 0
  IsTrusted none = Unit
  IsTrusted (some c) = (c.id_token ≡ none) ⊎ ((t : ℕ) × Seen t × IsVerified J T t c)

  module _ {C : CedarLib} {O : OdohLib} {Conn Cached : Type 0} where
    -- What a turn or a part of one leaves, if anything, has a trusted credential.
    abbrev pub IsTrustedRun : Option (Context C O Conn Cached × Outcome (Unit {0})) → Type 0
    IsTrustedRun none = Unit
    IsTrustedRun (some (context, _)) = IsTrusted context.credential

    abbrev pub IsTrustedTurn : Turn (Context C O Conn Cached) → Type 0
    IsTrustedTurn (goes_on context retry_login) = IsTrusted context.credential
    IsTrustedTurn _ = Unit

  module _ (W : HttpLib) {C : CedarLib} {O : OdohLib} {Conn Cached : Type 0} (N : Net W Conn)
      (now : ℕ) (seen : Seen now) where
    stored-IsTrusted :
        (context : Context C O Conn Cached) (r : Outcome Credential)
        → IsTrusted context.credential
        → ((c : Credential) → r ≡ ok c → IsVerified J T now c)
        → IsTrusted (stored J T W N now context r).0.credential
    unfolding stored
    stored-IsTrusted context (ok c) h verified = inr (now, seen, verified c refl)
    stored-IsTrusted context (err e) h verified = h
    stored-IsTrusted context panic h verified = h

    authenticated-IsTrusted :
        (context : Context C O Conn Cached) (o : Option Credential)
        → IsTrusted context.credential
        → IsTrusted (authenticated J T W N now context o).0.credential
    unfolding authenticated
    authenticated-IsTrusted context none h = h
    authenticated-IsTrusted context (some c) h =
        stored-IsTrusted context (login J T W N now c) h
          (λ c' e. let (_, v, _) = login-IsRenewed J T W N now c c' e in v)

    pub authenticate-IsTrusted :
        (context : Context C O Conn Cached)
        → IsTrusted context.credential
        → IsTrusted (authenticate J T W N now context).0.credential
    unfolding authenticate
    authenticate-IsTrusted context h = authenticated-IsTrusted context context.credential h

    updated_credential-IsTrusted :
        (context : Context C O Conn Cached) (o : Option Credential)
        → IsTrusted context.credential
        → IsTrusted (updated_credential J T W N now context o).0.credential
    unfolding updated_credential
    updated_credential-IsTrusted context none h = h
    updated_credential-IsTrusted context (some c) h =
        stored-IsTrusted context (refresh J T W N now c) h
          (λ c' e. let ((_, v, _), _) = refresh-IsRenewed J T W N now c c' e in v)

    update_credential-IsTrusted :
        (context : Context C O Conn Cached)
        → IsTrusted context.credential
        → IsTrusted (update_credential J T W N now context).0.credential
    unfolding update_credential
    update_credential-IsTrusted context h =
        updated_credential-IsTrusted context context.credential h

module _ (H : Hickory) (U : UrlLib) (X : UrlText U) (W : HttpLib) (C : CedarLib) (O : OdohLib)
    {Conn : Type 0} {dec : Discrete (Request H)} (L : LinkedHashMap (Request H) (CacheObject H) dec)
    (shuffle : List Text → List Text) (gen_range : ℕ → ℕ → ℕ) (draw now : ℕ)
    (a_to_string : H.RData → Option Text) (health_packet : List ℕ) (N : Net W Conn) where
  abbrev Sh : Type 0
  Sh = Context C O Conn (Cache H L)

  module _ (J : JsonLib) (T : JwtLib) (unix_time : ℕ) (Seen : ℕ → Type 0)
      (seen : Seen unix_time) where
    IsTrustedRun-of_Keeps :
        (credential : Option Credential) (r : Option (Sh × Outcome (Unit {0})))
        → Keeps credential r
        → IsTrusted J T Seen credential
        → IsTrustedRun J T Seen r
    IsTrustedRun-of_Keeps credential none k h = tt
    IsTrustedRun-of_Keeps credential (some (context, r)) k h = subst (IsTrusted J T Seen) (sym k) h

    pub update_client-IsTrusted :
        (context : Sh)
        → IsTrusted J T Seen context.credential
        → IsTrustedRun J T Seen (
            update_client H U X W C O L shuffle gen_range draw now a_to_string health_packet N
              context)
    update_client-IsTrusted context h =
        IsTrustedRun-of_Keeps context.credential _
          (update_client-Keeps H U X W C O L shuffle gen_range draw now a_to_string health_packet N
            context)
          h

    counted-IsTrusted :
        (retry_login : ℕ) (r : Option (Sh × Outcome (Unit {0}))) (rest : Sh → Turn Sh)
        → IsTrustedRun J T Seen r
        → ((c : Sh) → IsTrusted J T Seen c.credential → IsTrustedTurn J T Seen (rest c))
        → IsTrustedTurn J T Seen (
            counted H U X W C O L shuffle gen_range draw now a_to_string health_packet N J T
              unix_time retry_login r rest)
    unfolding counted
    counted-IsTrusted n none rest h k = tt
    counted-IsTrusted n (some (context, ok _)) rest h k = k context h
    counted-IsTrusted n (some (context, err e)) rest h k = h
    counted-IsTrusted n (some (context, panic)) rest h k = tt

    refreshed-IsTrusted :
        (n : ℕ) (context : Sh)
        → IsTrusted J T Seen context.credential
        → IsTrustedTurn J T Seen (
            refreshed H U X W C O L shuffle gen_range draw now a_to_string health_packet N J T
              unix_time n context)
    unfolding refreshed
    refreshed-IsTrusted n context h =
        counted-IsTrusted n (some (update_credential J T W N unix_time context)) _
          (update_credential-IsTrusted J T Seen W N unix_time seen context h)
          (λ c k. counted-IsTrusted n _ _ (update_client-IsTrusted c k) (λ c' k'. k'))

    timed-IsTrusted :
        (n : ℕ) (context : Sh) (secs : Outcome ℕ)
        → IsTrusted J T Seen context.credential
        → IsTrustedTurn J T Seen (
            timed H U X W C O L shuffle gen_range draw now a_to_string health_packet N J T unix_time
              n context secs)
    unfolding timed
    timed-IsTrusted n context (ok secs) h = elim (Bool-cases (ltb 600 secs)) [
      | inl b ↦ rw b h
      | inr b ↦ rw b (refreshed-IsTrusted n context h)
    ]
    timed-IsTrusted n context (err e) h = h
    timed-IsTrusted n context panic h = tt

    checked_with-IsTrusted :
        (n : ℕ) (context : Sh) (o : Option Credential)
        → IsTrusted J T Seen context.credential
        → IsTrustedTurn J T Seen (
            checked_with H U X W C O L shuffle gen_range draw now a_to_string health_packet N J T
              unix_time n context o)
    unfolding checked_with
    checked_with-IsTrusted n context none h = tt
    checked_with-IsTrusted n context (some c) h =
        timed-IsTrusted n context (id_token_expires_in_secs J T unix_time c) h

    logged_in_again-IsTrusted :
        (n : ℕ) (context : Sh)
        → IsTrusted J T Seen context.credential
        → IsTrustedTurn J T Seen (
            logged_in_again H U X W C O L shuffle gen_range draw now a_to_string health_packet N J T
              unix_time n context)
    unfolding logged_in_again checked
    logged_in_again-IsTrusted n context h =
        counted-IsTrusted n (some (authenticate J T W N unix_time context)) _
          (authenticate-IsTrusted J T Seen W N unix_time seen context h)
          (λ c k.
            counted-IsTrusted n _ _ (update_client-IsTrusted c k)
              (λ c' k'. checked_with-IsTrusted 0 c' c'.credential k'))

    pub token_turn-IsTrusted :
        (n : ℕ) (context : Sh)
        → IsTrusted J T Seen context.credential
        → IsTrustedTurn J T Seen (
            token_turn H U X W C O L shuffle gen_range draw now a_to_string health_packet N J T
              unix_time n context)
    unfolding token_turn checked
    token_turn-IsTrusted n context h = elim (Bool-cases (leb 5 n)) [
      | inl b ↦ rw b tt
      | inr b ↦ rw b (elim (Bool-cases (ltb 0 n)) [
        | inl b' ↦ rw b' (logged_in_again-IsTrusted n context h)
        | inr b' ↦ rw b' (checked_with-IsTrusted n context context.credential h)
      ])
    ]
