-- ===== src/Legacy/Proxy/Failures.antt =====
-- When the token service of legacy/src/proxy.rs gives up.
use doh_auth_proxy.Prelude.{
  ℕ, suc, ◌+◌, ◌≤◌, ◌<◌, ◌≡◌, refl, sym, ap, ◌∙◌, true, false, Option, some, List, [], ◌∷◌, ◌++◌,
  map, length, err, DapError, leb, ltb, arith, All, if◌then◌else◌,
}
use native.Mathlib.Decide.{dec_lt}
use doh_auth_proxy.Text.{Text}
use doh_auth_proxy.Url.{UrlLib}
use doh_auth_proxy.Hickory.{Hickory}
use doh_auth_proxy.Dns.{Request}
use doh_auth_proxy.Cache.Linked.{LinkedHashMap}
use doh_auth_proxy.Cache.{CacheObject, Cache}
use doh_auth_proxy.Manipulation.Libs.{CedarLib}
use doh_auth_proxy.Client.Http.{HttpLib, OdohLib}
use doh_auth_proxy.Legacy.Libs.{JsonLib, JwtLib, UrlText}
use doh_auth_proxy.Legacy.Credential.{Credential, login}
use doh_auth_proxy.Legacy.Context.{Context, stored}
use doh_auth_proxy.Legacy.Proxy.{
  Turn, goes_on, exits, authenticate, authenticated, token_turn, logged_in_again, counted,
}
use doh_auth_proxy.Legacy.Proxy.Service.{
  TurnInput, Event, token_event, then_turn, event_turn, services,
}

module _ (H : Hickory) (U : UrlLib) (X : UrlText U) (W : HttpLib) (C : CedarLib) (O : OdohLib)
    {Conn : Type 0} {dec : Discrete (Request H)} (L : LinkedHashMap (Request H) (CacheObject H) dec)
    (a_to_string : H.RData → Option Text) (health_packet : List ℕ) (J : JsonLib) (T : JwtLib)
    (context : Context C O Conn (Cache H L)) (c : Credential)
    (set : context.credential ≡ some c) where
  -- A login with the credential that fails.
  abbrev pub FailsToLogin : TurnInput W Conn → Type 0
  FailsToLogin i = (e : DapError) × (login J T W i.net i.unix_time c ≡ err e)

  authenticate-err :
      (i : TurnInput W Conn) (e : DapError)
      → login J T W i.net i.unix_time c ≡ err e
      → authenticate J T W i.net i.unix_time context ≡ (context, err e)
  unfolding authenticate authenticated stored
  authenticate-err i e h = rw (set, h) refl

  turn_fails :
      (i : TurnInput W Conn) (n : ℕ)
      → FailsToLogin i
      → 0 < n
      → n < 5
      → event_turn H U X W C O L a_to_string health_packet J T (token_event i) n context
        ≡ goes_on context (n + 1)
  unfolding event_turn token_turn logged_in_again counted
  turn_fails i n (e, h) pos low =
      let go : leb 5 n ≡ false = ground arith in
      let again : ltb 0 n ≡ true = ground arith in rw (go, again, authenticate-err i e h) refl

  turn_exits :
      (i : TurnInput W Conn) (n : ℕ)
      → 5 ≤ n
      → event_turn H U X W C O L a_to_string health_packet J T (token_event i) n context ≡ exits
  unfolding event_turn token_turn
  turn_exits i n high = let stop : leb 5 n ≡ true = ground arith in rw stop refl

  -- The services from a count of failures, which may be above five.
  abbrev pub from_count : ℕ → List (Event W Conn) → Turn (Context C O Conn (Cache H L))
  from_count n events =
      if ltb 5 n
      then exits
      else services H U X W C O L a_to_string health_packet J T n context events

  from_count-low :
      (n : ℕ) (events : List (Event W Conn))
      → n ≤ 5
      → from_count n events ≡ services H U X W C O L a_to_string health_packet J T n context events
  from_count-low n events low = let below : ltb 5 n ≡ false = ground arith in rw below refl

  from_count-high : (n : ℕ) (events : List (Event W Conn)) → 5 < n → from_count n events ≡ exits
  from_count-high n events high = let above : ltb 5 n ≡ true = ground arith in rw above refl

  -- With a credential, from a count of one to five failures, turns of the token service in a row, in
  -- each of which a new login fails with an error, change nothing but the count, by one each, and
  -- then come the turns that follow; but where that makes more than five, the process ends, whatever
  -- turns would follow.
  pub services_fail :
      (inputs : List (TurnInput W Conn)) (rest : List (Event W Conn)) (n : ℕ)
      → All FailsToLogin inputs
      → 0 < n
      → n ≤ 5
      → services H U X W C O L a_to_string health_packet J T n context
          (map token_event inputs ++ rest)
        ≡ from_count (n + length inputs) rest
  unfolding services then_turn
  services_fail [] rest n h pos low =
      let same : n ≡ n + 0 = omega arith in
      ap (λ k. services H U X W C O L a_to_string health_packet J T k context rest) same
      ∙ sym (from_count-low (n + 0) rest (omega arith))
  services_fail (i ∷ inputs) rest n (f, h) pos low =
      let next = λ (c : Context C O Conn (Cache H L)) (k : ℕ).
        services H U X W C O L a_to_string health_packet J T k c (map token_event inputs ++ rest) in
      elim (dec_lt n 5) [
        | yes l ↦
            let same : n + 1 + length inputs ≡ n + suc (length inputs) = omega arith in
            ap (λ t. then_turn t next) (turn_fails i n f pos l)
            ∙ services_fail inputs rest (n + 1) h (omega arith) (omega arith)
            ∙ ap (λ k. from_count k rest) same
        | no g ↦
            ap (λ t. then_turn t next) (turn_exits i n (omega arith))
            ∙ sym (from_count-high (n + suc (length inputs)) rest (omega arith))
      ]
