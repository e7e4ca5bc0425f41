-- ===== src/Legacy/Proxy/ServiceLaws.antt =====
-- What the services of legacy/src/proxy.rs keep and when they end.
use doh_auth_proxy.Prelude.{
  Memᴰ, ◌⊎◌, inr, ℕ, ◌≡◌, refl, sym, subst, Option, none, some, List, [], ◌∷◌, Outcome, ok, err,
  panic, inl,
}
use doh_auth_proxy.Text.{Text}
use doh_auth_proxy.Url.{UrlLib}
use doh_auth_proxy.Hickory.{Hickory}
use doh_auth_proxy.Dns.{Request}
use doh_auth_proxy.Cache.Linked.{LinkedHashMap}
use doh_auth_proxy.Cache.{CacheObject, Cache}
use doh_auth_proxy.Manipulation.Libs.{CedarLib}
use doh_auth_proxy.Client.Http.{HttpLib, OdohLib}
use doh_auth_proxy.Legacy.Libs.{JsonLib, JwtLib, UrlText}
use doh_auth_proxy.Legacy.Credential
use doh_auth_proxy.Legacy.Credential.{Credential, login}
use doh_auth_proxy.Legacy.Context.{Context}
use doh_auth_proxy.Legacy.Proxy.{
  Turn, goes_on, exits, returns, waits, panics, then_purge, client_refresh_turn, authenticate,
}
use doh_auth_proxy.Legacy.Proxy.Service.{
  TurnInput, Event, token_event, refresh_event, then_turn, refresh_turn, or_exit, spawned,
  event_turn, services, entrypoint, update_with, refresh_with,
}
use doh_auth_proxy.Legacy.Proxy.Trust.{
  IsTrusted, IsTrustedRun, IsTrustedTurn, authenticate-IsTrusted, update_client-IsTrusted,
  token_turn-IsTrusted,
}

abbrev pub time_of : {W : HttpLib} {Conn : Type 0} → Event W Conn → ℕ
time_of (token_event i) = i.unix_time
time_of (refresh_event i) = i.unix_time

spawned-Mem :
    {W : HttpLib} {Conn : Type 0} (o : Option Credential) (events : List (Event W Conn))
    (e : Event W Conn)
    → Memᴰ e (spawned o events)
    → Memᴰ e events
unfolding spawned
spawned-Mem (some c) events e m = m
spawned-Mem none [] e m = elim m [ ]
spawned-Mem none (token_event i ∷ events) e m = Memᴰ.tail (spawned-Mem none events e m)
spawned-Mem none (refresh_event i ∷ events) e (Memᴰ.head q) = Memᴰ.head q
spawned-Mem none (refresh_event i ∷ events) e (Memᴰ.tail m) =
    Memᴰ.tail (spawned-Mem none events e m)

module _ (J : JsonLib) (T : JwtLib) (Seen : ℕ → Type 0) {C : CedarLib} {O : OdohLib}
    {Conn Cached : Type 0} where
  refresh_turn-IsTrusted :
      (n : ℕ) (r : Option (Context C O Conn Cached × Outcome (Unit {0})))
      → IsTrustedRun J T Seen r
      → IsTrustedTurn J T Seen (refresh_turn n r)
  unfolding refresh_turn
  refresh_turn-IsTrusted n none h = tt
  refresh_turn-IsTrusted n (some (context, ok _)) h = h
  refresh_turn-IsTrusted n (some (context, err e)) h = h
  refresh_turn-IsTrusted n (some (context, panic)) h = tt

  then_turn-IsTrusted :
      (t : Turn (Context C O Conn Cached))
      (next : Context C O Conn Cached → ℕ → Turn (Context C O Conn Cached))
      → IsTrustedTurn J T Seen t
      → ((c : Context C O Conn Cached) (n : ℕ)
          → IsTrusted J T Seen c.credential
          → IsTrustedTurn J T Seen (next c n))
      → IsTrustedTurn J T Seen (then_turn t next)
  unfolding then_turn
  then_turn-IsTrusted (goes_on context n) next h k = k context n h
  then_turn-IsTrusted exits next h k = tt
  then_turn-IsTrusted returns next h k = tt
  then_turn-IsTrusted waits next h k = tt
  then_turn-IsTrusted panics next h k = tt

  or_exit-IsTrusted :
      (r : Option (Context C O Conn Cached × Outcome (Unit {0})))
      (rest : Context C O Conn Cached → Turn (Context C O Conn Cached))
      → IsTrustedRun J T Seen r
      → ((c : Context C O Conn Cached)
          → IsTrusted J T Seen c.credential
          → IsTrustedTurn J T Seen (rest c))
      → IsTrustedTurn J T Seen (or_exit r rest)
  unfolding or_exit
  or_exit-IsTrusted none rest h k = tt
  or_exit-IsTrusted (some (context, ok _)) rest h k = k context h
  or_exit-IsTrusted (some (context, err e)) rest h k = tt
  or_exit-IsTrusted (some (context, panic)) rest h k = tt

module _ (H : Hickory) (U : UrlLib) (X : UrlText U) (W : HttpLib) (C : CedarLib) (O : OdohLib)
    {Conn : Type 0} {dec : Discrete (Request H)} (L : LinkedHashMap (Request H) (CacheObject H) dec)
    (a_to_string : H.RData → Option Text) (health_packet : List ℕ) (J : JsonLib) (T : JwtLib)
    (Seen : ℕ → Type 0) where
  then_purge-IsTrusted :
      (i : TurnInput W Conn) (r : Option (Context C O Conn (Cache H L) × Outcome (Unit {0})))
      → IsTrustedRun J T Seen r
      → IsTrustedRun J T Seen (
          then_purge H U X W C O L i.shuffle i.gen_range i.draw i.now a_to_string health_packet
            i.net r)
  unfolding then_purge
  then_purge-IsTrusted i none h = tt
  then_purge-IsTrusted i (some (context, ok _)) h = h
  then_purge-IsTrusted i (some (context, err e)) h = h
  then_purge-IsTrusted i (some (context, panic)) h = h

  refresh_with-IsTrusted :
      (i : TurnInput W Conn) (context : Context C O Conn (Cache H L))
      → Seen i.unix_time
      → IsTrusted J T Seen context.credential
      → IsTrustedRun J T Seen (refresh_with H U X W C O L a_to_string health_packet J T i context)
  unfolding client_refresh_turn
  refresh_with-IsTrusted i context s h =
      then_purge-IsTrusted i (update_with H U X W C O L a_to_string health_packet J T i context) (
        update_client-IsTrusted H U X W C O L i.shuffle i.gen_range i.draw i.now a_to_string
          health_packet i.net J T i.unix_time Seen s context h)

  event_turn-IsTrusted :
      (e : Event W Conn) (n : ℕ) (context : Context C O Conn (Cache H L))
      → Seen (time_of e)
      → IsTrusted J T Seen context.credential
      → IsTrustedTurn J T Seen (event_turn H U X W C O L a_to_string health_packet J T e n context)
  unfolding event_turn
  event_turn-IsTrusted (token_event i) n context s h =
      token_turn-IsTrusted H U X W C O L i.shuffle i.gen_range i.draw i.now a_to_string
        health_packet i.net J T i.unix_time Seen s n context h
  event_turn-IsTrusted (refresh_event i) n context s h =
      refresh_turn-IsTrusted J T Seen n _ (refresh_with-IsTrusted i context s h)

  services-IsTrusted :
      (events : List (Event W Conn)) (n : ℕ) (context : Context C O Conn (Cache H L))
      → ((e : Event W Conn) → Memᴰ e events → Seen (time_of e))
      → IsTrusted J T Seen context.credential
      → IsTrustedTurn J T Seen
          (services H U X W C O L a_to_string health_packet J T n context events)
  unfolding services
  services-IsTrusted [] n context s h = h
  services-IsTrusted (e ∷ events) n context s h =
      then_turn-IsTrusted J T Seen _ _ (event_turn-IsTrusted e n context (s e (Memᴰ.head refl)) h)
        (λ c n' k. services-IsTrusted events n' c (λ e' m. s e' (Memᴰ.tail m)) k)

module _ (H : Hickory) (U : UrlLib) (X : UrlText U) (W : HttpLib) (C : CedarLib) (O : OdohLib)
    {Conn : Type 0} {dec : Discrete (Request H)} (L : LinkedHashMap (Request H) (CacheObject H) dec)
    (a_to_string : H.RData → Option Text) (health_packet : List ℕ) (J : JsonLib) (T : JwtLib) where
  -- The time of the start, or that of a turn.
  abbrev pub IsTimeOf : TurnInput W Conn → List (Event W Conn) → ℕ → Type 0
  IsTimeOf i events t = (t ≡ i.unix_time) ⊎ ((e : Event W Conn) × Memᴰ e events × (t ≡ time_of e))

  -- Whatever the servers answer and however the turns of the services alternate, a context that
  -- starts without a token has, after any number of turns, no token, or a token that its key has
  -- verified for the client and the API of its credential at the time of the start or of a turn.
  pub entrypoint-IsTrusted :
      (i : TurnInput W Conn) (context : Context C O Conn (Cache H L))
      (username password client_id token_api : Text) (events : List (Event W Conn))
      → context.credential ≡ some (Credential.new username password client_id token_api)
      → IsTrustedTurn J T
          (IsTimeOf i events)
          (entrypoint H U X W C O L a_to_string health_packet J T i context events)
  unfolding entrypoint Credential.new
  entrypoint-IsTrusted i context username password client_id token_api events e =
      let Seen = IsTimeOf i events in
      or_exit-IsTrusted J T Seen (some (authenticate J T W i.net i.unix_time context)) _
        (authenticate-IsTrusted J T Seen W i.net i.unix_time (inl refl) context
          (subst (IsTrusted J T Seen) (sym e) (inl refl)))
        (λ c h.
          or_exit-IsTrusted J T Seen (update_with H U X W C O L a_to_string health_packet J T i c) _
            (update_client-IsTrusted H U X W C O L i.shuffle i.gen_range i.draw i.now a_to_string
              health_packet i.net J T i.unix_time Seen (inl refl) c h)
            (λ c' h'.
              services-IsTrusted H U X W C O L a_to_string health_packet J T Seen
                (spawned c'.credential events) 0 c'
                (λ x m. inr (x, spawned-Mem c'.credential events x m, refl)) h'))
