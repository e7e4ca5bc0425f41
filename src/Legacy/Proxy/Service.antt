-- ===== src/Legacy/Proxy/Service.antt =====
-- `token_refresh_service` and `client_refresh_service` of legacy/src/proxy.rs, side by side over the
-- turns that come, and the `entrypoint` that starts them.
use doh_auth_proxy.Prelude.{ℕ, Option, none, some, List, [], ◌∷◌, Outcome, ok, err, panic}
use doh_auth_proxy.Text.{Text}
use doh_auth_proxy.Url.{UrlLib}
use doh_auth_proxy.Hickory.{Hickory}
use doh_auth_proxy.Dns.{Request}
use doh_auth_proxy.Cache.Linked.{LinkedHashMap}
use doh_auth_proxy.Cache.{CacheObject, Cache}
use doh_auth_proxy.Manipulation.Libs.{CedarLib}
use doh_auth_proxy.Client.Http.{HttpLib, OdohLib}
use doh_auth_proxy.Legacy.Libs.{JsonLib, JwtLib, UrlText, Net}
use doh_auth_proxy.Legacy.Credential.{Credential}
use doh_auth_proxy.Legacy.Context.{Context}
use doh_auth_proxy.Legacy.Proxy.{
  Turn, goes_on, exits, returns, waits, panics, token_turn, client_refresh_turn, update_client,
  authenticate,
}

-- What a turn gets: the answers of the servers, the instant, the time in seconds that a token is
-- verified at, and random numbers.
pub record TurnInput (W : HttpLib) (Conn : Type 0) : Type 0 where
  pub net : Net W Conn
  pub now : ℕ
  pub unix_time : ℕ
  pub shuffle : List Text → List Text
  pub gen_range : ℕ → ℕ → ℕ
  pub draw : ℕ

-- The services take their turns in any order.
pub data Event (W : HttpLib) (Conn : Type 0) : Type 0 where
  token_event refresh_event : TurnInput W Conn → Event W Conn

-- Without a credential only the clients are refreshed.
unfoldable pub spawned :
    {W : HttpLib} {Conn : Type 0} → Option Credential → List (Event W Conn) → List (Event W Conn)
spawned (some c) events = events
spawned none [] = []
spawned none (token_event i ∷ events) = spawned none events
spawned none (refresh_event i ∷ events) = refresh_event i ∷ spawned none events

-- The next turn, unless the service has come to an end.
unfoldable pub then_turn : {Ctx : Type 0} → Turn Ctx → (Ctx → ℕ → Turn Ctx) → Turn Ctx
then_turn (goes_on context retry_login) next = next context retry_login
then_turn exits next = exits
then_turn returns next = returns
then_turn waits next = waits
then_turn panics next = panics

module _ {Ctx : Type 0} where
  -- A turn of `client_refresh_service`, beside the count of the other service.
  unfoldable pub refresh_turn : ℕ → Option (Ctx × Outcome (Unit {0})) → Turn Ctx
  refresh_turn retry_login none = waits
  refresh_turn retry_login (some (context, panic)) = panics
  refresh_turn retry_login (some (context, ok _)) = goes_on context retry_login
  refresh_turn retry_login (some (context, err e)) = goes_on context retry_login

  -- An error before the services are started ends the process.
  unfoldable pub or_exit : Option (Ctx × Outcome (Unit {0})) → (Ctx → Turn Ctx) → Turn Ctx
  or_exit none rest = waits
  or_exit (some (context, ok _)) rest = rest context
  or_exit (some (context, err e)) rest = exits
  or_exit (some (context, panic)) rest = panics

module _ (H : Hickory) (U : UrlLib) (X : UrlText U) (W : HttpLib) (C : CedarLib) (O : OdohLib)
    {Conn : Type 0} {dec : Discrete (Request H)} (L : LinkedHashMap (Request H) (CacheObject H) dec)
    (a_to_string : H.RData → Option Text) (health_packet : List ℕ) (J : JsonLib) (T : JwtLib) where
  abbrev pub update_with :
      TurnInput W Conn
      → Context C O Conn (Cache H L)
      → Option (Context C O Conn (Cache H L) × Outcome (Unit {0}))
  update_with i =
      update_client H U X W C O L i.shuffle i.gen_range i.draw i.now a_to_string health_packet i.net

  abbrev pub refresh_with :
      TurnInput W Conn
      → Context C O Conn (Cache H L)
      → Option (Context C O Conn (Cache H L) × Outcome (Unit {0}))
  refresh_with i =
      client_refresh_turn H U X W C O L i.shuffle i.gen_range i.draw i.now a_to_string health_packet
        i.net

  abbrev pub turn_with :
      TurnInput W Conn → ℕ → Context C O Conn (Cache H L) → Turn (Context C O Conn (Cache H L))
  turn_with i =
      token_turn H U X W C O L i.shuffle i.gen_range i.draw i.now a_to_string health_packet i.net J
        T i.unix_time

  -- One turn of one of the services.
  unfoldable pub event_turn :
      Event W Conn → ℕ → Context C O Conn (Cache H L) → Turn (Context C O Conn (Cache H L))
  unfolding refresh_turn
  event_turn (token_event i) retry_login context = turn_with i retry_login context
  event_turn (refresh_event i) retry_login context =
      refresh_turn retry_login (refresh_with i context)

  -- Both loops, with the count of failures so far.
  unfoldable pub services :
      ℕ → Context C O Conn (Cache H L) → List (Event W Conn) → Turn (Context C O Conn (Cache H L))
  unfolding then_turn event_turn
  services retry_login context [] = goes_on context retry_login
  services retry_login context (e ∷ events) =
      then_turn (event_turn e retry_login context) (λ c n. services n c events)

  -- `entrypoint`: a first login and the clients, and then the services.
  unfoldable pub entrypoint :
      TurnInput W Conn
      → Context C O Conn (Cache H L)
      → List (Event W Conn)
      → Turn (Context C O Conn (Cache H L))
  unfolding or_exit services spawned
  entrypoint i context events =
      or_exit (some (authenticate J T W i.net i.unix_time context))
        (λ c. or_exit (update_with i c) (λ c'. services 0 c' (spawned c'.credential events)))
