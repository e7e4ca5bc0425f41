-- ===== src/Legacy/Proxy.antt =====
-- legacy/src/proxy.rs: the login, the renewal of the clients and the two services that repeat them.
-- What the servers answer while a turn of a service lasts is a `Net`; a result is nothing where the
-- code waits for ever. The clients are checked one after the other, all of them at one time.
pub mod Service
pub mod Keeps
pub mod Trust
pub mod ServiceLaws
pub mod Failures
use doh_auth_proxy.Prelude.{
  ℕ, ◌+◌, ◌<◌, Bool, true, false, ◌&&◌, Option, none, some, List, [], ◌∷◌, Outcome, ok, err, panic,
  ◌>>=◌, if◌then◌else◌, ltb, leb,
}
use doh_auth_proxy.Text.{Text}
use doh_auth_proxy.Url.{UrlLib}
use doh_auth_proxy.Hickory.{Hickory}
use doh_auth_proxy.Dns.{Request}
use doh_auth_proxy.Cache.Linked.{LinkedHashMap}
use doh_auth_proxy.Cache.{CacheObject, Cache, purge_expired_entries}
use doh_auth_proxy.Manipulation.Libs.{CedarLib}
use doh_auth_proxy.Auth.{is_ok}
use doh_auth_proxy.Client.Http.{HttpLib, OdohLib}
use doh_auth_proxy.Legacy.Libs.{JsonLib, JwtLib, UrlText, Net}
use doh_auth_proxy.Legacy.Credential.{Credential, login, id_token_expires_in_secs}
use doh_auth_proxy.Legacy.Context.{Context, stored, update_credential, update_doh_client}
use doh_auth_proxy.Legacy.Client.{DohClient}
use doh_auth_proxy.Legacy.Client.Query.{QueryContext, make_doh_query}
use doh_auth_proxy.Legacy.Client.Health.{health_of}

module _ (J : JsonLib) (T : JwtLib) (W : HttpLib) {C : CedarLib} {O : OdohLib}
    {Conn Cached : Type 0} (N : Net W Conn) (now : ℕ) where
  unfoldable pub authenticated :
      Context C O Conn Cached → Option Credential → Context C O Conn Cached × Outcome (Unit {0})
  authenticated context none = (context, ok tt)
  authenticated context (some credential) =
      stored J T W N now context (login J T W N now credential)

  unfoldable pub authenticate :
      Context C O Conn Cached → Context C O Conn Cached × Outcome (Unit {0})
  unfolding authenticated
  authenticate context = authenticated context context.credential

-- How a turn of the token service ends: with the count of failures for the next turn, with the end
-- of the process, with the end of the service, waiting for ever, or in a panic.
pub data Turn (Ctx : Type 0) : Type 0 where
  goes_on : Ctx → ℕ → Turn Ctx
  exits returns waits panics : Turn Ctx

module _ (H : Hickory) (U : UrlLib) (X : UrlText U) (W : HttpLib) (C : CedarLib) (O : OdohLib)
    {Conn : Type 0} {dec : Discrete (Request H)} (L : LinkedHashMap (Request H) (CacheObject H) dec)
    (shuffle : List Text → List Text) (gen_range : ℕ → ℕ → ℕ) (draw now : ℕ)
    (a_to_string : H.RData → Option Text) (health_packet : List ℕ) where
  module _ (N : Net W Conn) where
    -- The context that the parts share.
    abbrev pub Ctx : Type 0
    Ctx = Context C O Conn (Cache H L)

    unfoldable pub found_healthy : Ctx → Outcome (Unit {0}) → Option (Ctx × Outcome Bool)
    found_healthy context (ok _) = some (context, ok true)
    found_healthy context (err e) = some (context, ok false)
    found_healthy context panic = some (context, panic)

    -- Whether the client of a reply is healthy.
    unfoldable pub judged : Option (Ctx × Outcome (List ℕ)) → Option (Ctx × Outcome Bool)
    unfolding found_healthy
    judged none = none
    judged (some (context, ok res)) = found_healthy context (health_of H a_to_string res)
    judged (some (context, err e)) = some (context, ok false)
    judged (some (context, panic)) = some (context, panic)

    -- `health_check`, by a task that holds a guard of the clients.
    unfoldable pub health_check : Ctx → DohClient O Conn → Option (Ctx × Outcome Bool)
    unfolding judged
    health_check context client = judged (
        make_doh_query H U X W C O L N shuffle gen_range draw now now true context client
          health_packet)

    unfoldable pub and_healthy : Bool → Option (Ctx × Outcome Bool) → Option (Ctx × Outcome Bool)
    and_healthy healthy none = none
    and_healthy healthy (some (context, ok b)) = some (context, ok (healthy && b))
    and_healthy healthy (some (context, err e)) = some (context, err e)
    and_healthy healthy (some (context, panic)) = some (context, panic)

    -- The next client is checked after one that does not panic.
    unfoldable pub then_check :
        Option (Ctx × Outcome Bool)
        → (Ctx → Option (Ctx × Outcome Bool))
        → Option (Ctx × Outcome Bool)
    unfolding and_healthy
    then_check none next = none
    then_check (some (context, ok healthy)) next = and_healthy healthy (next context)
    then_check (some (context, err e)) next = some (context, err e)
    then_check (some (context, panic)) next = some (context, panic)

    unfoldable pub check_all : Ctx → List (DohClient O Conn) → Option (Ctx × Outcome Bool)
    unfolding health_check then_check
    check_all context [] = some (context, ok true)
    check_all context (client ∷ clients) =
        then_check (health_check context client) (λ c. check_all c clients)

    unfoldable pub checked_clients :
        Ctx → Option (List (DohClient O Conn)) → Option (Ctx × Outcome Bool)
    unfolding check_all
    checked_clients context none = some (context, ok false)
    checked_clients context (some doh_clients) = check_all context doh_clients

    unfoldable pub clients_health_check : Ctx → Option (Ctx × Outcome Bool)
    unfolding checked_clients
    clients_health_check context = checked_clients context context.doh_clients

    -- What is found is only reported.
    unfoldable pub reported : Option (Ctx × Outcome Bool) → Option (Ctx × Outcome (Unit {0}))
    reported none = none
    reported (some (context, ok _)) = some (context, ok tt)
    reported (some (context, err e)) = some (context, err e)
    reported (some (context, panic)) = some (context, panic)

    unfoldable pub after_update : Ctx × Outcome (Unit {0}) → Option (Ctx × Outcome (Unit {0}))
    unfolding reported clients_health_check
    after_update (context, ok _) = reported (clients_health_check context)
    after_update (context, err e) = some (context, err e)
    after_update (context, panic) = some (context, panic)

    unfoldable pub update_client : Ctx → Option (Ctx × Outcome (Unit {0}))
    unfolding after_update
    update_client context = after_update (update_doh_client U X W N context)

    unfoldable pub purged : Ctx → Ctx
    purged context = record context { cache = (purge_expired_entries H L now context.cache).0 }

    -- The purge of the cache, whether the update succeeded or failed.
    unfoldable pub then_purge :
        Option (Ctx × Outcome (Unit {0})) → Option (Ctx × Outcome (Unit {0}))
    unfolding purged
    then_purge none = none
    then_purge (some (context, ok _)) = some (purged context, ok tt)
    then_purge (some (context, err e)) = some (purged context, ok tt)
    then_purge (some (context, panic)) = some (context, panic)

    -- One turn of the loop of `client_refresh_service`.
    unfoldable pub client_refresh_turn : Ctx → Option (Ctx × Outcome (Unit {0}))
    unfolding update_client then_purge
    client_refresh_turn context = then_purge (update_client context)

    module _ (J : JsonLib) (T : JwtLib) (unix_time : ℕ) where
      -- A failure counts, and a success goes on with the rest of the turn.
      unfoldable pub counted : ℕ → Option (Ctx × Outcome (Unit {0})) → (Ctx → Turn Ctx) → Turn Ctx
      counted retry_login none rest = waits
      counted retry_login (some (context, ok _)) rest = rest context
      counted retry_login (some (context, err e)) rest = goes_on context (retry_login + 1)
      counted retry_login (some (context, panic)) rest = panics

      -- The token is refreshed, and the clients with it.
      unfoldable pub refreshed : ℕ → Ctx → Turn Ctx
      unfolding counted update_client
      refreshed retry_login context =
          counted retry_login (some (update_credential J T W N unix_time context)) (λ context'.
            counted retry_login (update_client context')
              (λ context''. goes_on context'' retry_login))

      -- What follows on the check of what is left of the token's time.
      unfoldable pub timed : ℕ → Ctx → Outcome ℕ → Turn Ctx
      unfolding refreshed
      timed retry_login context (ok secs) =
          if ltb 600 secs then goes_on context retry_login else refreshed retry_login context
      timed retry_login context (err e) = goes_on context (retry_login + 1)
      timed retry_login context panic = panics

      unfoldable pub checked_with : ℕ → Ctx → Option Credential → Turn Ctx
      unfolding timed
      checked_with retry_login context none = returns
      checked_with retry_login context (some credential) =
          timed retry_login context (id_token_expires_in_secs J T unix_time credential)

      -- The second half of a turn: the check of the token.
      unfoldable pub checked : ℕ → Ctx → Turn Ctx
      unfolding checked_with
      checked retry_login context = checked_with retry_login context context.credential

      -- The first half: after a failure, a new login and new clients.
      unfoldable pub logged_in_again : ℕ → Ctx → Turn Ctx
      unfolding counted checked update_client
      logged_in_again retry_login context =
          counted retry_login (some (authenticate J T W N unix_time context)) (λ context'.
            counted retry_login (update_client context') (λ context''. checked 0 context''))

      -- One turn of the loop of `token_refresh_service`.
      unfoldable pub token_turn : ℕ → Ctx → Turn Ctx
      unfolding logged_in_again checked
      token_turn retry_login context =
          if leb 5 retry_login
          then exits
          else if ltb 0 retry_login
          then logged_in_again retry_login context
          else checked retry_login context
