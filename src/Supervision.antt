-- ===== src/Supervision.antt =====
-- The services that `entrypoint` spawns: how they are started beside the notification that ends
-- them (auth_service.rs, http_client_service.rs and odoh_config_store.rs of dap-lib/src). Where
-- there is a notifier, `some true` says that it notifies before the service ends by itself.
use doh_auth_proxy.Prelude.{
  ℕ, ◌≢◌, Bool, true, false, Option, none, some, List, [], ◌∷◌, Outcome, ok, err, panic, ◌>>=◌,
  DapError,
}
use doh_auth_proxy.Text.{Text}
use doh_auth_proxy.Url.{UrlLib}
use doh_auth_proxy.Auth.{Attempt, auth_service}
use doh_auth_proxy.HttpClient.{ClientBuilderLib, HttpClient, Round, endpoint_ip_service}
use doh_auth_proxy.Client.Http.{HttpLib, HttpRequest, HttpResponse, OdohLib}
use doh_auth_proxy.Client.Odoh.{OdohConfigStore, update_odoh_config}

-- `select!` of a service and the notification; only a warning tells that the service ended.
warned : Outcome (Unit {0}) → Outcome (Unit {0})
warned (ok _) = ok tt
warned (err _) = ok tt
warned panic = panic

abbrev pub supervised : Option Bool → Outcome (Unit {0}) → Outcome (Unit {0})
unfolding warned
supervised none service = service
supervised (some true) service = ok tt
supervised (some false) service = warned service

-- `Authenticator::start_service`.
unfoldable pub start_auth_service : Option Bool → List (ℕ → Attempt) → Outcome (Unit {0})
start_auth_service term_notify turns = supervised term_notify (auth_service turns)

-- `HttpClient::start_endpoint_ip_update_service`.
unfoldable pub start_endpoint_ip_update_service :
    (K : ClientBuilderLib) (U : UrlLib)
    → Text
    → Option Bool
    → List (Round K U)
    → HttpClient K U
    → Outcome (Unit {0})
start_endpoint_ip_update_service K U version term_notify rounds c =
    supervised term_notify (endpoint_ip_service K U version rounds c 0 >>= λ _. ok tt)

module _ (O : OdohLib) (U : UrlLib) (W : HttpLib) where
  -- `ODoHConfigStore::watch_service` over what the targets answer in each turn.
  unfoldable pub watch_service :
      List (HttpRequest W → Option HttpResponse) → OdohConfigStore O → Outcome (OdohConfigStore O)
  watch_service [] s = ok s
  watch_service (answer ∷ answers) s =
      update_odoh_config O U W answer s >>= λ r. watch_service answers r.1

  -- `ODoHConfigStore::start_service`.
  unfoldable pub start_odoh_service :
      Option Bool
      → List (HttpRequest W → Option HttpResponse)
      → OdohConfigStore O
      → Outcome (Unit {0})
  unfolding watch_service
  start_odoh_service term_notify answers s =
      supervised term_notify (watch_service answers s >>= λ _. ok tt)

-- Beside a notifier, a service that fails ends like one that was told to end.
pub supervised-ne-err :
    (notified : Bool) (service : Outcome (Unit {0})) (e : DapError)
    → supervised (some notified) service ≢ err e
unfolding warned
supervised-ne-err true service e h = cc
supervised-ne-err false (ok _) e h = cc
supervised-ne-err false (err _) e h = cc
supervised-ne-err false panic e h = cc
