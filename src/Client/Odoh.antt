-- ===== src/Client/Odoh.antt =====
-- dap-lib/src/doh_client/odoh.rs and odoh_config_store.rs: the keys of the ODoH targets.
use doh_auth_proxy.Prelude.{
  ℕ, Bool, ◌&&◌, not, Option, none, some, List, [], ◌∷◌, ◌++◌, Outcome, ok, err, panic, ◌>>=◌,
  odoh_error, odoh_no_client_config, if◌then◌else◌, any, ok_or, unwrap, traverse, ◌==◌,
}
use doh_auth_proxy.Text.{Text, codes, text_eq}
use doh_auth_proxy.Url.{UrlLib}
use doh_auth_proxy.Path.{DohTarget, scheme_str}
use doh_auth_proxy.Client.Http.{HttpLib, HttpRequest, HttpResponse, OdohLib, get_method}

module _ (O : OdohLib) where
  open O use {Contents, Plaintext, Secret}

  pub record OdohConfig : Type 0 where
    pub authority : Text
    pub inner : Contents

  first_config : Text → List Contents → Outcome OdohConfig
  first_config authority [] = err odoh_no_client_config
  first_config authority (t ∷ ts) = ok (record { authority = authority; inner = t })

  unfoldable pub new_config : Text → List ℕ → Outcome OdohConfig
  unfolding first_config
  new_config authority configs_vec =
      ok_or odoh_error (O.parse_configs configs_vec) >>= first_config authority

  unfoldable pub encrypt_query : OdohConfig → List ℕ → Outcome (Plaintext × List ℕ × Secret)
  encrypt_query c plaintext_query = do
    let query = O.new_plaintext plaintext_query 0
    (query_enc, cli_secret) ← ok_or odoh_error (O.encrypt query c.inner)
    query_body ← ok_or odoh_error (O.compose query_enc)
    ok (query, query_body, cli_secret)

  unfoldable pub decrypt_response : Plaintext → List ℕ → Secret → Outcome (List ℕ)
  decrypt_response plaintext_query encrypted_response client_secret = do
    response_enc ← ok_or odoh_error (O.parse_message encrypted_response)
    response_dec ← ok_or odoh_error (O.decrypt plaintext_query response_enc client_secret)
    ok (O.into_msg response_dec)

  -- The store: every target with its configuration, once one is fetched.
  pub record OdohConfigStore : Type 0 where
    pub inner : List (DohTarget × Option OdohConfig)

  -- The derived equality of targets.
  abbrev pub target_eq : DohTarget → DohTarget → Bool
  target_eq a b =
      text_eq a.authority b.authority
      && (text_eq a.path b.path && text_eq (scheme_str a.scheme) (scheme_str b.scheme))

  abbrev pub find_config :
      DohTarget → List (DohTarget × Option OdohConfig) → Option (Option OdohConfig)
  find_config target [] = none
  find_config target ((t, c) ∷ rest) =
      if target_eq t target then some c else find_config target rest

  -- `ODoHConfigStore::get`.
  unfoldable pub get_config : OdohConfigStore → DohTarget → Option (Option OdohConfig)
  get_config s target = find_config target s.inner

  -- The configuration in a response, or in none where sending failed.
  unfoldable pub config_in : DohTarget → Option HttpResponse → Option OdohConfig
  unfolding new_config
  config_in target none = none
  config_in target (some response) =
      if not (response.status == 200) then none else elim response.body [
        | none ↦ none
        | some body ↦ elim (new_config target.authority body) [
          | ok c ↦ some c
          | err e ↦ none
          | panic ↦ none
        ]
      ]

  module _ (U : UrlLib) (W : HttpLib) where
    -- The request for the configuration of a target.
    unfoldable pub config_request : DohTarget → Outcome (HttpRequest W)
    config_request target = do
      destination ← unwrap (U.parse (scheme_str target.scheme ++ (codes "://" ++ target.authority)))
      ok (record {
        method = get_method;
        url = U.as_str (U.set_path destination (codes ".well-known/odohconfigs"));
        headers = W.no_headers;
        body = [];
      })

    -- `update_odoh_config_from_well_known`: the requests, and the store with what they answer.
    unfoldable pub update_odoh_config :
        (HttpRequest W → Option HttpResponse)
        → OdohConfigStore
        → Outcome (List (HttpRequest W) × OdohConfigStore)
    unfolding config_in config_request
    update_odoh_config http s = do
      requests ← traverse (λ (e : DohTarget × Option OdohConfig). config_request e.0) s.inner
      inner ←
          traverse
            (λ (e : DohTarget × Option OdohConfig).
              config_request e.0 >>= λ r. ok (e.0, config_in e.0 (http r)))
            s.inner
      ok (requests, record { inner = inner })

    -- The targets as the keys of a map, each once.
    abbrev pub as_keys : List DohTarget → List (DohTarget × Option OdohConfig)
    as_keys [] = []
    as_keys (t ∷ ts) =
        let rest = as_keys ts in
        if any (λ (e : DohTarget × Option OdohConfig). target_eq e.0 t) rest
        then rest
        else (t, none) ∷ rest

    -- `ODoHConfigStore::new`.
    unfoldable pub new_store :
        (HttpRequest W → Option HttpResponse)
        → List DohTarget
        → Outcome (List (HttpRequest W) × OdohConfigStore)
    unfolding update_odoh_config
    new_store http targets = update_odoh_config http (record { inner = as_keys targets })
