-- ===== src/Config.antt =====
-- dap-bin/src/config: from the parsed file to the configuration of the proxy (target_config.rs, with
-- the structs of toml.rs and the tests of utils_verifier.rs). `credential` reads a variable of the
-- environment once a credential file is loaded; it fails where there is no current directory.

pub mod Laws
pub mod PluginFiles
pub mod Reload
use doh_auth_proxy.Prelude.{
  ℕ, ◌*◌, ◌%◌, ◌^◌, Bool, true, false, ◌&&◌, ◌||◌, not, Option, none, some, List, Outcome, ok, err,
  ◌>>=◌, other, if◌then◌else◌, is_empty, all, ltb, length, ok_or, unwrap, traverse,
}
use doh_auth_proxy.Text.{Text, codes, text_eq}
use doh_auth_proxy.Url.{UrlLib}
use doh_auth_proxy.Globals.{
  AddrParser, ProxyConfig, SubseqRelayConfig, QueryManipulationConfig, proxy_default,
}

pub record Plugins : Type 0 where
  pub domains_blocked_file : Option Text
  pub domains_overridden_file : Option Text

pub record Anonymization : Type 0 where
  pub odoh_relay_urls : Option (List Text)
  pub odoh_relay_randomization : Option Bool
  pub mid_relay_urls : Option (List Text)
  pub max_mid_relays : Option ℕ

pub record Authentication : Type 0 where
  pub token_api : Option Text
  pub credential_file : Option Text

pub record ConfigToml : Type 0 where
  pub listen_addresses : Option (List Text)
  pub bootstrap_dns : Option (List Text)
  pub endpoint_resolution_period : Option ℕ
  pub healthcheck_period : Option ℕ
  pub max_cache_size : Option ℕ
  pub target_urls : Option (List Text)
  pub target_randomization : Option Bool
  pub use_get_method : Option Bool
  pub authentication : Option Authentication
  pub anonymization : Option Anonymization
  pub plugins : Option Plugins

abbrev pub is_some {ℓ} : {A : Type ℓ} → Option A → Bool
is_some none = false
is_some (some a) = true

abbrev pub unwrap_or {ℓ} : {A : Type ℓ} → A → Option A → A
unwrap_or d none = d
unwrap_or d (some a) = a

-- `(val as u64) * 60`, which wraps around.
abbrev pub minutes : ℕ → ℕ → Option ℕ → ℕ
minutes w old none = old
minutes w old (some val) = val * 60 % w

module _ (A : AddrParser) where
  unfoldable pub verify_sock_addr : Text → Bool
  verify_sock_addr v = is_some (A.parse_socket v)

  unfoldable pub verify_ip_addr : Text → Bool
  verify_ip_addr v = is_some (A.parse_ip v)

module _ (U : UrlLib) where
  verified_url : Option U.Url → Bool
  verified_url none = false
  verified_url (some url) =
      (text_eq (U.scheme url) (codes "http") || text_eq (U.scheme url) (codes "https"))
      && not (U.cannot_be_a_base url)

  unfoldable pub verify_target_url : Text → Bool
  unfolding verified_url
  verify_target_url v = verified_url (U.parse v)

  -- Parsing a list that is verified first.
  unfoldable pub parse_urls : List Text → Outcome (List U.Url)
  unfolding verify_target_url
  parse_urls val =
      if not (all verify_target_url val) then err other else traverse (λ v. unwrap (U.parse v)) val

  module _ (A : AddrParser) where
    unfoldable pub set_listen : Option (List Text) → ProxyConfig U → Outcome (ProxyConfig U)
    unfolding verify_sock_addr
    set_listen none c = ok c
    set_listen (some val) c =
        if not (all (verify_sock_addr A) val)
        then err other
        else (traverse (λ v. unwrap (A.parse_socket v)) val >>= λ l.
            ok (record c { listen_addresses = l }))

    unfoldable pub set_bootstrap : Option (List Text) → ProxyConfig U → Outcome (ProxyConfig U)
    unfolding verify_ip_addr
    set_bootstrap none c = ok c
    set_bootstrap (some val) c =
        if not (all (verify_ip_addr A) val)
        then err other
        else (traverse (λ v. unwrap (A.parse_ip v)) val >>= λ l.
            ok (record c { bootstrap_dns = record c.bootstrap_dns { ips = l } }))

  unfoldable pub set_periods : ConfigToml → ProxyConfig U → ProxyConfig U
  set_periods t c = record c {
    endpoint_resolution_period_sec =
        minutes (2 ^ 64) c.endpoint_resolution_period_sec t.endpoint_resolution_period;
    healthcheck_period_sec = minutes (2 ^ 64) c.healthcheck_period_sec t.healthcheck_period;
    max_cache_size = unwrap_or c.max_cache_size t.max_cache_size;
  }

  unfoldable pub set_targets : Option (List Text) → ProxyConfig U → Outcome (ProxyConfig U)
  unfolding parse_urls
  set_targets none c = ok c
  set_targets (some val) c = parse_urls val >>= λ l.
      ok (record c { target_config = record c.target_config { doh_target_urls = l } })

  -- Only `false` changes the randomization, and only `true` the method.
  unfoldable pub set_target_flags : ConfigToml → ProxyConfig U → ProxyConfig U
  set_target_flags t c = record c {
    target_config = record c.target_config {
      target_randomization =
          c.target_config.target_randomization && unwrap_or true t.target_randomization;
      use_get = c.target_config.use_get || unwrap_or false t.use_get_method;
    };
  }

  unfoldable pub mid_relays : Option (List Text) → Option ℕ → Outcome (Option (SubseqRelayConfig U))
  unfolding parse_urls verify_target_url
  mid_relays none most = ok none
  mid_relays (some val) most =
      if not (all verify_target_url val)
      then err other
      else if is_empty val
      then err other
      else if is_some most && ltb (length val) (unwrap_or 1 most)
      then err other
      else (parse_urls val >>= λ urls.
          ok (some (record { mid_relay_urls = urls; max_mid_relays = unwrap_or 1 most })))

  unfoldable pub nexthop_relays :
      Anonymization → List Text → ProxyConfig U → Outcome (ProxyConfig U)
  unfolding parse_urls mid_relays
  nexthop_relays anon odoh_relay_urls c = do
    urls ← parse_urls odoh_relay_urls
    subseq ← mid_relays anon.mid_relay_urls anon.max_mid_relays
    ok (record c {
      nexthop_relay_config = some (record {
        odoh_relay_urls = urls;
        odoh_relay_randomization = unwrap_or true anon.odoh_relay_randomization;
      });
      subseq_relay_config = elim subseq [ none ↦ c.subseq_relay_config | some v ↦ some v ];
    })

  unfoldable pub set_anonymization : Option Anonymization → ProxyConfig U → Outcome (ProxyConfig U)
  unfolding nexthop_relays
  set_anonymization none c = ok c
  set_anonymization (some anon) c = elim anon.odoh_relay_urls [
    | none ↦ ok c
    | some odoh_relay_urls ↦ nexthop_relays anon odoh_relay_urls c
  ]

  verified_api : Text → Outcome U.Url
  unfolding verify_target_url
  verified_api token_api =
      if not (verify_target_url token_api) then err other else unwrap (U.parse token_api)

  module _ (credential : Text → Outcome (Text → Option Text)) where
    credentials : Text → Text → ProxyConfig U → Outcome (ProxyConfig U)
    unfolding verified_api
    credentials credential_file token_api c = do
      env ← credential credential_file
      username ← ok_or other (env (codes "username"))
      password ← ok_or other (env (codes "password"))
      client_id ← ok_or other (env (codes "client_id"))
      url ← verified_api token_api
      ok (record c {
        authentication_config = some (record {
          username = username;
          password = password;
          client_id = client_id;
          token_api = url;
        });
      })

    unfoldable pub set_authentication :
        Option Authentication → ProxyConfig U → Outcome (ProxyConfig U)
    unfolding credentials
    set_authentication none c = ok c
    set_authentication (some auth) c = elim auth.credential_file [
      | none ↦ ok c
      | some credential_file ↦ elim auth.token_api [
        | none ↦ ok c
        | some token_api ↦ credentials credential_file token_api c
      ]
    ]

    -- `TryInto<ProxyConfig>`, from the default configuration.
    unfoldable pub try_into :
        AddrParser → ConfigToml → Option QueryManipulationConfig → Outcome (ProxyConfig U)
    unfolding set_listen set_bootstrap set_periods set_targets set_target_flags set_anonymization
        set_authentication
    try_into A t manipulation = do
      c0 ← proxy_default U A
      c1 ← set_listen A t.listen_addresses c0
      c2 ← set_bootstrap A t.bootstrap_dns c1
      c3 ← set_targets t.target_urls (set_periods t c2)
      c4 ← set_anonymization t.anonymization (set_target_flags t c3)
      c5 ← set_authentication t.authentication c4
      ok (if is_some t.plugins then record c5 { query_manipulation_config = manipulation } else c5)
