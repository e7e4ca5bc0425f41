-- ===== src/Legacy/Config.antt =====
-- legacy/src/config: from the parsed file to the context (config_parser.rs, with config_toml.rs). The
-- file that toml has parsed is an argument, `read` reads a file below the current directory, which
-- may not exist, and `env` a variable once a credential file is loaded. `info_on` says whether
-- messages of that level are logged, since what they print is computed only then.
pub mod Laws
use doh_auth_proxy.Prelude.{
  ℕ, ◌*◌, ◌%◌, ◌^◌, Bool, true, false, ◌&&◌, not, Option, none, some, List, [], ◌∷◌, Outcome, ok,
  err, panic, ◌>>=◌, other, if◌then◌else◌, is_empty, all, ltb, length, ok_or, unwrap, traverse,
}
use doh_auth_proxy.Text.{Text, codes}
use doh_auth_proxy.Url.{UrlLib}
use doh_auth_proxy.Globals.{AddrParser, SocketAddr}
use doh_auth_proxy.Manipulation.Libs.{Regex, CedarLib}
use doh_auth_proxy.Client.Http.{get_method, post_method, OdohLib}
use doh_auth_proxy.Config.{
  Plugins, Anonymization, Authentication, is_some, unwrap_or, verify_sock_addr, verify_target_url,
}
use doh_auth_proxy.Config.PluginFiles.{truncate_vec}
use doh_auth_proxy.Legacy.Plugins.{
  QueryPlugin, plugin_domain_block, plugin_domain_override, add, block_rule_from,
  override_rule_from,
}
use doh_auth_proxy.Legacy.Credential
use doh_auth_proxy.Legacy.Credential.{Credential}
use doh_auth_proxy.Legacy.Context.{Settings, Context}

pub record ConfigToml : Type 0 where
  pub listen_addresses : Option (List Text)
  pub bootstrap_dns : Option Text
  pub reboot_period : Option ℕ
  pub max_cache_size : Option ℕ
  pub target_urls : Option (List Text)
  pub target_randomization : Option Bool
  pub use_get_method : Option Bool
  pub authentication : Option Authentication
  pub anonymization : Option Anonymization
  pub plugins : Option Plugins

module _ (A : AddrParser) (C : CedarLib) where
  -- A socket address that is verified first.
  abbrev socket_or_panic : Text → Outcome SocketAddr
  socket_or_panic x = if not (verify_sock_addr A x) then panic else unwrap (A.parse_socket x)

  -- The initial values.
  unfoldable pub initial : Outcome (Settings C)
  initial = do
    listen ←
        traverse (λ x. unwrap (A.parse_socket x))
          (codes "127.0.0.1:50053" ∷ codes "[::1]:50053" ∷ [])
    bootstrap ← unwrap (A.parse_socket (codes "1.1.1.1:53"))
    ok (record {
      listen_addresses = listen;
      udp_buffer_size = 2048;
      udp_channel_capacity = 1024;
      timeout_sec = 10;
      doh_target_urls = codes "https://dns.google/dns-query" ∷ [];
      target_randomization = true;
      doh_method = post_method;
      odoh_relay_urls = none;
      odoh_relay_randomization = true;
      mid_relay_urls = none;
      max_mid_relays = 0;
      bootstrap_dns = bootstrap;
      rebootstrap_period_sec = 60 * 60;
      max_connections = 128;
      query_plugins = none;
      min_ttl = 10;
    })

  unfoldable pub set_listen : Option (List Text) → Settings C → Outcome (Settings C)
  set_listen none c = ok c
  set_listen (some val) c =
      traverse socket_or_panic val >>= λ l. ok (record c { listen_addresses = l })

  unfoldable pub set_bootstrap : Option Text → Settings C → Outcome (Settings C)
  set_bootstrap none c = ok c
  set_bootstrap (some val) c = socket_or_panic val >>= λ a. ok (record c { bootstrap_dns = a })

module _ (C : CedarLib) where
  -- `(val as u64) * 60`, which wraps around.
  unfoldable pub set_period : Option ℕ → Settings C → Settings C
  set_period none c = c
  set_period (some val) c = record c { rebootstrap_period_sec = val * 60 % 2 ^ 64 }

  unfoldable pub set_flags : ConfigToml → Settings C → Settings C
  set_flags t c = record c {
    target_randomization = c.target_randomization && unwrap_or true t.target_randomization;
    doh_method = if unwrap_or false t.use_get_method then get_method else c.doh_method;
  }

module _ (U : UrlLib) (C : CedarLib) where
  unfoldable pub set_targets : Option (List Text) → Settings C → Outcome (Settings C)
  set_targets none c = ok c
  set_targets (some val) c =
      if not (all (verify_target_url U) val)
      then err other
      else ok (record c { doh_target_urls = val })

  -- The relays behind the next hop, left as they are for an empty list.
  unfoldable pub set_mid_relays : Option (List Text) → Settings C → Outcome (Settings C)
  set_mid_relays none c = ok c
  set_mid_relays (some val) c =
      if not (all (verify_target_url U) val)
      then err other
      else if is_empty val
      then ok c
      else ok (record c { mid_relay_urls = some val })

  unfoldable pub set_max_mid_relays : Option ℕ → Settings C → Settings C
  set_max_mid_relays (some val) c = record c { max_mid_relays = val }
  set_max_mid_relays none c = record c {
    max_mid_relays = if is_some c.mid_relay_urls then 1 else 0;
  }

  -- The check of the number, and the message about it, which unwraps the configured one.
  unfoldable pub check_mid_relays :
      Bool → Option ℕ → Option (List Text) → Settings C → Outcome (Settings C)
  check_mid_relays info_on max_mid_relays none c = ok c
  check_mid_relays info_on max_mid_relays (some v) c =
      if ltb (length v) c.max_mid_relays
      then err other
      else if info_on
      then (unwrap max_mid_relays >>= λ _. ok c)
      else ok c

  unfoldable pub set_relays : Bool → Anonymization → List Text → Settings C → Outcome (Settings C)
  unfolding set_mid_relays set_max_mid_relays check_mid_relays
  set_relays info_on anon odoh_relay_urls c =
      if not (all (verify_target_url U) odoh_relay_urls) then err other else (do
        c ← set_mid_relays anon.mid_relay_urls (record c {
          odoh_relay_urls = some odoh_relay_urls;
          odoh_relay_randomization =
              unwrap_or c.odoh_relay_randomization anon.odoh_relay_randomization;
        })
        let c' = set_max_mid_relays anon.max_mid_relays c
        check_mid_relays info_on anon.max_mid_relays c'.mid_relay_urls c')

  unfoldable pub set_anonymization : Bool → Option Anonymization → Settings C → Outcome (Settings C)
  unfolding set_relays
  set_anonymization info_on none c = ok c
  set_anonymization info_on (some anon) c = elim anon.odoh_relay_urls [
    | none ↦ ok c
    | some odoh_relay_urls ↦ set_relays info_on anon odoh_relay_urls c
  ]

module _ (C : CedarLib) (R : Regex) (A : AddrParser) (current_dir : Option Text)
    (join : Text → Text → Text) (read_to_string : Text → Option Text) where
  -- A file that cannot be read is passed over.
  with_file :
      (List Text → Outcome (QueryPlugin C))
      → Option Text
      → List (QueryPlugin C)
      → Outcome (List (QueryPlugin C))
  with_file plugin_of none plugins = ok plugins
  with_file plugin_of (some content) plugins =
      plugin_of (truncate_vec content) >>= λ plugin. ok (add plugins plugin)

  added :
      (List Text → Outcome (QueryPlugin C))
      → Option Text
      → List (QueryPlugin C)
      → Outcome (List (QueryPlugin C))
  unfolding with_file
  added plugin_of none plugins = ok plugins
  added plugin_of (some names_file) plugins = do
    dir ← ok_or other current_dir
    with_file plugin_of (read_to_string (join dir names_file)) plugins

  unfoldable pub plugins_applied : Option Plugins → Outcome (List (QueryPlugin C))
  unfolding added
  plugins_applied none = ok []
  plugins_applied (some plugins) = do
    blocking ←
        added (λ lines. block_rule_from C R lines >>= λ rule. ok (plugin_domain_block rule))
          plugins.domains_blocked_file []
    added (λ lines. ok (plugin_domain_override (override_rule_from R A lines)))
        plugins.domains_overridden_file blocking

module _ (U : UrlLib) (credential_of : Text → Outcome (Text → Option Text)) where
  unfoldable pub with_api : Text → Text → Outcome (Option Credential)
  with_api credential_file token_api = do
    env ← credential_of credential_file
    username ← ok_or other (env (codes "username"))
    password ← ok_or other (env (codes "password"))
    client_id ← ok_or other (env (codes "client_id"))
    if not (verify_target_url U token_api)
        then err other
        else ok (some (Credential.new username password client_id token_api))

  unfoldable pub credential_from : Option Authentication → Outcome (Option Credential)
  unfolding with_api
  credential_from none = ok none
  credential_from (some auth) = elim auth.credential_file [
    | none ↦ ok none
    | some credential_file ↦ elim auth.token_api [
      | none ↦ ok none
      | some token_api ↦ with_api credential_file token_api
    ]
  ]

module _ (U : UrlLib) (C : CedarLib) (O : OdohLib) (Conn Cached : Type 0) (R : Regex)
    (A : AddrParser) (current_dir : Option Text) (join : Text → Text → Text)
    (read_to_string : Text → Option Text) (credential_of : Text → Outcome (Text → Option Text))
    (new_cache : ℕ → Cached) (info_on : Bool) where
  -- `parse_opts`, from the file that is given or the empty one.
  unfoldable pub parse_opts : Outcome ConfigToml → Outcome (Context C O Conn Cached)
  unfolding initial set_listen set_bootstrap set_period set_flags set_targets set_anonymization
      plugins_applied credential_from
  parse_opts config_file = do
    c ← initial A C
    t ← config_file
    c ← set_listen A C t.listen_addresses c
    c ← set_bootstrap A C t.bootstrap_dns c
    c ← set_targets U C t.target_urls (set_period C t.reboot_period c)
    plugins ← plugins_applied C R A current_dir join read_to_string t.plugins
    c ←
        set_anonymization U C info_on t.anonymization
          (record (set_flags C t c) { query_plugins = some plugins })
    credential ← credential_from U credential_of t.authentication
    ok (record {
      settings = c;
      doh_clients = none;
      credential = credential;
      cache = new_cache (unwrap_or 16384 t.max_cache_size);
    })
