-- ===== src/Tests/LoadRuns.antt =====
-- The lines of a plugin file, a file that is rejected after one that is valid, a client that is
-- built with relays, and an update of its keys.
use doh_auth_proxy.Prelude.{
  ℕ, ◌≡◌, refl, true, false, Option, none, some, List, [], ◌∷◌, Outcome, ok,
}
use doh_auth_proxy.Text.{Text, codes}
use doh_auth_proxy.Globals.{ProxyConfig, proxy_default, SocketAddr, v4}
use doh_auth_proxy.Config.{
  ConfigToml, try_into, set_listen, set_bootstrap, set_periods, set_targets, set_anonymization,
  set_target_flags, set_authentication,
}
use doh_auth_proxy.Config.PluginFiles.{TargetConfig, truncate_vec, written, truncate_vec-written}
use doh_auth_proxy.Config.Reload.{
  Event, changed, Watcher, proxy_service_with_watcher, RunsNewest, received,
  proxy_service_with_watcher_lem,
}
use doh_auth_proxy.Path.{oblivious, DohPath, DohTarget, https}
use doh_auth_proxy.Client.Http.{post_method, HttpRequest, get_method}
use doh_auth_proxy.Client.Query.{DohClient, ClientState}
use doh_auth_proxy.Client.Odoh.{OdohConfigStore, get_config, update_odoh_config, config_request}
use doh_auth_proxy.Client.New.{new, IsConsistent, new-IsConsistent}
use doh_auth_proxy.Tests.Toy.{ToyUrl, toy_url, toy_permutations}
use doh_auth_proxy.Tests.Message.{toy_hickory}
use doh_auth_proxy.Tests.Libs.{toy_cedar_lib, toy_regex}
use doh_auth_proxy.Tests.CacheRuns.{entries_map}
use doh_auth_proxy.Tests.HealthRuns.{any_addr}
use doh_auth_proxy.Tests.PathRuns.{config_with, at_host}
use doh_auth_proxy.Tests.ClientRuns.{web, odoh, server}

abbrev lines : List (Text × ℕ)
lines = (codes "a.com", 0) ∷ (codes "b.com", 2) ∷ []

truncate_vec-written_example : truncate_vec (written lines) ≡ codes "a.com" ∷ codes "b.com" ∷ []
truncate_vec-written_example = truncate_vec-written lines (
  (refl, (refl, (refl, (refl, (refl, (refl, tt)))))),
  ((refl, (refl, (refl, (refl, (refl, (refl, tt)))))), tt),
)

abbrev no_settings : ConfigToml
no_settings = record {
  listen_addresses = none;
  bootstrap_dns = none;
  endpoint_resolution_period = none;
  healthcheck_period = none;
  max_cache_size = none;
  target_urls = none;
  target_randomization = none;
  use_get_method = none;
  authentication = none;
  anonymization = none;
  plugins = none;
}

abbrev loaded : Option (List Text) → TargetConfig
loaded urls = record {
  config_toml = record no_settings { target_urls = urls };
  query_manipulation_config = none;
}

-- The URL of the file has no colon.
abbrev no_file : Text → Outcome (Text → Option Text)
no_file s = ok (λ v. none)

abbrev events : List (Event toy_url any_addr no_file)
events = changed (some (loaded (some (codes "nowhere" ∷ [])))) ∷ []

abbrev any_socket : SocketAddr
any_socket = record { ip = v4 9; port = 443 }

abbrev google : ToyUrl
google = record {
  scheme = codes "https";
  authority = codes "https://dns.google/dns-query";
  path = codes "/";
  pairs = [];
}

abbrev defaults : ProxyConfig toy_url
defaults = record (config_with none) {
  listen_addresses = any_socket ∷ any_socket ∷ [];
  max_cache_size = 16384;
  bootstrap_dns = record { ips = v4 9 ∷ []; port = 53 };
  target_config = record {
    use_get = false;
    doh_target_urls = google ∷ [];
    target_randomization = true;
  };
  subseq_relay_config = none;
}

abbrev twice : Watcher toy_url any_addr no_file
twice = record { proxy_conf = defaults; generations = defaults ∷ defaults ∷ [] }

watched : proxy_service_with_watcher toy_url any_addr no_file (some (loaded none)) events ≡ ok twice
unfolding proxy_service_with_watcher try_into proxy_default set_listen set_bootstrap set_periods
    set_targets set_anonymization set_target_flags set_authentication
watched = refl

proxy_service_with_watcher_lem_example :
    RunsNewest toy_url any_addr no_file twice
      (received toy_url any_addr no_file events (loaded none ∷ []))
proxy_service_with_watcher_lem_example =
    proxy_service_with_watcher_lem toy_url any_addr no_file (loaded none) events twice watched

-- The target has a port, so that the request for its keys can be built.
abbrev target : DohTarget
target = record { authority = codes "a:1"; path = codes "/q"; scheme = https }

abbrev old_keys : OdohConfigStore odoh
old_keys = record { inner = (target, none) ∷ [] }

abbrev request : HttpRequest web
request = record {
  method = get_method;
  url = codes "https://a:1.well-known/odohconfigs";
  headers = [];
  body = [];
}

abbrev new_keys : OdohConfigStore odoh
new_keys = record { inner = (target, some (record { authority = codes "a:1"; inner = 5 })) ∷ [] }

abbrev pub relayed : ProxyConfig toy_url
relayed = record defaults {
  target_config = record {
    use_get = true;
    doh_target_urls = at_host (codes "a:1") ∷ [];
    target_randomization = true;
  };
  nexthop_relay_config =
      some
        (record { odoh_relay_urls = at_host (codes "b:1") ∷ []; odoh_relay_randomization = true });
}

abbrev pub relayed_path : DohPath
relayed_path = record {
  target = target;
  relays =
      record { authority = codes "b:1"; path = codes "/q"; scheme = https; can_be_next_hop = true }
      ∷ [];
  is_healthy = true;
  doh_type = oblivious;
}

-- Queries go to the target through the relay, by POST in spite of `use_get`.
abbrev pub relayed_client : DohClient toy_url toy_hickory toy_cedar_lib web odoh
relayed_client = record {
  id_token = none;
  path_manager = record {
    paths = ((relayed_path ∷ []) ∷ []) ∷ [];
    target_randomization = true;
    nexthop_randomization = true;
  };
  doh_type = oblivious;
  doh_method = post_method;
  headers =
      (codes "Cache-Control", codes "no-cache, no-store")
      ∷ (codes "Content-Type", codes "application/oblivious-dns-message")
      ∷ (codes "Accept", codes "application/oblivious-dns-message")
      ∷ [];
  query_manipulators = none;
}

abbrev pub relayed_state : ClientState toy_url toy_hickory toy_cedar_lib web odoh server entries_map
relayed_state = record {
  cache = record { cache = []; max_size = 16384 };
  net = record { sent = request ∷ []; odoh_configs = some new_keys };
}

built :
    new toy_url toy_permutations toy_hickory toy_cedar_lib web odoh toy_regex any_addr server
      entries_map relayed none
    ≡ ok (relayed_client, relayed_state)
unfolding new doh_auth_proxy.Path.targets doh_auth_proxy.Path.Build.new doh_auth_proxy.Path.prune
    doh_auth_proxy.Path.is_looped doh_auth_proxy.Client.Odoh.new_store
    doh_auth_proxy.Path.scheme_or_https doh_auth_proxy.Client.Query.base_headers
    doh_auth_proxy.Client.Query.choose_type doh_auth_proxy.Client.Query.choose_method
    doh_auth_proxy.Cache.new
built = refl

new-IsConsistent_example :
    IsConsistent toy_url toy_permutations toy_hickory toy_cedar_lib web odoh toy_regex any_addr
      server entries_map relayed_client relayed_state
new-IsConsistent_example =
    new-IsConsistent toy_url toy_permutations toy_hickory toy_cedar_lib web odoh toy_regex any_addr
      server entries_map relayed none relayed_client relayed_state built
