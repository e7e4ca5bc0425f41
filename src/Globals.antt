-- ===== src/Globals.antt =====
-- dap-lib/src/globals.rs and constants.rs: the configuration that the parts of the proxy share, and
-- its default values. Durations are in seconds.
use doh_auth_proxy.Prelude.{
  ℕ, ◌*◌, Bool, true, false, Option, none, List, [], ◌∷◌, Outcome, ok, ◌>>=◌, unwrap, traverse,
}
use doh_auth_proxy.Text.{Text, codes}
use doh_auth_proxy.Url.{UrlLib}

-- `std::net::IpAddr`, an address as its number.
pub data IpAddr : Type 0 where
  v4 : ℕ → IpAddr
  v6 : ℕ → IpAddr

pub record SocketAddr : Type 0 where
  pub ip : IpAddr
  pub port : ℕ

-- `str::parse` of the standard library for addresses.
pub record AddrParser : Type 0 where
  pub parse_v4 : Text → Option ℕ
  pub parse_v6 : Text → Option ℕ
  pub parse_ip : Text → Option IpAddr
  pub parse_socket : Text → Option SocketAddr

pub record BootstrapDns : Type 0 where
  pub ips : List IpAddr
  pub port : ℕ

pub record QueryManipulationConfig : Type 0 where
  pub domain_override : Option (List Text)
  pub domain_block : Option (List Text)
  pub min_ttl : ℕ

unfoldable pub query_manipulation_default : QueryManipulationConfig
query_manipulation_default = record { domain_override = none; domain_block = none; min_ttl = 10 }

module _ (U : UrlLib) where
  open U use {Url, parse}

  pub record TargetConfig : Type 0 where
    pub use_get : Bool
    pub doh_target_urls : List Url
    pub target_randomization : Bool

  pub record NextHopRelayConfig : Type 0 where
    pub odoh_relay_urls : List Url
    pub odoh_relay_randomization : Bool

  pub record SubseqRelayConfig : Type 0 where
    pub mid_relay_urls : List Url
    pub max_mid_relays : ℕ

  pub record AuthenticationConfig : Type 0 where
    pub username : Text
    pub password : Text
    pub client_id : Text
    pub token_api : Url

  pub record ProxyConfig : Type 0 where
    pub listen_addresses : List SocketAddr
    pub max_connections : ℕ
    pub max_cache_size : ℕ
    pub bootstrap_dns : BootstrapDns
    pub endpoint_resolution_period_sec : ℕ
    pub healthcheck_period_sec : ℕ
    pub udp_buffer_size : ℕ
    pub udp_channel_capacity : ℕ
    pub udp_timeout_sec : ℕ
    pub tcp_listen_backlog : ℕ
    pub http_timeout_sec : ℕ
    pub target_config : TargetConfig
    pub nexthop_relay_config : Option NextHopRelayConfig
    pub subseq_relay_config : Option SubseqRelayConfig
    pub authentication_config : Option AuthenticationConfig
    pub query_manipulation_config : Option QueryManipulationConfig

  -- `TargetConfig::default`.
  unfoldable pub target_default : Outcome TargetConfig
  target_default = do
    urls ← traverse (λ v. unwrap (parse v)) (codes "https://dns.google/dns-query" ∷ [])
    ok (record { use_get = false; doh_target_urls = urls; target_randomization = true })

  -- `ProxyConfig::default`.
  unfoldable pub proxy_default : AddrParser → Outcome ProxyConfig
  unfolding target_default
  proxy_default a = do
    listen ←
        traverse (λ v. unwrap (a.parse_socket v))
          (codes "127.0.0.1:50053" ∷ codes "[::1]:50053" ∷ [])
    ips ← traverse (λ v. unwrap (a.parse_ip v)) (codes "1.1.1.1" ∷ [])
    target ← target_default
    ok (record {
      listen_addresses = listen;
      max_connections = 128;
      max_cache_size = 16384;
      bootstrap_dns = record { ips = ips; port = 53 };
      endpoint_resolution_period_sec = 60 * 60;
      healthcheck_period_sec = 10 * 60;
      udp_buffer_size = 2048;
      udp_channel_capacity = 1024;
      udp_timeout_sec = 10;
      tcp_listen_backlog = 1024;
      http_timeout_sec = 10;
      target_config = target;
      nexthop_relay_config = none;
      subseq_relay_config = none;
      authentication_config = none;
      query_manipulation_config = none;
    })
