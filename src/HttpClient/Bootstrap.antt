-- ===== src/HttpClient/Bootstrap.antt =====
-- `resolve_ips` of dap-lib/src/bootstrap.rs. The lookup of the resolver crate is a parameter, with
-- nothing where it fails; an address is printed with its port and parsed again.
use doh_auth_proxy.Prelude.{
  ℕ, Option, none, some, List, [], ◌∷◌, ◌++◌, Outcome, ok, err, ◌>>=◌, other,
  bootstrap_resolver_error, if◌then◌else◌, is_empty, ok_or,
}
use doh_auth_proxy.Text.{Text, codes, text_eq}
use doh_auth_proxy.Url.{UrlLib}
use doh_auth_proxy.Globals.{IpAddr, SocketAddr, AddrParser}
use doh_auth_proxy.Path.{show}
use doh_auth_proxy.HttpClient.{ResolveIpResponse}

-- `port().unwrap_or_else(..)` of both resolvers.
abbrev pub port_or_default : (U : UrlLib) → U.Url → ℕ
port_or_default U url = elim (U.port url) [
  | some p ↦ p
  | none ↦ if text_eq (U.scheme url) (codes "https") then 443 else 80
]

-- `filter_map(|a| format!("{}:{}", a, port).parse().ok())`.
module _ {ℓ} {A : Type ℓ} (P : AddrParser) (print : A → Text) (port : ℕ) where
  unfoldable pub socket_addrs : List A → List SocketAddr
  socket_addrs [] = []
  socket_addrs (a ∷ rest) = elim (P.parse_socket (print a ++ (codes ":" ++ show port))) [
    | none ↦ socket_addrs rest
    | some s ↦ s ∷ socket_addrs rest
  ]

module _ (U : UrlLib) (P : AddrParser) (print : IpAddr → Text) (host_str : U.Url → Option Text)
    (lookup_ip : Text → Option (List IpAddr)) where
  unfoldable pub bootstrap_resolve : U.Url → Outcome ResolveIpResponse
  unfolding socket_addrs
  bootstrap_resolve target_url = ok_or other (host_str target_url) >>= λ host.
      ok_or bootstrap_resolver_error (lookup_ip (host ++ codes ".")) >>= λ response.
      let target_addrs = socket_addrs P print (port_or_default U target_url) response in
      if is_empty target_addrs
      then err other
      else ok (record { hostname = host; addresses = target_addrs })
