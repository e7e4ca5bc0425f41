-- ===== src/Legacy/HttpClient.antt =====
-- legacy/src/client/http_bootstrap.rs. The builder of reqwest and the lookup of the resolver are
-- parameters; an address is printed with its port and parsed again.
use doh_auth_proxy.Prelude.{
  ℕ, ◌≡◌, subst, inl, inr, Option-cases, inl, inr, Bool, true, Option, none, some, List, [], ◌∷◌,
  ◌++◌, Memᴰ, Outcome, ok, err, panic, ◌>>=◌, other, if◌then◌else◌, ok_or, unwrap, traverse, refl,
}
use doh_auth_proxy.Text.{Text, codes}
use doh_auth_proxy.Url.{UrlLib}
use doh_auth_proxy.Globals.{IpAddr, v6, SocketAddr, AddrParser}
use doh_auth_proxy.Path.{show}
use doh_auth_proxy.Client.Http.{HttpLib}
use doh_auth_proxy.HttpClient.Bootstrap.{port_or_default}
use doh_auth_proxy.Legacy.Libs.{UrlText}

-- `reqwest::ClientBuilder`.
pub record BuilderLib (W : HttpLib) : Type 1 where
  pub Builder : Type 0
  pub Client : Type 0
  pub builder : Builder
  pub user_agent : Builder → Text → Builder
  pub timeout : Builder → ℕ → Builder
  pub trust_dns : Builder → Bool → Builder
  pub resolve : Builder → Text → SocketAddr → Builder
  pub default_headers : Builder → W.Headers → Builder
  pub build : Builder → Option Client

module _ (U : UrlLib) (X : UrlText U) (A : AddrParser) (print : IpAddr → Text)
    (lookup_ip : Text → Option (List IpAddr)) where
  -- An address with the port, parsed again.
  abbrev pub target_address : ℕ → IpAddr → Outcome SocketAddr
  target_address port address = unwrap (A.parse_socket (print address ++ (codes ":" ++ show port)))

  some_address : Text → List SocketAddr → Outcome (Text × List SocketAddr)
  some_address host_str [] = err other
  some_address host_str (a ∷ rest) = ok (host_str, a ∷ rest)

  unfoldable pub resolve_by_bootstrap : Text → Outcome (Text × List SocketAddr)
  unfolding some_address
  resolve_by_bootstrap target_url = do
    url ← ok_or other (U.parse target_url)
    host_str ← unwrap (X.host_str url)
    response ← ok_or other (lookup_ip (host_str ++ codes "."))
    target_addresses ← traverse (target_address (port_or_default U url)) response
    some_address host_str target_addresses

  module _ (W : HttpLib) (K : BuilderLib W) where
    pub record HttpClient : Type 0 where
      pub client : K.Client
      pub endpoint : Text
      pub resolve_endpoint_by_system : Bool

    first_address : K.Builder → Text × List SocketAddr → Outcome K.Builder
    first_address client (host, []) = panic
    first_address client (host, a ∷ rest) = ok (K.resolve client host a)

    with_headers : K.Builder → Option W.Headers → K.Builder
    with_headers client none = client
    with_headers client (some headers) = K.default_headers client headers

    -- `HttpClient::new`; `agent` is the name and the version of the package.
    unfoldable pub new : Text → ℕ → Text → Option W.Headers → Bool → Outcome HttpClient
    unfolding resolve_by_bootstrap first_address with_headers
    new agent timeout_sec endpoint headers resolve_endpoint_by_system = do
      let client = K.trust_dns (K.timeout (K.user_agent K.builder agent) timeout_sec) true
      client ←
          if resolve_endpoint_by_system
          then resolve_by_bootstrap endpoint >>= first_address client
          else ok client
      built ← ok_or other (K.build (with_headers client headers))
      ok (record {
        client = built;
        endpoint = endpoint;
        resolve_endpoint_by_system = resolve_endpoint_by_system;
      })

  -- Before the first address that cannot be read back all others are read.
  traverse-panic :
      (port : ℕ) (addresses : List IpAddr) (a : IpAddr)
      → Memᴰ a addresses
      → A.parse_socket (print a ++ (codes ":" ++ show port)) ≡ none
      → traverse (target_address port) addresses ≡ panic
  traverse-panic port [] a m e = elim m [ ]
  traverse-panic port (b ∷ rest) a (Memᴰ.head q) e =
      let e' = subst (λ x. A.parse_socket (print x ++ (codes ":" ++ show port)) ≡ none) q e in
      rw e' refl
  traverse-panic port (b ∷ rest) a (Memᴰ.tail m) e =
      elim (Option-cases (A.parse_socket (print b ++ (codes ":" ++ show port)))) [
        | inl n ↦ rw n refl
        | inr (s, h) ↦ rw (h, traverse-panic port rest a m e) refl
      ]

  -- Where the resolver gives an IPv6 address among others, looking a URL up panics, if an IPv6
  -- address that is printed with a colon and a port behind it does not parse as a socket address.
  pub resolve_by_bootstrap_panics :
      (target_url host_str : Text) (url : U.Url) (response : List IpAddr) (a : ℕ)
      → ((a port : ℕ) → A.parse_socket (print (v6 a) ++ (codes ":" ++ show port)) ≡ none)
      → U.parse target_url ≡ some url
      → X.host_str url ≡ some host_str
      → lookup_ip (host_str ++ codes ".") ≡ some response
      → Memᴰ (v6 a) response
      → resolve_by_bootstrap target_url ≡ panic
  unfolding resolve_by_bootstrap
  resolve_by_bootstrap_panics target_url host_str url response a unreadable e1 e2 e3 m =
      rw (e1, e2, e3, traverse-panic (port_or_default U url) response (v6 a) m (unreadable a _))
        refl
