-- ===== src/HttpClient.antt =====
-- dap-lib/src/http_client, trait_resolve_ips.rs and bootstrap.rs: the HTTP client, whose endpoints are
-- resolved anew from time to time. A resolver is a function from a URL to its answer.
pub mod Bootstrap
pub mod Service
use doh_auth_proxy.Prelude.{
  ℕ, ◌+◌, Bool, true, false, Option, none, some, List, [], ◌∷◌, ◌++◌, map, Outcome, ok, err, panic,
  ◌>>=◌, >>=-eq-ok, ok_inj, sym, ap, ◌≡◌, http_client_error, failed_to_resolve_ips_for_http_client,
  too_many_fails_to_resolve_ips, if◌then◌else◌, any, ok_or, traverse, ltb,
}
use doh_auth_proxy.Text.{Text, codes}
use doh_auth_proxy.Url.{UrlLib}
use doh_auth_proxy.Globals.{SocketAddr, ProxyConfig}

pub record ResolveIpResponse : Type 0 where
  pub hostname : Text
  pub addresses : List SocketAddr

abbrev pub is_err {ℓ} : {A : Type ℓ} → Outcome A → Bool
is_err (ok a) = false
is_err (err e) = true
is_err panic = false

abbrev pub is_panic {ℓ} : {A : Type ℓ} → Outcome A → Bool
is_panic (ok a) = false
is_panic (err e) = false
is_panic panic = true

-- `resolve_ips` of trait_resolve_ips.rs: all answers are awaited before the first error counts.
unfoldable pub resolve_ips :
    {Url : Type 0} → List Url → (Url → Outcome ResolveIpResponse) → Outcome (List ResolveIpResponse)
resolve_ips endpoints resolver_ips =
    let resolved = map resolver_ips endpoints in
    if any is_panic resolved
    then panic
    else if any is_err resolved
    then err failed_to_resolve_ips_for_http_client
    else traverse (λ r. r) resolved

-- `reqwest::ClientBuilder`, which is not part of the repository; `build` may fail.
pub record ClientBuilderLib : Type 1 where
  pub Builder : Type 0
  pub Client : Type 0
  pub HeaderMap : Type 0
  pub builder : Builder
  pub user_agent : Builder → Text → Builder
  pub timeout : Builder → ℕ → Builder
  pub trust_dns : Builder → Bool → Builder
  pub resolve_to_addrs : Builder → Text → List SocketAddr → Builder
  pub default_headers : Builder → HeaderMap → Builder
  pub build : Builder → Option Client

module _ (K : ClientBuilderLib) (U : UrlLib) where
  open K use {Client, HeaderMap}

  -- The inner client with what it is built from.
  pub record HttpClient : Type 0 where
    pub inner : Client
    pub endpoints : List U.Url
    pub default_headers : Option HeaderMap
    pub timeout_sec : ℕ
    pub endpoint_resolution_period_sec : ℕ

  add_addrs : K.Builder → List ResolveIpResponse → K.Builder
  add_addrs client [] = client
  add_addrs client (r ∷ rs) = add_addrs (K.resolve_to_addrs client r.hostname r.addresses) rs

  add_headers : K.Builder → Option HeaderMap → K.Builder
  add_headers client none = client
  add_headers client (some headers) = K.default_headers client headers

  -- The builder that `HttpClientInner::new` sets up; `version` is the version of the package.
  prepared : Text → ℕ → Option HeaderMap → List ResolveIpResponse → K.Builder
  unfolding add_addrs add_headers
  prepared version timeout_sec headers resolved_ips =
      let client =
        K.trust_dns
          (K.timeout (K.user_agent K.builder (codes "doh-auth-proxy/" ++ version)) timeout_sec)
          true in
      add_headers (add_addrs client resolved_ips) headers

  -- `HttpClientInner::new`.
  unfoldable pub new_inner : Text → ℕ → Option HeaderMap → List ResolveIpResponse → Outcome Client
  unfolding prepared
  new_inner version timeout_sec headers resolved_ips =
      ok_or http_client_error (K.build (prepared version timeout_sec headers resolved_ips))

  -- `HttpClient::new`.
  unfoldable pub new_client :
      Text
      → List U.Url
      → ℕ
      → Option HeaderMap
      → (U.Url → Outcome ResolveIpResponse)
      → ℕ
      → Outcome HttpClient
  unfolding resolve_ips new_inner
  new_client version endpoints timeout_sec headers resolver_ips period =
      resolve_ips endpoints resolver_ips >>= λ resolved_ips.
      new_inner version timeout_sec headers resolved_ips >>= λ inner. ok (record {
        inner = inner;
        endpoints = endpoints;
        default_headers = headers;
        timeout_sec = timeout_sec;
        endpoint_resolution_period_sec = period;
      })

  -- A client has the endpoints that it is given.
  pub new_client-endpoints :
      (version : Text) (endpoints : List U.Url) (timeout_sec : ℕ) (headers : Option HeaderMap)
      (resolver_ips : U.Url → Outcome ResolveIpResponse) (period : ℕ) (c : HttpClient)
      → new_client version endpoints timeout_sec headers resolver_ips period ≡ ok c
      → c.endpoints ≡ endpoints
  unfolding new_client
  new_client-endpoints version endpoints timeout_sec headers resolver_ips period c e =
      let (ips, _, e1) = >>=-eq-ok (resolve_ips endpoints resolver_ips) _ e in
      let (inner, _, e2) = >>=-eq-ok (new_inner version timeout_sec headers ips) _ e1 in
      sym (ap (λ (c : HttpClient). c.endpoints) (ok_inj e2))

  -- `update_inner`.
  unfoldable pub update_inner : Text → HttpClient → List ResolveIpResponse → Outcome HttpClient
  unfolding new_inner
  update_inner version c resolved_ips =
      new_inner version c.timeout_sec c.default_headers resolved_ips >>= λ inner.
      ok (record c { inner = inner })

  -- The two resolvers as they answer in one round of the service.
  pub record Round : Type 0 where
    pub primary : U.Url → Outcome ResolveIpResponse
    pub fallback : U.Url → Outcome ResolveIpResponse

  module _ (version : Text) where
    fallback_round : HttpClient → ℕ → Outcome (List ResolveIpResponse) → Outcome (HttpClient × ℕ)
    unfolding update_inner
    fallback_round c fail_cnt (ok ips) = update_inner version c ips >>= λ c'. ok (c', 0)
    fallback_round c fail_cnt (err e) =
        if ltb 3 (fail_cnt + 1) then err too_many_fails_to_resolve_ips else ok (c, fail_cnt + 1)
    fallback_round c fail_cnt panic = panic

    primary_round :
        HttpClient → ℕ → Round → Outcome (List ResolveIpResponse) → Outcome (HttpClient × ℕ)
    unfolding update_inner fallback_round resolve_ips
    primary_round c fail_cnt r (ok ips) = update_inner version c ips >>= λ c'. ok (c', 0)
    primary_round c fail_cnt r (err e) =
        fallback_round c fail_cnt (resolve_ips c.endpoints r.fallback)
    primary_round c fail_cnt r panic = panic

    -- One turn of the loop of `resolve_endpoint_ip_service`, after its sleep.
    unfoldable pub service_round : HttpClient → ℕ → Round → Outcome (HttpClient × ℕ)
    unfolding primary_round resolve_ips
    service_round c fail_cnt r = primary_round c fail_cnt r (resolve_ips c.endpoints r.primary)

    -- The loop over the rounds that come; it ends before the last of them only with an error.
    unfoldable pub endpoint_ip_service : List Round → HttpClient → ℕ → Outcome (HttpClient × ℕ)
    unfolding service_round
    endpoint_ip_service [] c fail_cnt = ok (c, fail_cnt)
    endpoint_ip_service (r ∷ rounds) c fail_cnt =
        service_round c fail_cnt r >>= λ s. endpoint_ip_service rounds s.0 s.1

module _ (U : UrlLib) where
  unfoldable pub nexthops : ProxyConfig U → List U.Url
  nexthops config = elim config.nexthop_relay_config [
    | some nexthop ↦ nexthop.odoh_relay_urls
    | none ↦ config.target_config.doh_target_urls
  ]

  -- The endpoints that `entrypoint` gives the client: what is connected to directly.
  unfoldable pub endpoint_candidates : ProxyConfig U → List U.Url
  unfolding nexthops
  endpoint_candidates config = elim config.authentication_config [
    | none ↦ nexthops config
    | some auth ↦ nexthops config ++ auth.token_api ∷ []
  ]
