-- ===== src/Entry.antt =====
-- `entrypoint` of dap-lib/src/lib.rs: the parts that are built before the services run, in the order
-- in which they are built. It waits for the first service to end, and gives no error then. What
-- the token client of the auth_client crate answers is an argument.
use doh_auth_proxy.Prelude.{
  ◌≡◌, refl, sym, ap, subst, ◌∙◌, inl, inr, Option, none, some, List, [], ◌∷◌, ◌++◌, Memᴰ, Outcome,
  ok, panic, ◌>>=◌, >>=-eq-ok, ok_inj, is_empty, Bool, true, false, if◌then◌else◌, Option-cases,
  mem-append_left,
}
use doh_auth_proxy.Text.{Text}
use doh_auth_proxy.Url.{UrlLib, Permutations}
use doh_auth_proxy.Globals.{SocketAddr, AddrParser, ProxyConfig, AuthenticationConfig}
use doh_auth_proxy.Hickory.{Hickory}
use doh_auth_proxy.Dns.{Request}
use doh_auth_proxy.Path.{DohRelay, DohPath, DohPathManager}
use doh_auth_proxy.Path.Build
use doh_auth_proxy.Path.Build.{new_path, relay_of, target_of}
use doh_auth_proxy.Path.Loops.{Listed}
use doh_auth_proxy.Path.Laws.{Listed-new_iff, Listed-new-none}
use doh_auth_proxy.Cache.{CacheObject}
use doh_auth_proxy.Cache.Linked.{LinkedHashMap}
use doh_auth_proxy.Manipulation.Libs.{CedarLib, Regex}
use doh_auth_proxy.Client.Http.{HttpLib, HttpRequest, HttpResponse, OdohLib}
use doh_auth_proxy.Client.Query.{DohClient, ClientState}
use doh_auth_proxy.Client.New
use doh_auth_proxy.Client.New.{new-path_manager}
use doh_auth_proxy.HttpClient.{
  ResolveIpResponse, ClientBuilderLib, HttpClient, new_client, new_client-endpoints, nexthops,
  endpoint_candidates,
}

-- A token client: whether it logs in, and the token it has then.
pub record TokenClient : Type 0 where
  pub login : Outcome (Unit {0})
  pub token : Outcome Text

-- `Authenticator::new`.
unfoldable pub authenticator : Outcome TokenClient → Outcome TokenClient
authenticator client = do inner ← client; _ ← inner.login; ok inner

module _ (K : ClientBuilderLib) (U : UrlLib) (perms : Permutations DohRelay) (H : Hickory)
    (C : CedarLib) (W : HttpLib) (O : OdohLib) (R : Regex) (A : AddrParser)
    (http : HttpRequest W → Option HttpResponse) {dec : Discrete (Request H)}
    (L : LinkedHashMap (Request H) (CacheObject H) dec) where
  -- What the services run with.
  pub record Services : Type 0 where
    pub http_client : HttpClient K U
    pub doh_client : DohClient U H C W O
    pub state : ClientState U H C W O http L
    pub listeners : List SocketAddr

  id_token :
      (AuthenticationConfig U → Outcome TokenClient)
      → Option (AuthenticationConfig U)
      → Outcome (Option (Outcome Text))
  unfolding authenticator
  id_token token_client none = ok none
  id_token token_client (some auth) = authenticator (token_client auth) >>= λ a. ok (some a.token)

  unfoldable pub entrypoint :
      Text
      → Outcome (U.Url → Outcome ResolveIpResponse)
      → (AuthenticationConfig U → Outcome TokenClient)
      → ProxyConfig U
      → Outcome Services
  unfolding id_token
  entrypoint version bootstrap token_client config = do
    resolver ← bootstrap
    http_client ←
        new_client K U version (endpoint_candidates U config) config.http_timeout_sec none resolver
          config.endpoint_resolution_period_sec
    token ← id_token token_client config.authentication_config
    built ← New.new U perms H C W O R A http L config token
    if is_empty config.listen_addresses
        then panic
        else ok (record {
          http_client = http_client;
          doh_client = built.0;
          state = built.1;
          listeners = config.listen_addresses;
        })

  -- The authority that a query along the path is sent to.
  abbrev pub first_authority : DohPath → Text
  first_authority p = elim p.relays [ [] ↦ p.target.authority | r ∷ rs ↦ r.authority ]

  nexthops-cover :
      (config : ProxyConfig U) (p : DohPath)
      → Listed p (Build.new U perms config).paths
      → (url : U.Url) × Memᴰ url (nexthops U config) × (U.authority url ≡ first_authority p)
  unfolding nexthops new_path relay_of target_of
  nexthops-cover config p l = elim (Option-cases config.nexthop_relay_config) [
    | inl e ↦
        let (url, among, made) = Listed-new-none U perms config p e l in
        (url, rw e among, sym (ap first_authority made))
    | inr (n, e) ↦
        let (c, _) = (Listed-new_iff U perms config n e p).0 l in
        (c.hop_url, rw e c.has_hop, sym (ap first_authority c.made))
  ]

  candidates-cover :
      (config : ProxyConfig U) (url : U.Url)
      → Memᴰ url (nexthops U config)
      → Memᴰ url (endpoint_candidates U config)
  unfolding endpoint_candidates
  candidates-cover config url m =
      elim config.authentication_config
        as (λ o. Memᴰ url (elim o [
          | none ↦ nexthops U config
          | some auth ↦ nexthops U config ++ auth.token_api ∷ []
        ])) [ none ↦ m | some auth ↦ mem-append_left (nexthops U config) (auth.token_api ∷ []) m ]

  running :
      (none_given : Bool) (built s : Services)
      → (if none_given then panic else ok built) ≡ ok s
      → (none_given ≡ false) × (built ≡ s)
  running true built s e = cc
  running false built s e = (refl, ok_inj e)

  -- Where all parts are built, every path of the client begins at the authority of one of the
  -- endpoints whose addresses the HTTP client has resolved and keeps resolving, and there is an
  -- address to listen on.
  pub entrypoint_lem :
      (version : Text) (bootstrap : Outcome (U.Url → Outcome ResolveIpResponse))
      (token_client : AuthenticationConfig U → Outcome TokenClient) (config : ProxyConfig U)
      (s : Services) (p : DohPath)
      → entrypoint version bootstrap token_client config ≡ ok s
      → Listed p s.doh_client.path_manager.paths
      → (url : U.Url) × Memᴰ url s.http_client.endpoints
        × (U.authority url ≡ first_authority p)
        × (is_empty s.listeners ≡ false)
  unfolding entrypoint
  entrypoint_lem version bootstrap token_client config s p e l =
      let (resolver, _, e1) = >>=-eq-ok bootstrap _ e in
      let (c, ec, e2) =
        >>=-eq-ok
          (new_client K U version (endpoint_candidates U config) config.http_timeout_sec none
            resolver config.endpoint_resolution_period_sec)
          _ e1 in
      let (token, _, e3) = >>=-eq-ok (id_token token_client config.authentication_config) _ e2 in
      let (built, eb, e4) = >>=-eq-ok (New.new U perms H C W O R A http L config token) _ e3 in
      let (some_listener, made) = running (is_empty config.listen_addresses) _ s e4 in
      let same : s.http_client.endpoints ≡ endpoint_candidates U config =
        ap (λ (s : Services). s.http_client.endpoints) (sym made)
        ∙ new_client-endpoints K U version _ _ none resolver _ c ec in
      let paths : s.doh_client.path_manager ≡ Build.new U perms config =
        ap (λ (s : Services). s.doh_client.path_manager) (sym made)
        ∙ new-path_manager U perms H C W O R A http L config token built eb in
      let (url, among, first) =
        nexthops-cover config p (subst (λ (m : DohPathManager). Listed p m.paths) paths l) in
      (
        url,
        subst (Memᴰ url) (sym same) (candidates-cover config url among),
        first,
        ap (λ (s : Services). is_empty s.listeners) (sym made) ∙ some_listener,
      )
