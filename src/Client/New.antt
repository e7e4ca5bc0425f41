-- ===== src/Client/New.antt =====
-- `DoHClient::new` of dap-lib/src/doh_client/doh_client_main.rs. `id_token` is what the authenticator
-- gives, where there is one; spawning the service that watches the ODoH keys is left out.
use doh_auth_proxy.Prelude.{
  ◌≡◌, refl, sym, ap, subst, ◌∙◌, ◌⊎◌, inl, inr, false, Option, none, some, List, [], ◌∷◌, Outcome,
  ok, err, panic, ◌>>=◌, >>=-eq-ok, ok_inj, odoh_no_relay_url, if◌then◌else◌, is_empty,
  Option-cases, Bool-cases, Memᴰ,
}
use doh_auth_proxy.Text.{Text}
use doh_auth_proxy.Url.{UrlLib, Permutations}
use doh_auth_proxy.Globals.{AddrParser, ProxyConfig, NextHopRelayConfig, QueryManipulationConfig}
use doh_auth_proxy.Hickory.{Hickory}
use doh_auth_proxy.Dns.{Request}
use doh_auth_proxy.Path.{standard, oblivious, DohRelay, DohPath, DohPathManager, targets}
use doh_auth_proxy.Path.Build
use doh_auth_proxy.Path.Build.{new_path}
use doh_auth_proxy.Path.Loops.{Listed}
use doh_auth_proxy.Path.Laws.{Listed-new_iff, Listed-new-none}
use doh_auth_proxy.Cache.Linked.{LinkedHashMap}
use doh_auth_proxy.Cache
use doh_auth_proxy.Cache.{CacheObject}
use doh_auth_proxy.Manipulation.Libs.{CedarLib, Regex}
use doh_auth_proxy.Manipulation.Apply.{Manipulator, manipulators_try_from}
use doh_auth_proxy.Client.Http.{post_method, HttpLib, HttpRequest, HttpResponse, OdohLib}
use doh_auth_proxy.Client.Odoh.{OdohConfigStore, new_store}
use doh_auth_proxy.Client.Exchange.{Net}
use doh_auth_proxy.Client.Query.{DohClient, ClientState, choose_type, choose_method, base_headers}

module _ (U : UrlLib) (perms : Permutations DohRelay) (H : Hickory) (C : CedarLib) (W : HttpLib)
    (O : OdohLib) (R : Regex) (A : AddrParser) (http : HttpRequest W → Option HttpResponse) where
  -- The store of ODoH keys, with the requests that fill it, where relays are configured.
  odoh_configs : DohPathManager → Option (NextHopRelayConfig U) → Outcome (Net U W O)
  odoh_configs pm none = ok (record { sent = []; odoh_configs = none })
  odoh_configs pm (some nexthop) =
      if is_empty nexthop.odoh_relay_urls
      then err odoh_no_relay_url
      else (targets pm >>= λ ts.
          new_store O U W http ts >>= λ r. ok (record { sent = r.0; odoh_configs = some r.1 }))

  store_lem :
      (pm : DohPathManager) (nexthop : Option (NextHopRelayConfig U)) (net : Net U W O)
      → odoh_configs pm nexthop ≡ ok net
      → ((choose_type U nexthop ≡ oblivious)
          × ((store : OdohConfigStore O) × (net.odoh_configs ≡ some store)))
        ⊎ (choose_type U nexthop ≡ standard)
  unfolding odoh_configs choose_type
  store_lem pm none net e = inr refl
  store_lem pm (some n) net e = elim (Bool-cases (is_empty n.odoh_relay_urls)) [
    | inl empty ↦ cc (rw empty at e)
    | inr full ↦
        let (ts, _, e1) = >>=-eq-ok (targets pm) _ (rw full at e) in
        let (r, _, e2) = >>=-eq-ok (new_store O U W http ts) _ e1 in
        inl (rw full refl, (r.1, ap (λ (x : Net U W O). x.odoh_configs) (sym (ok_inj e2))))
  ]

  not_empty : {B : Type 0} {x : B} (xs : List B) → Memᴰ x xs → is_empty xs ≡ false
  not_empty [] m = elim m [ ]
  not_empty (x ∷ xs) m = refl

  type_lem :
      (config : ProxyConfig U) (p : DohPath)
      → Listed p (Build.new U perms config).paths
      → p.doh_type ≡ choose_type U config.nexthop_relay_config
  unfolding choose_type new_path
  type_lem config p l = elim (Option-cases config.nexthop_relay_config) [
    | inl e ↦
        let (url, _, made) = Listed-new-none U perms config p e l in
        rw e (ap (λ (q : DohPath). q.doh_type) made)
    | inr (n, e) ↦
        let (c, _) = (Listed-new_iff U perms config n e p).0 l in
        let full = not_empty n.odoh_relay_urls c.has_hop in
        rw (e, full) (ap (λ (q : DohPath). q.doh_type) c.made)
  ]

  -- `try_into().ok()`: no manipulators where building them fails.
  built : Outcome (List (Manipulator C)) → Outcome (Option (List (Manipulator C)))
  built (ok ms) = ok (some ms)
  built (err e) = ok none
  built panic = panic

  query_manipulators : Option QueryManipulationConfig → Outcome (Option (List (Manipulator C)))
  unfolding built
  query_manipulators none = ok none
  query_manipulators (some q) = built (manipulators_try_from C R A q)

  module _ {dec : Discrete (Request H)} (L : LinkedHashMap (Request H) (CacheObject H) dec) where
    unfoldable pub new :
        ProxyConfig U
        → Option (Outcome Text)
        → Outcome (DohClient U H C W O × ClientState U H C W O http L)
    unfolding odoh_configs query_manipulators
    new config id_token =
        let path_manager = Build.new U perms config in
        let doh_type = choose_type U config.nexthop_relay_config in
        odoh_configs path_manager config.nexthop_relay_config >>= λ net.
        base_headers W doh_type >>= λ headers.
        query_manipulators config.query_manipulation_config >>= λ ms. ok (
          record {
            id_token = id_token;
            path_manager = path_manager;
            doh_type = doh_type;
            doh_method = choose_method U doh_type config.target_config.use_get;
            headers = headers;
            query_manipulators = ms;
          },
          record { cache = Cache.new H L config.max_cache_size; net = net },
        )

    -- The settings agree: with relays, queries go by POST to oblivious paths and there is a store
    -- of keys; without, every path is a standard one.
    pub record IsConsistent (c : DohClient U H C W O) (s : ClientState U H C W O http L)
        : Type 0 where
      pub typed : (p : DohPath) → Listed p c.path_manager.paths → p.doh_type ≡ c.doh_type
      pub keyed :
          ((c.doh_type ≡ oblivious)
            × (c.doh_method ≡ post_method)
            × ((store : OdohConfigStore O) × (s.net.odoh_configs ≡ some store)))
          ⊎ (c.doh_type ≡ standard)

    -- A client that is built has settings that agree.
    pub new-IsConsistent :
        (config : ProxyConfig U) (id_token : Option (Outcome Text)) (c : DohClient U H C W O)
        (s : ClientState U H C W O http L)
        → new config id_token ≡ ok (c, s)
        → IsConsistent c s
    unfolding new choose_method
    new-IsConsistent config id_token c s e =
        let (net, en, e1) =
          >>=-eq-ok (odoh_configs (Build.new U perms config) config.nexthop_relay_config) _ e in
        let (headers, _, e2) =
          >>=-eq-ok (base_headers W (choose_type U config.nexthop_relay_config)) _ e1 in
        let (ms, _, e3) = >>=-eq-ok (query_manipulators config.query_manipulation_config) _ e2 in
        let made = ok_inj e3 in
        subst (λ p. IsConsistent p.0 p.1) made
          (record {
            typed = λ p l. type_lem config p l;
            keyed = elim (store_lem (Build.new U perms config) config.nexthop_relay_config net en) [
              | inl (obl, store) ↦
                  inl (
                    obl,
                    ap (λ t. choose_method U t config.target_config.use_get) obl ∙ refl,
                    store,
                  )
              | inr std ↦ inr std
            ];
          })

    -- The paths of a client are those that the configuration gives.
    pub new-path_manager :
        (config : ProxyConfig U) (id_token : Option (Outcome Text))
        (r : DohClient U H C W O × ClientState U H C W O http L)
        → new config id_token ≡ ok r
        → r.0.path_manager ≡ Build.new U perms config
    unfolding new
    new-path_manager config id_token r e =
        let (net, _, e1) =
          >>=-eq-ok (odoh_configs (Build.new U perms config) config.nexthop_relay_config) _ e in
        let (headers, _, e2) =
          >>=-eq-ok (base_headers W (choose_type U config.nexthop_relay_config)) _ e1 in
        let (ms, _, e3) = >>=-eq-ok (query_manipulators config.query_manipulation_config) _ e2 in
        sym (ap (λ p. p.0.path_manager) (ok_inj e3))
