-- ===== src/Client/Query.antt =====
-- dap-lib/src/doh_client/doh_client_main.rs: a query from its packet to the answer.
use doh_auth_proxy.Prelude.{
  ℕ, Bool, Option, none, some, List, ◌++◌, Outcome, ok, err, panic, ◌>>=◌, invalid_dns_query,
  invalid_dns_response, no_path_available, if◌then◌else◌, is_empty, unwrap, map_err,
}
use doh_auth_proxy.Text.{Text, codes}
use doh_auth_proxy.Url.{UrlLib}
use doh_auth_proxy.Globals.{NextHopRelayConfig}
use doh_auth_proxy.Hickory.{Hickory}
use doh_auth_proxy.Dns.{Request, request_try_from, is_query, is_response, encode}
use doh_auth_proxy.Path.{DohType, standard, oblivious, DohPath, DohPathManager, get_path, at_index}
use doh_auth_proxy.Cache.Linked.{LinkedHashMap}
use doh_auth_proxy.Cache.{CacheObject, Cache, get, put, build_response}
use doh_auth_proxy.Manipulation.Libs.{CedarLib}
use doh_auth_proxy.Manipulation.Apply.{
  ManipulationResult, pass_through, synthetic_response, Manipulator, apply_all,
}
use doh_auth_proxy.Client.Http.{
  DohMethod, get_method, post_method, HttpLib, HttpRequest, HttpResponse, OdohLib,
}
use doh_auth_proxy.Client.Exchange.{Net, Run, then_run, serve_doh_query, serve_oblivious_doh_query}

-- `DoHType::as_str`.
abbrev pub type_str : DohType → Text
type_str standard = codes "application/dns-message"
type_str oblivious = codes "application/oblivious-dns-message"

module _ (U : UrlLib) where
  -- The type and the method that `DoHClient::new` chooses.
  unfoldable pub choose_type : Option (NextHopRelayConfig U) → DohType
  choose_type none = standard
  choose_type (some nexthop) = if is_empty nexthop.odoh_relay_urls then standard else oblivious

  unfoldable pub choose_method : DohType → Bool → DohMethod
  choose_method standard use_get = if use_get then get_method else post_method
  choose_method oblivious use_get = post_method

-- The base headers that `DoHClient::new` builds.
unfoldable pub base_headers : (W : HttpLib) → DohType → Outcome W.Headers
base_headers W t = do
  ct ← unwrap (W.header_value (type_str t))
  let headers = W.insert (W.insert W.no_headers (codes "Accept") ct) (codes "Content-Type") ct
  elim t [
    | standard ↦ ok headers
    | oblivious ↦ do
      v ← unwrap (W.header_value (codes "no-cache, no-store"))
      ok (W.insert headers (codes "Cache-Control") v)
  ]

module _ (U : UrlLib) (H : Hickory) (C : CedarLib) (W : HttpLib) (O : OdohLib) where
  -- `DoHClient`. `id_token` is what the authenticator gives, where there is one.
  pub record DohClient : Type 0 where
    pub id_token : Option (Outcome Text)
    pub path_manager : DohPathManager
    pub doh_type : DohType
    pub doh_method : DohMethod
    pub headers : W.Headers
    pub query_manipulators : Option (List (Manipulator C))

  unfoldable pub build_headers : DohClient → Outcome W.Headers
  build_headers c = elim c.id_token [
    | none ↦ ok c.headers
    | some id_token ↦ do
      token ← id_token
      v ← unwrap (W.header_value (codes "Bearer " ++ token))
      ok (W.insert c.headers (codes "authorization") v)
  ]

  module _ (http : HttpRequest W → Option HttpResponse) where
    serve : DohClient → Net U W O → List ℕ → DohPath → W.Headers → Run U W O (List ℕ)
    unfolding serve_doh_query serve_oblivious_doh_query
    serve c n packet_buf path headers = elim c.doh_type [
      | standard ↦ serve_doh_query U W O http c.doh_method n packet_buf path headers
      | oblivious ↦ serve_oblivious_doh_query U W O http c.doh_method n packet_buf path headers
    ]

    unfoldable pub make_doh_query_inner :
        DohClient → Net U W O → List ℕ → DohPath → Run U W O (List ℕ × H.Message)
    unfolding build_headers serve
    make_doh_query_inner c n packet_buf path =
        then_run U W O (n, build_headers c)
          (λ n0 headers. then_run U W O (serve c n0 packet_buf path headers) (λ n1 response_buf.
            then_run U W O (n1, map_err invalid_dns_response (is_response H response_buf))
              (λ n2 response_message. (n2, ok (response_buf, response_message)))))

    -- The manipulators' result, a pass-through where there are none.
    unfoldable pub manipulated : DohClient → H.Message → Request H → Outcome (ManipulationResult H)
    manipulated c query_msg req = elim c.query_manipulators [
      | none ↦ ok pass_through
      | some ms ↦ at_index req.keys 0 >>= λ q_key. apply_all H C ms query_msg q_key
    ]

    module _ {dec : Discrete (Request H)} (L : LinkedHashMap (Request H) (CacheObject H) dec) where
      pub record ClientState : Type 0 where
        pub cache : Cache H L
        pub net : Net U W O

      module _ (now after : ℕ) (draw : ℕ → ℕ → ℕ) (c : DohClient) where
        -- The cache takes the response; a failure of the cache is only reported.
        stored :
            ClientState
            → Request H
            → Run U W O (List ℕ × H.Message)
            → ClientState × Outcome (List ℕ)
        stored s req (n, ok (response_buf, response_message)) = (
          record { cache = (put H L after s.cache req response_message).0; net = n },
          ok response_buf,
        )
        stored s req (n, err e) = (record s { net = n }, err e)
        stored s req (n, panic) = (record s { net = n }, panic)

        query_path :
            ClientState
            → List ℕ
            → Request H
            → Outcome (Option DohPath)
            → ClientState × Outcome (List ℕ)
        unfolding stored
        query_path s packet_buf req (ok none) = (s, err no_path_available)
        query_path s packet_buf req (ok (some path)) =
            stored s req (make_doh_query_inner c s.net packet_buf path)
        query_path s packet_buf req (err e) = (s, err e)
        query_path s packet_buf req panic = (s, panic)

        -- The query goes out unless the cache answers.
        unless_hit :
            ClientState
            → List ℕ
            → Request H
            → Option (Outcome (List ℕ))
            → ClientState × Outcome (List ℕ)
        unfolding query_path
        unless_hit s packet_buf req (some (ok response_buf)) = (s, ok response_buf)
        unless_hit s packet_buf req (some (err e)) =
            query_path s packet_buf req (get_path draw c.path_manager)
        unless_hit s packet_buf req (some panic) = (s, panic)
        unless_hit s packet_buf req none =
            query_path s packet_buf req (get_path draw c.path_manager)

        after_manipulation :
            ClientState
            → List ℕ
            → ℕ
            → Request H
            → Outcome (ManipulationResult H)
            → ClientState × Outcome (List ℕ)
        unfolding unless_hit
        after_manipulation s packet_buf query_id req (ok pass_through) =
            let (cache, found) = get H L now s.cache req in
            unless_hit (record s { cache = cache }) packet_buf req
              (elim found [ none ↦ none | some res ↦ some (build_response H now res query_id) ])
        after_manipulation s packet_buf query_id req (ok (synthetic_response m)) = (s, encode H m)
        after_manipulation s packet_buf query_id req (err e) = (s, err e)
        after_manipulation s packet_buf query_id req panic = (s, panic)

        parsed :
            ClientState → List ℕ → H.Message → Outcome (Request H) → ClientState × Outcome (List ℕ)
        unfolding after_manipulation manipulated
        parsed s packet_buf query_msg (ok req) =
            after_manipulation s packet_buf (H.parts query_msg).id req (manipulated c query_msg req)
        parsed s packet_buf query_msg (err e) = (s, err e)
        parsed s packet_buf query_msg panic = (s, panic)

        decoded : ClientState → List ℕ → Outcome H.Message → ClientState × Outcome (List ℕ)
        unfolding parsed
        decoded s packet_buf (ok query_msg) =
            parsed s packet_buf query_msg (map_err invalid_dns_query (request_try_from H query_msg))
        decoded s packet_buf (err e) = (s, err e)
        decoded s packet_buf panic = (s, panic)

        unfoldable pub make_doh_query : ClientState → List ℕ → ClientState × Outcome (List ℕ)
        unfolding decoded
        make_doh_query s packet_buf =
            decoded s packet_buf (map_err invalid_dns_query (is_query H packet_buf))
