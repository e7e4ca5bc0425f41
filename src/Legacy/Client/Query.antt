-- ===== src/Legacy/Client/Query.antt =====
-- `make_doh_query` of legacy/src/client/doh_client.rs: plugins, the cache, and then the exchange.
use doh_auth_proxy.Prelude.{
  ℕ, Bool, Option, none, some, List, Outcome, ok, err, panic, ◌>>=◌, other,
}
use doh_auth_proxy.Text.{Text}
use doh_auth_proxy.Url.{UrlLib}
use doh_auth_proxy.Hickory.{Hickory}
use doh_auth_proxy.Dns.{Request, request_try_from, is_query, is_response, encode}
use doh_auth_proxy.Path.{at_index}
use doh_auth_proxy.Cache.Linked.{LinkedHashMap}
use doh_auth_proxy.Cache.{CacheObject, Cache, get, put, build_response}
use doh_auth_proxy.Manipulation.Libs.{CedarLib}
use doh_auth_proxy.Client.Http.{HttpLib, OdohLib}
use doh_auth_proxy.Legacy.Libs.{UrlText, Net}
use doh_auth_proxy.Legacy.Plugins.{
  QueryPluginExecutionResult, QueryPluginAction, pass, execute, passed,
}
use doh_auth_proxy.Legacy.Context.{Settings, Context}
use doh_auth_proxy.Legacy.Client.{DohClient}
use doh_auth_proxy.Legacy.Client.Exchange.{Ran, serve}

module _ (H : Hickory) (C : CedarLib) where
  unfoldable pub execute_plugins :
      Settings C → H.Message → Request H → Outcome (QueryPluginExecutionResult H)
  execute_plugins settings query_msg req = elim settings.query_plugins [
    | none ↦ ok (passed H C)
    | some query_plugins ↦
        at_index req.keys 0 >>= λ q_key. execute H C query_msg q_key settings.min_ttl query_plugins
  ]

  unfoldable pub plugin_response : Option H.Message → Outcome (List ℕ)
  plugin_response none = err other
  plugin_response (some r_msg) = encode H r_msg

module _ (H : Hickory) (U : UrlLib) (X : UrlText U) (W : HttpLib) (C : CedarLib) (O : OdohLib)
    {Conn : Type 0} {dec : Discrete (Request H)} (L : LinkedHashMap (Request H) (CacheObject H) dec)
    (N : Net W Conn) (shuffle : List Text → List Text) (gen_range : ℕ → ℕ → ℕ)
    (draw now after : ℕ) where
  abbrev pub QueryContext : Type 0
  QueryContext = Context C O Conn (Cache H L)

  abbrev Reply : Type 0
  Reply = Ran U X W C O (Cache H L) N shuffle gen_range draw (List ℕ)

  -- The cache takes a response; a failure of the cache is only reported.
  unfoldable pub cached_response : QueryContext → Request H → List ℕ → Outcome H.Message → Reply
  cached_response context req response_buf (ok response_message) = some (
    record context { cache = (put H L after context.cache req response_message).0 },
    ok response_buf,
  )
  cached_response context req response_buf (err e) = some (context, err other)
  cached_response context req response_buf panic = some (context, panic)

  unfoldable pub responded : Request H → Reply → Reply
  unfolding cached_response
  responded req none = none
  responded req (some (context, ok response_buf)) =
      cached_response context req response_buf (is_response H response_buf)
  responded req (some (context, err e)) = some (context, err e)
  responded req (some (context, panic)) = some (context, panic)

  -- The exchange, unless the cache has an answer that is encoded.
  unfoldable pub unless_cached :
      Bool
      → QueryContext
      → DohClient O Conn
      → List ℕ
      → Request H
      → Option (Outcome (List ℕ))
      → Reply
  unfolding responded
  unless_cached guarded context client packet_buf req (some (ok response_buf)) =
      some (context, ok response_buf)
  unless_cached guarded context client packet_buf req (some panic) = some (context, panic)
  unless_cached guarded context client packet_buf req _ =
      responded req
        (serve U X W C O (Cache H L) N shuffle gen_range draw guarded context client packet_buf)

  unfoldable pub after_plugins :
      Bool
      → QueryContext
      → DohClient O Conn
      → List ℕ
      → ℕ
      → Request H
      → QueryPluginAction
      → Option H.Message
      → Reply
  unfolding unless_cached
  after_plugins guarded context client packet_buf query_id req pass m =
      let (cache, found) = get H L now context.cache req in
      unless_cached guarded (record context { cache = cache }) client packet_buf req
        (elim found [ none ↦ none | some res ↦ some (build_response H now res query_id) ])
  after_plugins guarded context client packet_buf query_id req _ m =
      some (context, plugin_response H C m)

  unfoldable pub parsed :
      Bool
      → QueryContext
      → DohClient O Conn
      → List ℕ
      → H.Message
      → Request H
      → Outcome (QueryPluginExecutionResult H)
      → Reply
  unfolding after_plugins
  parsed guarded context client packet_buf query_msg req (ok r) =
      after_plugins guarded context client packet_buf (H.parts query_msg).id req r.action
        r.response_msg
  parsed guarded context client packet_buf query_msg req (err e) = some (context, err e)
  parsed guarded context client packet_buf query_msg req panic = some (context, panic)

  unfoldable pub requested :
      Bool → QueryContext → DohClient O Conn → List ℕ → H.Message → Outcome (Request H) → Reply
  unfolding parsed execute_plugins
  requested guarded context client packet_buf query_msg (ok req) =
      parsed guarded context client packet_buf query_msg req
        (execute_plugins H C context.settings query_msg req)
  requested guarded context client packet_buf query_msg (err e) = some (context, err other)
  requested guarded context client packet_buf query_msg panic = some (context, panic)

  unfoldable pub decoded :
      Bool → QueryContext → DohClient O Conn → List ℕ → Outcome H.Message → Reply
  unfolding requested
  decoded guarded context client packet_buf (ok query_msg) =
      requested guarded context client packet_buf query_msg (request_try_from H query_msg)
  decoded guarded context client packet_buf (err e) = some (context, err other)
  decoded guarded context client packet_buf panic = some (context, panic)

  -- `DoHClient::make_doh_query`.
  unfoldable pub make_doh_query : Bool → QueryContext → DohClient O Conn → List ℕ → Reply
  unfolding decoded
  make_doh_query guarded context client packet_buf =
      decoded guarded context client packet_buf (is_query H packet_buf)
