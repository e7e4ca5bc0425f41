-- ===== src/Legacy/Client/QueryLaws.antt =====
-- A query of legacy/src/client/doh_client.rs leaves the credential of the context.
use doh_auth_proxy.Prelude.{
  ℕ, ◌≡◌, refl, subst, Bool, true, false, Option, none, some, List, Outcome, ok, err, panic,
  Bool-cases, inl, inr,
}
use doh_auth_proxy.Text.{Text}
use doh_auth_proxy.Url.{UrlLib}
use doh_auth_proxy.Hickory.{Hickory}
use doh_auth_proxy.Dns.{Request, request_try_from, is_query, is_response}
use doh_auth_proxy.Path.{standard, oblivious}
use doh_auth_proxy.Cache.Linked.{LinkedHashMap}
use doh_auth_proxy.Cache.{CacheObject, Cache, get}
use doh_auth_proxy.Manipulation.Libs.{CedarLib}
use doh_auth_proxy.Client.Http.{HttpLib, OdohLib}
use doh_auth_proxy.Legacy.Libs.{Response, UrlText, Net}
use doh_auth_proxy.Legacy.Plugins.{
  QueryPluginExecutionResult, QueryPluginAction, pass, blocked, overridden,
}
use doh_auth_proxy.Legacy.Credential.{Credential}
use doh_auth_proxy.Legacy.Context.{Context, replaced, built_clients, update_doh_client}
use doh_auth_proxy.Legacy.Client.{DohClient}
use doh_auth_proxy.Legacy.Client.Exchange.{
  Sealed, is_expired, renewed, answer_in, replied, refetch, then_answer, opened, sent, seal_query,
  serve_doh_query, serve_oblivious_doh_query, serve,
}
use doh_auth_proxy.Legacy.Client.Query.{
  cached_response, responded, unless_cached, after_plugins, parsed, requested, decoded,
  make_doh_query, execute_plugins,
}

-- What comes out, if anything does, has the credential.
abbrev pub Keeps {ℓ} :
    {C : CedarLib} {O : OdohLib} {Conn Cached : Type 0} {A : Type ℓ}
    → Option Credential
    → Option (Context C O Conn Cached × Outcome A)
    → Type 0
Keeps credential none = Unit
Keeps credential (some (context, _)) = context.credential ≡ credential

module _ (U : UrlLib) (X : UrlText U) (W : HttpLib) (C : CedarLib) (O : OdohLib) {Conn : Type 0}
    (Cached : Type 0) (N : Net W Conn) (shuffle : List Text → List Text) (gen_range : ℕ → ℕ → ℕ)
    (draw : ℕ) where
  replaced-credential :
      (context : Context C O Conn Cached) (r : Outcome (List (DohClient O Conn)))
      → (replaced U X W N context r).0.credential ≡ context.credential
  unfolding replaced
  replaced-credential context (ok clients) = refl
  replaced-credential context (err e) = refl
  replaced-credential context panic = refl

  pub update_doh_client-credential :
      (context : Context C O Conn Cached)
      → (update_doh_client U X W N context).0.credential ≡ context.credential
  unfolding update_doh_client
  update_doh_client-credential context = replaced-credential context (built_clients U X W N context)

  renewed-Keeps :
      (guarded : Bool) (credential : Option Credential)
      (r : Context C O Conn Cached × Outcome (Unit {0}))
      → r.0.credential ≡ credential
      → Keeps credential (renewed U X W C O Cached N shuffle gen_range draw guarded r)
  unfolding renewed
  renewed-Keeps true credential (context, ok _) h = tt
  renewed-Keeps false credential (context, ok _) h = h
  renewed-Keeps guarded credential (context, err e) h = h
  renewed-Keeps guarded credential (context, panic) h = h

  refetch-Keeps :
      (guarded : Bool) (context : Context C O Conn Cached)
      → Keeps context.credential (refetch U X W C O Cached N shuffle gen_range draw guarded context)
  unfolding refetch
  refetch-Keeps guarded context =
      renewed-Keeps guarded context.credential (update_doh_client U X W N context)
        (update_doh_client-credential context)

  then_answer-Keeps :
      (credential : Option Credential) (r : Option (Context C O Conn Cached × Outcome (Unit {0})))
      (answer : Outcome (List ℕ))
      → Keeps credential r
      → Keeps credential (then_answer U X W C O Cached N shuffle gen_range draw r answer)
  unfolding then_answer
  then_answer-Keeps credential none answer h = tt
  then_answer-Keeps credential (some (context, ok _)) answer h = h
  then_answer-Keeps credential (some (context, err e)) answer h = h
  then_answer-Keeps credential (some (context, panic)) answer h = h

  abbrev answer : Sealed O Conn → Response → Outcome (List ℕ)
  answer = answer_in U X W C O Cached N shuffle gen_range draw

  opened-Keeps :
      (guarded : Bool) (context : Context C O Conn Cached) (sealed : Sealed O Conn)
      (response : Response) (clength : Option ℕ)
      → Keeps context.credential
          (opened U X W C O Cached N shuffle gen_range draw guarded context sealed response clength)
  unfolding opened
  opened-Keeps guarded context sealed response none = refl
  opened-Keeps guarded context sealed response (some clength) =
      elim (Bool-cases (is_expired response clength)) [
        | inl b ↦ rw b (
            then_answer-Keeps context.credential _ (answer sealed response)
              (refetch-Keeps guarded context))
        | inr b ↦ rw b (
            then_answer-Keeps context.credential (some (context, ok tt)) (answer sealed response)
              refl)
      ]

  replied-Keeps :
      (guarded : Bool) (context : Context C O Conn Cached) (sealed : Sealed O Conn)
      (response : Option Response)
      → Keeps context.credential
          (replied U X W C O Cached N shuffle gen_range draw guarded context sealed response)
  unfolding replied
  replied-Keeps guarded context sealed none = refl
  replied-Keeps guarded context sealed (some response) =
      opened-Keeps guarded context sealed response response.content_length

  sent-Keeps :
      (guarded : Bool) (context : Context C O Conn Cached) (sealed : Outcome (Sealed O Conn))
      → Keeps context.credential
          (sent U X W C O Cached N shuffle gen_range draw guarded context sealed)
  unfolding sent
  sent-Keeps guarded context (ok sealed) =
      replied-Keeps guarded context sealed (N.send sealed.relay sealed.request)
  sent-Keeps guarded context (err e) = refl
  sent-Keeps guarded context panic = refl

  serve-Keeps :
      (guarded : Bool) (context : Context C O Conn Cached) (client : DohClient O Conn)
      (packet_buf : List ℕ)
      → Keeps context.credential
          (serve U X W C O Cached N shuffle gen_range draw guarded context client packet_buf)
  unfolding serve serve_oblivious_doh_query
  serve-Keeps guarded context client packet_buf =
      elim client.doh_type
        as (λ t. Keeps context.credential (elim t [
          | standard ↦ some (context, serve_doh_query W O N client packet_buf)
          | oblivious ↦
              serve_oblivious_doh_query U X W C O Cached N shuffle gen_range draw guarded context
                client packet_buf
        ])) [
          | standard ↦ refl
          | oblivious ↦
              sent-Keeps guarded context
                (seal_query U X W C O shuffle gen_range draw context.settings client packet_buf)
        ]

module _ (H : Hickory) (U : UrlLib) (X : UrlText U) (W : HttpLib) (C : CedarLib) (O : OdohLib)
    {Conn : Type 0} {dec : Discrete (Request H)} (L : LinkedHashMap (Request H) (CacheObject H) dec)
    (N : Net W Conn) (shuffle : List Text → List Text) (gen_range : ℕ → ℕ → ℕ) (draw now after : ℕ)
    (guarded : Bool) (client : DohClient O Conn) (packet_buf : List ℕ) where
  abbrev Sh : Type 0
  Sh = Context C O Conn (Cache H L)

  cached_response-Keeps :
      (context : Sh) (req : Request H) (response_buf : List ℕ) (m : Outcome H.Message)
      → Keeps context.credential (
          cached_response H U X W C O L N shuffle gen_range draw now after context req response_buf
            m)
  unfolding cached_response
  cached_response-Keeps context req response_buf (ok m) = refl
  cached_response-Keeps context req response_buf (err e) = refl
  cached_response-Keeps context req response_buf panic = refl

  responded-Keeps :
      (credential : Option Credential) (req : Request H) (r : Option (Sh × Outcome (List ℕ)))
      → Keeps credential r
      → Keeps credential (responded H U X W C O L N shuffle gen_range draw now after req r)
  unfolding responded
  responded-Keeps credential req none h = tt
  responded-Keeps credential req (some (context, ok response_buf)) h =
      subst
        (λ k. Keeps k (
          cached_response H U X W C O L N shuffle gen_range draw now after context req response_buf
            (is_response H response_buf)))
        h (cached_response-Keeps context req response_buf (is_response H response_buf))
  responded-Keeps credential req (some (context, err e)) h = h
  responded-Keeps credential req (some (context, panic)) h = h

  served-Keeps :
      (context : Sh) (req : Request H)
      → Keeps context.credential (
          responded H U X W C O L N shuffle gen_range draw now after req (
            serve U X W C O (Cache H L) N shuffle gen_range draw guarded context client packet_buf))
  served-Keeps context req =
      responded-Keeps context.credential req _ (
        serve-Keeps U X W C O (Cache H L) N shuffle gen_range draw guarded context client
          packet_buf)

  unless_cached-Keeps :
      (context : Sh) (req : Request H) (found : Option (Outcome (List ℕ)))
      → Keeps context.credential (
          unless_cached H U X W C O L N shuffle gen_range draw now after guarded context client
            packet_buf req found)
  unfolding unless_cached
  unless_cached-Keeps context req (some (ok response_buf)) = refl
  unless_cached-Keeps context req (some panic) = refl
  unless_cached-Keeps context req (some (err e)) = served-Keeps context req
  unless_cached-Keeps context req none = served-Keeps context req

  after_plugins-Keeps :
      (context : Sh) (query_id : ℕ) (req : Request H) (a : QueryPluginAction) (m : Option H.Message)
      → Keeps context.credential (
          after_plugins H U X W C O L N shuffle gen_range draw now after guarded context client
            packet_buf query_id req a m)
  unfolding after_plugins
  after_plugins-Keeps context query_id req pass m =
      unless_cached-Keeps (record context { cache = (get H L now context.cache req).0 }) req _
  after_plugins-Keeps context query_id req blocked m = refl
  after_plugins-Keeps context query_id req overridden m = refl

  parsed-Keeps :
      (context : Sh) (query_msg : H.Message) (req : Request H)
      (r : Outcome (QueryPluginExecutionResult H))
      → Keeps context.credential (
          parsed H U X W C O L N shuffle gen_range draw now after guarded context client packet_buf
            query_msg req r)
  unfolding parsed
  parsed-Keeps context query_msg req (ok r) =
      after_plugins-Keeps context (H.parts query_msg).id req r.action r.response_msg
  parsed-Keeps context query_msg req (err e) = refl
  parsed-Keeps context query_msg req panic = refl

  requested-Keeps :
      (context : Sh) (query_msg : H.Message) (req : Outcome (Request H))
      → Keeps context.credential (
          requested H U X W C O L N shuffle gen_range draw now after guarded context client
            packet_buf query_msg req)
  unfolding requested
  requested-Keeps context query_msg (ok req) =
      parsed-Keeps context query_msg req (execute_plugins H C context.settings query_msg req)
  requested-Keeps context query_msg (err e) = refl
  requested-Keeps context query_msg panic = refl

  decoded-Keeps :
      (context : Sh) (m : Outcome H.Message)
      → Keeps context.credential (
          decoded H U X W C O L N shuffle gen_range draw now after guarded context client packet_buf
            m)
  unfolding decoded
  decoded-Keeps context (ok m) = requested-Keeps context m (request_try_from H m)
  decoded-Keeps context (err e) = refl
  decoded-Keeps context panic = refl

  -- A query leaves the credential, also where it makes the clients anew.
  pub make_doh_query-Keeps :
      (context : Sh)
      → Keeps context.credential (
          make_doh_query H U X W C O L N shuffle gen_range draw now after guarded context client
            packet_buf)
  unfolding make_doh_query
  make_doh_query-Keeps context = decoded-Keeps context (is_query H packet_buf)
