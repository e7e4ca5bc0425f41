-- ===== src/Legacy/Client/Exchange.antt =====
-- The queries of legacy/src/client/doh_client.rs, from the packet to the answer. `guarded` says
-- whether the task that runs the code holds a read guard of the clients itself, as the check of their
-- health does; code that then has to write them never returns, which is nothing as a result. `draw`,
-- `shuffle` and `gen_range` are random.
use doh_auth_proxy.Prelude.{
  ℕ, ◌%◌, Bool, ◌&&◌, ◌||◌, not, Option, none, some, List, [], ◌∷◌, ◌++◌, Outcome, ok, err, panic,
  ◌>>=◌, other, if◌then◌else◌, ok_or, ◌==◌, length,
}
use doh_auth_proxy.Text.{Text, codes}
use doh_auth_proxy.Url.{UrlLib}
use doh_auth_proxy.Path.{standard, oblivious, at_index}
use doh_auth_proxy.Manipulation.Libs.{CedarLib}
use doh_auth_proxy.Client.Http.{DohMethod, get_method, post_method, HttpLib, OdohLib}
use doh_auth_proxy.Legacy.RwLock.{write}
use doh_auth_proxy.Legacy.Libs as Libs
use doh_auth_proxy.Legacy.Libs.{Response, UrlText, Net, get_request}
use doh_auth_proxy.Legacy.Context.{Settings, Context, update_doh_client}
use doh_auth_proxy.Legacy.Client.{DohClient, Endpoint, encrypt_query, decrypt_response}
use doh_auth_proxy.Legacy.Client.Relays.{get_randomized_mid_relay_str}

-- A query or its encryption in a request: encoded behind the URL, or as the body.
unfoldable pub query_request : (W : HttpLib) → DohMethod → Text → List ℕ → Libs.Request
query_request W get_method url packet = get_request (url ++ (codes "?dns=" ++ W.base64url packet))
query_request W post_method url packet = record {
  method = post_method;
  url = url;
  content_type = none;
  body = packet;
}

body_of : Response → Outcome (List ℕ)
body_of response = if not (response.status == 200) then err other else ok_or other response.bytes

-- 401, or an empty body with 200.
abbrev pub is_expired : Response → ℕ → Bool
is_expired response clength = response.status == 401 || response.status == 200 && clength == 0

-- What is sent, with what opens the answer.
pub record Sealed (O : OdohLib) (Conn : Type 0) : Type 0 where
  pub relay : Conn
  pub request : Libs.Request
  pub query : O.Plaintext
  pub secret : O.Secret

module _ (W : HttpLib) (O : OdohLib) {Conn : Type 0} (N : Net W Conn) where
  -- `assert_eq!(self.clients.len(), 1)`.
  only_client : List (Endpoint Conn) → Outcome (Endpoint Conn)
  only_client (c ∷ []) = ok c
  only_client _ = panic

  unfoldable pub serve_doh_query : DohClient O Conn → List ℕ → Outcome (List ℕ)
  unfolding query_request body_of only_client
  serve_doh_query client packet_buf = do
    c ← only_client client.clients
    response ←
        ok_or other (N.send c.client (query_request W client.method client.target_url packet_buf))
    body_of response

module _ (U : UrlLib) (X : UrlText U) (W : HttpLib) (C : CedarLib) (O : OdohLib) {Conn : Type 0}
    (shuffle : List Text → List Text) (gen_range : ℕ → ℕ → ℕ) (draw : ℕ) where
  -- The next hop, randomized where that is configured.
  pick_relay : Bool → List (Endpoint Conn) → Outcome (Endpoint Conn)
  pick_relay randomized [] = panic
  pick_relay randomized (c ∷ cs) =
      at_index (c ∷ cs) (if randomized then draw % length (c ∷ cs) else 0)

  -- `assert!(context.odoh_relay_urls.is_some() && !self.clients.is_empty())`.
  abbrev asserted : Option (List Text) → List (Endpoint Conn) → Outcome (Unit {0})
  asserted (some _) (c ∷ cs) = ok tt
  asserted _ _ = panic

  unfoldable pub seal_query : Settings C → DohClient O Conn → List ℕ → Outcome (Sealed O Conn)
  unfolding pick_relay query_request
  seal_query settings client packet_buf = do
    _ ← asserted settings.odoh_relay_urls client.clients
    client_ctx ← ok_or other client.odoh_client_context
    (query, body, secret) ← encrypt_query O client_ctx packet_buf
    mid_relay_str ←
        get_randomized_mid_relay_str U X shuffle gen_range settings.mid_relay_urls
          settings.max_mid_relays
    relay ← pick_relay settings.odoh_relay_randomization client.clients
    let combined_endpoint = relay.endpoint ++ elim mid_relay_str [ some s ↦ s | none ↦ [] ]
    ok (record {
      relay = relay.client;
      request = query_request W client.method combined_endpoint body;
      query = query;
      secret = secret;
    })

module _ (U : UrlLib) (X : UrlText U) (W : HttpLib) (C : CedarLib) (O : OdohLib) {Conn : Type 0}
    (Cached : Type 0) (N : Net W Conn) (shuffle : List Text → List Text) (gen_range : ℕ → ℕ → ℕ)
    (draw : ℕ) where
  abbrev pub Ran : Type 0 → Type 0
  Ran A = Option (Context C O Conn Cached × Outcome A)

  -- The clients that have been built are written under the lock.
  unfoldable pub renewed : Bool → Context C O Conn Cached × Outcome (Unit {0}) → Ran (Unit {0})
  renewed guarded (context, ok _) = elim (write guarded) [
    | none ↦ none
    | some u ↦ some (context, ok u)
  ]
  renewed guarded (context, err e) = some (context, err e)
  renewed guarded (context, panic) = some (context, panic)

  -- The keys are fetched anew with the clients.
  unfoldable pub refetch : Bool → Context C O Conn Cached → Ran (Unit {0})
  unfolding renewed
  refetch guarded context = renewed guarded (update_doh_client U X W N context)

  unfoldable pub then_answer : Ran (Unit {0}) → Outcome (List ℕ) → Ran (List ℕ)
  then_answer none answer = none
  then_answer (some (context, ok _)) answer = some (context, answer)
  then_answer (some (context, err e)) answer = some (context, err e)
  then_answer (some (context, panic)) answer = some (context, panic)

  -- The answer in a response.
  unfoldable pub answer_in : Sealed O Conn → Response → Outcome (List ℕ)
  unfolding body_of
  answer_in sealed response =
      body_of response >>= λ body. decrypt_response O sealed.query body sealed.secret

  -- What follows on the response of a relay.
  unfoldable pub opened :
      Bool → Context C O Conn Cached → Sealed O Conn → Response → Option ℕ → Ran (List ℕ)
  unfolding then_answer refetch answer_in
  opened guarded context sealed response none = some (context, err other)
  opened guarded context sealed response (some clength) =
      then_answer
        (if is_expired response clength then refetch guarded context else some (context, ok tt))
        (answer_in sealed response)

  unfoldable pub replied :
      Bool → Context C O Conn Cached → Sealed O Conn → Option Response → Ran (List ℕ)
  unfolding opened
  replied guarded context sealed none = some (context, err other)
  replied guarded context sealed (some response) =
      opened guarded context sealed response response.content_length

  unfoldable pub sent : Bool → Context C O Conn Cached → Outcome (Sealed O Conn) → Ran (List ℕ)
  unfolding replied
  sent guarded context (ok sealed) =
      replied guarded context sealed (N.send sealed.relay sealed.request)
  sent guarded context (err e) = some (context, err e)
  sent guarded context panic = some (context, panic)

  unfoldable pub serve_oblivious_doh_query :
      Bool → Context C O Conn Cached → DohClient O Conn → List ℕ → Ran (List ℕ)
  unfolding sent seal_query
  serve_oblivious_doh_query guarded context client packet_buf =
      sent guarded context
        (seal_query U X W C O shuffle gen_range draw context.settings client packet_buf)

  unfoldable pub serve : Bool → Context C O Conn Cached → DohClient O Conn → List ℕ → Ran (List ℕ)
  unfolding serve_doh_query serve_oblivious_doh_query
  serve guarded context client packet_buf = elim client.doh_type [
    | standard ↦ some (context, serve_doh_query W O N client packet_buf)
    | oblivious ↦ serve_oblivious_doh_query guarded context client packet_buf
  ]
