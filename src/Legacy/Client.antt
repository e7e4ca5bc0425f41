-- ===== src/Legacy/Client.antt =====
-- legacy/src/client/doh_client.rs: the client of one target and how it is built.

pub mod Relays
pub mod RelayLaws
pub mod Exchange
pub mod Query
pub mod Health
pub mod QueryLaws
pub mod Locks
use doh_auth_proxy.Prelude.{
  ℕ, ◌≡◌, refl, sym, ap, suc, ◌∙◌, subst, inl, inr, Bool-cases, length, Memᴰ, >>=-eq-ok, ok_inj,
  arith, ℕ, true, Option, none, some, List, [], ◌∷◌, ◌++◌, map, Outcome, ok, err, panic, ◌>>=◌,
  other, if◌then◌else◌, ok_or, unwrap, traverse, any, ◌==◌,
}
use doh_auth_proxy.Text.{Text, codes}
use doh_auth_proxy.Url.{UrlLib}
use doh_auth_proxy.Path.{DohType, standard, oblivious, show}
use doh_auth_proxy.HttpClient.{is_panic}
use doh_auth_proxy.Client.Http.{DohMethod, HttpLib, OdohLib}
use doh_auth_proxy.Client.Query.{type_str}
use doh_auth_proxy.Legacy.Libs.{UrlText, Net, get_request}

-- `join_all` and `collect`: all are awaited before the first error counts.
unfoldable pub join_all {ℓ} : {A : Type ℓ} → List (Outcome A) → Outcome (List A)
join_all polls = if any is_panic polls then panic else traverse (λ r. r) polls

module _ {ℓ κ} {A : Type ℓ} {B : Type κ} (f : A → Outcome B) where
  origin_cons :
      (t : A) (y : B)
      → f t ≡ ok y
      → (ts : List A) (ys : List B) → ((x : B) → Memᴰ x ys → (s : A) × Memᴰ s ts × (f s ≡ ok x))
      → (x : B) → Memᴰ x (y ∷ ys)
      → (s : A) × Memᴰ s (t ∷ ts) × (f s ≡ ok x)
  origin_cons t y ey ts ys origin x (Memᴰ.head q) = (t, Memᴰ.head refl, ey ∙ ap ok (sym q))
  origin_cons t y ey ts ys origin x (Memᴰ.tail m) =
      let (s, k, e) = origin x m in (s, Memᴰ.tail k, e)

  traverse-map :
      (ts : List A) (xs : List B)
      → traverse (λ r. r) (map f ts) ≡ ok xs
      → (length xs ≡ length ts) × ((x : B) → Memᴰ x xs → (t : A) × Memᴰ t ts × (f t ≡ ok x))
  traverse-map [] xs e =
      subst (λ xs. (length xs ≡ 0) × ((x : B) → Memᴰ x xs → (t : A) × Memᴰ t [] × (f t ≡ ok x)))
        (ok_inj e) (refl, λ x m. elim m [ ])
  traverse-map (t ∷ ts) xs e =
      let (y, ey, e1) = >>=-eq-ok (f t) _ e in
      let (ys, eys, e2) = >>=-eq-ok (traverse (λ r. r) (map f ts)) _ e1 in
      let (len, origin) = traverse-map ts ys eys in
      subst
        (λ xs.
          (length xs ≡ length (t ∷ ts))
          × ((x : B) → Memᴰ x xs → (s : A) × Memᴰ s (t ∷ ts) × (f s ≡ ok x)))
        (ok_inj e2) (ap suc len, λ x m. origin_cons t y ey ts ys origin x m)

  -- Where all that is awaited succeeds, each value is the one of some element, and none is lost.
  pub join_all-map :
      (ts : List A) (xs : List B)
      → join_all (map f ts) ≡ ok xs
      → (length xs ≡ length ts) × ((x : B) → Memᴰ x xs → (t : A) × Memᴰ t ts × (f t ≡ ok x))
  unfolding join_all
  join_all-map ts xs e = elim (Bool-cases (any is_panic (map f ts))) [
    | inl p ↦ cc (rw p at e)
    | inr q ↦ traverse-map ts xs (rw q at e)
  ]

-- An HTTP client with its endpoint.
pub record Endpoint (Client : Type 0) : Type 0 where
  pub client : Client
  pub endpoint : Text

module _ (O : OdohLib) where
  pub record DohClient (Client : Type 0) : Type 0 where
    pub doh_type : DohType
    pub clients : List (Endpoint Client)
    pub method : DohMethod
    pub target_url : Text
    pub odoh_client_context : Option O.Contents

  first_contents : List O.Contents → Outcome O.Contents
  first_contents [] = err other
  first_contents (t ∷ ts) = ok t

  -- `ODoHClientContext::new` of odoh.rs.
  unfoldable pub new_context : List ℕ → Outcome O.Contents
  unfolding first_contents
  new_context configs_vec = ok_or other (O.parse_configs configs_vec) >>= first_contents

module _ (O : OdohLib) where
  -- `encrypt_query` and `decrypt_response` of `ODoHClientContext`.
  unfoldable pub encrypt_query : O.Contents → List ℕ → Outcome (O.Plaintext × List ℕ × O.Secret)
  encrypt_query odoh_config_contents plaintext_query = do
    let query = O.new_plaintext plaintext_query 0
    (query_enc, cli_secret) ← ok_or other (O.encrypt query odoh_config_contents)
    query_body ← ok_or other (O.compose query_enc)
    ok (query, query_body, cli_secret)

  unfoldable pub decrypt_response : O.Plaintext → List ℕ → O.Secret → Outcome (List ℕ)
  decrypt_response plaintext_query encrypted_response client_secret = do
    response_enc ← ok_or other (O.parse_message encrypted_response)
    response_dec ← ok_or other (O.decrypt plaintext_query response_enc client_secret)
    ok (O.into_msg response_dec)

module _ (U : UrlLib) (X : UrlText U) where
  -- The host of a URL, with the port where there is one.
  unfoldable pub host_and_port : U.Url → Outcome Text
  host_and_port url = elim (U.port url) [
    | some port ↦ unwrap (X.host_str url) >>= λ host. ok (host ++ (codes ":" ++ show port))
    | none ↦ unwrap (X.host_str url)
  ]

  -- The URL of a relay with the target in its query.
  unfoldable pub combined : Text → Text → Outcome Text
  unfolding host_and_port
  combined target_url_str u = do
    relay_url ← ok_or other (U.parse u)
    relay_host ← host_and_port relay_url
    let base = U.scheme relay_url ++ (codes "://" ++ (relay_host ++ U.path relay_url))
    target_url ← ok_or other (U.parse target_url_str)
    target_host ← host_and_port target_url
    let qs = (codes "targethost", target_host) ∷ (codes "targetpath", U.path target_url) ∷ []
    url ← ok_or other (X.parse_with_params base (X.in_hash_order qs))
    ok_or other (X.decode (U.as_str url))

  unfoldable pub nexthop_urls : Text → Option (List Text) → Outcome (DohType × List Text)
  unfolding combined
  nexthop_urls target_url_str none = ok (standard, target_url_str ∷ [])
  nexthop_urls target_url_str (some relays) =
      traverse (combined target_url_str) relays >>= λ urls. ok (oblivious, urls)

  module _ (W : HttpLib) where
    -- Both kinds of headers are for all requests of the client.
    authorized : Option Text → W.Headers → Outcome W.Headers
    authorized none headers = ok headers
    authorized (some t) headers = unwrap (W.header_value (codes "Bearer " ++ t)) >>= λ v.
        ok (W.insert headers (codes "authorization") v)

    uncached : DohType → W.Headers → Outcome W.Headers
    uncached standard headers = ok headers
    uncached oblivious headers = unwrap (W.header_value (codes "no-cache, no-store")) >>= λ v.
        ok (W.insert headers (codes "Cache-Control") v)

    unfoldable pub headers_for : DohType → Option Text → Outcome W.Headers
    unfolding authorized uncached
    headers_for doh_type auth_token = do
      ct ← unwrap (W.header_value (type_str doh_type))
      let headers = W.insert (W.insert W.no_headers (codes "Accept") ct) (codes "Content-Type") ct
      headers ← uncached doh_type headers
      authorized auth_token headers

    module _ (O : OdohLib) {Client : Type 0} (N : Net W Client) where
      unfoldable pub fetch_odoh_config_from_well_known : Text → Outcome O.Contents
      unfolding host_and_port new_context
      fetch_odoh_config_from_well_known target_url_str = do
        url ← ok_or other (U.parse target_url_str)
        host ← host_and_port url
        let destination =
            U.scheme url ++ (codes "://" ++ (host ++ codes "/.well-known/odohconfigs"))
        simple_client ← N.connect target_url_str none true
        response ← ok_or other (N.send simple_client (get_request destination))
        body ← if response.status == 200 then ok_or other response.bytes else err other
        new_context O body

      connect_to : W.Headers → Text → Outcome (Endpoint Client)
      connect_to headers nexthop = N.connect nexthop (some headers) true >>= λ client.
          ok (record { client = client; endpoint = nexthop })

      config_for : DohType → Text → Outcome (Option O.Contents)
      unfolding fetch_odoh_config_from_well_known
      config_for standard target_url_str = ok none
      config_for oblivious target_url_str =
          fetch_odoh_config_from_well_known target_url_str >>= λ c. ok (some c)

      -- `DoHClient::new`.
      unfoldable pub new :
          DohMethod → Text → Option (List Text) → Option Text → Outcome (DohClient O Client)
      unfolding nexthop_urls headers_for join_all connect_to config_for
      new method target_url_str relay_urls_str auth_token = do
        (doh_type, urls) ← nexthop_urls target_url_str relay_urls_str
        headers ← headers_for doh_type auth_token
        clients ← join_all (map (connect_to headers) urls)
        context ← config_for doh_type target_url_str
        ok (record {
          doh_type = doh_type;
          clients = clients;
          method = method;
          target_url = target_url_str;
          odoh_client_context = context;
        })
