-- ===== src/Legacy/Credential.antt =====
-- legacy/src/client/credential.rs. `login` and `refresh` change a copy of the credential that their
-- callers drop on an error, so only a success gives the changed one.
pub mod Laws
use doh_auth_proxy.Prelude.{
  ℕ, ◌-◌, Bool, true, false, not, Option, none, some, List, [], ◌∷◌, ◌++◌, Outcome, ok, err, ◌>>=◌,
  other, if◌then◌else◌, ok_or, unwrap, filter, ltb, ◌==◌,
}
use doh_auth_proxy.Text.{Text, codes, text_eq}
use doh_auth_proxy.Client.Http.{post_method, HttpLib}
use doh_auth_proxy.Legacy.Libs.{Request, Response, JsonLib, JwtLib, Net, get_request}

pub record Credential : Type 0 where
  pub username : Text
  pub password : Text
  pub client_id : Text
  pub token_api : Text
  pub id_token : Option Text
  pub refresh_token : Option Text
  pub validation_key : Option Text

unfoldable pub new : Text → Text → Text → Text → Credential
new username password client_id token_api = record {
  username = username;
  password = password;
  client_id = client_id;
  token_api = token_api;
  id_token = none;
  refresh_token = none;
  validation_key = none;
}

abbrev and_then {ℓ κ} : {A : Type ℓ} {B : Type κ} → Option A → (A → Option B) → Option B
and_then none f = none
and_then (some a) f = f a

abbrev post_json : Text → Text → Request
post_json url body = record {
  method = post_method;
  url = url;
  content_type = some (codes "application/json");
  body = body;
}

-- `Algorithm::from_str`, which has one algorithm.
abbrev es256_only : Text → Outcome (Unit {0})
es256_only s = if text_eq s (codes "ES256") then ok tt else err other

unfoldable pub login_request : Credential → Request
login_request c = post_json (c.token_api ++ codes "/tokens") (
    codes "{ \"auth\": {\"username\": \""
    ++ (c.username
        ++ (codes "\", \"password\": \""
            ++ (c.password ++ (codes "\" }, \"client_id\": \"" ++ (c.client_id ++ codes "\" }"))))))

unfoldable pub refresh_request : Credential → Text → Request
refresh_request c refresh_token = post_json (c.token_api ++ codes "/refresh") (
    codes "{ \"refresh_token\": \""
    ++ (refresh_token ++ (codes "\", \"client_id\": \"" ++ (c.client_id ++ codes "\" }"))))

module _ (J : JsonLib) (T : JwtLib) where
  -- `json["token"][name].as_str()`.
  abbrev token_field : Text → J.Value → Option Text
  token_field name json = and_then (and_then (J.get (codes "token") json) (J.get name)) J.as_str

  json_of : Response → Outcome J.Value
  json_of r = do text_body ← ok_or other r.text; ok_or other (J.from_str text_body)

  -- A key matches an identifier that is the same, and any where it has none.
  unfoldable pub matches_kid : Text → J.Value → Bool
  matches_kid token_kid obj = elim (J.get (codes "kid") obj) [
    | none ↦ true
    | some jwk_id ↦ elim (J.as_str jwk_id) [ none ↦ false | some s ↦ text_eq s token_kid ]
  ]

  unfoldable pub candidates : Option Text → List J.Value → List J.Value
  unfolding matches_kid
  candidates none keys = keys
  candidates (some token_kid) keys = filter (matches_kid token_kid) keys

  first_of : List J.Value → Outcome J.Value
  first_of [] = err other
  first_of (k ∷ ks) = ok_or other (J.as_object k)

  -- The key in what the endpoint of the keys answers, as text.
  unfoldable pub pem_in : T.Metadata → Response → Outcome Text
  unfolding json_of candidates first_of
  pem_in meta response = do
    json ← json_of response
    keys ← ok_or other (J.get (codes "keys") json)
    arr ← ok_or other (J.as_array keys)
    matched ← first_of (candidates (T.key_id meta) arr)
    jwk_string ← ok_or other (J.to_string (J.remove (codes "kid") matched))
    _ ← es256_only (T.algorithm meta)
    pk ← ok_or other (T.from_jwk_str jwk_string)
    ok (T.pem_of pk)

  -- The key that is kept, unless it is another one.
  abbrev keep_key : Text → Option Text → Option Text
  keep_key pem none = some pem
  keep_key pem (some p) = if not (text_eq p pem) then some pem else some p

  unfoldable pub get_meta_from_id_token : Credential → Outcome T.Metadata
  get_meta_from_id_token c = do
    id_token ← ok_or other c.id_token
    ok_or other (T.decode_metadata id_token)

  unfoldable pub verify_id_token : ℕ → Credential → Outcome T.Claims
  unfolding get_meta_from_id_token
  verify_id_token now c = do
    meta ← get_meta_from_id_token c
    id_token ← ok_or other c.id_token
    pk_str ← ok_or other c.validation_key
    _ ← es256_only (T.algorithm meta)
    public_key ← ok_or other (T.parse_pem pk_str)
    key ← ok_or other (T.es256_of public_key)
    ok_or other (T.verify_token key now id_token c.client_id c.token_api)

  -- At the time `now`, in seconds; less than ten seconds count as none.
  unfoldable pub id_token_expires_in_secs : ℕ → Credential → Outcome ℕ
  unfolding verify_id_token
  id_token_expires_in_secs now c = do
    clm ← verify_id_token now c
    expires_at ← unwrap (T.expires_at clm)
    ok (if ltb (expires_at - now) 10 then 0 else expires_at - now)

  module _ (W : HttpLib) {Client : Type 0} (N : Net W Client) (now : ℕ) where
    -- A client for the endpoint and one request with it.
    abbrev ask : Text → Bool → Request → Outcome Response
    ask endpoint resolve request =
        N.connect endpoint none resolve >>= λ client. ok_or other (N.send client request)

    unfoldable pub update_validation_key_matched_to_key_id :
        Credential → T.Metadata → Outcome Credential
    unfolding pem_in
    update_validation_key_matched_to_key_id c meta = do
      let jwks_endpoint = c.token_api ++ codes "/jwks"
      jwks_response ← ask jwks_endpoint true (get_request jwks_endpoint)
      pem ← pem_in meta jwks_response
      ok (record c { validation_key = keep_key pem c.validation_key })

    -- The end of both: the key for the new token, and its verification.
    unfoldable pub accept_token : Credential → Outcome Credential
    unfolding get_meta_from_id_token update_validation_key_matched_to_key_id verify_id_token
    accept_token c = do
      meta ← get_meta_from_id_token c
      c' ← update_validation_key_matched_to_key_id c meta
      _ ← verify_id_token now c'
      ok c'

    unfoldable pub login : Credential → Outcome Credential
    unfolding login_request accept_token json_of
    login c = do
      token_response ← ask (c.token_api ++ codes "/tokens") true (login_request c)
      json ← if token_response.status == 200 then json_of token_response else err other
      id_token ← ok_or other (token_field (codes "id") json)
      refresh_token ← ok_or other (token_field (codes "refresh") json)
      accept_token (record c { id_token = some id_token; refresh_token = some refresh_token })

    unfoldable pub refresh : Credential → Outcome Credential
    unfolding refresh_request accept_token json_of
    refresh c = do
      client ← N.connect (c.token_api ++ codes "/refresh") none false
      refresh_token ← ok_or other c.refresh_token
      response ← ok_or other (N.send client (refresh_request c refresh_token))
      json ← json_of response
      id_token ← ok_or other (token_field (codes "id") json)
      accept_token (record c { id_token = some id_token })
