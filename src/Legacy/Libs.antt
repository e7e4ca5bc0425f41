-- ===== src/Legacy/Libs.antt =====
-- What legacy/src takes from reqwest, serde_json, jwt_simple and p256, which are not part of the
-- repository.
use doh_auth_proxy.Prelude.{ℕ, Bool, Option, none, List, [], Outcome}
use doh_auth_proxy.Text.{Text}
use doh_auth_proxy.Url.{UrlLib}
use doh_auth_proxy.Client.Http.{DohMethod, get_method, HttpLib}

-- The body is text or bytes, as its numbers.
pub record Request : Type 0 where
  pub method : DohMethod
  pub url : Text
  pub content_type : Option Text
  pub body : List ℕ

-- The body as text and as bytes is nothing where reading it fails.
pub record Response : Type 0 where
  pub status : ℕ
  pub content_length : Option ℕ
  pub text : Option Text
  pub bytes : Option (List ℕ)

abbrev pub get_request : Text → Request
get_request url = record { method = get_method; url = url; content_type = none; body = [] }

-- `serde_json`. `as_object` is the object as a value, where it is one, and `get` and `remove` are
-- those of objects.
pub record JsonLib : Type 1 where
  pub Value : Type 0
  pub from_str : Text → Option Value
  pub to_string : Value → Option Text
  pub get : Text → Value → Option Value
  pub remove : Text → Value → Value
  pub as_str : Value → Option Text
  pub as_array : Value → Option (List Value)
  pub as_object : Value → Option Value

-- `jwt_simple` and `p256`. A token is verified at a time in seconds, for an audience and an
-- issuer, and one that has expired by then is not; the claims may lack the time of expiration, whose
-- seconds are fewer than 2 ^ 32 and so fit `i64`.
pub record JwtLib : Type 1 where
  pub Metadata : Type 0
  pub decode_metadata : Text → Option Metadata
  pub key_id : Metadata → Option Text
  pub algorithm : Metadata → Text
  pub PublicKey : Type 0
  pub from_jwk_str : Text → Option PublicKey
  pub pem_of : PublicKey → Text
  pub parse_pem : Text → Option PublicKey
  pub Es256Key : Type 0
  pub es256_of : PublicKey → Option Es256Key
  pub Claims : Type 0
  pub expires_at : Claims → Option ℕ
  pub verify_token : Es256Key → ℕ → Text → Text → Text → Option Claims

-- The other operations of `url` and `urlencoding` that only the old crate uses. `in_hash_order` is
-- the order in which a `HashMap` of the pairs gives them back.
pub record UrlText (U : UrlLib) : Type 0 where
  pub host_str : U.Url → Option Text
  pub parse_with_params : Text → List (Text × Text) → Option U.Url
  pub decode : Text → Option Text
  pub in_hash_order : List (Text × Text) → List (Text × Text)

-- A client of an endpoint with its headers, resolved by the bootstrap DNS where the flag says so,
-- and what sending a request with it gives: nothing where that fails.
pub record Net (W : HttpLib) (Client : Type 0) : Type 0 where
  pub connect : Text → Option W.Headers → Bool → Outcome Client
  pub send : Client → Request → Option Response
