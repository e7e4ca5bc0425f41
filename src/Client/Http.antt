-- ===== src/Client/Http.antt =====
-- What the client takes from reqwest and odoh_rs, which are not part of the repository.
use doh_auth_proxy.Prelude.{ℕ, Option, List}
use doh_auth_proxy.Text.{Text}

-- `DoHMethod` of dap-lib/src/doh_client/mod.rs.
pub data DohMethod : Type 0 where
  get_method post_method : DohMethod

-- `reqwest::header` and the base 64 of data_encoding; `header_value` is nothing for a text that a
-- header may not hold.
pub record HttpLib : Type 1 where
  pub Headers : Type 0
  pub HeaderValue : Type 0
  pub no_headers : Headers
  pub header_value : Text → Option HeaderValue
  pub insert : Headers → Text → HeaderValue → Headers
  pub base64url : List ℕ → Text

pub record HttpRequest (W : HttpLib) : Type 0 where
  pub method : DohMethod
  pub url : Text
  pub headers : W.Headers
  pub body : List ℕ

-- The body is nothing where reading it fails.
pub record HttpResponse : Type 0 where
  pub status : ℕ
  pub content_length : Option ℕ
  pub body : Option (List ℕ)

-- `odoh_rs`: nothing where an operation fails. The random generator of `encrypt` is left out: it is
-- part of the function.
pub record OdohLib : Type 1 where
  pub Contents : Type 0
  pub Plaintext : Type 0
  pub Encrypted : Type 0
  pub Secret : Type 0
  pub parse_configs : List ℕ → Option (List Contents)
  pub new_plaintext : List ℕ → ℕ → Plaintext
  pub encrypt : Plaintext → Contents → Option (Encrypted × Secret)
  pub compose : Encrypted → Option (List ℕ)
  pub parse_message : List ℕ → Option Encrypted
  pub decrypt : Plaintext → Encrypted → Secret → Option Plaintext
  pub into_msg : Plaintext → List ℕ
