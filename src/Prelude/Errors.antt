-- ===== src/Prelude/Errors.antt =====
-- `DapError` of dap-lib/src/error.rs, and the outcome of fallible code: a value, an error, or a
-- panic (an `unwrap` of nothing, an index out of range).
use mathlib.Core.Path.{◌≡◌, refl, ap}
use mathlib.Core.Logic.{◌⊎◌, inl, inr}
use mathlib.Core.Option.{Option, none, some}
use mathlib.Core.List.{List, [], ◌∷◌}

-- The payloads of the wrapped errors of other libraries are left out.
pub data DapError : Type 0 where
  bootstrap_resolver_error url_error failed_all_attempts_of_login_and_refresh : DapError
  token_error http_client_error failed_to_resolve_ips_for_http_client : DapError
  too_many_fails_to_resolve_ips io null_tcp_stream udp_channel_send_error : DapError
  invalid_dns_response_size too_many_connections failed_to_make_doh_query : DapError
  failed_to_build_doh_url odoh_no_relay_url odoh_no_client_config odoh_get_not_allowed : DapError
  odoh_invalid_content_length odoh_error invalid_dns_query invalid_dns_response : DapError
  no_path_available doh_query_error regex_error other : DapError

pub data Outcome {ℓ} (A : Type ℓ) : Type ℓ where
  ok : A → Outcome A
  err : DapError → Outcome A
  panic : Outcome A

-- What follows a value; an error or a panic ends the code.
module _ {ℓ κ} {A : Type ℓ} {B : Type κ} where
  infixl 5 ◌>>=◌
  abbrev pub ◌>>=◌ : Outcome A → (A → Outcome B) → Outcome B
  panic >>= rest = panic
  err e >>= rest = err e
  ok value >>= rest = rest value

-- `ok_or(e)` and `?`.
abbrev pub ok_or {ℓ} : {A : Type ℓ} → DapError → Option A → Outcome A
ok_or e none = err e
ok_or e (some a) = ok a

-- `unwrap()`.
abbrev pub unwrap {ℓ} : {A : Type ℓ} → Option A → Outcome A
unwrap none = panic
unwrap (some a) = ok a

-- `map_err(|_| e)`.
abbrev pub map_err {ℓ} : {A : Type ℓ} → DapError → Outcome A → Outcome A
map_err e (ok a) = ok a
map_err e (err _) = err e
map_err e panic = panic

-- Code that ends in a value went through one.
pub >>=-eq-ok {ℓ κ} :
    {A : Type ℓ} {B : Type κ} (code : Outcome A) (rest : A → Outcome B) {out : B}
    → (code >>= rest) ≡ ok out
    → (value : A) × (code ≡ ok value) × (rest value ≡ ok out)
>>=-eq-ok panic rest e = cc
>>=-eq-ok (err _) rest e = cc
>>=-eq-ok (ok value) rest e = (value, refl, e)

-- `map` of a function that may panic or fail, and `collect`.
abbrev pub traverse {ℓ κ} : {A : Type ℓ} {B : Type κ} → (A → Outcome B) → List A → Outcome (List B)
traverse f [] = ok []
traverse f (x ∷ xs) = f x >>= λ y. traverse f xs >>= λ ys. ok (y ∷ ys)

-- An outcome is a value, an error or a panic, with the equation that says so.
pub Outcome-cases {ℓ} :
    {A : Type ℓ} (code : Outcome A)
    → ((value : A) × (code ≡ ok value)) ⊎ (((e : DapError) × (code ≡ err e)) ⊎ (code ≡ panic))
Outcome-cases (ok value) = inl (value, refl)
Outcome-cases (err e) = inr (inl (e, refl))
Outcome-cases panic = inr (inr refl)

pub ok_inj {ℓ} : {A : Type ℓ} {a b : A} → ok a ≡ ok b → a ≡ b
ok_inj {A = A} {a = a} e = ap (λ (o : Outcome A). elim o [ ok x ↦ x | err _ ↦ a | panic ↦ a ]) e
