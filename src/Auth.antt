-- ===== src/Auth.antt =====
-- dap-lib/src/auth: the authenticator and its service. What the token client of the auth_client
-- crate answers while an attempt is made is a record of its answers; `calls` lists the calls made.
pub mod Laws
use doh_auth_proxy.Prelude.{
  ℕ, zero, suc, ◌+◌, Bool, true, false, Option, none, some, List, [], ◌∷◌, Outcome, ok, err, panic,
  ◌>>=◌, other, token_error, failed_all_attempts_of_login_and_refresh, if◌then◌else◌, leb,
}

-- `i64`, within its range.
pub data ℤ : Type 0 where
  pos : ℕ → ℤ
  negsuc : ℕ → ℤ

abbrev pub leb_margin : ℤ → ℕ → Bool
leb_margin (pos n) m = leb n m
leb_margin (negsuc n) m = true

-- `remaining_seconds_until_expiration`, and whether `refresh` and `login` succeed.
pub record Attempt : Type 0 where
  pub expires_in : Option ℤ
  pub refreshed : Bool
  pub logged_in : Bool

pub data TokenCall : Type 0 where
  refresh login : TokenCall

abbrev pub token_refresh_margin : ℕ
token_refresh_margin = 120

-- `Authenticator::login`.
unfoldable pub login_now : Attempt → Outcome (Unit {0})
login_now a = if a.logged_in then ok tt else err token_error

refresh_first : Attempt → List TokenCall × Outcome (Unit {0})
unfolding login_now
refresh_first a = if a.refreshed then (refresh ∷ [], ok tt) else (refresh ∷ login ∷ [], login_now a)

expiring : Attempt → ℤ → List TokenCall × Outcome (Unit {0})
unfolding refresh_first
expiring a expires_in =
    if leb_margin expires_in token_refresh_margin then refresh_first a else ([], ok tt)

unfoldable pub refresh_or_login : Attempt → List TokenCall × Outcome (Unit {0})
unfolding expiring
refresh_or_login a = elim a.expires_in [
  | none ↦ ([], err other)
  | some expires_in ↦ expiring a expires_in
]

abbrev pub is_ok {ℓ} : {A : Type ℓ} → Outcome A → Bool
is_ok (ok a) = true
is_ok (err e) = false
is_ok panic = false

-- What a turn of the service does: the attempts that failed, the seconds slept, and how it ends.
pub record Turn : Type 0 where
  pub cnt : ℕ
  pub slept : ℕ
  pub result : Outcome (Unit {0})

-- The inner loop with so many attempts left; `attempt i` is the attempt at the count `i`.
attempts : ℕ → ℕ → ℕ → (ℕ → Attempt) → Turn
unfolding refresh_or_login
attempts zero cnt slept attempt = record {
  cnt = cnt;
  slept = slept;
  result = err failed_all_attempts_of_login_and_refresh;
}
attempts (suc left) cnt slept attempt =
    let rest = attempts left (cnt + 1) (slept + 10) attempt in
    if is_ok (refresh_or_login (attempt cnt)).1
    then record { cnt = cnt; slept = slept + 60; result = ok tt }
    else rest

-- One turn of the outer loop of `auth_service`, with its sleep.
unfoldable pub auth_turn : (ℕ → Attempt) → Turn
unfolding attempts
auth_turn attempt = attempts 5 0 0 attempt

-- The outer loop over the turns that come; it ends only with an error.
unfoldable pub auth_service : List (ℕ → Attempt) → Outcome (Unit {0})
unfolding auth_turn
auth_service [] = ok tt
auth_service (attempt ∷ turns) = (auth_turn attempt).result >>= λ _. auth_service turns
