-- ===== src/Auth/Laws.antt =====
-- When the authentication service goes on and when it ends.
use doh_auth_proxy.Prelude.{
  ℕ, zero, suc, ◌+◌, ◌*◌, ◌<◌, ◌≡◌, refl, ◌⊎◌, inl, inr, Bool, true, false, ok, err, arith,
  failed_all_attempts_of_login_and_refresh, Bool-cases, subst,
}
use native.Mathlib.Decide.{dec_lt}
use doh_auth_proxy.Auth.{Attempt, refresh_or_login, is_ok, Turn, attempts, auth_turn}

abbrev pub succeeds : Attempt → Bool
succeeds a = is_ok (refresh_or_login a).1

-- The first attempt that succeeds is the one at the count `i`, below `n`.
abbrev pub FirstSuccess : ℕ → ℕ → (ℕ → Attempt) → Type 0
FirstSuccess n i attempt =
    (i < n) × (succeeds (attempt i) ≡ true) × ((j : ℕ) → j < i → succeeds (attempt j) ≡ false)

-- The turn ends well at the count `i`.
abbrev pub EndsWell : ℕ → Turn → Type 0
EndsWell i t = (t.cnt ≡ i) × (t.slept ≡ 10 * i + 60) × (t.result ≡ ok tt)

abbrev pub GivesUp : Turn → Type 0
GivesUp t = (t.cnt ≡ 5) × (t.slept ≡ 50) × (t.result ≡ err failed_all_attempts_of_login_and_refresh)

below_suc : (P : ℕ → Type 0) (n : ℕ) → ((j : ℕ) → j < n → P j) → P n → (j : ℕ) → j < n + 1 → P j
below_suc P n h p j l = elim (dec_lt j n) [
  | yes lt ↦ h j lt
  | no ge ↦ let same : n ≡ j = omega arith in subst P same p
]

attempts_lem :
    (left cnt slept : ℕ) (attempt : ℕ → Attempt)
    → cnt + left ≡ 5
    → slept ≡ 10 * cnt
    → ((j : ℕ) → j < cnt → succeeds (attempt j) ≡ false)
    → ((i : ℕ) × FirstSuccess 5 i attempt × EndsWell i (attempts left cnt slept attempt))
      ⊎ (((j : ℕ) → j < 5 → succeeds (attempt j) ≡ false)
          × GivesUp (attempts left cnt slept attempt))
unfolding attempts
attempts_lem zero cnt slept attempt e s h =
    let all : cnt ≡ 5 = omega arith in
    inr
      (subst (λ n. (j : ℕ) → j < n → succeeds (attempt j) ≡ false) all h, (all, omega arith, refl))
attempts_lem (suc left) cnt slept attempt e s h = elim (Bool-cases (succeeds (attempt cnt))) [
  | inl good ↦ inl (cnt, (omega arith, good, h), rw good (refl, omega arith, refl))
  | inr bad ↦ rw bad (
      attempts_lem left (cnt + 1) (slept + 10) attempt (omega arith) (omega arith)
        (below_suc (λ j. succeeds (attempt j) ≡ false) cnt h bad))
]

-- A turn of the service makes attempts up to the first that succeeds, at most five, and waits ten
-- seconds after each that fails; it goes on a minute after a success, and ends with an error
-- where all five fail.
pub auth_turn_lem :
    (attempt : ℕ → Attempt)
    → ((i : ℕ) × FirstSuccess 5 i attempt × EndsWell i (auth_turn attempt))
      ⊎ (((j : ℕ) → j < 5 → succeeds (attempt j) ≡ false) × GivesUp (auth_turn attempt))
unfolding auth_turn
auth_turn_lem attempt = attempts_lem 5 0 0 attempt refl refl (λ j l. absurd (omega arith))
