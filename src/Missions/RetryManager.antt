-- ===== src/Missions/RetryManager.antt =====
-- lib/missions/retry-manager.ts: attempts without delay, the first success wins.
pub mod Attempts
use adam_os.Base.{
  ℕ, zero, suc, ◌+◌, ◌≤◌, ◌<◌, ◌≡◌, ◌⊎◌, refl, inl, inr, Bool, true, false, Option, none, some,
  arith, max, or_else, Str, Result, ok, err, Option-cases,
}

unfoldable pub effective_retry : Option ℕ → ℕ
effective_retry max_attempts = max 1 (or_else max_attempts 1)

pub record AttemptOutcome {ℓ} (A : Type ℓ) : Type ℓ where
  pub succeeded : Bool
  pub attempts : ℕ
  pub result : Option A
  pub error : Option Str

module _ {ℓ} {A : Type ℓ} (fn : ℕ → Result Str A) (on_attempt_error : ℕ → Str → Option Str) where
  -- The `while` loop with `left` attempts to go; the callback may throw, which ends it.
  unfoldable pub retry_from : ℕ → ℕ → Option Str → Result Str (AttemptOutcome A)
  retry_from zero attempt last_error =
      ok (record { succeeded = false; attempts = attempt; result = none; error = last_error })
  retry_from (suc left) attempt last_error = elim (fn (attempt + 1)) [
    | ok r ↦ ok (record { succeeded = true; attempts = attempt + 1; result = some r; error = none })
    | err e ↦ elim (on_attempt_error (attempt + 1) e) [
      | some thrown ↦ err thrown
      | none ↦ retry_from left (attempt + 1) (some e)
    ]
  ]

  unfoldable pub run_with_retry : ℕ → Result Str (AttemptOutcome A)
  unfolding retry_from
  run_with_retry max_attempts = retry_from max_attempts 0 none
