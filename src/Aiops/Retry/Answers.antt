-- ===== src/Aiops/Retry/Answers.antt =====
-- What the retry middleware answers: the calls that it makes, and the end of them.
use adam_os.Base.{ℕ, ◌+◌, ◌≤◌, ◌≡◌, ◌⊎◌, true, false, List, ◌∷◌, ok, err}
use adam_os.Aiops.Errors.{Thrown, execution, normalize_error}
use adam_os.Aiops.Effects.{
  State, Event, Outcome, Action, emit, retry_attempt, retry_exhausted, slept,
}
use adam_os.Aiops.Retry.{RetryPolicy, is_retryable_under, compute_delay_ms}

-- The calls of an action that lead from one attempt to another: each fails with an error that the
-- policy retries, and the next is made after the pause for its attempt.
pub data Trail (p : RetryPolicy) (call : Action) (last : ℕ) (u : State) : ℕ → State → Type 0 where
  arrived : Trail p call last u last u
  failing :
      {attempt : ℕ} {s s1 : State} (e : Thrown)
      → call s ≡ (err e, s1)
      → is_retryable_under (normalize_error e).kind p ≡ true
      → Trail p call last u (attempt + 1) (
          emit (slept (compute_delay_ms attempt p)) (
            emit
              (retry_attempt attempt (normalize_error e).kind true (compute_delay_ms attempt p))
              s1))
      → Trail p call last u attempt s

-- The end of the loop with the call that an attempt makes: its response; or its error, normalized
-- and published with the attempt as the end of the retries, when it is not retryable or the attempt
-- is the last that the policy has.
abbrev pub Ends : RetryPolicy → Action → ℕ → ℕ → State → Outcome × State → Type 0
Ends p call most attempt u (ok response, s) = (call u).0 ≡ ok response
Ends p call most attempt u (err e, s) =
    (thrown : Thrown) × (before : List Event) × ((call u).0 ≡ err thrown)
    × (e ≡ execution (normalize_error thrown))
    × (s.events ≡ retry_exhausted attempt (normalize_error thrown).kind ∷ before)
    × ((is_retryable_under (normalize_error thrown).kind p ≡ false) ⊎ (attempt ≡ most))

abbrev pub Answers : RetryPolicy → Action → ℕ → ℕ → State → Outcome × State → Type 0
Answers p call most attempt s r =
    (last : ℕ) × (u : State) × Trail p call last u attempt s
    × (last ≤ most)
    × Ends p call most last u r
