-- ===== src/Aiops/Retry.antt =====
-- lib/aiops/retry: the retry middleware.
pub mod Delay
pub mod Laws
pub mod Answers
use adam_os.Base.{
  ℕ, zero, suc, ◌+◌, ◌-◌, ◌*◌, ◌^◌, Bool, true, false, not, ◌&&◌, Option, none, some, List, [], ◌∷◌,
  Str, min, max, ltb, Result, ok, err, if◌then◌else◌,
}
use adam_os.Aiops.Types.{CompletionRequest, Context, eligible}
use adam_os.Aiops.Errors.{
  ExecutionErrorKind, ExecutionError, timeout, rate_limit, provider_unavailable, includes_kind,
  execution, normalize_error,
}
use adam_os.Aiops.Effects.{
  State, Outcome, Action, Next, emit, retry_started, retry_attempt, retry_succeeded,
  retry_exhausted, retry_bypassed_by_policy, retry_bypassed_ineligible, slept,
}

pub data RetryBackoff : Type 0 where
  fixed exponential : RetryBackoff

pub record RetryPolicy : Type 0 where
  pub enabled : Bool
  pub max_attempts : ℕ
  pub initial_delay_ms : ℕ
  pub max_delay_ms : ℕ
  pub backoff : RetryBackoff
  pub retryable_error_classes : List ExecutionErrorKind
  pub retryable_providers : List Str
  pub retryable_workloads : List Str
  pub bypass : Bool

unfoldable pub default_retry_policy : RetryPolicy
default_retry_policy = record {
  enabled = false;
  max_attempts = 3;
  initial_delay_ms = 50;
  max_delay_ms = 2000;
  backoff = exponential;
  retryable_error_classes = timeout ∷ rate_limit ∷ provider_unavailable ∷ [];
  retryable_providers = [];
  retryable_workloads = [];
  bypass = false;
}

unfoldable pub retry_eligible : RetryPolicy → Context → Bool
retry_eligible p ctx = eligible p.retryable_providers p.retryable_workloads ctx

unfoldable pub is_retryable_under : ExecutionErrorKind → RetryPolicy → Bool
is_retryable_under kind p = includes_kind p.retryable_error_classes kind

unfoldable pub compute_delay_ms : ℕ → RetryPolicy → ℕ
compute_delay_ms attempt p =
    let n = max 1 attempt in
    let raw : ℕ = elim p.backoff [
      | exponential ↦ p.initial_delay_ms * 2 ^ (n - 1)
      | fixed ↦ p.initial_delay_ms
    ] in
    min raw p.max_delay_ms

-- What follows one call of `next`. `rest` is the next round of the loop: it is there exactly if
-- `attempt < maxAttempts`.
unfoldable pub after_attempt : RetryPolicy → ℕ → Option Action → Outcome × State → Outcome × State
after_attempt p attempt rest (ok response, s) =
    (ok response, if ltb 1 attempt then emit (retry_succeeded attempt) s else s)
after_attempt p attempt none (err e, s) =
    let x = normalize_error e in
    let s1 = emit (retry_attempt attempt x.kind (is_retryable_under x.kind p) 0) s in
    (err (execution x), emit (retry_exhausted attempt x.kind) s1)
after_attempt p attempt (some rest) (err e, s) =
    let x = normalize_error e in
    let delay = compute_delay_ms attempt p in
    let again = rest (emit (slept delay) (emit (retry_attempt attempt x.kind true delay) s)) in
    let s1 = emit (retry_attempt attempt x.kind false 0) s in
    if is_retryable_under x.kind p
    then again
    else (err (execution x), emit (retry_exhausted attempt x.kind) s1)

-- The `while (true)` loop in its round `attempt`, with `left` rounds that may follow:
-- `attempt + left` is `maxAttempts`.
unfoldable pub retry_loop : RetryPolicy → Action → ℕ → ℕ → Action
unfolding after_attempt
retry_loop p call zero attempt s = after_attempt p attempt none (call s)
retry_loop p call (suc left) attempt s =
    after_attempt p attempt (some (retry_loop p call left (attempt + 1))) (call s)

-- `RetryCoordinator.run`
unfoldable pub retry_run : RetryPolicy → Context → CompletionRequest → Next → Action
unfolding retry_eligible
retry_run p ctx request next s =
    let call = next request none in
    let max_attempts = max 1 p.max_attempts in
    if not p.enabled
    then call s
    else if p.bypass
    then call (emit retry_bypassed_by_policy s)
    else if not (retry_eligible p ctx)
    then call (emit retry_bypassed_ineligible s)
    else retry_loop p call (max_attempts - 1) 1 (emit (retry_started max_attempts) s)
