-- ===== src/Aiops/Retry/Laws.antt =====
-- How often the retry middleware calls on, and that it survives a provider that is down for a while.
use adam_os.Base.{
  ℕ, zero, suc, ◌+◌, ◌-◌, ◌*◌, ◌≤◌, ◌<◌, ◌≡◌, refl, ap, subst, ◌∙◌, true, false, Option, none, some,
  ◌∷◌, arith, max, ok, err, length,
}
use adam_os.Aiops.Types.{ExecutionTarget, CompletionRequest, CompletionResponse, Context}
use adam_os.Aiops.Errors.{normalize_error}
use adam_os.Aiops.Effects.{
  State, Outcome, Action, Next, emit, retry_attempt, slept, retry_started, retry_bypassed_by_policy,
  retry_bypassed_ineligible,
}
use adam_os.Aiops.Retry.{
  RetryPolicy, is_retryable_under, compute_delay_ms, after_attempt, retry_loop, retry_run,
  retry_eligible,
}

-- A computation that calls providers at most `n` times.
abbrev pub CallsAtMost : ℕ → Action → Type 0
CallsAtMost n call = (s : State) → length (call s).1.calls ≤ length s.calls + n

after_attempt-calls :
    (p : RetryPolicy) (attempt n : ℕ) (rest : Action) (r : Outcome × State)
    → CallsAtMost n rest
    → length (after_attempt p attempt (some rest) r).1.calls ≤ length r.1.calls + n
unfolding after_attempt
after_attempt-calls p attempt n rest (ok response, s) h = ground arith
after_attempt-calls p attempt n rest (err e, s) h =
    let x = normalize_error e in
    let delay = compute_delay_ms attempt p in
    ground (arith, h (emit (slept delay) (emit (retry_attempt attempt x.kind true delay) s)))

pub after_last-calls :
    (p : RetryPolicy) (attempt : ℕ) (r : Outcome × State)
    → (after_attempt p attempt none r).1.calls ≡ r.1.calls
unfolding after_attempt
after_last-calls p attempt (ok response, s) = ground arith
after_last-calls p attempt (err e, s) = refl

retry_loop-CallsAtMost :
    (p : RetryPolicy) (call : Action) (left attempt n : ℕ)
    → CallsAtMost n call
    → CallsAtMost (n + left * n) (retry_loop p call left attempt)
unfolding retry_loop
retry_loop-CallsAtMost p call zero attempt n h s =
    rw (after_last-calls p attempt (call s)) (omega (arith, h s))
retry_loop-CallsAtMost p call (suc left) attempt n h s = omega (
  arith,
  h s,
  after_attempt-calls p attempt (n + left * n) (retry_loop p call left (attempt + 1)) (call s)
      (retry_loop-CallsAtMost p call left (attempt + 1) n h),
)

times-suc : (m n : ℕ) → 1 ≤ m → n + (m - 1) * n ≡ m * n
times-suc zero n h = elim h [ ]
times-suc (suc m) n h = rw (pred-suc m) (omega arith)
  where
    pred-suc : (k : ℕ) → suc k - 1 ≡ k
    pred-suc k = omega arith

le-times : (m n : ℕ) → 1 ≤ m → n ≤ m * n
le-times m n h = omega (arith, times-suc m n h)

-- If `next` calls providers at most `n` times, so does retry for each attempt that it may make.
pub retry_run-CallsAtMost :
    (p : RetryPolicy) (ctx : Context) (request : CompletionRequest) (next : Next) (n : ℕ)
    → CallsAtMost n (next request none)
    → CallsAtMost (max 1 p.max_attempts * n) (retry_run p ctx request next)
unfolding retry_run
retry_run-CallsAtMost p ctx request next n h s =
    let m = max 1 p.max_attempts in
    let positive : 1 ≤ m = omega arith in
    ground (
      arith,
      h s,
      h (emit retry_bypassed_by_policy s),
      h (emit retry_bypassed_ineligible s),
      retry_loop-CallsAtMost p (next request none) (m - 1) 1 n h (emit (retry_started m) s),
      times-suc m n positive,
      le-times m n positive,
    )

pub retry_run-active :
    (p : RetryPolicy) (ctx : Context) (request : CompletionRequest) (next : Next) (s : State)
    → p.enabled ≡ true
    → p.bypass ≡ false
    → retry_eligible p ctx ≡ true
    → retry_run p ctx request next s
      ≡ retry_loop p
          (next request none)
          (max 1 p.max_attempts - 1)
          1
          (emit (retry_started (max 1 p.max_attempts)) s)
unfolding retry_run
retry_run-active p ctx request next s on watched admitted = ground (arith, admitted)

-- An error that the policy retries.
abbrev pub IsTransient : RetryPolicy → Outcome → Type 0
IsTransient p (ok response) = ⊥
IsTransient p (err e) = is_retryable_under (normalize_error e).kind p ≡ true

-- A computation whose result is the n-th of a series, n counting the calls made before.
abbrev pub Follows : (ℕ → Outcome) → ExecutionTarget → Action → Type 0
Follows series target call =
    (s : State) → call s ≡ (series (length s.calls), record s { calls = target ∷ s.calls })

module _ (p : RetryPolicy) (series : ℕ → Outcome) (target : ExecutionTarget) (call : Action)
    (follows : Follows series target call) (response : CompletionResponse) where
  succeed_now :
      (attempt : ℕ) (rest : Option Action) (s : State)
      → series (length s.calls) ≡ ok response
      → let r = after_attempt p attempt rest (call s) in
        (r.0 ≡ ok response) × (length r.1.calls ≡ length s.calls + 1)
  unfolding after_attempt
  succeed_now attempt rest s h = rw (follows s) (rw h (by_rest rest))
    where
      by_rest :
          (q : Option Action)
          → let r =
              after_attempt p attempt q (ok response, record s { calls = target ∷ s.calls }) in
            (r.0 ≡ ok response) × (length r.1.calls ≡ length s.calls + 1)
      by_rest none = (refl, ground arith)
      by_rest (some q) = (refl, ground arith)

  retry_now :
      (attempt : ℕ) (rest : Action) (s : State)
      → IsTransient p (series (length s.calls))
      → (u : State) × (length u.calls ≡ length s.calls + 1)
        × (after_attempt p attempt (some rest) (call s) ≡ rest u)
  unfolding after_attempt
  retry_now attempt rest s h = rw (follows s) (by_outcome (series (length s.calls)) h)
    where
      by_outcome :
          (o : Outcome)
          → IsTransient p o
          → (u : State) × (length u.calls ≡ length s.calls + 1)
            × (after_attempt p attempt (some rest) (o, record s { calls = target ∷ s.calls })
                ≡ rest u)
      by_outcome (ok r) h' = absurd h'
      by_outcome (err e) h' =
          let delay = compute_delay_ms attempt p in
          let kind = (normalize_error e).kind in
          (
            emit (slept delay) (
                emit (retry_attempt attempt kind true delay)
                  (record s { calls = target ∷ s.calls })),
            omega arith,
            rw h' refl,
          )

  retry_loop_survives :
      (n left attempt : ℕ) (s : State)
      → n ≤ left
      → ((i : ℕ) → i < n → IsTransient p (series (length s.calls + i)))
      → series (length s.calls + n) ≡ ok response
      → let r = retry_loop p call left attempt s in
        (r.0 ≡ ok response) × (length r.1.calls ≡ length s.calls + n + 1)
  unfolding retry_loop
  retry_loop_survives zero zero attempt s h transient done =
      let (a, b) = succeed_now attempt none s (ap series (omega arith) ∙ done) in (a, omega arith)
  retry_loop_survives zero (suc left) attempt s h transient done =
      let (a, b) =
        succeed_now attempt (some (retry_loop p call left (attempt + 1))) s
          (ap series (omega arith) ∙ done) in
      (a, omega arith)
  retry_loop_survives (suc n) zero attempt s h transient done = elim h [ ]
  retry_loop_survives (suc n) (suc left) attempt s h transient done =
      let rest = retry_loop p call left (attempt + 1) in
      let first : IsTransient p (series (length s.calls)) =
        subst (λ k. IsTransient p (series k)) (omega arith) (transient 0 (omega arith)) in
      let (u, one_more, same) = retry_now attempt rest s first in
      let (a, b) =
        retry_loop_survives n left (attempt + 1) u (omega arith)
          (λ i hi.
            subst (λ k. IsTransient p (series k)) (omega (arith, one_more))
              (transient (suc i) (omega arith)))
          (ap series (omega (arith, one_more)) ∙ done) in
      rw same (a, omega (arith, one_more, b))

  -- Where the provider fails in ways that the policy retries for fewer calls than the policy has
  -- attempts, and then answers, retry answers the same after exactly one call more.
  pub retry_run_survives :
      (ctx : Context) (request : CompletionRequest) (next : Next) (n : ℕ) (s : State)
      → p.enabled ≡ true
      → p.bypass ≡ false
      → retry_eligible p ctx ≡ true
      → next request none ≡ call
      → n < max 1 p.max_attempts
      → ((i : ℕ) → i < n → IsTransient p (series (length s.calls + i)))
      → series (length s.calls + n) ≡ ok response
      → let r = retry_run p ctx request next s in
        (r.0 ≡ ok response) × (length r.1.calls ≡ length s.calls + n + 1)
  retry_run_survives ctx request next n s on watched admitted same h transient done =
      rw (retry_run-active p ctx request next s on watched admitted) (
        rw same (
          retry_loop_survives n (max 1 p.max_attempts - 1) 1
            (emit (retry_started (max 1 p.max_attempts)) s) (omega arith) transient done))
