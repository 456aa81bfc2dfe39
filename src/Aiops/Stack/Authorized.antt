-- ===== src/Aiops/Stack/Authorized.antt =====
-- The composed middleware calls no target but the primary one and those of the execution plan.
use adam_os.Base.{
  ℕ, zero, suc, ◌+◌, ◌≡◌, Bool, true, ◌||◌, Option, none, some, List, [], ◌∷◌, ◌-◌, arith, max, ok,
  err, all, str_eq_refl, Str,
}
use adam_os.Aiops.Types.{
  CompletionRequest, ExecutionTarget, Context, plan_contains, same_target, primary_of,
}
use adam_os.Aiops.Errors.{Thrown, normalize_error}
use adam_os.Aiops.Effects.{
  Env, State, Outcome, Action, Next, layer, merge, invoke, emit, retry_attempt, slept,
  retry_started, retry_bypassed_by_policy, retry_bypassed_ineligible, fallback_attempt,
  fallback_started, fallback_bypassed,
}
use adam_os.Aiops.Circuit.{CircuitPolicy, admit, proceed, circuit_around, circuit_key}
use adam_os.Aiops.Retry.{RetryPolicy, compute_delay_ms, after_attempt, retry_loop, retry_run}
use adam_os.Aiops.Retry.Laws.{after_last-calls}
use adam_os.Aiops.Fallback.{
  FallbackPolicy, after_target, try_targets, coordinator_run, after_primary, fallback_around,
  ordered_fallback_targets,
}
use adam_os.Aiops.Stack.Calls.{admit-calls, settle-calls}
use adam_os.Aiops.Stack.{Policies, retried, redirected, chain}

module _ (good : ExecutionTarget → Bool) where
  -- A computation that adds only good calls.
  abbrev pub Keeps : Action → Type 0
  Keeps call = (s : State) → all good s.calls ≡ true → all good (call s).1.calls ≡ true

  module _ (p : RetryPolicy) where
    after_attempt-Keeps :
        (attempt : ℕ) (rest : Action) (r : Outcome × State)
        → Keeps rest
        → all good r.1.calls ≡ true
        → all good (after_attempt p attempt (some rest) r).1.calls ≡ true
    unfolding after_attempt
    after_attempt-Keeps attempt rest (ok response, s) h g = ground arith
    after_attempt-Keeps attempt rest (err e, s) h g =
        let kind = (normalize_error e).kind in
        let delay = compute_delay_ms attempt p in
        ground (arith, h (emit (slept delay) (emit (retry_attempt attempt kind true delay) s)))

    retry_loop-Keeps :
        (call : Action) (left attempt : ℕ) → Keeps call → Keeps (retry_loop p call left attempt)
    unfolding retry_loop
    retry_loop-Keeps call zero attempt h s g = rw (after_last-calls p attempt (call s)) (h s g)
    retry_loop-Keeps call (suc left) attempt h s g =
        after_attempt-Keeps attempt (retry_loop p call left (attempt + 1)) (call s)
          (retry_loop-Keeps call left (attempt + 1) h) (h s g)

    retry_run-Keeps :
        (ctx : Context) (request : CompletionRequest) (next : Next)
        → Keeps (next request none)
        → Keeps (retry_run p ctx request next)
    unfolding retry_run
    retry_run-Keeps ctx request next h s g =
        let m = max 1 p.max_attempts in
        ground (
          arith,
          h s,
          h (emit retry_bypassed_by_policy s),
          h (emit retry_bypassed_ineligible s),
          retry_loop-Keeps (next request none) (m - 1) 1 h (emit (retry_started m) s),
        )

  module _ (next : Next) (request : CompletionRequest)
      (h : (t : Option ExecutionTarget) → Keeps (next request t)) where
    after_target-Keeps :
        (t : ExecutionTarget) (attempt : ℕ) (rest : Thrown → Action) (r : Outcome × State)
        → ((e : Thrown) → Keeps (rest e))
        → all good r.1.calls ≡ true
        → all good (after_target t attempt rest r).1.calls ≡ true
    unfolding after_target
    after_target-Keeps t attempt rest (ok response, s) k g = g
    after_target-Keeps t attempt rest (err e, s) k g = k e s g

    try_targets-Keeps :
        (ts : List ExecutionTarget) (attempt : ℕ) (e : Thrown)
        → Keeps (try_targets next request ts attempt e)
    unfolding try_targets
    try_targets-Keeps [] attempt e s g = g
    try_targets-Keeps (t ∷ ts) attempt e s g =
        after_target-Keeps t (attempt + 1) (try_targets next request ts (attempt + 1))
          (next request (some t) (emit (fallback_attempt t (attempt + 1)) s))
          (λ e'. try_targets-Keeps ts (attempt + 1) e')
          (h (some t) (emit (fallback_attempt t (attempt + 1)) s) g)

    after_primary-Keeps :
        (p : FallbackPolicy) (ctx : Context) (r : Outcome × State)
        → all good r.1.calls ≡ true
        → all good (after_primary p ctx request next r).1.calls ≡ true
    unfolding after_primary coordinator_run
    after_primary-Keeps p ctx (ok response, s) g = g
    after_primary-Keeps p ctx (err e, s) g =
        let targets = ordered_fallback_targets ctx.execution_plan p ctx in
        let kind = (normalize_error e).kind in
        ground (arith, try_targets-Keeps targets 0 e (emit (fallback_started kind) s))

    fallback_around-Keeps :
        (p : FallbackPolicy) (ctx : Context) → Keeps (fallback_around p ctx request next)
    unfolding fallback_around
    fallback_around-Keeps p ctx s g = ground (
      arith,
      h none s,
      h none (emit fallback_bypassed s),
      after_primary-Keeps p ctx (next request none s),
    )

  module _ (env : Env) (p : CircuitPolicy) where
    proceed-Keeps :
        (key : Str) (call : Action) (a : Option Thrown × State)
        → Keeps call
        → all good a.1.calls ≡ true
        → all good (proceed env p key call a).1.calls ≡ true
    unfolding proceed
    proceed-Keeps key call (none, s) h g = rw (settle-calls env p key (call s)) (h s g)
    proceed-Keeps key call (some e, s) h g = g

    circuit_around-Keeps :
        (ctx : Context) (request : CompletionRequest) (next : Next)
        → Keeps (next request none)
        → Keeps (circuit_around env p ctx request next)
    unfolding circuit_around
    circuit_around-Keeps ctx request next h s g =
        let key = circuit_key ctx in
        ground (
          arith,
          h s,
          admit-calls env p key s,
          proceed-Keeps key (next request none) (admit env p key s) h,
        )

-- The primary target, or one of the plan.
abbrev pub is_authorized : Context → ExecutionTarget → Bool
is_authorized ctx t = plan_contains ctx.execution_plan t || same_target t (primary_of ctx)

invoke-Keeps :
    (env : Env) (ctx : Context) (request : CompletionRequest) (t : Option ExecutionTarget)
    → Keeps (is_authorized ctx) (invoke env ctx request t)
unfolding invoke
invoke-Keeps env ctx request none s g =
    ground (arith, str_eq_refl ctx.provider, str_eq_refl ctx.model)
invoke-Keeps env ctx request (some t) s g = ground arith

-- Whatever the policies and the providers do, every provider that an execution calls is that of
-- the primary target or of a target of the plan.
pub chain-Keeps :
    (env : Env) (p : Policies) (ctx : Context) (request : CompletionRequest)
    → Keeps (is_authorized ctx) (chain env p ctx request none)
unfolding chain redirected retried layer
chain-Keeps env p ctx request =
    let good = is_authorized ctx in
    let retry = λ (t : Option ExecutionTarget).
      retry_run-Keeps good p.retry ctx request (λ r this. invoke env ctx r (merge this t))
        (invoke-Keeps env ctx request (merge none t)) in
    circuit_around-Keeps good env p.circuit ctx request
      (λ r this. redirected env p ctx r (merge this none))
      (fallback_around-Keeps good (λ r this. retried env p ctx r (merge this none)) request
        (λ this. retry (merge this none)) p.fallback ctx)
