-- ===== src/Aiops/Stack/Calls.antt =====
-- How often, and whom, the composed middleware calls.
use adam_os.Base.{ℕ, ◌+◌, ◌*◌, ◌≤◌, ◌≡◌, Option, none, some, arith, max, ok, err, length, Str}
use adam_os.Aiops.Types.{CompletionRequest, ExecutionTarget, Context, primary_of}
use adam_os.Aiops.Errors.{Thrown}
use adam_os.Aiops.Effects.{Env, State, Outcome, Action, Next, layer, merge, call_provider, invoke}
use adam_os.Aiops.Circuit.{
  CircuitPolicy, admit, on_success, on_failure, settle, proceed, circuit_around, circuit_key,
}
use adam_os.Aiops.Retry.Laws.{CallsAtMost, retry_run-CallsAtMost}
use adam_os.Aiops.Fallback.Laws.{fallback_around-CallsAtMost}
use adam_os.Aiops.Stack.{Policies, retried, redirected, chain}

call_provider-CallsAtMost :
    (env : Env) (request : CompletionRequest) (t : ExecutionTarget)
    → CallsAtMost 1 (call_provider env request t)
unfolding call_provider
call_provider-CallsAtMost env request t s = ground arith

invoke-CallsAtMost :
    (env : Env) (ctx : Context) (request : CompletionRequest) (target : Option ExecutionTarget)
    → CallsAtMost 1 (invoke env ctx request target)
unfolding invoke
invoke-CallsAtMost env ctx request none s = call_provider-CallsAtMost env request (primary_of ctx) s
invoke-CallsAtMost env ctx request (some t) s =
    ground (arith, call_provider-CallsAtMost env request t s)

-- The breaker itself calls no provider.
pub admit-calls :
    (env : Env) (p : CircuitPolicy) (key : Str) (s : State) → (admit env p key s).1.calls ≡ s.calls
unfolding admit
admit-calls env p key s = ground arith

pub settle-calls :
    (env : Env) (p : CircuitPolicy) (key : Str) (r : Outcome × State)
    → (settle env p key r).1.calls ≡ r.1.calls
unfolding settle on_success on_failure
settle-calls env p key (ok response, s) = ground arith
settle-calls env p key (err e, s) = ground arith

module _ (env : Env) (p : CircuitPolicy) where
  proceed-calls :
      (key : Str) (call : Action) (n : ℕ) (a : Option Thrown × State)
      → CallsAtMost n call
      → length (proceed env p key call a).1.calls ≤ length a.1.calls + n
  unfolding proceed
  proceed-calls key call n (none, s) h = rw (settle-calls env p key (call s)) (h s)
  proceed-calls key call n (some e, s) h = omega arith

  circuit_around-CallsAtMost :
      (ctx : Context) (request : CompletionRequest) (next : Next) (n : ℕ)
      → CallsAtMost n (next request none)
      → CallsAtMost n (circuit_around env p ctx request next)
  unfolding circuit_around
  circuit_around-CallsAtMost ctx request next n h s =
      let key = circuit_key ctx in
      ground (
        arith,
        h s,
        admit-calls env p key s,
        proceed-calls key (next request none) n (admit env p key s) h,
      )

module _ (env : Env) (p : Policies) (ctx : Context) (request : CompletionRequest) where
  retried-CallsAtMost :
      (t : Option ExecutionTarget)
      → CallsAtMost (max 1 p.retry.max_attempts * 1) (retried env p ctx request t)
  unfolding retried layer
  retried-CallsAtMost t =
      retry_run-CallsAtMost p.retry ctx request (λ r this. invoke env ctx r (merge this t)) 1
        (invoke-CallsAtMost env ctx request (merge none t))

  redirected-CallsAtMost :
      (t : Option ExecutionTarget)
      → CallsAtMost
          ((1 + p.fallback.max_fallback_attempts) * (max 1 p.retry.max_attempts * 1))
          (redirected env p ctx request t)
  unfolding redirected layer
  redirected-CallsAtMost t =
      fallback_around-CallsAtMost (λ r this. retried env p ctx r (merge this t)) request
        (max 1 p.retry.max_attempts * 1) (λ this. retried-CallsAtMost (merge this t)) p.fallback ctx

  -- One execution calls providers at most as often as the retries of the primary target and of the
  -- alternates that fallback may try.
  pub chain-CallsAtMost :
      CallsAtMost
        ((1 + p.fallback.max_fallback_attempts) * max 1 p.retry.max_attempts)
        (chain env p ctx request none)
  unfolding chain layer
  chain-CallsAtMost s = omega (
    arith,
    circuit_around-CallsAtMost env p.circuit ctx request
        (λ r this. redirected env p ctx r (merge this none))
        ((1 + p.fallback.max_fallback_attempts) * (max 1 p.retry.max_attempts * 1))
        (redirected-CallsAtMost none) s,
  )
