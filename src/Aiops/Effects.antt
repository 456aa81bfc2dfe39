-- ===== src/Aiops/Effects.antt =====
-- What an invocation of a provider does: the state it works on, the world it meets, and the layers
-- that `runLifecycle` of lib/aiops/execution/inference-pipeline.ts composes.
use adam_os.Base.{
  ℕ, suc, Bool, true, false, Option, none, some, List, [], ◌∷◌, ◌++◌, Str, str, Result, err,
  if◌then◌else◌,
}
use adam_os.Aiops.Types.{
  CompletionRequest, CompletionResponse, ExecutionTarget, Context, primary_of, plan_contains,
}
use adam_os.Aiops.Errors.{
  ExecutionErrorKind, authentication, provider_unavailable, Thrown, execution,
}

pub data CircuitState : Type 0 where
  closed open_ half_open : CircuitState

pub record CircuitRecord : Type 0 where
  pub state : CircuitState
  pub failures : ℕ
  pub half_open_successes : ℕ
  pub opened_at : ℕ

-- What is published on the event bus, with the circuit's key in place of its digest, and the
-- delays that retry sleeps.
pub data Event : Type 0 where
  circuit_opened : Str → ℕ → Event
  circuit_closed circuit_half_opened circuit_rejected : Str → Event
  retry_started : ℕ → Event
  retry_attempt : ℕ → ExecutionErrorKind → Bool → ℕ → Event
  retry_succeeded : ℕ → Event
  retry_exhausted : ℕ → ExecutionErrorKind → Event
  retry_bypassed_by_policy retry_bypassed_ineligible : Event
  slept : ℕ → Event
  fallback_started : ExecutionErrorKind → Event
  fallback_attempt : ExecutionTarget → ℕ → Event
  fallback_succeeded : ExecutionTarget → ℕ → Event
  fallback_exhausted : ℕ → Event
  fallback_bypassed : Event

-- `circuits` is the map of the breaker, `reads` counts how often the breaker read the clock, `calls` lists
-- the targets whose provider was called and `events` what was published, the latest first.
pub record State : Type 0 where
  pub circuits : List (Str × CircuitRecord)
  pub reads : ℕ
  pub calls : List ExecutionTarget
  pub events : List Event

-- What the program does not determine: what the breaker reads from the clock the n-th time; whether a provider is
-- registered, and if so configured; and what the n-th call of a provider gives.
pub record Env : Type 0 where
  pub clock : ℕ → ℕ
  pub registry : Str → Option Bool
  pub complete : ℕ → CompletionRequest → ExecutionTarget → Result Thrown CompletionResponse

abbrev pub Outcome : Type 0
Outcome = Result Thrown CompletionResponse

-- A computation that may throw; the state survives a throw.
abbrev pub Action : Type 0
Action = State → Outcome × State

-- `next(request, target?)`
abbrev pub Next : Type 0
Next = CompletionRequest → Option ExecutionTarget → Action

-- `guard(() => bus.publish(event))`
abbrev pub emit : Event → State → State
emit e s = record s { events = e ∷ s.events }

abbrev pub throw_kind : ExecutionErrorKind → Str → Thrown
throw_kind kind message = execution (record { kind = kind; message = message })

pub not_in_plan : ExecutionTarget → Str
not_in_plan t =
    str "execution target not in the authorized execution plan: "
    ++ (t.provider ++ (str "|" ++ t.model))

pub not_registered : Str → Str
not_registered p = str "provider not registered: " ++ p

pub not_configured : Str → Str
not_configured p = str "provider '" ++ (p ++ str "' is not configured (credentials missing)")

abbrev pub ordinal : List ExecutionTarget → ℕ
ordinal [] = 0
ordinal (t ∷ ts) = suc (ordinal ts)

-- The innermost call: the registry, and the adapter's `complete`.
unfoldable pub call_provider : Env → CompletionRequest → ExecutionTarget → Action
call_provider env request t s = elim (env.registry t.provider) [
  | none ↦ (err (throw_kind provider_unavailable (not_registered t.provider)), s)
  | some false ↦ (err (throw_kind authentication (not_configured t.provider)), s)
  | some true ↦ (env.complete (ordinal s.calls) request t, record s { calls = t ∷ s.calls })
]

-- The callback of `executeInference`: an override must be in the plan.
unfoldable pub invoke : Env → Context → Next
unfolding call_provider
invoke env ctx request none s = call_provider env request (primary_of ctx) s
invoke env ctx request (some t) s =
    let called = call_provider env request t s in
    if plan_contains ctx.execution_plan t
    then called
    else (err (throw_kind provider_unavailable (not_in_plan t)), s)

-- One step of the onion: an inner override wins over an outer one.
abbrev pub merge : Option ExecutionTarget → Option ExecutionTarget → Option ExecutionTarget
merge none outer = outer
merge (some t) outer = some t

unfoldable pub layer : (CompletionRequest → Next → Action) → Next → Next
layer around inner request outer = around request (λ r this. inner r (merge this outer))
