-- ===== src/Aiops/Fallback.antt =====
-- lib/aiops/fallback: the fallback orchestrator.
pub mod Laws
use adam_os.Base.{
  ℕ, zero, suc, ◌+◌, Bool, true, false, not, ◌&&◌, ◌||◌, Option, none, some, List, [], ◌∷◌, ◌++◌,
  Str, str_eq, filter, take, flatten, map, is_empty, Result, ok, err, if◌then◌else◌, is_some,
}
use adam_os.Aiops.Types.{
  CompletionRequest, ExecutionTarget, Context, same_target, primary_of, eligible,
}
use adam_os.Aiops.Errors.{
  ExecutionErrorKind, timeout, rate_limit, provider_unavailable, includes_kind, Thrown,
  normalize_error,
}
use adam_os.Aiops.Effects.{
  State, Outcome, Action, Next, emit, fallback_started, fallback_attempt, fallback_succeeded,
  fallback_exhausted, fallback_bypassed,
}

pub record FallbackPolicy : Type 0 where
  pub enabled : Bool
  pub fallback_providers : List Str
  pub max_fallback_attempts : ℕ
  pub fallback_error_classes : List ExecutionErrorKind
  pub eligible_providers : List Str
  pub eligible_workloads : List Str
  pub bypass : Bool

unfoldable pub default_fallback_policy : FallbackPolicy
default_fallback_policy = record {
  enabled = false;
  fallback_providers = [];
  max_fallback_attempts = 2;
  fallback_error_classes = timeout ∷ rate_limit ∷ provider_unavailable ∷ [];
  eligible_providers = [];
  eligible_workloads = [];
  bypass = false;
}

unfoldable pub fallback_eligible : FallbackPolicy → Context → Bool
fallback_eligible p ctx = eligible p.eligible_providers p.eligible_workloads ctx

unfoldable pub is_fallback_eligible : ExecutionErrorKind → FallbackPolicy → Bool
is_fallback_eligible kind p = includes_kind p.fallback_error_classes kind

-- `plan.targets` without the primary one
unfoldable pub alternates : List ExecutionTarget → Context → List ExecutionTarget
alternates plan ctx = filter (λ t. not (same_target t (primary_of ctx))) plan

unfoldable pub ordered_fallback_targets :
    List ExecutionTarget → FallbackPolicy → Context → List ExecutionTarget
unfolding alternates
ordered_fallback_targets plan p ctx =
    let others = alternates plan ctx in
    let listed =
      flatten (map (λ q. filter (λ t. str_eq t.provider q) others) p.fallback_providers) in
    take p.max_fallback_attempts (if is_empty p.fallback_providers then others else listed)

-- What follows a call for one target; `rest` tries the targets behind it.
unfoldable pub after_target :
    ExecutionTarget → ℕ → (Thrown → Action) → Outcome × State → Outcome × State
after_target target attempt rest (ok response, s) =
    (ok response, emit (fallback_succeeded target attempt) s)
after_target target attempt rest (err e, s) = rest e s

-- The loop over the targets: `attempt` counts those tried, `last_error` is thrown if none is left.
unfoldable pub try_targets : Next → CompletionRequest → List ExecutionTarget → ℕ → Thrown → Action
unfolding after_target
try_targets next request [] attempt last_error s =
    (err last_error, emit (fallback_exhausted attempt) s)
try_targets next request (t ∷ ts) attempt last_error s =
    after_target t (attempt + 1) (try_targets next request ts (attempt + 1))
      (next request (some t) (emit (fallback_attempt t (attempt + 1)) s))

-- `FallbackCoordinator.run`
unfoldable pub coordinator_run : CompletionRequest → Thrown → List ExecutionTarget → Next → Action
unfolding try_targets
coordinator_run request primary_error targets next s =
    try_targets next request targets 0 primary_error
      (emit (fallback_started (normalize_error primary_error).kind) s)

-- The `catch` of `aroundInvoke`, after the primary path.
unfoldable pub after_primary :
    FallbackPolicy → Context → CompletionRequest → Next → Outcome × State → Outcome × State
after_primary p ctx request next (ok response, s) = (ok response, s)
after_primary p ctx request next (err e, s) =
    let targets = ordered_fallback_targets ctx.execution_plan p ctx in
    let redirected = coordinator_run request e targets next s in
    if not (is_fallback_eligible (normalize_error e).kind p) || is_empty targets
    then (err e, s)
    else redirected

-- `aroundInvoke`
unfoldable pub fallback_around : FallbackPolicy → Context → CompletionRequest → Next → Action
unfolding fallback_eligible
fallback_around p ctx request next s =
    if not p.enabled || not (is_some ctx.routing_decision) || not (fallback_eligible p ctx)
    then next request none s
    else if p.bypass
    then next request none (emit fallback_bypassed s)
    else after_primary p ctx request next (next request none s)
