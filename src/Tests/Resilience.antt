-- ===== src/Tests/Resilience.antt =====
-- lib/aiops: a provider that is down for a while, under retry, fallback and the breaker.
use adam_os.Base.{
  ℕ, zero, suc, ◌+◌, ◌*◌, ◌<◌, ◌≤◌, ◌≡◌, refl, true, false, none, some, List, [], ◌∷◌, arith, str,
  str_eq, contains, lookup, insert, ok, err, if◌then◌else◌, ltb, length, all,
}
use adam_os.Aiops.Types.{
  CompletionRequest, CompletionResponse, ExecutionTarget, Context, plan_contains, eligible,
}
use adam_os.Aiops.Errors.{
  ExecutionErrorKind, timeout, rate_limit, provider_unavailable, authentication, cancelled,
  execution_failed, Thrown, other, execution, includes_kind, normalize_error,
}
use adam_os.Aiops.Effects.{
  closed, open_, half_open, State, emit, fallback_started, Env, Outcome, Next, layer, invoke,
  throw_kind, circuit_rejected,
}
use adam_os.Aiops.Circuit.{
  CircuitPolicy, circuit, circuit_key, cooled, trips_circuit, circuit_open_message,
  circuit_eligible, circuit_around, default_circuit_policy,
}
use adam_os.Aiops.Circuit.Invariant.{
  IsConsistent, none_yet, then_, success, Steps-IsConsistent, start-IsConsistent,
}
use adam_os.Aiops.Circuit.Lifecycle.{
  fail_times, succeed_times, trips_at_threshold, closes_at_threshold, circuit_around_isolates,
}
use adam_os.Aiops.Circuit.{on_success}
use adam_os.Aiops.Retry.{
  RetryPolicy, default_retry_policy, exponential, fixed, compute_delay_ms, is_retryable_under,
  retry_eligible, retry_run,
}
use adam_os.Aiops.Retry.Delay.{next_delay, compute_delay_ms_lem}
use adam_os.Aiops.Retry.Answers.{Answers}
use adam_os.Aiops.Retry.Laws.{IsTransient, retry_run_survives}
use adam_os.Aiops.Fallback.{
  FallbackPolicy, default_fallback_policy, ordered_fallback_targets, try_targets, fallback_around,
}
use adam_os.Aiops.Fallback.Laws.{
  is_alternate, TriesInOrder, ordered_fallback_targets-all, fallback_around-TriesInOrder,
}
use adam_os.Aiops.Stack.{Policies, retried, redirected, chain}
use adam_os.Aiops.Stack.Calls.{chain-CallsAtMost}
use adam_os.Aiops.Stack.Authorized.{is_authorized, chain-Keeps}
use adam_os.Aiops.Stack.Transparent.{chain-open}

abbrev request : CompletionRequest
request = record { prompt = str "hi"; output_schema = none; max_tokens = none }

abbrev response : CompletionResponse
response = record {
  text = str "ok";
  json = none;
  prompt_tokens = 1;
  completion_tokens = 1;
  latency_ms = 5;
  cost_usd = 0;
  provider = str "p";
  model_key = str "m";
}

abbrev primary : ExecutionTarget
primary = record { provider = str "p"; model = str "m" }

abbrev backup : ExecutionTarget
backup = record { provider = str "q"; model = str "n" }

abbrev plan : List ExecutionTarget
plan = primary ∷ backup ∷ []

abbrev ctx : Context
ctx = record {
  routing_decision = some (record {
    selected_provider = some (str "p");
    selected_model = some (str "m");
    execution_plan = some plan;
  });
  provider = str "p";
  model = str "m";
  workload_type = str "w";
  execution_plan = plan;
}

abbrev start : State
start = record { circuits = []; reads = 0; calls = []; events = [] }

abbrev outage : Thrown
outage = other (str "Error") (str "HTTP 503 from upstream")

-- The n-th call fails while n is below `down`.
abbrev series : ℕ → ℕ → Outcome
series down n = if ltb n down then err outage else ok response

abbrev env : ℕ → Env
env down = record {
  clock = λ n. 100 * n;
  registry = λ _. some true;
  complete = λ n _ _. series down n;
}

abbrev kinds : List ExecutionErrorKind
kinds = timeout ∷ rate_limit ∷ provider_unavailable ∷ []

abbrev circuit_policy : CircuitPolicy
circuit_policy = record {
  enabled = true;
  failure_threshold = 2;
  cooldown_ms = 1000;
  success_threshold = 2;
  tripping_error_classes = kinds;
  eligible_providers = [];
  eligible_workloads = [];
  bypass = false;
}

abbrev retry_policy : RetryPolicy
retry_policy = record {
  enabled = true;
  max_attempts = 3;
  initial_delay_ms = 50;
  max_delay_ms = 150;
  backoff = exponential;
  retryable_error_classes = kinds;
  retryable_providers = [];
  retryable_workloads = [];
  bypass = false;
}

abbrev fallback_policy : FallbackPolicy
fallback_policy = record {
  enabled = true;
  fallback_providers = [];
  max_fallback_attempts = 2;
  fallback_error_classes = kinds;
  eligible_providers = [];
  eligible_workloads = [];
  bypass = false;
}

abbrev policies : Policies
policies = record { circuit = circuit_policy; fallback = fallback_policy; retry = retry_policy }

program : Unit {0}
unfolding chain invoke plan_contains circuit_around circuit normalize_error includes_kind
    trips_circuit is_retryable_under retry_eligible circuit_eligible eligible
    ordered_fallback_targets str_eq contains lookup insert cooled circuit_key compute_delay_ms
program = tt

outage_kind : (normalize_error outage).kind ≡ provider_unavailable
unfolding program
outage_kind = refl

classified :
    ((normalize_error (other (str "AbortError") (str "x"))).kind ≡ cancelled)
    × ((normalize_error (other (str "E") (str "request was Cancelled."))).kind ≡ cancelled)
    × ((normalize_error (other (str "E") (str "uncancellable job"))).kind ≡ execution_failed)
    × ((normalize_error (other (str "E") (str "missing API-key"))).kind ≡ authentication)
    × ((normalize_error (other (str "E") (str "Rate Limit hit"))).kind ≡ rate_limit)
    × ((normalize_error (other (str "E") (str "ETIMEDOUT"))).kind ≡ timeout)
unfolding program
classified = (refl, refl, refl, refl, refl, refl)

-- The primary target fails for two calls and answers the third.
recovers : (chain (env 2) policies ctx request none start).0 ≡ ok response
unfolding program retry_run layer redirected retried fallback_around adam_os.Aiops.Circuit.proceed
    adam_os.Aiops.Circuit.admit adam_os.Aiops.Circuit.record_circuit adam_os.Aiops.Circuit.settle
    adam_os.Aiops.Fallback.after_primary adam_os.Aiops.Retry.retry_loop
recovers = refl

-- Under the default policies the first error is the answer.
abbrev default_policies : Policies
default_policies = record {
  circuit = default_circuit_policy;
  fallback = default_fallback_policy;
  retry = default_retry_policy;
}

fails_at_once : (chain (env 2) default_policies ctx request none start).0 ≡ err outage
unfolding program retry_run layer redirected retried fallback_around default_circuit_policy
    default_fallback_policy default_retry_policy
fails_at_once = refl

Steps-IsConsistent_example :
    IsConsistent circuit_policy (on_success circuit_policy (str "k") start).circuits
Steps-IsConsistent_example =
    Steps-IsConsistent (env 0) circuit_policy {s = start} (then_ none_yet (success (str "k") start))
      (start-IsConsistent circuit_policy)

trips_at_threshold_example :
    let r =
      circuit (str "k") (fail_times (env 0) circuit_policy (str "k") timeout 2 start).circuits in
    (r.state ≡ open_) × (r.failures ≡ 2)
unfolding circuit lookup trips_circuit includes_kind
trips_at_threshold_example =
    trips_at_threshold (env 0) circuit_policy (str "k") timeout 2 start refl refl refl (omega arith)

abbrev half_open_state : State
half_open_state = record start {
  circuits =
      (str "k", record { state = half_open; failures = 2; half_open_successes = 0; opened_at = 0 })
      ∷ [];
}

closes_at_threshold_example :
    let r =
      circuit
        (str "k")
        (succeed_times (env 0) circuit_policy (str "k") 2 half_open_state).circuits in
    (r.state ≡ closed) × (r.half_open_successes ≡ 0)
unfolding circuit lookup str_eq
closes_at_threshold_example =
    closes_at_threshold (env 0) circuit_policy (str "k") 2 half_open_state refl refl (omega arith)

-- The provider, called with no middleware around it.
abbrev bare : Next
bare = λ r t s. (series 2 (length s.calls), record s { calls = primary ∷ s.calls })

circuit_around_isolates_example :
    circuit (str "other") (circuit_around (env 2) circuit_policy ctx request bare start).1.circuits
    ≡ circuit (str "other") start.circuits
unfolding circuit_key
circuit_around_isolates_example =
    circuit_around_isolates (env 2) circuit_policy ctx request bare start (str "other") (λ e. cc)
      (λ t. refl)

transient : (i : ℕ) → i < 2 → IsTransient retry_policy (series 2 (0 + i))
unfolding program
transient zero h = refl
transient (suc zero) h = refl
transient (suc (suc i)) h = absurd (omega arith)

retry_run_survives_example :
    let r = retry_run retry_policy ctx request bare start in
    (r.0 ≡ ok response) × (length r.1.calls ≡ 3)
unfolding retry_eligible eligible
retry_run_survives_example =
    retry_run_survives retry_policy (series 2) primary (bare request none) (λ s. refl) response ctx
      request bare 2 start refl refl refl refl (omega arith) transient refl

compute_delay_ms_lem_example :
    (compute_delay_ms 1 retry_policy ≡ 50)
    × (compute_delay_ms 3 retry_policy ≡ next_delay retry_policy (compute_delay_ms 2 retry_policy))
    × (compute_delay_ms 2 retry_policy ≤ 150)
compute_delay_ms_lem_example = compute_delay_ms_lem retry_policy 2 (omega arith)

ordered_fallback_targets-all_example :
    (all (is_alternate plan ctx) (ordered_fallback_targets plan fallback_policy ctx) ≡ true)
    × (length (ordered_fallback_targets plan fallback_policy ctx) ≤ 2)
ordered_fallback_targets-all_example = ordered_fallback_targets-all plan fallback_policy ctx

-- The primary target fails in all of its attempts, and the next target then answers.
abbrev worn : Thrown
worn = execution (normalize_error outage)

fallback_around-TriesInOrder_example :
    TriesInOrder
      (retried (env 3) policies ctx)
      request
      (ordered_fallback_targets plan fallback_policy ctx)
      0
      worn
      (emit
        (fallback_started (normalize_error worn).kind)
        (retried (env 3) policies ctx request none start).1)
      (fallback_around fallback_policy ctx request (retried (env 3) policies ctx) start)
unfolding program retry_run layer retried adam_os.Aiops.Retry.retry_loop
    adam_os.Aiops.Fallback.fallback_eligible adam_os.Aiops.Fallback.is_fallback_eligible
fallback_around-TriesInOrder_example =
    fallback_around-TriesInOrder (retried (env 3) policies ctx) request fallback_policy ctx start
      (retried (env 3) policies ctx request none start).1 worn refl refl refl refl refl refl refl

chain-CallsAtMost_example : length (chain (env 9) policies ctx request none start).1.calls ≤ 9
chain-CallsAtMost_example = chain-CallsAtMost (env 9) policies ctx request start

chain-Keeps_example :
    all (is_authorized ctx) (chain (env 9) policies ctx request none start).1.calls ≡ true
chain-Keeps_example = chain-Keeps (env 9) policies ctx request start refl

abbrev tripped : State
tripped = record start {
  circuits =
      (str "p|m", record { state = open_; failures = 2; half_open_successes = 0; opened_at = 0 })
      ∷ [];
}

chain-open_example : chain (env 0) policies ctx request none tripped ≡ (
  err (throw_kind provider_unavailable (circuit_open_message (circuit_key ctx))),
  record tripped { reads = 1; events = circuit_rejected (circuit_key ctx) ∷ [] },
)
unfolding program
chain-open_example = chain-open (env 0) policies ctx request tripped (refl, refl, refl) refl refl
