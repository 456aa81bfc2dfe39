-- ===== src/Aiops/Circuit.antt =====
-- lib/aiops/circuit: the circuit breaker.
pub mod Invariant
pub mod Lifecycle
use adam_os.Base.{
  ℕ, suc, ◌+◌, Bool, true, false, not, ◌&&◌, ◌||◌, Option, none, some, List, [], ◌∷◌, ◌++◌, Str,
  str, or_else, lookup, insert, is_some, leb, max, Result, ok, err, if◌then◌else◌,
}
use adam_os.Aiops.Types.{CompletionRequest, CompletionResponse, Context, eligible}
use adam_os.Aiops.Errors.{
  ExecutionErrorKind, provider_unavailable, includes_kind, timeout, rate_limit, Thrown,
  normalize_error,
}
use adam_os.Aiops.Effects.{
  CircuitState, closed, open_, half_open, CircuitRecord, State, Env, Outcome, Action, Next, emit,
  throw_kind, circuit_opened, circuit_closed, circuit_half_opened, circuit_rejected,
}

pub record CircuitPolicy : Type 0 where
  pub enabled : Bool
  pub failure_threshold : ℕ
  pub cooldown_ms : ℕ
  pub success_threshold : ℕ
  pub tripping_error_classes : List ExecutionErrorKind
  pub eligible_providers : List Str
  pub eligible_workloads : List Str
  pub bypass : Bool

unfoldable pub default_circuit_policy : CircuitPolicy
default_circuit_policy = record {
  enabled = false;
  failure_threshold = 5;
  cooldown_ms = 30000;
  success_threshold = 1;
  tripping_error_classes = timeout ∷ rate_limit ∷ provider_unavailable ∷ [];
  eligible_providers = [];
  eligible_workloads = [];
  bypass = false;
}

unfoldable pub circuit_key : Context → Str
circuit_key ctx = ctx.provider ++ (str "|" ++ ctx.model)

unfoldable pub circuit_eligible : CircuitPolicy → Context → Bool
circuit_eligible p ctx = eligible p.eligible_providers p.eligible_workloads ctx

unfoldable pub trips_circuit : ExecutionErrorKind → CircuitPolicy → Bool
trips_circuit kind p = includes_kind p.tripping_error_classes kind

abbrev pub fresh_circuit : CircuitRecord
fresh_circuit = record { state = closed; failures = 0; half_open_successes = 0; opened_at = 0 }

abbrev pub Circuits : Type 0
Circuits = List (Str × CircuitRecord)

-- The circuit of a key; a key that the map lacks reads as a fresh one.
unfoldable pub circuit : Str → Circuits → CircuitRecord
circuit key m = or_else (lookup key m) fresh_circuit

-- `record(key)`: enters a fresh circuit for a new key
unfoldable pub record_circuit : Str → Circuits → Circuits
record_circuit key m = if is_some (lookup key m) then m else insert key fresh_circuit m

abbrev pub set_circuit : Str → CircuitRecord → State → State
set_circuit key r s = record s { circuits = insert key r s.circuits }

abbrev pub is_open : CircuitState → Bool
is_open open_ = true
is_open _ = false

abbrev pub is_half_open : CircuitState → Bool
is_half_open half_open = true
is_half_open _ = false

-- Whether an open circuit has cooled down: `now - r.openedAt >= policy.cooldownMs`.
unfoldable pub cooled : CircuitPolicy → ℕ → CircuitRecord → Bool
cooled p now r = leb (r.opened_at + p.cooldown_ms) now

pub circuit_open_message : Str → Str
circuit_open_message key = str "circuit open for " ++ key

-- What stands before the call of `next`: an open circuit turns half open once it has cooled down,
-- and rejects before.
unfoldable pub admit : Env → CircuitPolicy → Str → State → Option Thrown × State
unfolding cooled
admit env p key s =
    let m = record_circuit key s.circuits in
    let r = circuit key m in
    let s1 = record s { circuits = m } in
    let s2 = record s1 { reads = s.reads + 1 } in
    let probe = record r { state = half_open; half_open_successes = 0 } in
    if is_open r.state
    then if cooled p (env.clock s.reads) r
      then (none, emit (circuit_half_opened key) (set_circuit key probe s2))
      else (
        some (throw_kind provider_unavailable (circuit_open_message key)),
        emit (circuit_rejected key) s2,
      )
    else (none, s1)

-- Whether a success closes a half open circuit.
unfoldable pub closes : CircuitPolicy → CircuitRecord → Bool
closes p r = is_half_open r.state && leb (max 1 p.success_threshold) (r.half_open_successes + 1)

unfoldable pub after_success : CircuitPolicy → CircuitRecord → CircuitRecord
unfolding closes
after_success p r =
    if is_half_open r.state
    then if closes p r
      then record r { state = closed; failures = 0; half_open_successes = 0 }
      else record r { half_open_successes = r.half_open_successes + 1 }
    else record r { failures = 0 }

-- `onSuccess`
unfoldable pub on_success : CircuitPolicy → Str → State → State
on_success p key s =
    let r = circuit key s.circuits in
    let s1 = set_circuit key (after_success p r) s in
    if closes p r then emit (circuit_closed key) s1 else s1

-- Whether a qualifying failure opens the circuit.
unfoldable pub opens : CircuitPolicy → CircuitRecord → Bool
opens p r = is_half_open r.state || leb (max 1 p.failure_threshold) (r.failures + 1)

unfoldable pub after_failure : CircuitPolicy → ℕ → CircuitRecord → CircuitRecord
unfolding opens
after_failure p now r =
    let failures =
      if is_half_open r.state then max r.failures p.failure_threshold else r.failures + 1 in
    if opens p r
    then record r { state = open_; opened_at = now; failures = failures }
    else record r { failures = failures }

-- `onFailure`
unfoldable pub on_failure : Env → CircuitPolicy → Str → ExecutionErrorKind → State → State
on_failure env p key kind s =
    let r = circuit key s.circuits in
    let r1 = after_failure p (env.clock s.reads) r in
    let s1 = set_circuit key r1 s in
    let s2 = emit (circuit_opened key r1.failures) (record s1 { reads = s1.reads + 1 }) in
    if trips_circuit kind p then if opens p r then s2 else s1 else s

-- What follows the call of `next`; an error is thrown on as it is.
unfoldable pub settle : Env → CircuitPolicy → Str → Outcome × State → Outcome × State
settle env p key (ok response, s) = (ok response, on_success p key s)
settle env p key (err e, s) = (err e, on_failure env p key (normalize_error e).kind s)

-- A rejection goes without the call.
unfoldable pub proceed :
    Env → CircuitPolicy → Str → Action → Option Thrown × State → Outcome × State
proceed env p key call (none, s) = settle env p key (call s)
proceed env p key call (some e, s) = (err e, s)

-- `aroundInvoke`
unfoldable pub circuit_around : Env → CircuitPolicy → Context → CompletionRequest → Next → Action
circuit_around env p ctx request next s =
    let key = circuit_key ctx in
    let plain = next request none s in
    let guarded = proceed env p key (next request none) (admit env p key s) in
    if not p.enabled || p.bypass || not (circuit_eligible p ctx) then plain else guarded
