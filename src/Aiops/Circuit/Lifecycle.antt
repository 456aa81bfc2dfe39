-- ===== src/Aiops/Circuit/Lifecycle.antt =====
-- The life of a circuit: it trips at the threshold, rejects while it is hot, closes after enough
-- probes, and no circuit moves another.
use adam_os.Base.{
  ℕ, zero, suc, ◌+◌, ◌≤◌, ◌≡◌, ◌≢◌, refl, ◌∙◌, inl, inr, true, false, not, ◌||◌, ◌&&◌, Option, none,
  some, arith, max, ◌∷◌, Str, str_eq, str_eq_iff, str_eq_refl, if◌then◌else◌, ltb, Bool-cases, ok,
  err,
}
use adam_os.Aiops.Types.{CompletionRequest, Context}
use adam_os.Aiops.Errors.{ExecutionErrorKind, provider_unavailable, Thrown, normalize_error}
use adam_os.Aiops.Effects.{
  closed, open_, half_open, State, Env, Outcome, Action, Next, throw_kind, circuit_rejected,
}
use adam_os.Aiops.Circuit.{
  CircuitPolicy, Circuits, circuit, circuit_key, circuit_eligible, record_circuit, admit,
  on_success, on_failure, trips_circuit, after_success, after_failure, settle, proceed,
  circuit_around, cooled, circuit_open_message,
}
use adam_os.Aiops.Circuit.Invariant.{circuit-insert, circuit-record_circuit}

-- The breaker watches this execution.
abbrev pub IsActive : CircuitPolicy → Context → Type 0
IsActive p ctx = (p.enabled ≡ true) × (p.bypass ≡ false) × (circuit_eligible p ctx ≡ true)

-- An open circuit is in the map.
record_circuit-open :
    (key : Str) (m : Circuits) → (circuit key m).state ≡ open_ → record_circuit key m ≡ m
unfolding circuit record_circuit
record_circuit-open key m h = ground arith

admit-other :
    (env : Env) (p : CircuitPolicy) (key j : Str) (s : State)
    → str_eq key j ≡ false
    → circuit j (admit env p key s).1.circuits ≡ circuit j s.circuits
unfolding admit
admit-other env p key j s other =
    let m = record_circuit key s.circuits in
    let probe = record (circuit key m) { state = half_open; half_open_successes = 0 } in
    ground (arith, circuit-record_circuit key j s.circuits, circuit-insert key j probe m)

circuit-on_success :
    (p : CircuitPolicy) (key j : Str) (s : State)
    → circuit j (on_success p key s).circuits
      ≡ (if str_eq key j then after_success p (circuit key s.circuits) else circuit j s.circuits)
unfolding on_success
circuit-on_success p key j s =
    let r = circuit key s.circuits in
    ground (arith, circuit-insert key j (after_success p r) s.circuits)

circuit-on_failure :
    (env : Env) (p : CircuitPolicy) (key j : Str) (kind : ExecutionErrorKind) (s : State)
    → circuit j (on_failure env p key kind s).circuits ≡ (
        if trips_circuit kind p && str_eq key j
        then after_failure p (env.clock s.reads) (circuit key s.circuits)
        else circuit j s.circuits)
unfolding on_failure
circuit-on_failure env p key j kind s =
    let r = circuit key s.circuits in
    ground (arith, circuit-insert key j (after_failure p (env.clock s.reads) r) s.circuits)

module _ (env : Env) (p : CircuitPolicy) (key : Str) where
  -- Qualifying failures in a row, with nothing in between.
  pub fail_times : ExecutionErrorKind → ℕ → State → State
  fail_times kind zero s = s
  fail_times kind (suc n) s = on_failure env p key kind (fail_times kind n s)

  -- A closed circuit without failures opens with the failure that reaches the threshold, and no
  -- sooner; a threshold of zero counts as one.
  pub trips_at_threshold :
      (kind : ExecutionErrorKind) (n : ℕ) (s : State)
      → trips_circuit kind p ≡ true
      → (circuit key s.circuits).state ≡ closed
      → (circuit key s.circuits).failures ≡ 0
      → n ≤ max 1 p.failure_threshold
      → let r = circuit key (fail_times kind n s).circuits in
        (r.state ≡ (if ltb n (max 1 p.failure_threshold) then closed else open_)) × (r.failures ≡ n)
  unfolding fail_times after_failure
  trips_at_threshold kind zero s t c f h = (ground arith, f)
  trips_at_threshold kind (suc n) s t c f h =
      let before = trips_at_threshold kind n s t c f (omega arith) in
      let last = fail_times kind n s in
      (
        ground (arith, before, circuit-on_failure env p key key kind last, str_eq_refl key),
        ground (arith, before, circuit-on_failure env p key key kind last, str_eq_refl key),
      )

  pub succeed_times : ℕ → State → State
  succeed_times zero s = s
  succeed_times (suc n) s = on_success p key (succeed_times n s)

  -- A half open circuit closes with the success that reaches its threshold, and no sooner.
  pub closes_at_threshold :
      (n : ℕ) (s : State)
      → (circuit key s.circuits).state ≡ half_open
      → (circuit key s.circuits).half_open_successes ≡ 0
      → n ≤ max 1 p.success_threshold
      → let r = circuit key (succeed_times n s).circuits in
        (r.state ≡ (if ltb n (max 1 p.success_threshold) then half_open else closed))
        × (r.half_open_successes ≡ (if ltb n (max 1 p.success_threshold) then n else 0))
  unfolding succeed_times after_success
  closes_at_threshold zero s c f h = (ground arith, ground arith)
  closes_at_threshold (suc n) s c f h =
      let before = closes_at_threshold n s c f (omega arith) in
      let last = succeed_times n s in
      (
        ground (arith, before, circuit-on_success p key key last, str_eq_refl key),
        ground (arith, before, circuit-on_success p key key last, str_eq_refl key),
      )

settle-other :
    (env : Env) (p : CircuitPolicy) (key j : Str) (r : Outcome × State)
    → str_eq key j ≡ false
    → circuit j (settle env p key r).1.circuits ≡ circuit j r.1.circuits
unfolding settle
settle-other env p key j (ok response, s) other = ground (arith, circuit-on_success p key j s)
settle-other env p key j (err e, s) other =
    ground (arith, circuit-on_failure env p key j (normalize_error e).kind s)

proceed-other :
    (env : Env) (p : CircuitPolicy) (key j : Str) (call : Action) (a : Option Thrown × State)
    → str_eq key j ≡ false
    → ((t : State) → circuit j (call t).1.circuits ≡ circuit j t.circuits)
    → circuit j (proceed env p key call a).1.circuits ≡ circuit j a.1.circuits
unfolding proceed
proceed-other env p key j call (none, s) other quiet =
    settle-other env p key j (call s) other ∙ quiet s
proceed-other env p key j call (some e, s) other quiet = refl

module _ (env : Env) (p : CircuitPolicy) (ctx : Context) (request : CompletionRequest) where
  -- While an open circuit has not cooled down the invocation fails as unavailable, whatever `next`
  -- is: nothing is called, no circuit moves, and the rejection is published.
  pub circuit_around-open :
      (next : Next) (s : State)
      → IsActive p ctx
      → (circuit (circuit_key ctx) s.circuits).state ≡ open_
      → cooled p (env.clock s.reads) (circuit (circuit_key ctx) s.circuits) ≡ false
      → circuit_around env p ctx request next s ≡ (
        err (throw_kind provider_unavailable (circuit_open_message (circuit_key ctx))),
        record s { reads = s.reads + 1; events = circuit_rejected (circuit_key ctx) ∷ s.events },
      )
  unfolding circuit_around admit proceed
  circuit_around-open next s a o hot =
      ground (arith, a, o, hot, record_circuit-open (circuit_key ctx) s.circuits o)

  -- An invocation that leaves the circuit of another key alone while it runs leaves it alone as a
  -- whole.
  pub circuit_around_isolates :
      (next : Next) (s : State) (j : Str)
      → circuit_key ctx ≢ j
      → ((t : State) → circuit j (next request none t).1.circuits ≡ circuit j t.circuits)
      → circuit j (circuit_around env p ctx request next s).1.circuits ≡ circuit j s.circuits
  unfolding circuit_around
  circuit_around_isolates next s j other quiet =
      let key = circuit_key ctx in
      let differs : str_eq key j ≡ false = ground (arith, str_eq_iff key j) in
      let guarded =
        proceed-other env p key j (next request none) (admit env p key s) differs quiet
        ∙ admit-other env p key j s differs in
      elim (Bool-cases (not p.enabled || p.bypass || not (circuit_eligible p ctx))) [
        | inl plain ↦ rw plain (quiet s)
        | inr watched ↦ rw watched guarded
      ]
