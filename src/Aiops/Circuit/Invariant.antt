-- ===== src/Aiops/Circuit/Invariant.antt =====
-- The counters of the circuit breaker stay below their thresholds, however the invocations that
-- are under way at the same time interleave.
use adam_os.Base.{
  ℕ, ◌<◌, ◌≡◌, inl, inr, Bool-cases, [], arith, max, Str, str_eq, str_eq_iff, lookup, insert,
  lookup-insert, if◌then◌else◌,
}
use adam_os.Aiops.Errors.{ExecutionErrorKind}
use adam_os.Aiops.Effects.{closed, half_open, CircuitRecord, State, Env}
use adam_os.Aiops.Circuit.{
  CircuitPolicy, Circuits, circuit, fresh_circuit, record_circuit, admit, on_success, on_failure,
  trips_circuit, after_success, after_failure, opens, closes, is_open, cooled,
}

pub circuit-insert :
    (k j : Str) (r : CircuitRecord) (m : Circuits)
    → circuit j (insert k r m) ≡ (if str_eq k j then r else circuit j m)
unfolding circuit
circuit-insert k j r m = ground (arith, lookup-insert k j r m)

-- To enter a fresh circuit changes no reading.
pub circuit-record_circuit :
    (k j : Str) (m : Circuits) → circuit j (record_circuit k m) ≡ circuit j m
unfolding circuit record_circuit
circuit-record_circuit k j m = ground (arith, lookup-insert k j fresh_circuit m, str_eq_iff k j)

-- A closed circuit has not yet failed often enough, a half open one not yet succeeded often enough.
pub record IsBounded (p : CircuitPolicy) (r : CircuitRecord) : Type 0 where
  pub failing : r.state ≡ closed → r.failures < max 1 p.failure_threshold
  pub probing : r.state ≡ half_open → r.half_open_successes < max 1 p.success_threshold

abbrev pub IsConsistent : CircuitPolicy → Circuits → Type 0
IsConsistent p m = (key : Str) → IsBounded p (circuit key m)

after_success-IsBounded :
    (p : CircuitPolicy) (r : CircuitRecord) → IsBounded p r → IsBounded p (after_success p r)
unfolding after_success
after_success-IsBounded p r h = ground arith

after_failure-IsBounded :
    (p : CircuitPolicy) (now : ℕ) (r : CircuitRecord)
    → IsBounded p r
    → IsBounded p (after_failure p now r)
unfolding after_failure
after_failure-IsBounded p now r h = ground arith

fresh-IsBounded : (p : CircuitPolicy) → IsBounded p fresh_circuit
fresh-IsBounded p = ground arith

probe-IsBounded :
    (p : CircuitPolicy) (r : CircuitRecord)
    → IsBounded p (record r { state = half_open; half_open_successes = 0 })
probe-IsBounded p r = ground arith

module _ (p : CircuitPolicy) where
  insert-IsConsistent :
      (key : Str) (r : CircuitRecord) (m : Circuits)
      → IsBounded p r
      → IsConsistent p m
      → IsConsistent p (insert key r m)
  insert-IsConsistent key r m hr h j = elim (Bool-cases (str_eq key j)) [
    | inl same ↦ rw (circuit-insert key j r m) (rw same hr)
    | inr other ↦ rw (circuit-insert key j r m) (rw other (h j))
  ]

  record_circuit-IsConsistent :
      (key : Str) (m : Circuits) → IsConsistent p m → IsConsistent p (record_circuit key m)
  record_circuit-IsConsistent key m h j = rw (circuit-record_circuit key j m) (h j)

  admit-IsConsistent :
      (env : Env) (key : Str) (s : State)
      → IsConsistent p s.circuits
      → IsConsistent p (admit env p key s).1.circuits
  unfolding admit
  admit-IsConsistent env key s h =
      let m = record_circuit key s.circuits in
      let r = circuit key m in
      let entered = record_circuit-IsConsistent key s.circuits h in
      elim (Bool-cases (is_open r.state)) [
        | inr passes ↦ rw passes entered
        | inl blocked ↦ elim (Bool-cases (cooled p (env.clock s.reads) r)) [
          | inl ready ↦
              rw blocked (rw ready (insert-IsConsistent key _ m (probe-IsBounded p r) entered))
          | inr hot ↦ rw blocked (rw hot entered)
        ]
      ]

  on_success-IsConsistent :
      (key : Str) (s : State)
      → IsConsistent p s.circuits
      → IsConsistent p (on_success p key s).circuits
  unfolding on_success
  on_success-IsConsistent key s h =
      let r = circuit key s.circuits in
      let kept = insert-IsConsistent key _ s.circuits (after_success-IsBounded p r (h key)) h in
      elim (Bool-cases (closes p r)) [ inl e ↦ rw e kept | inr e ↦ rw e kept ]

  on_failure-IsConsistent :
      (env : Env) (key : Str) (kind : ExecutionErrorKind) (s : State)
      → IsConsistent p s.circuits
      → IsConsistent p (on_failure env p key kind s).circuits
  unfolding on_failure
  on_failure-IsConsistent env key kind s h =
      let r = circuit key s.circuits in
      let now = env.clock s.reads in
      let kept = insert-IsConsistent key _ s.circuits (after_failure-IsBounded p now r (h key)) h in
      elim (Bool-cases (trips_circuit kind p)) [
        | inr e ↦ rw e h
        | inl e ↦ elim (Bool-cases (opens p r)) [
          | inl o ↦ rw e (rw o kept)
          | inr o ↦ rw e (rw o kept)
        ]
      ]

-- What can happen to the state between two turns of the event loop: the part of an invocation
-- before its call, the part after it, or anything that leaves the circuits alone.
pub data Step (env : Env) (p : CircuitPolicy) : State → State → Type 0 where
  admission : (key : Str) (s : State) → Step env p s (admit env p key s).1
  success : (key : Str) (s : State) → Step env p s (on_success p key s)
  failure :
      (key : Str) (kind : ExecutionErrorKind) (s : State)
      → Step env p s (on_failure env p key kind s)
  elsewhere : (s t : State) → t.circuits ≡ s.circuits → Step env p s t

pub data Steps (env : Env) (p : CircuitPolicy) (s : State) : State → Type 0 where
  none_yet : Steps env p s s
  then_ : {t u : State} → Steps env p s t → Step env p t u → Steps env p s u

Step-IsConsistent :
    (env : Env) (p : CircuitPolicy) {s t : State}
    → Step env p s t
    → IsConsistent p s.circuits
    → IsConsistent p t.circuits
Step-IsConsistent env p (admission key s) h = admit-IsConsistent p env key s h
Step-IsConsistent env p (success key s) h = on_success-IsConsistent p key s h
Step-IsConsistent env p (failure key kind s) h = on_failure-IsConsistent p env key kind s h
Step-IsConsistent env p (elsewhere s t e) h = rw e h

-- Whatever invocations interleave under one policy, a closed circuit has counted fewer failures
-- than the threshold, and a half open one fewer successes than it needs to close.
pub Steps-IsConsistent :
    (env : Env) (p : CircuitPolicy) {s t : State}
    → Steps env p s t
    → IsConsistent p s.circuits
    → IsConsistent p t.circuits
Steps-IsConsistent env p none_yet h = h
Steps-IsConsistent env p (then_ steps step) h =
    Step-IsConsistent env p step (Steps-IsConsistent env p steps h)

-- A breaker starts without circuits, and so consistent.
pub start-IsConsistent : (p : CircuitPolicy) → IsConsistent p []
unfolding circuit lookup
start-IsConsistent p key = fresh-IsBounded p
