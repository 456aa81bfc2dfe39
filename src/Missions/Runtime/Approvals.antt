-- ===== src/Missions/Runtime/Approvals.antt =====
-- A run leaves the tasks alone whose approval is missing.
use mathlib.Core.List.{foldl}
use adam_os.Base.{
  ◌≡◌, refl, ◌⊎◌, inl, inr, Bool, true, false, not, ◌&&◌, ◌||◌, Option, none, some, List, [], ◌∷◌,
  ◌++◌, arith, Str, str_eq_iff, all, all-append, ok, Bool-cases, if◌then◌else◌, ◌==◌,
}
use adam_os.Missions.Types.{
  TaskDefinition, MissionDefinition, TaskState, pending, ready, running, waiting, completed, failed,
  skipped, cancelled, TaskExecutionRecord,
}
use adam_os.Missions.Runtime.{
  RunEnv, RunState, Records, is_state, find_record, update_record, find_task, verdict,
  needs_approval, Schedule, schedule_record, schedule_task, start_task,
}
use adam_os.Missions.Runtime.Dispatch.{
  TaskOutcome, settle_record, complete_task, run_task, apply_outcome,
}

-- A state that a task has which was not run.
abbrev pub is_idle : TaskState → Bool
is_idle pending = true
is_idle waiting = true
is_idle skipped = true
is_idle cancelled = true
is_idle _ = false

-- The record of a task that needs an approval shows no attempt.
abbrev pub held_back : (Str → Bool) → TaskExecutionRecord → Bool
held_back needs r = not (needs r.id) || (r.attempts == 0 && is_idle r.state)

update_record-all :
    (p : TaskExecutionRecord → Bool) (id : Str) (f : TaskExecutionRecord → TaskExecutionRecord)
    (rs : Records)
    → ((r : TaskExecutionRecord) → r.id ≡ id → p r ≡ true → p (f r) ≡ true)
    → all p rs ≡ true
    → all p (update_record id f rs) ≡ true
unfolding update_record
update_record-all p id f [] h k = refl
update_record-all p id f (r ∷ rs) h k =
    ground (arith, str_eq_iff r.id id, h r, update_record-all p id f rs h)

find_record-id :
    (id : Str) (rs : Records) {r : TaskExecutionRecord} → find_record id rs ≡ some r → r.id ≡ id
unfolding find_record
find_record-id id [] h = absurd (ground arith)
find_record-id id (x ∷ rs) {r} h = ground (arith, str_eq_iff x.id id, find_record-id id rs {r = r})

pub find_task-id :
    (id : Str) (ts : List TaskDefinition) {t : TaskDefinition}
    → find_task id ts ≡ some t
    → t.id ≡ id
unfolding find_task
find_task-id id [] h = absurd (ground arith)
find_task-id id (x ∷ ts) {t} h = ground (arith, str_eq_iff x.id id, find_task-id id ts {t = t})

-- A scheduled task is run only when it needs no approval.
verdict-idle :
    (tasks : List TaskDefinition) (approvals : List Str) (rs : Records) (r : TaskExecutionRecord)
    → (is_idle (verdict tasks approvals rs r) ≡ true)
      ⊎ ((is_state (verdict tasks approvals rs r) ready ≡ true)
          × (needs_approval tasks approvals r.id ≡ false))
unfolding verdict
verdict-idle tasks approvals rs r = elim (Bool-cases (needs_approval tasks approvals r.id)) [
  | inl needed ↦ inl (ground arith)
  | inr free ↦ ground arith
]

settle_record-id : (o : TaskOutcome) (r : TaskExecutionRecord) → (settle_record o r).id ≡ r.id
settle_record-id o r = ground arith

module _ (tasks : List TaskDefinition) (approvals : List Str) where
  abbrev pub needs : Str → Bool
  needs id = needs_approval tasks approvals id

  pub record Held (s : Schedule) : Type 0 where
    pub records : all (held_back needs) s.run.records ≡ true
    pub to_run : all (λ id. not (needs id)) s.to_run ≡ true

  moved :
      (state : TaskState) (id : Str)
      → (is_idle state ≡ true) ⊎ (needs id ≡ false)
      → (r : TaskExecutionRecord) → r.id ≡ id
      → held_back needs r ≡ true
      → held_back needs (record r { state = state }) ≡ true
  moved state id (inl idle) r same h = ground arith
  moved state id (inr free) r same h = rw same (rw free refl)

  ready_code : (s : TaskState) → is_state s ready ≡ true → is_idle s ≡ false
  ready_code pending h = absurd (ground arith)
  ready_code ready h = refl
  ready_code running h = refl
  ready_code waiting h = absurd (ground arith)
  ready_code completed h = refl
  ready_code failed h = refl
  ready_code skipped h = absurd (ground arith)
  ready_code cancelled h = absurd (ground arith)

  appended :
      (state : TaskState) (id : Str) (ids : List Str)
      → (is_idle state ≡ true) ⊎ (needs id ≡ false)
      → all (λ i. not (needs i)) ids ≡ true
      → all (λ i. not (needs i)) (if is_state state ready then ids ++ id ∷ [] else ids) ≡ true
  appended state id ids c h = elim (Bool-cases (is_state state ready)) [
    | inr other ↦ rw other h
    | inl runs ↦ rw runs (all-append (λ i. not (needs i)) ids (id ∷ []) h (free c runs))
  ]
    where
      free :
          (is_idle state ≡ true) ⊎ (needs id ≡ false)
          → is_state state ready ≡ true
          → all (λ i. not (needs i)) (id ∷ []) ≡ true
      free (inl idle) runs = absurd (ground (arith, ready_code state runs))
      free (inr f) runs = rw f refl

  schedule_record-Held :
      (s : Schedule) (id : Str) (o : Option TaskExecutionRecord)
      → find_record id s.run.records ≡ o
      → Held s
      → Held (schedule_record tasks approvals s id o)
  unfolding schedule_record
  schedule_record-Held s id none found h = h
  schedule_record-Held s id (some r) found h = record {
    records =
        update_record-all (held_back needs) id (λ x. record x { state = state }) s.run.records
          (moved state id split) h.records;
    to_run = appended state id s.to_run split h.to_run;
  }
    where
      state : TaskState
      state = verdict tasks approvals s.run.records r

      split : (is_idle state ≡ true) ⊎ (needs id ≡ false)
      split = elim (verdict-idle tasks approvals s.run.records r) [
        | inl idle ↦ inl idle
        | inr (_, free) ↦ inr (rw (← find_record-id id s.run.records found) free)
      ]

  schedule_task-Held :
      (s : Schedule) (id : Str) → Held s → Held (schedule_task tasks approvals s id)
  unfolding schedule_task
  schedule_task-Held s id h = schedule_record-Held s id (find_record id s.run.records) refl h

  abbrev pub AllFree : List Str → Type 0
  AllFree ids = all (λ i. not (needs i)) ids ≡ true

  pub schedule-Held :
      (ids : List Str) (s : Schedule) → Held s → Held (foldl (schedule_task tasks approvals) s ids)
  schedule-Held [] s h = h
  schedule-Held (id ∷ ids) s h =
      schedule-Held ids (schedule_task tasks approvals s id) (schedule_task-Held s id h)

  -- What is done to the record of a task without the need keeps all the others.
  update_record-AllHeld :
      (id : Str) (f : TaskExecutionRecord → TaskExecutionRecord) (rs : Records)
      → ((r : TaskExecutionRecord) → (f r).id ≡ r.id)
      → needs id ≡ false
      → all (held_back needs) rs ≡ true
      → all (held_back needs) (update_record id f rs) ≡ true
  update_record-AllHeld id f rs keeps free h =
      update_record-all (held_back needs) id f rs
        (λ r same g. rw (keeps r) (rw same (rw free refl))) h

  pub start-AllHeld :
      (ids : List Str) (s : RunState)
      → AllFree ids
      → all (held_back needs) s.records ≡ true
      → all (held_back needs) (foldl start_task s ids).records ≡ true
  unfolding start_task
  start-AllHeld [] s free h = h
  start-AllHeld (id ∷ ids) s free h = start-AllHeld ids (start_task s id) (ground arith) (
      update_record-AllHeld id (λ r. record r { state = running }) s.records (λ r. refl)
        (ground arith) h)

  apply_outcome-AllHeld :
      (o : TaskOutcome) (s : RunState)
      → needs o.task_id ≡ false
      → all (held_back needs) s.records ≡ true
      → all (held_back needs) (apply_outcome s o).records ≡ true
  unfolding apply_outcome
  apply_outcome-AllHeld o s f g =
      ground (
        arith,
        update_record-AllHeld o.task_id (settle_record o) s.records (settle_record-id o) f g,
      )

  pub settle-AllHeld :
      (os : List TaskOutcome) (s : RunState)
      → all (λ o. not (needs o.task_id)) os ≡ true
      → all (held_back needs) s.records ≡ true
      → all (held_back needs) (foldl apply_outcome s os).records ≡ true
  settle-AllHeld [] s free h = h
  settle-AllHeld (o ∷ os) s free h =
      settle-AllHeld os (apply_outcome s o) (ground arith)
        (apply_outcome-AllHeld o s (ground arith) h)

pub run_task-id :
    (env : RunEnv) (m : MissionDefinition) (t : TaskDefinition) {o : TaskOutcome}
    → run_task env m t ≡ ok o
    → o.task_id ≡ t.id
unfolding run_task complete_task
run_task-id env m t {o} h = ground arith
