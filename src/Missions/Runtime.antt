-- ===== src/Missions/Runtime.antt =====
-- lib/missions/mission-runtime.ts: the records of a run, and which tasks of a layer are run.
pub mod Dispatch
pub mod Execute
pub mod Approvals
pub mod Unapproved
pub mod Verdicts
pub mod Answers
pub mod Exits
use mathlib.Core.List.{foldl}
use adam_os.Base.{
  ℕ, zero, suc, ◌+◌, ◌-◌, Bool, true, false, not, ◌&&◌, ◌||◌, Option, none, some, List, [], ◌∷◌,
  ◌++◌, map, Str, str, str_eq, contains, filter, any, find, length, sort, truthy, or_else, leb, ltb,
  ◌==◌, Value, obj, end, Result, ok, err, if◌then◌else◌,
}
use adam_os.Missions.Types.{
  TaskDefinition, MissionDefinition, TaskState, pending, ready, running, waiting, completed, failed,
  skipped, cancelled, TaskExecutionRecord, MissionExecutionState, blocked_mission, failed_mission,
  cancelled_mission, waiting_mission, completed_mission, ExecutionDecision, blocked,
  GovernanceDecision, MissionEvent, blocked_by_governance, plan_rejected, mission_started,
  task_started, task_completed, task_failed, mission_cancelled, task_failure, mission_completed,
  mission_paused, TaskSummary, MissionExecutionReport, dependencies,
}
use adam_os.Missions.Planner.{ExecutionPlan, plan_mission}
use adam_os.Missions.RetryManager.{AttemptOutcome, effective_retry, run_with_retry}

abbrev pub state_code : TaskState → ℕ
state_code pending = 0
state_code ready = 1
state_code running = 2
state_code waiting = 3
state_code completed = 4
state_code failed = 5
state_code skipped = 6
state_code cancelled = 7

abbrev pub is_state : TaskState → TaskState → Bool
is_state s t = state_code s == state_code t

-- What an executor is handed, and an executor: code that the program registers. `err` is the
-- message of what it throws; a hook that throws gives its message. Each call is taken to end.
pub record TaskExecutionContext : Type 0 where
  pub mission_id : Str
  pub execution_id : Str
  pub task_id : Str
  pub input : Value
  pub attempt : ℕ

pub record TaskExecutor : Type 0 where
  pub execute : TaskExecutionContext → Result Str (Option Value)
  pub on_start : TaskExecutionContext → Option Str
  pub on_complete : TaskExecutionContext → Option Value → Option Str
  pub on_error : TaskExecutionContext → Str → Option Str

-- What a run meets: the registered executors, what governance answers or throws, the approvals
-- granted, what the n-th call of the cancellation predicate gives, the id drawn for the execution,
-- the order of `localeCompare`, and what the insertion of a report throws, if it does.
pub record RunEnv : Type 0 where
  pub executors : Str → Option TaskExecutor
  pub governance : Result Str GovernanceDecision
  pub approvals : List Str
  pub cancelled_at : ℕ → Bool
  pub execution_id : Str
  pub locale_leb : Str → Str → Bool
  pub persists : MissionExecutionReport → Option Str

abbrev pub Records : Type 0
Records = List TaskExecutionRecord

-- `byId.get(id)`, and a write to the record of an id
unfoldable pub find_record : Str → Records → Option TaskExecutionRecord
find_record id rs = find (λ r. str_eq r.id id) rs

unfoldable pub update_record : Str → (TaskExecutionRecord → TaskExecutionRecord) → Records → Records
update_record id f rs = map (λ r. if str_eq r.id id then f r else r) rs

unfoldable pub find_task : Str → List TaskDefinition → Option TaskDefinition
find_task id ts = find (λ t. str_eq t.id id) ts

unfoldable pub initial_record : TaskDefinition → TaskExecutionRecord
initial_record t = record {
  id = t.id;
  executor = t.executor;
  state = pending;
  depends_on = dependencies t;
  attempts = 0;
  error = none;
  output = none;
}

-- The variables of a run.
pub record RunState : Type 0 where
  pub records : Records
  pub events : List MissionEvent
  pub pending_approvals : List Str

abbrev pub emit : MissionEvent → RunState → RunState
emit e s = record s { events = s.events ++ e ∷ [] }

-- Whether the record of an id is in a state of the given kind. (Each id here has its record.)
unfoldable pub state_of_passes : (TaskState → Bool) → Records → Str → Bool
unfolding find_record
state_of_passes test rs id = elim (find_record id rs) [ none ↦ false | some r ↦ test r.state ]

abbrev pub is_terminal_failure : TaskState → Bool
is_terminal_failure s = is_state s failed || is_state s skipped || is_state s cancelled

abbrev pub is_held : TaskState → Bool
is_held s = is_state s waiting || is_state s pending

abbrev pub needs_approval : List TaskDefinition → List Str → Str → Bool
needs_approval tasks approvals id = elim (find_task id tasks) [
  | none ↦ false
  | some t ↦ truthy t.requires_approval && not (contains id approvals)
]

-- The state that the scheduling loop gives to a task; `ready` is run.
unfoldable pub verdict : List TaskDefinition → List Str → Records → TaskExecutionRecord → TaskState
unfolding state_of_passes find_task
verdict tasks approvals rs rec =
    if any (state_of_passes is_terminal_failure rs) rec.depends_on
    then skipped
    else if any (state_of_passes is_held rs) rec.depends_on
    then pending
    else if needs_approval tasks approvals rec.id
    then waiting
    else ready

-- The scheduling loop over a layer, with the ids to run.
pub record Schedule : Type 0 where
  pub run : RunState
  pub to_run : List Str

unfoldable pub schedule_record :
    List TaskDefinition → List Str → Schedule → Str → Option TaskExecutionRecord → Schedule
unfolding verdict update_record
schedule_record tasks approvals s id none = s
schedule_record tasks approvals s id (some rec) =
    let state = verdict tasks approvals s.run.records rec in
    let moved = record s.run {
      records = update_record id (λ r. record r { state = state }) s.run.records;
      pending_approvals =
          if is_state state waiting
          then s.run.pending_approvals ++ rec.id ∷ []
          else s.run.pending_approvals;
    } in
    record { run = moved; to_run = if is_state state ready then s.to_run ++ id ∷ [] else s.to_run }

unfoldable pub schedule_task : List TaskDefinition → List Str → Schedule → Str → Schedule
unfolding schedule_record find_record
schedule_task tasks approvals s id =
    schedule_record tasks approvals s id (find_record id s.run.records)

unfoldable pub start_task : RunState → Str → RunState
unfolding update_record
start_task s id =
    emit (task_started id)
      (record s { records = update_record id (λ r. record r { state = running }) s.records })
