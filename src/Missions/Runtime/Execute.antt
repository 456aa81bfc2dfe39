-- ===== src/Missions/Runtime/Execute.antt =====
-- `executeMission` from governance to the persisted report.
use adam_os.Base.{
  ℕ, ◌+◌, ◌-◌, Bool, true, false, ◌||◌, Option, none, some, List, [], ◌∷◌, map, Str, any, filter,
  length, sort, ltb, Result, ok, err, if◌then◌else◌,
}
use adam_os.Missions.Types.{
  MissionDefinition, TaskState, pending, running, waiting, completed, failed, skipped, cancelled,
  TaskExecutionRecord, MissionExecutionState, blocked_mission, failed_mission, cancelled_mission,
  waiting_mission, completed_mission, ExecutionDecision, blocked, GovernanceDecision, MissionEvent,
  blocked_by_governance, plan_rejected, mission_started, mission_cancelled, task_failure,
  mission_completed, mission_paused, TaskSummary, MissionExecutionReport,
}
use adam_os.Missions.Planner.{ExecutionPlan, plan_mission}
use adam_os.Missions.Runtime.{RunEnv, Records, RunState, emit, initial_record, is_state}
use adam_os.Missions.Runtime.Dispatch.{LayersEnd, run_layers}

-- `METRICS`, and the collection of persisted executions, the latest first.
pub record World : Type 0 where
  pub executions : ℕ
  pub completed : ℕ
  pub failed : ℕ
  pub blocked : ℕ
  pub cancelled : ℕ
  pub waiting : ℕ
  pub persisted : List MissionExecutionReport

abbrev pub count_state : TaskState → Records → ℕ
count_state s rs = length (filter (λ r. is_state r.state s) rs)

unfoldable pub summarize : Records → TaskSummary
summarize rs = record {
  total = length rs;
  completed = count_state completed rs;
  failed = count_state failed rs;
  skipped = count_state skipped rs;
  cancelled = count_state cancelled rs;
  waiting = count_state waiting rs;
  pending = count_state pending rs;
  running = count_state running rs;
}

abbrev pub sum_attempts : Records → ℕ
sum_attempts [] = 0
sum_attempts (r ∷ rs) = r.attempts + sum_attempts rs

unfoldable pub build_report :
    RunEnv
    → MissionDefinition
    → GovernanceDecision
    → MissionExecutionState
    → RunState
    → MissionExecutionReport
unfolding summarize
build_report env m d state s =
    let ran = length (filter (λ r. ltb 0 r.attempts) s.records) in
    record {
      execution_id = env.execution_id;
      mission_id = m.id;
      mission_name = m.name;
      execution_state = state;
      decision = d.execution_decision;
      blocking = length d.blocking_codes;
      warnings = length d.warning_codes;
      tasks = s.records;
      summary = summarize s.records;
      pending_approvals = sort s.pending_approvals;
      total_attempts = sum_attempts s.records;
      total_retries = sum_attempts s.records - ran;
      events = s.events;
    }

abbrev pub count_outcome : MissionExecutionState → World → World
count_outcome blocked_mission w = record w { blocked = w.blocked + 1 }
count_outcome failed_mission w = record w { failed = w.failed + 1 }
count_outcome cancelled_mission w = record w { cancelled = w.cancelled + 1 }
count_outcome waiting_mission w = record w { waiting = w.waiting + 1 }
count_outcome completed_mission w = record w { completed = w.completed + 1 }

-- What follows the insertion of a report, which may have thrown.
unfoldable pub after_persist :
    MissionExecutionReport → World → Option Str → Result Str MissionExecutionReport × World
after_persist report counted none =
    (ok report, record counted { persisted = report ∷ counted.persisted })
after_persist report counted (some thrown) = (err thrown, counted)

-- The metric, the last event, and `finalize`: the report is persisted and returned; what its
-- insertion throws is thrown on, after the metric has been counted.
unfoldable pub finalize :
    RunEnv
    → MissionDefinition
    → GovernanceDecision
    → MissionExecutionState
    → MissionEvent
    → RunState
    → World
    → Result Str MissionExecutionReport × World
unfolding after_persist
finalize env m d state event s w =
    let report = build_report env m d state (emit event s) in
    let counted = count_outcome state w in after_persist report counted (env.persists report)

-- What is neither completed, failed nor skipped is cancelled.
abbrev pub cancel_record : TaskExecutionRecord → TaskExecutionRecord
cancel_record r =
    if is_state r.state completed || is_state r.state failed || is_state r.state skipped
    then r
    else record r { state = cancelled }

-- The third stage: the state of the mission.
unfoldable pub resolve :
    RunEnv
    → MissionDefinition
    → GovernanceDecision
    → LayersEnd
    → World
    → Result Str MissionExecutionReport × World
resolve env m d e w =
    let s = e.run in
    if env.cancelled_at e.checks
    then finalize env m d cancelled_mission mission_cancelled
        (record s { records = map cancel_record s.records }) w
    else if e.paused
    then finalize env m d waiting_mission (mission_paused (sort s.pending_approvals)) s w
    else if any (λ r. is_state r.state failed) s.records
    then finalize env m d failed_mission task_failure s w
    else finalize env m d completed_mission mission_completed s w

abbrev pub start : MissionDefinition → RunState
start m = record { records = map initial_record m.tasks; events = []; pending_approvals = [] }

-- What follows the loop over the layers; what a hook throws is thrown on.
unfoldable pub after_layers :
    RunEnv
    → MissionDefinition
    → GovernanceDecision
    → World
    → Result Str LayersEnd
    → Result Str MissionExecutionReport × World
after_layers env m d w (err thrown) = (err thrown, w)
after_layers env m d w (ok e) = resolve env m d e w

unfoldable pub run_plan :
    RunEnv
    → MissionDefinition
    → GovernanceDecision
    → ExecutionPlan
    → World
    → Result Str MissionExecutionReport × World
unfolding after_layers
run_plan env m d p w =
    let s = emit (mission_started (length m.tasks) (length p.layers)) (start m) in
    after_layers env m d w (run_layers env m 0 p.layers s)

abbrev pub is_blocked : ExecutionDecision → Bool
is_blocked blocked = true
is_blocked _ = false

-- What follows governance. (The planner always answers, so its `none` does not occur.)
unfoldable pub run_governed :
    RunEnv
    → MissionDefinition
    → GovernanceDecision
    → World
    → Result Str MissionExecutionReport × World
run_governed env m d w =
    let planned = plan_mission m in
    if is_blocked d.execution_decision
    then finalize env m d blocked_mission (blocked_by_governance d.blocking_codes) (start m) w
    else elim planned [
      | some (ok p) ↦ run_plan env m d p w
      | some (err e) ↦ finalize env m d failed_mission plan_rejected (start m) w
      | none ↦ finalize env m d failed_mission plan_rejected (start m) w
    ]

-- What governance throws is thrown on.
unfoldable pub after_governance :
    RunEnv
    → MissionDefinition
    → World
    → Result Str GovernanceDecision
    → Result Str MissionExecutionReport × World
after_governance env m w (err thrown) = (err thrown, w)
after_governance env m w (ok d) = run_governed env m d w

-- `executeMission`
unfoldable pub execute_mission :
    RunEnv → MissionDefinition → World → Result Str MissionExecutionReport × World
unfolding after_governance
execute_mission env m w =
    after_governance env m (record w { executions = w.executions + 1 }) env.governance
