-- ===== src/Tests/Runtime.antt =====
-- lib/missions/mission-runtime.ts: a chain of three tasks, of which one needs an approval.
use adam_os.Base.{
  ℕ, ◌+◌, ◌≡◌, refl, Bool, true, false, none, some, List, [], ◌∷◌, Str, str, str_eq, str_leb,
  contains, arith, map, lookup, insert, count, sort, Result, ok, err, leb,
}
use adam_os.Missions.Types.{
  TaskDefinition, MissionDefinition, waiting_mission, completed_mission, MissionExecutionReport,
  GovernanceDecision, pass,
}
use adam_os.Missions.Planner.{plan_mission}
use adam_os.Missions.RetryManager.{effective_retry, run_with_retry}
use adam_os.Missions.RetryManager.Attempts.{IsFirst, run_with_retry-IsFirst}
use adam_os.Missions.Runtime.{TaskExecutor, RunEnv, initial_record, schedule_task, start_task}
use adam_os.Missions.Runtime.Dispatch.{
  run_task, run_tasks, sort_outcomes, apply_outcome, run_layer, run_layers,
}
use adam_os.Missions.Runtime.Execute.{
  World, build_report, finalize, resolve, run_plan, run_governed, execute_mission,
}
use adam_os.Missions.Runtime.Exits.{IsRecorded, execute_mission-IsRecorded}
use adam_os.Missions.Runtime.Verdicts.{IsSound, execute_mission-IsSound}
use adam_os.Missions.Runtime.Unapproved.{IsRestrained, execute_mission-IsRestrained}
use adam_os.Missions.Runtime.Answers.{IsQuiet, execute_mission_total}

abbrev task : Str → List Str → Bool → TaskDefinition
task id deps gate = record {
  id = id;
  executor = str "e";
  depends_on = some deps;
  input = none;
  requires_approval = some gate;
  retry = some 2;
}

-- Release needs an approval and follows build; announce follows release.
abbrev mission : MissionDefinition
mission = record {
  id = str "m";
  name = none;
  tasks =
      task (str "c") (str "b" ∷ []) false
      ∷ task (str "b") (str "a" ∷ []) true
      ∷ task (str "a") [] false
      ∷ [];
  object_types = none;
}

-- It fails the first attempt.
abbrev executor : TaskExecutor
executor = record {
  execute = λ c. elim (leb c.attempt 1) [ true ↦ err (str "busy") | false ↦ ok none ];
  on_start = λ c. none;
  on_complete = λ c o. none;
  on_error = λ c e. none;
}

abbrev decision : GovernanceDecision
decision = record { execution_decision = pass; blocking_codes = []; warning_codes = [] }

abbrev env : RunEnv
env = record {
  executors = λ key. some executor;
  governance = ok decision;
  approvals = [];
  cancelled_at = λ n. false;
  execution_id = str "x";
  locale_leb = str_leb;
  persists = λ r. none;
}

abbrev world : World
world = record {
  executions = 0;
  completed = 0;
  failed = 0;
  blocked = 0;
  cancelled = 0;
  waiting = 0;
  persisted = [];
}

runtime : Unit {0}
unfolding execute_mission run_governed run_plan run_layers run_layer run_tasks schedule_task
    initial_record run_task run_with_retry effective_retry sort_outcomes apply_outcome start_task
    resolve finalize build_report plan_mission str_eq contains count lookup insert sort str_leb
runtime = tt

-- Without the approval the run waits at the second task; with it, the run completes.
run_waits :
    map (λ r. r.execution_state) (execute_mission env mission world).1.persisted
    ≡ waiting_mission ∷ []
unfolding runtime
run_waits = refl

abbrev approved : RunEnv
approved = record env { approvals = str "b" ∷ [] }

run_completes :
    map (λ r. r.execution_state) (execute_mission approved mission world).1.persisted
    ≡ completed_mission ∷ []
unfolding runtime
run_completes = refl

run_retries :
    map (λ r. r.total_retries) (execute_mission approved mission world).1.persisted ≡ 3 ∷ []
unfolding runtime
run_retries = refl

execute_mission-IsRecorded_example :
    IsRecorded env (record world { executions = 0 + 1 }) (execute_mission env mission world)
execute_mission-IsRecorded_example = execute_mission-IsRecorded env mission world

execute_mission-IsSound_example : IsSound env mission (execute_mission env mission world)
execute_mission-IsSound_example = execute_mission-IsSound env mission world

execute_mission-IsRestrained_example : IsRestrained env mission (execute_mission env mission world)
execute_mission-IsRestrained_example = execute_mission-IsRestrained env mission world

quiet : IsQuiet env
quiet = record {
  on_start = λ key x c h. ground arith;
  on_complete = λ key x c o h. ground arith;
  on_error = λ key x c e h. ground arith;
  persists = λ r. refl;
}

execute_mission_total_example :
    (report : MissionExecutionReport) × ((execute_mission env mission world).0 ≡ ok report)
execute_mission_total_example = execute_mission_total env mission quiet decision world refl

abbrev flaky : ℕ → Result Str ℕ
flaky n = elim (leb n 1) [ true ↦ err (str "busy") | false ↦ ok n ]

run_with_retry-IsFirst_example :
    (o : _) × (run_with_retry flaky (λ n e. none) 3 ≡ ok o) × IsFirst flaky 0 3 o
run_with_retry-IsFirst_example = run_with_retry-IsFirst flaky (λ n e. none) 3 (λ n e. refl)
