-- ===== src/Missions/Runtime/Dispatch.antt =====
-- The second stage of `executeMission`: the tasks of a layer are run at once, their outcomes are
-- applied in the order of `localeCompare`.
use mathlib.Core.List.{foldl}
use adam_os.Base.{
  ℕ, suc, Bool, true, false, Option, none, some, List, [], ◌∷◌, ◌++◌, Str, str, any, or_else, Value,
  obj, end, Result, ok, err, if◌then◌else◌,
}
use adam_os.Missions.Types.{
  TaskDefinition, MissionDefinition, waiting, completed, failed, TaskExecutionRecord,
  task_completed, task_failed,
}
use adam_os.Missions.RetryManager.{AttemptOutcome, effective_retry, run_with_retry}
use adam_os.Missions.Runtime.{
  TaskExecutionContext, TaskExecutor, RunEnv, RunState, emit, update_record, find_task,
  state_of_passes, is_state, schedule_task, start_task,
}

pub record TaskOutcome : Type 0 where
  pub task_id : Str
  pub succeeded : Bool
  pub attempts : ℕ
  pub error : Option Str
  pub output : Option Value

pub no_executor : Str → Str
no_executor key = str "no executor registered: \"" ++ (key ++ str "\"")

-- After the attempts: the completion hook runs on success, and what it throws is thrown on.
unfoldable pub complete_task :
    TaskExecutor
    → TaskExecutionContext
    → Str
    → AttemptOutcome (Option Value)
    → Result Str TaskOutcome
complete_task x base id outcome =
    let done = ok (record {
      task_id = id;
      succeeded = outcome.succeeded;
      attempts = outcome.attempts;
      error = outcome.error;
      output = or_else outcome.result none;
    }) in
    let hook =
      x.on_complete (record base { attempt = outcome.attempts }) (or_else outcome.result none) in
    if outcome.succeeded then elim hook [ some thrown ↦ err thrown | none ↦ done ] else done

-- One task of the batch: start hook, attempts, completion hook. An executor that is not registered
-- fails the task without an attempt.
unfoldable pub run_task : RunEnv → MissionDefinition → TaskDefinition → Result Str TaskOutcome
unfolding complete_task
run_task env m t =
    let base : ℕ → TaskExecutionContext = λ attempt. record {
      mission_id = m.id;
      execution_id = env.execution_id;
      task_id = t.id;
      input = or_else t.input (obj end);
      attempt = attempt;
    } in
    elim (env.executors t.executor) [
      | none ↦ ok (record {
        task_id = t.id;
        succeeded = false;
        attempts = 0;
        error = some (no_executor t.executor);
        output = none;
      })
      | some x ↦ elim (x.on_start (base 1)) [
        | some thrown ↦ err thrown
        | none ↦
            elim (run_with_retry (λ n. x.execute (base n)) (λ n. x.on_error (base n))
              (effective_retry t.retry)) [
                | err thrown ↦ err thrown
                | ok outcome ↦ complete_task x (base 1) t.id outcome
              ]
      ]
    ]

-- `Promise.all`: all outcomes, or the first that throws.
unfoldable pub run_tasks : RunEnv → MissionDefinition → List Str → Result Str (List TaskOutcome)
run_tasks env m [] = ok []
run_tasks env m (id ∷ ids) =
    let rest = run_tasks env m ids in
    elim (find_task id m.tasks) [
      | none ↦ rest
      | some t ↦ elim (run_task env m t) [
        | err thrown ↦ err thrown
        | ok o ↦ elim rest [ err thrown ↦ err thrown | ok os ↦ ok (o ∷ os) ]
      ]
    ]

unfoldable pub insert_outcome :
    (Str → Str → Bool) → TaskOutcome → List TaskOutcome → List TaskOutcome
insert_outcome leq o [] = o ∷ []
insert_outcome leq o (x ∷ xs) =
    let rest = insert_outcome leq o xs in if leq o.task_id x.task_id then o ∷ x ∷ xs else x ∷ rest

unfoldable pub sort_outcomes : (Str → Str → Bool) → List TaskOutcome → List TaskOutcome
unfolding insert_outcome
sort_outcomes leq [] = []
sort_outcomes leq (o ∷ os) = insert_outcome leq o (sort_outcomes leq os)

abbrev pub settle_record : TaskOutcome → TaskExecutionRecord → TaskExecutionRecord
settle_record o r =
    if o.succeeded
    then record r { state = completed; attempts = o.attempts; output = o.output }
    else record r { state = failed; attempts = o.attempts; error = o.error }

unfoldable pub apply_outcome : RunState → TaskOutcome → RunState
apply_outcome s o =
    let s1 = record s { records = update_record o.task_id (settle_record o) s.records } in
    if o.succeeded
    then emit (task_completed o.task_id) s1
    else emit (task_failed o.task_id o.error) s1

-- The body of the loop over the layers.
unfoldable pub run_layer : RunEnv → MissionDefinition → List Str → RunState → Result Str RunState
run_layer env m layer s =
    let scheduled =
      foldl (schedule_task m.tasks env.approvals) (record { run = s; to_run = [] }) layer in
    let started = foldl start_task scheduled.run scheduled.to_run in
    elim (run_tasks env m scheduled.to_run) [
      | err thrown ↦ err thrown
      | ok outcomes ↦ ok (foldl apply_outcome started (sort_outcomes env.locale_leb outcomes))
    ]

-- How the loop over the layers ended: whether at a gate, and after how many calls of the
-- cancellation predicate.
pub record LayersEnd : Type 0 where
  pub run : RunState
  pub paused : Bool
  pub checks : ℕ

unfoldable pub run_layers :
    RunEnv → MissionDefinition → ℕ → List (List Str) → RunState → Result Str LayersEnd
run_layers env m k [] s = ok (record { run = s; paused = false; checks = k })
run_layers env m k (layer ∷ layers) s = elim (env.cancelled_at k) [
  | true ↦ ok (record { run = s; paused = false; checks = suc k })
  | false ↦ elim (run_layer env m layer s) [
    | err thrown ↦ err thrown
    | ok s1 ↦
        let gated = any (state_of_passes (is_state waiting) s1.records) layer in
        let stop = ok (record { run = s1; paused = true; checks = suc k }) in
        let rest = run_layers env m (suc k) layers s1 in if gated then stop else rest
  ]
]
