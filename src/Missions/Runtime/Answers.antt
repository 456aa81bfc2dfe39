-- ===== src/Missions/Runtime/Answers.antt =====
-- A run throws only what governance, a hook or the insertion of a report throws, and gives a report
-- otherwise.
use mathlib.Core.List.{foldl}
use adam_os.Base.{
  ℕ, suc, ◌+◌, ◌≡◌, refl, inl, inr, none, some, List, [], ◌∷◌, arith, Str, any, subst, sym, Result,
  ok, err, Bool-cases, Option-cases, Result-cases, or_else, obj, end, length,
}
use adam_os.Missions.Types.{
  TaskDefinition, MissionDefinition, failed, GovernanceDecision, MissionExecutionState,
  MissionEvent, mission_started, MissionExecutionReport,
}
use adam_os.Missions.RetryManager.{effective_retry}
use adam_os.Missions.RetryManager.Attempts.{run_with_retry-IsFirst}
use adam_os.Missions.Planner.{ExecutionPlan}
use adam_os.Missions.Planner.Laws.{plan_mission_total}
use adam_os.Missions.Runtime.{
  RunEnv, RunState, emit, is_state, schedule_task, find_task, TaskExecutor, TaskExecutionContext,
}
use adam_os.Missions.Runtime.Dispatch.{
  TaskOutcome, complete_task, run_task, run_tasks, LayersEnd, run_layer, run_layers,
}
use adam_os.Missions.Runtime.Execute.{
  World, count_outcome, build_report, after_persist, finalize, resolve, run_plan, run_governed,
  execute_mission, is_blocked, start, after_layers, after_governance,
}

-- No hook of a registered executor throws, and the insertion of a report does not. (Executors may.)
pub record IsQuiet (env : RunEnv) : Type 0 where
  pub on_start :
      (key : Str) (x : TaskExecutor) (c : TaskExecutionContext)
      → env.executors key ≡ some x
      → x.on_start c ≡ none
  pub on_complete :
      (key : Str) (x : TaskExecutor) (c : TaskExecutionContext) (o : _)
      → env.executors key ≡ some x
      → x.on_complete c o ≡ none
  pub on_error :
      (key : Str) (x : TaskExecutor) (c : TaskExecutionContext) (e : Str)
      → env.executors key ≡ some x
      → x.on_error c e ≡ none
  pub persists : (report : MissionExecutionReport) → env.persists report ≡ none

module _ (env : RunEnv) (m : MissionDefinition) (quiet : IsQuiet env) where
  run_task-ok : (t : TaskDefinition) → (o : TaskOutcome) × (run_task env m t ≡ ok o)
  unfolding run_task complete_task
  run_task-ok t = elim (Result-cases (run_task env m t)) [
    | inl answer ↦ answer
    | inr (e, thrown) ↦ elim (Option-cases (env.executors t.executor)) [
      | inl missing ↦ absurd (ground arith)
      | inr (x, found) ↦
          let base : ℕ → TaskExecutionContext = λ n. record {
            mission_id = m.id;
            execution_id = env.execution_id;
            task_id = t.id;
            input = or_else t.input (obj end);
            attempt = n;
          } in
          let (a, answer, _) =
            run_with_retry-IsFirst (λ n. x.execute (base n)) (λ n. x.on_error (base n))
              (effective_retry t.retry) (λ n e'. quiet.on_error t.executor x (base n) e' found) in
          absurd (
            ground (
              arith,
              thrown,
              answer,
              quiet.on_start t.executor x (base 1) found,
              quiet.on_complete t.executor x (base a.attempts) (or_else a.result none) found,
            ))
    ]
  ]

  run_tasks-ok : (ids : List Str) → (os : List TaskOutcome) × (run_tasks env m ids ≡ ok os)
  unfolding run_tasks
  run_tasks-ok [] = ([], refl)
  run_tasks-ok (id ∷ ids) =
      let (os, others) = run_tasks-ok ids in
      elim (Option-cases (find_task id m.tasks)) [
        | inl missing ↦ (os, ground arith)
        | inr (t, found) ↦ let (o, ran) = run_task-ok t in (o ∷ os, ground arith)
      ]

  run_layer-ok :
      (layer : List Str) (s : RunState) → (after : RunState) × (run_layer env m layer s ≡ ok after)
  unfolding run_layer
  run_layer-ok layer s = elim (Result-cases (run_layer env m layer s)) [
    | inl answer ↦ answer
    | inr (e, thrown) ↦
        let scheduled =
          foldl (schedule_task m.tasks env.approvals) (record { run = s; to_run = [] }) layer in
        absurd (ground (arith, thrown, (run_tasks-ok scheduled.to_run).1))
  ]

  run_layers-ok :
      (k : ℕ) (layers : List (List Str)) (s : RunState)
      → (e : LayersEnd) × (run_layers env m k layers s ≡ ok e)
  unfolding run_layers
  run_layers-ok k [] s = (_, refl)
  run_layers-ok k (layer ∷ layers) s = elim (Result-cases (run_layers env m k (layer ∷ layers) s)) [
    | inl answer ↦ answer
    | inr (e, thrown) ↦
        let (s1, ran) = run_layer-ok layer s in
        absurd (ground (arith, thrown, ran, (run_layers-ok (suc k) layers s1).1))
  ]

  IsReport : Result Str MissionExecutionReport × World → Type 0
  IsReport a = (report : MissionExecutionReport) × (a.0 ≡ ok report)

  finalize-IsReport :
      (d : GovernanceDecision) (state : MissionExecutionState) (e : MissionEvent) (s : RunState)
      (w : World)
      → IsReport (finalize env m d state e s w)
  unfolding IsReport finalize after_persist
  finalize-IsReport d state e s w =
      let report = build_report env m d state (emit e s) in
      subst (λ o. IsReport (after_persist report (count_outcome state w) o))
        (sym (quiet.persists report)) (report, refl)

  resolve-IsReport :
      (d : GovernanceDecision) (e : LayersEnd) (w : World) → IsReport (resolve env m d e w)
  unfolding IsReport resolve
  resolve-IsReport d e w = elim (Bool-cases (env.cancelled_at e.checks)) [
    | inl stopped ↦ rw stopped (finalize-IsReport d _ _ _ w)
    | inr runs ↦ elim (Bool-cases e.paused) [
      | inl paused ↦ rw runs (rw paused (finalize-IsReport d _ _ _ w))
      | inr through ↦ elim (Bool-cases (any (λ r. is_state r.state failed) e.run.records)) [
        | inl failing ↦ rw runs (rw through (rw failing (finalize-IsReport d _ _ _ w)))
        | inr clean ↦ rw runs (rw through (rw clean (finalize-IsReport d _ _ _ w)))
      ]
    ]
  ]

  run_plan-IsReport :
      (d : GovernanceDecision) (p : ExecutionPlan) (w : World) → IsReport (run_plan env m d p w)
  unfolding IsReport run_plan after_layers
  run_plan-IsReport d p w =
      let (e, ended) =
        run_layers-ok 0 p.layers
          (emit (mission_started (length m.tasks) (length p.layers)) (start m)) in
      rw ended (resolve-IsReport d e w)

  run_governed-IsReport : (d : GovernanceDecision) (w : World) → IsReport (run_governed env m d w)
  unfolding IsReport run_governed
  run_governed-IsReport d w = elim (Bool-cases (is_blocked d.execution_decision)) [
    | inl stopped ↦ rw stopped (finalize-IsReport d _ _ _ w)
    | inr passes ↦ elim (Result-cases (plan_mission_total m).0) [
      | inl (p, planned) ↦
          rw passes (rw ((plan_mission_total m).1) (rw planned (run_plan-IsReport d p w)))
      | inr (e, refused) ↦
          rw passes (rw ((plan_mission_total m).1) (rw refused (finalize-IsReport d _ _ _ w)))
    ]
  ]

  after_governance-IsReport :
      {d : GovernanceDecision} (w : World) (g : Result Str GovernanceDecision)
      → g ≡ ok d
      → IsReport (after_governance env m w g)
  unfolding after_governance
  after_governance-IsReport w (ok d') same = run_governed-IsReport d' w
  after_governance-IsReport w (err e) same = absurd (ground arith)

  -- When governance decides, the hooks do not throw, reports are stored and each call of an executor
  -- returns or throws, `executeMission` returns a report.
  pub execute_mission_total :
      (d : GovernanceDecision) (w : World)
      → env.governance ≡ ok d
      → (report : MissionExecutionReport) × ((execute_mission env m w).0 ≡ ok report)
  unfolding IsReport execute_mission
  execute_mission_total d w decided =
      after_governance-IsReport (record w { executions = w.executions + 1 }) env.governance decided
