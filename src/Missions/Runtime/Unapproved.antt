-- ===== src/Missions/Runtime/Unapproved.antt =====
-- The reports of runs in which an approval is missing.
use mathlib.Core.List.{foldl}
use adam_os.Base.{
  ℕ, suc, ◌+◌, ◌≡◌, refl, ◌∙◌, inl, inr, Bool, true, List, [], ◌∷◌, map, arith, Str, all, any,
  Result, ok, err, Returns, Bool-cases, Option-cases, Result-cases, Option, none, some,
}
use adam_os.Missions.Types.{
  TaskDefinition, MissionDefinition, waiting, failed, MissionExecutionState, MissionExecutionReport,
  GovernanceDecision, MissionEvent,
}
use adam_os.Missions.Planner.{ExecutionPlan, plan_mission}
use adam_os.Missions.Runtime.{
  emit, RunEnv, RunState, Records, is_state, find_task, initial_record, state_of_passes,
  needs_approval, Schedule, schedule_task, start_task,
}
use adam_os.Missions.Runtime.Dispatch.{
  TaskOutcome, run_task, run_tasks, insert_outcome, sort_outcomes, apply_outcome, run_layer,
  LayersEnd, run_layers,
}
use adam_os.Missions.Runtime.Execute.{
  World, count_outcome, build_report, after_persist, finalize, resolve, run_plan, run_governed,
  execute_mission, is_blocked, after_layers, after_governance, cancel_record, build_report,
}
use adam_os.Missions.Runtime.Approvals.{
  held_back, find_task-id, schedule-Held, start-AllHeld, settle-AllHeld, run_task-id, Held,
}

module _ (env : RunEnv) (m : MissionDefinition) where
  -- Whether a task needs an approval that the run does not have.
  abbrev pub unapproved : Str → Bool
  unapproved id = needs_approval m.tasks env.approvals id

  run_tasks-all :
      (p : Str → Bool) (ids : List Str) {os : List TaskOutcome}
      → run_tasks env m ids ≡ ok os
      → all p ids ≡ true
      → all (λ o. p o.task_id) os ≡ true
  unfolding run_tasks
  run_tasks-all p [] {os} h f = ground arith
  run_tasks-all p (id ∷ ids) {os} h f = elim (Option-cases (find_task id m.tasks)) [
    | inl missing ↦ run_tasks-all p ids (ground arith) (ground arith)
    | inr (t, found) ↦ elim (Result-cases (run_task env m t)) [
      | inr (thrown, failing) ↦ absurd (ground arith)
      | inl (o, ran) ↦ elim (Result-cases (run_tasks env m ids)) [
        | inr (thrown, failing) ↦ absurd (ground arith)
        | inl (rest, others) ↦
            let tail = run_tasks-all p ids others (ground arith) in
            let same : o.task_id ≡ id = run_task-id env m t ran ∙ find_task-id id m.tasks found in
            ground (arith, tail, same)
      ]
    ]
  ]

  insert_outcome-all :
      (p : TaskOutcome → Bool) (leq : Str → Str → Bool) (o : TaskOutcome) (os : List TaskOutcome)
      → p o ≡ true
      → all p os ≡ true
      → all p (insert_outcome leq o os) ≡ true
  unfolding insert_outcome
  insert_outcome-all p leq o [] f h = rw f refl
  insert_outcome-all p leq o (x ∷ xs) f h = ground (arith, insert_outcome-all p leq o xs f)

  sort_outcomes-all :
      (p : TaskOutcome → Bool) (leq : Str → Str → Bool) (os : List TaskOutcome)
      → all p os ≡ true
      → all p (sort_outcomes leq os) ≡ true
  unfolding sort_outcomes
  sort_outcomes-all p leq [] h = refl
  sort_outcomes-all p leq (o ∷ os) h =
      insert_outcome-all p leq o (sort_outcomes leq os) (ground arith)
        (sort_outcomes-all p leq os (ground arith))

  run_layer-held :
      (layer : List Str) (s : RunState) {after : RunState}
      → all (held_back unapproved) s.records ≡ true
      → run_layer env m layer s ≡ ok after
      → all (held_back unapproved) after.records ≡ true
  unfolding run_layer
  run_layer-held layer s {after} h r = elim (Result-cases (run_tasks env m scheduled.to_run)) [
    | inr (thrown, failing) ↦ absurd (ground arith)
    | inl (os, ran) ↦
        let end : after ≡ foldl apply_outcome started (sort_outcomes env.locale_leb os) =
          ground arith in
        rw end (
          settle-AllHeld m.tasks env.approvals (sort_outcomes env.locale_leb os) started
            (sort_outcomes-all _ env.locale_leb os (run_tasks-all _ _ ran held.to_run))
            (start-AllHeld m.tasks env.approvals scheduled.to_run scheduled.run held.to_run
              held.records))
  ]
    where
      scheduled : Schedule
      scheduled =
          foldl (schedule_task m.tasks env.approvals) (record { run = s; to_run = [] }) layer

      held : Held m.tasks env.approvals scheduled
      held = schedule-Held m.tasks env.approvals layer _ (record { records = h; to_run = refl })

      started : RunState
      started = foldl start_task scheduled.run scheduled.to_run

  run_layers-held :
      (k : ℕ) (layers : List (List Str)) (s : RunState) {e : LayersEnd}
      → all (held_back unapproved) s.records ≡ true
      → run_layers env m k layers s ≡ ok e
      → all (held_back unapproved) e.run.records ≡ true
  unfolding run_layers
  run_layers-held k [] s {e} h r = ground arith
  run_layers-held k (layer ∷ layers) s {e} h r = elim (Bool-cases (env.cancelled_at k)) [
    | inl stopped ↦ ground arith
    | inr runs ↦ elim (Result-cases (run_layer env m layer s)) [
      | inr (thrown, failing) ↦ absurd (ground arith)
      | inl (s1, ran) ↦
          let held = run_layer-held layer s h ran in
          elim (Bool-cases (any (state_of_passes (is_state waiting) s1.records) layer)) [
            | inl gated ↦ ground arith
            | inr open_ ↦ run_layers-held (suc k) layers s1 {e = e} held (ground arith)
          ]
    ]
  ]

  -- A report, if there is one, with nothing run that waits for its approval.
  abbrev pub IsRestrained : Result Str MissionExecutionReport × World → Type 0
  IsRestrained a = Returns (λ report. all (held_back unapproved) report.tasks ≡ true) a.0

  after_persist-IsRestrained :
      (report : MissionExecutionReport) (w : World) (o : Option Str)
      → all (held_back unapproved) report.tasks ≡ true
      → IsRestrained (after_persist report w o)
  unfolding after_persist
  after_persist-IsRestrained report w none h = h
  after_persist-IsRestrained report w (some thrown) h = tt

  finalize-IsRestrained :
      (d : GovernanceDecision) (state : MissionExecutionState) (e : MissionEvent) (s : RunState)
      (w : World)
      → all (held_back unapproved) s.records ≡ true
      → IsRestrained (finalize env m d state e s w)
  unfolding finalize build_report
  finalize-IsRestrained d state e s w h =
      after_persist-IsRestrained (build_report env m d state (emit e s)) (count_outcome state w) _ h

  cancel-held :
      (rs : Records)
      → all (held_back unapproved) rs ≡ true
      → all (held_back unapproved) (map cancel_record rs) ≡ true
  cancel-held [] h = refl
  cancel-held (r ∷ rs) h = ground (arith, cancel-held rs)

  initial-held :
      (ts : List TaskDefinition) → all (held_back unapproved) (map initial_record ts) ≡ true
  unfolding initial_record
  initial-held [] = refl
  initial-held (t ∷ ts) = ground (arith, initial-held ts)

  resolve-IsRestrained :
      (d : GovernanceDecision) (e : LayersEnd) (w : World)
      → all (held_back unapproved) e.run.records ≡ true
      → IsRestrained (resolve env m d e w)
  unfolding resolve
  resolve-IsRestrained d e w h = elim (Bool-cases (env.cancelled_at e.checks)) [
    | inl stopped ↦ rw stopped (finalize-IsRestrained d _ _ _ w (cancel-held e.run.records h))
    | inr runs ↦ elim (Bool-cases e.paused) [
      | inl paused ↦ rw runs (rw paused (finalize-IsRestrained d _ _ _ w h))
      | inr through ↦ elim (Bool-cases (any (λ r. is_state r.state failed) e.run.records)) [
        | inl failing ↦ rw runs (rw through (rw failing (finalize-IsRestrained d _ _ _ w h)))
        | inr clean ↦ rw runs (rw through (rw clean (finalize-IsRestrained d _ _ _ w h)))
      ]
    ]
  ]

  after_layers-IsRestrained :
      (d : GovernanceDecision) (w : World) (r : Result Str LayersEnd)
      → ((e : LayersEnd) → r ≡ ok e → all (held_back unapproved) e.run.records ≡ true)
      → IsRestrained (after_layers env m d w r)
  unfolding after_layers
  after_layers-IsRestrained d w (err thrown) h = tt
  after_layers-IsRestrained d w (ok e) h = resolve-IsRestrained d e w (h e refl)

  run_plan-IsRestrained :
      (d : GovernanceDecision) (p : ExecutionPlan) (w : World) → IsRestrained (run_plan env m d p w)
  unfolding run_plan
  run_plan-IsRestrained d p w =
      after_layers-IsRestrained d w (run_layers env m 0 p.layers _)
        (λ e h. run_layers-held 0 p.layers _ (initial-held m.tasks) h)

  run_governed-IsRestrained :
      (d : GovernanceDecision) (w : World) → IsRestrained (run_governed env m d w)
  unfolding run_governed
  run_governed-IsRestrained d w = elim (Bool-cases (is_blocked d.execution_decision)) [
    | inl stopped ↦ rw stopped (finalize-IsRestrained d _ _ _ w (initial-held m.tasks))
    | inr passes ↦ elim (Option-cases (plan_mission m)) [
      | inl open_ ↦ rw passes (rw open_ (finalize-IsRestrained d _ _ _ w (initial-held m.tasks)))
      | inr (r, answer) ↦ elim (Result-cases r) [
        | inl (p, planned) ↦ rw passes (rw answer (rw planned (run_plan-IsRestrained d p w)))
        | inr (e, refused) ↦
            rw passes
              (rw answer (rw refused (finalize-IsRestrained d _ _ _ w (initial-held m.tasks))))
      ]
    ]
  ]

  after_governance-IsRestrained :
      (w : World) (g : Result Str GovernanceDecision) → IsRestrained (after_governance env m w g)
  unfolding after_governance
  after_governance-IsRestrained w (ok d) = run_governed-IsRestrained d w
  after_governance-IsRestrained w (err thrown) = tt

-- In every report of `executeMission`, a task that requires an approval which was not granted has
-- no attempt, and is pending, waiting, skipped or cancelled.
pub execute_mission-IsRestrained :
    (env : RunEnv) (m : MissionDefinition) (w : World)
    → IsRestrained env m (execute_mission env m w)
unfolding execute_mission
execute_mission-IsRestrained env m w =
    after_governance-IsRestrained env m (record w { executions = w.executions + 1 }) env.governance
