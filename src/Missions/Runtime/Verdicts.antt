-- ===== src/Missions/Runtime/Verdicts.antt =====
-- What the state of a report says of its tasks.
use adam_os.Base.{
  ℕ, suc, ◌+◌, ◌≡◌, refl, ap, ◌∙◌, ◌⊎◌, inl, inr, Bool, true, false, ◌||◌, some, List, [], ◌∷◌, map,
  arith, Str, all, any, Result, ok, err, Returns, Bool-cases, Result-cases, Option, none,
}
use adam_os.Missions.Types.{
  TaskDefinition, MissionDefinition, TaskState, waiting, pending, completed, failed, skipped,
  cancelled, TaskExecutionRecord, MissionExecutionState, blocked_mission, failed_mission,
  cancelled_mission, waiting_mission, completed_mission, GovernanceDecision, MissionEvent,
  MissionExecutionReport,
}
use adam_os.Missions.Planner.{MissionPlanError, plan_mission}
use adam_os.Missions.Planner.Laws.{plan_mission_total}
use adam_os.Missions.Runtime.{
  emit, RunEnv, RunState, Records, is_state, initial_record, find_record, state_of_passes,
}
use adam_os.Missions.Runtime.Dispatch.{LayersEnd, run_layer, run_layers}
use adam_os.Missions.Runtime.Execute.{
  World, count_outcome, build_report, after_persist, finalize, resolve, run_plan, run_governed,
  execute_mission, is_blocked, after_layers, after_governance, cancel_record, build_report,
}

abbrev pub in_state : TaskState → TaskExecutionRecord → Bool
in_state s r = is_state r.state s

abbrev pub is_over : TaskState → Bool
is_over s = is_state s completed || is_state s failed || is_state s skipped || is_state s cancelled

-- Blocked: no task moved. Failed: a task failed, or the mission has no plan. Cancelled: every task
-- is over. Waiting: some task waits. Completed: no task failed.
abbrev pub Meaning : MissionDefinition → Records → MissionExecutionState → Type 0
Meaning m rs blocked_mission = all (in_state pending) rs ≡ true
Meaning m rs failed_mission =
    (any (in_state failed) rs ≡ true) ⊎ ((e : MissionPlanError) × (plan_mission m ≡ some (err e)))
Meaning m rs cancelled_mission = all (λ r. is_over r.state) rs ≡ true
Meaning m rs waiting_mission = any (in_state waiting) rs ≡ true
Meaning m rs completed_mission = any (in_state failed) rs ≡ false

state_of_passes-any :
    (test : TaskState → Bool) (rs : Records) (id : Str)
    → state_of_passes test rs id ≡ true
    → any (λ r. test r.state) rs ≡ true
unfolding state_of_passes find_record
state_of_passes-any test [] id h = absurd (ground arith)
state_of_passes-any test (r ∷ rs) id h = ground (arith, state_of_passes-any test rs id)

any-state_of_passes :
    (test : TaskState → Bool) (rs : Records) (ids : List Str)
    → any (state_of_passes test rs) ids ≡ true
    → any (λ r. test r.state) rs ≡ true
any-state_of_passes test rs [] h = absurd (ground arith)
any-state_of_passes test rs (id ∷ ids) h =
    ground (arith, state_of_passes-any test rs id, any-state_of_passes test rs ids)

module _ (env : RunEnv) (m : MissionDefinition) where
  -- A run stops at a gate only with a task that waits.
  run_layers-paused :
      (k : ℕ) (layers : List (List Str)) (s : RunState) {e : LayersEnd}
      → run_layers env m k layers s ≡ ok e
      → e.paused ≡ true
      → any (in_state waiting) e.run.records ≡ true
  unfolding run_layers
  run_layers-paused k [] s {e} h p = absurd (ground arith)
  run_layers-paused k (layer ∷ layers) s {e} h p = elim (Bool-cases (env.cancelled_at k)) [
    | inl stopped ↦ absurd (ground arith)
    | inr runs ↦ elim (Result-cases (run_layer env m layer s)) [
      | inr (thrown, failing) ↦ absurd (ground arith)
      | inl (s1, ran) ↦
          elim (Bool-cases (any (state_of_passes (λ s. is_state s waiting) s1.records) layer)) [
            | inl gated ↦
                ground (arith, any-state_of_passes (λ s. is_state s waiting) s1.records layer gated)
            | inr open_ ↦ run_layers-paused (suc k) layers s1 {e = e} (ground arith) p
          ]
    ]
  ]

  -- The state of a report, if there is one, means what it says.
  abbrev pub IsSound : Result Str MissionExecutionReport × World → Type 0
  IsSound a = Returns (λ report. Meaning m report.tasks report.execution_state) a.0

  after_persist-IsSound :
      (report : MissionExecutionReport) (w : World) (o : Option Str)
      → Meaning m report.tasks report.execution_state
      → IsSound (after_persist report w o)
  unfolding after_persist
  after_persist-IsSound report w none h = h
  after_persist-IsSound report w (some thrown) h = tt

  finalize-IsSound :
      (d : GovernanceDecision) (state : MissionExecutionState) (e : MissionEvent) (s : RunState)
      (w : World)
      → Meaning m s.records state
      → IsSound (finalize env m d state e s w)
  unfolding finalize build_report
  finalize-IsSound d state e s w h =
      after_persist-IsSound (build_report env m d state (emit e s)) (count_outcome state w) _ h

  cancel-is_over : (rs : Records) → all (λ r. is_over r.state) (map cancel_record rs) ≡ true
  cancel-is_over [] = refl
  cancel-is_over (r ∷ rs) = ground (arith, cancel-is_over rs)

  initial-pending :
      (ts : List TaskDefinition) → all (in_state pending) (map initial_record ts) ≡ true
  unfolding initial_record
  initial-pending [] = refl
  initial-pending (t ∷ ts) = initial-pending ts

  resolve-IsSound :
      (d : GovernanceDecision) (e : LayersEnd) (w : World)
      → (e.paused ≡ true → any (in_state waiting) e.run.records ≡ true)
      → IsSound (resolve env m d e w)
  unfolding resolve
  resolve-IsSound d e w h = elim (Bool-cases (env.cancelled_at e.checks)) [
    | inl stopped ↦
        rw stopped (finalize-IsSound d cancelled_mission _ _ w (cancel-is_over e.run.records))
    | inr runs ↦ elim (Bool-cases e.paused) [
      | inl paused ↦ rw runs (rw paused (finalize-IsSound d waiting_mission _ _ w (h paused)))
      | inr through ↦ elim (Bool-cases (any (in_state failed) e.run.records)) [
        | inl failing ↦
            rw runs
              (rw through (rw failing (finalize-IsSound d failed_mission _ _ w (inl failing))))
        | inr clean ↦
            rw runs (rw through (rw clean (finalize-IsSound d completed_mission _ _ w clean)))
      ]
    ]
  ]

  after_layers-IsSound :
      (d : GovernanceDecision) (w : World) (r : Result Str LayersEnd)
      → ((e : LayersEnd) → r ≡ ok e → e.paused ≡ true → any (in_state waiting) e.run.records ≡ true)
      → IsSound (after_layers env m d w r)
  unfolding after_layers
  after_layers-IsSound d w (err thrown) h = tt
  after_layers-IsSound d w (ok e) h = resolve-IsSound d e w (h e refl)

  run_governed-IsSound : (d : GovernanceDecision) (w : World) → IsSound (run_governed env m d w)
  unfolding run_governed run_plan
  run_governed-IsSound d w = elim (Bool-cases (is_blocked d.execution_decision)) [
    | inl stopped ↦ rw stopped (finalize-IsSound d blocked_mission _ _ w (initial-pending m.tasks))
    | inr passes ↦ elim (Result-cases (plan_mission_total m).0) [
      | inl (p, planned) ↦ rw passes (
          rw ((plan_mission_total m).1)
            (rw planned (after_layers-IsSound d w _ (λ e h. run_layers-paused 0 p.layers _ h))))
      | inr (e, refused) ↦
          let rejected : plan_mission m ≡ some (err e) =
            (plan_mission_total m).1 ∙ ap some refused in
          rw passes (rw rejected (finalize-IsSound d failed_mission _ _ w (inr (e, rejected))))
    ]
  ]

  after_governance-IsSound :
      (w : World) (g : Result Str GovernanceDecision) → IsSound (after_governance env m w g)
  unfolding after_governance
  after_governance-IsSound w (ok d) = run_governed-IsSound d w
  after_governance-IsSound w (err thrown) = tt

-- Every report of `executeMission` is in a state that its tasks justify.
pub execute_mission-IsSound :
    (env : RunEnv) (m : MissionDefinition) (w : World) → IsSound env m (execute_mission env m w)
unfolding execute_mission
execute_mission-IsSound env m w =
    after_governance-IsSound env m (record w { executions = w.executions + 1 }) env.governance
