-- ===== src/Missions/Runtime/Exits.antt =====
-- How a run ends: what is persisted and counted, and what the state of the report says.
use adam_os.Base.{
  ℕ, suc, ◌+◌, ◌≡◌, ◌⊎◌, none, refl, ap, List, Option, some, inl, inr, ◌∷◌, arith, any, Str, Result,
  ok, err, Bool-cases, Option-cases, Result-cases,
}
use adam_os.Missions.Types.{
  MissionDefinition, failed, MissionExecutionState, blocked_mission, failed_mission,
  cancelled_mission, waiting_mission, completed_mission, GovernanceDecision, MissionEvent,
  MissionExecutionReport,
}
use adam_os.Missions.Planner.{plan_mission}
use adam_os.Missions.Runtime.{RunEnv, RunState, emit, is_state}
use adam_os.Missions.Runtime.Dispatch.{LayersEnd}
use adam_os.Missions.Runtime.Execute.{
  World, count_outcome, build_report, after_persist, finalize, resolve, run_plan, run_governed,
  after_layers, after_governance, execute_mission, is_blocked,
}

abbrev pub counter_of : MissionExecutionState → World → ℕ
counter_of blocked_mission w = w.blocked
counter_of failed_mission w = w.failed
counter_of cancelled_mission w = w.cancelled
counter_of waiting_mission w = w.waiting
counter_of completed_mission w = w.completed

-- One more mission in the state, and no more in any other
abbrev pub OneMore : MissionExecutionState → World → World → Type 0
OneMore state w after =
    (counter_of state after ≡ suc (counter_of state w))
    × ((other : MissionExecutionState)
        → ¬ (other ≡ state)
        → counter_of other after ≡ counter_of other w)

abbrev pub NoMore : World → World → Type 0
NoMore w after = (state : MissionExecutionState) → counter_of state after ≡ counter_of state w

-- A report that is returned has been put before the persisted ones and counted under its state. What
-- throws persists nothing; it counts nothing either, unless a report's insertion threw it.
abbrev pub IsRecorded : RunEnv → World → Result Str MissionExecutionReport × World → Type 0
IsRecorded env w (ok report, after) =
    (after.persisted ≡ report ∷ w.persisted)
    × OneMore report.execution_state w after
    × (after.executions ≡ w.executions)
IsRecorded env w (err thrown, after) =
    (after.persisted ≡ w.persisted)
    × (NoMore w after
        ⊎ ((report : MissionExecutionReport) × (env.persists report ≡ some thrown)
            × OneMore report.execution_state w after))
    × (after.executions ≡ w.executions)

count_outcome-OneMore :
    (state : MissionExecutionState) (w : World) (reports : List MissionExecutionReport)
    → OneMore state w (record (count_outcome state w) { persisted = reports })
count_outcome-OneMore blocked_mission w reports = (omega arith, others)
  where
    others :
        (o : MissionExecutionState)
        → ¬ (o ≡ blocked_mission)
        → counter_of o (record (count_outcome blocked_mission w) { persisted = reports })
          ≡ counter_of o w
    others blocked_mission n = absurd (n refl)
    others failed_mission n = refl
    others cancelled_mission n = refl
    others waiting_mission n = refl
    others completed_mission n = refl
count_outcome-OneMore failed_mission w reports = (omega arith, others)
  where
    others :
        (o : MissionExecutionState)
        → ¬ (o ≡ failed_mission)
        → counter_of o (record (count_outcome failed_mission w) { persisted = reports })
          ≡ counter_of o w
    others blocked_mission n = refl
    others failed_mission n = absurd (n refl)
    others cancelled_mission n = refl
    others waiting_mission n = refl
    others completed_mission n = refl
count_outcome-OneMore cancelled_mission w reports = (omega arith, others)
  where
    others :
        (o : MissionExecutionState)
        → ¬ (o ≡ cancelled_mission)
        → counter_of o (record (count_outcome cancelled_mission w) { persisted = reports })
          ≡ counter_of o w
    others blocked_mission n = refl
    others failed_mission n = refl
    others cancelled_mission n = absurd (n refl)
    others waiting_mission n = refl
    others completed_mission n = refl
count_outcome-OneMore waiting_mission w reports = (omega arith, others)
  where
    others :
        (o : MissionExecutionState)
        → ¬ (o ≡ waiting_mission)
        → counter_of o (record (count_outcome waiting_mission w) { persisted = reports })
          ≡ counter_of o w
    others blocked_mission n = refl
    others failed_mission n = refl
    others cancelled_mission n = refl
    others waiting_mission n = absurd (n refl)
    others completed_mission n = refl
count_outcome-OneMore completed_mission w reports = (omega arith, others)
  where
    others :
        (o : MissionExecutionState)
        → ¬ (o ≡ completed_mission)
        → counter_of o (record (count_outcome completed_mission w) { persisted = reports })
          ≡ counter_of o w
    others blocked_mission n = refl
    others failed_mission n = refl
    others cancelled_mission n = refl
    others waiting_mission n = refl
    others completed_mission n = absurd (n refl)

finalize-IsRecorded :
    (env : RunEnv) (m : MissionDefinition) (d : GovernanceDecision) (state : MissionExecutionState)
    (e : MissionEvent) (s : RunState) (w : World)
    → IsRecorded env w (finalize env m d state e s w)
unfolding finalize build_report after_persist
finalize-IsRecorded env m d state e s w =
    by_answer (env.persists (build_report env m d state (emit e s))) refl
  where
    same : (st : MissionExecutionState) → (count_outcome st w).executions ≡ w.executions
    same blocked_mission = refl
    same failed_mission = refl
    same cancelled_mission = refl
    same waiting_mission = refl
    same completed_mission = refl

    kept : (st : MissionExecutionState) → (count_outcome st w).persisted ≡ w.persisted
    kept blocked_mission = refl
    kept failed_mission = refl
    kept cancelled_mission = refl
    kept waiting_mission = refl
    kept completed_mission = refl

    report : MissionExecutionReport
    report = build_report env m d state (emit e s)

    by_answer :
        (o : Option Str)
        → env.persists report ≡ o
        → IsRecorded env w (after_persist report (count_outcome state w) o)
    by_answer none stored =
        (ap (λ rs. report ∷ rs) (kept state), count_outcome-OneMore state w _, same state)
    by_answer (some thrown) refused =
        (kept state, inr (report, refused, count_outcome-OneMore state w _), same state)

resolve-IsRecorded :
    (env : RunEnv) (m : MissionDefinition) (d : GovernanceDecision) (e : LayersEnd) (w : World)
    → IsRecorded env w (resolve env m d e w)
unfolding resolve
resolve-IsRecorded env m d e w = elim (Bool-cases (env.cancelled_at e.checks)) [
  | inl stopped ↦ rw stopped (finalize-IsRecorded env m d _ _ _ w)
  | inr runs ↦ elim (Bool-cases e.paused) [
    | inl paused ↦ rw runs (rw paused (finalize-IsRecorded env m d _ _ _ w))
    | inr through ↦ elim (Bool-cases (any (λ r. is_state r.state failed) e.run.records)) [
      | inl failing ↦ rw runs (rw through (rw failing (finalize-IsRecorded env m d _ _ _ w)))
      | inr clean ↦ rw runs (rw through (rw clean (finalize-IsRecorded env m d _ _ _ w)))
    ]
  ]
]

after_layers-IsRecorded :
    (env : RunEnv) (m : MissionDefinition) (d : GovernanceDecision) (w : World)
    (r : Result Str LayersEnd)
    → IsRecorded env w (after_layers env m d w r)
unfolding after_layers
after_layers-IsRecorded env m d w (ok e) = resolve-IsRecorded env m d e w
after_layers-IsRecorded env m d w (err thrown) = (refl, inl (λ s. refl), refl)

-- What follows governance, by the way it takes.
run_governed-IsRecorded :
    (env : RunEnv) (m : MissionDefinition) (d : GovernanceDecision) (w : World)
    → IsRecorded env w (run_governed env m d w)
unfolding run_governed run_plan
run_governed-IsRecorded env m d w = elim (Bool-cases (is_blocked d.execution_decision)) [
  | inl stopped ↦ rw stopped (finalize-IsRecorded env m d _ _ _ w)
  | inr passes ↦ elim (Option-cases (plan_mission m)) [
    | inl open_ ↦ rw passes (rw open_ (finalize-IsRecorded env m d _ _ _ w))
    | inr (r, answer) ↦ elim (Result-cases r) [
      | inl (p, planned) ↦ rw passes (rw answer (rw planned (after_layers-IsRecorded env m d w _)))
      | inr (e, refused) ↦ rw passes (rw answer (rw refused (finalize-IsRecorded env m d _ _ _ w)))
    ]
  ]
]

after_governance-IsRecorded :
    (env : RunEnv) (m : MissionDefinition) (w : World) (g : Result Str GovernanceDecision)
    → IsRecorded env w (after_governance env m w g)
unfolding after_governance
after_governance-IsRecorded env m w (ok d) = run_governed-IsRecorded env m d w
after_governance-IsRecorded env m w (err thrown) = (refl, inl (λ s. refl), refl)

-- A report that `executeMission` returns is persisted once, before what was there, and counted under
-- its state and no other. An execution that throws persists nothing; it counts no outcome, unless it
-- throws what the insertion of a report threw, and then it counts that report's state. Both count an
-- execution.
pub execute_mission-IsRecorded :
    (env : RunEnv) (m : MissionDefinition) (w : World)
    → IsRecorded env (record w { executions = w.executions + 1 }) (execute_mission env m w)
unfolding execute_mission
execute_mission-IsRecorded env m w =
    after_governance-IsRecorded env m (record w { executions = w.executions + 1 }) env.governance
