-- ===== src/Missions/Planner.antt =====
-- lib/missions/execution-planner.ts: dependency layers by Kahn's algorithm.
pub mod Spec
pub mod Errors
pub mod Layers
pub mod Lookup
pub mod Laws
use adam_os.Base.{
  dedup_from, ℕ, zero, suc, Bool, true, false, not, Option, none, some, List, [], ◌∷◌, ◌++◌, Str,
  contains, filter, all, find, length, is_empty, lookup, insert, sort, or_else, if◌then◌else◌,
  Result, ok, err,
}
use adam_os.Missions.Types.{TaskDefinition, MissionDefinition, task_ids, dependencies}

pub record ExecutionPlan : Type 0 where
  pub layers : List (List Str)
  pub order : List Str

-- `MissionPlanError`: its code with its detail
pub data MissionPlanError : Type 0 where
  duplicate_task : Str → MissionPlanError
  missing_dependency : Str → Str → MissionPlanError
  cycle : List Str → MissionPlanError

-- The first loop of `planMission`: `seen` is `idSet` as it fills.
pub first_duplicate : List Str → List Str → Option Str
first_duplicate seen [] = none
first_duplicate seen (tid ∷ tids) =
    let rest = first_duplicate (tid ∷ seen) tids in if contains tid seen then some tid else rest

abbrev pub Deps : Type 0
Deps = List (Str × List Str)

-- The second loop: every dependency must be a task, and `deps.set(t.id, d)`.
pub collect_deps : List Str → Deps → List TaskDefinition → Result MissionPlanError Deps
collect_deps ids acc [] = ok acc
collect_deps ids acc (t ∷ ts) =
    let d = dedup_from [] (dependencies t) in
    let rest = collect_deps ids (insert t.id d acc) ts in
    elim (find (λ dep. not (contains dep ids)) d) [
      | some dep ↦ err (missing_dependency t.id dep)
      | none ↦ rest
    ]

-- `deps.get(tid)!.every((d) => done.has(d))`; every task has its entry
pub is_ready : Deps → List Str → Str → Bool
is_ready deps done tid = all (λ d. contains d done) (or_else (lookup tid deps) [])

-- The variables of the loop.
pub record PlanState : Type 0 where
  pub remaining : List Str
  pub layers : List (List Str)
  pub order : List Str
  pub done : List Str

pub next_layer : Deps → PlanState → List Str
next_layer deps s = sort (filter (is_ready deps s.done) s.remaining)

pub take_layer : PlanState → List Str → PlanState
take_layer s layer = record {
  remaining = filter (λ tid. not (contains tid layer)) s.remaining;
  layers = s.layers ++ layer ∷ [];
  order = s.order ++ layer;
  done = s.done ++ layer;
}

-- The `while` loop; `none` is out of fuel.
pub plan_loop : ℕ → Deps → PlanState → Option (Result MissionPlanError ExecutionPlan)
plan_loop zero deps s = none
plan_loop (suc fuel) deps s =
    let layer = next_layer deps s in
    let rest = plan_loop fuel deps (take_layer s layer) in
    if is_empty s.remaining
    then some (ok (record { layers = s.layers; order = s.order }))
    else if is_empty layer
    then some (err (cycle (sort s.remaining)))
    else rest

abbrev pub start : List Str → PlanState
start ids = record { remaining = ids; layers = []; order = []; done = [] }

-- One round for each task, and one to stop.
unfoldable pub plan_mission : MissionDefinition → Option (Result MissionPlanError ExecutionPlan)
unfolding first_duplicate dedup_from collect_deps is_ready next_layer take_layer plan_loop
plan_mission mission =
    let ids = task_ids mission.tasks in
    let planned = λ (deps : Deps). plan_loop (suc (length ids)) deps (start ids) in
    elim (first_duplicate [] ids) [
      | some tid ↦ some (err (duplicate_task tid))
      | none ↦ elim (collect_deps ids [] mission.tasks) [
        | err e ↦ some (err e)
        | ok deps ↦ planned deps
      ]
    ]
