-- ===== src/Missions/Planner/Spec.antt =====
-- What a plan of a mission is, and what justifies that a mission has none; no word of the algorithm.
use adam_os.Base.{
  ℕ, ◌≤◌, ◌<◌, ◌≡◌, true, false, List, [], ◌∷◌, ◌++◌, Str, contains, count, is_empty, flatten, Any,
  IsSorted,
}
use adam_os.Missions.Types.{MissionDefinition, task_ids, dependencies}
use adam_os.Missions.Planner.{
  ExecutionPlan, MissionPlanError, duplicate_task, missing_dependency, cycle,
}

-- A task with the id `x` declares the dependency `d`.
abbrev pub DependsOn : MissionDefinition → Str → Str → Type 0
DependsOn m x d = Any (λ t. (t.id ≡ x) × (contains d (dependencies t) ≡ true)) m.tasks

-- Each layer is sorted, is not empty, and depends on nothing but earlier layers.
abbrev pub InLayers : MissionDefinition → List Str → List (List Str) → Type 0
InLayers m before [] = Unit
InLayers m before (l ∷ ls) =
    (is_empty l ≡ false)
    × IsSorted l
    × ((x d : Str) → contains x l ≡ true → DependsOn m x d → contains d before ≡ true)
    × InLayers m (before ++ l) ls

pub record IsPlan (m : MissionDefinition) (p : ExecutionPlan) : Type 0 where
  pub flat : p.order ≡ flatten p.layers
  pub complete : (x : Str) → count x p.order ≡ count x (task_ids m.tasks)
  pub distinct : (x : Str) → count x p.order ≤ 1
  pub layered : InLayers m [] p.layers

-- The tasks of a cycle error are tasks of the mission, each with a dependency among them.
pub record IsCycle (m : MissionDefinition) (c : List Str) : Type 0 where
  pub inhabited : is_empty c ≡ false
  pub tasks : (x : Str) → contains x c ≡ true → contains x (task_ids m.tasks) ≡ true
  pub closed : (x : Str) → contains x c ≡ true → (d : Str) × DependsOn m x d × (contains d c ≡ true)

abbrev pub IsJustified : MissionDefinition → MissionPlanError → Type 0
IsJustified m (duplicate_task x) = 2 ≤ count x (task_ids m.tasks)
IsJustified m (missing_dependency x d) = DependsOn m x d × (contains d (task_ids m.tasks) ≡ false)
IsJustified m (cycle c) = IsCycle m c

-- A mission that a plan exists for: ids occur once, dependencies are tasks, and `rank` grows along
-- them.
pub record IsAcyclic (m : MissionDefinition) (rank : Str → ℕ) : Type 0 where
  pub once : (x : Str) → count x (task_ids m.tasks) ≤ 1
  pub known : (x d : Str) → DependsOn m x d → contains d (task_ids m.tasks) ≡ true
  pub grows : (x d : Str) → DependsOn m x d → rank d < rank x
