-- ===== src/Tests/Planner.antt =====
-- lib/missions/execution-planner.ts: a diamond of four tasks, a cycle, and a missing dependency.
use adam_os.Base.{
  ℕ, ◌≡◌, refl, inl, inr, none, some, List, [], ◌∷◌, arith, Str, str, str_eq, str_eq_iff, contains,
  count, lookup, insert, sort, str_leb, Result, ok, err,
}
use adam_os.Missions.Types.{TaskDefinition, MissionDefinition}
use adam_os.Missions.Planner.{
  ExecutionPlan, MissionPlanError, plan_mission, duplicate_task, missing_dependency, cycle,
}
use adam_os.Missions.Planner.Spec.{DependsOn, IsPlan, IsJustified, IsAcyclic}
use adam_os.Missions.Planner.Laws.{
  plan_mission-IsPlan, plan_mission-IsJustified, plan_mission_total, plan_mission_acyclic,
}

abbrev task : Str → List Str → TaskDefinition
task id deps = record {
  id = id;
  executor = str "e";
  depends_on = some deps;
  input = none;
  requires_approval = none;
  retry = none;
}

abbrev mission : List TaskDefinition → MissionDefinition
mission tasks = record { id = str "m"; name = none; tasks = tasks; object_types = none }

abbrev a : Str
a = str "a"

abbrev b : Str
b = str "b"

abbrev c : Str
c = str "c"

abbrev d : Str
d = str "d"

-- d needs b and c, which need a; declared out of order.
abbrev diamond : MissionDefinition
diamond = mission (task d (c ∷ b ∷ []) ∷ task c (a ∷ []) ∷ task b (a ∷ a ∷ []) ∷ task a [] ∷ [])

abbrev diamond_plan : ExecutionPlan
diamond_plan = record {
  layers = (a ∷ []) ∷ (b ∷ c ∷ []) ∷ (d ∷ []) ∷ [];
  order = a ∷ b ∷ c ∷ d ∷ [];
}

abbrev looped : MissionDefinition
looped = mission (task a (b ∷ []) ∷ task b (a ∷ []) ∷ task c [] ∷ [])

planner : Unit {0}
unfolding plan_mission str_eq contains count lookup insert sort str_leb
planner = tt

diamond_planned : plan_mission diamond ≡ some (ok diamond_plan)
unfolding planner
diamond_planned = refl

looped_refused : plan_mission looped ≡ some (err (cycle (a ∷ b ∷ [])))
unfolding planner
looped_refused = refl

missing_refused :
    plan_mission (mission (task a (d ∷ []) ∷ [])) ≡ some (err (missing_dependency a d))
unfolding planner
missing_refused = refl

duplicate_refused :
    plan_mission (mission (task a [] ∷ task a [] ∷ [])) ≡ some (err (duplicate_task a))
unfolding planner
duplicate_refused = refl

plan_mission-IsPlan_example : IsPlan diamond diamond_plan
plan_mission-IsPlan_example = plan_mission-IsPlan diamond {p = diamond_plan} diamond_planned

plan_mission-IsJustified_example : IsJustified looped (cycle (a ∷ b ∷ []))
plan_mission-IsJustified_example =
    plan_mission-IsJustified looped {e = cycle (a ∷ b ∷ [])} looped_refused

plan_mission_total_example :
    (r : Result MissionPlanError ExecutionPlan) × (plan_mission looped ≡ some r)
plan_mission_total_example = plan_mission_total looped

-- A chain of two tasks, ranked by the code of their name.
abbrev pair : MissionDefinition
pair = mission (task b (a ∷ []) ∷ task a [] ∷ [])

abbrev rank : Str → ℕ
rank [] = 0
rank (x ∷ xs) = x

-- The only dependency is that of `b` on `a`.
pair_depends : (x y : Str) → DependsOn pair x y → (b ≡ x) × (y ≡ a)
unfolding contains
pair_depends x y (inl (same, inside)) = (same, ground (arith, inside, str_eq_iff y a))
pair_depends x y (inr (inl (same, inside))) = absurd (ground (arith, inside))
pair_depends x y (inr (inr h)) = elim h [ ]

pair-IsAcyclic : IsAcyclic pair rank
unfolding contains count
pair-IsAcyclic = record {
  once = λ x. ground (arith, str_eq_iff x a, str_eq_iff x b);
  known = λ x y h. let (_, same) = pair_depends x y h in ground (arith, str_eq_iff y a);
  grows = λ x y h. let (here, there) = pair_depends x y h in rw (← here) (rw there (omega arith));
}

plan_mission_acyclic_example :
    (p : ExecutionPlan) × (plan_mission pair ≡ some (ok p)) × IsPlan pair p
plan_mission_acyclic_example = plan_mission_acyclic pair rank pair-IsAcyclic
