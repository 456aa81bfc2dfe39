-- ===== src/Missions/Planner/Laws.antt =====
-- `planMission` against its specification: its plans, its refusals, and that it answers.
use adam_os.Base.{
  contains-dedup, ℕ, zero, suc, ◌≤◌, ◌<◌, ◌≡◌, sym, ap, ◌∙◌, ◌⊎◌, inl, inr, true, false, Option,
  none, some, List, [], ◌∷◌, ◌++◌, arith, Str, contains, count, all-contains, All, Any, or_else,
  lookup, flatten, length, Result, ok, err, Bool-cases, Option-cases, Result-cases, str_eq,
  str_eq_iff, str_eq_refl,
}
use adam_os.Missions.Types.{TaskDefinition, MissionDefinition, task_ids, dependencies}
use adam_os.Missions.Planner.{
  Deps, ExecutionPlan, MissionPlanError, duplicate_task, missing_dependency, cycle, first_duplicate,
  collect_deps, is_ready, plan_loop, plan_mission, start,
}
use adam_os.Missions.Planner.Spec.{DependsOn, InLayers, IsPlan, IsCycle, IsJustified, IsAcyclic}
use adam_os.Missions.Planner.Layers.{Layered, Appends, plan_loop-Appends, plan_loop_total}
use adam_os.Missions.Planner.Lookup.{
  Collected, first_duplicate-count-le, first_duplicate-some, collect_deps-Collected,
  collect_deps-err,
}
use adam_os.Missions.Planner.Errors.{Stuck, Splits-start, plan_loop-Stuck}

-- A declared dependency is in the map that the loop reads.
entry_of :
    (ids : List Str) (deps : Deps) (ts : List TaskDefinition) (x d : Str)
    → All (Collected ids deps) ts
    → Any (λ t. (t.id ≡ x) × (contains d (dependencies t) ≡ true)) ts
    → (contains d (or_else (lookup x deps) []) ≡ true) × (contains d ids ≡ true)
entry_of ids deps [] x d c h = elim h [ ]
entry_of ids deps (t ∷ ts) x d c (inr h) = entry_of ids deps ts x d c.1 h
entry_of ids deps (t ∷ ts) x d c (inl (same, inside)) =
    (rw (← same) (rw (c.0.entry) (contains-dedup (dependencies t) d ∙ inside)), c.0.known d inside)

-- And what is in the map of a task is declared.
declared_of :
    (ids : List Str) (deps : Deps) (ts : List TaskDefinition) (x d : Str)
    → All (Collected ids deps) ts
    → contains x (task_ids ts) ≡ true
    → contains d (or_else (lookup x deps) []) ≡ true
    → Any (λ t. (t.id ≡ x) × (contains d (dependencies t) ≡ true)) ts
unfolding contains
declared_of ids deps [] x d c m h = absurd (ground arith)
declared_of ids deps (t ∷ ts) x d c m h = elim (Bool-cases (str_eq x t.id)) [
  | inl here ↦
      let same : t.id ≡ x = sym ((str_eq_iff x t.id).0 here) in
      inl (same, ground (arith, h, c.0.entry, contains-dedup (dependencies t) d))
  | inr other ↦ inr (declared_of ids deps ts x d c.1 (ground arith) h)
]

err_eq :
    {a b : MissionPlanError}
    → ◌≡◌ {A = Option (Result MissionPlanError ExecutionPlan)} (some (err a)) (some (err b))
    → a ≡ b
err_eq h = cc

module _ (m : MissionDefinition) where
  -- The three ways through the first two loops, with what `planMission` is then.
  data Stage : Type 0 where
    duplicated :
        (x : Str)
        → first_duplicate [] (task_ids m.tasks) ≡ some x
        → plan_mission m ≡ some (err (duplicate_task x))
        → Stage
    missing :
        (e : MissionPlanError)
        → collect_deps (task_ids m.tasks) [] m.tasks ≡ err e
        → plan_mission m ≡ some (err e)
        → Stage
    collected :
        (deps : Deps)
        → first_duplicate [] (task_ids m.tasks) ≡ none
        → All (Collected (task_ids m.tasks) deps) m.tasks
        → plan_mission m
          ≡ plan_loop (suc (length (task_ids m.tasks))) deps (start (task_ids m.tasks))
        → Stage

  stage : Stage
  unfolding plan_mission
  stage = elim (Option-cases (first_duplicate [] (task_ids m.tasks))) [
    | inr (x, e) ↦ duplicated x e (ground arith)
    | inl clear ↦ elim (Result-cases (collect_deps (task_ids m.tasks) [] m.tasks)) [
      | inr (e, h) ↦ missing e h (ground arith)
      | inl (deps, h) ↦
          collected deps clear (collect_deps-Collected (task_ids m.tasks) [] [] m.tasks h clear)
            (ground arith)
    ]
  ]

  InLayers-Layered :
      (deps : Deps) (before : List Str) (ls : List (List Str))
      → All (Collected (task_ids m.tasks) deps) m.tasks
      → Layered (is_ready deps) before ls
      → InLayers m before ls
  unfolding is_ready
  InLayers-Layered deps before [] c h = tt
  InLayers-Layered deps before (l ∷ ls) c h = (
    h.0,
    h.1,
    λ x d inside depends.
        all-contains (λ a. contains a before) d (or_else (lookup x deps) [])
          (all-contains (is_ready deps before) x l h.2 inside)
          (entry_of (task_ids m.tasks) deps m.tasks x d c depends).0,
    InLayers-Layered deps (before ++ l) ls c h.3,
  )

  -- A mission that is planned gets a plan: every task once, in layers that are sorted, not empty,
  -- and depend on earlier layers only.
  pub plan_mission-IsPlan : {p : ExecutionPlan} → plan_mission m ≡ some (ok p) → IsPlan m p
  plan_mission-IsPlan {p} h = by_stage stage
    where
      from_loop :
          (deps : Deps) (ls : List (List Str))
          → first_duplicate [] (task_ids m.tasks) ≡ none
          → All (Collected (task_ids m.tasks) deps) m.tasks
          → Appends deps (start (task_ids m.tasks)) p ls
          → IsPlan m p
      from_loop deps ls clear c a = record {
        flat = a.order ∙ ap flatten (sym a.layers);
        complete = λ x. ap (count x) a.order ∙ a.once x;
        distinct = λ x.
            rw (a.order) (rw (a.once x) (first_duplicate-count-le [] (task_ids m.tasks) x clear));
        layered = rw (a.layers) (InLayers-Layered deps [] ls c a.layered);
      }

      by_stage : Stage → IsPlan m p
      by_stage (duplicated x e r) = absurd (ground (arith, h, r))
      by_stage (missing e c r) = absurd (ground (arith, h, r))
      by_stage (collected deps clear c r) =
          let (ls, a) =
            plan_loop-Appends (suc (length (task_ids m.tasks))) deps (start (task_ids m.tasks))
              (sym r ∙ h) in
          from_loop deps ls clear c a

  IsCycle-Stuck :
      (deps : Deps) (c : List Str)
      → All (Collected (task_ids m.tasks) deps) m.tasks
      → Stuck (task_ids m.tasks) deps c
      → IsCycle m c
  IsCycle-Stuck deps c collection s = record {
    inhabited = s.inhabited;
    tasks = s.tasks;
    closed = λ x inside.
        let (d, entry, in_c) = s.closed x inside in
        let depends =
          declared_of (task_ids m.tasks) deps m.tasks x d collection (s.tasks x inside) entry in
        (d, depends, in_c (entry_of (task_ids m.tasks) deps m.tasks x d collection depends).1);
  }

  -- A refusal is justified: the id is there twice, the dependency is declared and is no task, or
  -- the tasks of the cycle each depend on another of them.
  pub plan_mission-IsJustified :
      {e : MissionPlanError} → plan_mission m ≡ some (err e) → IsJustified m e
  plan_mission-IsJustified {e} h = by_stage stage
    where
      as_cycle : (c : List Str) → e ≡ cycle c → IsCycle m c → IsJustified m e
      as_cycle c same j = rw same j

      as_missing :
          (x d : Str)
          → e ≡ missing_dependency x d
          → DependsOn m x d × (contains d (task_ids m.tasks) ≡ false)
          → IsJustified m e
      as_missing x d same j = rw same j

      by_stage : Stage → IsJustified m e
      by_stage (duplicated x twice r) =
          rw (err_eq (sym h ∙ r)) (two (first_duplicate-some [] (task_ids m.tasks) x twice).1)
        where
          two :
              (contains x [] ≡ true) ⊎ (2 ≤ count x (task_ids m.tasks))
              → 2 ≤ count x (task_ids m.tasks)
          two (inl n) = absurd (unfold contains in (cc))
          two (inr t) = t
      by_stage (missing e' c r) =
          let (x, d, same, outside, depends) = collect_deps-err (task_ids m.tasks) [] m.tasks c in
          as_missing x d (err_eq (sym h ∙ r) ∙ same) (depends, outside)
      by_stage (collected deps clear c r) =
          let (cs, same, s) =
            plan_loop-Stuck (suc (length (task_ids m.tasks))) (task_ids m.tasks) deps
              (start (task_ids m.tasks)) (Splits-start (task_ids m.tasks)) (sym r ∙ h) in
          as_cycle cs same (IsCycle-Stuck deps cs c s)

  -- The planner answers: the rounds that it is given are enough.
  pub plan_mission_total : (r : Result MissionPlanError ExecutionPlan) × (plan_mission m ≡ some r)
  plan_mission_total = by_stage stage
    where
      by_stage : Stage → (r : Result MissionPlanError ExecutionPlan) × (plan_mission m ≡ some r)
      by_stage (duplicated x e r) = (err (duplicate_task x), r)
      by_stage (missing e c r) = (err e, r)
      by_stage (collected deps clear c r) = rw r (
          plan_loop_total (suc (length (task_ids m.tasks))) deps (start (task_ids m.tasks))
            (omega arith))

  -- A mission whose ids are distinct, whose dependencies are tasks and whose dependencies descend
  -- in some rank is planned.
  module _ (rank : Str → ℕ) (acyclic : IsAcyclic m rank) where
    no_cycle : (n : ℕ) (c : List Str) (x : Str) → IsCycle m c → contains x c ≡ true → rank x < n → ⊥
    no_cycle zero c x cyc inside h = elim h [ ]
    no_cycle (suc n) c x cyc inside h =
        let (d, depends, again) = cyc.closed x inside in
        no_cycle n c d cyc again (omega (arith, acyclic.grows x d depends))

    unjustified : (e : MissionPlanError) → IsJustified m e → ⊥
    unjustified (duplicate_task x) j = omega (arith, acyclic.once x)
    unjustified (missing_dependency x d) j = absurd (ground (arith, acyclic.known x d j.0))
    unjustified (cycle []) j = absurd (ground (arith, j.inhabited))
    unjustified (cycle (x ∷ c)) j =
        no_cycle (suc (rank x)) (x ∷ c) x j (unfold contains in rw (str_eq_refl x)) (omega arith)

    pub plan_mission_acyclic : (p : ExecutionPlan) × (plan_mission m ≡ some (ok p)) × IsPlan m p
    plan_mission_acyclic = by_result (plan_mission_total.0) (plan_mission_total.1)
      where
        by_result :
            (r : Result MissionPlanError ExecutionPlan)
            → plan_mission m ≡ some r
            → (p : ExecutionPlan) × (plan_mission m ≡ some (ok p)) × IsPlan m p
        by_result (ok p) h = (p, h, plan_mission-IsPlan h)
        by_result (err e) h = absurd (unjustified e (plan_mission-IsJustified h))
