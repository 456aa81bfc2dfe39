-- ===== src/Missions/Planner/Lookup.antt =====
-- The first two loops of `planMission`: distinct ids, and one entry of dependencies for each task.
use adam_os.Base.{
  dedup_from, contains-dedup, ◌≤◌, ◌≡◌, refl, ◌∙◌, ◌⊎◌, inl, inr, true, false, not, none, some,
  List, [], ◌∷◌, arith, Str, str_eq_iff, contains, count, contains-count, find, All, Any, lookup,
  insert, lookup-insert, ok, err, Option-cases, all_of_find-eq-none, find-eq-some, all-contains,
}
use adam_os.Missions.Types.{TaskDefinition, task_ids, dependencies}
use adam_os.Missions.Planner.{
  Deps, MissionPlanError, missing_dependency, first_duplicate, collect_deps,
}

-- No string of `seen` follows.
pub first_duplicate-none :
    (seen xs : List Str) (x : Str)
    → first_duplicate seen xs ≡ none
    → contains x seen ≡ true
    → contains x xs ≡ false
unfolding first_duplicate contains
first_duplicate-none seen [] x h m = refl
first_duplicate-none seen (y ∷ ys) x h m =
    ground (arith, first_duplicate-none (y ∷ seen) ys x, str_eq_iff x y)

pub first_duplicate-count-le :
    (seen xs : List Str) (x : Str) → first_duplicate seen xs ≡ none → count x xs ≤ 1
unfolding first_duplicate count contains
first_duplicate-count-le seen [] x h = omega arith
first_duplicate-count-le seen (y ∷ ys) x h = ground (
  arith,
  first_duplicate-count-le (y ∷ seen) ys x,
  first_duplicate-none (y ∷ seen) ys x,
  contains-count x ys,
)

pub first_duplicate-some :
    (seen xs : List Str) (x : Str)
    → first_duplicate seen xs ≡ some x
    → (1 ≤ count x xs) × ((contains x seen ≡ true) ⊎ (2 ≤ count x xs))
unfolding first_duplicate count contains
first_duplicate-some seen [] x h = ground arith
first_duplicate-some seen (y ∷ ys) x h =
    ground (arith, first_duplicate-some (y ∷ seen) ys x, str_eq_iff x y)

-- What the loop records of a task.
pub record Collected (ids : List Str) (deps : Deps) (t : TaskDefinition) : Type 0 where
  pub entry : lookup t.id deps ≡ some (dedup_from [] (dependencies t))
  pub known : (d : Str) → contains d (dependencies t) ≡ true → contains d ids ≡ true

distinct_tail :
    (seen : List Str) (x : Str) (xs : List Str)
    → first_duplicate seen (x ∷ xs) ≡ none
    → (contains x xs ≡ false) × (first_duplicate (x ∷ seen) xs ≡ none)
unfolding first_duplicate contains
distinct_tail seen x xs h =
    (ground (arith, first_duplicate-none (x ∷ seen) xs x, str_eq_iff x x), ground arith)

module _ (ids : List Str) where
  collect_deps-other :
      (acc : Deps) (ts : List TaskDefinition) (k : Str) {deps : Deps}
      → collect_deps ids acc ts ≡ ok deps
      → contains k (task_ids ts) ≡ false
      → lookup k deps ≡ lookup k acc
  unfolding collect_deps contains
  collect_deps-other acc [] k h m = ground arith
  collect_deps-other acc (t ∷ ts) k {deps} h m =
      let acc' = insert t.id (dedup_from [] (dependencies t)) acc in
      ground (
        arith,
        collect_deps-other acc' ts k {deps = deps},
        lookup-insert t.id k (dedup_from [] (dependencies t)) acc,
        str_eq_iff k t.id,
        str_eq_iff t.id k,
      )

  known_of_none :
      (t : TaskDefinition)
      → find (λ dep. not (contains dep ids)) (dedup_from [] (dependencies t)) ≡ none
      → (d : Str) → contains d (dependencies t) ≡ true
      → contains d ids ≡ true
  known_of_none t h d m =
      let passes = all_of_find-eq-none (λ dep. not (contains dep ids)) _ h in
      ground (
        arith,
        contains-dedup (dependencies t) d,
        all-contains (λ dep. not (not (contains dep ids))) d _ passes,
      )

  pub collect_deps-Collected :
      (acc : Deps) (seen : List Str) (ts : List TaskDefinition) {deps : Deps}
      → collect_deps ids acc ts ≡ ok deps
      → first_duplicate seen (task_ids ts) ≡ none
      → All (Collected ids deps) ts
  unfolding collect_deps
  collect_deps-Collected acc seen [] h e = tt
  collect_deps-Collected acc seen (t ∷ ts) {deps} h e =
      let d = dedup_from [] (dependencies t) in
      elim (Option-cases (find (λ dep. not (contains dep ids)) d)) [
        | inr (dep, missing) ↦ absurd (ground arith)
        | inl clear ↦
            let rest : collect_deps ids (insert t.id d acc) ts ≡ ok deps = ground arith in
            let (fresh, later) = distinct_tail seen t.id (task_ids ts) e in
            (
              record {
                entry =
                    collect_deps-other (insert t.id d acc) ts t.id rest fresh
                    ∙ ground (arith, lookup-insert t.id t.id d acc, str_eq_iff t.id t.id);
                known = known_of_none t clear;
              },
              collect_deps-Collected (insert t.id d acc) (t.id ∷ seen) ts rest later,
            )
      ]

  -- A refusal names a task and a dependency of it that is no task.
  pub collect_deps-err :
      (acc : Deps) (ts : List TaskDefinition) {e : MissionPlanError}
      → collect_deps ids acc ts ≡ err e
      → (x : Str) × (d : Str) × (e ≡ missing_dependency x d)
        × (contains d ids ≡ false)
        × Any (λ t. (t.id ≡ x) × (contains d (dependencies t) ≡ true)) ts
  unfolding collect_deps
  collect_deps-err acc [] h = absurd (ground arith)
  collect_deps-err acc (t ∷ ts) {e} h =
      let d = dedup_from [] (dependencies t) in
      elim (Option-cases (find (λ dep. not (contains dep ids)) d)) [
        | inr (dep, missing) ↦
            let (inside, outside) = find-eq-some (λ dep. not (contains dep ids)) d missing in
            (
              t.id,
              dep,
              ground arith,
              ground arith,
              inl (refl, ground (arith, contains-dedup (dependencies t) dep)),
            )
        | inl clear ↦
            let (x, dep, same, outside, here) =
              collect_deps-err (insert t.id d acc) ts (ground arith) in
            (x, dep, same, outside, inr here)
      ]
