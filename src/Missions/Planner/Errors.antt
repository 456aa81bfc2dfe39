-- ===== src/Missions/Planner/Errors.antt =====
-- The loop of `planMission` stops with a cycle only at tasks that depend on one another.
use adam_os.Base.{
  ℕ, zero, suc, ◌+◌, ◌≡◌, refl, inl, inr, true, false, some, List, [], ◌∷◌, arith, Str, contains,
  count, contains-count, contains-sort, count-append, count-filter, filter,
  all-contains_counterexample, or_else, lookup, is_empty, sort, err, Bool-cases, length,
  length-sort,
}
use adam_os.Missions.Planner.{
  Deps, PlanState, MissionPlanError, cycle, is_ready, next_layer, take_layer, plan_loop, start,
}
use adam_os.Missions.Planner.Layers.{count-take_layer}

-- Every task is done or remains.
abbrev pub Splits : List Str → PlanState → Type 0
Splits ids s = (x : Str) → count x s.done + count x s.remaining ≡ count x ids

pub Splits-start : (ids : List Str) → Splits ids (start ids)
unfolding count
Splits-start ids x = omega arith

Splits-take_layer :
    (ids : List Str) (deps : Deps) (s : PlanState)
    → Splits ids s
    → Splits ids (take_layer s (next_layer deps s))
Splits-take_layer ids deps s h x =
    omega (arith, h x, count-take_layer deps s x, done-take_layer s (next_layer deps s) x)
  where
    done-take_layer :
        (r : PlanState) (layer : List Str) (a : Str)
        → count a (take_layer r layer).done ≡ count a r.done + count a layer
    done-take_layer r layer a = unfold take_layer in count-append a r.done layer

pub record Stuck (ids : List Str) (deps : Deps) (c : List Str) : Type 0 where
  pub inhabited : is_empty c ≡ false
  pub tasks : (x : Str) → contains x c ≡ true → contains x ids ≡ true
  pub closed :
      (x : Str)
      → contains x c ≡ true
      → (d : Str) × (contains d (or_else (lookup x deps) []) ≡ true)
        × (contains d ids ≡ true → contains d c ≡ true)

is_empty-sort : (xs : List Str) → is_empty (sort xs) ≡ is_empty xs
is_empty-sort xs = grow (length-sort xs)
  where
    by_length : (l : List Str) → is_empty l ≡ (elim (length l) [ zero ↦ true | suc _ ↦ false ])
    by_length [] = refl
    by_length (x ∷ l) = refl

    grow : length (sort xs) ≡ length xs → is_empty (sort xs) ≡ is_empty xs
    grow e = ground (arith, by_length xs, by_length (sort xs))

module _ (ids : List Str) (deps : Deps) (s : PlanState) (splits : Splits ids s) where
  not_ready :
      (x : Str)
      → is_empty (next_layer deps s) ≡ true
      → contains x s.remaining ≡ true
      → is_ready deps s.done x ≡ false
  unfolding next_layer count
  not_ready x h m =
      let ready = filter (is_ready deps s.done) s.remaining in
      ground (
        arith,
        h,
        is_empty-sort ready,
        nothing ready h',
        count-filter x (is_ready deps s.done) s.remaining,
        contains-count x s.remaining,
      )
    where
      nothing : (l : List Str) → is_empty l ≡ true → count x l ≡ 0
      nothing [] e = refl
      nothing (y ∷ l) e = ground arith

      h' : is_empty (filter (is_ready deps s.done) s.remaining) ≡ true
      h' = rw (← is_empty-sort (filter (is_ready deps s.done) s.remaining)) h

  Stuck-sort :
      is_empty s.remaining ≡ false
      → is_empty (next_layer deps s) ≡ true
      → Stuck ids deps (sort s.remaining)
  unfolding is_ready
  Stuck-sort more stuck = record {
    inhabited = rw (is_empty-sort s.remaining) more;
    tasks = λ x m. ground (
      arith,
      m,
      splits x,
      contains-count x ids,
      contains-count x s.remaining,
      contains-sort x s.remaining,
    );
    closed = λ x m.
        let (d, inside, open_) =
          all-contains_counterexample (λ d. contains d s.done) (or_else (lookup x deps) [])
            (not_ready x stuck (rw (← contains-sort x s.remaining) m)) in
        (
          d,
          inside,
          λ k. ground (
            arith,
            k,
            open_,
            splits d,
            contains-count d ids,
            contains-count d s.done,
            contains-count d s.remaining,
            contains-sort d s.remaining,
          ),
        );
  }

pub plan_loop-Stuck :
    (fuel : ℕ) (ids : List Str) (deps : Deps) (s : PlanState) {e : MissionPlanError}
    → Splits ids s
    → plan_loop fuel deps s ≡ some (err e)
    → (c : List Str) × (e ≡ cycle c) × Stuck ids deps c
unfolding plan_loop
plan_loop-Stuck zero ids deps s splits h = absurd (ground arith)
plan_loop-Stuck (suc fuel) ids deps s splits h = elim (Bool-cases (is_empty s.remaining)) [
  | inl done ↦ absurd (ground arith)
  | inr more ↦ elim (Bool-cases (is_empty (next_layer deps s))) [
    | inl stuck ↦ (sort s.remaining, ground arith, Stuck-sort ids deps s splits more stuck)
    | inr some_ready ↦
        plan_loop-Stuck fuel ids deps (take_layer s (next_layer deps s))
          (Splits-take_layer ids deps s splits) (ground arith)
  ]
]
