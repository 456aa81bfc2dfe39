-- ===== src/Missions/Planner/Layers.antt =====
-- The loop of `planMission` against its accumulators: what it appends, and that it ends.
use adam_os.Base.{
  ℕ, zero, suc, ◌+◌, ◌<◌, ◌≡◌, refl, sym, ap, ◌∙◌, inl, inr, Bool, true, false, not, some, List, [],
  ◌∷◌, ◌++◌, arith, Str, contains, count, filter, all, length, flatten, is_empty, sort, IsSorted,
  sort-IsSorted, count-sort, contains-count, count-filter, count-append, all-sort, all-filter,
  Result, ok, err, Bool-cases, str_eq_refl, length-filter-lt,
}
use mathlib.Core.List.{append-nil, append_assoc}
use adam_os.Missions.Planner.{
  Deps, ExecutionPlan, MissionPlanError, PlanState, is_ready, next_layer, take_layer, plan_loop,
}

-- Each layer is sorted, is not empty, and is ready once the layers before it are done.
abbrev pub Layered : (List Str → Str → Bool) → List Str → List (List Str) → Type 0
Layered ready before [] = Unit
Layered ready before (l ∷ ls) =
    (is_empty l ≡ false)
    × IsSorted l
    × (all (ready before) l ≡ true)
    × Layered ready (before ++ l) ls

is_empty-eq : (xs : List Str) → is_empty xs ≡ true → xs ≡ []
is_empty-eq [] h = refl
is_empty-eq (x ∷ xs) h = ground arith

-- A round moves each task of the layer out of the remaining ones.
pub count-take_layer :
    (deps : Deps) (s : PlanState) (x : Str)
    → count x (next_layer deps s) + count x (take_layer s (next_layer deps s)).remaining
      ≡ count x s.remaining
unfolding next_layer take_layer
count-take_layer deps s x =
    let layer = filter (is_ready deps s.done) s.remaining in
    ground (
      arith,
      count-filter x (is_ready deps s.done) s.remaining,
      count-sort x layer,
      contains-count x (sort layer),
      count-filter x (λ (tid : Str). not (contains tid (sort layer))) s.remaining,
    )

next_layer-ready :
    (deps : Deps) (s : PlanState) → all (is_ready deps s.done) (next_layer deps s) ≡ true
unfolding next_layer
next_layer-ready deps s =
    all-sort (is_ready deps s.done) (filter (is_ready deps s.done) s.remaining)
    ∙ all-filter (is_ready deps s.done) s.remaining

next_layer-IsSorted : (deps : Deps) (s : PlanState) → IsSorted (next_layer deps s)
unfolding next_layer
next_layer-IsSorted deps s = sort-IsSorted (filter (is_ready deps s.done) s.remaining)

-- What the loop adds to the layers and to the order that it starts from.
pub record Appends (deps : Deps) (s : PlanState) (p : ExecutionPlan) (ls : List (List Str))
    : Type 0 where
  pub layers : p.layers ≡ s.layers ++ ls
  pub order : p.order ≡ s.order ++ flatten ls
  pub layered : Layered (is_ready deps) s.done ls
  pub once : (x : Str) → count x (flatten ls) ≡ count x s.remaining

module _ (deps : Deps) (s : PlanState) (p : ExecutionPlan) where
  Appends-nil :
      is_empty s.remaining ≡ true
      → p ≡ record { layers = s.layers; order = s.order }
      → Appends deps s p []
  unfolding count
  Appends-nil done e = record {
    layers = ap (λ q. q.layers) e ∙ sym (append-nil _);
    order = ap (λ q. q.order) e ∙ sym (append-nil _);
    layered = tt;
    once = λ x. rw (is_empty-eq s.remaining done) refl;
  }

  Appends-cons :
      (ls : List (List Str))
      → is_empty (next_layer deps s) ≡ false
      → Appends deps (take_layer s (next_layer deps s)) p ls
      → Appends deps s p (next_layer deps s ∷ ls)
  unfolding take_layer
  Appends-cons ls some_ready a = record {
    layers = a.layers ∙ append_assoc s.layers (next_layer deps s ∷ []) ls;
    order = a.order ∙ append_assoc s.order (next_layer deps s) (flatten ls);
    layered = (some_ready, next_layer-IsSorted deps s, next_layer-ready deps s, a.layered);
    once = λ x. omega (
      arith,
      a.once x,
      count-take_layer deps s x,
      count-append x (next_layer deps s) (flatten ls),
    );
  }

-- A plan lists the remaining tasks, each once more, in layers.
pub plan_loop-Appends :
    (fuel : ℕ) (deps : Deps) (s : PlanState) {p : ExecutionPlan}
    → plan_loop fuel deps s ≡ some (ok p)
    → (ls : List (List Str)) × Appends deps s p ls
unfolding plan_loop
plan_loop-Appends zero deps s h = ground arith
plan_loop-Appends (suc fuel) deps s {p} h = elim (Bool-cases (is_empty s.remaining)) [
  | inl done ↦ ([], Appends-nil deps s p done (ground arith))
  | inr more ↦ elim (Bool-cases (is_empty (next_layer deps s))) [
    | inl stuck ↦ absurd (ground arith)
    | inr some_ready ↦
        let (ls, a) =
          plan_loop-Appends fuel deps (take_layer s (next_layer deps s)) (ground arith) in
        (next_layer deps s ∷ ls, Appends-cons deps s p ls some_ready a)
  ]
]

member : (xs : List Str) → is_empty xs ≡ false → (x : Str) × (contains x xs ≡ true)
unfolding contains
member [] h = ground arith
member (x ∷ xs) h = (x, ground (arith, str_eq_refl x))

-- Each round takes at least one task, so one round more than there are tasks is enough.
length-take_layer :
    (deps : Deps) (s : PlanState)
    → is_empty (next_layer deps s) ≡ false
    → length (take_layer s (next_layer deps s)).remaining < length s.remaining
unfolding take_layer
length-take_layer deps s h =
    let (x, inside) = member (next_layer deps s) h in
    length-filter-lt (λ (tid : Str). not (contains tid (next_layer deps s))) x s.remaining
      (rw inside refl)
      (ground (
        arith,
        inside,
        contains-count x (next_layer deps s),
        contains-count x s.remaining,
        count-take_layer deps s x,
      ))

pub plan_loop_total :
    (fuel : ℕ) (deps : Deps) (s : PlanState)
    → length s.remaining < fuel
    → (r : Result MissionPlanError ExecutionPlan) × (plan_loop fuel deps s ≡ some r)
unfolding plan_loop
plan_loop_total zero deps s h = elim h [ ]
plan_loop_total (suc fuel) deps s h = elim (Bool-cases (is_empty s.remaining)) [
  | inl done ↦ (ok (record { layers = s.layers; order = s.order }), rw done refl)
  | inr more ↦ elim (Bool-cases (is_empty (next_layer deps s))) [
    | inl stuck ↦ (err (MissionPlanError.cycle (sort s.remaining)), rw more (rw stuck refl))
    | inr some_ready ↦ rw more (
        rw some_ready (
          plan_loop_total fuel deps (take_layer s (next_layer deps s))
            (omega (arith, length-take_layer deps s some_ready, h))))
  ]
]
