-- ===== src/Control/Actions/Found.antt =====
-- What a call leaves in the store, for a search of the store by a test.
use adam_os.Base.{
  ◌≡◌, Bool, true, false, not, ◌&&◌, inl, inr, Option, none, some, [], ◌∷◌, arith, Str, str_eq,
  str_eq_refl, lookup, insert, filter, map, all, Value, Result, ok, err, if◌then◌else◌, Bool-cases,
}
use adam_os.Core.Collection.{Row, Rows, patch_row, update_row, first, is_of, find_row, list_rows}
use adam_os.Control.Actions.{
  ActionExecution, ActionHandler, ActionEnv, ActionEvent, ExecuteActionInput, World, Outcome, saved,
  patch_execution, noted, block, count_failure, ran, run_marked, run_handler, given,
  lacks_permission, is_denied, needs_policy, needs_review, await_policy, await_review, pass_gates,
}

-- The rows that meet the test are at most the first one under the id.
abbrev pub only_at : (Row ActionExecution → Bool) → Str → Rows ActionExecution → Bool
only_at q id [] = true
only_at q id ((j, x) ∷ rows) =
    if str_eq j id then all (λ e. not (q e.1)) rows else not (q x) && only_at q id rows

module _ (q : Row ActionExecution → Bool) (id : Str) where
  none-only_at :
      (r : Row ActionExecution) (rows : Rows ActionExecution)
      → first (filter q (map (λ e. e.1) rows)) ≡ none
      → (all (λ e. not (q e.1)) rows ≡ true) × (only_at q id (insert id r rows) ≡ true)
  unfolding insert
  none-only_at r [] h = ground (arith, str_eq_refl id)
  none-only_at r ((j, x) ∷ rows) h = elim (Bool-cases (q x)) [
    | inl here ↦ absurd (ground (arith, h, here))
    | inr other ↦
        let (quiet, only) = none-only_at r rows (ground (arith, h, other)) in
        (ground (arith, quiet, other), ground (arith, quiet, only, other))
  ]

  insert-only_at :
      (r : Row ActionExecution) (rows : Rows ActionExecution)
      → only_at q id rows ≡ true
      → only_at q id (insert id r rows) ≡ true
  unfolding insert
  insert-only_at r [] h = ground (arith, str_eq_refl id)
  insert-only_at r ((j, x) ∷ rows) h = elim (Bool-cases (str_eq j id)) [
    | inl here ↦ ground (arith, h, here)
    | inr other ↦ ground (arith, h, other, insert-only_at r rows)
  ]

  first-only_at :
      (r : Row ActionExecution) (rows : Rows ActionExecution)
      → only_at q id rows ≡ true
      → lookup id rows ≡ some r
      → q r ≡ true
      → first (filter q (map (λ e. e.1) rows)) ≡ some r
  unfolding lookup
  first-only_at r [] h found meets = absurd (ground (arith, found))
  first-only_at r ((j, x) ∷ rows) h found meets = elim (Bool-cases (str_eq j id)) [
    | inl here ↦ ground (arith, found, meets, here)
    | inr other ↦ ground (arith, h, found, meets, other, first-only_at r rows)
  ]

-- What holds of the store and is kept by writes under an id is kept by what follows the insertion.
module _ (id : Str) (Holds : Rows ActionExecution → Type 0)
    (writes : (r : Row ActionExecution) (rows : Rows ActionExecution)
      → Holds rows
      → Holds (insert id r rows)) where
  Left : Outcome → Type 0
  Left o = Holds o.1.executions

  patch-Left :
      (patch : ActionExecution → ActionExecution) (w : World)
      → Holds w.executions
      → Left (patch_execution id patch w)
  unfolding Left patch_execution update_row patch_row
  patch-Left patch w h = by_row (lookup id w.executions)
    where
      by_row :
          (o : Option (Row ActionExecution)) → Left (saved w (patch_row id patch o w.executions))
      by_row none = h
      by_row (some r) = writes _ w.executions h

  noted-Left : (e : ActionEvent) (o : Outcome) → Left o → Left (noted e id o)
  unfolding Left
  noted-Left e (ok r, w) h = h
  noted-Left e (err x, w) h = h

  count_failure-Left :
      (env : ActionEnv) (key : Str) (o : Outcome) → Left o → Left (count_failure env key o)
  unfolding Left count_failure
  count_failure-Left env key (ok r, w) h = h
  count_failure-Left env key (err x, w) h = h

  ran-Left :
      (env : ActionEnv) (h : ActionHandler) (a : Result Str Value) (w : World)
      → Holds w.executions
      → Left (ran env h id a w)
  unfolding ran
  ran-Left env h (ok v) w k = noted-Left _ _ (patch-Left _ w k)
  ran-Left env h (err message) w k =
      count_failure-Left env h.key _ (noted-Left _ _ (patch-Left _ w k))

  run_marked-Left :
      (env : ActionEnv) (h : ActionHandler) (v : Value) (o : Outcome)
      → Left o
      → Left (run_marked env h id v o)
  unfolding Left run_marked
  run_marked-Left env h v (ok r, w) k = ran-Left env h _ _ k
  run_marked-Left env h v (err x, w) k = k

  pass_gates-Left :
      (env : ActionEnv) (h : ActionHandler) (i : ExecuteActionInput) (w : World)
      → Holds w.executions
      → Left (pass_gates env h i id w)
  unfolding pass_gates block await_policy await_review run_handler
  pass_gates-Left env h i w k =
      gate (env.killed i.action_key) _ _ (noted-Left _ _ (patch-Left _ w k)) (
        gate (lacks_permission env h) _ _ (noted-Left _ _ (patch-Left _ w k)) (
          gate (is_denied env h i.object) _ _ (noted-Left _ _ (patch-Left _ w k)) (
            gate (given (h.precondition i.input)) _ _ (noted-Left _ _ (patch-Left _ w k)) (
              gate (needs_policy env h i id) _ _ (noted-Left _ _ (patch-Left _ w k)) (
                gate (needs_review h i) _ _ (noted-Left _ _ (patch-Left _ w k))
                  (run_marked-Left env h i.input _ (patch-Left _ w k)))))))
    where
      gate : (b : Bool) (o o1 : Outcome) → Left o → Left o1 → Left (if b then o else o1)
      gate true o o1 a b = a
      gate false o o1 a b = b

-- Where the search of a tenant found nothing, the one row that a call has written since is the one
-- that the search finds, if it meets the test.
pub find_row-written :
    (tenant : Str) (p : Row ActionExecution → Bool) (id : Str) (env : ActionEnv) (h : ActionHandler)
    (i : ExecuteActionInput) (w : World) (new y : Row ActionExecution)
    → find_row tenant p w.executions ≡ none
    → let after =
        (pass_gates env h i id
          (record w { executions = insert id new w.executions })).1.executions in
      lookup id after ≡ some y → (is_of tenant y && p y) ≡ true → find_row tenant p after ≡ some y
unfolding find_row list_rows Left
find_row-written tenant p id env h i w new y absent found meets =
    let q : Row ActionExecution → Bool = λ r. is_of tenant r && p r in
    first-only_at q id y _
      (pass_gates-Left id (λ rows. only_at q id rows ≡ true) (insert-only_at q id) env h i _
        (none-only_at q id new w.executions absent).1)
      found meets
