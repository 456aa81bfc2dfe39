-- ===== src/Control/Actions/Once.antt =====
-- An action is not executed again: not by a call with the same key, and not by a second release.
use adam_os.Base.{
  ◌≡◌, refl, ◌∙◌, false, some, arith, Str, str_eq_refl, lookup, lookup-insert, Result, ok, err,
  Value,
}
use adam_os.Core.Collection.{Row, patch_row, update_row}
use adam_os.Control.Actions.{
  ActionStatus, ActionExecution, ActionHandler, ActionEnv, World, Outcome, ActionEvent,
  patch_execution, noted, count_failure, ran, run_marked, run_handler, is_awaiting,
}

-- The execution under an id, which has its tenant and its key
pub record IsStored (tenant key id : Str) (w : World) (r : Row ActionExecution) : Type 0 where
  pub found : lookup id w.executions ≡ some r
  pub own_id : r.id ≡ id
  pub of_tenant : r.tenant_id ≡ tenant
  pub of_key : r.body.idempotency_key ≡ key

-- What a step returns is what it has stored, and its status meets the predicate.
abbrev pub Keeps : Str → Str → Str → (ActionStatus → Type 0) → Outcome → Type 0
Keeps tenant key id P o =
    (r : Row ActionExecution) × (o.0 ≡ ok r) × IsStored tenant key id o.1 r × P r.body.status

module _ (tenant key id : Str) where
  pub patch-Keeps :
      (P : ActionStatus → Type 0) (p : ActionExecution → ActionExecution) (w : World)
      (r : Row ActionExecution)
      → ((b : ActionExecution) → (p b).idempotency_key ≡ b.idempotency_key)
      → ((b : ActionExecution) → P (p b).status)
      → IsStored tenant key id w r
      → Keeps tenant key id P (patch_execution id p w)
  unfolding patch_execution update_row patch_row
  patch-Keeps P p w r same meets s = rw s.found (
    record r { body = p r.body },
    refl,
    record {
      found =
          rw (lookup-insert id id (record r { body = p r.body }) w.executions)
            (rw (str_eq_refl id) refl);
      own_id = s.own_id;
      of_tenant = s.of_tenant;
      of_key = same r.body ∙ s.of_key;
    },
    meets r.body,
  )

  pub noted-Keeps :
      (P : ActionStatus → Type 0) (e : ActionEvent) (o : Outcome)
      → Keeps tenant key id P o
      → Keeps tenant key id P (noted e id o)
  noted-Keeps P e (ok x, w) (r, same, s, p) = (
    r,
    same,
    record { found = s.found; own_id = s.own_id; of_tenant = s.of_tenant; of_key = s.of_key },
    p,
  )
  noted-Keeps P e (err x, w) (r, same, s, p) = absurd (ground (arith, same))

  count_failure-Keeps :
      (P : ActionStatus → Type 0) (env : ActionEnv) (k : Str) (o : Outcome)
      → Keeps tenant key id P o
      → Keeps tenant key id P (count_failure env k o)
  unfolding count_failure
  count_failure-Keeps P env k (ok x, w) (r, same, s, p) = (
    r,
    same,
    record { found = s.found; own_id = s.own_id; of_tenant = s.of_tenant; of_key = s.of_key },
    p,
  )
  count_failure-Keeps P env k (err x, w) (r, same, s, p) = absurd (ground (arith, same))

  abbrev pub IsSettled : ActionStatus → Type 0
  IsSettled s = is_awaiting s ≡ false

  ran-Keeps :
      (env : ActionEnv) (h : ActionHandler) (o : Result Str Value) (w : World)
      (r : Row ActionExecution)
      → IsStored tenant key id w r
      → Keeps tenant key id IsSettled (ran env h id o w)
  unfolding ran
  ran-Keeps env h (ok v) w r s =
      noted-Keeps IsSettled _ _ (patch-Keeps IsSettled _ w r (λ b. refl) (λ b. refl) s)
  ran-Keeps env h (err m) w r s =
      count_failure-Keeps IsSettled env h.key _
        (noted-Keeps IsSettled _ _ (patch-Keeps IsSettled _ w r (λ b. refl) (λ b. refl) s))

  run_marked-Keeps :
      (env : ActionEnv) (h : ActionHandler) (v : Value) (o : Outcome)
      → Keeps tenant key id IsSettled o
      → Keeps tenant key id IsSettled (run_marked env h id v o)
  unfolding run_marked
  run_marked-Keeps env h v (ok x, w) (r, same, s, p) =
      ran-Keeps env h _ _ r
        (record { found = s.found; own_id = s.own_id; of_tenant = s.of_tenant; of_key = s.of_key })
  run_marked-Keeps env h v (err x, w) (r, same, s, p) = absurd (ground (arith, same))

  -- After a run, the execution does not wait for an approval.
  pub run_handler-Keeps :
      (env : ActionEnv) (h : ActionHandler) (v : Value) (w : World) (r : Row ActionExecution)
      → IsStored tenant key id w r
      → Keeps tenant key id IsSettled (run_handler env h id v w)
  unfolding run_handler
  run_handler-Keeps env h v w r s =
      run_marked-Keeps env h v _ (patch-Keeps IsSettled _ w r (λ b. refl) (λ b. refl) s)
