-- ===== src/Control/Actions/Repeat.antt =====
-- A call with the key of a live execution, and a second release of one.
use adam_os.Base.{
  subst, ◌≡◌, refl, sym, ◌∙◌, ap, Bool, true, false, ◌&&◌, inl, inr, none, some, arith, Str,
  str_eq_refl, str_eq_iff, lookup, lookup-insert, truthy, Result, ok, err, if◌then◌else◌,
  Bool-cases, Option-cases,
}
use adam_os.Core.Collection.{Row, is_of, insert_row, get_row, find_row}
use adam_os.Control.Actions.{
  ActionStatus, ActionExecution, ActionHandler, ActionEnv, ExecuteActionInput, World, Outcome,
  ActionError, unknown_action, BlockReason, block, given, lacks_permission, run_handler, is_denied,
  needs_policy, needs_review, await_policy, await_review, pass_gates, queued_execution, prior_of,
  unless_prior, execute_action, effective_key, is_live, is_repeat, is_awaiting, release,
  continue_approved_action,
}
use adam_os.Control.Actions.Found.{find_row-written}
use adam_os.Control.Actions.Once.{IsStored, Keeps, patch-Keeps, noted-Keeps, run_handler-Keeps}

release-settled :
    (env : ActionEnv) (x : Row ActionExecution) (w : World)
    → is_awaiting x.body.status ≡ false
    → release env (some x) w ≡ none
unfolding release
release-settled env x w h = rw h refl

release-some :
    (env : ActionEnv) (x : Row ActionExecution) (w : World) {o : Outcome}
    → release env (some x) w ≡ some o
    → (h : ActionHandler) × (o ≡ run_handler env h x.id x.body.input w)
unfolding release
release-some env x w {o} e = elim (Bool-cases (is_awaiting x.body.status)) [
  | inr idle ↦ absurd (ground (arith, e, idle))
  | inl waits ↦ elim (Option-cases (lookup x.body.action_id env.handlers)) [
    | inl unknown ↦ absurd (ground (arith, e, waits, unknown))
    | inr (h, known) ↦ (h, ground (arith, e, waits, known))
  ]
]

continue-mine :
    (env : ActionEnv) (id : Str) (w : World) (r : Row ActionExecution)
    → lookup id w.executions ≡ some r
    → is_of env.tenant r ≡ true
    → continue_approved_action env id w ≡ release env (some r) w
unfolding continue_approved_action get_row
continue-mine env id w r found mine = rw found (rw mine refl)

continue-foreign :
    (env : ActionEnv) (id : Str) (w : World) (r : Row ActionExecution)
    → lookup id w.executions ≡ some r
    → is_of env.tenant r ≡ false
    → continue_approved_action env id w ≡ none
unfolding continue_approved_action get_row release
continue-foreign env id w r found foreign = rw found (rw foreign refl)

continue-settled :
    (env : ActionEnv) (id : Str) (w : World) (r : Row ActionExecution)
    → lookup id w.executions ≡ some r
    → is_awaiting r.body.status ≡ false
    → continue_approved_action env id w ≡ none
continue-settled env id w r found h = elim (Bool-cases (is_of env.tenant r)) [
  | inr foreign ↦ continue-foreign env id w r found foreign
  | inl mine ↦ continue-mine env id w r found mine ∙ release-settled env r w h
]

-- An execution that was continued, and is stored under its own id, cannot be continued again.
pub continue_approved_action_once :
    (env env1 : ActionEnv) (id : Str) (w : World) (r : Row ActionExecution) {o : Outcome}
    → lookup id w.executions ≡ some r
    → r.id ≡ id
    → continue_approved_action env id w ≡ some o
    → continue_approved_action env1 id o.1 ≡ none
continue_approved_action_once env env1 id w r {o} found own e =
    elim (Bool-cases (is_of env.tenant r)) [
      | inr foreign ↦ absurd (ground (arith, sym e ∙ continue-foreign env id w r found foreign))
      | inl mine ↦
          let (h, done) =
            release-some env r w {o = o} (sym (continue-mine env id w r found mine) ∙ e) in
          let (y, _, s, settled) =
            run_handler-Keeps r.tenant_id r.body.idempotency_key id env h r.body.input w r
              (record { found = found; own_id = own; of_tenant = refl; of_key = refl }) in
          subst (λ q. continue_approved_action env1 id q.1 ≡ none)
            (sym (done ∙ ap (λ q. run_handler env h q r.body.input w) own))
            (continue-settled env1 id _ y s.found settled)
    ]

abbrev IsAny : ActionStatus → Type 0
IsAny s = Unit

module _ (tenant key id : Str) where
  block-Keeps :
      (reason : BlockReason) (w : World) (r : Row ActionExecution)
      → IsStored tenant key id w r
      → Keeps tenant key id IsAny (block id reason w)
  unfolding block
  block-Keeps reason w r s =
      noted-Keeps tenant key id IsAny _ _
        (patch-Keeps tenant key id IsAny _ w r (λ b. refl) (λ b. tt) s)

  await_policy-Keeps :
      (w : World) (r : Row ActionExecution)
      → IsStored tenant key id w r
      → Keeps tenant key id IsAny (await_policy id w)
  unfolding await_policy
  await_policy-Keeps w r s =
      noted-Keeps tenant key id IsAny _ _
        (patch-Keeps tenant key id IsAny _ w r (λ b. refl) (λ b. tt) s)

  await_review-Keeps :
      (env : ActionEnv) (w : World) (r : Row ActionExecution)
      → IsStored tenant key id w r
      → Keeps tenant key id IsAny (await_review env id w)
  unfolding await_review
  await_review-Keeps env w r s =
      noted-Keeps tenant key id IsAny _ _
        (patch-Keeps tenant key id IsAny _ w r (λ b. refl) (λ b. tt) s)

  pass_gates-Keeps :
      (env : ActionEnv) (h : ActionHandler) (i : ExecuteActionInput) (w : World)
      (r : Row ActionExecution)
      → IsStored tenant key id w r
      → Keeps tenant key id IsAny (pass_gates env h i id w)
  unfolding pass_gates
  pass_gates-Keeps env h i w r s = gate (env.killed i.action_key) (block-Keeps _ w r s) (
      gate (lacks_permission env h) (block-Keeps _ w r s) (
        gate (is_denied env h i.object) (block-Keeps _ w r s) (
          gate (given (h.precondition i.input)) (block-Keeps _ w r s) (
            gate (needs_policy env h i id) (await_policy-Keeps w r s)
              (gate (needs_review h i) (await_review-Keeps env w r s) run)))))
    where
      gate :
          (b : Bool) {o o1 : Outcome}
          → Keeps tenant key id IsAny o
          → Keeps tenant key id IsAny o1
          → Keeps tenant key id IsAny (if b then o else o1)
      gate true k k1 = k
      gate false k k1 = k1

      run : Keeps tenant key id IsAny (run_handler env h id i.input w)
      run =
          let (y, same, stored, _) = run_handler-Keeps tenant key id env h i.input w r s in
          (y, same, stored, tt)

execute-known :
    (env : ActionEnv) (i : ExecuteActionInput) (id : Str) (w : World) (h : ActionHandler)
    → lookup i.action_key env.handlers ≡ some h
    → execute_action env i id w ≡ unless_prior env h i id w (prior_of env i w)
unfolding execute_action
execute-known env i id w h known = rw known refl

prior_of-find :
    (env : ActionEnv) (i : ExecuteActionInput) (w : World)
    → truthy i.force ≡ false
    → prior_of env i w ≡ find_row env.tenant (is_repeat (effective_key env i)) w.executions
unfolding prior_of
prior_of-find env i w h = rw h refl

-- A new execution is stored under its id, with the tenant and the key of the call.
queued-IsStored :
    (env : ActionEnv) (i : ExecuteActionInput) (id : Str) (w : World)
    → IsStored env.tenant
        (effective_key env i)
        id
        (record w { executions = insert_row (queued_execution env i id) w.executions })
        (queued_execution env i id)
unfolding insert_row queued_execution
queued-IsStored env i id w = record {
  found =
      rw (lookup-insert id id (queued_execution env i id) w.executions) (rw (str_eq_refl id) refl);
  own_id = refl;
  of_tenant = refl;
  of_key = refl;
}

execute-unknown :
    (env : ActionEnv) (i : ExecuteActionInput) (id : Str) (w : World)
    → lookup i.action_key env.handlers ≡ none
    → (execute_action env i id w).0 ≡ err (unknown_action i.action_key)
unfolding execute_action
execute-unknown env i id w unknown = rw unknown refl

ok_injective :
    {x y : Row ActionExecution}
    → ◌≡◌ {A = Result ActionError (Row ActionExecution)} (ok x) (ok y)
    → x ≡ y
ok_injective {x} e = ap (λ q. elim q [ ok z ↦ z | err f ↦ x ]) e

repeat_of :
    (tenant key : Str) (y : Row ActionExecution)
    → y.tenant_id ≡ tenant
    → y.body.idempotency_key ≡ key
    → is_live y.body.status ≡ true
    → (is_of tenant y && is_repeat key y) ≡ true
repeat_of tenant key y e f live =
    ground (arith, e, f, live, str_eq_iff y.tenant_id tenant, str_eq_iff y.body.idempotency_key key)

-- Unless it is forced, a call that is made again after one that left its execution queued, running,
-- completed or awaiting an approval returns that same execution and changes nothing.
pub execute_action_repeat :
    (env : ActionEnv) (i : ExecuteActionInput) (id id1 : Str) (w : World) (r : Row ActionExecution)
    → truthy i.force ≡ false
    → (execute_action env i id w).0 ≡ ok r
    → is_live r.body.status ≡ true
    → execute_action env i id1 (execute_action env i id w).1 ≡ (ok r, (execute_action env i id w).1)
unfolding insert_row queued_execution
execute_action_repeat env i id id1 w r free e live =
    elim (Option-cases (lookup i.action_key env.handlers)) [
      | inl unknown ↦ absurd (ground (arith, sym (execute-unknown env i id w unknown) ∙ e))
      | inr (h, known) ↦ elim (Option-cases (prior_of env i w)) [
        | inr (prior, found) ↦
            let once : execute_action env i id w ≡ (ok prior, w) =
              execute-known env i id w h known ∙ ap (unless_prior env h i id w) found in
            let same : prior ≡ r = ok_injective (sym (ap (λ q. q.0) once) ∙ e) in
            subst (λ q. execute_action env i id1 q.1 ≡ (ok r, q.1)) (sym once)
              (execute-known env i id1 w h known
                ∙ ap (unless_prior env h i id1 w) (found ∙ ap some same))
        | inl new ↦
            let w0 : World = record w {
              executions = insert_row (queued_execution env i id) w.executions;
            } in
            let once : execute_action env i id w ≡ pass_gates env h i id w0 =
              execute-known env i id w h known ∙ ap (unless_prior env h i id w) new in
            let (y, same, s, _) =
              pass_gates-Keeps env.tenant (effective_key env i) id env h i _ _
                (queued-IsStored env i id w) in
            let is_r : y ≡ r = ok_injective (sym same ∙ ap (λ q. q.0) (sym once) ∙ e) in
            let alive = subst (λ q. is_live q.body.status ≡ true) (sym is_r) live in
            let found : prior_of env i (pass_gates env h i id w0).1 ≡ some y =
              prior_of-find env i _ free
              ∙ find_row-written env.tenant (is_repeat (effective_key env i)) id env h i w
                  (queued_execution env i id) y (sym (prior_of-find env i w free) ∙ new) s.found
                  (repeat_of env.tenant (effective_key env i) y s.of_tenant s.of_key alive) in
            subst (λ q. execute_action env i id1 q.1 ≡ (ok r, q.1)) (sym once)
              (execute-known env i id1 _ h known
                ∙ ap (unless_prior env h i id1 _) (found ∙ ap some is_r))
      ]
    ]
