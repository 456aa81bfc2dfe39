-- ===== src/Control/Actions/Guards.antt =====
-- No handler runs unless every gate lets it pass.
use adam_os.Base.{
  ◌≡◌, refl, false, ◌⊎◌, inl, inr, none, some, [], ◌∷◌, ◌++◌, Str, lookup, Result, ok, err, Value,
  Bool-cases, Option-cases, ap, ◌∙◌,
}
use adam_os.Core.Collection.{insert_row, update_row}
use adam_os.Control.Actions.{
  ActionExecution, ActionHandler, ActionEnv, ExecuteActionInput, World, Outcome, ActionEvent, saved,
  patch_execution, noted, block, BlockReason, count_failure, ran, run_marked, run_handler, given,
  lacks_permission, is_denied, needs_policy, needs_review, await_policy, await_review, pass_gates,
  queued_execution, prior_of, execute_action,
}

-- What holds where the handler of a call is run
pub record IsCleared (env : ActionEnv) (i : ExecuteActionInput) (id : Str) (h : ActionHandler)
    (w : World) : Type 0 where
  pub registered : lookup i.action_key env.handlers ≡ some h
  pub no_prior : prior_of env i w ≡ none
  pub not_killed : env.killed i.action_key ≡ false
  pub permitted : lacks_permission env h ≡ false
  pub accessible : is_denied env h i.object ≡ false
  pub met : given (h.precondition i.input) ≡ false
  pub approved : needs_policy env h i id ≡ false
  pub reviewed : needs_review h i ≡ false

patch_execution-runs :
    (id : Str) (patch : ActionExecution → ActionExecution) (w : World)
    → (patch_execution id patch w).1.runs ≡ w.runs
unfolding patch_execution
patch_execution-runs id patch w = split (update_row id patch w.executions)
  where
    split : (o : _) → (saved w o).1.runs ≡ w.runs
    split (ok r, rows) = refl
    split (err e, rows) = refl

noted-runs : (e : ActionEvent) (id : Str) (o : Outcome) → (noted e id o).1.runs ≡ o.1.runs
noted-runs e id (ok r, w) = refl
noted-runs e id (err x, w) = refl

count_failure-runs :
    (env : ActionEnv) (key : Str) (o : Outcome) → (count_failure env key o).1.runs ≡ o.1.runs
unfolding count_failure
count_failure-runs env key (ok r, w) = refl
count_failure-runs env key (err x, w) = refl

ran-runs :
    (env : ActionEnv) (h : ActionHandler) (id : Str) (o : Result Str Value) (w : World)
    → (ran env h id o w).1.runs ≡ w.runs
unfolding ran
ran-runs env h id (ok v) w = noted-runs _ id _ ∙ patch_execution-runs id _ w
ran-runs env h id (err m) w =
    count_failure-runs env h.key _ ∙ noted-runs _ id _ ∙ patch_execution-runs id _ w

block-runs : (id : Str) (reason : BlockReason) (w : World) → (block id reason w).1.runs ≡ w.runs
unfolding block
block-runs id reason w = noted-runs _ id _ ∙ patch_execution-runs id _ w

await_policy-runs : (id : Str) (w : World) → (await_policy id w).1.runs ≡ w.runs
unfolding await_policy
await_policy-runs id w = noted-runs _ id _ ∙ patch_execution-runs id _ w

await_review-runs :
    (env : ActionEnv) (id : Str) (w : World) → (await_review env id w).1.runs ≡ w.runs
unfolding await_review
await_review-runs env id w = noted-runs _ id _ ∙ patch_execution-runs id _ w

-- A handler is run once at most.
pub run_handler-runs :
    (env : ActionEnv) (h : ActionHandler) (id : Str) (v : Value) (w : World)
    → ((run_handler env h id v w).1.runs ≡ w.runs)
      ⊎ ((run_handler env h id v w).1.runs ≡ w.runs ++ (id, h.key) ∷ [])
unfolding run_handler
run_handler-runs env h id v w = split _ (patch_execution-runs id _ w)
  where
    split :
        (o : Outcome)
        → o.1.runs ≡ w.runs
        → ((run_marked env h id v o).1.runs ≡ w.runs)
          ⊎ ((run_marked env h id v o).1.runs ≡ w.runs ++ (id, h.key) ∷ [])
    split (err x, w1) e = inl e
    split (ok r, w1) e = inr (ran-runs env h id _ _ ∙ ap (λ q. q ++ (id, h.key) ∷ []) e)

pass_gates-runs :
    (env : ActionEnv) (h : ActionHandler) (i : ExecuteActionInput) (id : Str) (w : World)
    → ((pass_gates env h i id w).1.runs ≡ w.runs)
      ⊎ ((env.killed i.action_key ≡ false)
          × (lacks_permission env h ≡ false)
          × (is_denied env h i.object ≡ false)
          × (given (h.precondition i.input) ≡ false)
          × (needs_policy env h i id ≡ false)
          × (needs_review h i ≡ false)
          × ((pass_gates env h i id w).1.runs ≡ w.runs ++ (id, h.key) ∷ []))
unfolding pass_gates
pass_gates-runs env h i id w = elim (Bool-cases (env.killed i.action_key)) [
  | inl a ↦ rw a (inl (block-runs id _ w))
  | inr a ↦ elim (Bool-cases (lacks_permission env h)) [
    | inl b ↦ rw a (rw b (inl (block-runs id _ w)))
    | inr b ↦ elim (Bool-cases (is_denied env h i.object)) [
      | inl c ↦ rw a (rw b (rw c (inl (block-runs id _ w))))
      | inr c ↦ elim (Bool-cases (given (h.precondition i.input))) [
        | inl d ↦ rw a (rw b (rw c (rw d (inl (block-runs id _ w)))))
        | inr d ↦ elim (Bool-cases (needs_policy env h i id)) [
          | inl e ↦ rw a (rw b (rw c (rw d (rw e (inl (await_policy-runs id w))))))
          | inr e ↦ elim (Bool-cases (needs_review h i)) [
            | inl f ↦ rw a (rw b (rw c (rw d (rw e (rw f (inl (await_review-runs env id w)))))))
            | inr f ↦ elim (run_handler-runs env h id i.input w) [
              | inl quiet ↦ rw a (rw b (rw c (rw d (rw e (rw f (inl quiet))))))
              | inr done ↦ rw a (
                  rw b (rw c (rw d (rw e (rw f (inr (refl, refl, refl, refl, refl, refl, done)))))))
            ]
          ]
        ]
      ]
    ]
  ]
]

-- Either no handler is run, or every gate lets the call pass and its handler is run, once.
pub execute_action-IsCleared :
    (env : ActionEnv) (i : ExecuteActionInput) (id : Str) (w : World)
    → ((execute_action env i id w).1.runs ≡ w.runs)
      ⊎ ((h : ActionHandler) × IsCleared env i id h w
          × ((execute_action env i id w).1.runs ≡ w.runs ++ (id, h.key) ∷ []))
unfolding execute_action
execute_action-IsCleared env i id w = elim (Option-cases (lookup i.action_key env.handlers)) [
  | inl unknown ↦ rw unknown (inl refl)
  | inr (h, known) ↦ elim (Option-cases (prior_of env i w)) [
    | inr (prior, found) ↦ rw known (rw found (inl refl))
    | inl new ↦ rw known (
        rw new (elim (gates h) [
          | inl quiet ↦ inl quiet
          | inr (a, b, c, d, e, f, done) ↦ inr (
            h,
            record {
              registered = known;
              no_prior = new;
              not_killed = a;
              permitted = b;
              accessible = c;
              met = d;
              approved = e;
              reviewed = f;
            },
            done,
          )
        ]))
  ]
]
  where
    w0 : World
    w0 = record w { executions = insert_row (queued_execution env i id) w.executions }

    gates :
        (h : ActionHandler)
        → ((pass_gates env h i id w0).1.runs ≡ w.runs)
          ⊎ ((env.killed i.action_key ≡ false)
              × (lacks_permission env h ≡ false)
              × (is_denied env h i.object ≡ false)
              × (given (h.precondition i.input) ≡ false)
              × (needs_policy env h i id ≡ false)
              × (needs_review h i ≡ false)
              × ((pass_gates env h i id w0).1.runs ≡ w.runs ++ (id, h.key) ∷ []))
    gates h = pass_gates-runs env h i id w0
