-- ===== src/Control/Actions.antt =====
-- lib/mission-control/actions/action-service.ts: the execution of an action behind its gates. What
-- the kill switch, the permissions, the object access and the approval services answer is in Env.
pub mod Guards
pub mod Once
pub mod Found
pub mod Repeat
use mathlib.Core.List.{foldl}
use adam_os.Base.{
  ℕ, ◌+◌, ◌*◌, ◌%◌, ◌^◌, Bool, true, false, not, ◌&&◌, ◌||◌, Option, none, some, List, [], ◌∷◌,
  ◌++◌, Str, str, str_eq, lookup, or_else, truthy, length, Result, ok, err, Value, text, obj, field,
  end, if◌then◌else◌,
}
use adam_os.Core.Collection.{
  Row, Rows, CollectionError, insert_row, update_row, get_row, find_row, list_rows,
}
use adam_os.Control.Incidents.{Incident, maybe_raise, count_recent_failures}

pub data ActionStatus : Type 0 where
  queued running completed failed blocked awaiting_approval : ActionStatus

-- A reason for a block, without its text
pub data BlockReason : Type 0 where
  killed_by_switch object_denied : BlockReason
  missing_permission unmet : Str → BlockReason

pub record ActionExecution : Type 0 where
  pub action_id : Str
  pub object_type : Option Str
  pub object_id : Option Str
  pub input : Value
  pub result : Option Value
  pub status : ActionStatus
  pub idempotency_key : Str
  pub blocked_reason : Option BlockReason
  pub review_case_id : Option Str
  pub created_at : ℕ

-- A handler's `run` takes how many runs there were before, and may throw a message.
pub record ActionHandler : Type 0 where
  pub key : Str
  pub required_permission : Option Str
  pub requires_approval : Option Bool
  pub approval_policy_key : Option Str
  pub dangerous : Option Bool
  pub precondition : Value → Option Str
  pub run : ℕ → Value → Result Str Value

pub data ObjectPermission : Type 0 where
  execute_object write_object : ObjectPermission

pub record ExecuteActionInput : Type 0 where
  pub action_key : Str
  pub input : Value
  pub object : Option (Str × Str)
  pub idempotency_key : Option Str
  pub approval_exempt : Option Bool
  pub force : Option Bool

pub record ActionEnv : Type 0 where
  pub tenant : Str
  pub now : ℕ
  pub handlers : List (Str × ActionHandler)
  pub json : Value → Str
  pub base_36 : ℕ → Str
  pub killed : Str → Bool
  pub permitted : Str → Bool
  pub access : Str → Str → ObjectPermission → Bool
  pub approval_required : Str → Str → Bool
  pub review_case : Str → Str
  pub incident_id : Str → Str

pub data ActionEvent : Type 0 where
  action_completed action_failed action_blocked action_awaiting : ActionEvent

-- The stores, and what has been done: the runs of handlers by execution and key, and the audit
pub record World : Type 0 where
  pub executions : Rows ActionExecution
  pub incidents : Rows Incident
  pub runs : List (Str × Str)
  pub audit : List (ActionEvent × Str)

pub data ActionError : Type 0 where
  unknown_action : Str → ActionError
  not_stored : CollectionError → ActionError

abbrev pub Outcome : Type 0
Outcome = Result ActionError (Row ActionExecution) × World

-- `hashInput`, on 32 bits
unfoldable pub hash_input : ActionEnv → Value → Str
hash_input env v = env.base_36 (foldl (λ h c. (h * 32 + h + c) % 2 ^ 32) 5381 (env.json v))

abbrev pub object_key : Option (Str × Str) → Str
object_key none = str ":"
object_key (some (t, id)) = t ++ (str ":" ++ id)

unfoldable pub effective_key : ActionEnv → ExecuteActionInput → Str
unfolding hash_input
effective_key env i =
    or_else i.idempotency_key
      (i.action_key ++ (str ":" ++ (object_key i.object ++ (str ":" ++ hash_input env i.input))))

-- A run that a second call with its key does not repeat
abbrev pub is_live : ActionStatus → Bool
is_live queued = true
is_live running = true
is_live completed = true
is_live awaiting_approval = true
is_live failed = false
is_live blocked = false

abbrev pub is_repeat : Str → Row ActionExecution → Bool
is_repeat key r = str_eq r.body.idempotency_key key && is_live r.body.status

abbrev pub saved :
    World → Result CollectionError (Row ActionExecution) × Rows ActionExecution → Outcome
saved w (ok r, rows) = (ok r, record w { executions = rows })
saved w (err e, rows) = (err (not_stored e), record w { executions = rows })

unfoldable pub patch_execution : Str → (ActionExecution → ActionExecution) → World → Outcome
unfolding update_row
patch_execution id patch w = saved w (update_row id patch w.executions)

abbrev pub noted : ActionEvent → Str → Outcome → Outcome
noted e id (ok r, w) = (ok r, record w { audit = w.audit ++ (e, id) ∷ [] })
noted e id (err x, w) = (err x, w)

unfoldable pub block : Str → BlockReason → World → Outcome
unfolding patch_execution
block id reason w =
    noted action_blocked id
      (patch_execution id (λ x. record x { status = blocked; blocked_reason = some reason }) w)

abbrev pub error_result : Str → Value
error_result message = obj (field (str "error") (text message) end)

-- The failures of an action in the window may raise an incident.
unfoldable pub count_failure : ActionEnv → Str → Outcome → Outcome
unfolding maybe_raise list_rows count_recent_failures
count_failure env key (err x, w) = (err x, w)
count_failure env key (ok r, w) =
    let failures =
      count_recent_failures env.now (λ (x : Row ActionExecution). x.body.created_at)
        (λ x. elim x.body.status [ failed ↦ true | _ ↦ false ])
        (list_rows env.tenant (λ x. str_eq x.body.action_id key) w.executions) in
    (
      ok r,
      record w {
        incidents =
            (maybe_raise env.now env.tenant (env.incident_id r.id) (str "action:" ++ key) failures
              w.incidents).1;
      },
    )

unfoldable pub ran : ActionEnv → ActionHandler → Str → Result Str Value → World → Outcome
unfolding patch_execution count_failure
ran env h id (ok v) w =
    noted action_completed id
      (patch_execution id (λ x. record x { status = completed; result = some v }) w)
ran env h id (err message) w = count_failure env h.key (
    noted action_failed id (
      patch_execution id (λ x. record x { status = failed; result = some (error_result message) })
        w))

unfoldable pub run_marked : ActionEnv → ActionHandler → Str → Value → Outcome → Outcome
unfolding ran
run_marked env h id v (err x, w) = (err x, w)
run_marked env h id v (ok r, w) =
    ran env h id (h.run (length w.runs) v) (record w { runs = w.runs ++ (id, h.key) ∷ [] })

unfoldable pub run_handler : ActionEnv → ActionHandler → Str → Value → World → Outcome
unfolding run_marked patch_execution
run_handler env h id v w =
    run_marked env h id v (patch_execution id (λ x. record x { status = running }) w)

-- A text that is there and is not empty
abbrev pub given : Option Str → Bool
given none = false
given (some []) = false
given (some (c ∷ t)) = true

abbrev pub lacks_permission : ActionEnv → ActionHandler → Bool
lacks_permission env h =
    given h.required_permission && not (env.permitted (or_else h.required_permission []))

abbrev pub is_denied : ActionEnv → ActionHandler → Option (Str × Str) → Bool
is_denied env h none = false
is_denied env h (some (t, id)) =
    not (env.access t id (if truthy h.dangerous then execute_object else write_object))

abbrev pub needs_policy : ActionEnv → ActionHandler → ExecuteActionInput → Str → Bool
needs_policy env h i id =
    given h.approval_policy_key
    && not (truthy i.approval_exempt)
    && env.approval_required (or_else h.approval_policy_key []) id

abbrev pub needs_review : ActionHandler → ExecuteActionInput → Bool
needs_review h i = truthy h.requires_approval && not (truthy i.approval_exempt)

unfoldable pub await_policy : Str → World → Outcome
unfolding patch_execution
await_policy id w =
    noted action_awaiting id
      (patch_execution id (λ x. record x { status = awaiting_approval; blocked_reason = none }) w)

unfoldable pub await_review : ActionEnv → Str → World → Outcome
unfolding patch_execution
await_review env id w = noted action_awaiting id (
    patch_execution id
      (λ x. record x {
        status = awaiting_approval;
        blocked_reason = none;
        review_case_id = some (env.review_case id);
      })
      w)

-- The part of `executeAction` behind the insertion. The services that it asks, and the precondition,
-- are taken to answer.
unfoldable pub pass_gates : ActionEnv → ActionHandler → ExecuteActionInput → Str → World → Outcome
unfolding block await_policy await_review run_handler
pass_gates env h i id w =
    if env.killed i.action_key
    then block id killed_by_switch w
    else if lacks_permission env h
    then block id (missing_permission (or_else h.required_permission [])) w
    else if is_denied env h i.object
    then block id object_denied w
    else if given (h.precondition i.input)
    then block id (unmet (or_else (h.precondition i.input) [])) w
    else if needs_policy env h i id
    then await_policy id w
    else if needs_review h i
    then await_review env id w
    else run_handler env h id i.input w

abbrev pub first_of : Option (Str × Str) → Option Str
first_of none = none
first_of (some (t, id)) = some t

abbrev pub second_of : Option (Str × Str) → Option Str
second_of none = none
second_of (some (t, id)) = some id

unfoldable pub queued_execution : ActionEnv → ExecuteActionInput → Str → Row ActionExecution
unfolding effective_key
queued_execution env i id = record {
  id = id;
  tenant_id = env.tenant;
  body = record {
    action_id = i.action_key;
    object_type = first_of i.object;
    object_id = second_of i.object;
    input = i.input;
    result = none;
    status = queued;
    idempotency_key = effective_key env i;
    blocked_reason = none;
    review_case_id = none;
    created_at = env.now;
  };
}

-- The run that a call finds in place of its own
unfoldable pub prior_of : ActionEnv → ExecuteActionInput → World → Option (Row ActionExecution)
unfolding find_row effective_key
prior_of env i w =
    if truthy i.force
    then none
    else find_row env.tenant (is_repeat (effective_key env i)) w.executions

abbrev pub unless_prior :
    ActionEnv
    → ActionHandler
    → ExecuteActionInput
    → Str
    → World
    → Option (Row ActionExecution)
    → Outcome
unless_prior env h i id w (some prior) = (ok prior, w)
unless_prior env h i id w none =
    pass_gates env h i id
      (record w { executions = insert_row (queued_execution env i id) w.executions })

abbrev pub with_handler :
    ActionEnv → ExecuteActionInput → Str → World → Option ActionHandler → Outcome
with_handler env i id w none = (err (unknown_action i.action_key), w)
with_handler env i id w (some h) = unless_prior env h i id w (prior_of env i w)

-- `executeAction`, with the id that a new execution would get
unfoldable pub execute_action : ActionEnv → ExecuteActionInput → Str → World → Outcome
unfolding lookup
execute_action env i id w = with_handler env i id w (lookup i.action_key env.handlers)

abbrev pub is_awaiting : ActionStatus → Bool
is_awaiting queued = false
is_awaiting running = false
is_awaiting completed = false
is_awaiting failed = false
is_awaiting blocked = false
is_awaiting awaiting_approval = true

-- What is common to the two ways to release an execution; no execution is `none`.
unfoldable pub release : ActionEnv → Option (Row ActionExecution) → World → Option Outcome
unfolding run_handler lookup
release env none w = none
release env (some x) w =
    if is_awaiting x.body.status
    then elim (lookup x.body.action_id env.handlers) [
      | none ↦ none
      | some h ↦ some (run_handler env h x.id x.body.input w)
    ]
    else none

unfoldable pub release_approved_action : ActionEnv → Str → World → Option Outcome
unfolding release find_row
release_approved_action env case w =
    release env
      (find_row env.tenant
        (λ x. elim x.body.review_case_id [ none ↦ false | some c ↦ str_eq c case ]) w.executions)
      w

unfoldable pub continue_approved_action : ActionEnv → Str → World → Option Outcome
unfolding release get_row
continue_approved_action env id w = release env (get_row env.tenant id w.executions) w
