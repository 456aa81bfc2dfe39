-- ===== src/Tests/Actions.antt =====
-- lib/mission-control/actions/action-service.ts: an action that runs, and one that waits.
use adam_os.Base.{
  ◌≡◌, refl, true, false, ◌⊎◌, none, some, [], ◌∷◌, ◌++◌, str, str_eq, lookup, null, ok,
}
use adam_os.Core.Collection.{Row, insert_row, get_row}
use adam_os.Control.Actions.{
  ActionExecution, ActionHandler, ActionEnv, ExecuteActionInput, World, completed, prior_of,
  pass_gates, queued_execution, awaiting_approval, run_handler, execute_action, release,
  continue_approved_action,
}
use adam_os.Control.Actions.Guards.{IsCleared, execute_action-IsCleared}
use adam_os.Control.Actions.Repeat.{continue_approved_action_once, execute_action_repeat}

abbrev send : ActionHandler
send = record {
  key = str "send";
  required_permission = some (str "mail");
  requires_approval = none;
  approval_policy_key = some (str "p");
  dangerous = some true;
  precondition = λ v. none;
  run = λ n v. ok v;
}

-- The policy asks for an approval of the execution `b`.
abbrev env : ActionEnv
env = record {
  tenant = str "t";
  now = 7;
  handlers = (str "send", send) ∷ [];
  json = λ v. [];
  base_36 = λ n. [];
  killed = λ k. false;
  permitted = λ p. str_eq p (str "mail");
  access = λ t id p. true;
  approval_required = λ p id. str_eq id (str "b");
  review_case = λ id. id;
  incident_id = λ id. id;
}

abbrev call : ExecuteActionInput
call = record {
  action_key = str "send";
  input = null;
  object = some (str "site", str "1");
  idempotency_key = some (str "k");
  approval_exempt = none;
  force = none;
}

abbrev fresh : World
fresh = record { executions = []; incidents = []; runs = []; audit = [] }

runs_once : (execute_action env call (str "a") fresh).1.runs ≡ (str "a", str "send") ∷ []
unfolding execute_action str_eq prior_of pass_gates insert_row queued_execution
runs_once = refl

waits : (execute_action env call (str "b") fresh).1.runs ≡ []
unfolding execute_action str_eq prior_of pass_gates insert_row queued_execution
waits = refl

abbrev sent : Row ActionExecution
sent = record {
  id = str "a";
  tenant_id = str "t";
  body = record {
    action_id = str "send";
    object_type = some (str "site");
    object_id = some (str "1");
    input = null;
    result = some null;
    status = completed;
    idempotency_key = str "k";
    blocked_reason = none;
    review_case_id = none;
    created_at = 7;
  };
}

is_sent : (execute_action env call (str "a") fresh).0 ≡ ok sent
unfolding execute_action str_eq prior_of pass_gates insert_row queued_execution
is_sent = refl

execute_action-IsCleared_example :
    ((execute_action env call (str "a") fresh).1.runs ≡ [])
    ⊎ ((h : ActionHandler) × IsCleared env call (str "a") h fresh
        × ((execute_action env call (str "a") fresh).1.runs ≡ [] ++ (str "a", h.key) ∷ []))
execute_action-IsCleared_example = execute_action-IsCleared env call (str "a") fresh

execute_action_repeat_example :
    execute_action env call (str "c") (execute_action env call (str "a") fresh).1
    ≡ (ok sent, (execute_action env call (str "a") fresh).1)
execute_action_repeat_example =
    execute_action_repeat env call (str "a") (str "c") fresh sent refl is_sent refl

abbrev waiting : Row ActionExecution
waiting = record sent {
  id = str "b";
  body = record sent.body { result = none; status = awaiting_approval };
}

abbrev gated : World
gated = record fresh { executions = (str "b", waiting) ∷ [] }

continues :
    continue_approved_action env (str "b") gated ≡ some (run_handler env send (str "b") null gated)
unfolding continue_approved_action release get_row str_eq
continues = refl

continue_approved_action_once_example :
    continue_approved_action env (str "b") (run_handler env send (str "b") null gated).1 ≡ none
unfolding lookup str_eq
continue_approved_action_once_example =
    continue_approved_action_once env env (str "b") gated waiting refl refl continues
