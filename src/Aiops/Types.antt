-- ===== src/Aiops/Types.antt =====
-- lib/aiops/models/model-provider.ts, lib/aiops/routing and lib/aiops/execution/execution-types.ts:
-- requests, responses, routing-authorised targets and the context of an execution.
use adam_os.Base.{
  ℕ, Bool, Option, none, some, List, [], ◌∷◌, Str, Value, str_eq, any, is_empty, not, false,
  or_else, ◌&&◌, ◌||◌, contains, if◌then◌else◌,
}

pub record CompletionRequest : Type 0 where
  pub prompt : Str
  pub output_schema : Option Value
  pub max_tokens : Option ℕ

-- `cost_usd` counts the smallest amount that is told apart.
pub record CompletionResponse : Type 0 where
  pub text : Str
  pub json : Option Value
  pub prompt_tokens : ℕ
  pub completion_tokens : ℕ
  pub latency_ms : ℕ
  pub cost_usd : ℕ
  pub provider : Str
  pub model_key : Str

pub record ExecutionTarget : Type 0 where
  pub provider : Str
  pub model : Str

-- The fields of a decision that execution reads.
pub record RoutingDecision : Type 0 where
  pub selected_provider : Option Str
  pub selected_model : Option Str
  pub execution_plan : Option (List ExecutionTarget)

-- The fields of the context that the middleware reads.
pub record Context : Type 0 where
  pub routing_decision : Option RoutingDecision
  pub provider : Str
  pub model : Str
  pub workload_type : Str
  pub execution_plan : List ExecutionTarget

abbrev pub same_target : ExecutionTarget → ExecutionTarget → Bool
same_target t u = str_eq t.provider u.provider && str_eq t.model u.model

-- `t.provider === ctx.provider && t.model === ctx.model`, of the target that the context names
abbrev pub primary_of : Context → ExecutionTarget
primary_of ctx = record { provider = ctx.provider; model = ctx.model }

unfoldable pub plan_contains : List ExecutionTarget → ExecutionTarget → Bool
plan_contains plan target = any (λ t. same_target t target) plan

-- A name that is there and is not the empty string.
abbrev named : Option Str → Bool
named none = false
named (some s) = not (is_empty s)

unfoldable pub build_execution_plan : RoutingDecision → List ExecutionTarget
build_execution_plan d = or_else d.execution_plan (
    if named d.selected_provider && named d.selected_model
    then record { provider = or_else d.selected_provider []; model = or_else d.selected_model [] }
      ∷ []
    else [])

-- The filter that the policies of the circuit breaker, of retry and of fallback share: an empty
-- list admits all.
unfoldable pub eligible : List Str → List Str → Context → Bool
eligible providers workloads ctx =
    (is_empty providers || contains ctx.provider providers)
    && (is_empty workloads || contains ctx.workload_type workloads)
