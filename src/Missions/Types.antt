-- ===== src/Missions/Types.antt =====
-- lib/missions/mission-types.ts: what a mission is made of.
use adam_os.Base.{ℕ, Bool, Option, List, Str, Value, map, or_else, []}

-- `retry` is the field `maxAttempts` of the policy.
pub record TaskDefinition : Type 0 where
  pub id : Str
  pub executor : Str
  pub depends_on : Option (List Str)
  pub input : Option Value
  pub requires_approval : Option Bool
  pub retry : Option ℕ

pub record MissionDefinition : Type 0 where
  pub id : Str
  pub name : Option Str
  pub tasks : List TaskDefinition
  pub object_types : Option (List Str)

abbrev pub task_ids : List TaskDefinition → List Str
task_ids = map (λ t. t.id)

-- `t.dependsOn ?? []`
abbrev pub dependencies : TaskDefinition → List Str
dependencies t = or_else t.depends_on []

pub data TaskState : Type 0 where
  pending ready running waiting completed failed skipped cancelled : TaskState

pub record TaskExecutionRecord : Type 0 where
  pub id : Str
  pub executor : Str
  pub state : TaskState
  pub depends_on : List Str
  pub attempts : ℕ
  pub error : Option Str
  pub output : Option Value

-- The states that the runtime reports; draft, ready, approved and running are none of them.
pub data MissionExecutionState : Type 0 where
  blocked_mission failed_mission cancelled_mission waiting_mission completed_mission :
      MissionExecutionState

pub data ExecutionDecision : Type 0 where
  pass pass_with_warnings blocked : ExecutionDecision

-- What the runtime reads of a `GovernanceDecision`: its verdict and the codes of its findings.
pub record GovernanceDecision : Type 0 where
  pub execution_decision : ExecutionDecision
  pub blocking_codes : List Str
  pub warning_codes : List Str

-- The events of one execution, without time stamps.
pub data MissionEvent : Type 0 where
  blocked_by_governance : List Str → MissionEvent
  plan_rejected : MissionEvent
  mission_started : ℕ → ℕ → MissionEvent
  task_started task_completed : Str → MissionEvent
  task_failed : Str → Option Str → MissionEvent
  mission_cancelled task_failure mission_completed : MissionEvent
  mission_paused : List Str → MissionEvent

pub record TaskSummary : Type 0 where
  pub total : ℕ
  pub completed : ℕ
  pub failed : ℕ
  pub skipped : ℕ
  pub cancelled : ℕ
  pub waiting : ℕ
  pub pending : ℕ
  pub running : ℕ

pub record MissionExecutionReport : Type 0 where
  pub execution_id : Str
  pub mission_id : Str
  pub mission_name : Option Str
  pub execution_state : MissionExecutionState
  pub decision : ExecutionDecision
  pub blocking : ℕ
  pub warnings : ℕ
  pub tasks : List TaskExecutionRecord
  pub summary : TaskSummary
  pub pending_approvals : List Str
  pub total_attempts : ℕ
  pub total_retries : ℕ
  pub events : List MissionEvent
