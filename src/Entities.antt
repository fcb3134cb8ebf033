-- ===== src/Entities.antt =====
-- packages/domain-model/src/entities.ts: risks, the states of a mission, and the records of the
-- ledger. A record's fields that no modelled code reads are kept together as JSON. Times are the ISO
-- texts of the source.
pub mod Missions
pub mod Evidence
pub mod EventTypes
use cmap.Common.{
  ℕ, Bool, true, false, String, Option, List, [], ◌∷◌, any, eqb, ltb, Outcome, ok, err,
  if◌then◌else◌, not, ◌&&◌,
}
use cmap.TaskState.{TaskState}
use cmap.Json.{Json, Fields}

-- RISK_LEVELS
pub data RiskLevel : Type 0 where
  read_meta read_sensitive controlled mutating : RiskLevel

-- RISK_LEVELS.indexOf(risk)
abbrev pub risk_rank : RiskLevel → ℕ
risk_rank read_meta = 0
risk_rank read_sensitive = 1
risk_rank controlled = 2
risk_rank mutating = 3

abbrev pub same_risk : RiskLevel → RiskLevel → Bool
same_risk a b = eqb (risk_rank a) (risk_rank b)

abbrev pub risk_text : RiskLevel → String
risk_text read_meta = "read-meta"
risk_text read_sensitive = "read-sensitive"
risk_text controlled = "controlled"
risk_text mutating = "mutating"

abbrev pub approval_required_risks : List RiskLevel
approval_required_risks = controlled ∷ mutating ∷ []

unfoldable pub needs_approval : RiskLevel → Bool
needs_approval r = any (λ x. same_risk x r) approval_required_risks

-- MISSION_STATES
pub data MissionState : Type 0 where
  draft planning running awaiting_approval reviewing completed escalated failed canceled :
      MissionState

abbrev pub mission_place : MissionState → ℕ
mission_place draft = 0
mission_place planning = 1
mission_place running = 2
mission_place awaiting_approval = 3
mission_place reviewing = 4
mission_place completed = 5
mission_place escalated = 6
mission_place failed = 7
mission_place canceled = 8

abbrev pub same_mission_state : MissionState → MissionState → Bool
same_mission_state a b = eqb (mission_place a) (mission_place b)

-- TERMINAL_MISSION_STATES.has(s)
unfoldable pub is_terminal_mission : MissionState → Bool
is_terminal_mission s =
    any (λ x. same_mission_state x s) (completed ∷ escalated ∷ failed ∷ canceled ∷ [])

-- the error of assertMissionStateChange
pub record MissionTerminated : Type 0 where
  pub id : String
  pub from : MissionState
  pub to : MissionState

unfoldable pub assert_mission_state_change :
    String → MissionState → MissionState → Outcome MissionTerminated (Unit {0})
assert_mission_state_change id from to =
    if is_terminal_mission from && not (is_terminal_mission to)
    then err (record { id = id; from = from; to = to })
    else ok tt

-- `acceptance` is the list of criteria as JSON
pub record Mission : Type 0 where
  pub id : String
  pub tenant : String
  pub owner : String
  pub kind : String  -- `type`
  pub goal : String
  pub constraints : Json
  pub acceptance : Json
  pub workflow_template : String
  pub state : MissionState
  pub revision : ℕ
  pub created_at : String
  pub updated_at : String

-- TaskEnvelopeV1: the fields that the code reads, and all others as JSON
pub record Envelope : Type 0 where
  pub mission_id : String  -- identity.mission_id
  pub task_id : String  -- identity.task_id
  pub revision : ℕ  -- identity.revision
  pub tenant : Option String  -- identity.tenant
  pub owner : Option String  -- identity.owner
  pub idempotency_key : String  -- identity.idempotency_key
  pub requested_capability : String  -- classification.requested_capability
  pub risk_level : RiskLevel  -- classification.risk_level
  pub affinity_host : Option String  -- execution_policy.affinity?.host
  pub other : Json

-- TaskResultV1
pub record TaskResult : Type 0 where
  pub status : String
  pub criterion_results : Option (List Json)
  pub other : Json

pub record RemoteTaskBinding : Type 0 where
  pub adapter : String
  pub remote_task_id : String
  pub remote_context_id : Option String
  pub protocol : String
  pub protocol_version : String
  pub runner_id : String
  pub provider_session_id : Option String

pub record TaskRecord : Type 0 where
  pub id : String
  pub mission_id : String
  pub parent_task_id : Option String
  pub supersedes_task_id : Option String
  pub capability : String
  pub risk : RiskLevel
  pub state : TaskState
  pub attempt : ℕ
  pub max_attempts : ℕ
  pub lamport : ℕ
  pub envelope : Envelope
  pub outcome : Option TaskResult  -- `result`
  pub binding : Option RemoteTaskBinding
  pub deps : List String
  pub created_at : String
  pub updated_at : String

-- EventActor: `kind` is 'agent', 'human' or 'system'
pub record EventActor : Type 0 where
  pub kind : String
  pub id : String
  pub runner_id : Option String

-- TaskEvent: `event_type` is the literal of EVENT_TYPES
pub record TaskEvent : Type 0 where
  pub event_id : String
  pub event_type : String
  pub event_version : ℕ
  pub occurred_at : String
  pub mission_id : String
  pub task_id : Option String
  pub attempt : Option ℕ
  pub actor : EventActor
  pub causation_id : Option String
  pub correlation_id : String
  pub trace_id : Option String
  pub lamport : ℕ
  pub idempotency_key : String
  pub payload : Fields
