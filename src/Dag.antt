-- ===== src/Dag.antt =====
-- workflows/dag.workflow.ts: the workflow of a DAG mission. `Node` is executeNode, `Scheduler` the loop
-- over the nodes; here is what both share. The outcome of finishDagNode is that of
-- workflows/dag-activities.ts.
pub mod Node
pub mod Scheduler
use cmap.Common.{ℕ, Bool, true, false, String, ◌==◌, Option, none, some, List, Dict, get}
use cmap.Json.{Json}

-- the status of DagNodeOutcome
pub data NodeStatus : Type 0 where
  accepted rework failed escalated : NodeStatus

abbrev pub is_accepted : NodeStatus → Bool
is_accepted accepted = true
is_accepted _ = false

abbrev pub is_rework : NodeStatus → Bool
is_rework rework = true
is_rework _ = false

-- status === 'failed' || status === 'escalated'
abbrev pub is_fatal : NodeStatus → Bool
is_fatal failed = true
is_fatal escalated = true
is_fatal _ = false

-- `progress` is a ProgressSnapshot as JSON
pub record DagNodeOutcome : Type 0 where
  pub status : NodeStatus
  pub node_id : String
  pub task_id : Option String
  pub attempt : Option ℕ
  pub progress : Option Json
  pub reason : Option String

pub record DagNode : Type 0 where
  pub node_id : String
  pub deps : List String

-- what loadDagSchedule returns, less the state of the mission
pub record Schedule : Type 0 where
  pub nodes : List DagNode
  pub concurrency : ℕ
  pub max_additional_cycles : ℕ

pub data ParkPhase : Type 0 where
  approval attempt : ParkPhase

pub record ParkedDagNode : Type 0 where
  pub node_id : String
  pub task_id : String
  pub attempt_number : ℕ
  pub previous_progress : Option Json
  pub phase : ParkPhase

-- `patched` of the temporal SDK, for the changes whose presence the modelled code asks for
pub record Patches : Type 0 where
  pub cancel : Bool
  pub approval_signal : Bool
  pub runner_report : Bool
  pub continue_as_new : Bool
  pub quota_handoff : Bool
  pub knowledge : Bool

-- what finishDagNode returns
unfoldable pub finished_outcome : String → Option String → NodeStatus → String → DagNodeOutcome
finished_outcome node task status reason = record {
  status = status;
  node_id = node;
  task_id = task;
  attempt = none;
  progress = none;
  reason = some reason;
}

-- cancelReason !== undefined ? 'MISSION_CANCELED' : 'DAG_STOPPED'
abbrev pub stop_reason : Option String → String
stop_reason none = "DAG_STOPPED"
stop_reason (some r) = "MISSION_CANCELED"

-- outcomes.get(id)?.status === 'accepted'
abbrev accepted_outcome : Option DagNodeOutcome → Bool
accepted_outcome none = false
accepted_outcome (some o) = is_accepted o.status

unfoldable pub is_accepted_node : Dict DagNodeOutcome → String → Bool
is_accepted_node outcomes id = accepted_outcome (get outcomes id)
