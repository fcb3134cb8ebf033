-- ===== src/Entities/EventTypes.antt =====
-- packages/domain-model/src/entities.ts: EVENT_TYPES, the values that the type of an event can have.
use cmap.Common.{String, List, [], ◌∷◌}

unfoldable pub event_types : List String
event_types =
    "MISSION_CREATED" ∷ "PLAN_PROPOSED" ∷ "PLAN_ACCEPTED" ∷ "DAG_NODE_FINISHED" ∷ "DAG_NODE_BLOCKED"
    ∷ "TASK_CREATED" ∷ "TASK_READY" ∷ "TASK_DISPATCH_INTENT" ∷ "ROUTING_DECIDED" ∷ "TASK_ASSIGNED"
    ∷ "TASK_STARTED" ∷ "TASK_HEARTBEAT" ∷ "RESOURCE_LOCK_REQUESTED" ∷ "RESOURCE_LOCK_ACQUIRED"
    ∷ "RESOURCE_LOCK_RELEASED" ∷ "RESOURCE_LOCK_EXPIRED" ∷ "AGENT_MESSAGE_RECEIVED"
    ∷ "ARTIFACT_UPLOAD_STARTED" ∷ "ARTIFACT_PUBLISHED" ∷ "INPUT_REQUIRED" ∷ "AUTH_REQUIRED"
    ∷ "APPROVAL_REQUESTED" ∷ "APPROVAL_GRANTED" ∷ "APPROVAL_DENIED" ∷ "JEV_DECIDED"
    ∷ "QUOTA_HANDOFF" ∷ "QUOTA_RESTORED" ∷ "HARD_GATE_EVALUATED" ∷ "REVIEW_STARTED"
    ∷ "REVIEW_APPLICATION_INTENT" ∷ "REVIEW_APPLICATION_COMPLETED" ∷ "REVIEW_ACCEPTED"
    ∷ "REVIEW_REWORK_REQUESTED" ∷ "REVIEW_ESCALATED" ∷ "NO_PROGRESS_DETECTED"
    ∷ "TASK_RETRY_SCHEDULED" ∷ "TASK_FAILED" ∷ "TASK_CANCELED" ∷ "TASK_COMPLETED"
    ∷ "MISSION_COMPLETED" ∷ "MISSION_ESCALATED" ∷ "MISSION_FAILED" ∷ "MISSION_STATE_CHANGED"
    ∷ "KNOWLEDGE_PROPOSED" ∷ "KNOWLEDGE_PROPOSAL_FAILED" ∷ "HANDOFF_RECORDED" ∷ "HANDOFF_FAILED"
    ∷ "MISSION_COST_ALERT" ∷ "MISSION_CANCEL_REQUESTED" ∷ "TASK_CANCEL_REQUESTED" ∷ []
