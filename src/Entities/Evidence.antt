-- ===== src/Entities/Evidence.antt =====
-- packages/domain-model/src/entities.ts: artifacts, their edges, and reviews.
use cmap.Common.{ℕ, Bool, String, List}
use cmap.Json.{Json, Fields}

-- ARTIFACT_STATES
pub data ArtifactState : Type 0 where
  uploading available expired revoked : ArtifactState

pub record ArtifactProducer : Type 0 where
  pub agent_id : String
  pub adapter_version : String
  pub execution_session_id : String

pub record ArtifactRetention : Type 0 where
  pub retain_until : String
  pub immutable : Bool

-- `classification` is 'public', 'internal' or 'restricted'
pub record ArtifactSecurity : Type 0 where
  pub classification : String
  pub contains_secrets : Bool
  pub contains_pii : Bool
  pub allowed_roles : List String

pub record Artifact : Type 0 where
  pub artifact_id : String
  pub mission_id : String
  pub task_id : String
  pub role : String
  pub uri : String
  pub media_type : String
  pub size_bytes : ℕ
  pub sha256 : String
  pub version : ℕ
  pub state : ArtifactState
  pub producer : ArtifactProducer
  pub provenance : Fields
  pub retention : ArtifactRetention
  pub security : ArtifactSecurity
  pub created_at : String

-- `relation` is 'DERIVED_FROM' or 'SUPERSEDES'
pub record ArtifactEdge : Type 0 where
  pub source_artifact_id : String
  pub target_artifact_id : String
  pub relation : String

-- `decision` is a ReviewDecisionV1 as JSON
pub record Review : Type 0 where
  pub id : String
  pub mission_id : String
  pub reviewed_task_ids : List String
  pub round : ℕ
  pub decision : Json
  pub created_at : String
