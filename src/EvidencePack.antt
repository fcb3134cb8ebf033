-- ===== src/EvidencePack.antt =====
-- packages/domain-model/src/evidence-pack.ts: the evidence of a mission for its reviewer, read from
-- the memory store.
pub mod Complete
use cmap.Common.{String, Option, none, some, List, [], ◌∷◌, ◌++◌, get, Outcome, ok, err}
use cmap.Json.{Json}
use cmap.TaskState.{TaskState}
use cmap.Entities.{Mission, TaskRecord, TaskResult}
use cmap.Entities.Evidence.{Artifact, ArtifactEdge}
use cmap.Store.{MemoryStore, StoreError, not_found}
use cmap.Store.Missions.{get_mission}
use cmap.Store.Tasks.{TaskQuery, query_tasks}
use cmap.Store.Artifacts.{list_artifacts, list_lineage}

pub record EvidencePackTask : Type 0 where
  pub task_id : String
  pub capability : String
  pub state : TaskState
  pub artifacts : List Artifact
  pub criterion_results : List Json

pub record EvidencePack : Type 0 where
  pub mission_id : String
  pub goal : String
  pub tasks : List EvidencePackTask
  pub edges : List ArtifactEdge

-- t.result?.criterion_results ?? []
abbrev or_empty : Option (List Json) → List Json
or_empty none = []
or_empty (some rs) = rs

abbrev results_of : Option TaskResult → List Json
results_of none = []
results_of (some r) = or_empty r.criterion_results

unfoldable pub pack_task : MemoryStore → TaskRecord → EvidencePackTask
pack_task s t = record {
  task_id = t.id;
  capability = t.capability;
  state = t.state;
  artifacts = list_artifacts t.id s;
  criterion_results = results_of t.outcome;
}

-- `for (const a of artifacts) edges.push(...)`
unfoldable pub push_lineages : MemoryStore → List Artifact → List ArtifactEdge → List ArtifactEdge
push_lineages s [] edges = edges
push_lineages s (a ∷ artifacts) edges =
    push_lineages s artifacts (edges ++ list_lineage a.artifact_id s)

-- `for (const t of tasks)`, with the two lists that it pushes to
unfoldable pub push_tasks :
    MemoryStore
    → List TaskRecord
    → List EvidencePackTask
    → List ArtifactEdge
    → List EvidencePackTask × List ArtifactEdge
push_tasks s [] packed edges = (packed, edges)
push_tasks s (t ∷ tasks) packed edges =
    push_tasks s tasks (packed ++ pack_task s t ∷ [])
      (push_lineages s (list_artifacts t.id s) edges)

-- the tasks of a mission
abbrev pub of_mission : String → TaskQuery
of_mission id = record { mission_id = some id; states = none; capability = none; limit = none }

unfoldable pub build_evidence_pack : String → MemoryStore → Outcome StoreError EvidencePack
build_evidence_pack id s = elim (get_mission id s) [
  | none ↦ err (not_found "Mission" id)
  | some mission ↦
      let pushed = push_tasks s (query_tasks (of_mission id) s) [] [] in
      ok (record { mission_id = id; goal = mission.goal; tasks = pushed.0; edges = pushed.1 })
]
