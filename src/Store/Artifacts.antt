-- ===== src/Store/Artifacts.antt =====
-- Artifacts of packages/domain-model/src/memory-store.ts: putArtifact, listArtifacts, listLineage.
pub mod Content
use cmap.Common.{
  ℕ, Bool, true, false, String, ◌==◌, Option, none, some, List, [], ◌∷◌, get, put, values, keep,
  any, eqb, ok, err, not, ◌&&◌, ◌||◌, if◌then◌else◌,
}
use cmap.Entities.Evidence.{Artifact, ArtifactEdge}
use cmap.Store.{MemoryStore, Method, artifact_conflict}

-- the id is taken by another task or another content
abbrev pub is_other_content : Option Artifact → Artifact → Bool
is_other_content none a = false
is_other_content (some prev) a = not (prev.task_id == a.task_id) || not (prev.sha256 == a.sha256)

-- another artifact stands for the same task, role and version
abbrev pub takes_place : Artifact → Artifact → Bool
takes_place a x =
    not (x.artifact_id == a.artifact_id)
    && x.task_id == a.task_id
    && x.role == a.role
    && eqb x.version a.version

unfoldable pub put_artifact : Artifact → Method Artifact
put_artifact a s =
    if is_other_content (get s.artifacts a.artifact_id) a
    then (err (artifact_conflict a.artifact_id), s)
    else if any (takes_place a) (values s.artifacts)
    then (err (artifact_conflict a.artifact_id), s)
    else (ok a, record s { artifacts = put s.artifacts a.artifact_id a })

unfoldable pub list_artifacts : String → MemoryStore → List Artifact
list_artifacts task s = keep (λ a. a.task_id == task) (values s.artifacts)

unfoldable pub list_lineage : String → MemoryStore → List ArtifactEdge
list_lineage id s = keep (λ e. e.source_artifact_id == id) s.edges
