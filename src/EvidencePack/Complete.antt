-- ===== src/EvidencePack/Complete.antt =====
-- An evidence pack leaves nothing out and adds nothing.
use mathlib.Core.List.{append_assoc, append-nil}
use cmap.Common.{
  arith, ◌||◌, true, false, ◌==◌, none, get, keep, values, Option-cases, inl, inr, String, some,
  List, [], ◌∷◌, ◌++◌, map, ok, ◌≡◌, refl, sym, ◌∙◌, ap,
}
use cmap.Entities.{Mission, TaskRecord}
use cmap.Entities.Evidence.{Artifact, ArtifactEdge}
use cmap.Store.{MemoryStore}
use cmap.Store.Missions.{get_mission}
use cmap.Store.Tasks.{query_tasks}
use cmap.Store.Artifacts.{list_artifacts, list_lineage}
use cmap.EvidencePack.{
  EvidencePackTask, pack_task, push_lineages, push_tasks, of_mission, build_evidence_pack,
}

-- the lists of all elements, one after the other
abbrev gather {ℓ κ} : {A : Type ℓ} {B : Type κ} → (A → List B) → List A → List B
gather f [] = []
gather f (x ∷ xs) = f x ++ gather f xs

-- the stored tasks of a mission, the stored artifacts of a task, the edges out of an artifact
abbrev pub tasks_of : MemoryStore → String → List TaskRecord
tasks_of s mission = keep (λ (t : TaskRecord). t.mission_id == mission) (values s.tasks)

abbrev pub artifacts_of : MemoryStore → TaskRecord → List Artifact
artifacts_of s t = keep (λ (a : Artifact). a.task_id == t.id) (values s.artifacts)

abbrev pub edges_of : MemoryStore → Artifact → List ArtifactEdge
edges_of s a = keep (λ (e : ArtifactEdge). e.source_artifact_id == a.artifact_id) s.edges

-- what the pack says of a task
abbrev pub entry_of : MemoryStore → TaskRecord → EvidencePackTask
entry_of s t = record {
  task_id = t.id;
  capability = t.capability;
  state = t.state;
  artifacts = artifacts_of s t;
  criterion_results = elim t.outcome [
    | none ↦ []
    | some r ↦ elim r.criterion_results [ none ↦ [] | some results ↦ results ]
  ];
}

-- the edges of the pack
abbrev pub edges_out : MemoryStore → List TaskRecord → List ArtifactEdge
edges_out s = gather (λ t. gather (edges_of s) (artifacts_of s t))

push_lineages_lem :
    (s : MemoryStore) (artifacts : List Artifact) (edges : List ArtifactEdge)
    → push_lineages s artifacts edges ≡ edges ++ gather (edges_of s) artifacts
unfolding push_lineages list_lineage
push_lineages_lem s [] edges = sym (append-nil edges)
push_lineages_lem s (a ∷ artifacts) edges =
    push_lineages_lem s artifacts (edges ++ list_lineage a.artifact_id s)
    ∙ append_assoc edges (edges_of s a) (gather (edges_of s) artifacts)

push_tasks-packed :
    (s : MemoryStore) (tasks : List TaskRecord) (packed : List EvidencePackTask)
    (edges : List ArtifactEdge)
    → (push_tasks s tasks packed edges).0 ≡ packed ++ map (pack_task s) tasks
unfolding push_tasks
push_tasks-packed s [] packed edges = sym (append-nil packed)
push_tasks-packed s (t ∷ tasks) packed edges =
    push_tasks-packed s tasks (packed ++ pack_task s t ∷ [])
      (push_lineages s (list_artifacts t.id s) edges)
    ∙ append_assoc packed (pack_task s t ∷ []) (map (pack_task s) tasks)

push_tasks-edges :
    (s : MemoryStore) (tasks : List TaskRecord) (packed : List EvidencePackTask)
    (edges : List ArtifactEdge)
    → (push_tasks s tasks packed edges).1 ≡ edges ++ edges_out s tasks
unfolding push_tasks list_artifacts
push_tasks-edges s [] packed edges = sym (append-nil edges)
push_tasks-edges s (t ∷ tasks) packed edges =
    push_tasks-edges s tasks (packed ++ pack_task s t ∷ [])
      (push_lineages s (list_artifacts t.id s) edges)
    ∙ ap (λ es. es ++ edges_out s tasks) (push_lineages_lem s (list_artifacts t.id s) edges)
    ∙ append_assoc edges (gather (edges_of s) (artifacts_of s t)) (edges_out s tasks)

entry_is : (s : MemoryStore) (t : TaskRecord) → pack_task s t ≡ entry_of s t
unfolding pack_task list_artifacts
entry_is s t = elim (Option-cases t.outcome) [
  | inl missing ↦ rw missing refl
  | inr (r, there) ↦ elim (Option-cases r.criterion_results) [
    | inl empty ↦ rw (there, empty) refl
    | inr (results, given) ↦ rw (there, given) refl
  ]
]

ap_cons :
    {a b : EvidencePackTask} {xs ys : List EvidencePackTask} → a ≡ b → xs ≡ ys → a ∷ xs ≡ b ∷ ys
ap_cons e f = cc

keep_all {ℓ} : {A : Type ℓ} (xs : List A) → keep (λ (x : A). true) xs ≡ xs
keep_all [] = refl
keep_all (x ∷ xs) = ap (λ l. x ∷ l) (keep_all xs)

named_tasks :
    (id : String) (ts : List TaskRecord)
    → (id == "") ≡ false
    → keep (λ (t : TaskRecord). id == "" || t.mission_id == id) ts
      ≡ keep (λ (t : TaskRecord). t.mission_id == id) ts
named_tasks id [] named = refl
named_tasks id (t ∷ ts) named = ground (arith, named_tasks id ts named)

entries : (s : MemoryStore) (ts : List TaskRecord) → map (pack_task s) ts ≡ map (entry_of s) ts
entries s [] = refl
entries s (t ∷ ts) = ap_cons (entry_is s t) (entries s ts)

-- an unlimited query by one mission
query-of_mission :
    (id : String) (s : MemoryStore)
    → (id == "") ≡ false
    → query_tasks (of_mission id) s ≡ tasks_of s id
unfolding query_tasks
query-of_mission id s named =
    keep_all (keep (λ t. true) (keep (λ t. id == "" || t.mission_id == id) (values s.tasks)))
    ∙ keep_all (keep (λ t. id == "" || t.mission_id == id) (values s.tasks))
    ∙ named_tasks id (values s.tasks) named

-- The pack of a mission that is on record, with an id that is not empty, has its goal; one entry for
-- each stored task of the mission, in the order in which they are stored, with the stored artifacts of
-- the task and the results of its criteria; and the stored edges out of these artifacts, in order.
pub build_evidence_pack_lem :
    (id : String) (s : MemoryStore) (m : Mission)
    → get s.missions id ≡ some m
    → (id == "") ≡ false
    → build_evidence_pack id s
      ≡ ok (record {
        mission_id = id;
        goal = m.goal;
        tasks = map (entry_of s) (tasks_of s id);
        edges = edges_out s (tasks_of s id);
      })
unfolding build_evidence_pack get_mission
build_evidence_pack_lem id s m found named =
    let e = query-of_mission id s named in
    rw
      (
        build_evidence_pack,
        found,
        push_tasks-packed s (query_tasks (of_mission id) s) [] [],
        push_tasks-edges s (query_tasks (of_mission id) s) [] [],
        e,
        entries s (tasks_of s id),
      )
      refl
