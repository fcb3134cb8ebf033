-- ===== src/Examples/Evidence.antt =====
-- The theorems on artifacts, reviews and event types, at small records.
use cmap.Common.{
  get, includes, if◌then◌else◌, Bool, true, String, some, [], ◌∷◌, ◌++◌, get, map, ok, distinct,
  ◌≡◌, refl,
}
use cmap.Json.{null, end}
use cmap.Entities.Evidence.{Artifact, available, Review}
use cmap.Store.{MemoryStore, empty_store}
use cmap.Store.Artifacts.Content.{put_artifacts, put_artifacts-keep_content}
use cmap.Store.Reviews.{put_review}
use cmap.Store.Reviews.Identity.{review_ids, put_review_lem}
use cmap.EvidencePack.{build_evidence_pack}
use cmap.EvidencePack.Complete.{entry_of, tasks_of, edges_out, build_evidence_pack_lem}
use package.cmap.Examples.{mission_one, task_one}

-- a trace of a task, with a content hash
abbrev trace : String → String → Artifact
trace id hash = record {
  artifact_id = id;
  mission_id = "m1";
  task_id = "t1";
  role = "trace";
  uri = "file:trace";
  media_type = "text/plain";
  size_bytes = 10;
  sha256 = hash;
  version = 1;
  state = available;
  producer = record { agent_id = "codex"; adapter_version = "1"; execution_session_id = "s" };
  provenance = end;
  retention = record { retain_until = "9"; immutable = true };
  security = record {
    classification = "internal";
    contains_secrets = Bool.false;
    contains_pii = Bool.false;
    allowed_roles = [];
  };
  created_at = "1";
}

abbrev evidence_store : MemoryStore
evidence_store = record empty_store { artifacts = ("e1", trace "e1" "aa") ∷ [] }

found_trace : get evidence_store.artifacts "e1" ≡ some (trace "e1" "aa")
unfolding get
found_trace = refl

put_artifacts-keep_content_example :
    (new : Artifact) × (get
        (put_artifacts (trace "e1" "bb" ∷ trace "e2" "cc" ∷ []) evidence_store).artifacts
        "e1"
      ≡ some new)
    × (new.sha256 ≡ "aa")
    × (new.task_id ≡ "t1")
put_artifacts-keep_content_example =
    put_artifacts-keep_content (trace "e1" "bb" ∷ trace "e2" "cc" ∷ []) evidence_store "e1"
      (trace "e1" "aa") found_trace

abbrev review_one : Review
review_one = record {
  id = "v1";
  mission_id = "m1";
  reviewed_task_ids = "t1" ∷ [];
  round = 1;
  decision = null;
  created_at = "1";
}

abbrev review_store : MemoryStore
review_store = record empty_store { reviews = review_one ∷ [] }

put_review_lem_example :
    let second = record review_one { id = "v2" } in
    ((put_review second review_store).1.reviews ≡ (
      if includes (review_ids review_store.reviews) "v2"
      then review_store.reviews
      else review_store.reviews ++ second ∷ []))
    × (distinct (review_ids (put_review second review_store).1.reviews) ≡ true)
put_review_lem_example = put_review_lem (record review_one { id = "v2" }) review_store refl

abbrev pack_store : MemoryStore
pack_store = record empty_store {
  missions = ("m1", mission_one) ∷ [];
  tasks = ("t1", task_one) ∷ [];
  artifacts = ("e1", trace "e1" "aa") ∷ [];
  edges =
      record { source_artifact_id = "e1"; target_artifact_id = "e0"; relation = "SUPERSEDES" } ∷ [];
}

found_mission : get pack_store.missions "m1" ≡ some mission_one
unfolding get
found_mission = refl

build_evidence_pack_lem_example :
    build_evidence_pack "m1" pack_store
    ≡ ok (record {
      mission_id = "m1";
      goal = "measure";
      tasks = map (entry_of pack_store) (tasks_of pack_store "m1");
      edges = edges_out pack_store (tasks_of pack_store "m1");
    })
build_evidence_pack_lem_example =
    build_evidence_pack_lem "m1" pack_store mission_one found_mission refl
