-- ===== src/Store.antt =====
-- packages/domain-model/src/memory-store.ts: the state of the ledger, the errors of
-- packages/domain-model/src/store.ts, and `#record`. A method takes the state and returns its result
-- or error with the new state; `now` is the clock that the source reads inside the method. A deep
-- copy (`structuredClone`) of an immutable record is the record.
pub mod Compare
pub mod Missions
pub mod Tasks
pub mod Events
pub mod Attention
pub mod Approvals
pub mod Locks
pub mod Runners
pub mod Leases
pub mod Artifacts
pub mod Reviews
pub mod Quotas
use cmap.Common.{
  ℕ, ◌+◌, ◌-◌, suc, Bool, true, false, String, ◌==◌, ◌⧺◌, decimal, zeros, Option, none, some, List,
  [], ◌∷◌, ◌++◌, Dict, get, put, Outcome, Platform, leb, ◌≡◌, if◌then◌else◌,
}
use cmap.TaskState.{TaskState, IllegalTransition}
use cmap.Entities.{Mission, MissionTerminated, TaskRecord, TaskEvent, EventActor}
use cmap.Entities.Evidence.{Artifact, ArtifactEdge, Review}
use cmap.Json.{Json, Fields}
use cmap.Approval.{Approval, ApprovalError}
use cmap.Gateway.{GatewayRunner, EnrollmentToken, GatewayLease}

-- ResourceLock of entities.ts
pub record ResourceLock : Type 0 where
  pub lock_id : String
  pub resource : String
  pub task_id : String
  pub mission_id : String
  pub holder_runner_id : String
  pub acquired_at : String
  pub expires_at : String
  pub released_at : Option String

pub data StoreError : Type 0 where
  not_found : String → String → StoreError  -- kind, id
  write_verification : String → String → StoreError  -- kind, id
  concurrent_modification : String → TaskState → TaskState → StoreError  -- id, expected, actual
  illegal_transition : IllegalTransition → StoreError
  mission_terminated : MissionTerminated → StoreError
  mission_conflict task_conflict event_conflict binding_conflict : String → StoreError
  lease_conflict review_conflict artifact_conflict : String → StoreError
  lock_unavailable : String → String → StoreError  -- resource, heldBy
  lock_ttl : String → StoreError  -- the RangeError of acquireLock
  approval_error : ApprovalError → StoreError
  runner_registered token_exists : String → StoreError

pub record MemoryStore : Type 0 where
  pub missions : Dict Mission
  pub tasks : Dict TaskRecord
  pub events : List TaskEvent
  pub artifacts : Dict Artifact
  pub edges : List ArtifactEdge
  pub reviews : List Review
  pub approvals : Dict Approval
  pub locks : Dict ResourceLock
  pub gateway_runners : Dict GatewayRunner
  pub enrollment_tokens : Dict EnrollmentToken
  pub gateway_leases : Dict GatewayLease
  pub seen_keys : Dict String
  pub lamport : ℕ
  pub seq : ℕ

abbrev pub empty_store : MemoryStore
empty_store = record {
  missions = [];
  tasks = [];
  events = [];
  artifacts = [];
  edges = [];
  reviews = [];
  approvals = [];
  locks = [];
  gateway_runners = [];
  enrollment_tokens = [];
  gateway_leases = [];
  seen_keys = [];
  lamport = 0;
  seq = 0;
}

-- a method that may throw
abbrev pub Method : Type 0 → Type 0
Method A = MemoryStore → Outcome StoreError A × MemoryStore

-- `evt_${String(seq).padStart(6, '0')}`; a text of n digits has n - 1 as its count of tens
digit_count : ℕ → ℕ
digit_count n =
    if leb 100000 n
    then 6
    else if leb 10000 n
    then 5
    else if leb 1000 n
    then 4
    else if leb 100 n
    then 3
    else if leb 10 n
    then 2
    else 1

unfoldable pub event_id : ℕ → String
unfolding digit_count decimal zeros
event_id seq = "evt_" ⧺ zeros (6 - digit_count seq) ⧺ decimal seq

-- the arguments of #record
pub record EventInput : Type 0 where
  pub mission_id : String
  pub task_id : Option String
  pub event_type : String
  pub actor : EventActor
  pub idempotency_key : String
  pub payload : Fields
  pub causation_id : Option String

-- the event that #record builds from the counters of the state
unfoldable pub built_event : Platform → ℕ → EventInput → MemoryStore → TaskEvent
built_event p now i s = record {
  event_id = event_id (suc s.seq);
  event_type = i.event_type;
  event_version = 1;
  occurred_at = p.iso now;
  mission_id = i.mission_id;
  task_id = i.task_id;
  attempt = none;
  actor = i.actor;
  causation_id = i.causation_id;
  correlation_id = i.mission_id;
  trace_id = none;
  lamport = suc s.lamport;
  idempotency_key = i.idempotency_key;
  payload = i.payload;
}

-- an event is appended, its key is remembered, and both counters go up
unfoldable pub push_event : TaskEvent → MemoryStore → MemoryStore
push_event e s = record s {
  events = s.events ++ e ∷ [];
  seen_keys = put s.seen_keys e.idempotency_key e.event_id;
  lamport = suc s.lamport;
  seq = suc s.seq;
}

unfoldable pub record_event : Platform → ℕ → EventInput → MemoryStore → MemoryStore
unfolding built_event push_event
record_event p now i s = push_event (built_event p now i s) s

-- every task stands under its own id
abbrev pub IsKeyed : MemoryStore → Type 0
IsKeyed s = (k : String) (t : TaskRecord) → get s.tasks k ≡ some t → t.id ≡ k
