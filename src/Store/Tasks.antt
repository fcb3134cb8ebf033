-- ===== src/Store/Tasks.antt =====
-- Tasks of packages/domain-model/src/memory-store.ts: createTask, getTask, transitionTask,
-- claimTaskBinding, setTaskResult, queryTasks.
pub mod Transition
pub mod Binding
pub mod Creation
use cmap.Common.{
  ℕ, zero, suc, ◌+◌, Bool, true, false, String, ◌==◌, ◌⧺◌, Option, none, some, List, [], ◌∷◌, get,
  put, has, values, keep, Outcome, ok, err, Platform, not, ◌&&◌, ◌||◌, if◌then◌else◌,
}
use cmap.TaskState.{
  TaskState, queued, waiting_resource, running, same_state, has_state, assert_transition, place,
}
use cmap.Json.{Json, str, Fields, end, field, obj}
use cmap.Entities.{TaskRecord, TaskResult, EventActor, RemoteTaskBinding, risk_text}
use cmap.Store.{
  MemoryStore, Method, StoreError, not_found, write_verification, concurrent_modification,
  illegal_transition, binding_conflict, EventInput, record_event,
}
use cmap.Store.Compare.{assert_same_task_input, same_binding, binding_json, spread}

-- TransitionTaskInput
pub record TransitionInput : Type 0 where
  pub task_id : String
  pub to : TaskState
  pub actor : EventActor
  pub event_type : String
  pub payload : Fields
  pub causation_id : Option String
  pub idempotency_key : String
  pub expected_from : Option TaskState

pub record ClaimResult : Type 0 where
  pub task : TaskRecord
  pub claimed : Bool

-- the literals of TASK_STATES
abbrev pub state_text : TaskState → String
state_text TaskState.draft = "DRAFT"
state_text TaskState.ready = "READY"
state_text TaskState.queued = "QUEUED"
state_text TaskState.running = "RUNNING"
state_text TaskState.waiting_resource = "WAITING_RESOURCE"
state_text TaskState.input_required = "INPUT_REQUIRED"
state_text TaskState.auth_required = "AUTH_REQUIRED"
state_text TaskState.approval_required = "APPROVAL_REQUIRED"
state_text TaskState.verifying = "VERIFYING"
state_text TaskState.reviewing = "REVIEWING"
state_text TaskState.rework = "REWORK"
state_text TaskState.completed = "COMPLETED"
state_text TaskState.failed_retryable = "FAILED_RETRYABLE"
state_text TaskState.failed_terminal = "FAILED_TERMINAL"
state_text TaskState.canceled = "CANCELED"
state_text TaskState.rejected = "REJECTED"

unfoldable pub get_task : String → MemoryStore → Option TaskRecord
get_task id s = get s.tasks id

-- the read-back of createTask
unfoldable pub check_created_task : String → Option TaskRecord → Outcome StoreError TaskRecord
check_created_task id none = err (write_verification "Task" id)
check_created_task id (some back) =
    if back.id == id then ok back else err (write_verification "Task" id)

-- the read-back of transitionTask
unfoldable pub check_task_state :
    String → TaskState → Option TaskRecord → Outcome StoreError TaskRecord
check_task_state id to none = err (write_verification "Task" id)
check_task_state id to (some back) =
    if same_state back.state to then ok back else err (write_verification "Task" id)

-- t.state !== expectedFrom, where it is given
unfoldable pub is_stale : Option TaskState → TaskState → Bool
is_stale none actual = false
is_stale (some expected) actual = not (same_state actual expected)

abbrev pub expected_or : Option TaskState → TaskState → TaskState
expected_or none actual = actual
expected_or (some e) actual = e

-- the event of a transition: the payload of the caller is spread over `from` and `to`
unfoldable pub task_moved : TaskRecord → TransitionInput → EventInput
unfolding spread
task_moved t i = record {
  mission_id = t.mission_id;
  task_id = some t.id;
  event_type = i.event_type;
  actor = i.actor;
  idempotency_key = i.idempotency_key;
  payload =
      spread (field "from" (str (state_text t.state)) (field "to" (str (state_text i.to)) end))
        i.payload;
  causation_id = i.causation_id;
}

module _ (p : Platform) where
  -- the event of a task's creation
  unfoldable pub task_created : TaskRecord → EventActor → Option String → EventInput
  task_created t actor cause = record {
    mission_id = t.mission_id;
    task_id = some t.id;
    event_type = "TASK_CREATED";
    actor = actor;
    idempotency_key = "task-created:" ⧺ t.id;
    payload = field "capability" (str t.capability) (field "risk" (str (risk_text t.risk)) end);
    causation_id = cause;
  }

  -- createTask for an id that is not there
  unfoldable pub insert_task : ℕ → TaskRecord → EventActor → Option String → Method TaskRecord
  insert_task now t actor cause s =
      let written =
        record_event p now (task_created t actor cause) (record s { tasks = put s.tasks t.id t }) in
      (check_created_task t.id (get written.tasks t.id), written)

  unfoldable pub create_task : ℕ → TaskRecord → EventActor → Option String → Method TaskRecord
  create_task now t actor cause s = elim (get s.tasks t.id) [
    | some existing ↦ elim (assert_same_task_input existing t) [
      | ok _ ↦ (ok existing, s)
      | err e ↦ (err e, s)
    ]
    | none ↦ insert_task now t actor cause s
  ]

  -- the record that a transition writes
  unfoldable pub moved_task : ℕ → TaskRecord → TaskState → MemoryStore → TaskRecord
  moved_task now t to s = record t { state = to; lamport = suc s.lamport; updated_at = p.iso now }

  -- the second stage of transitionTask: state and event are written together, then read back
  unfoldable pub commit_transition : ℕ → TransitionInput → TaskRecord → Method TaskRecord
  commit_transition now i t s =
      let written =
        record_event p now (task_moved t i)
          (record s { tasks = put s.tasks t.id (moved_task now t i.to s) }) in
      (check_task_state t.id i.to (get written.tasks t.id), written)

  -- the checks on a task that was found
  unfoldable pub transition_found : ℕ → TransitionInput → TaskRecord → Method TaskRecord
  transition_found now i t s =
      if is_stale i.expected_from t.state
      then (
        err (concurrent_modification i.task_id (expected_or i.expected_from t.state) t.state),
        s,
      )
      else elim (assert_transition t.state i.to) [
        | err e ↦ (err (illegal_transition e), s)
        | ok _ ↦ commit_transition now i t s
      ]

  unfoldable pub transition_task : ℕ → TransitionInput → Method TaskRecord
  transition_task now i s =
      if has s.seen_keys i.idempotency_key
      then elim (get s.tasks i.task_id) [
        | none ↦ (err (not_found "Task" i.task_id), s)
        | some existing ↦ (ok existing, s)
      ]
      else elim (get s.tasks i.task_id) [
        | none ↦ (err (not_found "Task" i.task_id), s)
        | some t ↦ transition_found now i t s
      ]

  -- the event of a claim
  unfoldable pub dispatch_intent : TaskRecord → RemoteTaskBinding → EventActor → EventInput
  unfolding binding_json
  dispatch_intent t b actor = record {
    mission_id = t.mission_id;
    task_id = some t.id;
    event_type = "TASK_DISPATCH_INTENT";
    actor = actor;
    idempotency_key = "task-dispatch-intent:" ⧺ t.id ⧺ ":" ⧺ b.adapter ⧺ ":" ⧺ b.remote_task_id;
    payload =
        field "from" (str (state_text t.state))
          (field "to" (str "RUNNING") (field "binding" (binding_json b) end));
    causation_id = none;
  }

  -- the binding of the read-back of claimTaskBinding
  unfoldable pub has_binding : Option RemoteTaskBinding → RemoteTaskBinding → Bool
  has_binding none b = false
  has_binding (some a) b = same_binding a b

  unfoldable pub check_claim :
      String → RemoteTaskBinding → Option TaskRecord → Outcome StoreError ClaimResult
  unfolding has_binding
  check_claim id b none = err (write_verification "Task" id)
  check_claim id b (some back) =
      if same_state back.state running && has_binding back.binding b
      then ok (record { task = back; claimed = true })
      else err (write_verification "Task" id)

  -- claimTaskBinding of a task without a binding
  unfoldable pub claim_unbound :
      ℕ → RemoteTaskBinding → EventActor → TaskRecord → Method ClaimResult
  claim_unbound now b actor t s =
      if not (same_state t.state queued) && not (same_state t.state waiting_resource)
      then (err (illegal_transition (record { from = t.state; to = running })), s)
      else (let next = record t {
        state = running;
        binding = some b;
        lamport = suc s.lamport;
        updated_at = p.iso now;
      } in
          let written =
            record_event p now (dispatch_intent t b actor)
              (record s { tasks = put s.tasks t.id next }) in
          (check_claim t.id b (get written.tasks t.id), written))

  -- claimTaskBinding of a task that was found
  unfoldable pub claim_found :
      ℕ
      → String
      → RemoteTaskBinding
      → EventActor
      → TaskRecord
      → Option RemoteTaskBinding
      → Method ClaimResult
  claim_found now id b actor t (some bound) s =
      if same_binding bound b
      then (ok (record { task = t; claimed = false }), s)
      else (err (binding_conflict id), s)
  claim_found now id b actor t none s = claim_unbound now b actor t s

  unfoldable pub claim_task_binding :
      ℕ → String → RemoteTaskBinding → EventActor → Method ClaimResult
  claim_task_binding now id b actor s = elim (get s.tasks id) [
    | none ↦ (err (not_found "Task" id), s)
    | some t ↦ claim_found now id b actor t t.binding s
  ]

  -- the read-back of setTaskResult
  unfoldable pub check_result :
      String → TaskResult → Option TaskRecord → Outcome StoreError TaskRecord
  check_result id r none = err (write_verification "Task" id)
  check_result id r (some back) = elim back.outcome [
    | none ↦ err (write_verification "Task" id)
    | some got ↦ if got.status == r.status then ok back else err (write_verification "Task" id)
  ]

  unfoldable pub set_task_result : ℕ → String → TaskResult → Method TaskRecord
  set_task_result now id r s = elim (get s.tasks id) [
    | none ↦ (err (not_found "Task" id), s)
    | some t ↦
        let written = record s {
          tasks = put s.tasks id (record t { outcome = some r; updated_at = p.iso now });
        } in
        (check_result id r (get written.tasks id), written)
  ]

-- TaskQuery
pub record TaskQuery : Type 0 where
  pub mission_id : Option String
  pub states : Option (List TaskState)
  pub capability : Option String
  pub limit : Option ℕ

-- an optional condition of a query
abbrev pub matches {ℓ} : {A : Type ℓ} → Option A → (A → Bool) → Bool
matches none test = true
matches (some a) test = test a

-- the same for a text, where an empty one is no condition
abbrev pub matches_text : Option String → (String → Bool) → Bool
matches_text none test = true
matches_text (some s) test = s == "" || test s

-- a.slice(0, n)
unfoldable pub take {ℓ} : {A : Type ℓ} → ℕ → List A → List A
take zero xs = []
take (suc n) [] = []
take (suc n) (x ∷ xs) = x ∷ take n xs

-- q.limit ? out.slice(0, q.limit) : out
unfoldable pub limited {ℓ} : {A : Type ℓ} → Option ℕ → List A → List A
unfolding take
limited none xs = xs
limited (some zero) xs = xs
limited (some (suc n)) xs = take (suc n) xs

unfoldable pub query_tasks : TaskQuery → MemoryStore → List TaskRecord
unfolding limited
query_tasks q s =
    let by_mission =
      keep (λ t. matches_text q.mission_id (λ id. t.mission_id == id)) (values s.tasks) in
    let by_state = keep (λ t. matches q.states (λ states. has_state states t.state)) by_mission in
    let by_capability = keep (λ t. matches_text q.capability (λ c. t.capability == c)) by_state in
    limited q.limit by_capability
