-- ===== src/Examples.antt =====
-- Concrete inputs: a clock whose times are the decimal texts of numbers, and the records of one
-- mission, one task, one runner. The child modules apply the theorems to them.
mod Tasks
mod Records
mod Plans
mod Evidence
mod Signatures
mod Workflow
mod Dispatch
mod Quotas
mod Attention
use Prim.Native.Char.{code}
use Prim.Native.String
use cmap.Common.{
  ℕ, ◌+◌, ◌-◌, ◌*◌, Bool, true, false, String, ◌==◌, Option, none, some, List, [], ◌∷◌, get, put,
  Platform, decimal, leb, ◌&&◌, if◌then◌else◌, ◌≡◌, ==→eq, arith, Bool-cases, inl, inr, subst,
}
use cmap.TaskState.{TaskState, draft, queued, ready}
use cmap.Json.{Json, null, Fields, end}
use cmap.Entities.{
  Mission, running, controlled, Envelope, TaskRecord, EventActor, RemoteTaskBinding,
}
use cmap.Store.{MemoryStore, empty_store, IsKeyed}
use cmap.Store.Tasks.{TransitionInput}

-- a text of digits, after the digits of `n`
read_time : ℕ → String → Option ℕ
read_time n String.[] = some n
read_time n (String.◌∷◌ c s) =
    let rest = read_time (n * 10 + (code c - b'0')) s in
    if leb b'0' (code c) && leb (code c) b'9' then rest else none

unfoldable pub clock : Platform
unfolding read_time decimal
clock = record { date_parse = read_time 0; iso = decimal }

abbrev pub operator : EventActor
operator = record { kind = "system"; id = "control-plane"; runner_id = none }

abbrev pub mission_one : Mission
mission_one = record {
  id = "m1";
  tenant = "acme";
  owner = "ann";
  kind = "analysis";
  goal = "measure";
  constraints = null;
  acceptance = null;
  workflow_template = "dag";
  state = running;
  revision = 1;
  created_at = "1";
  updated_at = "1";
}

abbrev pub envelope_one : Envelope
envelope_one = record {
  mission_id = "m1";
  task_id = "t1";
  revision = 1;
  tenant = some "acme";
  owner = some "ann";
  idempotency_key = "k1";
  requested_capability = "code.edit";
  risk_level = controlled;
  affinity_host = none;
  other = null;
}

abbrev pub task_one : TaskRecord
task_one = record {
  id = "t1";
  mission_id = "m1";
  parent_task_id = none;
  supersedes_task_id = none;
  capability = "code.edit";
  risk = controlled;
  state = draft;
  attempt = 1;
  max_attempts = 3;
  lamport = 0;
  envelope = envelope_one;
  outcome = none;
  binding = none;
  deps = [];
  created_at = "1";
  updated_at = "1";
}

-- the ledger of the mission with a task in a given state
abbrev pub ledger_at : TaskState → MemoryStore
ledger_at st = record empty_store {
  missions = ("m1", mission_one) ∷ [];
  tasks = ("t1", record task_one { state = st }) ∷ [];
}

pub ledger_at-IsKeyed : (st : TaskState) → IsKeyed (ledger_at st)
unfolding get
ledger_at-IsKeyed st k t h = elim (Bool-cases ("t1" == k)) [
  | inl same ↦
      let e : record task_one { state = st } ≡ t = ground arith in
      subst (λ (u : TaskRecord). u.id ≡ k) e (==→eq "t1" k same)
  | inr other ↦ absurd (ground arith)
]

-- the transition to a state under a key
abbrev pub to_state : TaskState → String → TransitionInput
to_state st key = record {
  task_id = "t1";
  to = st;
  actor = operator;
  event_type = "TASK_STARTED";
  payload = end;
  causation_id = none;
  idempotency_key = key;
  expected_from = none;
}

abbrev pub binding_to : String → RemoteTaskBinding
binding_to remote = record {
  adapter = "codex";
  remote_task_id = remote;
  remote_context_id = none;
  protocol = "a2a";
  protocol_version = "1";
  runner_id = "r1";
  provider_session_id = none;
}
