-- ===== src/Preflight.antt =====
-- workflows/runner-admission.ts: what is checked before a task is handed to a runner, and the receipt of
-- a denial in the ledger. `now` is the clock, which assertCurrentTaskApproval and the store read.
pub mod Denials
pub mod InForce
pub mod Cleared
pub mod Receipt
use cmap.Common.{
  ℕ, ◌≡◌, Bool, true, false, String, ◌==◌, ◌⧺◌, Option, none, some, List, [], ◌∷◌, any, keep,
  Outcome, ok, err, ◌>>=◌, ◌>>◌, not, ◌&&◌, ◌||◌, earlier, not_later, trim, starts_with_any_case,
  Platform, if◌then◌else◌,
}
use cmap.TaskState.{TaskState, same_state}
use cmap.Json.{Json, str, Fields, end, field, get_field}
use cmap.Entities.{
  RiskLevel, same_risk, risk_text, needs_approval, Mission, TaskRecord, TaskEvent, EventActor,
}
use cmap.Approval.{Approval, approved, same_decision, is_time}
use cmap.Admission.{
  AdmissionCode, invalid_runner, runner_unhealthy, tenant_denied, owner_denied, capability_denied,
  risk_denied, host_mismatch, identity_mismatch, classification_mismatch, approval_invalid,
  permit_invalid, input_invalid, RunnerDescriptor, AdmissionSubject, assert_runner_admission,
  admission_subject_from_task,
}
use cmap.Store.{MemoryStore, StoreError}
use cmap.Store.Missions.{get_mission}
use cmap.Store.Tasks.{TransitionInput, transition_task}
use cmap.Store.Approvals.{get_approval}
use cmap.Store.Events.{list_events}
use cmap.Preflight.Denials.{
  Phase, AdmissionDenial, PreflightError, code_text, phase_text, reason_prefix,
  admission_denial_reason, receipt_key, code_of, phase_of, text_of, denial_type, denial_state,
  is_bound, fits_phase, is_task, receipt_of, and_then, judge_receipts, read_admission_denial,
  initial, post_intent, refused, task_not_dispatchable, receipt_invalid, phase_invalid, store_error,
}

abbrev is_one_of : List TaskState → TaskState → Bool
is_one_of xs s = any (λ x. same_state x s) xs

unfoldable pub is_dispatchable : TaskState → Bool
is_dispatchable = is_one_of (TaskState.ready ∷ TaskState.queued ∷ TaskState.waiting_resource ∷ [])

unfoldable pub assert_dispatchable_task : TaskRecord → Outcome PreflightError (Unit {0})
unfolding is_dispatchable
assert_dispatchable_task t = if is_dispatchable t.state then ok tt else err task_not_dispatchable

abbrev pub text_or : String → Option String → String
text_or d none = d
text_or d (some s) = s

-- /^(agent|system):/i
unfoldable pub is_machine : String → Bool
is_machine who = starts_with_any_case "agent:" who || starts_with_any_case "system:" who

abbrev pub stored_subject : Option Mission → TaskRecord → Outcome AdmissionCode AdmissionSubject
stored_subject none t = err identity_mismatch
stored_subject (some m) t = admission_subject_from_task m t

unfoldable pub assert_stored_task_admission :
    RunnerDescriptor → TaskRecord → MemoryStore → Outcome AdmissionCode (Unit {0})
assert_stored_task_admission runner t s =
    stored_subject (get_mission t.mission_id s) t >>= λ subject.
    assert_runner_admission runner subject

-- a task of a phase that the call does not fit
unfoldable pub is_wrong_phase : Phase → TaskRecord → Bool
is_wrong_phase initial t = is_bound t
is_wrong_phase post_intent t = not (is_bound t) || not (same_state t.state TaskState.running)

unfoldable pub denial_input : RunnerDescriptor → TaskRecord → AdmissionDenial → TransitionInput
unfolding admission_denial_reason
denial_input runner t d = record {
  task_id = t.id;
  to = denial_state d.phase;
  actor = record { kind = "system"; id = "runner-admission"; runner_id = some runner.runner_id };
  event_type = denial_type d.phase;
  payload = field "phase" (str (phase_text d.phase)) (
      field "code" (str (code_text d.code)) (field "reason" (str (admission_denial_reason d)) end));
  causation_id = none;
  idempotency_key = receipt_key t.id;
  expected_from = some t.state;
}

-- what the call of the store comes to
abbrev pub after_receipt :
    AdmissionDenial
    → Outcome StoreError TaskRecord × MemoryStore
    → Outcome PreflightError AdmissionDenial × MemoryStore
after_receipt d (ok _, s) = (ok d, s)
after_receipt d (err e, s) = (err (store_error e), s)

module _ (p : Platform) where
  -- the approval is of this task and risk, by a person other than the one who asked, and in force
  unfoldable pub is_current_approval : ℕ → TaskRecord → String → Approval → Bool
  unfolding is_machine
  is_current_approval now t id a =
      let who = trim (text_or "" a.decided_by) in
      let created = p.date_parse a.created_at in
      let decided = p.date_parse (text_or "" a.decided_at) in
      let expires = p.date_parse a.expires_at in
      a.id == id
      && a.task_id == t.id
      && a.mission_id == t.mission_id
      && same_risk a.scope t.risk
      && same_decision a.decision approved
      && not (who == "")
      && not (who == trim a.requested_by)
      && not (is_machine who)
      && is_time created
      && is_time decided
      && not (earlier decided created)
      && not (earlier (some now) decided)
      && is_time expires
      && not (not_later expires (some now))

  abbrev pub is_current : ℕ → TaskRecord → String → Option Approval → Bool
  is_current now t id none = false
  is_current now t id (some a) = is_current_approval now t id a

  unfoldable pub assert_current_task_approval :
      ℕ → TaskRecord → MemoryStore → Outcome AdmissionCode (Unit {0})
  assert_current_task_approval now t s =
      let id = "apr:" ⧺ t.id ⧺ ":" ⧺ risk_text t.risk in
      if not (needs_approval t.risk)
      then ok tt
      else if is_current now t id (get_approval id s)
      then ok tt
      else err approval_invalid

  unfoldable pub persist_admission_denial :
      ℕ
      → RunnerDescriptor
      → TaskRecord
      → AdmissionCode
      → Phase
      → MemoryStore
      → Outcome PreflightError AdmissionDenial × MemoryStore
  persist_admission_denial now runner t code phase s = elim (read_admission_denial t s) [
    | err e ↦ (err e, s)
    | ok (some previous) ↦ (ok previous, s)
    | ok none ↦
        if is_wrong_phase phase t
        then (err phase_invalid, s)
        else (let denial : AdmissionDenial = record { phase = phase; code = code } in
            after_receipt denial (transition_task p now (denial_input runner t denial) s))
  ]

  -- a denial, as the answer of a preflight
  abbrev pub as_answer :
      Outcome PreflightError AdmissionDenial × MemoryStore
      → Outcome PreflightError (Option AdmissionDenial) × MemoryStore
  as_answer (ok d, s) = (ok (some d), s)
  as_answer (err e, s) = (err e, s)

  -- a check that is caught: a RunnerAdmissionError becomes a denial of the first phase
  abbrev pub caught :
      ℕ
      → RunnerDescriptor
      → TaskRecord
      → Outcome AdmissionCode (Unit {0})
      → MemoryStore
      → Outcome PreflightError (Option AdmissionDenial) × MemoryStore
  caught now runner t (ok _) s = (ok none, s)
  caught now runner t (err code) s =
      as_answer (persist_admission_denial now runner t code initial s)

  -- the states that preflightTaskAdmission lets through
  abbrev pub is_waiting_for_runner : TaskState → Bool
  is_waiting_for_runner = is_one_of (
      TaskState.draft ∷ TaskState.ready ∷ TaskState.queued ∷ TaskState.waiting_resource
      ∷ TaskState.approval_required ∷ [])

  unfoldable pub preflight_task_admission :
      ℕ
      → RunnerDescriptor
      → TaskRecord
      → MemoryStore
      → Outcome PreflightError (Option AdmissionDenial) × MemoryStore
  preflight_task_admission now runner t s = elim (read_admission_denial t s) [
    | err e ↦ (err e, s)
    | ok (some previous) ↦ (ok (some previous), s)
    | ok none ↦
        if is_bound t
        then (ok none, s)
        else if not (is_waiting_for_runner t.state)
        then (err task_not_dispatchable, s)
        else caught now runner t (assert_stored_task_admission runner t s) s
  ]

  -- the rest of preflightTaskDispatch, by the answer on admission
  unfoldable pub dispatch_admitted :
      ℕ
      → RunnerDescriptor
      → TaskRecord
      → Outcome PreflightError (Option AdmissionDenial) × MemoryStore
      → Outcome PreflightError (Option AdmissionDenial) × MemoryStore
  dispatch_admitted now runner t (err e, s) = (err e, s)
  dispatch_admitted now runner t (ok (some d), s) = (ok (some d), s)
  dispatch_admitted now runner t (ok none, s) =
      if is_bound t then (ok none, s) else elim (assert_dispatchable_task t) [
        | err e ↦ (err e, s)
        | ok _ ↦ caught now runner t (assert_current_task_approval now t s) s
      ]

  unfoldable pub preflight_task_dispatch :
      ℕ
      → RunnerDescriptor
      → TaskRecord
      → MemoryStore
      → Outcome PreflightError (Option AdmissionDenial) × MemoryStore
  unfolding preflight_task_admission dispatch_admitted
  preflight_task_dispatch now runner t s =
      dispatch_admitted now runner t (preflight_task_admission now runner t s)
