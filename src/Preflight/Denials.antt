-- ===== src/Preflight/Denials.antt =====
-- The denials of workflows/runner-admission.ts, and readAdmissionDenial, which reads one from the ledger.
use cmap.Common.{
  Bool, true, false, String, ◌==◌, ◌⧺◌, Option, none, some, List, [], ◌∷◌, keep, Outcome, ok, err,
  not, ◌&&◌, if◌then◌else◌,
}
use cmap.TaskState.{TaskState, same_state}
use cmap.Json.{Json, str, get_field}
use cmap.Entities.{TaskRecord, TaskEvent}
use cmap.Admission.{
  AdmissionCode, invalid_runner, runner_unhealthy, tenant_denied, owner_denied, capability_denied,
  risk_denied, host_mismatch, identity_mismatch, classification_mismatch, approval_invalid,
  permit_invalid, input_invalid,
}
use cmap.Store.{MemoryStore, StoreError}
use cmap.Store.Events.{list_events}

pub data Phase : Type 0 where
  initial post_intent : Phase

pub record AdmissionDenial : Type 0 where
  pub phase : Phase
  pub code : AdmissionCode

-- a RunnerAdmissionError, the errors of this file, and those of the store
pub data PreflightError : Type 0 where
  refused : AdmissionCode → PreflightError
  task_not_dispatchable receipt_invalid phase_invalid : PreflightError
  store_error : StoreError → PreflightError

abbrev pub code_text : AdmissionCode → String
code_text invalid_runner = "INVALID_RUNNER"
code_text runner_unhealthy = "RUNNER_UNHEALTHY"
code_text tenant_denied = "TENANT_DENIED"
code_text owner_denied = "OWNER_DENIED"
code_text capability_denied = "CAPABILITY_DENIED"
code_text risk_denied = "RISK_DENIED"
code_text host_mismatch = "HOST_MISMATCH"
code_text identity_mismatch = "IDENTITY_MISMATCH"
code_text classification_mismatch = "CLASSIFICATION_MISMATCH"
code_text approval_invalid = "APPROVAL_INVALID"
code_text permit_invalid = "PERMIT_INVALID"
code_text input_invalid = "INPUT_INVALID"

abbrev pub phase_text : Phase → String
phase_text initial = "initial"
phase_text post_intent = "post-intent"

abbrev pub reason_prefix : Phase → String
reason_prefix initial = "RUNNER_ADMISSION_DENIED"
reason_prefix post_intent = "RUNNER_ADMISSION_REVOKED"

unfoldable pub admission_denial_reason : AdmissionDenial → String
admission_denial_reason d = reason_prefix d.phase ⧺ ":" ⧺ code_text d.code

abbrev pub receipt_key : String → String
receipt_key task = "runner-admission:" ⧺ task

-- the codes by their texts
unfoldable pub code_of : String → Option AdmissionCode
code_of s =
    if s == "INVALID_RUNNER"
    then some invalid_runner
    else if s == "RUNNER_UNHEALTHY"
    then some runner_unhealthy
    else if s == "TENANT_DENIED"
    then some tenant_denied
    else if s == "OWNER_DENIED"
    then some owner_denied
    else if s == "CAPABILITY_DENIED"
    then some capability_denied
    else if s == "RISK_DENIED"
    then some risk_denied
    else if s == "HOST_MISMATCH"
    then some host_mismatch
    else if s == "IDENTITY_MISMATCH"
    then some identity_mismatch
    else if s == "CLASSIFICATION_MISMATCH"
    then some classification_mismatch
    else if s == "APPROVAL_INVALID"
    then some approval_invalid
    else if s == "PERMIT_INVALID"
    then some permit_invalid
    else if s == "INPUT_INVALID"
    then some input_invalid
    else none

unfoldable pub phase_of : String → Option Phase
phase_of s =
    if s == "initial" then some initial else if s == "post-intent" then some post_intent else none

-- the text of a payload's field
abbrev pub text_of : Option Json → Option String
text_of (some (str s)) = some s
text_of _ = none

abbrev pub denial_type : Phase → String
denial_type initial = "TASK_CANCELED"
denial_type post_intent = "TASK_FAILED"

abbrev pub denial_state : Phase → TaskState
denial_state initial = TaskState.canceled
denial_state post_intent = TaskState.failed_terminal

abbrev pub is_bound : TaskRecord → Bool
is_bound t = elim t.binding [ none ↦ false | some _ ↦ true ]

-- a denial of the first phase is of a task without a binding, the other of one with
abbrev pub fits_phase : Phase → TaskRecord → Bool
fits_phase initial t = not (is_bound t)
fits_phase post_intent t = is_bound t

abbrev pub is_task : Option String → String → Bool
is_task none id = false
is_task (some t) id = t == id

-- the receipt, by the phase and the code that it names
unfoldable pub receipt_of :
    TaskRecord
    → TaskEvent
    → Option Phase
    → Option AdmissionCode
    → Outcome PreflightError (Option AdmissionDenial)
receipt_of t e none code = err receipt_invalid
receipt_of t e (some phase) none = err receipt_invalid
receipt_of t e (some phase) (some code) =
    if is_task e.task_id t.id
      && e.event_type == denial_type phase
      && same_state t.state (denial_state phase)
      && fits_phase phase t
    then ok (some (record { phase = phase; code = code }))
    else err receipt_invalid

abbrev pub and_then {ℓ κ} : {A : Type ℓ} {B : Type κ} → Option A → (A → Option B) → Option B
and_then none f = none
and_then (some a) f = f a

unfoldable pub judge_receipts :
    TaskRecord → List TaskEvent → Outcome PreflightError (Option AdmissionDenial)
unfolding receipt_of phase_of code_of
judge_receipts t [] = ok none
judge_receipts t (e ∷ []) =
    receipt_of t e (and_then (text_of (get_field e.payload "phase")) phase_of)
      (and_then (text_of (get_field e.payload "code")) code_of)
judge_receipts t (e ∷ f ∷ es) = err receipt_invalid

unfoldable pub read_admission_denial :
    TaskRecord → MemoryStore → Outcome PreflightError (Option AdmissionDenial)
unfolding judge_receipts
read_admission_denial t s =
    judge_receipts t
      (keep (λ e. e.idempotency_key == receipt_key t.id) (list_events t.mission_id s))
