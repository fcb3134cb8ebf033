-- ===== src/Examples/Dispatch.antt =====
-- The theorems on the checks before a dispatch, at the task of the examples.
use cmap.Common.{
  ◌≡◌, refl, false, none, some, [], ◌∷◌, get, put, has, ok, trim_start, trim_end,
  starts_with_any_case,
}
use cmap.TaskState
use cmap.TaskState.{assert_transition, can_transition}
use cmap.Store.Events.{list_events}
use cmap.Store.Missions.{get_mission}
use cmap.Store.Approvals.{get_approval}
use cmap.Entities.{TaskRecord, controlled, needs_approval}
use cmap.Approval.{Approval, approved}
use cmap.Admission.{
  RunnerDescriptor, healthy, runner_unhealthy, assert_runner_admission, admission_subject_from_task,
  is_valid_scope, unit_length, is_plain,
}
use cmap.Store.{MemoryStore, record_event}
use cmap.Store.Tasks.{
  transition_task, transition_found, is_stale, commit_transition, check_task_state, moved_task,
}
use cmap.Preflight.{
  persist_admission_denial, preflight_task_admission, preflight_task_dispatch,
  assert_stored_task_admission, assert_dispatchable_task, assert_current_task_approval,
  is_current_approval, dispatch_admitted, is_machine, is_wrong_phase, denial_input,
}
use cmap.Preflight.Denials.{initial, read_admission_denial}
use cmap.Preflight.Cleared.{IsCleared, dispatch-IsCleared}
use cmap.Preflight.Receipt.{denial_of, receipt_is_read_back}
use package.cmap.Examples.{clock, task_one, ledger_at}

abbrev runner_one : RunnerDescriptor
runner_one = record {
  runner_id = "r1";
  tenant = "acme";
  host = "mac";
  agents = "codex" ∷ [];
  resources = [];
  admission = record {
    allowed_tenants = "acme" ∷ [];
    allowed_owners = "ann" ∷ [];
    allowed_capabilities = "code.edit" ∷ [];
    max_risk = controlled;
  };
  health = healthy;
  last_heartbeat_at = "1";
}

abbrev ready_task : TaskRecord
ready_task = record task_one { state = TaskState.ready }

abbrev approval_given : Approval
approval_given = record {
  id = "apr:t1:controlled";
  mission_id = "m1";
  task_id = "t1";
  action = "edit";
  scope = controlled;
  requested_by = "system:planner";
  risk_level = controlled;
  reason = "edit";
  evidence_artifact_ids = [];
  decision = approved;
  decided_by = some " ann ";
  decided_at = some "5";
  expires_at = "100";
  created_at = "1";
}

abbrev approved_ledger : MemoryStore
approved_ledger = record (ledger_at TaskState.ready) {
  approvals = ("apr:t1:controlled", approval_given) ∷ [];
}

passes : (preflight_task_dispatch clock 10 runner_one ready_task approved_ledger).0 ≡ ok none
unfolding preflight_task_dispatch clock get read_admission_denial list_events
    assert_stored_task_admission get_mission admission_subject_from_task assert_runner_admission
    is_valid_scope unit_length is_plain assert_dispatchable_task assert_current_task_approval
    needs_approval get_approval is_current_approval preflight_task_admission dispatch_admitted
    trim_start trim_end starts_with_any_case is_machine
passes = refl

dispatch-IsCleared_example :
    IsCleared clock 10 runner_one ready_task approved_ledger
    × ((preflight_task_dispatch clock 10 runner_one ready_task approved_ledger).1 ≡ approved_ledger)
dispatch-IsCleared_example =
    dispatch-IsCleared clock 10 runner_one ready_task approved_ledger refl passes

stored_one : get (ledger_at TaskState.ready).tasks "t1" ≡ some ready_task
unfolding get
stored_one = refl

key_is_new : has (ledger_at TaskState.ready).seen_keys "runner-admission:t1" ≡ false
unfolding has get
key_is_new = refl

no_receipt : read_admission_denial ready_task (ledger_at TaskState.ready) ≡ ok none
unfolding read_admission_denial list_events
no_receipt = refl

denies :
    (persist_admission_denial clock 10 runner_one ready_task runner_unhealthy initial
      (ledger_at TaskState.ready)).0
    ≡ ok (denial_of initial runner_unhealthy)
unfolding persist_admission_denial read_admission_denial transition_task get has clock put
    list_events is_wrong_phase denial_input transition_found is_stale assert_transition
    can_transition commit_transition check_task_state record_event moved_task
denies = refl

receipt_is_read_back_example :
    let s' =
      (persist_admission_denial clock 10 runner_one ready_task runner_unhealthy initial
        (ledger_at TaskState.ready)).1 in
    (denial_of initial runner_unhealthy ≡ denial_of initial runner_unhealthy)
    × ((after : TaskRecord) × ((get s'.tasks "t1" ≡ some after)
          × ((after.state ≡ TaskState.canceled)
              × (read_admission_denial after s' ≡ ok (some (denial_of initial runner_unhealthy))))))
receipt_is_read_back_example =
    receipt_is_read_back clock 10 runner_one ready_task runner_unhealthy initial
      (denial_of initial runner_unhealthy) (ledger_at TaskState.ready) stored_one key_is_new
      no_receipt denies
