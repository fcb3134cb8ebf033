-- ===== src/Examples/Tasks.antt =====
-- The theorems on tasks and missions of the ledger, at one small ledger.
use cmap.Common.{
  ℕ, true, false, ◌==◌, none, some, List, [], ◌∷◌, get, put, has, ok, err, ◌≡◌, refl, if◌then◌else◌,
  keep,
}
use cmap.TaskState.{
  draft, ready, queued, running, verifying, reviewing, completed, canceled, is_terminal,
  can_transition, assert_transition,
}
use cmap.Entities.{Mission, MissionState, TaskRecord, RemoteTaskBinding}
use cmap.Store.{illegal_transition, binding_conflict, empty_store, record_event}
use cmap.Store.Events.{list_events}
use cmap.Ledger.Order.{list_events-in_order, Ascending}
use cmap.Ledger.OneEvent.{Logged, after-Logged}
use cmap.Ledger.MissionHistory.{Endures, mission-Endures}
use cmap.Store.Tasks.{
  is_stale, task_moved, check_task_state, moved_task, commit_transition, transition_found,
  transition_task, claim_unbound, claim_found, claim_task_binding, dispatch_intent, check_claim,
  ClaimResult,
}
use cmap.Json.{json_equal}
use cmap.Store.Compare.{same_binding}
use cmap.Ledger.{Call, transitions, claims, sets_mission_state, after, after_all}
use cmap.Ledger.Claims.{claim_is_exclusive}
use cmap.Ledger.TaskHistory.{task-Continues, ended_task_stays, completed_task_was_verified, Passes}
use cmap.Ledger.TaskSteps.{Continues}
use cmap.Store.Tasks.Transition.{transition_redelivered, transition_error_writes_nothing}
use package.cmap.Examples.{
  clock, operator, mission_one, task_one, ledger_at, ledger_at-IsKeyed, to_state, binding_to,
}

-- a start and a redelivery of it, and a claim
abbrev start_calls : List (ℕ × Call)
start_calls =
    (5, transitions (to_state ready "a"))
    ∷ (6, transitions (to_state queued "b"))
    ∷ (7, claims "t1" (binding_to "x") operator)
    ∷ []

found_draft : get (ledger_at draft).tasks "t1" ≡ some task_one
unfolding get
found_draft = refl

task-Continues_example :
    (t' : TaskRecord) × (get (after_all clock start_calls (ledger_at draft)).tasks "t1" ≡ some t')
    × Continues task_one t'
task-Continues_example =
    task-Continues clock start_calls (ledger_at draft) "t1" task_one (ledger_at-IsKeyed draft)
      found_draft

abbrev finishing_calls : List (ℕ × Call)
finishing_calls =
    (1, transitions (to_state ready "a"))
    ∷ (2, transitions (to_state queued "b"))
    ∷ (3, transitions (to_state running "c"))
    ∷ (4, transitions (to_state verifying "d"))
    ∷ (5, transitions (to_state reviewing "e"))
    ∷ (6, transitions (to_state completed "f"))
    ∷ []

abbrev finished : TaskRecord
finished = record task_one { state = completed; lamport = 6; updated_at = "6" }

found_finished : get (after_all clock finishing_calls (ledger_at draft)).tasks "t1" ≡ some finished
unfolding after_all after transition_task transition_found commit_transition moved_task task_moved
    check_task_state is_stale assert_transition can_transition record_event has get put clock
found_finished = refl

completed_task_was_verified_example :
    Passes clock running finishing_calls (ledger_at draft) "t1"
    × Passes clock verifying finishing_calls (ledger_at draft) "t1"
completed_task_was_verified_example =
    completed_task_was_verified clock finishing_calls (ledger_at draft) "t1" task_one finished
      (ledger_at-IsKeyed draft) found_draft refl found_finished refl

abbrev done_task : TaskRecord
done_task = record task_one { state = completed }

found_done : get (ledger_at completed).tasks "t1" ≡ some done_task
unfolding get
found_done = refl

done_is_terminal : is_terminal completed ≡ true
unfolding is_terminal
done_is_terminal = refl

ended_task_stays_example :
    (t' : TaskRecord) × (get (after_all clock start_calls (ledger_at completed)).tasks "t1"
      ≡ some t')
    × (t'.state ≡ completed)
ended_task_stays_example =
    ended_task_stays clock start_calls (ledger_at completed) "t1" done_task
      (ledger_at-IsKeyed completed) found_done done_is_terminal

-- one transition, delivered at 5 and again at 9 with another target
abbrev ready_task : TaskRecord
ready_task = record task_one { state = ready; lamport = 1; updated_at = "5" }

moved_once : (transition_task clock 5 (to_state ready "a") (ledger_at draft)).0 ≡ ok ready_task
unfolding transition_task transition_found commit_transition moved_task task_moved check_task_state
    is_stale assert_transition can_transition record_event has get put clock
moved_once = refl

transition_redelivered_example :
    transition_task clock 9
      (to_state canceled "a")
      (transition_task clock 5 (to_state ready "a") (ledger_at draft)).1
    ≡ (ok ready_task, (transition_task clock 5 (to_state ready "a") (ledger_at draft)).1)
transition_redelivered_example =
    transition_redelivered clock 5 9 (to_state ready "a") (to_state canceled "a") (ledger_at draft)
      ready_task (ledger_at-IsKeyed draft) moved_once refl refl

thrown_early :
    (transition_task clock 5 (to_state running "a") (ledger_at draft)).0
    ≡ err (illegal_transition (record { from = draft; to = running }))
unfolding transition_task transition_found is_stale assert_transition can_transition has get
thrown_early = refl

transition_error_writes_nothing_example :
    (transition_task clock 5 (to_state running "a") (ledger_at draft)).1 ≡ ledger_at draft
transition_error_writes_nothing_example =
    transition_error_writes_nothing clock 5 (to_state running "a") (ledger_at draft)
      (illegal_transition (record { from = draft; to = running })) thrown_early

abbrev claimed_once : ClaimResult
claimed_once = record {
  task = record task_one {
    state = running;
    binding = some (binding_to "x");
    lamport = 1;
    updated_at = "5";
  };
  claimed = true;
}

claims_once :
    (claim_task_binding clock 5 "t1" (binding_to "x") operator (ledger_at queued)).0
    ≡ ok claimed_once
unfolding claim_task_binding claim_found claim_unbound dispatch_intent check_claim same_binding
    record_event get put clock json_equal
claims_once = refl

-- the task goes to verification, and another binding claims it
abbrev later_calls : List (ℕ × Call)
later_calls =
    (6, transitions (to_state verifying "v")) ∷ (7, claims "t1" (binding_to "z") operator) ∷ []

claim_is_exclusive_example :
    let s' =
      after_all clock later_calls
        (claim_task_binding clock 5 "t1" (binding_to "x") operator (ledger_at queued)).1 in
    (bound : RemoteTaskBinding) × (t : TaskRecord) × (get s'.tasks "t1" ≡ some t)
    × (t.binding ≡ some bound)
    × (same_binding bound (binding_to "x") ≡ true)
    × (claim_task_binding clock 9 "t1" (binding_to "y") operator s' ≡ (
        if same_binding bound (binding_to "y")
        then (ok (record { task = t; claimed = false }), s')
        else (err (binding_conflict "t1"), s')))
claim_is_exclusive_example =
    claim_is_exclusive clock 5 9 "t1" (binding_to "x") (binding_to "y") operator operator
      (ledger_at queued) claimed_once later_calls (ledger_at-IsKeyed queued) claims_once

refused_claim :
    (claim_task_binding clock 5 "t1" (binding_to "x") operator (ledger_at draft)).0
    ≡ err (illegal_transition (record { from = draft; to = running }))
unfolding claim_task_binding claim_found claim_unbound get
refused_claim = refl

list_events-in_order_example :
    let s = after_all clock start_calls empty_store in
    (list_events "m1" s ≡ keep (λ e. e.mission_id == "m1") s.events)
    × Ascending 0 (list_events "m1" s) s.lamport
list_events-in_order_example = list_events-in_order clock start_calls "m1"

after-Logged_example :
    Logged (ledger_at draft) (after clock 5 (transitions (to_state ready "a")) (ledger_at draft))
after-Logged_example = after-Logged clock 5 (transitions (to_state ready "a")) (ledger_at draft)

found_mission : get (ledger_at draft).missions "m1" ≡ some mission_one
unfolding get
found_mission = refl

abbrev ending_calls : List (ℕ × Call)
ending_calls =
    (5, sets_mission_state "m1" MissionState.completed operator none)
    ∷ (6, sets_mission_state "m1" MissionState.running operator none)
    ∷ []

mission-Endures_example :
    (m' : Mission) × (get (after_all clock ending_calls (ledger_at draft)).missions "m1" ≡ some m')
    × Endures mission_one m'
mission-Endures_example =
    mission-Endures clock ending_calls (ledger_at draft) "m1" mission_one found_mission
