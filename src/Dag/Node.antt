-- ===== src/Dag/Node.antt =====
-- executeNode of workflows/dag.workflow.ts as a machine that stands at one `await` at a time. A step
-- takes the reply and the shared variables as they are when the code goes on, and runs to the next
-- `await`, to the end, or to a rejection. `return acts.finishDagNode(...)` is not awaited inside the
-- `try`, so its failure rejects, where every other failure is caught.
pub mod Rounds
pub mod Approvals
pub mod Final
pub mod Stopping
use cmap.Common.{
  ℕ, ◌+◌, suc, Bool, true, false, String, ◌==◌, ◌⧺◌, Option, none, some, List, [], ◌∷◌, Dict, get,
  Outcome, ok, err, not, ◌&&◌, ◌||◌, if◌then◌else◌, ltb, ◌≡◌,
}
use cmap.Json.{Json}
use cmap.Dag.{
  NodeStatus, accepted, rework, failed, escalated, is_accepted, is_rework, DagNodeOutcome, DagNode,
  Schedule, ParkPhase, approval, attempt, ParkedDagNode, Patches, stop_reason,
}

-- the variables that the signal handlers and the other nodes write
pub record Shared : Type 0 where
  pub outcomes : Dict DagNodeOutcome
  pub stopping : Bool
  pub draining : Bool
  pub cancel_reason : Option String
  pub history_full : Bool  -- continueAsNewSuggested, or historyLength has reached its bound

-- the variables of one run
pub record Local : Type 0 where
  pub task_id : Option String
  pub attempt_number : ℕ
  pub previous_progress : Option Json

-- the arguments of finishDagNode, less the mission
pub record FinishInput : Type 0 where
  pub task_id : Option String
  pub status : NodeStatus
  pub reason : String

-- where the code waits, with the arguments of the call
pub data Await : Type 0 where
  materializes : ℕ → List (String × String) → Option String → Await  -- attempt, acceptedDeps, supersedes
  checks_approval : String → Await
  waits_approval : String → Await  -- condition or sleep
  runs_attempt : String → Option String → Await  -- task, deadlineAt
  waits_report : String → Option String → Await  -- condition or sleep; the task and deadlineAt
  hands_off : String → Await
  reviews : String → Option Json → Await
  proposes : String → DagNodeOutcome → Await  -- proposeTaskKnowledge, in sideEffect
  finishes : FinishInput → Await

-- what an activity throws: isCancellation, or any other error
pub data Failure : Type 0 where
  cancellation other : Failure

pub data Created : Type 0 where
  created : String → Created
  denied_initial denied_post_intent : String → Created  -- code

pub data ApprovalReply : Type 0 where
  approved pending rejected : ApprovalReply

pub data AttemptReply : Type 0 where
  collected : Option String → AttemptReply  -- reason
  gave_up : Option String → AttemptReply  -- outcome 'escalated', with its reason
  waiting : AttemptReply
  awaiting_report : Option String → AttemptReply  -- deadlineAt

pub data HandoffReply : Type 0 where
  handed_to : String → HandoffReply
  handoff_refused : String → HandoffReply  -- reason

abbrev pub Reply : Await → Type 0
Reply (materializes _ _ _) = Outcome Failure Created
Reply (checks_approval _) = Outcome Failure ApprovalReply
Reply (waits_approval _) = Outcome Failure Unit
Reply (runs_attempt _ _) = Outcome Failure AttemptReply
Reply (waits_report _ _) = Outcome Failure Unit
Reply (hands_off _) = Outcome Failure HandoffReply
Reply (reviews _ _) = Outcome Failure DagNodeOutcome
Reply (proposes _ _) = Outcome Failure Unit
Reply (finishes _) = Outcome Failure DagNodeOutcome

pub data Next : Type 0 where
  awaits : Local → Await → Next
  returns : DagNodeOutcome → Next
  parks : ParkedDagNode → Next
  rejects : Next

-- shouldPark(); where it is true the node parks at once, and `draining` is set
unfoldable pub should_park : Patches → Shared → Bool
should_park patched sh =
    not sh.stopping && (sh.draining || (sh.history_full && patched.continue_as_new))

-- the deps with the tasks that were accepted for them; none where one lacks its proof
unfoldable pub accepted_task : Option DagNodeOutcome → Option String
accepted_task none = none
accepted_task (some o) = if is_accepted o.status then o.task_id else none

unfoldable pub accepted_deps : Dict DagNodeOutcome → List String → Option (List (String × String))
unfolding accepted_task
accepted_deps outcomes [] = some []
accepted_deps outcomes (d ∷ ds) = elim (accepted_task (get outcomes d)) [
  | none ↦ none
  | some t ↦ elim (accepted_deps outcomes ds) [ none ↦ none | some rest ↦ some ((d, t) ∷ rest) ]
]

abbrev pub finish_with : Local → Option String → NodeStatus → String → Next
finish_with l task status reason =
    awaits l (finishes (record { task_id = task; status = status; reason = reason }))

-- the `catch`
abbrev pub caught : Local → Next
caught l = finish_with l l.task_id escalated "NODE_EXECUTION_ERROR"

-- stopped()
abbrev pub stopped : Shared → Local → Next
stopped sh l = finish_with l l.task_id failed (stop_reason sh.cancel_reason)

abbrev pub park_at : DagNode → Local → String → ParkPhase → Next
park_at n l task phase = parks (record {
  node_id = n.node_id;
  task_id = task;
  attempt_number = l.attempt_number;
  previous_progress = l.previous_progress;
  phase = phase;
})

module _ (patched : Patches) (cycles : ℕ) (n : DagNode) where
  -- phase 'materialize'
  unfoldable pub materialize : Shared → Local → Next
  unfolding accepted_deps
  materialize sh l = if sh.stopping then stopped sh l else elim (accepted_deps sh.outcomes n.deps) [
    | none ↦ caught l
    | some deps ↦ awaits l (materializes l.attempt_number deps l.task_id)
  ]

  -- the head of the loop of phase 'approval'
  unfoldable pub ask_approval : Shared → Local → String → Next
  ask_approval sh l task = if sh.stopping then stopped sh l else awaits l (checks_approval task)

  -- the head of the loop of phase 'attempt'
  unfoldable pub run_attempt : Shared → Local → String → Option String → Next
  run_attempt sh l task deadline =
      if sh.stopping then stopped sh l else awaits l (runs_attempt task deadline)

  -- the start of executeNode; a node is parked only with its task
  unfoldable pub begin : Shared → Option ParkedDagNode → Next
  unfolding materialize ask_approval run_attempt
  begin sh none =
      materialize sh (record { task_id = none; attempt_number = 1; previous_progress = none })
  begin sh (some p) =
      let l : Local = record {
        task_id = some p.task_id;
        attempt_number = p.attempt_number;
        previous_progress = p.previous_progress;
      } in
      elim p.phase [
        | approval ↦ ask_approval sh l p.task_id
        | attempt ↦ run_attempt sh l p.task_id none
      ]

  -- `result.reason === 'QUOTA_EXHAUSTED'`
  abbrev is_quota : Option String → Bool
  is_quota none = false
  is_quota (some r) = r == "QUOTA_EXHAUSTED"

  abbrev or_reason : Option String → String → String
  or_reason none d = d
  or_reason (some r) d = r

  -- after a collected attempt
  unfoldable pub collect : Shared → Local → String → Option String → Next
  collect sh l task reason = elim sh.cancel_reason [
    | some r ↦ stopped sh l
    | none ↦
        if is_quota reason && patched.quota_handoff
        then awaits l (hands_off task)
        else awaits l (reviews task l.previous_progress)
  ]

  -- after a review
  unfoldable pub judge_review : Shared → Local → String → DagNodeOutcome → Next
  unfolding materialize
  judge_review sh l task o = elim o.status [
    | accepted ↦ if patched.knowledge then awaits l (proposes task o) else returns o
    | failed ↦ returns o
    | escalated ↦ returns o
    | rework ↦
        if ltb cycles l.attempt_number
        then finish_with l (some task) escalated "BUDGET_EXHAUSTED"
        else materialize sh
            (record l { attempt_number = suc l.attempt_number; previous_progress = o.progress })
  ]

  -- from a reply to the next wait
  unfoldable pub resume : Shared → Local → (a : Await) → Reply a → Next
  unfolding ask_approval run_attempt collect judge_review
  resume sh l (materializes k deps old) (err e) = caught l
  resume sh l (materializes k deps old) (ok (created t)) =
      ask_approval sh (record l { task_id = some t }) t
  resume sh l (materializes k deps old) (ok (denied_initial code)) =
      finish_with l none escalated ("RUNNER_ADMISSION_DENIED:" ⧺ code)
  resume sh l (materializes k deps old) (ok (denied_post_intent code)) =
      finish_with l none escalated ("RUNNER_ADMISSION_REVOKED:" ⧺ code)
  resume sh l (checks_approval t) (err e) = caught l
  resume sh l (checks_approval t) (ok rejected) = finish_with l (some t) failed "APPROVAL_REJECTED"
  resume sh l (checks_approval t) (ok approved) = run_attempt sh l t none
  resume sh l (checks_approval t) (ok pending) =
      if should_park patched sh then park_at n l t approval else awaits l (waits_approval t)
  resume sh l (waits_approval t) (err e) = caught l
  resume sh l (waits_approval t) (ok _) = ask_approval sh l t
  resume sh l (runs_attempt t d) (err e) = caught l
  resume sh l (runs_attempt t d) (ok (collected reason)) = collect sh l t reason
  resume sh l (runs_attempt t d) (ok (gave_up reason)) =
      finish_with l (some t) escalated (or_reason reason "ATTEMPT_FAILED")
  resume sh l (runs_attempt t d) (ok waiting) =
      if should_park patched sh then park_at n l t attempt else awaits l (waits_report t d)
  resume sh l (runs_attempt t d) (ok (awaiting_report d')) =
      if should_park patched sh
      then park_at n l t attempt
      else awaits l (waits_report t (if patched.runner_report then d' else d))
  resume sh l (waits_report t d) (err e) = caught l
  resume sh l (waits_report t d) (ok _) = run_attempt sh l t d
  resume sh l (hands_off t) (err e) = caught l
  resume sh l (hands_off t) (ok (handoff_refused reason)) = finish_with l (some t) escalated reason
  resume sh l (hands_off t) (ok (handed_to t')) =
      ask_approval sh (record l { task_id = some t' }) t'
  resume sh l (reviews t previous) (err e) = caught l
  resume sh l (reviews t previous) (ok o) = judge_review sh l t o
  resume sh l (proposes t o) (err cancellation) = caught l
  resume sh l (proposes t o) (err other) = returns o
  resume sh l (proposes t o) (ok _) = returns o
  resume sh l (finishes i) (err e) = rejects
  resume sh l (finishes i) (ok o) = returns o

  -- any number of steps, with the shared variables at each
  pub data Steps (x : Next) : Next → Type 0 where
    here : Steps x x
    step :
        {y : Next} (l : Local) (a : Await)
        → Steps x (awaits l a)
        → (sh : Shared) (r : Reply a) → y ≡ resume sh l a r
        → Steps x y
