-- ===== src/Preflight/Cleared.antt =====
-- A task that passes the preflight without a denial has been cleared.
use cmap.Common.{
  get, ℕ, ◌≡◌, refl, subst, ◌∙◌, true, false, ◌⧺◌, Option, none, some, Outcome, ok, err, >>=-eq-ok,
  arith, Bool-cases, Option-cases, Outcome-cases, ◌⊎◌, inl, inr, Platform,
}
use cmap.TaskState.{TaskState}
use cmap.Entities.{Mission, TaskRecord, needs_approval, risk_text, read_meta, read_sensitive}
use cmap.Preflight.InForce.{InForce, current-InForce, dispatchable-cases, unguarded_risk}
use cmap.Approval.{Approval}
use cmap.Admission.{
  AdmissionCode, RunnerDescriptor, AdmissionSubject, admission_subject_from_task,
  assert_runner_admission,
}
use cmap.Store.{MemoryStore}
use cmap.Store.Missions.{get_mission}
use cmap.Store.Approvals.{get_approval}
use cmap.Preflight.{
  is_dispatchable, is_waiting_for_runner, assert_dispatchable_task, stored_subject,
  assert_stored_task_admission, assert_current_task_approval, caught, as_answer,
  persist_admission_denial, preflight_task_admission, dispatch_admitted, preflight_task_dispatch,
}
use cmap.Preflight.Denials.{
  PreflightError, AdmissionDenial, is_bound, read_admission_denial, initial,
}

module _ (p : Platform) where
  -- the risk needs no approval, or one is on record and in force
  abbrev pub IsApproved : ℕ → TaskRecord → MemoryStore → Type 0
  IsApproved now t s =
      let id = "apr:" ⧺ t.id ⧺ ":" ⧺ risk_text t.risk in
      ((t.risk ≡ read_meta) ⊎ (t.risk ≡ read_sensitive))
      ⊎ ((a : Approval) × (get s.approvals id ≡ some a) × InForce p now t id a)

  -- what is known of a task that may be started
  pub record IsCleared (now : ℕ) (runner : RunnerDescriptor) (t : TaskRecord) (s : MemoryStore)
      : Type 0 where
    pub mission : Mission
    pub subject : AdmissionSubject
    pub known : get s.missions t.mission_id ≡ some mission
    pub named : admission_subject_from_task mission t ≡ ok subject
    pub admitted : assert_runner_admission runner subject ≡ ok tt
    pub state :
        (t.state ≡ TaskState.ready)
        ⊎ ((t.state ≡ TaskState.queued) ⊎ (t.state ≡ TaskState.waiting_resource))
    pub approved : IsApproved now t s

  as_answer-some :
      (r : Outcome PreflightError AdmissionDenial × MemoryStore) → ¬ ((as_answer p r).0 ≡ ok none)
  as_answer-some (ok d, s) h = absurd (ground arith)
  as_answer-some (err e, s) h = absurd (ground arith)

  -- a check that was caught let the task through only if it passed
  caught-none :
      (now : ℕ) (runner : RunnerDescriptor) (t : TaskRecord) (c : Outcome AdmissionCode (Unit {0}))
      (s : MemoryStore)
      → (caught p now runner t c s).0 ≡ ok none
      → (c ≡ ok tt) × ((caught p now runner t c s).1 ≡ s)
  caught-none now runner t (ok _) s h = (refl, refl)
  caught-none now runner t (err code) s h =
      absurd (as_answer-some (persist_admission_denial p now runner t code initial s) h)

  admission-none :
      (now : ℕ) (runner : RunnerDescriptor) (t : TaskRecord) (s : MemoryStore)
      → is_bound t ≡ false
      → (preflight_task_admission p now runner t s).0 ≡ ok none
      → (assert_stored_task_admission runner t s ≡ ok tt)
        × ((preflight_task_admission p now runner t s).1 ≡ s)
  unfolding preflight_task_admission
  admission-none now runner t s free h = elim (Outcome-cases (read_admission_denial t s)) [
    | inr (e, thrown) ↦ absurd (ground arith)
    | inl (some d, found) ↦ absurd (ground arith)
    | inl (none, fresh) ↦ elim (Bool-cases (is_waiting_for_runner p t.state)) [
      | inr other ↦ absurd (ground arith)
      | inl waits ↦
          let (passed, same) =
            caught-none now runner t (assert_stored_task_admission runner t s) s (ground arith) in
          (passed, ground arith)
    ]
  ]

  dispatch-none :
      (now : ℕ) (runner : RunnerDescriptor) (t : TaskRecord)
      (r : Outcome PreflightError (Option AdmissionDenial)) (s : MemoryStore)
      → is_bound t ≡ false
      → (dispatch_admitted p now runner t (r, s)).0 ≡ ok none
      → (r ≡ ok none)
        × ((is_dispatchable t.state ≡ true)
            × ((assert_current_task_approval p now t s ≡ ok tt)
                × ((dispatch_admitted p now runner t (r, s)).1 ≡ s)))
  unfolding dispatch_admitted assert_dispatchable_task
  dispatch-none now runner t (err e) s free h = absurd (ground arith)
  dispatch-none now runner t (ok (some d)) s free h = absurd (ground arith)
  dispatch-none now runner t (ok none) s free h = elim (Bool-cases (is_dispatchable t.state)) [
    | inr other ↦ absurd (ground arith)
    | inl ready ↦
        let (passed, same) =
          caught-none now runner t (assert_current_task_approval p now t s) s (ground arith) in
        (refl, (ready, (passed, rw (free, ready) same)))
  ]

  approval-ok :
      (now : ℕ) (t : TaskRecord) (s : MemoryStore)
      → assert_current_task_approval p now t s ≡ ok tt
      → IsApproved now t s
  unfolding assert_current_task_approval get_approval
  approval-ok now t s h = elim (Bool-cases (needs_approval t.risk)) [
    | inr free ↦ inl (unguarded_risk t.risk free)
    | inl needed ↦
        let id = "apr:" ⧺ t.id ⧺ ":" ⧺ risk_text t.risk in
        elim (Option-cases (get_approval id s)) [
          | inl missing ↦ absurd (ground arith)
          | inr (a, found) ↦ inr (a, found, current-InForce p now t id a (ground arith))
        ]
  ]

  subject-ok :
      (runner : RunnerDescriptor) (t : TaskRecord) (s : MemoryStore)
      → assert_stored_task_admission runner t s ≡ ok tt
      → (m : Mission) × ((get s.missions t.mission_id ≡ some m)
          × ((subject : AdmissionSubject) × ((admission_subject_from_task m t ≡ ok subject)
                × (assert_runner_admission runner subject ≡ ok tt))))
  unfolding assert_stored_task_admission get_mission
  subject-ok runner t s h =
      let (subject, named, admitted) =
        >>=-eq-ok (stored_subject (get_mission t.mission_id s) t) _ h in
      elim (Option-cases (get_mission t.mission_id s)) [
        | inl missing ↦ absurd (ground arith)
        | inr (m, found) ↦ (m, (found, (subject, (ground arith, admitted))))
      ]

  -- When preflightTaskDispatch returns no denial for a task without a binding, the ledger is as
  -- before; the task is READY, QUEUED or WAITING_RESOURCE; the runner admits the subject of the task
  -- and its stored mission; and the risk is read-meta or read-sensitive, or the approval stored for
  -- this task and risk names this task, mission and risk, is approved by a named person other than the
  -- one who asked and no agent or system, was decided no earlier than it was created and no later than
  -- now, and expires after now.
  pub dispatch-IsCleared :
      (now : ℕ) (runner : RunnerDescriptor) (t : TaskRecord) (s : MemoryStore)
      → is_bound t ≡ false
      → (preflight_task_dispatch p now runner t s).0 ≡ ok none
      → IsCleared now runner t s × ((preflight_task_dispatch p now runner t s).1 ≡ s)
  unfolding preflight_task_dispatch
  dispatch-IsCleared now runner t s free h =
      let r = preflight_task_admission p now runner t s in
      let (first, (ready, (current, same))) = dispatch-none now runner t r.0 r.1 free h in
      let (passed, kept) = admission-none now runner t s free first in
      let (m, (found, (subject, (named, admitted)))) = subject-ok runner t s passed in
      (
        record {
          mission = m;
          subject = subject;
          known = found;
          named = named;
          admitted = admitted;
          state = dispatchable-cases t.state ready;
          approved =
              approval-ok now t s
                (subst (λ z. assert_current_task_approval p now t z ≡ ok tt) kept current);
        },
        same ∙ kept,
      )
