-- ===== src/Preflight/Receipt.antt =====
-- The receipt of a denial is read back from the ledger.
use cmap.Common.{
  ℕ, ◌≡◌, ◌≢◌, refl, sym, ◌∙◌, subst, ap, true, false, ◌==◌, ==_refl, Option, none, some, List, [],
  ◌∷◌, keep, keep-append, keep-sort_append, get, has, sort_by, Outcome, ok, err, ◌&&◌, leb, arith,
  Bool-cases, inl, inr, Platform,
}
use cmap.TaskState.{TaskState, same_state}
use cmap.TaskState.Names.{same_state_refl}
use cmap.Json.{get_field}
use cmap.Entities.{TaskRecord, TaskEvent}
use cmap.Admission.{
  AdmissionCode, invalid_runner, runner_unhealthy, tenant_denied, owner_denied, capability_denied,
  risk_denied, host_mismatch, identity_mismatch, classification_mismatch, approval_invalid,
  permit_invalid, input_invalid, RunnerDescriptor,
}
use cmap.Store.{MemoryStore, StoreError, built_event, record_event}
use cmap.Store.Compare.{put_field, spread}
use cmap.Store.Events.{list_events}
use cmap.Store.Tasks.{task_moved, moved_task, transition_task}
use cmap.Store.Tasks.Transition.{after_transition, task-after_transition, transition_task-ok}
use cmap.Preflight.{is_wrong_phase, denial_input, after_receipt, persist_admission_denial}
use cmap.Preflight.Denials.{
  Phase, initial, post_intent, AdmissionDenial, PreflightError, code_text, phase_text, receipt_key,
  denial_type, denial_state, is_task, fits_phase, code_of, phase_of, text_of, and_then, receipt_of,
  judge_receipts, read_admission_denial,
}

code_of-code_text : (c : AdmissionCode) → code_of (code_text c) ≡ some c
unfolding code_of
code_of-code_text invalid_runner = refl
code_of-code_text runner_unhealthy = refl
code_of-code_text tenant_denied = refl
code_of-code_text owner_denied = refl
code_of-code_text capability_denied = refl
code_of-code_text risk_denied = refl
code_of-code_text host_mismatch = refl
code_of-code_text identity_mismatch = refl
code_of-code_text classification_mismatch = refl
code_of-code_text approval_invalid = refl
code_of-code_text permit_invalid = refl
code_of-code_text input_invalid = refl

phase_of-phase_text : (f : Phase) → phase_of (phase_text f) ≡ some f
unfolding phase_of
phase_of-phase_text initial = refl
phase_of-phase_text post_intent = refl

receipt_of-some :
    (t : TaskRecord) (e : TaskEvent) (f : Option Phase) (c : Option AdmissionCode)
    → receipt_of t e f c ≢ ok none
unfolding receipt_of
receipt_of-some t e none c h = absurd (ground arith)
receipt_of-some t e (some f) none h = absurd (ground arith)
receipt_of-some t e (some f) (some c) h =
    elim (Bool-cases (
      is_task e.task_id t.id
      && e.event_type == denial_type f
      && same_state t.state (denial_state f)
      && fits_phase f t)) [ inl good ↦ absurd (ground arith) | inr bad ↦ absurd (ground arith) ]

-- nothing on record: there is no receipt
judge_receipts-none :
    (t : TaskRecord) (es : List TaskEvent) → judge_receipts t es ≡ ok none → es ≡ []
unfolding judge_receipts
judge_receipts-none t [] h = refl
judge_receipts-none t (e ∷ []) h = absurd (
    receipt_of-some t e (and_then (text_of (get_field e.payload "phase")) phase_of)
      (and_then (text_of (get_field e.payload "code")) code_of) h)
judge_receipts-none t (e ∷ f ∷ es) h = absurd (ground arith)

not_wrong-fits : (f : Phase) (t : TaskRecord) → is_wrong_phase f t ≡ false → fits_phase f t ≡ true
unfolding is_wrong_phase
not_wrong-fits initial t h = ground arith
not_wrong-fits post_intent t h = ground arith

moved-fits :
    (p : Platform) (now : ℕ) (f : Phase) (t : TaskRecord) (to : TaskState) (s : MemoryStore)
    → fits_phase f (moved_task p now t to s) ≡ fits_phase f t
unfolding moved_task
moved-fits p now initial t to s = refl
moved-fits p now post_intent t to s = refl

module _ (p : Platform) (now : ℕ) (runner : RunnerDescriptor) (t : TaskRecord) (d : AdmissionDenial)
    (s : MemoryStore) where
  -- the event of the denial
  abbrev receipt : TaskEvent
  receipt = built_event p now (task_moved t (denial_input runner t d)) s

  -- the task as the denial leaves it
  abbrev denied_task : TaskRecord
  denied_task = moved_task p now t (denial_state d.phase) s

  judge-receipt :
      fits_phase d.phase denied_task ≡ true
      → judge_receipts denied_task (receipt ∷ []) ≡ ok (some d)
  unfolding judge_receipts receipt_of built_event task_moved denial_input moved_task spread
      put_field get_field
  judge-receipt fits =
      rw
        (
          phase_of-phase_text d.phase,
          code_of-code_text d.code,
          ==_refl t.id,
          ==_refl (denial_type d.phase),
          same_state_refl,
          fits,
        )
        refl

  -- the only receipt of the task is the one that was just written
  receipts :
      keep (λ e. e.idempotency_key == receipt_key t.id) (list_events t.mission_id s) ≡ []
      → keep
          (λ e. e.idempotency_key == receipt_key t.id)
          (list_events t.mission_id (after_transition p now (denial_input runner t d) t s))
        ≡ receipt ∷ []
  unfolding list_events record_event built_event task_moved denial_input
  receipts none_yet =
      ap
        (λ es.
          keep (λ e. e.idempotency_key == receipt_key t.id)
            (sort_by (λ a b. leb a.lamport b.lamport) es))
        (keep-append (λ e. e.mission_id == t.mission_id) (λ a b. leb a.lamport b.lamport) s.events
          receipt (==_refl t.mission_id))
      ∙ keep-sort_append (λ e. e.idempotency_key == receipt_key t.id)
          (λ a b. leb a.lamport b.lamport) (keep (λ e. e.mission_id == t.mission_id) s.events)
          receipt (==_refl (receipt_key t.id)) none_yet

-- what is read once the denial is written
read-left :
    (p : Platform) (now : ℕ) (runner : RunnerDescriptor) (t : TaskRecord) (d : AdmissionDenial)
    (s : MemoryStore)
    → is_wrong_phase d.phase t ≡ false
    → read_admission_denial t s ≡ ok none
    → read_admission_denial
        (denied_task p now runner t d s)
        (after_transition p now (denial_input runner t d) t s)
      ≡ ok (some d)
unfolding read_admission_denial moved_task
read-left p now runner t d s good none_yet =
    let none_here =
      judge_receipts-none t
        (keep (λ e. e.idempotency_key == receipt_key t.id) (list_events t.mission_id s)) none_yet in
    let fits =
      moved-fits p now d.phase t (denial_state d.phase) s ∙ not_wrong-fits d.phase t good in
    ap (judge_receipts (denied_task p now runner t d s)) (receipts p now runner t d s none_here)
    ∙ judge-receipt p now runner t d s fits

abbrev pub denial_of : Phase → AdmissionCode → AdmissionDenial
denial_of phase code = record { phase = phase; code = code }

ok_eq :
    {a b : AdmissionDenial} → ◌≡◌ {A = Outcome PreflightError AdmissionDenial} (ok a) (ok b) → a ≡ b
ok_eq e = cc

some_eq : {a b : TaskRecord} → ◌≡◌ {A = Option TaskRecord} (some a) (some b) → a ≡ b
some_eq e = cc

after_receipt-ok :
    (d e : AdmissionDenial) (r : Outcome StoreError TaskRecord × MemoryStore)
    → (after_receipt d r).0 ≡ ok e
    → (t : TaskRecord) × ((r.0 ≡ ok t) × ((d ≡ e) × ((after_receipt d r).1 ≡ r.1)))
after_receipt-ok d e (ok t, s) h = (t, (refl, (ok_eq h, refl)))
after_receipt-ok d e (err x, s) h = absurd (ground arith)

-- what a denial that is returned has written
persist-ok :
    (p : Platform) (now : ℕ) (runner : RunnerDescriptor) (t : TaskRecord) (code : AdmissionCode)
    (phase : Phase) (d : AdmissionDenial) (s : MemoryStore)
    → read_admission_denial t s ≡ ok none
    → (persist_admission_denial p now runner t code phase s).0 ≡ ok d
    → (is_wrong_phase phase t ≡ false)
      × ((denial_of phase code ≡ d)
          × ((after : TaskRecord) × (((transition_task p now
                    (denial_input runner t (denial_of phase code))
                    s).0
                  ≡ ok after)
                × ((persist_admission_denial p now runner t code phase s).1
                    ≡ (transition_task p now (denial_input runner t (denial_of phase code)) s).1))))
unfolding persist_admission_denial
persist-ok p now runner t code phase d s none_yet h = elim (Bool-cases (is_wrong_phase phase t)) [
  | inl wrong ↦ absurd (ground arith)
  | inr good ↦
      let e : persist_admission_denial p now runner t code phase s
          ≡ after_receipt (denial_of phase code)
              (transition_task p now (denial_input runner t (denial_of phase code)) s) =
        rw (persist_admission_denial, none_yet, good) refl in
      let (after, (returned, (same, written))) =
        after_receipt-ok (denial_of phase code) d
          (transition_task p now (denial_input runner t (denial_of phase code)) s)
          (sym (ap (λ r. r.0) e) ∙ h) in
      (good, (same, (after, (returned, ap (λ r. r.1) e ∙ written))))
]

-- A denial of a task of the ledger that persistAdmissionDenial returns, where none was on record and
-- the receipt's key is new: it is of the phase and code that were asked for, the ledger holds the
-- task, CANCELED or FAILED_TERMINAL by the phase, and readAdmissionDenial reads the same denial back.
pub receipt_is_read_back :
    (p : Platform) (now : ℕ) (runner : RunnerDescriptor) (t : TaskRecord) (code : AdmissionCode)
    (phase : Phase) (d : AdmissionDenial) (s : MemoryStore)
    → get s.tasks t.id ≡ some t
    → has s.seen_keys (receipt_key t.id) ≡ false
    → read_admission_denial t s ≡ ok none
    → (persist_admission_denial p now runner t code phase s).0 ≡ ok d
    → (d ≡ denial_of phase code)
      × ((after : TaskRecord) × ((get
                (persist_admission_denial p now runner t code phase s).1.tasks
                t.id
              ≡ some after)
            × ((after.state ≡ denial_state phase)
                × (read_admission_denial after
                      (persist_admission_denial p now runner t code phase s).1
                    ≡ ok (some d)))))
unfolding denial_input moved_task
receipt_is_read_back p now runner t code phase d s stored fresh none_yet h =
    let denial = denial_of phase code in
    let (good, (same, (after, (returned, written)))) =
      persist-ok p now runner t code phase d s none_yet h in
    let denied = denied_task p now runner t denial s in
    let left = after_transition p now (denial_input runner t denial) t s in
    elim (transition_task-ok p now (denial_input runner t denial) after s returned) [
      | inl (seen, _, _) ↦ let no : true ≡ false = sym seen ∙ fresh in absurd (ground arith)
      | inr (u, _, found, moved, _) ↦
          let e : u ≡ t = some_eq (sym found ∙ stored) in
          let whole : (persist_admission_denial p now runner t code phase s).1 ≡ left =
            written
            ∙ moved.written
            ∙ ap (λ z. after_transition p now (denial_input runner t denial) z s) e in
          (
            sym same,
            (
              denied,
              (
                subst (λ (z : MemoryStore). get z.tasks t.id ≡ some denied) (sym whole)
                    (task-after_transition p now (denial_input runner t denial) t s),
                (
                  refl,
                  subst (λ z. read_admission_denial denied z ≡ ok (some d)) (sym whole)
                      (subst (λ x. read_admission_denial denied left ≡ ok (some x)) same
                        (read-left p now runner t denial s good none_yet)),
                ),
              ),
            ),
          )
    ]
