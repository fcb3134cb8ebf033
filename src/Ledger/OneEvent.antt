-- ===== src/Ledger/OneEvent.antt =====
-- Every call writes at most one event, at the end of the log, with the next logical time.
use cmap.Common.{ℕ, suc, [], ◌∷◌, ◌++◌, Platform, ◌≡◌, refl, inl, inr}
use cmap.Entities.{TaskEvent}
use cmap.Store.{MemoryStore, EventInput, built_event, push_event, record_event}
use cmap.Store.Missions.Proofs.{create_mission-cases, set_mission_state-cases}
use cmap.Store.Tasks.Creation.{create_task-cases, set_task_result-cases}
use cmap.Store.Tasks.Transition.{transition_task-cases}
use cmap.Store.Tasks.Binding.{claim-cases}
use cmap.Store.Events.{numbered_event, append_event-cases}
use cmap.Ledger.{
  Call, creates_mission, sets_mission_state, creates_task, transitions, claims, sets_result,
  appends, after,
}

-- the log and its counter: as they were, or with one event more
pub data Logged (s s' : MemoryStore) : Type 0 where
  silent : s'.events ≡ s.events → s'.lamport ≡ s.lamport → Logged s s'
  logged :
      (e : TaskEvent)
      → s'.events ≡ s.events ++ e ∷ []
      → e.lamport ≡ suc s.lamport
      → s'.lamport ≡ suc s.lamport
      → Logged s s'

Logged-same : {s s' : MemoryStore} → s' ≡ s → Logged s s'
Logged-same h = silent (rw h refl) (rw h refl)

module _ (p : Platform) where
  -- #record on a state with the log of `s`
  Logged-record :
      (now : ℕ) (i : EventInput) (s w s' : MemoryStore)
      → w.events ≡ s.events
      → w.lamport ≡ s.lamport
      → s' ≡ record_event p now i w
      → Logged s s'
  unfolding record_event
  Logged-record now i s w s' he hl h =
      logged (built_event p now i w) (rw h (rw he refl)) (rw hl refl) (rw h (rw hl refl))

  -- Every call, whether it returns or throws, leaves the log and its clock as they were, or appends
  -- one event whose logical time is the clock's next value.
  pub after-Logged : (now : ℕ) (c : Call) (s : MemoryStore) → Logged s (after p now c s)
  unfolding after
  after-Logged now (creates_mission m actor) s = elim (create_mission-cases p now m actor s) [
    | inl same ↦ Logged-same same
    | inr (_, e) ↦ Logged-record now _ s _ _ refl refl e
  ]
  after-Logged now (sets_mission_state id state actor key) s =
      elim (set_mission_state-cases p now id state actor key s) [
        | inl same ↦ Logged-same same
        | inr (_, _, _, e) ↦ Logged-record now _ s _ _ refl refl e
      ]
  after-Logged now (creates_task t actor cause) s = elim (create_task-cases p now t actor cause s) [
    | inl same ↦ Logged-same same
    | inr (_, e) ↦ Logged-record now _ s _ _ refl refl e
  ]
  after-Logged now (transitions i) s = elim (transition_task-cases p now i s) [
    | inl same ↦ Logged-same same
    | inr (_, _, _, e) ↦ Logged-record now _ s _ _ refl refl e
  ]
  after-Logged now (claims id b actor) s = elim (claim-cases p now id b actor s) [
    | inl same ↦ Logged-same same
    | inr (_, _, _, _, e) ↦ Logged-record now _ s _ _ refl refl e
  ]
  after-Logged now (sets_result id r) s = elim (set_task_result-cases p now id r s) [
    | inl same ↦ Logged-same same
    | inr (_, _, e) ↦ silent (rw e refl) (rw e refl)
  ]
  after-Logged now (appends e) s = elim (append_event-cases e s) [
    | inl same ↦ Logged-same same
    | inr h ↦
        unfold push_event numbered_event in logged (numbered_event e s) (rw h refl) refl (rw h refl)
  ]
