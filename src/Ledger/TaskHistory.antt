-- ===== src/Ledger/TaskHistory.antt =====
-- The life of a task in the ledger: it is never lost, moves only along legal transitions, and keeps
-- its identity, its envelope and its binding.
use cmap.Common.{
  ℕ, Bool, true, false, String, some, List, [], ◌∷◌, ◌++◌, get, Platform, ◌≡◌, refl, sym, ◌∙◌, ◌⊎◌,
  inl, inr, arith, ap,
}
use cmap.TaskState.{TaskState, draft, running, completed, verifying, can_transition, is_terminal}
use cmap.TaskState.Paths.{Walk-terminal, unverified, unverified-step, unstarted, unstarted-step}
use cmap.Entities.{TaskRecord}
use cmap.Store.{MemoryStore, IsKeyed}
use cmap.Ledger.{Call, after, after_all}
use cmap.Ledger.TaskSteps.{
  Continues, Continues-refl, Continues-trans, Steps, some_eq, after-KeepsTasks,
}

module _ (p : Platform) where
  -- In a ledger whose tasks stand under their own ids, a task is still there after any calls at any
  -- times: its state has moved along legal transitions only, its id, mission, envelope, risk and
  -- dependencies are as before, and so is its binding if it had one.
  pub task-Continues :
      (cs : List (ℕ × Call)) (s : MemoryStore) (k : String) (t : TaskRecord)
      → IsKeyed s
      → get s.tasks k ≡ some t
      → (t' : TaskRecord) × (get (after_all p cs s).tasks k ≡ some t') × Continues t t'
  unfolding after_all
  task-Continues [] s k t keyed found = (t, found, Continues-refl t)
  task-Continues ((now, c) ∷ cs) s k t keyed found =
      let keeps = after-KeepsTasks p now c s keyed in
      let (u, there, goes) = keeps.task k t found in
      let (t', at_end, rest) = task-Continues cs (after p now c s) k u (keeps.keyed keyed) there in
      (t', at_end, Continues-trans goes.same rest)

  -- In a ledger whose tasks stand under their own ids, a task that has ended is still there, in the
  -- same state, after any calls at any times.
  pub ended_task_stays :
      (cs : List (ℕ × Call)) (s : MemoryStore) (k : String) (t : TaskRecord)
      → IsKeyed s
      → get s.tasks k ≡ some t
      → is_terminal t.state ≡ true
      → (t' : TaskRecord) × (get (after_all p cs s).tasks k ≡ some t') × (t'.state ≡ t.state)
  ended_task_stays cs s k t keyed found ended =
      let (t', there, goes) = task-Continues cs s k t keyed found in
      (t', there, sym (Walk-terminal goes.walk ended))

  -- at some moment of the calls the task is in the state
  abbrev pub Passes : TaskState → List (ℕ × Call) → MemoryStore → String → Type 0
  Passes v cs s k =
      (before : List (ℕ × Call)) × (rest : List (ℕ × Call)) × (t : TaskRecord) × (cs
        ≡ before ++ rest)
      × (get (after_all p before s).tasks k ≡ some t)
      × (t.state ≡ v)

  module _ (v : TaskState) (cut : TaskState → Bool)
      (closed : (t u : TaskState)
        → cut t ≡ true
        → can_transition t u ≡ true
        → (cut u ≡ true) ⊎ (u ≡ v)) where
    Steps-cut :
        (t u : TaskRecord) → Steps t u → cut t.state ≡ true → (cut u.state ≡ true) ⊎ (u.state ≡ v)
    Steps-cut t u st h = elim st.move [
      | inl same ↦ inl (rw same h)
      | inr legal ↦ closed t.state u.state h legal
    ]

    -- a task that leaves the set `cut` has been in the state `v`
    passes :
        (cs : List (ℕ × Call)) (s : MemoryStore) (k : String) (t t' : TaskRecord)
        → IsKeyed s
        → get s.tasks k ≡ some t
        → cut t.state ≡ true
        → get (after_all p cs s).tasks k ≡ some t'
        → cut t'.state ≡ false
        → Passes v cs s k
    unfolding after_all
    passes [] s k t t' keyed found inside there outside =
        let same : t ≡ t' = some_eq (sym found ∙ there) in
        absurd (ground (arith, ap (λ (x : TaskRecord). cut x.state) same))
    passes ((now, c) ∷ cs) s k t t' keyed found inside there outside =
        let keeps = after-KeepsTasks p now c s keyed in
        let (u, next, st) = keeps.task k t found in
        elim (Steps-cut t u st inside) [
          | inr at_v ↦ ((now, c) ∷ [], cs, u, refl, next, at_v)
          | inl still ↦
              let (before, rest, w, split, moment, at_v) =
                passes cs (after p now c s) k u t' (keeps.keyed keyed) next still there outside in
              (
                (now, c) ∷ before,
                rest,
                w,
                ap (λ (l : List (ℕ × Call)). (now, c) ∷ l) split,
                moment,
                at_v,
              )
        ]

  -- In a ledger whose tasks stand under their own ids, a task that is DRAFT before any calls and
  -- COMPLETED after them was RUNNING after some first part of them, and VERIFYING after another.
  pub completed_task_was_verified :
      (cs : List (ℕ × Call)) (s : MemoryStore) (k : String) (t t' : TaskRecord)
      → IsKeyed s
      → get s.tasks k ≡ some t
      → t.state ≡ draft
      → get (after_all p cs s).tasks k ≡ some t'
      → t'.state ≡ completed
      → Passes running cs s k × Passes verifying cs s k
  completed_task_was_verified cs s k t t' keyed found new there done = (
    passes running unstarted unstarted-step cs s k t t' keyed found (rw new refl) there
        (rw done refl),
    passes verifying unverified unverified-step cs s k t t' keyed found (rw new refl) there
        (rw done refl),
  )
