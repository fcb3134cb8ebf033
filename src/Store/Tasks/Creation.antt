-- ===== src/Store/Tasks/Creation.antt =====
-- createTask and setTaskResult: what they write, by cases.
use cmap.Common.{
  ℕ, String, ==_refl, Option, none, some, get, put, get-put_self, ok, Platform, ◌≡◌, refl, ◌⊎◌, inl,
  inr, arith, Option-cases,
}
use cmap.Entities.{TaskRecord, TaskResult, EventActor}
use cmap.Store.{MemoryStore, record_event}
use cmap.Store.Tasks.{task_created, check_created_task, insert_task, create_task, set_task_result}

module _ (p : Platform) where
  abbrev pub after_insert : ℕ → TaskRecord → EventActor → Option String → MemoryStore → MemoryStore
  after_insert now t actor cause s =
      record_event p now (task_created p t actor cause) (record s { tasks = put s.tasks t.id t })

  tasks-after_insert :
      (now : ℕ) (t : TaskRecord) (actor : EventActor) (cause : Option String) (s : MemoryStore)
      → (after_insert now t actor cause s).tasks ≡ put s.tasks t.id t
  unfolding record_event
  tasks-after_insert now t actor cause s = refl

  pub insert_task_lem :
      (now : ℕ) (t : TaskRecord) (actor : EventActor) (cause : Option String) (s : MemoryStore)
      → insert_task p now t actor cause s ≡ (ok t, after_insert now t actor cause s)
  unfolding insert_task check_created_task
  insert_task_lem now t actor cause s =
      ground
        (arith, tasks-after_insert now t actor cause s, get-put_self s.tasks t.id t, ==_refl t.id)

  -- a creation writes the task under a free id, or nothing
  pub create_task-cases :
      (now : ℕ) (t : TaskRecord) (actor : EventActor) (cause : Option String) (s : MemoryStore)
      → ((create_task p now t actor cause s).1 ≡ s)
        ⊎ ((get s.tasks t.id ≡ none)
            × ((create_task p now t actor cause s).1 ≡ after_insert now t actor cause s))
  unfolding create_task
  create_task-cases now t actor cause s = elim (Option-cases (get s.tasks t.id)) [
    | inl free ↦ inr (free, ground (arith, insert_task_lem now t actor cause s))
    | inr (old, found) ↦ inl (ground arith)
  ]

  abbrev pub with_result : ℕ → TaskRecord → TaskResult → TaskRecord
  with_result now t r = record t { outcome = some r; updated_at = p.iso now }

  -- a result is written to a task that is there, or nothing is
  pub set_task_result-cases :
      (now : ℕ) (id : String) (r : TaskResult) (s : MemoryStore)
      → ((set_task_result p now id r s).1 ≡ s)
        ⊎ ((t : TaskRecord) × (get s.tasks id ≡ some t)
            × ((set_task_result p now id r s).1
                ≡ record s { tasks = put s.tasks id (with_result now t r) }))
  unfolding set_task_result
  set_task_result-cases now id r s = elim (Option-cases (get s.tasks id)) [
    | inl missing ↦ inl (ground arith)
    | inr (t, found) ↦ inr (t, found, ground arith)
  ]
