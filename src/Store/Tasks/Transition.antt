-- ===== src/Store/Tasks/Transition.antt =====
-- transitionTask: nothing is written on an error, a success writes the state and one event together,
-- and a repeated delivery changes nothing.
use cmap.Common.{
  ℕ, suc, true, false, some, get, put, has, get-put_self, Outcome-cases, ok, err, Platform,
  if◌then◌else◌, ◌≡◌, refl, arith, Bool-cases, Option-cases, inl, inr, ◌⊎◌, subst,
}
use cmap.TaskState.{can_transition, assert_transition}
use cmap.TaskState.Names.{same_state_refl}
use cmap.Entities.{TaskRecord}
use cmap.Store.{
  IsKeyed, MemoryStore, StoreError, concurrent_modification, illegal_transition, event_id,
  record_event,
}
use cmap.Store.Tasks.{
  TransitionInput, is_stale, expected_or, task_moved, moved_task, check_task_state,
  commit_transition, transition_found, transition_task,
}

module _ (p : Platform) where
  -- the state that a transition of the task writes
  abbrev pub after_transition : ℕ → TransitionInput → TaskRecord → MemoryStore → MemoryStore
  after_transition now i t s =
      record_event p now (task_moved t i)
        (record s { tasks = put s.tasks t.id (moved_task p now t i.to s) })

  tasks-after_transition :
      (now : ℕ) (i : TransitionInput) (t : TaskRecord) (s : MemoryStore)
      → (after_transition now i t s).tasks ≡ put s.tasks t.id (moved_task p now t i.to s)
  unfolding record_event
  tasks-after_transition now i t s = refl

  -- the read-back of a transition never fails
  pub commit_transition_lem :
      (now : ℕ) (i : TransitionInput) (t : TaskRecord) (s : MemoryStore)
      → commit_transition p now i t s ≡ (ok (moved_task p now t i.to s), after_transition now i t s)
  unfolding commit_transition check_task_state moved_task
  commit_transition_lem now i t s =
      rw (tasks-after_transition now i t s, get-put_self) (rw same_state_refl refl)

  -- What transitionTask does with a task that it found, by its three outcomes: a state other than the
  -- expected one throws; a transition of the table writes the new state with one event and returns
  -- the written record; any other throws. A call that throws writes nothing.
  pub transition_found_lem :
      (now : ℕ) (i : TransitionInput) (t : TaskRecord) (s : MemoryStore)
      → transition_found p now i t s ≡ (
          if is_stale i.expected_from t.state
          then (
            err (concurrent_modification i.task_id (expected_or i.expected_from t.state) t.state),
            s,
          )
          else if can_transition t.state i.to
          then (ok (moved_task p now t i.to s), after_transition now i t s)
          else (err (illegal_transition (record { from = t.state; to = i.to })), s))
  unfolding transition_found assert_transition
  transition_found_lem now i t s = ground (arith, commit_transition_lem now i t s)

  transition_found-error :
      (now : ℕ) (i : TransitionInput) (t : TaskRecord) (s : MemoryStore) (e : StoreError)
      → (transition_found p now i t s).0 ≡ err e
      → (transition_found p now i t s).1 ≡ s
  transition_found-error now i t s e h = ground (arith, transition_found_lem now i t s)

  -- what a successful transition has done
  pub record Moved (now : ℕ) (i : TransitionInput) (t : TaskRecord) (s s' : MemoryStore)
      : Type 0 where
    pub legal : can_transition t.state i.to ≡ true
    pub fresh_view : is_stale i.expected_from t.state ≡ false
    pub written : s' ≡ after_transition now i t s

  transition_found-ok :
      (now : ℕ) (i : TransitionInput) (t t' : TaskRecord) (s : MemoryStore)
      → (transition_found p now i t s).0 ≡ ok t'
      → Moved now i t s (transition_found p now i t s).1 × (t' ≡ moved_task p now t i.to s)
  transition_found-ok now i t t' s h = ground (arith, transition_found_lem now i t s)

  -- A transition that throws, for whatever reason, has written nothing.
  pub transition_error_writes_nothing :
      (now : ℕ) (i : TransitionInput) (s : MemoryStore) (e : StoreError)
      → (transition_task p now i s).0 ≡ err e
      → (transition_task p now i s).1 ≡ s
  unfolding transition_task
  transition_error_writes_nothing now i s e h = grind (arith, transition_found-error)

  seen-after_transition :
      (now : ℕ) (i : TransitionInput) (t : TaskRecord) (s : MemoryStore)
      → has (after_transition now i t s).seen_keys i.idempotency_key ≡ true
  unfolding record_event task_moved has
  seen-after_transition now i t s =
      ground (arith, get-put_self s.seen_keys i.idempotency_key (event_id (suc s.seq)))

  pub task-after_transition :
      (now : ℕ) (i : TransitionInput) (t : TaskRecord) (s : MemoryStore)
      → get (after_transition now i t s).tasks t.id ≡ some (moved_task p now t i.to s)
  task-after_transition now i t s = rw (tasks-after_transition now i t s) (get-put_self _ _ _)

  -- the outcomes of a call that returns: a repeated key, or a transition that was made
  pub transition_task-ok :
      (now : ℕ) (i : TransitionInput) (t' : TaskRecord) (s : MemoryStore)
      → (transition_task p now i s).0 ≡ ok t'
      → ((has s.seen_keys i.idempotency_key ≡ true)
          × (get s.tasks i.task_id ≡ some t')
          × ((transition_task p now i s).1 ≡ s))
        ⊎ ((t : TaskRecord) × (has s.seen_keys i.idempotency_key ≡ false)
            × (get s.tasks i.task_id ≡ some t)
            × Moved now i t s (transition_task p now i s).1
            × (t' ≡ moved_task p now t i.to s))
  unfolding transition_task
  transition_task-ok now i t' s h = elim (Bool-cases (has s.seen_keys i.idempotency_key)) [
    | inl seen ↦ inl (seen, ground arith, ground arith)
    | inr fresh ↦ elim (Option-cases (get s.tasks i.task_id)) [
      | inl missing ↦ absurd (ground arith)
      | inr (t, found) ↦
          let call : (transition_found p now i t s).0 ≡ ok t' = ground arith in
          let (moved, same) = transition_found-ok now i t t' s call in
          inr (t, fresh, found, rw (fresh, found) moved, same)
    ]
  ]

  -- In a ledger whose tasks stand under their own ids, a transition that returned, delivered again
  -- for its task and under its key, with any clock and whatever else the second delivery asks for,
  -- returns the same record and writes nothing.
  pub transition_redelivered :
      (now later : ℕ) (i j : TransitionInput) (s : MemoryStore) (t' : TaskRecord)
      → IsKeyed s
      → (transition_task p now i s).0 ≡ ok t'
      → j.task_id ≡ i.task_id
      → j.idempotency_key ≡ i.idempotency_key
      → transition_task p later j (transition_task p now i s).1
        ≡ (ok t', (transition_task p now i s).1)
  transition_redelivered now later i j s t' keyed h same_task same_key =
      elim (transition_task-ok now i t' s h) [
        | inl (seen, found, same) ↦
            rw same (unfold transition_task in rw (same_key, same_task, seen, found) refl)
        | inr (t, fresh, found, moved, same) ↦
            let s' = after_transition now i t s in
            let id : t.id ≡ i.task_id = keyed i.task_id t found in
            let seen : has s'.seen_keys i.idempotency_key ≡ true =
              seen-after_transition now i t s in
            let there : get s'.tasks i.task_id ≡ some (moved_task p now t i.to s) =
              subst (λ k. get s'.tasks k ≡ some (moved_task p now t i.to s)) id
                (task-after_transition now i t s) in
            rw (moved.written, same)
              (unfold transition_task in rw (same_key, same_task, seen, there) refl)
      ]

  -- a call writes a legal transition of a task that is there, or nothing
  pub transition_task-cases :
      (now : ℕ) (i : TransitionInput) (s : MemoryStore)
      → ((transition_task p now i s).1 ≡ s)
        ⊎ ((t : TaskRecord) × (get s.tasks i.task_id ≡ some t)
            × (can_transition t.state i.to ≡ true)
            × ((transition_task p now i s).1 ≡ after_transition now i t s))
  transition_task-cases now i s = elim (Outcome-cases (transition_task p now i s).0) [
    | inr (e, thrown) ↦ inl (transition_error_writes_nothing now i s e thrown)
    | inl (t', returned) ↦ elim (transition_task-ok now i t' s returned) [
      | inl (_, _, same) ↦ inl same
      | inr (t, _, found, moved, _) ↦ inr (t, found, moved.legal, moved.written)
    ]
  ]
