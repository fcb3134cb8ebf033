-- ===== src/Store/Tasks/Binding.antt =====
-- claimTaskBinding: what a call returns and writes, by the binding of the task.
use cmap.Common.{
  ℕ, suc, Bool, true, false, String, Option, none, some, get, put, get-put_self, Outcome-cases, ok,
  err, Platform, not, ◌&&◌, if◌then◌else◌, ◌≡◌, refl, ◌⊎◌, inl, inr, arith, Option-cases, subst,
}
use cmap.TaskState.{TaskState, queued, waiting_resource, running, same_state}
use cmap.TaskState.Names.{same_state_refl}
use cmap.Json.{Json, json_equal, str}
use cmap.Json.Laws.{distinct_keys, json_equal_refl}
use cmap.Entities.{TaskRecord, RemoteTaskBinding, EventActor}
use cmap.Store.{
  IsKeyed, MemoryStore, StoreError, illegal_transition, binding_conflict, record_event,
}
use cmap.Store.Compare.{binding_json, same_binding}
use cmap.Store.Tasks.{
  ClaimResult, dispatch_intent, has_binding, check_claim, claim_unbound, claim_found,
  claim_task_binding,
}

keys-binding_json :
    (a r q v w : String) (c s : Option String)
    → distinct_keys (
        binding_json (record {
          adapter = a;
          remote_task_id = r;
          remote_context_id = c;
          protocol = q;
          protocol_version = v;
          runner_id = w;
          provider_session_id = s;
        }))
      ≡ true
unfolding distinct_keys binding_json cmap.Json.get_field
keys-binding_json a r q v w none none = refl
keys-binding_json a r q v w none (some s) = refl
keys-binding_json a r q v w (some c) none = refl
keys-binding_json a r q v w (some c) (some s) = refl

pub same_binding_refl : (b : RemoteTaskBinding) → same_binding b b ≡ true
unfolding same_binding
same_binding_refl b = json_equal_refl (binding_json b) (
    keys-binding_json b.adapter b.remote_task_id b.protocol b.protocol_version b.runner_id
      b.remote_context_id b.provider_session_id)

-- a task may be claimed while it is queued or waits for a resource
unfoldable pub is_claimable : TaskState → Bool
is_claimable s = not (not (same_state s queued) && not (same_state s waiting_resource))

module _ (p : Platform) where
  -- the record and the state that a claim writes
  unfoldable pub claimed_task : ℕ → RemoteTaskBinding → TaskRecord → MemoryStore → TaskRecord
  claimed_task now b t s = record t {
    state = running;
    binding = some b;
    lamport = suc s.lamport;
    updated_at = p.iso now;
  }

  abbrev pub after_claim :
      ℕ → RemoteTaskBinding → EventActor → TaskRecord → MemoryStore → MemoryStore
  after_claim now b actor t s =
      record_event p now (dispatch_intent p t b actor)
        (record s { tasks = put s.tasks t.id (claimed_task now b t s) })

  tasks-after_claim :
      (now : ℕ) (b : RemoteTaskBinding) (actor : EventActor) (t : TaskRecord) (s : MemoryStore)
      → (after_claim now b actor t s).tasks ≡ put s.tasks t.id (claimed_task now b t s)
  unfolding record_event
  tasks-after_claim now b actor t s = refl

  -- the read-back of a claim never fails
  pub claim_unbound_lem :
      (now : ℕ) (b : RemoteTaskBinding) (actor : EventActor) (t : TaskRecord) (s : MemoryStore)
      → claim_unbound p now b actor t s ≡ (
          if is_claimable t.state
          then (
            ok (record { task = claimed_task now b t s; claimed = true }),
            after_claim now b actor t s,
          )
          else (err (illegal_transition (record { from = t.state; to = running })), s))
  unfolding claim_unbound is_claimable check_claim has_binding claimed_task
  claim_unbound_lem now b actor t s = ground (
    arith,
    tasks-after_claim now b actor t s,
    get-put_self s.tasks t.id (claimed_task now b t s),
    same_binding_refl b,
    same_state_refl running,
  )

  -- A claim that throws, for whatever reason, has written nothing.
  pub claim_error_writes_nothing :
      (now : ℕ) (id : String) (b : RemoteTaskBinding) (actor : EventActor) (s : MemoryStore)
      (e : StoreError)
      → (claim_task_binding p now id b actor s).0 ≡ err e
      → (claim_task_binding p now id b actor s).1 ≡ s
  unfolding claim_task_binding claim_found
  claim_error_writes_nothing now id b actor s e h = grind (arith, claim_unbound_lem)

  -- a claim that returns: the task was bound to the same remote task, or was free and is bound now
  pub claim-ok :
      (now : ℕ) (id : String) (b : RemoteTaskBinding) (actor : EventActor) (s : MemoryStore)
      (r : ClaimResult)
      → (claim_task_binding p now id b actor s).0 ≡ ok r
      → ((bound : RemoteTaskBinding) × (r.claimed ≡ false)
          × (get s.tasks id ≡ some r.task)
          × (r.task.binding ≡ some bound)
          × (same_binding bound b ≡ true)
          × ((claim_task_binding p now id b actor s).1 ≡ s))
        ⊎ ((t : TaskRecord) × (r.claimed ≡ true)
            × (get s.tasks id ≡ some t)
            × (t.binding ≡ none)
            × (is_claimable t.state ≡ true)
            × (r.task ≡ claimed_task now b t s)
            × ((claim_task_binding p now id b actor s).1 ≡ after_claim now b actor t s))
  unfolding claim_task_binding
  claim-ok now id b actor s r h = elim (Option-cases (get s.tasks id)) [
    | inl missing ↦ absurd (ground arith)
    | inr (t, found) ↦ elim (Option-cases t.binding) [
      | inl free ↦
          unfold claim_found in
          inr (
            t,
            ground (arith, claim_unbound_lem now b actor t s),
            found,
            free,
            ground (arith, claim_unbound_lem now b actor t s),
            ground (arith, claim_unbound_lem now b actor t s),
            ground (arith, claim_unbound_lem now b actor t s),
          )
      | inr (bound, taken) ↦
          unfold claim_found in
          inl (bound, ground arith, ground arith, ground arith, ground arith, ground arith)
    ]
  ]

  -- a claim of a task that is bound
  pub claim_bound :
      (now : ℕ) (id : String) (c bound : RemoteTaskBinding) (actor : EventActor) (t : TaskRecord)
      (s : MemoryStore)
      → get s.tasks id ≡ some t
      → t.binding ≡ some bound
      → claim_task_binding p now id c actor s ≡ (
          if same_binding bound c
          then (ok (record { task = t; claimed = false }), s)
          else (err (binding_conflict id), s))
  unfolding claim_task_binding claim_found
  claim_bound now id c bound actor t s found taken = ground arith

  -- once a claim has returned, the task that it returned is on record and bound
  pub claimed_task_there :
      (now : ℕ) (id : String) (b : RemoteTaskBinding) (actor : EventActor) (s : MemoryStore)
      (r : ClaimResult)
      → IsKeyed s
      → (claim_task_binding p now id b actor s).0 ≡ ok r
      → (bound : RemoteTaskBinding) × (r.task.binding ≡ some bound)
        × (same_binding bound b ≡ true)
        × (get (claim_task_binding p now id b actor s).1.tasks id ≡ some r.task)
  claimed_task_there now id b actor s r keyed h = elim (claim-ok now id b actor s r h) [
    | inl (bound, unclaimed, found, taken, same, kept) ↦ (bound, taken, same, rw kept found)
    | inr (t, claimed, found, free, _, task, written) ↦
        let there : get (after_claim now b actor t s).tasks t.id ≡ some (claimed_task now b t s) =
          rw (tasks-after_claim now b actor t s) (get-put_self _ _ _) in
        let here : get (after_claim now b actor t s).tasks id ≡ some (claimed_task now b t s) =
          subst (λ k. get (after_claim now b actor t s).tasks k ≡ some (claimed_task now b t s))
            (keyed id t found) there in
        (b, rw task (unfold claimed_task in refl), same_binding_refl b, rw (written, task) here)
  ]

  -- a claim writes a free task that may run, or nothing
  pub claim-cases :
      (now : ℕ) (id : String) (b : RemoteTaskBinding) (actor : EventActor) (s : MemoryStore)
      → ((claim_task_binding p now id b actor s).1 ≡ s)
        ⊎ ((t : TaskRecord) × (get s.tasks id ≡ some t)
            × (t.binding ≡ none)
            × (is_claimable t.state ≡ true)
            × ((claim_task_binding p now id b actor s).1 ≡ after_claim now b actor t s))
  claim-cases now id b actor s = elim (Outcome-cases (claim_task_binding p now id b actor s).0) [
    | inr (e, thrown) ↦ inl (claim_error_writes_nothing now id b actor s e thrown)
    | inl (r, returned) ↦ elim (claim-ok now id b actor s r returned) [
      | inl (_, _, _, _, _, same) ↦ inl same
      | inr (t, _, found, free, fit, _, written) ↦ inr (t, found, free, fit, written)
    ]
  ]
