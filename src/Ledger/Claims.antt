-- ===== src/Ledger/Claims.antt =====
-- Claims of a task by remote bindings, with any writes of the ledger between them.
use cmap.Common.{
  ℕ, true, false, String, some, List, get, ok, err, Platform, if◌then◌else◌, ◌≡◌, ◌∙◌, arith, inl,
  inr,
}
use cmap.Entities.{TaskRecord, RemoteTaskBinding, EventActor}
use cmap.Store.{MemoryStore, IsKeyed, binding_conflict}
use cmap.Store.Compare.{same_binding}
use cmap.Store.Tasks.{ClaimResult, claim_task_binding}
use cmap.Store.Tasks.Binding.{claim_bound, claimed_task_there}
use cmap.Ledger.{Call, claims, after, after_all}
use cmap.Ledger.TaskSteps.{Continues, after-KeepsTasks}
use cmap.Ledger.TaskHistory.{task-Continues}

module _ (p : Platform) where
  claim-IsKeyed :
      (now : ℕ) (id : String) (b : RemoteTaskBinding) (actor : EventActor) (s : MemoryStore)
      → IsKeyed s
      → IsKeyed (claim_task_binding p now id b actor s).1
  unfolding after
  claim-IsKeyed now id b actor s keyed =
      (after-KeepsTasks p now (claims id b actor) s keyed).keyed keyed

  binding_stays :
      (t t' : TaskRecord) (bound : RemoteTaskBinding)
      → Continues t t'
      → t.binding ≡ some bound
      → t'.binding ≡ some bound
  binding_stays t t' bound goes taken = elim goes.binding [
    | inl unbound ↦ absurd (ground arith)
    | inr same ↦ same ∙ taken
  ]

  -- In a ledger whose tasks stand under their own ids, once a claim has returned, the task keeps a
  -- binding that equals the claimed one in all fields: after any later calls at any times, a claim of
  -- it writes nothing; it returns the task unclaimed where its binding equals that one in all fields,
  -- and throws otherwise.
  pub claim_is_exclusive :
      (now later : ℕ) (id : String) (b c : RemoteTaskBinding) (actor actor' : EventActor)
      (s : MemoryStore) (r : ClaimResult) (cs : List (ℕ × Call))
      → IsKeyed s
      → (claim_task_binding p now id b actor s).0 ≡ ok r
      → let s' = after_all p cs (claim_task_binding p now id b actor s).1 in
        (bound : RemoteTaskBinding) × (t : TaskRecord) × (get s'.tasks id ≡ some t)
        × (t.binding ≡ some bound)
        × (same_binding bound b ≡ true)
        × (claim_task_binding p later id c actor' s' ≡ (
            if same_binding bound c
            then (ok (record { task = t; claimed = false }), s')
            else (err (binding_conflict id), s')))
  claim_is_exclusive now later id b c actor actor' s r cs keyed h =
      let next = (claim_task_binding p now id b actor s).1 in
      let (bound, taken, same, here) = claimed_task_there p now id b actor s r keyed h in
      let (t, there, goes) =
        task-Continues p cs next id r.task (claim-IsKeyed now id b actor s keyed) here in
      let bound_still = binding_stays r.task t bound goes taken in
      (
        bound,
        t,
        there,
        bound_still,
        same,
        claim_bound p later id c bound actor' t (after_all p cs next) there bound_still,
      )
