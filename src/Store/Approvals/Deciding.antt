-- ===== src/Store/Approvals/Deciding.antt =====
-- decideApproval: what is written and what is read back.
use cmap.Common.{
  true, String, ==_refl, some, get, put, get-put_self, Outcome, ok, err, Platform, ◌&&◌, ◌≡◌, arith,
  Outcome-cases, inl, inr,
}
use cmap.Approval.{
  Approval, ApprovalError, DecisionInput, same_decision, is_text, decide_approval_state,
}
use cmap.Store.{MemoryStore, StoreError, approval_error}
use cmap.Store.Approvals.{check_decision, decide_found, decide_approval}

module _ (p : Platform) where
  -- what decideApprovalState returns carries the decision and the identity of the input
  decided_as_asked :
      (a a' : Approval) (i : DecisionInput)
      → decide_approval_state p a i ≡ ok a'
      → (same_decision a'.decision i.decision && is_text a'.decided_by i.decided_by) ≡ true
  unfolding decide_approval_state is_text
  decided_as_asked a a' i h = ground (arith, ==_refl i.decided_by)

  -- the ledger after the outcome of decideApprovalState
  abbrev pub stored :
      String
      → MemoryStore
      → Outcome ApprovalError Approval
      → Outcome StoreError Approval × MemoryStore
  stored id s (ok a') = (ok a', record s { approvals = put s.approvals id a' })
  stored id s (err e) = (err (approval_error e), s)

  decide_found-stored :
      (id : String) (i : DecisionInput) (a : Approval) (s : MemoryStore)
      → decide_found p id i a s ≡ stored id s (decide_approval_state p a i)
  unfolding decide_found check_decision
  decide_found-stored id i a s = elim (Outcome-cases (decide_approval_state p a i)) [
    | inr (e, thrown) ↦ ground (arith, thrown)
    | inl (a', returned) ↦
        ground (arith, returned, get-put_self s.approvals id a', decided_as_asked a a' i returned)
  ]

  -- A decision is stored exactly as decideApprovalState gives it, and the read-back never fails; what
  -- that function refuses leaves the ledger as it was.
  pub decide_approval_lem :
      (id : String) (i : DecisionInput) (a : Approval) (s : MemoryStore)
      → get s.approvals id ≡ some a
      → decide_approval p id i s ≡ stored id s (decide_approval_state p a i)
  unfolding decide_approval
  decide_approval_lem id i a s found = ground (arith, decide_found-stored id i a s)
