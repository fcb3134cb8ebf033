-- ===== src/Store/Approvals.antt =====
-- Approvals of packages/domain-model/src/memory-store.ts: createApproval, getApproval,
-- decideApproval, listPendingApprovals.
pub mod Deciding
use cmap.Common.{
  ◌||◌, ℕ, Bool, true, false, String, ◌==◌, Option, none, some, List, get, put, values, keep,
  Outcome, ok, err, Platform, ◌&&◌, if◌then◌else◌,
}
use cmap.Approval.{
  Approval, ApprovalDecision, pending, DecisionInput, same_decision, is_text, decide_approval_state,
}
use cmap.Store.{MemoryStore, Method, StoreError, not_found, write_verification, approval_error}

unfoldable pub create_approval : Approval → Method Approval
create_approval a s = elim (get s.approvals a.id) [
  | some existing ↦ (ok existing, s)
  | none ↦ (ok a, record s { approvals = put s.approvals a.id a })
]

unfoldable pub get_approval : String → MemoryStore → Option Approval
get_approval id s = get s.approvals id

-- given and not empty: !missionId || a.mission_id === missionId
abbrev pub of_mission : Option String → Approval → Bool
of_mission none a = true
of_mission (some id) a = id == "" || a.mission_id == id

unfoldable pub list_pending_approvals : Option String → MemoryStore → List Approval
list_pending_approvals mission s =
    keep (λ a. same_decision a.decision pending && of_mission mission a) (values s.approvals)

-- the read-back of decideApproval
unfoldable pub check_decision :
    String → DecisionInput → Option Approval → Outcome StoreError Approval
check_decision id i none = err (write_verification "Approval" id)
check_decision id i (some back) =
    if same_decision back.decision i.decision && is_text back.decided_by i.decided_by
    then ok back
    else err (write_verification "Approval" id)

module _ (p : Platform) where
  -- decideApproval of an approval that was found
  unfoldable pub decide_found : String → DecisionInput → Approval → Method Approval
  decide_found id i a s = elim (decide_approval_state p a i) [
    | err e ↦ (err (approval_error e), s)
    | ok next ↦
        let written = record s { approvals = put s.approvals id next } in
        (check_decision id i (get written.approvals id), written)
  ]

  unfoldable pub decide_approval : String → DecisionInput → Method Approval
  decide_approval id i s = elim (get s.approvals id) [
    | none ↦ (err (not_found "Approval" id), s)
    | some a ↦ decide_found id i a s
  ]
