-- ===== src/Approval.antt =====
-- packages/domain-model/src/approval-state.ts: the decision of an approval, with the record of
-- packages/domain-model/src/entities.ts.
pub mod Decisions
use cmap.Common.{
  ℕ, Bool, true, false, String, ◌==◌, Option, none, some, List, Platform, not, ◌&&◌, ◌||◌, eqb,
  earlier, not_later, is_blank, Outcome, ok, err, if◌then◌else◌,
}
use cmap.Entities.{RiskLevel}

-- APPROVAL_DECISIONS
pub data ApprovalDecision : Type 0 where
  pending approved rejected expired : ApprovalDecision

pub record Approval : Type 0 where
  pub id : String
  pub mission_id : String
  pub task_id : String
  pub action : String
  pub scope : RiskLevel  -- ApprovalScope
  pub requested_by : String
  pub risk_level : RiskLevel
  pub reason : String
  pub evidence_artifact_ids : List String
  pub decision : ApprovalDecision
  pub decided_by : Option String
  pub decided_at : Option String
  pub expires_at : String
  pub created_at : String

-- ApprovalDecisionInputV1
pub record DecisionInput : Type 0 where
  pub decision : ApprovalDecision
  pub decided_by : String
  pub at : String

pub data ApprovalError : Type 0 where
  invalid_decision : ApprovalError  -- RangeError
  already_decided : ApprovalError  -- ApprovalDecisionConflictError
  approval_expired : ApprovalError  -- ApprovalDecisionConflictError

abbrev pub decision_place : ApprovalDecision → ℕ
decision_place pending = 0
decision_place approved = 1
decision_place rejected = 2
decision_place expired = 3

abbrev pub same_decision : ApprovalDecision → ApprovalDecision → Bool
same_decision a b = eqb (decision_place a) (decision_place b)

-- a === b, for a field that may be null and a text
unfoldable pub is_text : Option String → String → Bool
is_text none s = false
is_text (some t) s = t == s

-- Number.isFinite(t)
abbrev pub is_time : Option ℕ → Bool
is_time none = false
is_time (some _) = true

module _ (p : Platform) where
  open p use {date_parse}

  -- the first test: decision, identity and times are in order
  unfoldable pub is_valid_decision : Approval → DecisionInput → Bool
  is_valid_decision a i =
      not (same_decision i.decision pending)
      && not (is_blank i.decided_by)
      && is_time (date_parse i.at)
      && is_time (date_parse a.created_at)
      && is_time (date_parse a.expires_at)
      && not (earlier (date_parse i.at) (date_parse a.created_at))

  unfoldable pub decide_approval_state : Approval → DecisionInput → Outcome ApprovalError Approval
  unfolding is_text
  decide_approval_state a i =
      if not (is_valid_decision a i)
      then err invalid_decision
      else if not (same_decision a.decision pending)
      then (if same_decision a.decision i.decision && is_text a.decided_by i.decided_by
          then ok a
          else err already_decided)
      else if same_decision i.decision approved
          && not_later (date_parse a.expires_at) (date_parse i.at)
      then err approval_expired
      else ok (record a {
        decision = i.decision;
        decided_by = some i.decided_by;
        decided_at = some i.at;
      })
