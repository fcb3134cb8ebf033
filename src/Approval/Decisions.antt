-- ===== src/Approval/Decisions.antt =====
-- What a decision can do to an approval.
use cmap.Common.{
  true, false, eq_iff, ==_refl, some, List, [], ◌∷◌, Platform, not_later, Outcome, ok, err, ◌≡◌,
  ◌≢◌, refl, ◌⊎◌, arith,
}
use cmap.Approval.{
  Approval, pending, approved, DecisionInput, ApprovalError, same_decision, is_text,
  is_valid_decision, decide_approval_state,
}

module _ (p : Platform) where
  open p use {date_parse}

  -- An approval is granted only before it expires, by a decision in order, and only from `pending`;
  -- the record keeps who decided and when, and everything else of the request.
  pub record Granted (a a' : Approval) (i : DecisionInput) : Type 0 where
    pub was_pending : a.decision ≡ pending
    pub in_order : is_valid_decision p a i ≡ true
    pub in_time : not_later (date_parse a.expires_at) (date_parse i.at) ≡ false
    pub who : a'.decided_by ≡ some i.decided_by
    pub when : a'.decided_at ≡ some i.at
    pub same_scope : a'.scope ≡ a.scope
    pub same_task : a'.task_id ≡ a.task_id

  -- An approval that a decision returns as approved was approved before and is unchanged, or the
  -- decision granted it: it was pending, the input is in order, it had not expired, the record
  -- names the decider and the time, and its scope and task are as before.
  pub approved_is_Granted :
      (a a' : Approval) (i : DecisionInput)
      → decide_approval_state p a i ≡ ok a'
      → a'.decision ≡ approved
      → (a' ≡ a) ⊎ Granted a a' i
  unfolding decide_approval_state
  approved_is_Granted a a' i h e = ground arith

  -- the decisions, in order, as the store applies them: an error leaves the record as it was
  abbrev decided : Approval → Outcome ApprovalError Approval → Approval
  decided a (ok a') = a'
  decided a (err e) = a

  unfoldable pub decide_all : Approval → List DecisionInput → Approval
  decide_all a [] = a
  decide_all a (i ∷ is) = decide_all (decided a (decide_approval_state p a i)) is

  decided_final :
      (a : Approval) (i : DecisionInput)
      → same_decision a.decision pending ≡ false
      → decided a (decide_approval_state p a i) ≡ a
  unfolding decide_approval_state
  decided_final a i h = ground arith

  -- A decision once taken is final: no later input, valid or not, changes the approval.
  pub decision_is_final :
      (a : Approval) (is : List DecisionInput) → a.decision ≢ pending → decide_all a is ≡ a
  unfolding decide_all
  decision_is_final a [] h = refl
  decision_is_final a (i ∷ is) h = rw (decided_final a i (ground arith)) (decision_is_final a is h)

  -- Deciding again with the same decision and identity gives the same record, even after expiry.
  pub decide_again :
      (a a' : Approval) (i j : DecisionInput)
      → decide_approval_state p a i ≡ ok a'
      → j.decision ≡ i.decision
      → j.decided_by ≡ i.decided_by
      → is_valid_decision p a j ≡ true
      → decide_approval_state p a' j ≡ ok a'
  unfolding decide_approval_state is_valid_decision is_text
  decide_again a a' i j h d w v =
      ground (arith, eq_iff i.decided_by i.decided_by, ==_refl i.decided_by)
