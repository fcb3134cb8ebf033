-- ===== src/Dag/Node/Final.antt =====
-- executeNode never resolves to an outcome that is a rework.
use cmap.Common.{ℕ, false, String, Option, none, some, ok, err, ◌≡◌, sym, subst, arith}
use cmap.Dag.{DagNodeOutcome, is_rework, DagNode, ParkedDagNode, Patches}
use cmap.Dag.Node.{
  Shared, Local, Await, materializes, checks_approval, waits_approval, runs_attempt, waits_report,
  hands_off, reviews, proposes, finishes, Reply, Next, awaits, returns, parks, rejects,
  cancellation, other, materialize, judge_review, begin, resume, Steps, here, step,
}

-- what is returned, or waits to be returned, is no rework
abbrev pub IsFinal : Next → Type 0
IsFinal (returns o) = is_rework o.status ≡ false
IsFinal (awaits l (proposes t o)) = is_rework o.status ≡ false
IsFinal (awaits l (materializes _ _ _)) = Unit
IsFinal (awaits l (checks_approval _)) = Unit
IsFinal (awaits l (waits_approval _)) = Unit
IsFinal (awaits l (runs_attempt _ _)) = Unit
IsFinal (awaits l (waits_report _ _)) = Unit
IsFinal (awaits l (hands_off _)) = Unit
IsFinal (awaits l (reviews _ _)) = Unit
IsFinal (awaits l (finishes _)) = Unit
IsFinal (parks p) = Unit
IsFinal rejects = Unit

-- finishDagNode replies with no rework
abbrev pub FinalReply : (a : Await) → Reply a → Type 0
FinalReply (finishes i) (ok o) = is_rework o.status ≡ false
FinalReply (finishes i) (err e) = Unit
FinalReply (materializes _ _ _) r = Unit
FinalReply (checks_approval _) r = Unit
FinalReply (waits_approval _) r = Unit
FinalReply (runs_attempt _ _) r = Unit
FinalReply (waits_report _ _) r = Unit
FinalReply (hands_off _) r = Unit
FinalReply (reviews _ _) r = Unit
FinalReply (proposes _ _) r = Unit

module _ (patched : Patches) (cycles : ℕ) (n : DagNode) where
  abbrev pub FinalReplies : {x y : Next} → Steps patched cycles n x y → Type 0
  FinalReplies here = Unit
  FinalReplies (step l a w sh r e) = FinalReplies w × FinalReply a r

  materialize-IsFinal : (sh : Shared) (l : Local) → IsFinal (materialize patched cycles n sh l)
  unfolding materialize
  materialize-IsFinal sh l = ground arith

  judge_review-IsFinal :
      (sh : Shared) (l : Local) (t : String) (o : DagNodeOutcome)
      → IsFinal (judge_review patched cycles n sh l t o)
  unfolding judge_review
  judge_review-IsFinal sh l t o = ground arith

  resume-IsFinal :
      (sh : Shared) (l : Local) (a : Await) (r : Reply a)
      → FinalReply a r
      → IsFinal (awaits l a)
      → IsFinal (resume patched cycles n sh l a r)
  unfolding resume
  resume-IsFinal sh l (materializes k deps old) r q h = ground arith
  resume-IsFinal sh l (checks_approval t) r q h = ground arith
  resume-IsFinal sh l (waits_approval t) r q h = ground arith
  resume-IsFinal sh l (runs_attempt t d) r q h = ground arith
  resume-IsFinal sh l (waits_report t d) r q h = ground arith
  resume-IsFinal sh l (hands_off t) r q h = ground arith
  resume-IsFinal sh l (reviews t previous) (ok o) q h = judge_review-IsFinal sh l t o
  resume-IsFinal sh l (reviews t previous) (err e) q h = tt
  resume-IsFinal sh l (proposes t o) (err cancellation) q h = tt
  resume-IsFinal sh l (proposes t o) (err other) q h = h
  resume-IsFinal sh l (proposes t o) (ok _) q h = h
  resume-IsFinal sh l (finishes i) (ok o) q h = q
  resume-IsFinal sh l (finishes i) (err e) q h = tt

  steps-IsFinal :
      {x y : Next} (w : Steps patched cycles n x y) → FinalReplies w → IsFinal x → IsFinal y
  steps-IsFinal here q h = h
  steps-IsFinal (step l a w sh r e) q h =
      subst IsFinal (sym e) (resume-IsFinal sh l a r q.1 (steps-IsFinal w q.0 h))

  begin-IsFinal : (sh : Shared) (p : Option ParkedDagNode) → IsFinal (begin patched cycles n sh p)
  unfolding begin
  begin-IsFinal sh none = materialize-IsFinal sh _
  begin-IsFinal sh (some p) = ground arith

  -- Where finishDagNode replies with no rework, executeNode, fresh or resumed, and whatever the other
  -- activities reply and however often it goes round, resolves to no outcome that is a rework.
  pub returned_is_final :
      (sh : Shared) (p : Option ParkedDagNode) (o : DagNodeOutcome)
      (w : Steps patched cycles n (begin patched cycles n sh p) (returns o))
      → FinalReplies w
      → is_rework o.status ≡ false
  returned_is_final sh p o w q = steps-IsFinal w q (begin-IsFinal sh p)
