-- ===== src/Dag/Node/Rounds.antt =====
-- The rounds of rework of one node.
use cmap.Common.{ℕ, ◌≤◌, suc, String, Option, none, some, ok, err, sym, arith, subst}
use cmap.Dag.{DagNodeOutcome, DagNode, ParkedDagNode, Patches}
use cmap.Dag.Node.{
  Shared, Local, Await, materializes, checks_approval, waits_approval, runs_attempt, waits_report,
  hands_off, reviews, proposes, finishes, Reply, Next, awaits, parks, materialize, judge_review,
  begin, resume, Steps, here, step,
}

-- the round that a call materializes
abbrev round_of : Await → ℕ
round_of (materializes k _ _) = k
round_of _ = 0

module _ (patched : Patches) (cycles : ℕ) (n : DagNode) where
  -- no round beyond the first and the additional ones
  abbrev pub Within : Next → Type 0
  Within (awaits l a) = (l.attempt_number ≤ suc cycles) × (round_of a ≤ suc cycles)
  Within (parks p) = p.attempt_number ≤ suc cycles
  Within _ = Unit

  materialize-Within :
      (sh : Shared) (l : Local)
      → l.attempt_number ≤ suc cycles
      → Within (materialize patched cycles n sh l)
  unfolding materialize
  materialize-Within sh l h = ground arith

  judge_review-Within :
      (sh : Shared) (l : Local) (t : String) (o : DagNodeOutcome)
      → l.attempt_number ≤ suc cycles
      → Within (judge_review patched cycles n sh l t o)
  unfolding judge_review
  judge_review-Within sh l t o h = ground arith

  resume-Within :
      (sh : Shared) (l : Local) (a : Await) (r : Reply a)
      → Within (awaits l a)
      → Within (resume patched cycles n sh l a r)
  unfolding resume
  resume-Within sh l (materializes k deps old) r h = ground arith
  resume-Within sh l (checks_approval t) r h = ground arith
  resume-Within sh l (waits_approval t) r h = ground arith
  resume-Within sh l (runs_attempt t d) r h = ground arith
  resume-Within sh l (waits_report t d) r h = ground arith
  resume-Within sh l (hands_off t) r h = ground arith
  resume-Within sh l (reviews t previous) (ok o) h = judge_review-Within sh l t o h.0
  resume-Within sh l (reviews t previous) (err e) h = ground arith
  resume-Within sh l (proposes t o) r h = ground arith
  resume-Within sh l (finishes i) r h = ground arith

  Steps-Within : {x y : Next} → Steps patched cycles n x y → Within x → Within y
  Steps-Within here h = h
  Steps-Within (step l a w sh r e) h =
      subst Within (sym e) (resume-Within sh l a r (Steps-Within w h))

  -- the parked node, if there is one, is within its rounds
  abbrev pub Resumable : Option ParkedDagNode → Type 0
  Resumable none = Unit
  Resumable (some p) = p.attempt_number ≤ suc cycles

  begin-Within :
      (sh : Shared) (p : Option ParkedDagNode) → Resumable p → Within (begin patched cycles n sh p)
  unfolding begin
  begin-Within sh none h = ground arith
  begin-Within sh (some p) h = ground arith

  -- However the activities reply, whatever is signalled and however often the node is parked, a node
  -- is materialized in no round beyond the first and the additional cycles of the mission's budget.
  pub rounds_are_bounded :
      {y : Next} (sh : Shared) (p : Option ParkedDagNode)
      → Resumable p
      → Steps patched cycles n (begin patched cycles n sh p) y
      → Within y
  rounds_are_bounded sh p h w = Steps-Within w (begin-Within sh p h)
