-- ===== src/Dag/Node/Stopping.antt =====
-- A node after the workflow was stopped.
use cmap.Common.{ℕ, ◌+◌, ◌≤◌, ◌<◌, suc, true, String, ok, err, ◌≡◌, sym, arith, subst}
use cmap.Dag.{DagNodeOutcome, DagNode, Patches}
use cmap.Dag.Node.{
  Shared, Local, Await, materializes, checks_approval, waits_approval, runs_attempt, waits_report,
  hands_off, reviews, proposes, finishes, Reply, Next, awaits, returns, parks, rejects, should_park,
  judge_review, resume, Steps, here, step,
}

-- how many replies are left at most, once the workflow is stopping
abbrev pub left_of : Await → ℕ
left_of (finishes _) = 1
left_of (proposes _ _) = 2
left_of (materializes _ _ _) = 2
left_of (waits_approval _) = 2
left_of (waits_report _ _) = 2
left_of (hands_off _) = 2
left_of (reviews _ _) = 3
left_of (checks_approval _) = 3
left_of (runs_attempt _ _) = 4

abbrev pub left : Next → ℕ
left (awaits l a) = left_of a
left (returns o) = 0
left (parks p) = 0
left rejects = 0

module _ (patched : Patches) (cycles : ℕ) (n : DagNode) where
  abbrev pub count_steps : {x y : Next} → Steps patched cycles n x y → ℕ
  count_steps here = 0
  count_steps (step l a w sh r e) = suc (count_steps w)

  -- the workflow is stopping at every step
  abbrev pub AllStopping : {x y : Next} → Steps patched cycles n x y → Type 0
  AllStopping here = Unit
  AllStopping (step l a w sh r e) = (sh.stopping ≡ true) × AllStopping w

  judge_review-left :
      (sh : Shared) (l : Local) (t : String) (o : DagNodeOutcome)
      → sh.stopping ≡ true
      → left (judge_review patched cycles n sh l t o) ≤ 2
  unfolding judge_review
  judge_review-left sh l t o h = ground arith

  resume-left :
      (sh : Shared) (l : Local) (a : Await) (r : Reply a)
      → sh.stopping ≡ true
      → left (resume patched cycles n sh l a r) < left_of a
  unfolding resume should_park
  resume-left sh l (materializes k deps old) r h = ground arith
  resume-left sh l (checks_approval t) r h = ground arith
  resume-left sh l (waits_approval t) r h = ground arith
  resume-left sh l (runs_attempt t d) r h = ground arith
  resume-left sh l (waits_report t d) r h = ground arith
  resume-left sh l (hands_off t) r h = ground arith
  resume-left sh l (reviews t previous) (ok o) h = omega (arith, judge_review-left sh l t o h)
  resume-left sh l (reviews t previous) (err e) h = omega arith
  resume-left sh l (proposes t o) r h = ground arith
  resume-left sh l (finishes i) r h = ground arith

  -- Once the workflow is stopping, a node comes to its end: the replies that it takes and those still
  -- left to take are no more than were left at the start, which is four at most.
  pub stopping_ends :
      {x y : Next} (w : Steps patched cycles n x y)
      → AllStopping w
      → count_steps w + left y ≤ left x
  stopping_ends {x} here h = omega arith
  stopping_ends {x} (step l a w sh r e) h =
      let lower = resume-left sh l a r h.0 in
      let before = stopping_ends w h.1 in
      subst (λ z. suc (count_steps w) + left z ≤ left x) (sym e) (omega (arith, lower, before))
