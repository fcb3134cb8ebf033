-- ===== src/Dag/Node/Approvals.antt =====
-- Attempts and approvals of one node.
use cmap.Common.{
  ℕ, true, String, Option, none, List, [], ◌∷◌, ok, err, ◌≡◌, sym, arith, subst, includes, ==_refl,
}
use cmap.Dag.{DagNodeOutcome, DagNode, approval, attempt, Patches}
use cmap.Dag.Node.{
  Shared, Local, Await, materializes, checks_approval, waits_approval, runs_attempt, waits_report,
  hands_off, reviews, proposes, finishes, approved, pending, rejected, Reply, Next, awaits, returns,
  parks, rejects, materialize, judge_review, begin, resume, Steps, here, step,
}

-- the task that a reply approves, in front of those approved before
abbrev granted : (a : Await) → Reply a → List String → List String
granted (checks_approval t) (ok approved) gs = t ∷ gs
granted (checks_approval t) (ok pending) gs = gs
granted (checks_approval t) (ok rejected) gs = gs
granted (checks_approval t) (err e) gs = gs
granted (materializes _ _ _) r gs = gs
granted (waits_approval _) r gs = gs
granted (runs_attempt _ _) r gs = gs
granted (waits_report _ _) r gs = gs
granted (hands_off _) r gs = gs
granted (reviews _ _) r gs = gs
granted (proposes _ _) r gs = gs
granted (finishes _) r gs = gs

-- a node that attempts, waits for a report or is parked there has its task approved
abbrev pub Cleared : List String → Next → Type 0
Cleared gs (awaits l (runs_attempt t d)) = includes gs t ≡ true
Cleared gs (awaits l (waits_report t d)) = includes gs t ≡ true
Cleared gs (awaits l (materializes _ _ _)) = Unit
Cleared gs (awaits l (checks_approval _)) = Unit
Cleared gs (awaits l (waits_approval _)) = Unit
Cleared gs (awaits l (hands_off _)) = Unit
Cleared gs (awaits l (reviews _ _)) = Unit
Cleared gs (awaits l (proposes _ _)) = Unit
Cleared gs (awaits l (finishes _)) = Unit
Cleared gs (returns o) = Unit
Cleared gs (parks p) = elim p.phase [ approval ↦ Unit | attempt ↦ includes gs p.task_id ≡ true ]
Cleared gs rejects = Unit

module _ (patched : Patches) (cycles : ℕ) (n : DagNode) where
  -- the tasks that the replies of a run approve, and those approved before it
  abbrev pub approved_by : {x y : Next} → List String → Steps patched cycles n x y → List String
  approved_by gs here = gs
  approved_by gs (step l a w sh r e) = granted a r (approved_by gs w)

  materialize-Cleared :
      (gs : List String) (sh : Shared) (l : Local) → Cleared gs (materialize patched cycles n sh l)
  unfolding materialize
  materialize-Cleared gs sh l = ground arith

  judge_review-Cleared :
      (gs : List String) (sh : Shared) (l : Local) (t : String) (o : DagNodeOutcome)
      → Cleared gs (judge_review patched cycles n sh l t o)
  unfolding judge_review
  judge_review-Cleared gs sh l t o = ground arith

  resume-Cleared :
      (gs : List String) (sh : Shared) (l : Local) (a : Await) (r : Reply a)
      → Cleared gs (awaits l a)
      → Cleared (granted a r gs) (resume patched cycles n sh l a r)
  unfolding resume
  resume-Cleared gs sh l (materializes k deps old) r h = ground arith
  resume-Cleared gs sh l (checks_approval t) (ok approved) h = ground (arith, ==_refl t)
  resume-Cleared gs sh l (checks_approval t) (ok pending) h = ground arith
  resume-Cleared gs sh l (checks_approval t) (ok rejected) h = tt
  resume-Cleared gs sh l (checks_approval t) (err e) h = tt
  resume-Cleared gs sh l (waits_approval t) r h = ground arith
  resume-Cleared gs sh l (runs_attempt t d) r h = ground arith
  resume-Cleared gs sh l (waits_report t d) r h = ground arith
  resume-Cleared gs sh l (hands_off t) r h = ground arith
  resume-Cleared gs sh l (reviews t previous) (ok o) h = judge_review-Cleared gs sh l t o
  resume-Cleared gs sh l (reviews t previous) (err e) h = tt
  resume-Cleared gs sh l (proposes t o) r h = ground arith
  resume-Cleared gs sh l (finishes i) r h = ground arith

  -- A run keeps this: a task is attempted, waited for or parked for its report only when it was
  -- approved before the run or by one of its replies.
  pub approved_by-Cleared :
      {x y : Next} (gs : List String) (w : Steps patched cycles n x y)
      → Cleared gs x
      → Cleared (approved_by gs w) y
  approved_by-Cleared gs here h = h
  approved_by-Cleared gs (step l a w sh r e) h =
      subst (Cleared (granted a r (approved_by gs w))) (sym e)
        (resume-Cleared (approved_by gs w) sh l a r (approved_by-Cleared gs w h))

  -- A node that was not parked runs an attempt of a task only after a reply that approved that task.
  pub attempts_were_approved :
      (sh : Shared) (l : Local) (t : String) (d : Option String)
      (w : Steps patched cycles n (begin patched cycles n sh none) (awaits l (runs_attempt t d)))
      → includes (approved_by [] w) t ≡ true
  unfolding begin
  attempts_were_approved sh l t d w = approved_by-Cleared [] w (
      materialize-Cleared [] sh
        (record { task_id = none; attempt_number = 1; previous_progress = none }))
