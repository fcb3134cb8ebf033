-- ===== src/Dag/Scheduler/Bounds.antt =====
-- How many nodes run at once, and which may start.
use cmap.Common.{
  ℕ, ◌≤◌, suc, true, false, String, List, [], ◌∷◌, get, has, has-drop, length-put, length-drop,
  length, leb, all, not, ◌&&◌, ◌≡◌, arith, Bool-cases, inl, inr,
}
use cmap.Dag.{DagNode, Schedule, Patches, is_accepted_node}
use cmap.Dag.Scheduler.{
  Workflow, launch, is_taken, fill, turn, ended, parked_at, settle, cancel, Event, settles, cancels,
  turns, react, play,
}

launch-running : (n : DagNode) (w : Workflow) → length (launch n w).running ≤ suc (length w.running)
unfolding launch
launch-running n w = length-put w.running n.node_id (get w.resumable n.node_id)

fill-running :
    (c : ℕ) (ns : List DagNode) (w : Workflow)
    → length w.running ≤ c
    → length (fill c ns w).running ≤ c
unfolding fill
fill-running c [] w h = h
fill-running c (n ∷ ns) w h = elim (Bool-cases (leb c (length w.running))) [
  | inl full ↦ rw full h
  | inr room ↦ elim (Bool-cases (is_taken w n.node_id)) [
    | inl taken ↦ rw (room, taken) (fill-running c ns w h)
    | inr free ↦ elim (Bool-cases (all (is_accepted_node w.outcomes) n.deps)) [
      | inl ready ↦
          let more = launch-running n w in
          rw (room, free, ready) (fill-running c ns (launch n w) (ground arith))
      | inr early ↦ rw (room, free, early) (fill-running c ns w h)
    ]
  ]
]

module _ (patched : Patches) (sc : Schedule) where
  react-running :
      (e : Event) (w : Workflow)
      → length w.running ≤ sc.concurrency
      → length (react patched sc e w).running ≤ sc.concurrency
  unfolding react turn settle cancel
  react-running (settles id (ended o)) w h = ground (arith, length-drop w.running id)
  react-running (settles id (parked_at p)) w h = ground (arith, length-drop w.running id)
  react-running (cancels reason) w h = ground arith
  react-running turns w h = ground (arith, fill-running sc.concurrency sc.nodes w)

  -- Whatever happens, in whatever order, no more nodes run at once than the schedule's concurrency,
  -- from a workflow of which this holds, as of one that starts.
  pub running_is_bounded :
      (es : List Event) (w : Workflow)
      → length w.running ≤ sc.concurrency
      → length (play patched sc es w).running ≤ sc.concurrency
  unfolding play
  running_is_bounded [] w h = h
  running_is_bounded (e ∷ es) w h =
      running_is_bounded es (react patched sc e w) (react-running e w h)

  -- the workflow is stopping or draining
  abbrev pub IsClosing : Workflow → Type 0
  IsClosing w = (not w.stopping && not w.draining) ≡ false

  react-starts_nothing :
      (e : Event) (w : Workflow) (k : String)
      → IsClosing w
      → has (react patched sc e w).running k ≡ true
      → IsClosing (react patched sc e w) × (has w.running k ≡ true)
  unfolding react turn settle cancel
  react-starts_nothing (settles id (ended o)) w k c h = ground (arith, has-drop w.running id k)
  react-starts_nothing (settles id (parked_at p)) w k c h = ground (arith, has-drop w.running id k)
  react-starts_nothing (cancels reason) w k c h = ground arith
  react-starts_nothing turns w k c h = ground arith

  react-IsClosing : (e : Event) (w : Workflow) → IsClosing w → IsClosing (react patched sc e w)
  unfolding react turn settle cancel
  react-IsClosing (settles id (ended o)) w c = ground arith
  react-IsClosing (settles id (parked_at p)) w c = ground arith
  react-IsClosing (cancels reason) w c = ground arith
  react-IsClosing turns w c = ground arith

  -- Once the workflow is stopping or draining, no node is started any more: whatever happens later,
  -- a node that runs ran before.
  pub closing_starts_nothing :
      (es : List Event) (w : Workflow) (k : String)
      → IsClosing w
      → has (play patched sc es w).running k ≡ true
      → has w.running k ≡ true
  unfolding play
  closing_starts_nothing [] w k c h = h
  closing_starts_nothing (e ∷ es) w k c h =
      (react-starts_nothing e w k c
        (closing_starts_nothing es (react patched sc e w) k (react-IsClosing e w c) h)).1
