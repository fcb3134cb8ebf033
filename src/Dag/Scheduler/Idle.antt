-- ===== src/Dag/Scheduler/Idle.antt =====
-- The `for` over the nodes when it has started nothing.
use cmap.Common.{
  ℕ, ◌<◌, true, false, List, [], ◌∷◌, get, length-put_pos, length, leb, all, All, ◌≡◌, refl, arith,
  Bool-cases, inl, inr, ◌⊎◌,
}
use cmap.Dag.{DagNode, is_accepted_node}
use cmap.Dag.Scheduler.{Workflow, launch, is_taken, fill}

fill-busy :
    (c : ℕ) (ns : List DagNode) (w : Workflow)
    → 0 < length w.running
    → 0 < length (fill c ns w).running
unfolding fill launch
fill-busy c [] w h = h
fill-busy c (n ∷ ns) w h = elim (Bool-cases (leb c (length w.running))) [
  | inl full ↦ rw full h
  | inr room ↦ elim (Bool-cases (is_taken w n.node_id)) [
    | inl taken ↦ rw (room, taken) (fill-busy c ns w h)
    | inr free ↦ elim (Bool-cases (all (is_accepted_node w.outcomes) n.deps)) [
      | inl ready ↦
          rw (room, free, ready)
            (fill-busy c ns (launch n w)
              (length-put_pos w.running n.node_id (get w.resumable n.node_id)))
      | inr early ↦ rw (room, free, early) (fill-busy c ns w h)
    ]
  ]
]

-- the node is taken, or a dependency of it is not accepted
abbrev pub Blocked : Workflow → DagNode → Type 0
Blocked w n = (is_taken w n.node_id ≡ true) ⊎ (all (is_accepted_node w.outcomes) n.deps ≡ false)

-- where nothing runs after the `for`, it started nothing, and could not
pub fill-idle :
    (c : ℕ) (ns : List DagNode) (w : Workflow)
    → 0 < c
    → length (fill c ns w).running ≡ 0
    → (fill c ns w ≡ w) × All (Blocked w) ns
unfolding fill launch
fill-idle c [] w pos h = (refl, tt)
fill-idle c (n ∷ ns) w pos h = elim (Bool-cases (leb c (length w.running))) [
  | inl full ↦ absurd (ground arith)
  | inr room ↦ elim (Bool-cases (is_taken w n.node_id)) [
    | inl taken ↦
        let (same, rest) = fill-idle c ns w pos (ground arith) in
        (rw (room, taken) same, (inl taken, rest))
    | inr free ↦ elim (Bool-cases (all (is_accepted_node w.outcomes) n.deps)) [
      | inl ready ↦
          let more =
            fill-busy c ns (launch n w)
              (length-put_pos w.running n.node_id (get w.resumable n.node_id)) in
          absurd (ground arith)
      | inr early ↦
          let (same, rest) = fill-idle c ns w pos (ground arith) in
          (rw (room, free, early) same, (inr early, rest))
    ]
  ]
]
