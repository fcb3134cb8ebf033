-- ===== src/Dag/Scheduler/Outcomes.antt =====
-- An outcome of a node, once it is on record, is never replaced.
use cmap.Common.{
  ℕ, Bool, true, false, String, ◌==◌, ==→eq, Option, none, some, List, [], ◌∷◌, Dict, get, put, has,
  get-put, leb, length, all, All, not, ◌&&◌, ◌≡◌, refl, ◌∙◌, ap, arith, Bool-cases, inl, inr, ◌⊎◌,
}
use cmap.Dag.{DagNode, DagNodeOutcome, Schedule, Patches, is_accepted_node}
use cmap.Dag.Scheduler.{
  Workflow, launch, is_taken, fill, turn, ended, parked_at, settle, cancel_from, cancel, Event,
  settles, cancels, turns, react, play,
}
use cmap.Dag.Scheduler.Soundness.{IsSound, IsFinal, FirstOf, react-IsSound, play-IsSound}

fill-outcomes : (c : ℕ) (ns : List DagNode) (w : Workflow) → (fill c ns w).outcomes ≡ w.outcomes
unfolding fill launch
fill-outcomes c [] w = refl
fill-outcomes c (n ∷ ns) w = elim (Bool-cases (leb c (length w.running))) [
  | inl full ↦ rw full refl
  | inr room ↦ elim (Bool-cases (is_taken w n.node_id)) [
    | inl taken ↦ rw (room, taken) (fill-outcomes c ns w)
    | inr free ↦ elim (Bool-cases (all (is_accepted_node w.outcomes) n.deps)) [
      | inl deps ↦ rw (room, free, deps) (fill-outcomes c ns (launch n w))
      | inr early ↦ rw (room, free, early) (fill-outcomes c ns w)
    ]
  ]
]

cancel-outcomes :
    (old : Option String) (present : Bool) (reason : String) (w : Workflow)
    → (cancel_from old present reason w).outcomes ≡ w.outcomes
cancel-outcomes (some old) present reason w = refl
cancel-outcomes none false reason w = refl
cancel-outcomes none true reason w = refl

-- a node that runs has no outcome, so the outcome that it gets replaces none
ended-outcomes :
    (id k : String) (o : DagNodeOutcome) (m : Dict DagNodeOutcome)
    → has m id ≡ false
    → has m k ≡ true
    → get (put m id o) k ≡ get m k
unfolding has
ended-outcomes id k o m fresh there = elim (Bool-cases (id == k)) [
  | inr other ↦ ground (arith, get-put m id k o)
  | inl same ↦ absurd (ground (arith, ap (has m) (==→eq id k same)))
]

has_same :
    (m m' : Dict DagNodeOutcome) (k : String)
    → get m' k ≡ get m k
    → has m k ≡ true
    → has m' k ≡ true
unfolding has
has_same m m' k e h = rw (e, has) h

module _ (sc : Schedule) (patched : Patches) (k : String) where
  react-outcomes :
      (e : Event) (w : Workflow)
      → IsSound sc w
      → has w.outcomes k ≡ true
      → get (react patched sc e w).outcomes k ≡ get w.outcomes k
  unfolding react turn settle cancel
  react-outcomes (settles id (ended o)) w s there = elim (Bool-cases (has w.running id)) [
    | inl runs ↦ rw runs (ended-outcomes id k o w.outcomes (s.apart id runs) there)
    | inr idle ↦ rw idle refl
  ]
  react-outcomes (settles id (parked_at p)) w s there = elim (Bool-cases (has w.running id)) [
    | inl runs ↦ rw runs refl
    | inr idle ↦ rw idle refl
  ]
  react-outcomes (cancels reason) w s there =
      ap (λ (m : Dict DagNodeOutcome). get m k)
        (cancel-outcomes w.cancel_reason patched.cancel reason w)
  react-outcomes turns w s there = elim (Bool-cases (not w.stopping && not w.draining)) [
    | inl goes ↦
        rw goes
          (ap (λ (m : Dict DagNodeOutcome). get m k) (fill-outcomes sc.concurrency sc.nodes w))
    | inr closing ↦ rw closing refl
  ]

  play-outcomes :
      (es : List Event) (w : Workflow)
      → FirstOf sc sc.nodes
      → All IsFinal es
      → IsSound sc w
      → has w.outcomes k ≡ true
      → get (play patched sc es w).outcomes k ≡ get w.outcomes k
  unfolding play
  play-outcomes [] w first final s there = refl
  play-outcomes (e ∷ es) w first final s there =
      let one = react-outcomes e w s there in
      let still : has (react patched sc e w).outcomes k ≡ true = has_same _ _ k one there in
      play-outcomes es (react patched sc e w) first final.1
        (react-IsSound sc patched e w first final.0 s) still
      ∙ one

  -- Of a schedule in which every node is the first of its id, and for events in which no promise
  -- resolves to an outcome that is a rework: from a sound workflow, after the events in any order, the
  -- workflow is sound, so that a node runs only while it has no outcome and every node it depends on
  -- has been accepted; and an outcome that was on record is still the outcome of its node.
  pub outcomes_are_kept :
      (es : List Event) (w : Workflow)
      → FirstOf sc sc.nodes
      → All IsFinal es
      → IsSound sc w
      → IsSound sc (play patched sc es w)
        × ((has w.outcomes k ≡ false) ⊎ (get (play patched sc es w).outcomes k ≡ get w.outcomes k))
  outcomes_are_kept es w first final s = (
    play-IsSound sc patched es w first final s,
    elim (Bool-cases (has w.outcomes k)) [
      | inl there ↦ inr (play-outcomes es w first final s there)
      | inr fresh ↦ inl fresh
    ],
  )
