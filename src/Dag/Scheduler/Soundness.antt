-- ===== src/Dag/Scheduler/Soundness.antt =====
-- The soundness of a run of the loop: its running nodes, their dependencies and its outcomes.
use cmap.Common.{
  ◌<◌, Bool, true, false, String, ◌==◌, eq_iff, ==→eq, Option, none, some, List, [], ◌∷◌, map, Dict,
  get, put, has, find, keys, distinct-keys-put, get-put, has-put, has-drop, length-put_pos, length,
  leb, all, All, includes, distinct, not, ◌&&◌, ◌≡◌, sym, ◌∙◌, subst, arith, Bool-cases, inl, inr,
  ◌⊎◌,
}
use cmap.Dag.{
  DagNode, DagNodeOutcome, is_accepted, is_rework, ParkedDagNode, Schedule, Patches,
  is_accepted_node,
}
use cmap.Dag.Scheduler.{
  Workflow, launch, is_taken, fill, turn, ended, parked_at, settle, cancel_from, cancel, Event,
  settles, cancels, turns, react, play,
}

abbrev pub dag_ids : List DagNode → List String
dag_ids = map (λ n. n.node_id)

-- the first node of an id
abbrev pub find_dag : List DagNode → String → Option DagNode
find_dag ns k = find (λ n. n.node_id == k) ns

-- what holds of the workflow at every moment
pub record IsSound (sc : Schedule) (w : Workflow) : Type 0 where
  pub unique : distinct (keys w.outcomes) ≡ true
  pub known : (k : String) → has w.outcomes k ≡ true → includes (dag_ids sc.nodes) k ≡ true
  pub listed : (k : String) → has w.running k ≡ true → includes (dag_ids sc.nodes) k ≡ true
  pub apart : (k : String) → has w.running k ≡ true → has w.outcomes k ≡ false
  pub ready :
      (k : String) (n : DagNode)
      → find_dag sc.nodes k ≡ some n
      → has w.running k ≡ true
      → All (λ d. is_accepted_node w.outcomes d ≡ true) n.deps
  pub calm :
      (k : String) (o : DagNodeOutcome)
      → w.stopping ≡ false
      → get w.outcomes k ≡ some o
      → is_accepted o.status ≡ true
  pub busy : (w.draining ≡ false) ⊎ (0 < length w.parked)

-- a promise resolves to an outcome that is no rework
abbrev pub IsFinal : Event → Type 0
IsFinal (settles id (ended o)) = is_rework o.status ≡ false
IsFinal (settles id (parked_at p)) = Unit
IsFinal (cancels reason) = Unit
IsFinal turns = Unit

all_sound : (p : String → Bool) (xs : List String) → all p xs ≡ true → All (λ x. p x ≡ true) xs
all_sound p [] h = tt
all_sound p (x ∷ xs) h = (ground arith, all_sound p xs (ground arith))

-- what was accepted stays accepted when another node gets its outcome
is_accepted_node-put :
    (m : Dict DagNodeOutcome) (k d : String) (o : DagNodeOutcome)
    → has m k ≡ false
    → is_accepted_node m d ≡ true
    → is_accepted_node (put m k o) d ≡ true
unfolding is_accepted_node has
is_accepted_node-put m k d o fresh h = ground (arith, get-put m k d o, eq_iff k d)

All-accepted-put :
    (m : Dict DagNodeOutcome) (k : String) (o : DagNodeOutcome) (ds : List String)
    → has m k ≡ false
    → All (λ d. is_accepted_node m d ≡ true) ds
    → All (λ d. is_accepted_node (put m k o) d ≡ true) ds
All-accepted-put m k o [] fresh h = tt
All-accepted-put m k o (d ∷ ds) fresh h =
    (is_accepted_node-put m k d o fresh h.0, All-accepted-put m k o ds fresh h.1)

some_eq : {a b : DagNode} → ◌≡◌ {A = Option DagNode} (some a) (some b) → a ≡ b
some_eq e = cc

module _ (sc : Schedule) where
  launch-IsSound :
      (n : DagNode) (w : Workflow)
      → find_dag sc.nodes n.node_id ≡ some n
      → includes (dag_ids sc.nodes) n.node_id ≡ true
      → is_taken w n.node_id ≡ false
      → all (is_accepted_node w.outcomes) n.deps ≡ true
      → IsSound sc w
      → IsSound sc (launch n w)
  unfolding launch
  launch-IsSound n w found member free deps s = record {
    unique = s.unique;
    known = s.known;
    listed = λ k h. ground (
      arith,
      has-put w.running n.node_id k (get w.resumable n.node_id),
      eq_iff n.node_id k,
      s.listed k,
    );
    apart = λ k h. ground (
      arith,
      has-put w.running n.node_id k (get w.resumable n.node_id),
      eq_iff n.node_id k,
      s.apart k,
    );
    ready = λ k m there h. elim (Bool-cases (n.node_id == k)) [
      | inl same ↦
          let e : n ≡ m = some_eq (
            sym found
            ∙ subst (λ z. find_dag sc.nodes z ≡ some m) (sym (==→eq n.node_id k same)) there) in
          subst (λ (u : DagNode). All (λ d. is_accepted_node w.outcomes d ≡ true) u.deps) e
            (all_sound (is_accepted_node w.outcomes) n.deps deps)
      | inr apart ↦
          s.ready k m there
            (ground (arith, has-put w.running n.node_id k (get w.resumable n.node_id)))
    ];
    calm = s.calm;
    busy = s.busy;
  }

  -- every node of the list is the first of its id
  abbrev pub FirstOf : List DagNode → Type 0
  FirstOf =
      All (λ n.
        (find_dag sc.nodes n.node_id ≡ some n) × (includes (dag_ids sc.nodes) n.node_id ≡ true))

  fill-IsSound :
      (ns : List DagNode) (w : Workflow)
      → FirstOf ns
      → IsSound sc w
      → IsSound sc (fill sc.concurrency ns w)
  unfolding fill
  fill-IsSound [] w f s = s
  fill-IsSound (n ∷ ns) w f s = elim (Bool-cases (leb sc.concurrency (length w.running))) [
    | inl full ↦ rw full s
    | inr room ↦ elim (Bool-cases (is_taken w n.node_id)) [
      | inl taken ↦ rw (room, taken) (fill-IsSound ns w f.1 s)
      | inr free ↦ elim (Bool-cases (all (is_accepted_node w.outcomes) n.deps)) [
        | inl deps ↦
            rw (room, free, deps)
              (fill-IsSound ns (launch n w) f.1 (launch-IsSound n w f.0.0 f.0.1 free deps s))
        | inr early ↦ rw (room, free, early) (fill-IsSound ns w f.1 s)
      ]
    ]
  ]

  park-IsSound :
      (id : String) (p : ParkedDagNode) (w : Workflow)
      → IsSound sc w
      → IsSound sc (settle id (parked_at p) w)
  unfolding settle
  park-IsSound id p w s = record {
    unique = s.unique;
    known = s.known;
    listed = λ k h. s.listed k (ground (arith, has-drop w.running id k));
    apart = λ k h. s.apart k (ground (arith, has-drop w.running id k));
    ready = λ k n there h. s.ready k n there (ground (arith, has-drop w.running id k));
    calm = s.calm;
    busy = inr (length-put_pos w.parked id p);
  }

  end-IsSound :
      (id : String) (o : DagNodeOutcome) (w : Workflow)
      → has w.running id ≡ true
      → is_rework o.status ≡ false
      → IsSound sc w
      → IsSound sc (settle id (ended o) w)
  unfolding settle
  end-IsSound id o w runs final s = record {
    unique = distinct-keys-put w.outcomes id o s.unique;
    known = λ k h. elim (Bool-cases (id == k)) [
      | inl same ↦
          subst (λ z. includes (dag_ids sc.nodes) z ≡ true) (==→eq id k same) (s.listed id runs)
      | inr apart ↦ s.known k (ground (arith, has-put w.outcomes id k o))
    ];
    listed = λ k h. s.listed k (ground (arith, has-drop w.running id k));
    apart = λ k h.
        let before = s.apart k (ground (arith, has-drop w.running id k)) in
        ground (arith, has-put w.outcomes id k o, has-drop w.running id k);
    ready = λ k n there h.
        All-accepted-put w.outcomes id o n.deps (s.apart id runs)
          (s.ready k n there (ground (arith, has-drop w.running id k)));
    calm = λ k q still found. elim (Bool-cases (id == k)) [
      | inl same ↦
          let e : ◌≡◌ {A = Option DagNodeOutcome} (some o) (some q) =
            ground (arith, get-put w.outcomes id k o) in
          let e' : o ≡ q = cc in
          subst (λ (u : DagNodeOutcome). is_accepted u.status ≡ true) e' (ground arith)
      | inr apart ↦ s.calm k q (ground arith) (ground (arith, get-put w.outcomes id k o))
    ];
    busy = s.busy;
  }

  cancel_from-IsSound :
      (old : Option String) (present : Bool) (reason : String) (w : Workflow)
      → IsSound sc w
      → IsSound sc (cancel_from old present reason w)
  cancel_from-IsSound (some old) present reason w s = s
  cancel_from-IsSound none false reason w s = s
  cancel_from-IsSound none true reason w s = record {
    unique = s.unique;
    known = s.known;
    listed = s.listed;
    apart = s.apart;
    ready = s.ready;
    calm = λ k o still. cc;
    busy = s.busy;
  }

  cancel-IsSound :
      (patched : Patches) (reason : String) (w : Workflow)
      → IsSound sc w
      → IsSound sc (cancel patched reason w)
  unfolding cancel
  cancel-IsSound patched reason w s = cancel_from-IsSound w.cancel_reason patched.cancel reason w s

  pub react-IsSound :
      (patched : Patches) (e : Event) (w : Workflow)
      → FirstOf sc.nodes
      → IsFinal e
      → IsSound sc w
      → IsSound sc (react patched sc e w)
  unfolding react turn
  react-IsSound patched (settles id (ended o)) w f final s = elim (Bool-cases (has w.running id)) [
    | inl runs ↦ rw runs (end-IsSound id o w runs final s)
    | inr idle ↦ rw idle s
  ]
  react-IsSound patched (settles id (parked_at p)) w f final s =
      elim (Bool-cases (has w.running id)) [
        | inl runs ↦ rw runs (park-IsSound id p w s)
        | inr idle ↦ rw idle s
      ]
  react-IsSound patched (cancels reason) w f final s = cancel-IsSound patched reason w s
  react-IsSound patched turns w f final s = elim (Bool-cases (not w.stopping && not w.draining)) [
    | inl goes ↦ rw goes (fill-IsSound sc.nodes w f s)
    | inr closing ↦ rw closing s
  ]

  -- soundness lasts over any events
  pub play-IsSound :
      (patched : Patches) (es : List Event) (w : Workflow)
      → FirstOf sc.nodes
      → All IsFinal es
      → IsSound sc w
      → IsSound sc (play patched sc es w)
  unfolding play
  play-IsSound patched [] w f final s = s
  play-IsSound patched (e ∷ es) w f final s =
      play-IsSound patched es (react patched sc e w) f final.1
        (react-IsSound patched e w f final.0 s)
