-- ===== src/Dag/Scheduler/Starting.antt =====
-- The start of dagMissionWorkflow from the outcomes that an earlier run hands over.
use cmap.Common.{
  true, String, ◌==◌, some, List, [], ◌∷◌, Dict, get, has, keys, All, includes, distinct, ◌≡◌, refl,
  subst, arith, Bool-cases, inl, inr, ==→eq, put, has-put, get-put, distinct-keys-put, Option,
}
use cmap.Dag.{is_accepted, DagNodeOutcome, Schedule, ParkedDagNode}
use cmap.Dag.Scheduler.{by_node, starts}
use cmap.Dag.Scheduler.Soundness.{IsSound, dag_ids}

-- the outcomes that a run takes over are of nodes of the schedule, and accepted
abbrev pub IsHandedOver : Schedule → DagNodeOutcome → Type 0
IsHandedOver sc o = (is_accepted o.status ≡ true) × (includes (dag_ids sc.nodes) o.node_id ≡ true)

-- what holds of the outcomes with which a run starts
record AreSound (sc : Schedule) (m : Dict DagNodeOutcome) : Type 0 where
  unique : distinct (keys m) ≡ true
  known : (k : String) → has m k ≡ true → includes (dag_ids sc.nodes) k ≡ true
  accepted : (k : String) (o : DagNodeOutcome) → get m k ≡ some o → is_accepted o.status ≡ true

put-AreSound :
    (sc : Schedule) (m : Dict DagNodeOutcome) (o : DagNodeOutcome)
    → IsHandedOver sc o
    → AreSound sc m
    → AreSound sc (put m o.node_id o)
put-AreSound sc m o h s = record {
  unique = distinct-keys-put m o.node_id o s.unique;
  known = λ k there. elim (Bool-cases (o.node_id == k)) [
    | inl same ↦ subst (λ z. includes (dag_ids sc.nodes) z ≡ true) (==→eq o.node_id k same) h.1
    | inr other ↦ s.known k (ground (arith, has-put m o.node_id k o))
  ];
  accepted = λ k q found. elim (Bool-cases (o.node_id == k)) [
    | inl same ↦
        let e : ◌≡◌ {A = Option DagNodeOutcome} (some o) (some q) =
          ground (arith, get-put m o.node_id k o) in
        let e' : o ≡ q = cc in subst (λ (u : DagNodeOutcome). is_accepted u.status ≡ true) e' h.0
    | inr other ↦ s.accepted k q (ground (arith, get-put m o.node_id k o))
  ];
}

by_node-AreSound :
    (sc : Schedule) (m : Dict DagNodeOutcome) (os : List DagNodeOutcome)
    → All (IsHandedOver sc) os
    → AreSound sc m
    → AreSound sc (by_node (λ o. o.node_id) m os)
unfolding by_node
by_node-AreSound sc m [] h s = s
by_node-AreSound sc m (o ∷ os) h s =
    by_node-AreSound sc (put m o.node_id o) os h.1 (put-AreSound sc m o h.0 s)

no_outcomes : (sc : Schedule) → AreSound sc []
unfolding has get
no_outcomes sc = record {
  unique = refl;
  known = λ k h. absurd (ground arith);
  accepted = λ k o h. absurd (ground arith);
}

pub starts-IsSound :
    (sc : Schedule) (os : List DagNodeOutcome) (ps : List ParkedDagNode)
    → All (IsHandedOver sc) os
    → IsSound sc (starts os ps)
unfolding starts has get
starts-IsSound sc os ps h =
    let s = by_node-AreSound sc [] os h (no_outcomes sc) in
    record {
      unique = s.unique;
      known = s.known;
      listed = λ k there. absurd (ground arith);
      apart = λ k there. absurd (ground arith);
      ready = λ k n there runs. absurd (ground arith);
      calm = λ k o still found. s.accepted k o found;
      busy = inl refl;
    }
