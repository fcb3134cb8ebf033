-- ===== src/Dag/Scheduler/Complete.antt =====
-- Progress of the loop on a plan that validateGraph has accepted: what is left when nothing runs.
use mathlib.Core.WellFounded.{Acc}
use cmap.Common.{
  ℕ, ◌<◌, Bool, true, false, String, ◌==◌, ==_refl, eq_iff, some, List, [], ◌∷◌, map, Dict, get,
  has, keys, length-keys, includes-keys, length, eqb, all, All, all_includes, members_inside,
  includes, distinct, distinct-le, values, not, ◌&&◌, ◌≡◌, refl, sym, subst, arith, Bool-cases,
  Option-cases, inl, inr, ◌⊎◌, ok, ◌>>◌, >>=-eq-ok,
}
use cmap.MissionPlan.{MissionPlan, node_ids, unique, check_all_deps, visit_nodes, validate_graph}
use cmap.MissionPlan.Verdict.{DependsOn, accepted_well_founded}
use cmap.Dag.{DagNode, DagNodeOutcome, Schedule, ParkedDagNode, Patches, is_accepted_node}
use cmap.Dag.Scheduler.{
  Workflow, starts, is_taken, turn, Event, turns, react, play, continues, ends, verdict,
  is_nonempty,
}
use cmap.Dag.Scheduler.Soundness.{IsSound, IsFinal, FirstOf, dag_ids, find_dag, play-IsSound}
use cmap.Dag.Scheduler.Starting.{IsHandedOver, starts-IsSound}
use cmap.Dag.Scheduler.Idle.{Blocked, fill-idle}
use cmap.Dag.Scheduler.FromPlan.{
  to_dag, schedule_of, find_dag-to_dag, dag_ids-to_dag, find_node-some, All-find_dag,
  check_all_deps-find_node,
}

every_true :
    (p : String → Bool) (xs : List String)
    → ((x : String) → includes xs x ≡ true → p x ≡ true)
    → all p xs ≡ true
every_true p [] h = refl
every_true p (x ∷ xs) h = rw (h x (rw ==_refl refl)) (every_true p xs (λ y i. h y (ground arith)))

not_running {ℓ} : {V : Type ℓ} (m : Dict V) (k : String) → length m ≡ 0 → ¬ (has m k ≡ true)
unfolding has get
not_running [] k h there = absurd (ground arith)
not_running (e ∷ m) k h there = absurd (omega (arith, h))

-- what is taken while nothing runs and nothing failed is accepted
taken_accepted :
    (sc : Schedule) (w : Workflow) (x : String)
    → IsSound sc w
    → w.stopping ≡ false
    → length w.running ≡ 0
    → is_taken w x ≡ true
    → is_accepted_node w.outcomes x ≡ true
unfolding is_accepted_node has
taken_accepted sc w x s going idle taken = elim (Option-cases (get w.outcomes x)) [
  | inl none_yet ↦ absurd (not_running w.running x idle (ground arith))
  | inr (o, found) ↦ rw found (s.calm x o going found)
]

every_accepted :
    (p : MissionPlan) (budget : ℕ) (w : Workflow)
    → check_all_deps (node_ids p.nodes) p.nodes ≡ ok tt
    → IsSound (schedule_of budget p) w
    → w.stopping ≡ false
    → length w.running ≡ 0
    → All (Blocked w) (map to_dag p.nodes)
    → (x : String) → Acc (DependsOn p.nodes) x
    → includes (node_ids p.nodes) x ≡ true
    → is_accepted_node w.outcomes x ≡ true
unfolding to_dag
every_accepted p budget w deps s going idle blocked x (Acc.intro _ below) inside =
    let (n, found) = find_node-some p.nodes x inside in
    let (stuck, same) =
      All-find_dag (Blocked w) (map to_dag p.nodes) x (to_dag n) blocked
        (find_dag-to_dag p.nodes x n found) in
    elim stuck [
      | inl taken ↦
          taken_accepted (schedule_of budget p) w x s going idle
            (subst (λ k. is_taken w k ≡ true) same taken)
      | inr early ↦
          let ids = check_all_deps-find_node (node_ids p.nodes) p.nodes x n deps found in
          let all_deps = every_true (is_accepted_node w.outcomes) n.deps (λ d listed.
            every_accepted p budget w deps s going idle blocked d
              (below d (record { node = n; found = found; listed = listed }))
              (all_includes (λ z. includes (node_ids p.nodes) z ≡ true) n.deps d ids listed)) in
          absurd (ground arith)
    ]

turn-idle :
    (sc : Schedule) (v : Workflow)
    → 0 < sc.concurrency
    → (not (turn sc v).stopping && not (turn sc v).draining) ≡ true
    → length (turn sc v).running ≡ 0
    → All (Blocked (turn sc v)) sc.nodes
unfolding turn
turn-idle sc v pos opened idle = elim (Bool-cases (not v.stopping && not v.draining)) [
  | inl goes ↦
      let (same, blocked) = fill-idle sc.concurrency sc.nodes v pos (ground arith) in
      rw goes (subst (λ u. All (Blocked u) sc.nodes) (sym same) blocked)
  | inr closing ↦ absurd (ground arith)
]

is_nonempty_pos {ℓ} : {A : Type ℓ} (xs : List A) → 0 < length xs → is_nonempty xs ≡ true
is_nonempty_pos [] h = absurd (omega arith)
is_nonempty_pos (x ∷ xs) h = refl

nonempty_pos {ℓ} : {A : Type ℓ} (xs : List A) → is_nonempty xs ≡ true → 0 < length xs
nonempty_pos [] h = absurd (ground arith)
nonempty_pos (x ∷ xs) h = omega arith

is_nonempty_zero {ℓ} : {A : Type ℓ} (xs : List A) → length xs ≡ 0 → is_nonempty xs ≡ false
is_nonempty_zero [] h = refl
is_nonempty_zero (x ∷ xs) h = absurd (omega (arith, h))

accepted-has : (m : Dict DagNodeOutcome) (k : String) → is_accepted_node m k ≡ true → has m k ≡ true
unfolding is_accepted_node has
accepted-has m k h = ground arith

length-dag_ids : (ns : List DagNode) → length (dag_ids ns) ≡ length ns
length-dag_ids [] = refl
length-dag_ids (n ∷ ns) = omega (arith, length-dag_ids ns)

eqb_refl : (n : ℕ) → eqb n n ≡ true
eqb_refl n = ground arith

-- the outcomes are as many as the nodes
outcomes-count :
    (sc : Schedule) (w : Workflow)
    → IsSound sc w
    → distinct (dag_ids sc.nodes) ≡ true
    → ((x : String) → includes (dag_ids sc.nodes) x ≡ true → is_accepted_node w.outcomes x ≡ true)
    → length w.outcomes ≡ length sc.nodes
outcomes-count sc w s different accepted =
    let few = distinct-le (keys w.outcomes) (dag_ids sc.nodes) s.unique (
      members_inside (keys w.outcomes) (dag_ids sc.nodes)
        (λ x i. s.known x (ground (arith, includes-keys w.outcomes x)))) in
    let many = distinct-le (dag_ids sc.nodes) (keys w.outcomes) different (
      members_inside (dag_ids sc.nodes) (keys w.outcomes) (λ x i.
        ground (arith, includes-keys w.outcomes x, accepted-has w.outcomes x (accepted x i)))) in
    omega (arith, few, many, length-keys w.outcomes, length-dag_ids sc.nodes)

-- every one of the nodes is found in the list by its id
abbrev SelfFound : List DagNode → List DagNode → Type 0
SelfFound ns =
    All (λ n. (find_dag ns n.node_id ≡ some n) × (includes (dag_ids ns) n.node_id ≡ true))

SelfFound-cons :
    (m : DagNode) (ns us : List DagNode)
    → includes (dag_ids ns) m.node_id ≡ false
    → SelfFound ns us
    → SelfFound (m ∷ ns) us
SelfFound-cons m ns [] fresh h = tt
SelfFound-cons m ns (u ∷ us) fresh h =
    let apart : (m.node_id == u.node_id) ≡ false = ground (arith, eq_iff m.node_id u.node_id) in
    ((rw apart h.0.0, rw apart h.0.1), SelfFound-cons m ns us fresh h.1)

distinct-SelfFound : (ns : List DagNode) → distinct (dag_ids ns) ≡ true → SelfFound ns ns
distinct-SelfFound [] h = tt
distinct-SelfFound (n ∷ ns) h =
    let self = ==_refl n.node_id in
    (
      (rw self refl, rw self refl),
      SelfFound-cons n ns ns (ground arith) (distinct-SelfFound ns (ground arith)),
    )

distinct-FirstOf : (sc : Schedule) → distinct (dag_ids sc.nodes) ≡ true → FirstOf sc sc.nodes
distinct-FirstOf sc h = distinct-SelfFound sc.nodes h

-- what the last round of a run comes to
abbrev pub Progressed : Schedule → Workflow → Type 0
Progressed sc w =
    ((0 < length w.parked) × (verdict sc w ≡ continues (values w.outcomes) (values w.parked)))
    ⊎ ((verdict sc w ≡ ends w.outcomes)
        × ((x : String)
            → includes (dag_ids sc.nodes) x ≡ true
            → is_accepted_node w.outcomes x ≡ true))

-- a workflow that is not stopping and where nothing runs progresses
idle-Progressed :
    (sc : Schedule) (w : Workflow)
    → IsSound sc w
    → w.stopping ≡ false
    → length w.running ≡ 0
    → distinct (dag_ids sc.nodes) ≡ true
    → (w.draining ≡ false
        → (x : String) → includes (dag_ids sc.nodes) x ≡ true
        → is_accepted_node w.outcomes x ≡ true)
    → Progressed sc w
unfolding verdict
idle-Progressed sc w s going idle different accepted =
    let quiet = is_nonempty_zero w.running idle in
    elim (Bool-cases (is_nonempty w.parked)) [
      | inl some_parked ↦
          inl (nonempty_pos w.parked some_parked, rw (quiet, some_parked, going) refl)
      | inr none_parked ↦ elim s.busy [
        | inr parked ↦ absurd (ground (arith, is_nonempty_pos w.parked parked))
        | inl opened ↦
            let e = outcomes-count sc w s different (accepted opened) in
            inr
              (rw (quiet, none_parked, going, e, eqb_refl (length sc.nodes)) refl, accepted opened)
      ]
    ]

turn-IsSound :
    (sc : Schedule) (patched : Patches) (v : Workflow)
    → FirstOf sc sc.nodes
    → IsSound sc v
    → IsSound sc (turn sc v)
unfolding play react
turn-IsSound sc patched v first s = play-IsSound sc patched (turns ∷ []) v first (tt, tt) s

unique-distinct : (xs : List String) (label : String) → unique xs label ≡ ok tt → distinct xs ≡ true
unfolding unique
unique-distinct xs label h = ground arith

-- A plan that validateGraph accepts never stops short. The run starts with outcomes of nodes of the
-- plan, all of them accepted (none where it is the first run), and any parked nodes; the concurrency is
-- positive; and no promise resolves to a rework. After any such events, if the mission is not stopping
-- and nothing runs at the end of a round, then there are parked nodes and the workflow continues as a
-- new run with exactly the outcomes and the parked nodes that it has, or it ends with its outcomes and
-- every node of the plan has been accepted. It never reports unresolved dependencies, and never finds
-- no node to report.
pub plan_progresses :
    (patched : Patches) (p : MissionPlan) (order : List String) (budget : ℕ)
    (os : List DagNodeOutcome) (ps : List ParkedDagNode) (es : List Event) (w : Workflow)
    → validate_graph p.nodes ≡ ok order
    → 0 < (schedule_of budget p).concurrency
    → All (IsHandedOver (schedule_of budget p)) os
    → All IsFinal es
    → turn (schedule_of budget p) (play patched (schedule_of budget p) es (starts os ps)) ≡ w
    → w.stopping ≡ false
    → length w.running ≡ 0
    → Progressed (schedule_of budget p) w
unfolding validate_graph schedule_of
plan_progresses patched p order budget os ps es w valid pos handed final e going idle =
    let sc = schedule_of budget p in
    let v = play patched sc es (starts os ps) in
    let (_, checks, searched) =
      >>=-eq-ok
        (unique (node_ids p.nodes) "nodes.node_id" >> check_all_deps (node_ids p.nodes) p.nodes)
        (λ _. visit_nodes p.nodes) valid in
    let (_, uniq, deps) =
      >>=-eq-ok (unique (node_ids p.nodes) "nodes.node_id")
        (λ _. check_all_deps (node_ids p.nodes) p.nodes) checks in
    let ids = dag_ids-to_dag p.nodes in
    let different : distinct (dag_ids sc.nodes) ≡ true =
      rw ids (unique-distinct (node_ids p.nodes) "nodes.node_id" uniq) in
    let first = distinct-FirstOf sc different in
    let s : IsSound sc w = subst (IsSound sc) e (
      turn-IsSound sc patched v first
        (play-IsSound sc patched es (starts os ps) first final (starts-IsSound sc os ps handed))) in
    idle-Progressed sc w s going idle different (λ opened x inside.
      every_accepted p budget w deps s going idle
        (subst (λ u. All (Blocked u) sc.nodes) e
          (turn-idle sc v pos
            (subst (λ u. (not u.stopping && not u.draining) ≡ true) (sym e) (ground arith))
            (subst (λ (u : Workflow). length u.running ≡ 0) (sym e) idle)))
        x
        (accepted_well_founded p.nodes order valid x (subst (λ t. includes t x ≡ true) ids inside))
        (subst (λ t. includes t x ≡ true) ids inside))
