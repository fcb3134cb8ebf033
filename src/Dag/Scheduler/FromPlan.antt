-- ===== src/Dag/Scheduler/FromPlan.antt =====
-- The schedule that loadDagSchedule of workflows/dag-activities.ts makes of a plan.
use cmap.Common.{
  ℕ, true, String, ◌==◌, ==→eq, Option, none, some, List, [], ◌∷◌, map, All, includes, ◌≡◌, refl,
  ap, subst, arith, Bool-cases, inl, inr, ok, >>=-eq-ok,
}
use cmap.MissionPlan.{PlanNode, MissionPlan, node_ids, find_node, check_deps, check_all_deps}
use cmap.MissionPlan.Order.{AllIn}
use cmap.Dag.{DagNode, Schedule}
use cmap.Dag.Scheduler.Soundness.{dag_ids, find_dag}

-- the node of a plan, as loadDagSchedule passes it on
unfoldable pub to_dag : PlanNode → DagNode
to_dag n = record { node_id = n.node_id; deps = n.deps }

-- the answer of loadDagSchedule, for a mission that is not over
unfoldable pub schedule_of : ℕ → MissionPlan → Schedule
unfolding to_dag
schedule_of budget plan = record {
  nodes = map to_dag plan.nodes;
  concurrency = elim plan.concurrency [ none ↦ 2 | some n ↦ n ];
  max_additional_cycles = budget;
}

pub find_dag-to_dag :
    (ns : List PlanNode) (k : String) (n : PlanNode)
    → find_node ns k ≡ some n
    → find_dag (map to_dag ns) k ≡ some (to_dag n)
unfolding find_node to_dag
find_dag-to_dag [] k n h = absurd (ground arith)
find_dag-to_dag (m ∷ ns) k n h = elim (Bool-cases (m.node_id == k)) [
  | inl same ↦
      let e : m ≡ n = ground arith in rw same (ap (λ (u : PlanNode). Option.some (to_dag u)) e)
  | inr other ↦ rw other (find_dag-to_dag ns k n (ground arith))
]

pub dag_ids-to_dag : (ns : List PlanNode) → dag_ids (map to_dag ns) ≡ node_ids ns
unfolding to_dag
dag_ids-to_dag [] = refl
dag_ids-to_dag (n ∷ ns) = ap (λ t. n.node_id ∷ t) (dag_ids-to_dag ns)

pub find_node-some :
    (ns : List PlanNode) (k : String)
    → includes (node_ids ns) k ≡ true
    → (n : PlanNode) × (find_node ns k ≡ some n)
unfolding find_node
find_node-some [] k h = absurd (ground arith)
find_node-some (m ∷ ns) k h = elim (Bool-cases (m.node_id == k)) [
  | inl same ↦ (m, rw same refl)
  | inr other ↦ let (n, found) = find_node-some ns k (ground arith) in (n, rw other found)
]

-- what holds of all nodes holds of the one that is found
pub All-find_dag {κ} :
    (P : DagNode → Type κ) (ns : List DagNode) (k : String) (n : DagNode)
    → All P ns
    → find_dag ns k ≡ some n
    → P n × (n.node_id ≡ k)
All-find_dag P [] k n a h = absurd (ground arith)
All-find_dag P (m ∷ ns) k n a h = elim (Bool-cases (m.node_id == k)) [
  | inl same ↦
      let e : m ≡ n = ground arith in
      subst (λ (u : DagNode). P u × (u.node_id ≡ k)) e (a.0, ==→eq m.node_id k same)
  | inr other ↦ All-find_dag P ns k n a.1 (ground arith)
]

check_deps-AllIn :
    (ids : List String) (x : String) (ds : List String) → check_deps ids x ds ≡ ok tt → AllIn ds ids
unfolding check_deps
check_deps-AllIn ids x [] h = tt
check_deps-AllIn ids x (d ∷ ds) h = (ground arith, check_deps-AllIn ids x ds (ground arith))

pub check_all_deps-find_node :
    (ids : List String) (ns : List PlanNode) (k : String) (n : PlanNode)
    → check_all_deps ids ns ≡ ok tt
    → find_node ns k ≡ some n
    → AllIn n.deps ids
unfolding check_all_deps find_node
check_all_deps-find_node ids [] k n h f = absurd (ground arith)
check_all_deps-find_node ids (m ∷ ns) k n h f =
    let (_, first, rest) =
      >>=-eq-ok (check_deps ids m.node_id m.deps) (λ _. check_all_deps ids ns) h in
    elim (Bool-cases (m.node_id == k)) [
      | inl same ↦
          let e : m ≡ n = ground arith in
          subst (λ (u : PlanNode). AllIn u.deps ids) e (check_deps-AllIn ids m.node_id m.deps first)
      | inr other ↦ check_all_deps-find_node ids ns k n rest (ground arith)
    ]
