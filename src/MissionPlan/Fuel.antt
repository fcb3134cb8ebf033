-- ===== src/MissionPlan/Fuel.antt =====
-- The search of validateGraph ends: the fuel of the model is never used up.
use cmap.Common.{
  ℕ, zero, suc, ◌+◌, ◌<◌, true, String, some, List, [], ◌∷◌, includes, distinct, distinct-le,
  length, Outcome, err, ◌≡◌, ◌≢◌, refl, arith, Bool-cases, Option-cases, Outcome-cases, inl, inr,
}
use cmap.MissionPlan.{
  PlanNode, PlanError, out_of_fuel, find_node, visit_list, visit, visit_nodes, node_ids,
}
use cmap.MissionPlan.Order.{AllIn}

pub includes-find_node :
    (nodes : List PlanNode) (id : String) (n : PlanNode)
    → find_node nodes id ≡ some n
    → includes (node_ids nodes) id ≡ true
unfolding find_node
includes-find_node [] id n h = cc
includes-find_node (m ∷ nodes) id n h = ground (arith, includes-find_node nodes id n)

pub length-node_ids : (nodes : List PlanNode) → length (node_ids nodes) ≡ length nodes
length-node_ids [] = refl
length-node_ids (n ∷ nodes) = omega (arith, length-node_ids nodes)

visit_list-fueled :
    (go : String → List String → Outcome PlanError (List String))
    → ((d : String) (v : List String) → go d v ≢ err out_of_fuel)
    → (ds v : List String) → visit_list go ds v ≢ err out_of_fuel
unfolding visit_list
visit_list-fueled go good [] v h = cc
visit_list-fueled go good (d ∷ ds) v h = elim (Outcome-cases (go d v)) [
  | inl (w, returned) ↦ visit_list-fueled go good ds w (ground arith)
  | inr (e, thrown) ↦ good d v (ground arith)
]

-- with more fuel than there are nodes off the chain of visits, the fuel is not used up
visit-fueled :
    (fuel : ℕ) (nodes : List PlanNode) (visiting : List String) (id : String) (v : List String)
    → length nodes < fuel + length visiting
    → distinct visiting ≡ true
    → AllIn visiting (node_ids nodes)
    → visit fuel nodes visiting id v ≢ err out_of_fuel
unfolding visit
visit-fueled zero nodes visiting id v enough d inside h =
    absurd (omega (arith, distinct-le visiting (node_ids nodes) d inside, length-node_ids nodes))
visit-fueled (suc fuel) nodes visiting id v enough d inside h = elim (Bool-cases (includes v id)) [
  | inl seen ↦ ground arith
  | inr fresh ↦ elim (Bool-cases (includes visiting id)) [
    | inl loop ↦ ground arith
    | inr free ↦ elim (Option-cases (find_node nodes id)) [
      | inl missing ↦ ground arith
      | inr (node, found) ↦
          let go = visit fuel nodes (id ∷ visiting) in
          elim (Outcome-cases (visit_list go node.deps v)) [
            | inl (w, returned) ↦ ground arith
            | inr (e, thrown) ↦
                visit_list-fueled go
                  (λ x u.
                    visit-fueled fuel nodes (id ∷ visiting) x u (omega arith) (rw free d)
                      (includes-find_node nodes id node found, inside))
                  node.deps v (ground arith)
          ]
    ]
  ]
]

-- The search over any list of nodes, with cycles or not, ends within its fuel.
pub visit_nodes-ends : (nodes : List PlanNode) → visit_nodes nodes ≢ err out_of_fuel
unfolding visit_nodes
visit_nodes-ends nodes =
    visit_list-fueled (visit (suc (length nodes)) nodes [])
      (λ x u. visit-fueled (suc (length nodes)) nodes [] x u (omega arith) refl tt) (node_ids nodes)
      []
