-- ===== src/MissionPlan/Verdict.antt =====
-- validateGraph accepts exactly the plans whose dependencies form no cycle: what it accepts is well
-- founded, and what has a rank that falls along dependencies it accepts.
use mathlib.Core.WellFounded.{Acc}
use cmap.Common.{
  ℕ, zero, suc, ◌+◌, ◌<◌, true, false, String, ◌==◌, ==→eq, some, List, [], ◌∷◌, All, all_includes,
  members_inside, includes, distinct, distinct-le, length, Outcome, ok, ◌>>◌, >>=-eq-ok, ◌≡◌, refl,
  sym, arith, Bool-cases, inl, inr, subst,
}
use cmap.MissionPlan.{
  PlanNode, PlanError, find_node, visit_list, visit, visit_nodes, node_ids, unique, check_deps,
  check_all_deps, validate_graph,
}
use cmap.MissionPlan.Order.{AllIn, IsTopological, visit_nodes-order}
use cmap.MissionPlan.Fuel.{length-node_ids}

-- `d` is a dependency of the node `x`
pub record DependsOn (nodes : List PlanNode) (d x : String) : Type 0 where
  pub node : PlanNode
  pub found : find_node nodes x ≡ some node
  pub listed : includes node.deps d ≡ true

IsTopological-Acc :
    (nodes : List PlanNode) (order : List String) (x : String)
    → IsTopological nodes order
    → includes order x ≡ true
    → Acc (DependsOn nodes) x
IsTopological-Acc nodes [] x t h = absurd (ground arith)
IsTopological-Acc nodes (y ∷ ys) x t h = elim (Bool-cases (y == x)) [
  | inr other ↦ IsTopological-Acc nodes ys x t.1 (ground arith)
  | inl same ↦ Acc.intro x (λ d dep. IsTopological-Acc nodes ys d t.1 (
      all_includes (λ z. includes ys z ≡ true) dep.node.deps d
        (t.0 dep.node
          (subst (λ z. find_node nodes z ≡ some dep.node) (sym (==→eq y x same)) dep.found))
        dep.listed))
]

-- In a plan that validateGraph accepts no node depends on itself through any chain: the dependency
-- relation is well founded at every node.
pub accepted_well_founded :
    (nodes : List PlanNode) (order : List String)
    → validate_graph nodes ≡ ok order
    → (x : String) → includes (node_ids nodes) x ≡ true
    → Acc (DependsOn nodes) x
unfolding validate_graph
accepted_well_founded nodes order h x inside =
    let (_, _, searched) =
      >>=-eq-ok (unique (node_ids nodes) "nodes.node_id" >> check_all_deps (node_ids nodes) nodes)
        (λ _. visit_nodes nodes) h in
    let (topological, covers) = visit_nodes-order nodes order searched in
    IsTopological-Acc nodes order x topological
      (all_includes (λ z. includes order z ≡ true) (node_ids nodes) x covers inside)

module _ (nodes : List PlanNode) (rank : String → ℕ) where
  -- every dependency of a node is there and ranks below it
  abbrev pub Falls : List PlanNode → Type 0
  Falls =
      All (λ n. All (λ d. (includes (node_ids nodes) d ≡ true) × (rank d < rank n.node_id)) n.deps)

  Falls-at :
      (ns : List PlanNode) (x : String) (n : PlanNode)
      → Falls ns
      → find_node ns x ≡ some n
      → All (λ d. (includes (node_ids nodes) d ≡ true) × (rank d < rank x)) n.deps
  unfolding find_node
  Falls-at [] x n f h = absurd (ground arith)
  Falls-at (m ∷ ns) x n f h = elim (Bool-cases (m.node_id == x)) [
    | inr other ↦ Falls-at ns x n f.1 (ground arith)
    | inl same ↦
        let it : m ≡ n = ground arith in
        subst
          (λ (u : PlanNode).
            All (λ d. (includes (node_ids nodes) d ≡ true) × (rank d < rank x)) u.deps)
          it
          (subst (λ z. All (λ d. (includes (node_ids nodes) d ≡ true) × (rank d < rank z)) m.deps)
            (==→eq m.node_id x same) f.0)
  ]

  check_deps-Falls :
      (x : String) (ds : List String)
      → All (λ d. (includes (node_ids nodes) d ≡ true) × (rank d < rank x)) ds
      → check_deps (node_ids nodes) x ds ≡ ok tt
  unfolding check_deps
  check_deps-Falls x [] h = refl
  check_deps-Falls x (d ∷ ds) h = elim (Bool-cases (d == x)) [
    | inl same ↦
        let e : d ≡ x = ==→eq d x same in
        absurd (omega (arith, subst (λ z. rank d < rank z) (sym e) h.0.1))
    | inr other ↦ rw (other, h.0.0) (check_deps-Falls x ds h.1)
  ]

  check_all_deps-Falls :
      (ns : List PlanNode) → Falls ns → check_all_deps (node_ids nodes) ns ≡ ok tt
  unfolding check_all_deps
  check_all_deps-Falls [] h = refl
  check_all_deps-Falls (n ∷ ns) h =
      rw (check_deps-Falls n.node_id n.deps h.0) (check_all_deps-Falls ns h.1)

  find_node-includes :
      (ns : List PlanNode) (x : String)
      → includes (node_ids ns) x ≡ true
      → (n : PlanNode) × (find_node ns x ≡ some n)
  unfolding find_node
  find_node-includes [] x h = absurd (ground arith)
  find_node-includes (m ∷ ns) x h = elim (Bool-cases (m.node_id == x)) [
    | inl same ↦ (m, rw same refl)
    | inr other ↦ let (n, found) = find_node-includes ns x (ground arith) in (n, rw other found)
  ]

  -- what ranks below all of a list is not in it
  below_not_in :
      (id : String) (us : List String) → All (λ u. rank id < rank u) us → includes us id ≡ false
  below_not_in id [] h = refl
  below_not_in id (u ∷ us) h = elim (Bool-cases (u == id)) [
    | inl same ↦ absurd (omega (arith, subst (λ z. rank id < rank z) (==→eq u id same) h.0))
    | inr other ↦ rw (other) (below_not_in id us h.1)
  ]

  below_trans :
      (d id : String) (us : List String)
      → rank d < rank id
      → All (λ u. rank id < rank u) us
      → All (λ u. rank d < rank u) us
  below_trans d id [] lower h = tt
  below_trans d id (u ∷ us) lower h = (omega (arith, h.0), below_trans d id us lower h.1)

  visit_list-total :
      (go : String → List String → Outcome PlanError (List String)) (P : String → Type 0)
      → ((d : String) (v : List String) → P d → (w : List String) × (go d v ≡ ok w))
      → (ds v : List String) → All P ds
      → (w : List String) × (visit_list go ds v ≡ ok w)
  unfolding visit_list
  visit_list-total go P good [] v h = (v, refl)
  visit_list-total go P good (d ∷ ds) v h =
      let (u, first) = good d v h.0 in
      let (w, rest) = visit_list-total go P good ds u h.1 in (w, rw first rest)

  visit-total :
      Falls nodes
      → (fuel : ℕ) (visiting : List String) (id : String) (v : List String)
      → length nodes < fuel + length visiting
      → distinct visiting ≡ true
      → AllIn visiting (node_ids nodes)
      → All (λ u. rank id < rank u) visiting
      → includes (node_ids nodes) id ≡ true
      → (w : List String) × (visit fuel nodes visiting id v ≡ ok w)
  unfolding visit
  visit-total falls zero visiting id v enough d inside lower there =
      absurd (omega (arith, distinct-le visiting (node_ids nodes) d inside, length-node_ids nodes))
  visit-total falls (suc fuel) visiting id v enough d inside lower there =
      elim (Bool-cases (includes v id)) [
        | inl seen ↦ (v, rw seen refl)
        | inr fresh ↦
            let free = below_not_in id visiting lower in
            let (node, found) = find_node-includes nodes id there in
            let (w, deps) =
              visit_list-total (visit fuel nodes (id ∷ visiting))
                (λ x. (includes (node_ids nodes) x ≡ true) × (rank x < rank id))
                (λ x u below.
                  visit-total falls fuel (id ∷ visiting) x u (omega arith) (rw free d)
                    (there, inside) (below.1, below_trans x id visiting below.1 lower) below.0)
                node.deps v (Falls-at nodes id node falls found) in
            (id ∷ w, rw (fresh, free, found, deps) refl)
      ]

  -- A plan of distinct node ids whose every dependency is a node of the plan and ranks, under some
  -- ranking of the ids, below the node it belongs to, is accepted by validateGraph.
  pub ranked_accepted :
      distinct (node_ids nodes) ≡ true
      → Falls nodes
      → (order : List String) × (validate_graph nodes ≡ ok order)
  unfolding validate_graph unique visit_nodes
  ranked_accepted different falls =
      let (order, searched) =
        visit_list-total (visit (suc (length nodes)) nodes [])
          (λ x. includes (node_ids nodes) x ≡ true)
          (λ x u there.
            visit-total falls (suc (length nodes)) [] x u (omega arith) refl tt tt there)
          (node_ids nodes) [] (members_inside (node_ids nodes) (node_ids nodes) (λ x i. i)) in
      (order, rw (different, check_all_deps-Falls nodes falls, searched) refl)
