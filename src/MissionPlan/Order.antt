-- ===== src/MissionPlan/Order.antt =====
-- The search of validateGraph, if it ends well, has visited every node after all its dependencies.
use cmap.Common.{
  ℕ, zero, suc, true, String, ==_refl, Option, some, List, [], ◌∷◌, All, includes, Outcome, ok,
  ◌>>=◌, >>=-eq-ok, ◌≡◌, refl, arith, Bool-cases, Option-cases, inl, inr, length, subst, sym, ◌∙◌,
}
use cmap.MissionPlan.{PlanNode, PlanError, find_node, visit_list, visit, visit_nodes, node_ids}

-- every id of the list is in the other one
abbrev pub AllIn : List String → List String → Type 0
AllIn ds xs = All (λ d. includes xs d ≡ true) ds

-- an order of visits, the last first: before each id stand all its dependencies
abbrev pub IsTopological : List PlanNode → List String → Type 0
IsTopological nodes [] = Unit
IsTopological nodes (x ∷ xs) =
    ((n : PlanNode) → find_node nodes x ≡ some n → AllIn n.deps xs) × IsTopological nodes xs

-- what a visit of `id` makes of the visited ids
record Grew (nodes : List PlanNode) (id : String) (before now : List String) : Type 0 where
  order : IsTopological nodes before → IsTopological nodes now
  has : includes now id ≡ true
  more : (x : String) → includes before x ≡ true → includes now x ≡ true

-- what the visits of a list make of them
record GrewAll (nodes : List PlanNode) (ids : List String) (before now : List String) : Type 0 where
  order : IsTopological nodes before → IsTopological nodes now
  has : AllIn ids now
  more : (x : String) → includes before x ≡ true → includes now x ≡ true

visit_list-grows :
    (nodes : List PlanNode) (go : String → List String → Outcome PlanError (List String))
    → ((d : String) (v w : List String) → go d v ≡ ok w → Grew nodes d v w)
    → (ds v w : List String) → visit_list go ds v ≡ ok w
    → GrewAll nodes ds v w
unfolding visit_list
visit_list-grows nodes go good [] v w h =
    let e : v ≡ w = ground arith in
    record { order = λ t. rw (← e) t; has = tt; more = λ x i. rw (← e) i }
visit_list-grows nodes go good (d ∷ ds) v w h =
    let (u, first, rest) = >>=-eq-ok (go d v) (λ after. visit_list go ds after) h in
    let one = good d v u first in
    let all_rest = visit_list-grows nodes go good ds u w rest in
    record {
      order = λ t. all_rest.order (one.order t);
      has = (all_rest.more d one.has, all_rest.has);
      more = λ x i. all_rest.more x (one.more x i);
    }

includes_cons :
    (x y : String) (xs : List String) → includes xs y ≡ true → includes (x ∷ xs) y ≡ true
includes_cons x y xs h = ground arith

pub some_eq : {a b : PlanNode} → ◌≡◌ {A = Option PlanNode} (some a) (some b) → a ≡ b
some_eq e = cc

visit-grows :
    (fuel : ℕ) (nodes : List PlanNode) (visiting : List String) (id : String) (v w : List String)
    → visit fuel nodes visiting id v ≡ ok w
    → Grew nodes id v w
unfolding visit
visit-grows zero nodes visiting id v w h = absurd (ground arith)
visit-grows (suc fuel) nodes visiting id v w h = elim (Bool-cases (includes v id)) [
  | inl seen ↦
      let e : v ≡ w = ground arith in
      record { order = λ t. rw (← e) t; has = rw (← e) seen; more = λ x i. rw (← e) i }
  | inr fresh ↦ elim (Bool-cases (includes visiting id)) [
    | inl loop ↦ absurd (ground arith)
    | inr free ↦ elim (Option-cases (find_node nodes id)) [
      | inl missing ↦ absurd (ground arith)
      | inr (node, found) ↦
          let call : (visit_list (visit fuel nodes (id ∷ visiting)) node.deps v >>= λ after.
          ok (id ∷ after))
              ≡ ok w =
            ground arith in
          let (u, deps, end) =
            >>=-eq-ok (visit_list (visit fuel nodes (id ∷ visiting)) node.deps v)
              (λ after. ok (id ∷ after)) call in
          let all_deps =
            visit_list-grows nodes (visit fuel nodes (id ∷ visiting))
              (visit-grows fuel nodes (id ∷ visiting)) node.deps v u deps in
          let e : id ∷ u ≡ w = ground arith in
          rw (← e) (record {
            order = λ t. (
              λ n there.
                  subst (λ (m : PlanNode). AllIn m.deps u) (some_eq (sym found ∙ there))
                    all_deps.has,
              all_deps.order t,
            );
            has = rw ==_refl refl;
            more = λ x i. includes_cons id x u (all_deps.more x i);
          })
    ]
  ]
]

-- What the search returns is an order of all the nodes in which every node stands after all its
-- dependencies.
pub visit_nodes-order :
    (nodes : List PlanNode) (order : List String)
    → visit_nodes nodes ≡ ok order
    → IsTopological nodes order × AllIn (node_ids nodes) order
unfolding visit_nodes
visit_nodes-order nodes order h =
    let grew =
      visit_list-grows nodes (visit (suc (length nodes)) nodes [])
        (visit-grows (suc (length nodes)) nodes []) (node_ids nodes) [] order h in
    (grew.order tt, grew.has)
