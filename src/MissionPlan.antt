-- ===== src/MissionPlan.antt =====
-- packages/domain-model/src/mission-plan.ts: the checks on a plan. What the schema validator (ajv)
-- accepts is a parameter, a test on the plan; the rest of the file works on the validated plan.
-- `visiting` is passed down the recursion, where the source adds an id before and deletes it after
-- the visit of its dependencies.
pub mod Order
pub mod Fuel
pub mod Verdict
use Prim.Native.String
use Prim.Native.Char.{code}
use cmap.Common.{
  ℕ, zero, suc, ◌+◌, ◌<◌, Bool, true, false, String, ◌==◌, ◌⧺◌, Option, none, some, List, [], ◌∷◌,
  ◌++◌, map, any, all, find, length, includes, distinct, Outcome, ok, err, ◌>>=◌, ◌>>◌, not, ◌&&◌,
  ◌||◌, eqb, leb, ltb, if◌then◌else◌,
}
use cmap.Entities.{RiskLevel, controlled, risk_rank, same_risk}
use cmap.Json.{Json}

pub record ResourceNeed : Type 0 where
  pub resource : String
  pub other : Json

-- the `yonwork` permissions of a node
pub record YonWork : Type 0 where
  pub chat_send : Bool
  pub other : Json

-- MissionPlanV1['nodes'][number]
pub record PlanNode : Type 0 where
  pub node_id : String
  pub deps : List String
  pub criterion_ids : List String
  pub capability : String
  pub risk_level : RiskLevel
  pub required_resource_locks : Option (List ResourceNeed)
  pub preferred_agent : Option String
  pub fallback_agents : Option (List String)
  pub yonwork : Option YonWork
  pub other : Json

pub record MissionPlan : Type 0 where
  pub concurrency : Option ℕ
  pub nodes : List PlanNode

-- the messages of `fail`
pub data PlanError : Type 0 where
  schema_invalid cycle uncovered : PlanError
  duplicates : String → PlanError  -- label
  risk_over_ceiling yonwork_rules yonwork_only self_dependency : String → PlanError  -- node id
  missing_dependency : String → String → PlanError  -- node id, dep
  no_node : String → PlanError
  undeclared_criterion : String → PlanError
  out_of_fuel : PlanError  -- of the model alone, never returned by validate_graph

unfoldable pub unique : List String → String → Outcome PlanError (Unit {0})
unique values label = if distinct values then ok tt else err (duplicates label)

-- [a-z0-9], and [a-z0-9_-]
abbrev is_alnum : ℕ → Bool
is_alnum c = (leb b'a' c && leb c b'z') || (leb b'0' c && leb c b'9')

-- up to `room` characters of [a-z0-9_-], to the end
unfoldable pub is_tail : ℕ → String → Bool
is_tail room String.[] = true
is_tail zero (String.◌∷◌ c s) = false
is_tail (suc room) (String.◌∷◌ c s) =
    (is_alnum (code c) || eqb (code c) b'_' || eqb (code c) b'-') && is_tail room s

-- the rest of a text after a prefix
unfoldable pub strip_prefix : String → String → Option String
strip_prefix String.[] s = some s
strip_prefix (String.◌∷◌ c p) String.[] = none
strip_prefix (String.◌∷◌ c p) (String.◌∷◌ d s) =
    let rest = strip_prefix p s in if eqb (code c) (code d) then rest else none

-- [a-z0-9][a-z0-9_-]{0,58}
unfoldable pub is_profile : String → Bool
unfolding is_tail
is_profile String.[] = false
is_profile (String.◌∷◌ c s) = is_alnum (code c) && is_tail 58 s

-- the test of yonWorkProfileFromRoute; the profile is the route without `yonwork:`
unfoldable pub yonwork_profile_from_route : Option String → Option String
unfolding strip_prefix is_profile
yonwork_profile_from_route none = none
yonwork_profile_from_route (some route) = elim (strip_prefix "yonwork:cmap-" route) [
  | none ↦ none
  | some name ↦ if is_profile name then strip_prefix "yonwork:" route else none
]

abbrev pub is_some {ℓ} : {A : Type ℓ} → Option A → Bool
is_some none = false
is_some (some _) = true

-- required_resource_locks ?? []
abbrev pub locks_of : PlanNode → List ResourceNeed
locks_of n = elim n.required_resource_locks [ none ↦ [] | some locks ↦ locks ]

-- node.fallback_agents?.length
abbrev pub has_fallback : Option (List String) → Bool
has_fallback none = false
has_fallback (some []) = false
has_fallback (some (a ∷ more)) = true

abbrev pub may_chat : Option YonWork → Bool
may_chat none = false
may_chat (some y) = y.chat_send

-- node.preferred_agent?.startsWith('yonwork:')
unfoldable pub routes_to_yonwork : Option String → Bool
unfolding strip_prefix
routes_to_yonwork none = false
routes_to_yonwork (some route) = is_some (strip_prefix "yonwork:" route)

-- the rules on a node of capability yonwork.validate, and on every other node
unfoldable pub check_yonwork : PlanNode → Outcome PlanError (Unit {0})
unfolding yonwork_profile_from_route routes_to_yonwork
check_yonwork n =
    if n.capability == "yonwork.validate"
    then (if not (same_risk n.risk_level controlled)
          || not (may_chat n.yonwork)
          || not (is_some (yonwork_profile_from_route n.preferred_agent))
          || has_fallback n.fallback_agents
          || not (any (λ l. l.resource == "yonwork:host") (locks_of n))
        then err (yonwork_rules n.node_id)
        else ok tt)
    else if is_some n.yonwork || routes_to_yonwork n.preferred_agent
    then err (yonwork_only n.node_id)
    else ok tt

-- `ceiling` is the rank of the mission's risk
unfoldable pub normalize_node : ℕ → PlanNode → Outcome PlanError PlanNode
unfolding unique check_yonwork
normalize_node ceiling n = do
  unique n.deps (n.node_id ⧺ ".deps")
  unique n.criterion_ids (n.node_id ⧺ ".criterion_ids")
  if ltb ceiling (risk_rank n.risk_level) then err (risk_over_ceiling n.node_id) else ok tt
  unique (map (λ (l : ResourceNeed). l.resource) (locks_of n))
      (n.node_id ⧺ ".required_resource_locks.resource")
  check_yonwork n
  ok (record n { required_resource_locks = some (locks_of n) })

unfoldable pub normalize_nodes : ℕ → List PlanNode → Outcome PlanError (List PlanNode)
normalize_nodes ceiling [] = ok []
normalize_nodes ceiling (n ∷ ns) =
    normalize_node ceiling n >>= λ m. normalize_nodes ceiling ns >>= λ ms. ok (m ∷ ms)

abbrev pub node_ids : List PlanNode → List String
node_ids = map (λ n. n.node_id)

-- byId.get(id), for nodes of distinct ids
unfoldable pub find_node : List PlanNode → String → Option PlanNode
find_node nodes id = find (λ n. n.node_id == id) nodes

-- the dependencies of one node: not itself, and all there
unfoldable pub check_deps : List String → String → List String → Outcome PlanError (Unit {0})
check_deps ids node [] = ok tt
check_deps ids node (dep ∷ deps) =
    if dep == node
    then err (self_dependency node)
    else if not (includes ids dep)
    then err (missing_dependency node dep)
    else check_deps ids node deps

unfoldable pub check_all_deps : List String → List PlanNode → Outcome PlanError (Unit {0})
unfolding check_deps
check_all_deps ids [] = ok tt
check_all_deps ids (n ∷ ns) = check_deps ids n.node_id n.deps >> check_all_deps ids ns

-- `for (const dep of deps) visit(dep)`; the result is the set `visited`, the last one first
unfoldable pub visit_list :
    (String → List String → Outcome PlanError (List String))
    → List String
    → List String
    → Outcome PlanError (List String)
visit_list visit [] visited = ok visited
visit_list visit (d ∷ ds) visited = visit d visited >>= λ after. visit_list visit ds after

unfoldable pub visit :
    ℕ → List PlanNode → List String → String → List String → Outcome PlanError (List String)
unfolding visit_list find_node
visit zero nodes visiting id visited = err out_of_fuel
visit (suc fuel) nodes visiting id visited =
    if includes visited id
    then ok visited
    else if includes visiting id
    then err cycle
    else elim (find_node nodes id) [
      | none ↦ err (no_node id)
      | some node ↦ visit_list (visit fuel nodes (id ∷ visiting)) node.deps visited >>= λ after.
          ok (id ∷ after)
    ]

-- the search over all nodes; a chain of visits is not longer than the list of nodes, and the visit
-- after it ends at once
unfoldable pub visit_nodes : List PlanNode → Outcome PlanError (List String)
visit_nodes nodes = visit_list (visit (suc (length nodes)) nodes []) (node_ids nodes) []

unfoldable pub validate_graph : List PlanNode → Outcome PlanError (List String)
validate_graph nodes =
    unique (node_ids nodes) "nodes.node_id"
    >> check_all_deps (node_ids nodes) nodes
    >> visit_nodes nodes

-- nodes.flatMap((node) => node.criterion_ids)
unfoldable pub assigned_criteria : List PlanNode → List String
assigned_criteria [] = []
assigned_criteria (n ∷ ns) = n.criterion_ids ++ assigned_criteria ns

unfoldable pub check_declared : List String → List String → Outcome PlanError (Unit {0})
check_declared accepted [] = ok tt
check_declared accepted (c ∷ cs) =
    if includes accepted c then check_declared accepted cs else err (undeclared_criterion c)

unfoldable pub validate_criterion_coverage :
    List PlanNode → List String → Outcome PlanError (Unit {0})
unfolding assigned_criteria check_declared unique
validate_criterion_coverage nodes accepted =
    unique accepted "Mission acceptance criterion_id"
    >> unique (assigned_criteria nodes) "plan criterion_ids"
    >> check_declared accepted (assigned_criteria nodes)
    >> (if eqb (length (assigned_criteria nodes)) (length accepted) then ok tt else err uncovered)

-- `validate_plan` is the compiled schema
unfoldable pub normalize_mission_plan :
    (MissionPlan → Bool) → MissionPlan → List String → RiskLevel → Outcome PlanError MissionPlan
normalize_mission_plan validate_plan plan acceptance ceiling =
    if not (validate_plan plan) then err schema_invalid else (do
      nodes ← normalize_nodes (risk_rank ceiling) plan.nodes
      order ← validate_graph nodes
      validate_criterion_coverage nodes acceptance
      ok (record {
        concurrency = some (elim plan.concurrency [ none ↦ 2 | some n ↦ n ]);
        nodes = nodes;
      }))
