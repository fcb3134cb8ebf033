-- ===== src/Examples/Plans.antt =====
-- The theorems on approvals, admissions, plans, criteria and state tables, at small inputs.
use cmap.Common.{
  if◌then◌else◌, ◌==◌, is_blank, ℕ, true, false, String, Option, none, some, List, [], ◌∷◌, get, ok,
  ◌≡◌, ◌≢◌, refl, ◌⊎◌, ◌↔◌, ◌&&◌, arith,
}
use mathlib.Core.WellFounded.{Acc}
use cmap.Json.{Json, null, num, str, field, end, obj}
use cmap.Json.Laws.{distinct_keys}
use cmap.Json.Numbers.{Number, nan, finite}
use cmap.Entities.{controlled}
use cmap.Approval.{
  Approval, approved, rejected, pending, DecisionInput, decide_approval_state, is_valid_decision,
}
use cmap.Approval.Decisions.{Granted, approved_is_Granted, decide_all, decision_is_final}
use cmap.Store.{MemoryStore, empty_store}
use cmap.Admission.{
  RunnerDescriptor, AdmissionSubject, healthy, assert_runner_admission, is_valid_scope, is_plain,
  unit_length, admission_subject_from_task,
}
use cmap.Admission.Rules.{Admits, assert_runner_admission_lem}
use cmap.MissionPlan.{
  PlanNode, find_node, visit, visit_list, visit_nodes, unique, check_all_deps, validate_graph,
}
use cmap.MissionPlan.Verdict.{DependsOn, accepted_well_founded, ranked_accepted, Falls}
use cmap.Criterion.{less, CriterionResult, CheckableCriterion, recompute_criterion_passed}
use cmap.Criterion.Evidence.{opposite, opposites_exclude}
use package.cmap.Examples.{clock, mission_one, task_one}

abbrev approval_one : Approval
approval_one = record {
  id = "a1";
  mission_id = "m1";
  task_id = "t1";
  action = "edit";
  scope = controlled;
  requested_by = "agent";
  risk_level = controlled;
  reason = "edit";
  evidence_artifact_ids = [];
  decision = pending;
  decided_by = none;
  decided_at = none;
  expires_at = "100";
  created_at = "1";
}

abbrev approval : String → DecisionInput
approval at = record { decision = approved; decided_by = "ann"; at = at }

abbrev granted : Approval
granted = record approval_one {
  decision = approved;
  decided_by = some "ann";
  decided_at = some "5";
}

grants : decide_approval_state clock approval_one (approval "5") ≡ ok granted
unfolding decide_approval_state is_valid_decision clock is_blank
grants = refl

approved_is_Granted_example :
    (granted ≡ approval_one) ⊎ Granted clock approval_one granted (approval "5")
approved_is_Granted_example =
    approved_is_Granted clock approval_one granted (approval "5") grants refl

abbrev refusal : DecisionInput
refusal = record { decision = rejected; decided_by = "bob"; at = "6" }

not_pending : granted.decision ≢ pending
not_pending h = ground arith

decision_is_final_example : decide_all clock granted (refusal ∷ []) ≡ granted
decision_is_final_example = decision_is_final clock granted (refusal ∷ []) not_pending

late_is_valid : is_valid_decision clock approval_one (approval "200") ≡ true
unfolding is_valid_decision clock is_blank
late_is_valid = refl

abbrev approval_store : MemoryStore
approval_store = record empty_store { approvals = ("a1", approval_one) ∷ [] }

found_approval : get approval_store.approvals "a1" ≡ some approval_one
unfolding get
found_approval = refl

abbrev runner_one : RunnerDescriptor
runner_one = record {
  runner_id = "r1";
  tenant = "acme";
  host = "mac";
  agents = [];
  resources = [];
  admission = record {
    allowed_tenants = "acme" ∷ [];
    allowed_owners = "ann" ∷ "bob" ∷ [];
    allowed_capabilities = "code.edit" ∷ [];
    max_risk = controlled;
  };
  health = healthy;
  last_heartbeat_at = "1";
}

abbrev subject_one : AdmissionSubject
subject_one = record {
  mission_id = "m1";
  task_id = "t1";
  tenant = "acme";
  owner = "ann";
  capability = "code.edit";
  risk = controlled;
  affinity_host = none;
}

described : admission_subject_from_task mission_one task_one ≡ ok subject_one
unfolding admission_subject_from_task
described = refl

admitted : assert_runner_admission runner_one subject_one ≡ ok tt
unfolding assert_runner_admission is_valid_scope is_plain unit_length
admitted = refl

assert_runner_admission_lem_example :
    (assert_runner_admission runner_one subject_one ≡ ok tt) ↔ Admits runner_one subject_one
assert_runner_admission_lem_example = assert_runner_admission_lem runner_one subject_one

abbrev node_named : String → List String → PlanNode
node_named id deps = record {
  node_id = id;
  deps = deps;
  criterion_ids = [];
  capability = "code.edit";
  risk_level = controlled;
  required_resource_locks = none;
  preferred_agent = none;
  fallback_agents = none;
  yonwork = none;
  other = null;
}

-- a diamond without one side
abbrev chain : List PlanNode
chain = node_named "c" ("b" ∷ "a" ∷ []) ∷ node_named "b" ("a" ∷ []) ∷ node_named "a" [] ∷ []

chain_accepted : validate_graph chain ≡ ok ("c" ∷ "b" ∷ "a" ∷ [])
unfolding validate_graph unique check_all_deps visit_nodes visit visit_list find_node
chain_accepted = refl

accepted_well_founded_example : Acc (DependsOn chain) "c"
accepted_well_founded_example =
    accepted_well_founded chain ("c" ∷ "b" ∷ "a" ∷ []) chain_accepted "c" refl

abbrev rank : String → ℕ
rank id = if id == "c" then 2 else if id == "b" then 1 else 0

chain-Falls : Falls chain rank chain
chain-Falls =
    (((refl, omega arith), ((refl, omega arith), tt)), (((refl, omega arith), tt), (tt, tt)))

ranked_accepted_example : (order : List String) × (validate_graph chain ≡ ok order)
ranked_accepted_example = ranked_accepted chain rank refl chain-Falls

chain_searched : visit_nodes chain ≡ ok ("c" ∷ "b" ∷ "a" ∷ [])
unfolding visit_nodes visit visit_list find_node
chain_searched = refl

-- parsers that accept nothing
abbrev no_json : String → Option Json
no_json s = none

abbrev no_number : String → Number
no_number s = nan

abbrev measured : Option CriterionResult
measured = some (record { actual = some (num (finite false 3)); passed = true })

abbrev below_five : CheckableCriterion
below_five = record { operator = less; expected = num (finite false 5) }

opposites_exclude_example :
    (recompute_criterion_passed no_json no_number below_five measured
      && recompute_criterion_passed no_json no_number
          (record { operator = opposite less; expected = num (finite false 5) })
          measured)
    ≡ false
opposites_exclude_example = opposites_exclude no_json no_number less (num (finite false 5)) measured

abbrev object_one : Json
object_one = obj (field "a" (str "x") (field "b" null end))

object_one_distinct : distinct_keys object_one ≡ true
unfolding distinct_keys
object_one_distinct = refl
