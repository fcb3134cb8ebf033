-- ===== src/Admission.antt =====
-- packages/domain-model/src/runner-admission.ts: which runner may be given a task. Values have the
-- types the source declares, so the tests of `Array.isArray` and of an unknown risk hold and have no
-- case.
pub mod Rules
use Prim.Native.Char.{code}
use Prim.Native.String
use cmap.Common.{
  ℕ, ◌+◌, Bool, true, false, String, ◌==◌, Option, none, some, List, all, includes, length,
  distinct, Outcome, ok, err, ◌>>=◌, ◌>>◌, if◌then◌else◌, not, ◌&&◌, ◌||◌, eqb, leb, ltb, is_space,
}
use cmap.Entities.{RiskLevel, risk_rank, same_risk, Mission, Envelope, TaskRecord}
use cmap.MissionPlan.{PlanNode}

-- RUNNER_ADMISSION_CODES
pub data AdmissionCode : Type 0 where
  invalid_runner runner_unhealthy tenant_denied owner_denied capability_denied risk_denied :
      AdmissionCode
  host_mismatch identity_mismatch classification_mismatch : AdmissionCode
  approval_invalid permit_invalid input_invalid : AdmissionCode

-- HEALTH_STATES
pub data HealthState : Type 0 where
  healthy degraded unavailable : HealthState

abbrev pub is_healthy : HealthState → Bool
is_healthy healthy = true
is_healthy _ = false

pub record RunnerAdmission : Type 0 where
  pub allowed_tenants : List String
  pub allowed_owners : List String
  pub allowed_capabilities : List String
  pub max_risk : RiskLevel

pub record RunnerDescriptor : Type 0 where
  pub runner_id : String
  pub tenant : String
  pub host : String
  pub agents : List String
  pub resources : List String
  pub admission : RunnerAdmission
  pub health : HealthState
  pub last_heartbeat_at : String

pub record AdmissionSubject : Type 0 where
  pub mission_id : String
  pub task_id : String
  pub tenant : String
  pub owner : String
  pub capability : String
  pub risk : RiskLevel
  pub affinity_host : Option String

-- value.length: a text's UTF-16 units
unfoldable pub unit_length : String → ℕ
unit_length String.[] = 0
unit_length (String.◌∷◌ c s) = (if ltb (code c) 0x10000 then 1 else 2) + unit_length s

-- !/[\s*]/u.test(value)
unfoldable pub is_plain : String → Bool
unfolding is_space
is_plain String.[] = true
is_plain (String.◌∷◌ c s) = not (is_space (code c) || eqb (code c) b'*') && is_plain s

unfoldable pub is_valid_scope : String → Bool
is_valid_scope s = leb 1 (unit_length s) && leb (unit_length s) 256 && is_plain s

unfoldable pub assert_scopes : List String → Outcome AdmissionCode (Unit {0})
assert_scopes values =
    if ltb 128 (length values) || not (distinct values) || not (all is_valid_scope values)
    then err invalid_runner
    else ok tt

-- subject.affinity_host !== undefined && subject.affinity_host !== host
abbrev pub wants_other_host : Option String → String → Bool
wants_other_host none host = false
wants_other_host (some wanted) host = not (wanted == host)

abbrev deny : Bool → AdmissionCode → Outcome AdmissionCode (Unit {0})
deny b e = if b then err e else ok tt

unfoldable pub assert_runner_admission :
    RunnerDescriptor → AdmissionSubject → Outcome AdmissionCode (Unit {0})
unfolding assert_scopes
assert_runner_admission runner subject =
    deny
      (not (is_valid_scope runner.runner_id)
        || not (is_valid_scope runner.tenant)
        || not (is_valid_scope runner.host))
      invalid_runner
    >> deny (not (is_healthy runner.health)) runner_unhealthy
    >> assert_scopes runner.admission.allowed_tenants
    >> assert_scopes runner.admission.allowed_owners
    >> assert_scopes runner.admission.allowed_capabilities
    >> deny (not (includes runner.admission.allowed_tenants subject.tenant)) tenant_denied
    >> deny (not (includes runner.admission.allowed_owners subject.owner)) owner_denied
    >> deny (not (includes runner.admission.allowed_capabilities subject.capability))
        capability_denied
    >> deny (ltb (risk_rank runner.admission.max_risk) (risk_rank subject.risk)) risk_denied
    >> deny (wants_other_host subject.affinity_host runner.host) host_mismatch

-- identity.tenant === mission.tenant, where the envelope may lack it
abbrev pub is_text_of : Option String → String → Bool
is_text_of none t = false
is_text_of (some s) t = s == t

unfoldable pub admission_subject_from_task :
    Mission → TaskRecord → Outcome AdmissionCode AdmissionSubject
admission_subject_from_task mission task =
    if not (task.mission_id == mission.id)
      || not (task.id == task.envelope.task_id)
      || not (task.envelope.mission_id == mission.id)
      || not (is_text_of task.envelope.tenant mission.tenant)
      || not (is_text_of task.envelope.owner mission.owner)
    then err identity_mismatch
    else if not (task.capability == task.envelope.requested_capability)
        || not (same_risk task.risk task.envelope.risk_level)
    then err classification_mismatch
    else ok (record {
      mission_id = mission.id;
      task_id = task.id;
      tenant = mission.tenant;
      owner = mission.owner;
      capability = task.capability;
      risk = task.risk;
      affinity_host = task.envelope.affinity_host;
    })

unfoldable pub admission_subject_from_dag_node : Mission → PlanNode → String → AdmissionSubject
admission_subject_from_dag_node mission node task_id = record {
  mission_id = mission.id;
  task_id = task_id;
  tenant = mission.tenant;
  owner = mission.owner;
  capability = node.capability;
  risk = node.risk_level;
  affinity_host = none;
}
