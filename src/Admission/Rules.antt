-- ===== src/Admission/Rules.antt =====
-- What an admission means: the whitelists of the runner, and nothing by default.
use cmap.Common.{
  ◌↔◌, ◌≤◌, true, false, String, ◌==◌, Option, none, some, List, all, includes, length, distinct,
  ok, ◌&&◌, ◌≡◌, ◌⊎◌, inl, inr, refl, arith, ap, ==→eq, ==_refl,
}
use cmap.Entities.{risk_rank, Mission, TaskRecord}
use cmap.Admission.{
  RunnerDescriptor, AdmissionSubject, HealthState, healthy, is_healthy, is_valid_scope,
  assert_scopes, wants_other_host, assert_runner_admission, admission_subject_from_task,
}

-- a whitelist in order: at most 128 distinct scopes without blanks and wildcards
pub record IsWhitelist (values : List String) : Type 0 where
  pub few : length values ≤ 128
  pub different : distinct values ≡ true
  pub valid : all is_valid_scope values ≡ true

-- what a runner must offer to a subject
pub record Admits (r : RunnerDescriptor) (s : AdmissionSubject) : Type 0 where
  pub named :
      (is_valid_scope r.runner_id && is_valid_scope r.tenant && is_valid_scope r.host) ≡ true
  pub alive : r.health ≡ healthy
  pub tenants : IsWhitelist r.admission.allowed_tenants
  pub owners : IsWhitelist r.admission.allowed_owners
  pub capabilities : IsWhitelist r.admission.allowed_capabilities
  pub tenant : includes r.admission.allowed_tenants s.tenant ≡ true
  pub owner : includes r.admission.allowed_owners s.owner ≡ true
  pub capability : includes r.admission.allowed_capabilities s.capability ≡ true
  pub risk : risk_rank s.risk ≤ risk_rank r.admission.max_risk
  pub host : (s.affinity_host ≡ none) ⊎ (s.affinity_host ≡ some r.host)

assert_scopes-IsWhitelist : (vs : List String) → assert_scopes vs ≡ ok tt → IsWhitelist vs
unfolding assert_scopes
assert_scopes-IsWhitelist vs h = record {
  few = ground arith;
  different = ground arith;
  valid = ground arith;
}

is_healthy_lem : (h : HealthState) → is_healthy h ≡ true → h ≡ healthy
is_healthy_lem h e = ground arith

IsWhitelist-assert_scopes : (vs : List String) → IsWhitelist vs → assert_scopes vs ≡ ok tt
unfolding assert_scopes
IsWhitelist-assert_scopes vs w =
    let a = w.few in let b = w.different in let c = w.valid in ground arith

host_lem :
    (o : Option String) (h : String) → wants_other_host o h ≡ false → (o ≡ none) ⊎ (o ≡ some h)
host_lem none h e = inl refl
host_lem (some w) h e = inr (ap some (==→eq w h (ground arith)))

lem_host :
    (o : Option String) (h : String) → (o ≡ none) ⊎ (o ≡ some h) → wants_other_host o h ≡ false
lem_host o h (inl e) = rw e refl
lem_host o h (inr e) = rw (e, ==_refl) refl

-- assertRunnerAdmission lets a subject pass exactly when the runner admits it: it is healthy and
-- named, its whitelists are in order, they list the tenant, the owner and the capability, the risk is
-- not above its ceiling, and the host is the wanted one.
pub assert_runner_admission_lem :
    (r : RunnerDescriptor) (s : AdmissionSubject)
    → (assert_runner_admission r s ≡ ok tt) ↔ Admits r s
unfolding assert_runner_admission
assert_runner_admission_lem r s = (
  λ h. record {
    named = ground arith;
    alive = is_healthy_lem r.health (ground arith);
    tenants = assert_scopes-IsWhitelist r.admission.allowed_tenants (ground arith);
    owners = assert_scopes-IsWhitelist r.admission.allowed_owners (ground arith);
    capabilities = assert_scopes-IsWhitelist r.admission.allowed_capabilities (ground arith);
    tenant = ground arith;
    owner = ground arith;
    capability = ground arith;
    risk = ground arith;
    host = host_lem s.affinity_host r.host (ground arith);
  },
  λ a.
      rw
        (
          IsWhitelist-assert_scopes r.admission.allowed_tenants a.tenants,
          IsWhitelist-assert_scopes r.admission.allowed_owners a.owners,
          IsWhitelist-assert_scopes r.admission.allowed_capabilities a.capabilities,
          a.alive,
          a.tenant,
          a.owner,
          a.capability,
          lem_host s.affinity_host r.host a.host,
        )
        (let n = a.named in let k = a.risk in ground arith),
)

-- A task that admissionSubjectFromTask describes and assertRunnerAdmission then lets pass runs for
-- its own mission: the runner's whitelists list the mission's tenant and owner and the capability
-- that the envelope asks for, and the envelope's risk is not above the runner's ceiling.
pub admitted_task :
    (m : Mission) (t : TaskRecord) (s : AdmissionSubject) (r : RunnerDescriptor)
    → admission_subject_from_task m t ≡ ok s
    → assert_runner_admission r s ≡ ok tt
    → (t.mission_id ≡ m.id)
      × (includes r.admission.allowed_tenants m.tenant ≡ true)
      × (includes r.admission.allowed_owners m.owner ≡ true)
      × (includes r.admission.allowed_capabilities t.envelope.requested_capability ≡ true)
      × (risk_rank t.envelope.risk_level ≤ risk_rank r.admission.max_risk)
unfolding admission_subject_from_task
admitted_task m t s r h g =
    let a = (assert_runner_admission_lem r s).0 g in
    let tenant = a.tenant in
    let owner = a.owner in
    let capability = a.capability in
    let risk = a.risk in
    let id : (t.mission_id == m.id) ≡ true = ground arith in
    let cap : (t.capability == t.envelope.requested_capability) ≡ true = ground arith in
    let e : t.capability ≡ t.envelope.requested_capability =
      ==→eq t.capability t.envelope.requested_capability cap in
    let s_tenant : m.tenant ≡ s.tenant = ground arith in
    let s_owner : m.owner ≡ s.owner = ground arith in
    let s_cap : t.capability ≡ s.capability = ground arith in
    (
      ==→eq t.mission_id m.id id,
      rw s_tenant tenant,
      rw s_owner owner,
      rw (← e, s_cap) capability,
      ground arith,
    )
