-- ===== src/Gateway.antt =====
-- packages/domain-model/src/runner-gateway.ts: the rules of the outbound runner gateway. A lease is
-- queued, leased or closed; that it has expired is a fact of the clock and no state. Reports and
-- cancels are the messages of generated/remote-runner.ts.
pub mod Leases
use cmap.Common.{
  ℕ, Bool, true, false, String, ◌==◌, Option, none, some, List, Platform, not, ◌&&◌, ◌||◌,
  not_later, earlier, if◌then◌else◌,
}
use cmap.Json.{Json, json_equal}
use cmap.Entities.{RiskLevel}

pub record GatewayRunner : Type 0 where
  pub runner_id : String
  pub public_key : String
  pub tenant : String
  pub owner : String
  pub allowed_capabilities : List String
  pub max_risk : RiskLevel
  pub host : String
  pub enrolled_at : String
  pub revoked_at : Option String
  pub last_seen_at : Option String

pub record EnrollmentToken : Type 0 where
  pub token_id : String
  pub token_sha256 : String
  pub tenant : String
  pub owner : String
  pub allowed_capabilities : List String
  pub max_risk : RiskLevel
  pub issued_by : String
  pub expires_at : String
  pub created_at : String
  pub used_at : Option String
  pub runner_id : Option String

-- EnrollGatewayRunnerInput
pub record EnrollInput : Type 0 where
  pub token_sha256 : String
  pub runner_id : String
  pub public_key : String
  pub host : String
  pub now : String

pub data LeaseState : Type 0 where
  queued leased closed : LeaseState

-- GatewayReportBody
pub data Report : Type 0 where
  dispatch_accepted : String → String → Report  -- runner_id, remote_task_id
  status : String → String → Bool → Report  -- remote_task_id, status, terminal_observed
  result : String → Json → Json → Report  -- remote_task_id, result, artifacts
  error : String → String → Bool → Report  -- category, code, retryable

-- GatewayCancel
pub record Cancel : Type 0 where
  pub remote_task_id : String
  pub reason : String

pub record GatewayLease : Type 0 where
  pub lease_id : String
  pub runner_id : String
  pub task_id : String
  pub remote_task_id : String
  pub dispatch : Json
  pub state : LeaseState
  pub expires_at : Option String
  pub accepted : Option Report
  pub status_report : Option Report  -- `status`
  pub outcome : Option Report
  pub cancel : Option Cancel
  pub created_at : String
  pub updated_at : String

-- EnqueueGatewayLeaseInput
pub record EnqueueInput : Type 0 where
  pub lease_id : String
  pub runner_id : String
  pub task_id : String
  pub remote_task_id : String
  pub dispatch : Json
  pub created_at : String

pub data ReportError : Type 0 where
  lease_unknown lease_expired invalid_request : ReportError

-- GatewayReportOutcome
pub data ReportOutcome : Type 0 where
  advanced : GatewayLease → ReportOutcome
  refused : ReportError → ReportOutcome

abbrev pub is_queued : LeaseState → Bool
is_queued queued = true
is_queued _ = false

abbrev pub is_leased : LeaseState → Bool
is_leased leased = true
is_leased _ = false

-- value === null
abbrev pub is_null {ℓ} : {A : Type ℓ} → Option A → Bool
is_null none = true
is_null (some _) = false

unfoldable pub new_lease : EnqueueInput → GatewayLease
new_lease i = record {
  lease_id = i.lease_id;
  runner_id = i.runner_id;
  task_id = i.task_id;
  remote_task_id = i.remote_task_id;
  dispatch = i.dispatch;
  state = queued;
  expires_at = none;
  accepted = none;
  status_report = none;
  outcome = none;
  cancel = none;
  created_at = i.created_at;
  updated_at = i.created_at;
}

unfoldable pub same_enqueue : GatewayLease → EnqueueInput → Bool
same_enqueue l i =
    l.runner_id == i.runner_id
    && l.task_id == i.task_id
    && l.remote_task_id == i.remote_task_id
    && json_equal l.dispatch i.dispatch

-- 'remote_task_id' in body && body.remote_task_id !== id
unfoldable pub names_other_task : Report → String → Bool
names_other_task (dispatch_accepted r t) id = not (t == id)
names_other_task (status t s o) id = not (t == id)
names_other_task (result t r a) id = not (t == id)
names_other_task (error c k r) id = false

-- body.kind === 'dispatch_accepted' && body.runner_id !== id
unfoldable pub names_other_runner : Report → String → Bool
names_other_runner (dispatch_accepted r t) id = not (r == id)
names_other_runner _ id = false

-- isDeepStrictEqual(body, lease.accepted), for a body of kind dispatch_accepted
unfoldable pub same_acceptance : String → String → Report → Bool
same_acceptance r t (dispatch_accepted r' t') = r == r' && t == t'
same_acceptance r t _ = false

abbrev pub is_acceptance : Report → Bool
is_acceptance (dispatch_accepted _ _) = true
is_acceptance _ = false

unfoldable pub runner_from_token : EnrollmentToken → EnrollInput → GatewayRunner
runner_from_token t i = record {
  runner_id = i.runner_id;
  public_key = i.public_key;
  tenant = t.tenant;
  owner = t.owner;
  allowed_capabilities = t.allowed_capabilities;
  max_risk = t.max_risk;
  host = i.host;
  enrolled_at = i.now;
  revoked_at = none;
  last_seen_at = none;
}

module _ (p : Platform) where
  open p use {date_parse, iso}

  unfoldable pub enrollment_token_usable : Option EnrollmentToken → Option ℕ → Bool
  enrollment_token_usable none now = false
  enrollment_token_usable (some t) now = is_null t.used_at && earlier now (date_parse t.expires_at)

  -- the test on `expires_at` of isLeaseExpired
  abbrev pub expired_by : Option String → ℕ → Bool
  expired_by none now = false
  expired_by (some at) now = not_later (date_parse at) (some now)

  unfoldable pub is_lease_expired : GatewayLease → ℕ → Bool
  is_lease_expired l now = is_leased l.state && expired_by l.expires_at now

  unfoldable pub can_renew_lease : Option GatewayLease → String → ℕ → Bool
  unfolding is_lease_expired
  can_renew_lease none runner now = false
  can_renew_lease (some l) runner now =
      l.runner_id == runner && is_leased l.state && not (is_lease_expired l now)

  -- the last part of applyGatewayReport, by the acceptance on record and the report: the lease is
  -- held by the runner, in time, and the report is about it
  unfoldable pub advance_lease : GatewayLease → Option Report → Report → ℕ → String → ReportOutcome
  unfolding same_acceptance
  advance_lease l none (dispatch_accepted r t) now until = advanced (record l {
    accepted = some (dispatch_accepted r t);
    expires_at = some until;
    updated_at = iso now;
  })
  advance_lease l none (error c k b) now until = advanced (record l {
    accepted = some (error c k b);
    outcome = some (error c k b);
    state = closed;
    updated_at = iso now;
  })
  advance_lease l none _ now until = refused invalid_request
  advance_lease l (some first) (dispatch_accepted r t) now until =
      if same_acceptance r t first
      then advanced (record l { expires_at = some until; updated_at = iso now })
      else refused invalid_request
  advance_lease l (some (dispatch_accepted _ _)) (status t s o) now until = advanced (record l {
    status_report = some (status t s o);
    expires_at = some until;
    updated_at = iso now;
  })
  advance_lease l (some (dispatch_accepted _ _)) body now until =
      advanced (record l { outcome = some body; state = closed; updated_at = iso now })
  advance_lease l (some _) _ now until = refused lease_unknown

  unfoldable pub apply_gateway_report :
      Option GatewayLease → String → Report → ℕ → String → ReportOutcome
  unfolding advance_lease is_lease_expired names_other_task names_other_runner
  apply_gateway_report none runner body now until = refused lease_unknown
  apply_gateway_report (some l) runner body now until =
      if not (l.runner_id == runner && is_leased l.state)
      then refused lease_unknown
      else if is_lease_expired l now
      then refused lease_expired
      else if names_other_task body l.remote_task_id
      then refused invalid_request
      else if names_other_runner body runner
      then refused invalid_request
      else advance_lease l l.accepted body now until

  -- the record that claimGatewayLease writes
  unfoldable pub claimed_lease : GatewayLease → ℕ → String → GatewayLease
  claimed_lease l now until = record l {
    state = leased;
    expires_at = some until;
    updated_at = iso now;
  }

  -- the record that renewGatewayLeases writes
  unfoldable pub renewed_lease : GatewayLease → ℕ → String → GatewayLease
  renewed_lease l now until = record l { expires_at = some until; updated_at = iso now }

  unfoldable pub apply_gateway_cancel : GatewayLease → Cancel → ℕ → GatewayLease
  apply_gateway_cancel l c now =
      if is_queued l.state
      then record l { state = closed; cancel = some c; updated_at = iso now }
      else if is_leased l.state && is_null l.cancel
      then record l { cancel = some c; updated_at = iso now }
      else l
