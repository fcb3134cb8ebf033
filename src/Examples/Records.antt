-- ===== src/Examples/Records.antt =====
-- The theorems on locks, leases, runners, approvals and admissions, at small records.
use cmap.Common.{ℕ, true, String, none, some, List, [], ◌∷◌, get, has, values, ◌≡◌, refl}
use cmap.Json.{null}
use cmap.Entities.{controlled}
use cmap.Gateway.{
  GatewayRunner, EnrollmentToken, EnrollInput, GatewayLease, leased, closed, Report,
  dispatch_accepted, advanced, is_lease_expired, apply_gateway_report, enrollment_token_usable,
  runner_from_token,
}
use cmap.Gateway.Leases.{Move, claim, renew, run, SameFate, expired_is_final}
use cmap.Store.{ResourceLock, MemoryStore, empty_store}
use cmap.Store.Locks.Exclusion.{
  LockCall, acquires, renews, releases, after_locks, IsExclusive, end_of, locks_exclude,
  IsExclusive-empty, AllTimed,
}
use cmap.Store.Runners.{runner_taken, enroll_with, enroll_gateway_runner}
use cmap.Store.Runners.Enrollment.{Enrolled, enroll-Enrolled}
use cmap.Store.Runners.Once.{RunnerCall, creates, revokes, after_runner_calls, token_enrolls_once}
use package.cmap.Examples.{clock}

-- two locks of one resource; the second is taken after the first was released
abbrev lock_named : String → String → String → ResourceLock
lock_named id from until = record {
  lock_id = id;
  resource = "device";
  task_id = "t1";
  mission_id = "m1";
  holder_runner_id = "r1";
  acquired_at = from;
  expires_at = until;
  released_at = none;
}

abbrev lock_calls : List (ℕ × LockCall)
lock_calls =
    (1, acquires (lock_named "l1" "1" "20"))
    ∷ (2, renews "l1" "30")
    ∷ (2, acquires (lock_named "l2" "5" "40"))
    ∷ (1, releases "l1" "6")
    ∷ (1, acquires (lock_named "l2" "7" "40"))
    ∷ []

lock_times : AllTimed clock lock_calls
unfolding clock
lock_times = (refl, (refl, (refl, (tt, (refl, tt)))))

locks_exclude_example :
    IsExclusive clock (end_of clock 0 lock_calls) (after_locks clock 0 lock_calls empty_store)
locks_exclude_example =
    locks_exclude clock 0 lock_calls empty_store lock_times (IsExclusive-empty clock 0)

abbrev lease_one : GatewayLease
lease_one = record {
  lease_id = "g1";
  runner_id = "r1";
  task_id = "t1";
  remote_task_id = "x1";
  dispatch = null;
  state = leased;
  expires_at = some "50";
  accepted = none;
  status_report = none;
  outcome = none;
  cancel = none;
  created_at = "1";
  updated_at = "1";
}

lease_expires : is_lease_expired clock lease_one 60 ≡ true
unfolding is_lease_expired clock
lease_expires = refl

abbrev late_moves : List (ℕ × Move)
late_moves = (1, renew "r1" "90") ∷ (1, claim "r1" "99") ∷ []

expired_is_final_example : SameFate clock lease_one (run clock 60 late_moves lease_one)
expired_is_final_example = expired_is_final clock 60 late_moves lease_one lease_expires

abbrev closed_lease : GatewayLease
closed_lease = record lease_one { state = closed }

abbrev acceptance : Report
acceptance = dispatch_accepted "r1" "x1"

abbrev accepted_lease : GatewayLease
accepted_lease = record lease_one {
  accepted = some acceptance;
  expires_at = some "70";
  updated_at = "10";
}

accepts :
    apply_gateway_report clock (some lease_one) "r1" acceptance 10 "70" ≡ advanced accepted_lease
unfolding apply_gateway_report clock
accepts = refl

abbrev token_one : EnrollmentToken
token_one = record {
  token_id = "k";
  token_sha256 = "hash";
  tenant = "acme";
  owner = "ann";
  allowed_capabilities = "code.edit" ∷ [];
  max_risk = controlled;
  issued_by = "ann";
  expires_at = "100";
  created_at = "1";
  used_at = none;
  runner_id = none;
}

abbrev token_store : MemoryStore
token_store = record empty_store { enrollment_tokens = ("hash", token_one) ∷ [] }

abbrev enrolls : String → String → EnrollInput
enrolls id now = record {
  token_sha256 = "hash";
  runner_id = id;
  public_key = "key";
  host = "mac";
  now = now;
}

abbrev enrolled_runner : GatewayRunner
enrolled_runner = record {
  runner_id = "r1";
  public_key = "key";
  tenant = "acme";
  owner = "ann";
  allowed_capabilities = "code.edit" ∷ [];
  max_risk = controlled;
  host = "mac";
  enrolled_at = "9";
  revoked_at = none;
  last_seen_at = none;
}

enrolls_one : (enroll_gateway_runner clock (enrolls "r1" "9") token_store).0 ≡ some enrolled_runner
unfolding enroll_gateway_runner enroll_with enrollment_token_usable runner_taken runner_from_token
    get clock has values
enrolls_one = refl

-- the token is created again, and the runner revoked
abbrev later_calls : List RunnerCall
later_calls = creates token_one ∷ revokes "r1" "acme" "9" ∷ []

token_enrolls_once_example :
    let s' =
      after_runner_calls clock later_calls
        (enroll_gateway_runner clock (enrolls "r1" "9") token_store).1 in
    enroll_gateway_runner clock (enrolls "r2" "10") s' ≡ (none, s')
token_enrolls_once_example =
    token_enrolls_once clock (enrolls "r1" "9") (enrolls "r2" "10") token_store enrolled_runner
      later_calls enrolls_one refl

enroll-Enrolled_example :
    Enrolled clock
      (enrolls "r1" "9")
      token_store
      (enroll_gateway_runner clock (enrolls "r1" "9") token_store).1
      enrolled_runner
enroll-Enrolled_example =
    enroll-Enrolled clock (enrolls "r1" "9") token_store enrolled_runner enrolls_one

late_token : (enroll_gateway_runner clock (enrolls "r1" "100") token_store).0 ≡ none
unfolding enroll_gateway_runner enroll_with enrollment_token_usable get clock
late_token = refl
