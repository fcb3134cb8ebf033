-- ===== src/Store/Runners/Once.antt =====
-- enrollGatewayRunner: a token that has enrolled a runner stays used, whatever else is called.
use cmap.Common.{
  false, String, ◌==◌, eq_iff, none, some, List, [], ◌∷◌, get, has, get-put, get-put_self, Platform,
  ◌≡◌, refl, arith, Option-cases, Bool-cases, inl, inr, if◌then◌else◌,
}
use cmap.Gateway.{GatewayRunner, EnrollmentToken, EnrollInput, is_null, enrollment_token_usable}
use cmap.Store.{MemoryStore}
use cmap.Store.Runners.{
  register_gateway_runner, create_enrollment_token, enroll_gateway_runner, enroll_with,
  revoke_gateway_runner, touch_gateway_runner,
}
use cmap.Store.Runners.Enrollment.{enroll-Enrolled, enroll_refused}

-- a call of a method that writes runners or tokens
pub data RunnerCall : Type 0 where
  registers : GatewayRunner → RunnerCall
  creates : EnrollmentToken → RunnerCall
  enrolls : EnrollInput → RunnerCall
  revokes : String → String → String → RunnerCall
  touches : String → String → RunnerCall

-- the token of this hash is on record and has been used
abbrev pub IsUsed : String → MemoryStore → Type 0
IsUsed hash s =
    (t : EnrollmentToken) × (get s.enrollment_tokens hash ≡ some t) × (is_null t.used_at ≡ false)

module _ (p : Platform) where
  unfoldable pub after_runner_call : RunnerCall → MemoryStore → MemoryStore
  after_runner_call (registers r) s = (register_gateway_runner r s).1
  after_runner_call (creates t) s = (create_enrollment_token t s).1
  after_runner_call (enrolls i) s = (enroll_gateway_runner p i s).1
  after_runner_call (revokes id tenant at) s = (revoke_gateway_runner id tenant at s).1
  after_runner_call (touches id at) s = touch_gateway_runner p id at s

  unfoldable pub after_runner_calls : List RunnerCall → MemoryStore → MemoryStore
  after_runner_calls [] s = s
  after_runner_calls (c ∷ cs) s = after_runner_calls cs (after_runner_call c s)

  enroll_used :
      (j : EnrollInput) (t : EnrollmentToken) (s : MemoryStore)
      → get s.enrollment_tokens j.token_sha256 ≡ some t
      → is_null t.used_at ≡ false
      → enroll_gateway_runner p j s ≡ (none, s)
  unfolding enroll_gateway_runner enroll_with enrollment_token_usable
  enroll_used j t s found used = ground arith

  -- a token is created only under a hash that is free
  create-tokens :
      (u t : EnrollmentToken) (s : MemoryStore) (hash : String)
      → get s.enrollment_tokens hash ≡ some t
      → get (create_enrollment_token u s).1.enrollment_tokens hash ≡ some t
  unfolding create_enrollment_token has
  create-tokens u t s hash found = elim (Bool-cases (u.token_sha256 == hash)) [
    | inl same ↦ ground (arith, eq_iff u.token_sha256 hash)
    | inr other ↦ ground (arith, get-put s.enrollment_tokens u.token_sha256 hash u)
  ]

  register-tokens :
      (r : GatewayRunner) (s : MemoryStore)
      → (register_gateway_runner r s).1.enrollment_tokens ≡ s.enrollment_tokens
  unfolding register_gateway_runner
  register-tokens r s = ground arith

  revoke-tokens :
      (id tenant at : String) (s : MemoryStore)
      → (revoke_gateway_runner id tenant at s).1.enrollment_tokens ≡ s.enrollment_tokens
  unfolding revoke_gateway_runner
  revoke-tokens id tenant at s = ground arith

  touch-tokens :
      (id at : String) (s : MemoryStore)
      → (touch_gateway_runner p id at s).enrollment_tokens ≡ s.enrollment_tokens
  unfolding touch_gateway_runner
  touch-tokens id at s = ground arith

  -- an enrollment marks its own token as used and leaves the others
  enroll-IsUsed :
      (i : EnrollInput) (s : MemoryStore) (hash : String)
      → IsUsed hash s
      → IsUsed hash (enroll_gateway_runner p i s).1
  enroll-IsUsed i s hash (t, found, used) = elim (Option-cases (enroll_gateway_runner p i s).0) [
    | inl refused ↦ (t, rw (enroll_refused p i s refused) found, used)
    | inr (r, done) ↦
        let e = enroll-Enrolled p i s r done in
        let new : EnrollmentToken = record e.token {
          used_at = some i.now;
          runner_id = some i.runner_id;
        } in
        let written : get (enroll_gateway_runner p i s).1.enrollment_tokens hash
            ≡ (if i.token_sha256 == hash then some new else get s.enrollment_tokens hash) =
          rw e.consumed (get-put s.enrollment_tokens i.token_sha256 hash new) in
        elim (Bool-cases (i.token_sha256 == hash)) [
          | inl same ↦ (new, rw same at written, refl)
          | inr other ↦ (t, rw (other, found) at written, used)
        ]
  ]

  call-IsUsed :
      (c : RunnerCall) (s : MemoryStore) (hash : String)
      → IsUsed hash s
      → IsUsed hash (after_runner_call c s)
  unfolding after_runner_call
  call-IsUsed (registers r) s hash (t, found, used) = (t, rw (register-tokens r s) found, used)
  call-IsUsed (creates u) s hash (t, found, used) = (t, create-tokens u t s hash found, used)
  call-IsUsed (enrolls i) s hash h = enroll-IsUsed i s hash h
  call-IsUsed (revokes id tenant at) s hash (t, found, used) =
      (t, rw (revoke-tokens id tenant at s) found, used)
  call-IsUsed (touches id at) s hash (t, found, used) = (t, rw (touch-tokens id at s) found, used)

  calls-IsUsed :
      (cs : List RunnerCall) (s : MemoryStore) (hash : String)
      → IsUsed hash s
      → IsUsed hash (after_runner_calls cs s)
  unfolding after_runner_calls
  calls-IsUsed [] s hash h = h
  calls-IsUsed (c ∷ cs) s hash h =
      calls-IsUsed cs (after_runner_call c s) hash (call-IsUsed c s hash h)

  -- A token that has enrolled a runner enrolls no other: after it, and after any later calls of the
  -- methods that write runners and tokens, a request with the same token hash gets nothing and writes
  -- nothing.
  pub token_enrolls_once :
      (i j : EnrollInput) (s : MemoryStore) (r : GatewayRunner) (cs : List RunnerCall)
      → (enroll_gateway_runner p i s).0 ≡ some r
      → j.token_sha256 ≡ i.token_sha256
      → let s' = after_runner_calls cs (enroll_gateway_runner p i s).1 in
        enroll_gateway_runner p j s' ≡ (none, s')
  token_enrolls_once i j s r cs h same =
      let e = enroll-Enrolled p i s r h in
      let new : EnrollmentToken = record e.token {
        used_at = some i.now;
        runner_id = some i.runner_id;
      } in
      let written : get (enroll_gateway_runner p i s).1.enrollment_tokens i.token_sha256
          ≡ some new =
        rw e.consumed (get-put_self s.enrollment_tokens i.token_sha256 new) in
      let (t, found, used) =
        calls-IsUsed cs (enroll_gateway_runner p i s).1 i.token_sha256 (new, written, refl) in
      enroll_used j t (after_runner_calls cs (enroll_gateway_runner p i s).1) (rw same found) used
