-- ===== src/Store/Runners.antt =====
-- Outbound runners of packages/domain-model/src/memory-store.ts: registration, one-time enrollment
-- tokens, revocation and the time of last contact.
pub mod Enrollment
pub mod Once
use cmap.Common.{
  ℕ, Bool, true, false, String, ◌==◌, Option, none, some, List, get, put, has, values, any, keep,
  Outcome, ok, err, Platform, ◌&&◌, ◌||◌, not, not_later, sort_by, if◌then◌else◌,
}
use cmap.Gateway.{
  GatewayRunner, EnrollmentToken, EnrollInput, is_null, enrollment_token_usable, runner_from_token,
}
use cmap.Store.{MemoryStore, Method, StoreError, runner_registered, token_exists}

-- the runner id or the public key is taken
unfoldable pub runner_taken : String → String → MemoryStore → Bool
runner_taken id key s =
    has s.gateway_runners id || any (λ r. r.public_key == key) (values s.gateway_runners)

unfoldable pub register_gateway_runner : GatewayRunner → Method GatewayRunner
register_gateway_runner r s =
    if runner_taken r.runner_id r.public_key s
    then (err (runner_registered r.runner_id), s)
    else (ok r, record s { gateway_runners = put s.gateway_runners r.runner_id r })

unfoldable pub create_enrollment_token : EnrollmentToken → Method EnrollmentToken
create_enrollment_token t s =
    if has s.enrollment_tokens t.token_sha256
      || any (λ u. u.token_id == t.token_id) (values s.enrollment_tokens)
    then (err (token_exists t.token_id), s)
    else (ok t, record s { enrollment_tokens = put s.enrollment_tokens t.token_sha256 t })

unfoldable pub revoke_gateway_runner :
    String → String → String → MemoryStore → Option GatewayRunner × MemoryStore
revoke_gateway_runner id tenant at s = elim (get s.gateway_runners id) [
  | none ↦ (none, s)
  | some r ↦
      if not (r.tenant == tenant)
      then (none, s)
      else (let next = if is_null r.revoked_at then record r { revoked_at = some at } else r in
          (some next, record s { gateway_runners = put s.gateway_runners id next }))
]

-- `not_after a b` is the test of the source's comparator on two texts: not (a > b)
unfoldable pub list_gateway_runners :
    (String → String → Bool) → String → MemoryStore → List GatewayRunner
list_gateway_runners not_after tenant s =
    sort_by (λ a b. not_after a.runner_id b.runner_id)
      (keep (λ r. r.tenant == tenant) (values s.gateway_runners))

-- the consumed token
unfoldable pub used_token : EnrollmentToken → EnrollInput → EnrollmentToken
used_token t i = record t { used_at = some i.now; runner_id = some i.runner_id }

module _ (p : Platform) where
  open p use {date_parse}

  -- enrollGatewayRunner with a token that is on record
  unfoldable pub enroll_with :
      EnrollInput → EnrollmentToken → MemoryStore → Option GatewayRunner × MemoryStore
  enroll_with i t s =
      if not (enrollment_token_usable p (some t) (date_parse i.now))
      then (none, s)
      else if runner_taken i.runner_id i.public_key s
      then (none, s)
      else (let r = runner_from_token t i in
          (
            some r,
            record s {
              enrollment_tokens = put s.enrollment_tokens i.token_sha256 (used_token t i);
              gateway_runners = put s.gateway_runners r.runner_id r;
            },
          ))

  unfoldable pub enroll_gateway_runner :
      EnrollInput → MemoryStore → Option GatewayRunner × MemoryStore
  enroll_gateway_runner i s = elim (get s.enrollment_tokens i.token_sha256) [
    | none ↦ (none, s)
    | some t ↦ enroll_with i t s
  ]

  -- r.last_seen_at !== null && Date.parse(r.last_seen_at) >= Date.parse(at)
  abbrev pub seen_since : Option String → String → Bool
  seen_since none at = false
  seen_since (some last) at = not_later (date_parse at) (date_parse last)

  unfoldable pub touch_gateway_runner : String → String → MemoryStore → MemoryStore
  touch_gateway_runner id at s = elim (get s.gateway_runners id) [
    | none ↦ s
    | some r ↦ if seen_since r.last_seen_at at then s else record s {
      gateway_runners = put s.gateway_runners id (record r { last_seen_at = some at });
    }
  ]

unfoldable pub get_gateway_runner : String → MemoryStore → Option GatewayRunner
get_gateway_runner id s = get s.gateway_runners id
