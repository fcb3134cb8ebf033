-- ===== src/Store/Quotas.antt =====
-- Quota snapshots of packages/domain-model/src/memory-store.ts: putQuotaSnapshot,
-- getLatestQuotaSnapshot, listLatestQuotaSnapshots, and those of gateway runners. Their state is apart
-- from the rest of the ledger: the list of snapshots, and the map of the runners' snapshots.
-- `localeCompare` is a parameter, as the test that one text does not come after another.
pub mod Latest
use cmap.Common.{
  ℕ, Bool, true, false, String, ◌==◌, ◌⧺◌, Option, none, some, List, [], ◌∷◌, ◌++◌, Dict, get, put,
  has, values, keep, find, Outcome, ok, err, Platform, not, ◌&&◌, ◌||◌, eqb, earlier, sort_by,
  if◌then◌else◌,
}
use cmap.Json.{Json, json_equal}
use cmap.Approval.{is_text}
use cmap.Gateway.{GatewayRunner}

pub data Provider : Type 0 where
  codex claude kimi : Provider

abbrev pub provider_text : Provider → String
provider_text codex = "codex"
provider_text claude = "claude"
provider_text kimi = "kimi"

-- QuotaSnapshotV1; windows, flag and status are `other`
pub record QuotaSnapshot : Type 0 where
  pub provider : Provider
  pub account_ref : Option String
  pub observed_at : String
  pub other : Json

-- the RangeError of assertQuotaSnapshotAccount, and the error of assertSameQuotaSnapshot
pub data QuotaError : Type 0 where
  account_required snapshot_conflict : QuotaError

abbrev pub same_provider : Provider → Provider → Bool
same_provider a b = provider_text a == provider_text b

abbrev same_account : Option String → Option String → Bool
same_account none none = true
same_account none (some b) = false
same_account (some a) b = is_text b a

unfoldable pub same_snapshot : QuotaSnapshot → QuotaSnapshot → Bool
same_snapshot a b =
    same_provider a.provider b.provider
    && same_account a.account_ref b.account_ref
    && a.observed_at == b.observed_at
    && json_equal a.other b.other

-- q.provider === provider && q.account_ref === account
unfoldable pub is_of : Provider → String → QuotaSnapshot → Bool
is_of provider account q = same_provider q.provider provider && is_text q.account_ref account

-- a === b for times, of which NaN equals none
abbrev same_time : Option ℕ → Option ℕ → Bool
same_time none b = false
same_time (some a) none = false
same_time (some a) (some b) = eqb a b

-- `${q.provider}\0${q.account_ref}`
unfoldable pub account_key : Provider → Option String → String
account_key provider none = provider_text provider ⧺ ("\0" ⧺ "null")
account_key provider (some account) = provider_text provider ⧺ ("\0" ⧺ account)

unfoldable pub assert_same_quota_snapshot :
    QuotaSnapshot → QuotaSnapshot → Outcome QuotaError (Unit {0})
unfolding same_snapshot
assert_same_quota_snapshot existing s =
    if same_snapshot existing s then ok tt else err snapshot_conflict

module _ (p : Platform) where
  abbrev pub time_of : QuotaSnapshot → Option ℕ
  time_of q = p.date_parse q.observed_at

  -- putQuotaSnapshot, by the snapshot of the same account and time
  abbrev put_found :
      QuotaSnapshot
      → Option QuotaSnapshot
      → List QuotaSnapshot
      → Outcome QuotaError QuotaSnapshot × List QuotaSnapshot
  put_found s none quota = (ok s, quota ++ s ∷ [])
  put_found s (some existing) quota = elim (assert_same_quota_snapshot existing s) [
    | ok _ ↦ (ok existing, quota)
    | err e ↦ (err e, quota)
  ]

  unfoldable pub put_quota_snapshot :
      QuotaSnapshot → List QuotaSnapshot → Outcome QuotaError QuotaSnapshot × List QuotaSnapshot
  unfolding is_of assert_same_quota_snapshot
  put_quota_snapshot s quota = elim s.account_ref [
    | none ↦ (err account_required, quota)
    | some account ↦
        put_found s
          (find (λ q. is_of s.provider account q && same_time (time_of q) (time_of s)) quota) quota
  ]

  -- the comparator puts `a` not after `b`
  abbrev pub not_older : QuotaSnapshot → QuotaSnapshot → Bool
  not_older a b = not (earlier (time_of a) (time_of b))

  abbrev pub first {ℓ} : {A : Type ℓ} → List A → Option A
  first [] = none
  first (x ∷ xs) = some x

  unfoldable pub get_latest_quota_snapshot :
      Provider → String → List QuotaSnapshot → Option QuotaSnapshot
  unfolding is_of sort_by
  get_latest_quota_snapshot provider account quota =
      first (sort_by not_older (keep (is_of provider account) quota))

  -- !seen || Date.parse(q.observed_at) > Date.parse(seen.observed_at)
  abbrev pub replaces : QuotaSnapshot → Option QuotaSnapshot → Bool
  replaces q none = true
  replaces q (some seen) = earlier (time_of seen) (time_of q)

  -- the loop over the snapshots
  unfoldable pub latest_by_account : List QuotaSnapshot → Dict QuotaSnapshot → Dict QuotaSnapshot
  unfolding account_key
  latest_by_account [] latest = latest
  latest_by_account (q ∷ quota) latest = latest_by_account quota (
      if replaces q (get latest (account_key q.provider q.account_ref))
      then put latest (account_key q.provider q.account_ref) q
      else latest)

  abbrev account_of : QuotaSnapshot → String
  account_of q = elim q.account_ref [ none ↦ "null" | some a ↦ a ]

  -- `locale_le a b`: a.localeCompare(b) <= 0
  unfoldable pub list_latest_quota_snapshots :
      (String → String → Bool) → List QuotaSnapshot → List QuotaSnapshot
  unfolding latest_by_account sort_by
  list_latest_quota_snapshots locale_le quota =
      sort_by
        (λ a b.
          if same_provider a.provider b.provider
          then locale_le (account_of a) (account_of b)
          else locale_le (provider_text a.provider) (provider_text b.provider))
        (values (latest_by_account quota []))

  unfoldable pub put_gateway_runner_quota :
      String → QuotaSnapshot → Dict GatewayRunner → Dict QuotaSnapshot → Dict QuotaSnapshot
  put_gateway_runner_quota runner quota runners quotas = elim (get quotas runner) [
    | none ↦ if not (has runners runner) then quotas else put quotas runner quota
    | some prior ↦
        if not (has runners runner) || earlier (time_of quota) (time_of prior)
        then quotas
        else put quotas runner quota
  ]

-- the runner of the id is there and not revoked
abbrev is_active : Option GatewayRunner → Bool
is_active none = false
is_active (some r) = elim r.revoked_at [ none ↦ true | some _ ↦ false ]

unfoldable pub list_gateway_runner_quotas :
    Dict GatewayRunner → Dict QuotaSnapshot → List QuotaSnapshot
list_gateway_runner_quotas runners [] = []
list_gateway_runner_quotas runners ((id, q) ∷ quotas) =
    let rest = list_gateway_runner_quotas runners quotas in
    if is_active (get runners id) then q ∷ rest else rest
