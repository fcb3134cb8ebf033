-- ===== src/Examples/Quotas.antt =====
-- The theorem on quota snapshots, at three snapshots of two accounts.
use cmap.Common.{◌≡◌, refl, String, some, List, [], ◌∷◌, get}
use cmap.Json.{null}
use cmap.Approval.{is_text}
use cmap.Store.Quotas.{
  Provider, codex, claude, QuotaSnapshot, account_key, latest_by_account, get_latest_quota_snapshot,
}
use cmap.Store.Quotas.Latest.{IsDated, latest_snapshots_agree}
use package.cmap.Examples.{clock}

abbrev snapshot_at : Provider → String → String → QuotaSnapshot
snapshot_at provider account time = record {
  provider = provider;
  account_ref = some account;
  observed_at = time;
  other = null;
}

abbrev three_snapshots : List QuotaSnapshot
three_snapshots =
    snapshot_at codex "a" "10" ∷ snapshot_at claude "a" "20" ∷ snapshot_at codex "a" "15" ∷ []

three_are-IsDated :
    IsDated clock (snapshot_at codex "a" "10")
    × (IsDated clock (snapshot_at claude "a" "20")
        × (IsDated clock (snapshot_at codex "a" "15") × Unit {0}))
unfolding clock
three_are-IsDated = (refl, (refl, (refl, tt)))

latest_snapshots_agree_example :
    get (latest_by_account clock three_snapshots []) (account_key codex (some "a"))
    ≡ get_latest_quota_snapshot clock codex "a" three_snapshots
latest_snapshots_agree_example =
    latest_snapshots_agree clock three_snapshots codex "a"
      (("a", refl), (("a", refl), (("a", refl), tt))) three_are-IsDated

latest_of_codex :
    get_latest_quota_snapshot clock codex "a" three_snapshots ≡ some (snapshot_at codex "a" "15")
unfolding get_latest_quota_snapshot clock is_text
latest_of_codex = refl
