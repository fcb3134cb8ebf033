-- ===== src/Store/Locks.antt =====
-- Resource locks of packages/domain-model/src/memory-store.ts: acquireLock, renewLock, releaseLock,
-- listActiveLocks.
pub mod Exclusion
use cmap.Common.{
  ℕ, Bool, true, false, String, ◌==◌, Option, none, some, List, get, put, values, keep, find,
  Outcome, ok, err, Platform, ◌&&◌, not, earlier, not_later, if◌then◌else◌,
}
use cmap.Gateway.{is_null}
use cmap.Store.{
  ResourceLock, MemoryStore, Method, StoreError, not_found, lock_ttl, lock_unavailable,
}

module _ (p : Platform) where
  open p use {date_parse}

  -- not released, and not expired at `now`
  unfoldable pub is_active : ℕ → ResourceLock → Bool
  is_active now l = is_null l.released_at && earlier (some now) (date_parse l.expires_at)

  unfoldable pub acquire_lock : ℕ → ResourceLock → Method ResourceLock
  acquire_lock now lock s =
      if not_later (date_parse lock.expires_at) (date_parse lock.acquired_at)
      then (err (lock_ttl lock.lock_id), s)
      else elim (find (λ l. l.resource == lock.resource && is_active now l) (values s.locks)) [
        | some holder ↦ (err (lock_unavailable lock.resource holder.task_id), s)
        | none ↦ (ok lock, record s { locks = put s.locks lock.lock_id lock })
      ]

  -- renewLock of a lock that was found
  unfoldable pub renew_found : ℕ → String → String → ResourceLock → MemoryStore → Bool × MemoryStore
  renew_found now id until l s =
      if not (is_null l.released_at)
      then (false, s)
      else if not_later (date_parse l.expires_at) (some now)
      then (false, s)
      else (true, record s { locks = put s.locks id (record l { expires_at = until }) })

  unfoldable pub renew_lock : ℕ → String → String → MemoryStore → Bool × MemoryStore
  renew_lock now id until s = elim (get s.locks id) [
    | none ↦ (false, s)
    | some l ↦ renew_found now id until l s
  ]

  unfoldable pub release_lock : String → String → Method Unit
  release_lock id at s = elim (get s.locks id) [
    | none ↦ (err (not_found "ResourceLock" id), s)
    | some l ↦ (ok tt, record s { locks = put s.locks id (record l { released_at = some at }) })
  ]

  unfoldable pub list_active_locks : ℕ → MemoryStore → List ResourceLock
  unfolding is_active
  list_active_locks now s = keep (is_active now) (values s.locks)
