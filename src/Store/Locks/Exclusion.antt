-- ===== src/Store/Locks/Exclusion.antt =====
-- Mutual exclusion by resource locks, at every moment and whatever locks are acquired, renewed and
-- released, as long as the times on them can be parsed.
use cmap.Common.{
  ℕ, ◌+◌, ◌≤◌, Bool, true, false, String, ◌==◌, eq_iff, ==→eq, Option, none, some, List, [], ◌∷◌,
  get, put, get-put, values, find, Dict, Platform, ◌&&◌, earlier, not_later, ◌≡◌, refl, sym, ◌∙◌,
  arith, Bool-cases, Option-cases, inl, inr, ◌⊎◌, subst, ap,
}
use cmap.Gateway.{is_null}
use cmap.Approval.{is_time}
use cmap.Store.{ResourceLock, MemoryStore, empty_store}
use cmap.Store.Locks.{is_active, acquire_lock, renew_found, renew_lock, release_lock}

pub data LockCall : Type 0 where
  acquires : ResourceLock → LockCall
  renews : String → String → LockCall  -- lock_id, newExpiresAt
  releases : String → String → LockCall  -- lock_id, at

-- a search that finds nothing has passed over every value
find-none {ℓ} :
    {V : Type ℓ} (test : V → Bool) (m : Dict V) (k : String) (v : V)
    → find test (values m) ≡ none
    → get m k ≡ some v
    → test v ≡ false
unfolding get values
find-none test [] k v h found = cc
find-none test ((j, w) ∷ m) k v h found = ground (arith, find-none test m k v)

some_eq : {a b : ResourceLock} → ◌≡◌ {A = Option ResourceLock} (some a) (some b) → a ≡ b
some_eq e = cc

module _ (p : Platform) where
  open p use {date_parse}

  unfoldable pub after_lock : ℕ → LockCall → MemoryStore → MemoryStore
  after_lock now (acquires l) s = (acquire_lock p now l s).1
  after_lock now (renews id until) s = (renew_lock p now id until s).1
  after_lock now (releases id at) s = (release_lock p id at s).1

  -- the expiry that a call writes can be parsed
  abbrev pub HasTimes : LockCall → Type 0
  HasTimes (acquires l) = is_time (date_parse l.expires_at) ≡ true
  HasTimes (renews id until) = is_time (date_parse until) ≡ true
  HasTimes (releases id at) = Unit

  -- at most one lock of a resource is active, and every expiry can be parsed
  pub record IsExclusive (now : ℕ) (s : MemoryStore) : Type 0 where
    pub single :
        (j k : String) (l m : ResourceLock)
        → get s.locks j ≡ some l
        → get s.locks k ≡ some m
        → is_active p now l ≡ true
        → is_active p now m ≡ true
        → l.resource ≡ m.resource
        → j ≡ k
    pub timed :
        (k : String) (l : ResourceLock)
        → get s.locks k ≡ some l
        → is_time (date_parse l.expires_at) ≡ true

  earlier_mono :
      (a b : ℕ) (t : Option ℕ) → a ≤ b → earlier (some b) t ≡ true → earlier (some a) t ≡ true
  earlier_mono a b none h e = cc
  earlier_mono a b (some t) h e = ground arith

  active_before :
      (now wait : ℕ) (l : ResourceLock)
      → is_active p (now + wait) l ≡ true
      → is_active p now l ≡ true
  unfolding is_active
  active_before now wait l h =
      ground (arith, earlier_mono now (now + wait) (date_parse l.expires_at) (omega arith))

  -- as time goes on locks only expire
  IsExclusive-later :
      (now wait : ℕ) (s : MemoryStore) → IsExclusive now s → IsExclusive (now + wait) s
  IsExclusive-later now wait s h = record {
    single = λ j k l m fl fm al am e.
        h.single j k l m fl fm (active_before now wait l al) (active_before now wait m am) e;
    timed = h.timed;
  }

  -- writing `new` under `id` keeps exclusion if no other lock of its resource is active, should it be
  put-IsExclusive :
      (now : ℕ) (s s' : MemoryStore) (id : String) (new : ResourceLock)
      → IsExclusive now s
      → s'.locks ≡ put s.locks id new
      → is_time (date_parse new.expires_at) ≡ true
      → ((k : String) (m : ResourceLock)
          → get s.locks k ≡ some m
          → is_active p now m ≡ true
          → is_active p now new ≡ true
          → m.resource ≡ new.resource
          → id ≡ k)
      → IsExclusive now s'
  put-IsExclusive now s s' id new h e time alone = record {
    single = λ j k l m fl fm al am same. elim (Bool-cases (id == j)) [
      | inl jd ↦ elim (Bool-cases (id == k)) [
        | inl kd ↦ sym (==→eq id j jd) ∙ ==→eq id k kd
        | inr kd ↦
            let new_l : new ≡ l = ground (arith, e, get-put s.locks id j new) in
            let fm' : get s.locks k ≡ some m = ground (arith, e, get-put s.locks id k new) in
            sym (==→eq id j jd)
            ∙ alone k m fm' am (rw new_l al)
                (sym same ∙ ap (λ (x : ResourceLock). x.resource) (sym new_l))
      ]
      | inr jd ↦ elim (Bool-cases (id == k)) [
        | inl kd ↦
            let new_m : new ≡ m = ground (arith, e, get-put s.locks id k new) in
            let fl' : get s.locks j ≡ some l = ground (arith, e, get-put s.locks id j new) in
            sym (
              alone j l fl' al (rw new_m am)
                (same ∙ ap (λ (x : ResourceLock). x.resource) (sym new_m)))
            ∙ ==→eq id k kd
        | inr kd ↦
            h.single j k l m (ground (arith, e, get-put s.locks id j new))
              (ground (arith, e, get-put s.locks id k new)) al am same
      ]
    ];
    timed = λ k l found. elim (Bool-cases (id == k)) [
      | inl kd ↦
          let it : new ≡ l = ground (arith, e, get-put s.locks id k new) in
          subst (λ (x : ResourceLock). is_time (date_parse x.expires_at) ≡ true) it time
      | inr kd ↦ h.timed k l (ground (arith, e, get-put s.locks id k new))
    ];
  }

  -- the test by which acquireLock looks for a holder
  abbrev holds : ℕ → ResourceLock → ResourceLock → Bool
  holds now lock l = l.resource == lock.resource && is_active p now l

  acquire-cases :
      (now : ℕ) (lock : ResourceLock) (s : MemoryStore)
      → ((acquire_lock p now lock s).1 ≡ s)
        ⊎ ((find (holds now lock) (values s.locks) ≡ none)
            × ((acquire_lock p now lock s).1 ≡ record s { locks = put s.locks lock.lock_id lock }))
  unfolding acquire_lock
  acquire-cases now lock s = elim (Option-cases (find (holds now lock) (values s.locks))) [
    | inr (holder, held) ↦ inl (ground (arith, held))
    | inl free ↦
        elim (Bool-cases (not_later (date_parse lock.expires_at) (date_parse lock.acquired_at))) [
          | inl bad ↦ inl (rw bad refl)
          | inr good ↦ inr (free, rw good (rw free refl))
        ]
  ]

  renew-cases :
      (now : ℕ) (id until : String) (s : MemoryStore)
      → ((renew_lock p now id until s).1 ≡ s)
        ⊎ ((l : ResourceLock) × (get s.locks id ≡ some l)
            × (is_null l.released_at ≡ true)
            × (not_later (date_parse l.expires_at) (some now) ≡ false)
            × ((renew_lock p now id until s).1
                ≡ record s { locks = put s.locks id (record l { expires_at = until }) }))
  unfolding renew_lock renew_found
  renew-cases now id until s = elim (Option-cases (get s.locks id)) [
    | inl missing ↦ inl (ground arith)
    | inr (l, found) ↦ elim (Bool-cases (is_null l.released_at)) [
      | inr released ↦ inl (ground arith)
      | inl open_still ↦ elim (Bool-cases (not_later (date_parse l.expires_at) (some now))) [
        | inl late ↦ inl (ground arith)
        | inr in_time ↦ inr (l, found, open_still, in_time, ground arith)
      ]
    ]
  ]

  release-cases :
      (id at : String) (s : MemoryStore)
      → ((release_lock p id at s).1 ≡ s)
        ⊎ ((l : ResourceLock) × (get s.locks id ≡ some l)
            × ((release_lock p id at s).1
                ≡ record s { locks = put s.locks id (record l { released_at = some at }) }))
  unfolding release_lock
  release-cases id at s = elim (Option-cases (get s.locks id)) [
    | inl missing ↦ inl (ground arith)
    | inr (l, found) ↦ inr (l, found, ground arith)
  ]

  -- a lock whose renewal is granted is active
  renewable-active :
      (now : ℕ) (l : ResourceLock)
      → is_null l.released_at ≡ true
      → is_time (date_parse l.expires_at) ≡ true
      → not_later (date_parse l.expires_at) (some now) ≡ false
      → is_active p now l ≡ true
  unfolding is_active
  renewable-active now l r t h = ground arith

  released-inactive :
      (now : ℕ) (l : ResourceLock) (at : String)
      → is_active p now (record l { released_at = some at }) ≡ false
  unfolding is_active
  released-inactive now l at = refl

  after_lock-IsExclusive :
      (now : ℕ) (c : LockCall) (s : MemoryStore)
      → HasTimes c
      → IsExclusive now s
      → IsExclusive now (after_lock now c s)
  unfolding after_lock
  after_lock-IsExclusive now (acquires lock) s time h = elim (acquire-cases now lock s) [
    | inl same ↦ rw same h
    | inr (free, e) ↦
        put-IsExclusive now s _ lock.lock_id lock h (rw e refl) time (λ k m found am an same.
          absurd (
            ground (
              arith,
              find-none (holds now lock) s.locks k m free found,
              eq_iff m.resource lock.resource,
            )))
  ]
  after_lock-IsExclusive now (renews id until) s time h = elim (renew-cases now id until s) [
    | inl same ↦ rw same h
    | inr (l, found, open_still, in_time, e) ↦
        put-IsExclusive now s _ id (record l { expires_at = until }) h (rw e refl) time
          (λ k m there am an same.
            h.single id k l m found there
              (renewable-active now l open_still (h.timed id l found) in_time) am (sym same))
  ]
  after_lock-IsExclusive now (releases id at) s time h = elim (release-cases id at s) [
    | inl same ↦ rw same h
    | inr (l, found, e) ↦
        put-IsExclusive now s _ id (record l { released_at = some at }) h (rw e refl)
          (h.timed id l found)
          (λ k m there am an same. absurd (ground (arith, released-inactive now l at)))
  ]

  -- calls, each after a wait
  unfoldable pub after_locks : ℕ → List (ℕ × LockCall) → MemoryStore → MemoryStore
  after_locks start [] s = s
  after_locks start ((wait, c) ∷ cs) s =
      after_locks (start + wait) cs (after_lock (start + wait) c s)

  abbrev pub AllTimed : List (ℕ × LockCall) → Type 0
  AllTimed [] = Unit
  AllTimed ((wait, c) ∷ cs) = HasTimes c × AllTimed cs

  -- the moment of the last call
  abbrev pub end_of : ℕ → List (ℕ × LockCall) → ℕ
  end_of start [] = start
  end_of start ((wait, c) ∷ cs) = end_of (start + wait) cs

  -- From a moment at which at most one lock of each resource is active and all expiries can be parsed,
  -- whatever locks are acquired, renewed and released as time goes on, with expiries that can be
  -- parsed, the same holds afterwards: no two locks of one resource are active.
  pub locks_exclude :
      (start : ℕ) (cs : List (ℕ × LockCall)) (s : MemoryStore)
      → AllTimed cs
      → IsExclusive start s
      → IsExclusive (end_of start cs) (after_locks start cs s)
  unfolding after_locks
  locks_exclude start [] s times h = h
  locks_exclude start ((wait, c) ∷ cs) s times h =
      locks_exclude (start + wait) cs (after_lock (start + wait) c s) times.1
        (after_lock-IsExclusive (start + wait) c s times.0 (IsExclusive-later start wait s h))

  pub IsExclusive-empty : (now : ℕ) → IsExclusive now empty_store
  unfolding get
  IsExclusive-empty now = record {
    single = λ j k l m fl fm al am e. absurd (ground arith);
    timed = λ k l found. absurd (ground arith);
  }
