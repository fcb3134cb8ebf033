-- ===== src/Ledger/Order.antt =====
-- The event log: logical times go strictly up, and listEvents returns a mission's
-- events in the order in which they were written.
use cmap.Common.{
  ℕ, suc, ◌≤◌, ◌<◌, Bool, String, ◌==◌, List, [], ◌∷◌, ◌++◌, keep, leb, Platform, ◌≡◌, refl, arith,
  Bool-cases, inl, inr, sort_by, insert_by,
}
use cmap.Entities.{TaskEvent}
use cmap.Store.{MemoryStore, empty_store}
use cmap.Store.Events.{list_events}
use cmap.Ledger.{Call, after, after_all}
use cmap.Ledger.OneEvent.{Logged, silent, logged, after-Logged}

-- logical times go strictly up from above `lo` and end at most at `hi`
abbrev pub Ascending : ℕ → List TaskEvent → ℕ → Type 0
Ascending lo [] hi = lo ≤ hi
Ascending lo (e ∷ es) hi = (lo < e.lamport) × Ascending e.lamport es hi

Ascending-append :
    (lo hi : ℕ) (es : List TaskEvent) (e : TaskEvent)
    → Ascending lo es hi
    → e.lamport ≡ suc hi
    → Ascending lo (es ++ e ∷ []) (suc hi)
Ascending-append lo hi [] e h at = (omega arith, omega arith)
Ascending-append lo hi (x ∷ es) e h at = (h.0, Ascending-append x.lamport hi es e h.1 at)

abbrev pub IsOrdered : MemoryStore → Type 0
IsOrdered s = Ascending 0 s.events s.lamport

module _ (p : Platform) where
  Logged-IsOrdered : (s s' : MemoryStore) → Logged s s' → IsOrdered s → IsOrdered s'
  Logged-IsOrdered s s' (silent he hl) h = rw (he, hl) h
  Logged-IsOrdered s s' (logged e he at hl) h =
      rw (he, hl) (Ascending-append 0 s.lamport s.events e h at)

  -- After any calls at any times, returned or thrown, the logical times of the log go strictly up,
  -- from an ordered log.
  pub after_all-IsOrdered :
      (cs : List (ℕ × Call)) (s : MemoryStore) → IsOrdered s → IsOrdered (after_all p cs s)
  unfolding after_all
  after_all-IsOrdered [] s h = h
  after_all-IsOrdered ((now, c) ∷ cs) s h =
      after_all-IsOrdered cs (after p now c s)
        (Logged-IsOrdered s (after p now c s) (after-Logged p now c s) h)

-- a lower start keeps the order
Ascending-lower :
    (lo lo' hi : ℕ) (es : List TaskEvent) → lo' ≤ lo → Ascending lo es hi → Ascending lo' es hi
Ascending-lower lo lo' hi [] le h = omega arith
Ascending-lower lo lo' hi (e ∷ es) le h = (omega arith, h.1)

Ascending-keep :
    (test : TaskEvent → Bool) (lo hi : ℕ) (es : List TaskEvent)
    → Ascending lo es hi
    → Ascending lo (keep test es) hi
Ascending-keep test lo hi [] h = h
Ascending-keep test lo hi (e ∷ es) h =
    let rest = Ascending-keep test e.lamport hi es h.1 in
    elim (Bool-cases (test e)) [
      | inl kept ↦ rw kept (h.0, rest)
      | inr left ↦ rw left (Ascending-lower e.lamport lo hi (keep test es) (omega arith) rest)
    ]

abbrev by_lamport : TaskEvent → TaskEvent → Bool
by_lamport a b = leb a.lamport b.lamport

insert_by-Ascending :
    (e : TaskEvent) (hi : ℕ) (es : List TaskEvent)
    → Ascending e.lamport es hi
    → insert_by by_lamport e es ≡ e ∷ es
unfolding insert_by
insert_by-Ascending e hi [] h = refl
insert_by-Ascending e hi (x ∷ es) h = ground (arith, h.0)

sort_by-Ascending :
    (lo hi : ℕ) (es : List TaskEvent) → Ascending lo es hi → sort_by by_lamport es ≡ es
unfolding sort_by
sort_by-Ascending lo hi [] h = refl
sort_by-Ascending lo hi (e ∷ es) h =
    rw (sort_by-Ascending e.lamport hi es h.1) (insert_by-Ascending e hi es h.1)

-- Of a ledger that any calls have built from the empty one, listEvents returns exactly the events of
-- the mission, in the order in which they were written, with logical times that go strictly up.
pub list_events-in_order :
    (p : Platform) (cs : List (ℕ × Call)) (mission : String)
    → let s = after_all p cs empty_store in
      (list_events mission s ≡ keep (λ e. e.mission_id == mission) s.events)
      × Ascending 0 (list_events mission s) s.lamport
unfolding list_events
list_events-in_order p cs mission =
    let s = after_all p cs empty_store in
    let ordered : IsOrdered s = after_all-IsOrdered p cs empty_store (omega arith) in
    let kept : Ascending 0 (keep (λ e. e.mission_id == mission) s.events) s.lamport =
      Ascending-keep (λ e. e.mission_id == mission) 0 s.lamport s.events ordered in
    let same = sort_by-Ascending 0 s.lamport (keep (λ e. e.mission_id == mission) s.events) kept in
    (same, rw same kept)
