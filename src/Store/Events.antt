-- ===== src/Store/Events.antt =====
-- Events of packages/domain-model/src/memory-store.ts: appendEvent, listEvents, listTenantEvents.
use cmap.Common.{
  suc, String, ◌==◌, Option, none, some, List, get, keep, find, ok, err, leb, sort_by,
  if◌then◌else◌, ◌≡◌, arith, Option-cases, inl, inr, ◌⊎◌,
}
use cmap.Entities.{TaskEvent}
use cmap.Store.{MemoryStore, Method, event_id, push_event}
use cmap.Store.Compare.{assert_same_event_input}

-- the event that appendEvent builds; the input's own `event_id` and `lamport` are not read
unfoldable pub numbered_event : TaskEvent → MemoryStore → TaskEvent
numbered_event e s = record e { event_id = event_id (suc s.seq); lamport = suc s.lamport }

unfoldable pub push_new_event : TaskEvent → Method TaskEvent
push_new_event e s = let event = numbered_event e s in (ok event, push_event event s)

-- appendEvent, by the event that is on record under the key
unfoldable pub append_seen : TaskEvent → Option TaskEvent → Method TaskEvent
append_seen e none s = push_new_event e s
append_seen e (some found) s = elim (assert_same_event_input found e) [
  | ok _ ↦ (ok found, s)
  | err x ↦ (err x, s)
]

-- the event of the id that the key was seen with
unfoldable pub seen_event : Option String → List TaskEvent → Option TaskEvent
seen_event none events = none
seen_event (some id) events = if id == "" then none else find (λ e. e.event_id == id) events

unfoldable pub append_event : TaskEvent → Method TaskEvent
append_event e s = append_seen e (seen_event (get s.seen_keys e.idempotency_key) s.events) s

-- listEvents: the events of a mission by their logical time
unfoldable pub list_events : String → MemoryStore → List TaskEvent
unfolding sort_by
list_events mission s =
    sort_by (λ a b. leb a.lamport b.lamport) (keep (λ e. e.mission_id == mission) s.events)

-- an append pushes one new event, or nothing
pub append_event-cases :
    (e : TaskEvent) (s : MemoryStore)
    → ((append_event e s).1 ≡ s) ⊎ ((append_event e s).1 ≡ push_event (numbered_event e s) s)
unfolding append_event append_seen push_new_event
append_event-cases e s =
    elim (Option-cases (seen_event (get s.seen_keys e.idempotency_key) s.events)) [
      | inl fresh ↦ inr (ground arith)
      | inr (old, found) ↦ inl (ground arith)
    ]
