-- ===== src/Ledger/Types.antt =====
-- The types of the events that the ledger's own methods record.
use cmap.Common.{true, String, Option, includes, Platform, ◌≡◌, refl}
use cmap.Entities.{
  Mission, MissionState, draft, planning, running, awaiting_approval, reviewing, completed,
  escalated, failed, canceled, TaskRecord, EventActor, RemoteTaskBinding,
}
use cmap.Entities.EventTypes.{event_types}
use cmap.Store.Missions.{mission_event_type, mission_created, mission_changed}
use cmap.Store.Tasks.{task_created, dispatch_intent}

mission_event_type-listed :
    (state : MissionState) → includes event_types (mission_event_type state) ≡ true
unfolding event_types mission_event_type
mission_event_type-listed draft = refl
mission_event_type-listed planning = refl
mission_event_type-listed running = refl
mission_event_type-listed awaiting_approval = refl
mission_event_type-listed reviewing = refl
mission_event_type-listed completed = refl
mission_event_type-listed escalated = refl
mission_event_type-listed failed = refl
mission_event_type-listed canceled = refl

-- The events that the ledger builds by itself, for the creation of a mission or a task, a change of a
-- mission's state and a claim of a task, have types of EVENT_TYPES.
pub recorded_types_are_listed :
    (p : Platform) (m : Mission) (state : MissionState) (t : TaskRecord) (b : RemoteTaskBinding)
    (actor : EventActor) (cause : Option String) (key : Option String)
    → (includes event_types (mission_created p m actor).event_type ≡ true)
      × (includes event_types (mission_changed p m.id m state actor key).event_type ≡ true)
      × (includes event_types (task_created p t actor cause).event_type ≡ true)
      × (includes event_types (dispatch_intent p t b actor).event_type ≡ true)
unfolding event_types mission_created mission_changed task_created dispatch_intent
recorded_types_are_listed p m state t b actor cause key =
    (refl, mission_event_type-listed state, refl, refl)
