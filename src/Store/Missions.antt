-- ===== src/Store/Missions.antt =====
-- Missions of packages/domain-model/src/memory-store.ts: createMission, getMission, setMissionState.
pub mod Proofs
use cmap.Common.{
  ℕ, Bool, true, false, String, ◌==◌, ◌⧺◌, Option, none, some, List, [], ◌∷◌, get, put, Outcome, ok,
  err, Platform, not, if◌then◌else◌,
}
use cmap.Json.{str, Fields, end, field}
use cmap.Entities.{
  Mission, MissionState, completed, escalated, failed, same_mission_state,
  assert_mission_state_change, EventActor,
}
use cmap.Entities.{draft, planning, running, awaiting_approval, reviewing, canceled}
use cmap.Store.{
  MemoryStore, Method, StoreError, not_found, write_verification, mission_terminated, EventInput,
  record_event,
}
use cmap.Store.Compare.{assert_same_mission_input}

-- missionEventType
unfoldable pub mission_event_type : MissionState → String
mission_event_type completed = "MISSION_COMPLETED"
mission_event_type escalated = "MISSION_ESCALATED"
mission_event_type failed = "MISSION_FAILED"
mission_event_type _ = "MISSION_STATE_CHANGED"

-- the literals of MISSION_STATES
abbrev pub mission_state_text : MissionState → String
mission_state_text draft = "DRAFT"
mission_state_text planning = "PLANNING"
mission_state_text running = "RUNNING"
mission_state_text awaiting_approval = "AWAITING_APPROVAL"
mission_state_text reviewing = "REVIEWING"
mission_state_text completed = "COMPLETED"
mission_state_text escalated = "ESCALATED"
mission_state_text failed = "FAILED"
mission_state_text canceled = "CANCELED"

-- `key ?? default`
abbrev pub or_else : Option String → String → String
or_else none d = d
or_else (some k) d = k

unfoldable pub get_mission : String → MemoryStore → Option Mission
get_mission id s = get s.missions id

module _ (p : Platform) where
  -- the read-back of createMission
  unfoldable pub check_created_mission : String → Option Mission → Outcome StoreError Mission
  check_created_mission id none = err (write_verification "Mission" id)
  check_created_mission id (some back) =
      if back.id == id then ok back else err (write_verification "Mission" id)

  -- the event of a mission's creation
  unfoldable pub mission_created : Mission → EventActor → EventInput
  mission_created m actor = record {
    mission_id = m.id;
    task_id = none;
    event_type = "MISSION_CREATED";
    actor = actor;
    idempotency_key = "mission-created:" ⧺ m.id;
    payload = end;
    causation_id = none;
  }

  -- createMission for an id that is not there
  unfoldable pub insert_mission : ℕ → Mission → EventActor → Method Mission
  insert_mission now m actor s =
      let written =
        record_event p now (mission_created m actor)
          (record s { missions = put s.missions m.id m }) in
      (check_created_mission m.id (get written.missions m.id), written)

  unfoldable pub create_mission : ℕ → Mission → EventActor → Method Mission
  create_mission now m actor s = elim (get s.missions m.id) [
    | some existing ↦ elim (assert_same_mission_input existing m) [
      | ok _ ↦ (ok existing, s)
      | err e ↦ (err e, s)
    ]
    | none ↦ insert_mission now m actor s
  ]

  -- the read-back of setMissionState
  unfoldable pub check_mission_state :
      String → MissionState → Option Mission → Outcome StoreError Mission
  check_mission_state id state none = err (write_verification "Mission" id)
  check_mission_state id state (some back) =
      if same_mission_state back.state state then ok back else err (write_verification "Mission" id)

  -- the event of a change of state; the default key names both states
  unfoldable pub mission_changed :
      String → Mission → MissionState → EventActor → Option String → EventInput
  unfolding mission_event_type
  mission_changed id m state actor key = record {
    mission_id = id;
    task_id = none;
    event_type = mission_event_type state;
    actor = actor;
    idempotency_key = or_else key (
        "mission-state:" ⧺ id ⧺ ":" ⧺ mission_state_text m.state ⧺ "->" ⧺ mission_state_text state);
    payload =
        field "from" (str (mission_state_text m.state))
          (field "state" (str (mission_state_text state)) end);
    causation_id = none;
  }

  -- the write of setMissionState, once the change is allowed
  unfoldable pub commit_mission_state :
      ℕ → String → Mission → MissionState → EventActor → Option String → Method Mission
  commit_mission_state now id m state actor key s =
      let next = record m { state = state; updated_at = p.iso now } in
      let written =
        record_event p now (mission_changed id m state actor key)
          (record s { missions = put s.missions id next }) in
      (check_mission_state id state (get written.missions id), written)

  -- setMissionState of a mission that was found
  unfoldable pub change_mission_state :
      ℕ → String → Mission → MissionState → EventActor → Option String → Method Mission
  change_mission_state now id m state actor key s =
      if same_mission_state m.state state
      then (ok m, s)
      else elim (assert_mission_state_change id m.state state) [
        | err e ↦ (err (mission_terminated e), s)
        | ok _ ↦ commit_mission_state now id m state actor key s
      ]

  unfoldable pub set_mission_state :
      ℕ → String → MissionState → EventActor → Option String → Method Mission
  set_mission_state now id state actor key s = elim (get s.missions id) [
    | none ↦ (err (not_found "Mission" id), s)
    | some m ↦ change_mission_state now id m state actor key s
  ]
