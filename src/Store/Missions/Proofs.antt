-- ===== src/Store/Missions/Proofs.antt =====
-- createMission and setMissionState as equations: their read-backs never fail, and what they throw
-- has written nothing.
use cmap.Common.{
  ℕ, true, false, String, ==_refl, Option, none, some, get, put, get-put_self, ok, err, Platform,
  not, ◌&&◌, if◌then◌else◌, ◌≡◌, refl, arith, ◌⊎◌, inl, inr, Bool-cases, Option-cases,
}
use cmap.Entities.{
  Mission, MissionState, same_mission_state, is_terminal_mission, assert_mission_state_change,
  EventActor,
}
use cmap.Store.{MemoryStore, mission_terminated, record_event}
use cmap.Store.Missions.{
  mission_created, check_created_mission, insert_mission, mission_changed, check_mission_state,
  commit_mission_state, change_mission_state, set_mission_state, create_mission,
}

module _ (p : Platform) where
  abbrev pub after_create : ℕ → Mission → EventActor → MemoryStore → MemoryStore
  after_create now m actor s =
      record_event p now (mission_created p m actor) (record s { missions = put s.missions m.id m })

  abbrev pub changed_mission : ℕ → Mission → MissionState → Mission
  changed_mission now m state = record m { state = state; updated_at = p.iso now }

  abbrev pub after_change :
      ℕ → String → Mission → MissionState → EventActor → Option String → MemoryStore → MemoryStore
  after_change now id m state actor key s =
      record_event p now (mission_changed p id m state actor key)
        (record s { missions = put s.missions id (changed_mission now m state) })

  missions-after_create :
      (now : ℕ) (m : Mission) (actor : EventActor) (s : MemoryStore)
      → (after_create now m actor s).missions ≡ put s.missions m.id m
  unfolding record_event
  missions-after_create now m actor s = refl

  missions-after_change :
      (now : ℕ) (id : String) (m : Mission) (state : MissionState) (actor : EventActor)
      (key : Option String) (s : MemoryStore)
      → (after_change now id m state actor key s).missions
        ≡ put s.missions id (changed_mission now m state)
  unfolding record_event
  missions-after_change now id m state actor key s = refl

  pub insert_mission_lem :
      (now : ℕ) (m : Mission) (actor : EventActor) (s : MemoryStore)
      → insert_mission p now m actor s ≡ (ok m, after_create now m actor s)
  unfolding insert_mission check_created_mission
  insert_mission_lem now m actor s =
      ground
        (arith, missions-after_create now m actor s, get-put_self s.missions m.id m, ==_refl m.id)

  same_mission_state_refl : (s : MissionState) → same_mission_state s s ≡ true
  same_mission_state_refl s = ground arith

  pub commit_mission_state_lem :
      (now : ℕ) (id : String) (m : Mission) (state : MissionState) (actor : EventActor)
      (key : Option String) (s : MemoryStore)
      → commit_mission_state p now id m state actor key s
        ≡ (ok (changed_mission now m state), after_change now id m state actor key s)
  unfolding commit_mission_state check_mission_state
  commit_mission_state_lem now id m state actor key s = ground (
    arith,
    missions-after_change now id m state actor key s,
    get-put_self s.missions id (changed_mission now m state),
    same_mission_state_refl state,
  )

  -- The three outcomes of a change of state of a mission that was found: it is in that state and
  -- nothing is written; it has ended and is not to end again, and the call throws and writes nothing;
  -- or the state and one event are written.
  pub change_mission_state_lem :
      (now : ℕ) (id : String) (m : Mission) (state : MissionState) (actor : EventActor)
      (key : Option String) (s : MemoryStore)
      → change_mission_state p now id m state actor key s ≡ (
          if same_mission_state m.state state
          then (ok m, s)
          else if is_terminal_mission m.state && not (is_terminal_mission state)
          then (err (mission_terminated (record { id = id; from = m.state; to = state })), s)
          else (ok (changed_mission now m state), after_change now id m state actor key s))
  unfolding change_mission_state assert_mission_state_change
  change_mission_state_lem now id m state actor key s =
      ground (arith, commit_mission_state_lem now id m state actor key s)

  -- a creation writes the mission under a free id, or nothing
  pub create_mission-cases :
      (now : ℕ) (m : Mission) (actor : EventActor) (s : MemoryStore)
      → ((create_mission p now m actor s).1 ≡ s)
        ⊎ ((get s.missions m.id ≡ none)
            × ((create_mission p now m actor s).1 ≡ after_create now m actor s))
  unfolding create_mission
  create_mission-cases now m actor s = elim (Option-cases (get s.missions m.id)) [
    | inl free ↦ inr (free, ground (arith, insert_mission_lem now m actor s))
    | inr (old, found) ↦ inl (ground arith)
  ]

  -- a change writes the state of a mission that is there and may take it, or nothing
  pub set_mission_state-cases :
      (now : ℕ) (id : String) (state : MissionState) (actor : EventActor) (key : Option String)
      (s : MemoryStore)
      → ((set_mission_state p now id state actor key s).1 ≡ s)
        ⊎ ((m : Mission) × (get s.missions id ≡ some m)
            × ((is_terminal_mission m.state && not (is_terminal_mission state)) ≡ false)
            × ((set_mission_state p now id state actor key s).1
                ≡ after_change now id m state actor key s))
  unfolding set_mission_state
  set_mission_state-cases now id state actor key s = elim (Option-cases (get s.missions id)) [
    | inl missing ↦ inl (ground arith)
    | inr (m, found) ↦
        let e = change_mission_state_lem now id m state actor key s in
        elim (Bool-cases (same_mission_state m.state state)) [
          | inl same ↦ inl (ground (arith, e))
          | inr other ↦
              elim (Bool-cases (is_terminal_mission m.state && not (is_terminal_mission state))) [
                | inl ended ↦ inl (ground (arith, e))
                | inr open_ended ↦ inr (m, found, open_ended, ground (arith, e))
              ]
        ]
  ]
