-- ===== src/Ledger.antt =====
-- Sequences of writes to missions, tasks and events of packages/domain-model/src/memory-store.ts:
-- what holds of the ledger after any calls, returned or thrown, at any times.
pub mod OneEvent
pub mod Order
pub mod TaskSteps
pub mod TaskHistory
pub mod Claims
pub mod MissionHistory
pub mod Types
use cmap.Common.{ℕ, String, Option, List, [], ◌∷◌, Platform}
use cmap.Entities.{
  Mission, MissionState, TaskRecord, TaskResult, EventActor, RemoteTaskBinding, TaskEvent,
}
use cmap.Store.{MemoryStore}
use cmap.Store.Missions.{create_mission, set_mission_state}
use cmap.Store.Tasks.{
  TransitionInput, create_task, transition_task, claim_task_binding, set_task_result,
}
use cmap.Store.Events.{append_event}

pub data Call : Type 0 where
  creates_mission : Mission → EventActor → Call
  sets_mission_state : String → MissionState → EventActor → Option String → Call
  creates_task : TaskRecord → EventActor → Option String → Call
  transitions : TransitionInput → Call
  claims : String → RemoteTaskBinding → EventActor → Call
  sets_result : String → TaskResult → Call
  appends : TaskEvent → Call

module _ (p : Platform) where
  -- the state that a call leaves, whether it returns or throws
  unfoldable pub after : ℕ → Call → MemoryStore → MemoryStore
  after now (creates_mission m actor) s = (create_mission p now m actor s).1
  after now (sets_mission_state id state actor key) s =
      (set_mission_state p now id state actor key s).1
  after now (creates_task t actor cause) s = (create_task p now t actor cause s).1
  after now (transitions i) s = (transition_task p now i s).1
  after now (claims id b actor) s = (claim_task_binding p now id b actor s).1
  after now (sets_result id r) s = (set_task_result p now id r s).1
  after now (appends e) s = (append_event e s).1

  -- calls with the clock at each
  unfoldable pub after_all : List (ℕ × Call) → MemoryStore → MemoryStore
  after_all [] s = s
  after_all ((now, c) ∷ cs) s = after_all cs (after now c s)
