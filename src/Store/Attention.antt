-- ===== src/Store/Attention.antt =====
-- The tasks of a tenant that wait for a human, of packages/domain-model/src/memory-store.ts:
-- countMissionAttention. The keys of the result object are read as those of a Map.
pub mod Counting
use cmap.Common.{
  ℕ, suc, ◌+◌, Bool, true, false, String, ◌==◌, ◌<◌, Option, none, some, List, [], ◌∷◌, Dict, get,
  put, get-put, values, keep, includes, length, map, not, ◌&&◌, ◌||◌, if◌then◌else◌, ◌≡◌, refl,
  arith,
}
use cmap.TaskState.{
  TaskState, input_required, auth_required, approval_required, failed_terminal, has_state,
  same_state,
}
use cmap.Entities.{Mission, TaskRecord, is_terminal_mission}
use cmap.Store.{MemoryStore}

-- ATTENTION_TASK_STATES
abbrev pub attention_task_states : List TaskState
attention_task_states = input_required ∷ auth_required ∷ approval_required ∷ failed_terminal ∷ []

-- MissionAttentionV1: the number of tasks in each of the four states
pub record MissionAttention : Type 0 where
  pub input : ℕ
  pub auth : ℕ
  pub approval : ℕ
  pub failed : ℕ

abbrev pub no_attention : MissionAttention
no_attention = record { input = 0; auth = 0; approval = 0; failed = 0 }

-- c[state]
abbrev pub amount : TaskState → MissionAttention → ℕ
amount input_required c = c.input
amount auth_required c = c.auth
amount approval_required c = c.approval
amount failed_terminal c = c.failed
amount _ c = 0

-- c[state]++
abbrev pub increment : TaskState → MissionAttention → MissionAttention
increment input_required c = record c { input = suc c.input }
increment auth_required c = record c { auth = suc c.auth }
increment approval_required c = record c { approval = suc c.approval }
increment failed_terminal c = record c { failed = suc c.failed }
increment _ c = c

-- out[mission_id] ??= zeros
abbrev pub or_zeros : Option MissionAttention → MissionAttention
or_zeros none = no_attention
or_zeros (some c) = c

-- the ids of the tenant's missions that have not ended
abbrev pub live_missions : String → MemoryStore → List String
live_missions tenant s =
    map (λ (m : Mission). m.id)
      (keep (λ (m : Mission). m.tenant == tenant && not (is_terminal_mission m.state))
        (values s.missions))

-- the loop of countMissionAttention
abbrev pub count_tasks :
    List String → List TaskRecord → Dict MissionAttention → Dict MissionAttention
count_tasks live [] out = out
count_tasks live (t ∷ ts) out = count_tasks live ts (
    if not (includes live t.mission_id) || not (has_state attention_task_states t.state)
    then out
    else put out t.mission_id (increment t.state (or_zeros (get out t.mission_id))))

abbrev pub count_mission_attention : String → MemoryStore → Dict MissionAttention
count_mission_attention tenant s = count_tasks (live_missions tenant s) (values s.tasks) []
