-- ===== src/Store/Attention/Counting.antt =====
-- countMissionAttention of packages/domain-model/src/memory-store.ts, against the tasks counted one
-- mission and one state at a time.
use cmap.Common.{
  map, not, refl, ℕ, ◌+◌, Bool, true, false, String, ◌==◌, eq_iff, ==→eq, List, [], ◌∷◌, Dict, get,
  has, get-put, values, keep, any, includes, length, ◌&&◌, ◌||◌, if◌then◌else◌, ◌≡◌, ◌∙◌, arith,
  subst, inl, inr, Bool-cases,
}
use cmap.TaskState.{
  TaskState, input_required, auth_required, approval_required, failed_terminal, has_state,
  same_state,
}
use cmap.Entities.{
  Mission, MissionState, TaskRecord, is_terminal_mission, same_mission_state, completed, escalated,
  failed, canceled,
}
use cmap.Store.{MemoryStore}
use cmap.Store.Attention.{
  MissionAttention, amount, increment, attention_task_states, or_zeros, live_missions, count_tasks,
  count_mission_attention,
}

-- the number of a mission's tasks in a state
abbrev pub tasks_in : TaskState → String → List TaskRecord → ℕ
tasks_in u k ts = length (keep (λ (t : TaskRecord). t.mission_id == k && same_state t.state u) ts)

-- a task of the mission is in one of the four states
abbrev pub needs_attention : String → List TaskRecord → Bool
needs_attention k ts =
    any (λ (t : TaskRecord). t.mission_id == k && has_state attention_task_states t.state) ts

amount-increment :
    (u v : TaskState) (c : MissionAttention)
    → has_state attention_task_states u ≡ true
    → amount u (increment v c) ≡ amount u c + (if same_state v u then 1 else 0)
amount-increment input_required v c h = ground arith
amount-increment auth_required v c h = ground arith
amount-increment approval_required v c h = ground arith
amount-increment failed_terminal v c h = ground arith
amount-increment _ v c h = absurd (ground arith)

other_state :
    (u v : TaskState)
    → has_state attention_task_states u ≡ true
    → has_state attention_task_states v ≡ false
    → same_state v u ≡ false
other_state u v h g = ground arith

-- one turn of the loop, for any amount of the rest of it
module _ (live : List String) (t : TaskRecord) (out : Dict MissionAttention) (k : String) where
  step-amount :
      (u : TaskState)
      → has_state attention_task_states u ≡ true
      → amount u (or_zeros (get (count_tasks live (t ∷ []) out) k))
        ≡ amount u (or_zeros (get out k)) + (if includes live k then tasks_in u k (t ∷ []) else 0)
  step-amount u h = elim (Bool-cases (has_state attention_task_states t.state)) [
    | inr calm ↦ ground (arith, other_state u t.state h calm)
    | inl waits ↦ elim (Bool-cases (t.mission_id == k)) [
      | inl same ↦
          subst
            (λ j.
              amount u (or_zeros (get (count_tasks live (t ∷ []) out) j))
              ≡ amount u (or_zeros (get out j))
                + (if includes live j then tasks_in u j (t ∷ []) else 0))
            (==→eq t.mission_id k same)
            (ground (
              arith,
              get-put out t.mission_id t.mission_id
                  (increment t.state (or_zeros (get out t.mission_id))),
              eq_iff t.mission_id t.mission_id,
              amount-increment u t.state (or_zeros (get out t.mission_id)) h,
            ))
      | inr other ↦
          ground (
            arith,
            get-put out t.mission_id k (increment t.state (or_zeros (get out t.mission_id))),
          )
    ]
  ]

  step-has :
      has (count_tasks live (t ∷ []) out) k
      ≡ (has out k || (includes live k && needs_attention k (t ∷ [])))
  unfolding has
  step-has = elim (Bool-cases (t.mission_id == k)) [
    | inl same ↦
        subst
          (λ j.
            has (count_tasks live (t ∷ []) out) j
            ≡ (has out j || (includes live j && needs_attention j (t ∷ []))))
          (==→eq t.mission_id k same)
          (ground (
            arith,
            get-put out t.mission_id t.mission_id
                (increment t.state (or_zeros (get out t.mission_id))),
            eq_iff t.mission_id t.mission_id,
          ))
    | inr other ↦
        ground
          (arith, get-put out t.mission_id k (increment t.state (or_zeros (get out t.mission_id))))
  ]

tasks_in-cons :
    (u : TaskState) (k : String) (t : TaskRecord) (ts : List TaskRecord)
    → tasks_in u k (t ∷ ts) ≡ tasks_in u k (t ∷ []) + tasks_in u k ts
tasks_in-cons u k t ts = ground arith

count-amount :
    (live : List String) (ts : List TaskRecord) (out : Dict MissionAttention) (k : String)
    (u : TaskState)
    → has_state attention_task_states u ≡ true
    → amount u (or_zeros (get (count_tasks live ts out) k))
      ≡ amount u (or_zeros (get out k)) + (if includes live k then tasks_in u k ts else 0)
count-amount live [] out k u h = ground arith
count-amount live (t ∷ ts) out k u h =
    let rest = count-amount live ts (count_tasks live (t ∷ []) out) k u h in
    let one = step-amount live t out k u h in
    let split = tasks_in-cons u k t ts in
    elim (Bool-cases (includes live k)) [
      | inl here ↦
          let rest_in : amount u (or_zeros (get (count_tasks live (t ∷ ts) out) k))
              ≡ amount u (or_zeros (get (count_tasks live (t ∷ []) out) k)) + tasks_in u k ts =
            rw here at rest in
          let one_in : amount u (or_zeros (get (count_tasks live (t ∷ []) out) k))
              ≡ amount u (or_zeros (get out k)) + tasks_in u k (t ∷ []) =
            rw here at one in
          rw here (omega (arith, rest_in, one_in, split))
      | inr gone ↦
          let rest_in : amount u (or_zeros (get (count_tasks live (t ∷ ts) out) k))
              ≡ amount u (or_zeros (get (count_tasks live (t ∷ []) out) k)) + 0 =
            rw gone at rest in
          let one_in : amount u (or_zeros (get (count_tasks live (t ∷ []) out) k))
              ≡ amount u (or_zeros (get out k)) + 0 =
            rw gone at one in
          rw gone (omega (arith, rest_in, one_in))
    ]

count-has :
    (live : List String) (ts : List TaskRecord) (out : Dict MissionAttention) (k : String)
    → has (count_tasks live ts out) k ≡ (has out k || (includes live k && needs_attention k ts))
count-has live [] out k = ground arith
count-has live (t ∷ ts) out k =
    ground (arith, count-has live ts (count_tasks live (t ∷ []) out) k, step-has live t out k)

-- a mission of the tenant, stored under any key, has the id and has not ended
abbrev pub is_live : String → String → Dict Mission → Bool
is_live tenant id [] = false
is_live tenant id ((k, m) ∷ ms) =
    (m.id == id
      && (m.tenant == tenant
          && not (same_mission_state m.state completed)
          && not (same_mission_state m.state escalated)
          && not (same_mission_state m.state failed)
          && not (same_mission_state m.state canceled)))
    || is_live tenant id ms

has_ended :
    (s : MissionState)
    → not (is_terminal_mission s) ≡ (
        not (same_mission_state s completed)
        && not (same_mission_state s escalated)
        && not (same_mission_state s failed)
        && not (same_mission_state s canceled))
unfolding is_terminal_mission
has_ended s = ground arith

includes-live_missions :
    (tenant id : String) (ms : Dict Mission)
    → includes
        (map
          (λ (m : Mission). m.id)
          (keep
            (λ (m : Mission). m.tenant == tenant && not (is_terminal_mission m.state))
            (values ms)))
        id
      ≡ is_live tenant id ms
unfolding values
includes-live_missions tenant id [] = refl
includes-live_missions tenant id ((k, m) ∷ ms) =
    ground (arith, includes-live_missions tenant id ms, has_ended m.state)

-- For every mission id and each of the four states: if a mission of the tenant that is not COMPLETED,
-- ESCALATED, FAILED or CANCELED has the id, the count of the result is the number of the mission's
-- tasks in the state, and else it is 0. The result has an entry for the id just when there is such a
-- mission with a task in one of the four states.
pub attention_is_counted :
    (tenant : String) (s : MemoryStore) (k : String) (u : TaskState)
    → has_state attention_task_states u ≡ true
    → (amount u (or_zeros (get (count_mission_attention tenant s) k))
        ≡ (if is_live tenant k s.missions then tasks_in u k (values s.tasks) else 0))
      × (has (count_mission_attention tenant s) k
          ≡ (is_live tenant k s.missions && needs_attention k (values s.tasks)))
unfolding get has
attention_is_counted tenant s k u h =
    let live : includes (live_missions tenant s) k ≡ is_live tenant k s.missions =
      includes-live_missions tenant k s.missions in
    (
      subst
          (λ b.
            amount u (or_zeros (get (count_mission_attention tenant s) k))
            ≡ (if b then tasks_in u k (values s.tasks) else 0))
          live (count-amount (live_missions tenant s) (values s.tasks) [] k u h ∙ ground arith),
      subst
          (λ b.
            has (count_mission_attention tenant s) k ≡ (b && needs_attention k (values s.tasks)))
          live (count-has (live_missions tenant s) (values s.tasks) [] k),
    )
