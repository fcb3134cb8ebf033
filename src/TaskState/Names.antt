-- ===== src/TaskState/Names.antt =====
-- Facts about the literals of TASK_STATES: `===` decides equality, and a check of every state.
use cmap.Common.{Bool, true, ◌≡◌, all, arith}
use cmap.TaskState.{TaskState, draft, task_states, same_state}

pub same_state_refl : (s : TaskState) → same_state s s ≡ true
same_state_refl s = ground arith

-- the code's comparison of two states is equality
pub same_state→eq : (a b : TaskState) → same_state a b ≡ true → a ≡ b
same_state→eq a b h = ground (arith)

-- A test that passes for every listed state passes for every state.
pub for_all_states :
    (p : TaskState → Bool) → all p task_states ≡ true → (s : TaskState) → p s ≡ true
for_all_states p h draft = ground arith
for_all_states p h _ = ground arith
