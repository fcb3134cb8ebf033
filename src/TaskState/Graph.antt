-- ===== src/TaskState/Graph.antt =====
-- The shape of the table of transitions.
use cmap.Common.{true, false, ◌≡◌, ◌↔◌, ◌⊎◌, [], arith, ok, err, if◌then◌else◌}
use cmap.TaskState.{
  TaskState, completed, reviewing, rework, canceled, is_terminal, is_waiting, allowed_transitions,
  can_transition, assert_transition,
}

-- A state is terminal exactly when the table lists no transition out of it.
pub is_terminal_iff_no_exit :
    (s : TaskState) → (is_terminal s ≡ true) ↔ (allowed_transitions s ≡ [])
unfolding is_terminal allowed_transitions
is_terminal_iff_no_exit s = (λ h. ground arith, λ h. ground arith)

pub no_exit_of_terminal : (s t : TaskState) → is_terminal s ≡ true → can_transition s t ≡ false
unfolding is_terminal can_transition
no_exit_of_terminal s t h = ground arith

-- The guard throws nothing exactly when a state that is not terminal is to be canceled.
pub assert_transition-canceled_iff :
    (s : TaskState) → (assert_transition s canceled ≡ ok tt) ↔ (is_terminal s ≡ false)
unfolding is_terminal assert_transition can_transition
assert_transition-canceled_iff s = (λ h. ground arith, λ h. ground arith)

-- No state is waiting and terminal at once, and a waiting state can fail for good.
pub waiting-not_terminal : (s : TaskState) → is_waiting s ≡ true → is_terminal s ≡ false
unfolding is_terminal is_waiting
waiting-not_terminal s h = ground arith

pub completed_from :
    (s : TaskState) → can_transition s completed ≡ true → (s ≡ reviewing) ⊎ (s ≡ rework)
unfolding can_transition
completed_from s h = ground arith

-- The guard returns exactly for the transitions of the table, and throws with both states otherwise.
pub assert_transition_lem :
    (s t : TaskState)
    → assert_transition s t
      ≡ (if can_transition s t then ok tt else err (record { from = s; to = t }))
unfolding assert_transition
assert_transition_lem s t = ground arith
