-- ===== src/TaskState.antt =====
-- packages/domain-model/src/task-state.ts: the states of a task, the table of legal transitions and
-- the guard. The proofs are in the children.
pub mod Names
pub mod Graph
pub mod Paths
use cmap.Common.{ℕ, Bool, List, [], ◌∷◌, any, eqb, Outcome, ok, err, if◌then◌else◌}

pub data TaskState : Type 0 where
  draft ready queued running waiting_resource input_required auth_required approval_required
        verifying reviewing rework completed failed_retryable failed_terminal canceled rejected :
      TaskState

-- TASK_STATES
abbrev pub task_states : List TaskState
task_states =
    draft ∷ ready ∷ queued ∷ running ∷ waiting_resource ∷ input_required ∷ auth_required
    ∷ approval_required ∷ verifying ∷ reviewing ∷ rework ∷ completed ∷ failed_retryable
    ∷ failed_terminal ∷ canceled ∷ rejected ∷ []

-- the place of a literal in TASK_STATES, by which `===` is decided
abbrev pub place : TaskState → ℕ
place draft = 0
place ready = 1
place queued = 2
place running = 3
place waiting_resource = 4
place input_required = 5
place auth_required = 6
place approval_required = 7
place verifying = 8
place reviewing = 9
place rework = 10
place completed = 11
place failed_retryable = 12
place failed_terminal = 13
place canceled = 14
place rejected = 15

-- a === b
abbrev pub same_state : TaskState → TaskState → Bool
same_state a b = eqb (place a) (place b)

-- states.includes(s)
abbrev pub has_state : List TaskState → TaskState → Bool
has_state xs s = any (λ x. same_state x s) xs

abbrev pub terminal_states : List TaskState
terminal_states = completed ∷ failed_terminal ∷ canceled ∷ rejected ∷ []

unfoldable pub is_terminal : TaskState → Bool
is_terminal s = has_state terminal_states s

abbrev pub waiting_states : List TaskState
waiting_states = waiting_resource ∷ input_required ∷ auth_required ∷ approval_required ∷ []

unfoldable pub is_waiting : TaskState → Bool
is_waiting s = has_state waiting_states s

-- ALLOWED_TRANSITIONS
unfoldable pub allowed_transitions : TaskState → List TaskState
allowed_transitions draft = ready ∷ canceled ∷ []
allowed_transitions ready = queued ∷ approval_required ∷ canceled ∷ []
allowed_transitions queued = running ∷ waiting_resource ∷ canceled ∷ rejected ∷ []
allowed_transitions running =
    waiting_resource ∷ input_required ∷ auth_required ∷ approval_required ∷ verifying
    ∷ failed_retryable ∷ failed_terminal ∷ canceled ∷ []
allowed_transitions waiting_resource = running ∷ failed_retryable ∷ failed_terminal ∷ canceled ∷ []
allowed_transitions input_required = running ∷ failed_terminal ∷ canceled ∷ []
allowed_transitions auth_required = running ∷ failed_terminal ∷ canceled ∷ []
allowed_transitions approval_required = ready ∷ running ∷ rejected ∷ failed_terminal ∷ canceled ∷ []
allowed_transitions verifying = reviewing ∷ rework ∷ failed_terminal ∷ canceled ∷ []
allowed_transitions reviewing =
    completed ∷ rework ∷ approval_required ∷ failed_terminal ∷ canceled ∷ []
allowed_transitions rework = completed ∷ failed_terminal ∷ canceled ∷ []
allowed_transitions failed_retryable = queued ∷ failed_terminal ∷ canceled ∷ []
allowed_transitions completed = []
allowed_transitions failed_terminal = []
allowed_transitions canceled = []
allowed_transitions rejected = []

unfoldable pub can_transition : TaskState → TaskState → Bool
unfolding allowed_transitions
can_transition from to = has_state (allowed_transitions from) to

-- IllegalTransitionError
pub record IllegalTransition : Type 0 where
  pub from : TaskState
  pub to : TaskState

unfoldable pub assert_transition : TaskState → TaskState → Outcome IllegalTransition (Unit {0})
assert_transition from to =
    if can_transition from to then ok tt else err (record { from = from; to = to })
