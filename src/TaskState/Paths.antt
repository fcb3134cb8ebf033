-- ===== src/TaskState/Paths.antt =====
-- Sequences of legal transitions: what a task must have gone through.
use cmap.Common.{Bool, true, false, ◌≡◌, refl, ◌⊎◌, inl, inr, arith}
use cmap.TaskState.{
  TaskState, draft, ready, queued, running, waiting_resource, approval_required, verifying,
  reviewing, rework, completed, failed_retryable, failed_terminal, canceled, rejected, is_terminal,
  can_transition,
}
use cmap.TaskState.Graph.{no_exit_of_terminal}

pub data Walk (s : TaskState) : TaskState → Type 0 where
  here : Walk s s
  step : {t u : TaskState} → Walk s t → can_transition t u ≡ true → Walk s u

-- the walk stands at `v` at some moment
abbrev pub Visits : {s t : TaskState} → TaskState → Walk s t → Type 0
Visits {s} v here = s ≡ v
Visits {s} v (step {u = u} w h) = (u ≡ v) ⊎ Visits v w

-- the states that a task can be in before it was first verified
abbrev pub unverified : TaskState → Bool
unverified verifying = false
unverified reviewing = false
unverified rework = false
unverified completed = false
unverified _ = true

pub unverified-step :
    (t u : TaskState)
    → unverified t ≡ true
    → can_transition t u ≡ true
    → (unverified u ≡ true) ⊎ (u ≡ verifying)
unfolding can_transition
unverified-step t u h k = ground arith

Walk-unverified :
    {s t : TaskState}
    → unverified s ≡ true
    → (w : Walk s t) → (unverified t ≡ true) ⊎ Visits verifying w
Walk-unverified h here = inl h
Walk-unverified h (step {t} {u} w k) = elim (Walk-unverified h w) [
  | inl before ↦ elim (unverified-step t u before k) [ inl p ↦ inl p | inr q ↦ inr (inl q) ]
  | inr seen ↦ inr (inr seen)
]

-- the states that a task can be in before it first ran
abbrev pub unstarted : TaskState → Bool
unstarted draft = true
unstarted ready = true
unstarted queued = true
unstarted approval_required = true
unstarted waiting_resource = true
unstarted failed_retryable = true
unstarted failed_terminal = true
unstarted canceled = true
unstarted rejected = true
unstarted _ = false

pub unstarted-step :
    (t u : TaskState)
    → unstarted t ≡ true
    → can_transition t u ≡ true
    → (unstarted u ≡ true) ⊎ (u ≡ running)
unfolding can_transition
unstarted-step t u h k = ground arith

Walk-unstarted :
    {s t : TaskState}
    → unstarted s ≡ true
    → (w : Walk s t) → (unstarted t ≡ true) ⊎ Visits running w
Walk-unstarted h here = inl h
Walk-unstarted h (step {t} {u} w k) = elim (Walk-unstarted h w) [
  | inl before ↦ elim (unstarted-step t u before k) [ inl p ↦ inl p | inr q ↦ inr (inl q) ]
  | inr seen ↦ inr (inr seen)
]

-- A task that goes from DRAFT to COMPLETED by legal transitions has been RUNNING and VERIFYING.
pub completed-Visits : (w : Walk draft completed) → Visits running w × Visits verifying w
completed-Visits w = (
  elim (Walk-unstarted refl w) [ inl p ↦ cc | inr q ↦ q ],
  elim (Walk-unverified refl w) [ inl p ↦ cc | inr q ↦ q ],
)

-- A walk that starts at a terminal state goes nowhere.
pub Walk-terminal : {s t : TaskState} → Walk s t → is_terminal s ≡ true → s ≡ t
Walk-terminal here h = refl
Walk-terminal {s} (step {t} {u} w k) h =
    let same : s ≡ t = Walk-terminal w h in
    let stuck : can_transition s u ≡ false = no_exit_of_terminal s u h in cc (same, stuck, k)
