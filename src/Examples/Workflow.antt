-- ===== src/Examples/Workflow.antt =====
-- The theorems on the DAG workflow and on the checks before a dispatch, at one small plan and one task.
use cmap.Common.{
  ◌⊎◌, ◌≡◌, ◌≤◌, ◌<◌, ◌+◌, inl, refl, Bool, true, false, String, Option, none, some, List, [], ◌∷◌,
  length, get, put, has, drop, includes, ok, arith,
}
use cmap.Json.{null}
use cmap.Entities.{read_meta}
use cmap.MissionPlan.{
  PlanNode, MissionPlan, unique, check_all_deps, visit, visit_list, visit_nodes, validate_graph,
}
use cmap.Dag.{
  failed, is_rework, NodeStatus, accepted, DagNodeOutcome, DagNode, Schedule, Patches,
  is_accepted_node,
}
use cmap.Dag.Scheduler.{
  Workflow, starts, fill, turn, ended, Event, settles, cancels, turns, react, play,
}
use cmap.Dag.Scheduler.Bounds.{running_is_bounded, closing_starts_nothing}
use cmap.Dag.Node.Final.{FinalReplies, returned_is_final}
use cmap.Dag.Scheduler.Outcomes.{outcomes_are_kept}
use cmap.Dag.Scheduler.Soundness.{IsSound, play-IsSound}
use cmap.Dag.Scheduler.FromPlan.{schedule_of}
use cmap.Dag.Scheduler.Complete.{Progressed, plan_progresses}
use cmap.Dag.Node.{
  Shared, Local, materializes, checks_approval, runs_attempt, waits_report, created, approved,
  waiting, awaits, returns, collected, reviews, proposes, begin, should_park, resume, Steps, here,
  step,
}
use cmap.Dag.Node.Rounds.{Within, rounds_are_bounded}
use cmap.Dag.Node.Approvals.{approved_by, attempts_were_approved}
use cmap.Dag.Node.Stopping.{count_steps, stopping_ends}

abbrev node_named : String → List String → PlanNode
node_named id deps = record {
  node_id = id;
  deps = deps;
  criterion_ids = [];
  capability = "code.edit";
  risk_level = read_meta;
  required_resource_locks = none;
  preferred_agent = none;
  fallback_agents = none;
  yonwork = none;
  other = null;
}

-- `b` waits for `a`
abbrev plan_two : MissionPlan
plan_two = record { concurrency = none; nodes = node_named "b" ("a" ∷ []) ∷ node_named "a" [] ∷ [] }

abbrev all_patches : Patches
all_patches = record {
  cancel = true;
  approval_signal = true;
  runner_report = true;
  continue_as_new = true;
  quota_handoff = true;
  knowledge = true;
}

abbrev outcome_of : String → NodeStatus → DagNodeOutcome
outcome_of id status = record {
  status = status;
  node_id = id;
  task_id = some "t1";
  attempt = none;
  progress = none;
  reason = none;
}

abbrev both_accepted : List Event
both_accepted =
    turns
    ∷ settles "a" (ended (outcome_of "a" accepted))
    ∷ turns
    ∷ settles "b" (ended (outcome_of "b" accepted))
    ∷ []

valid_two : validate_graph plan_two.nodes ≡ ok ("b" ∷ "a" ∷ [])
unfolding validate_graph unique check_all_deps visit_nodes visit_list visit
valid_two = refl

abbrev last_round : Workflow
last_round =
    turn (schedule_of 1 plan_two)
      (play all_patches (schedule_of 1 plan_two) both_accepted (starts [] []))

last_round_open : last_round.stopping ≡ false
unfolding turn play schedule_of starts react is_accepted_node get put has drop fill
last_round_open = refl

last_round_idle : length last_round.running ≡ 0
unfolding turn play schedule_of starts react is_accepted_node get put has drop fill
last_round_idle = refl

two_at_once : 0 < (schedule_of 1 plan_two).concurrency
unfolding schedule_of
two_at_once = omega arith

plan_progresses_example : Progressed (schedule_of 1 plan_two) last_round
plan_progresses_example =
    plan_progresses all_patches plan_two ("b" ∷ "a" ∷ []) 1 [] [] both_accepted last_round valid_two
      two_at_once tt (tt, (refl, (tt, (refl, tt)))) refl last_round_open last_round_idle

abbrev schedule_one : Schedule
schedule_one = record {
  nodes = record { node_id = "a"; deps = [] } ∷ [];
  concurrency = 1;
  max_additional_cycles = 1;
}

fresh-IsSound : IsSound schedule_one (starts [] [])
unfolding starts get has
fresh-IsSound = record {
  unique = refl;
  known = λ k h. absurd (ground arith);
  listed = λ k h. absurd (ground arith);
  apart = λ k h. refl;
  ready = λ k n there h. absurd (ground arith);
  calm = λ k o still h. absurd (ground arith);
  busy = inl refl;
}

abbrev one_accepted : Workflow
one_accepted =
    play all_patches schedule_one (turns ∷ settles "a" (ended (outcome_of "a" accepted)) ∷ [])
      (starts [] [])

one_accepted-IsSound : IsSound schedule_one one_accepted
one_accepted-IsSound =
    play-IsSound schedule_one all_patches
      (turns ∷ settles "a" (ended (outcome_of "a" accepted)) ∷ []) (starts [] []) ((refl, refl), tt)
      (tt, (refl, tt)) fresh-IsSound

-- the same promise is said to settle again
abbrev settled_again : List Event
settled_again = turns ∷ settles "a" (ended (outcome_of "a" failed)) ∷ []

outcomes_are_kept_example :
    IsSound schedule_one (play all_patches schedule_one settled_again one_accepted)
    × ((has one_accepted.outcomes "a" ≡ false)
        ⊎ (get (play all_patches schedule_one settled_again one_accepted).outcomes "a"
            ≡ get one_accepted.outcomes "a"))
outcomes_are_kept_example =
    outcomes_are_kept schedule_one all_patches "a" settled_again one_accepted ((refl, refl), tt)
      (tt, (refl, tt)) one_accepted-IsSound

none_running : length (starts [] []).running ≤ 1
unfolding starts
none_running = omega arith

running_is_bounded_example :
    length (play all_patches schedule_one both_accepted (starts [] [])).running ≤ 1
running_is_bounded_example =
    running_is_bounded all_patches schedule_one both_accepted (starts [] []) none_running

-- the node `a` runs, and the mission was canceled
abbrev canceled_run : Workflow
canceled_run = record {
  outcomes = [];
  resumable = [];
  parked = [];
  running = ("a", none) ∷ [];
  stopping = true;
  draining = false;
  cancel_reason = some "no longer needed";
}

still_runs :
    has (play all_patches schedule_one (turns ∷ cancels "again" ∷ []) canceled_run).running "a"
    ≡ true
unfolding play react turn get has
still_runs = refl

closing_starts_nothing_example : has canceled_run.running "a" ≡ true
closing_starts_nothing_example =
    closing_starts_nothing all_patches schedule_one (turns ∷ cancels "again" ∷ []) canceled_run "a"
      refl still_runs

abbrev dag_node_one : DagNode
dag_node_one = record { node_id = "a"; deps = [] }

abbrev shared_with : Bool → Shared
shared_with stopping = record {
  outcomes = [];
  stopping = stopping;
  draining = false;
  cancel_reason = none;
  history_full = false;
}

abbrev local_with : Option String → Local
local_with task = record { task_id = task; attempt_number = 1; previous_progress = none }

-- the node is materialized, approved and attempted
to_attempt :
    Steps all_patches 1 dag_node_one
      (begin all_patches 1 dag_node_one (shared_with false) none)
      (awaits (local_with (some "t1")) (runs_attempt "t1" none))
unfolding begin resume
to_attempt =
    step (local_with (some "t1")) (checks_approval "t1")
      (step (local_with none) (materializes 1 [] none) here (shared_with false) (ok (created "t1"))
        refl)
      (shared_with false) (ok approved) refl

rounds_are_bounded_example :
    Within all_patches 1 dag_node_one (awaits (local_with (some "t1")) (runs_attempt "t1" none))
rounds_are_bounded_example =
    rounds_are_bounded all_patches 1 dag_node_one (shared_with false) none tt to_attempt

attempts_were_approved_example :
    includes (approved_by all_patches 1 dag_node_one [] to_attempt) "t1" ≡ true
attempts_were_approved_example =
    attempts_were_approved all_patches 1 dag_node_one (shared_with false) (local_with (some "t1"))
      "t1" none to_attempt

-- the attempt is collected, reviewed and accepted
to_accepted :
    Steps all_patches 1 dag_node_one
      (begin all_patches 1 dag_node_one (shared_with false) none)
      (returns (outcome_of "a" accepted))
unfolding begin resume
to_accepted =
    step (local_with (some "t1")) (proposes "t1" (outcome_of "a" accepted))
      (step (local_with (some "t1")) (reviews "t1" none)
        (step (local_with (some "t1")) (runs_attempt "t1" none) to_attempt (shared_with false)
          (ok (collected none)) refl)
        (shared_with false) (ok (outcome_of "a" accepted)) refl)
      (shared_with false) (ok tt) refl

final_replies : FinalReplies all_patches 1 dag_node_one to_accepted
unfolding to_accepted to_attempt
final_replies = (((((tt, tt), tt), tt), tt), tt)

returned_is_final_example : is_rework accepted ≡ false
returned_is_final_example =
    returned_is_final all_patches 1 dag_node_one (shared_with false) none (outcome_of "a" accepted)
      to_accepted final_replies

-- an attempt that is waiting, when the workflow is stopping
to_wait :
    Steps all_patches 1 dag_node_one
      (awaits (local_with (some "t1")) (runs_attempt "t1" none))
      (awaits (local_with (some "t1")) (waits_report "t1" none))
unfolding resume should_park
to_wait =
    step (local_with (some "t1")) (runs_attempt "t1" none) here (shared_with true) (ok waiting) refl

stopping_ends_example : count_steps all_patches 1 dag_node_one to_wait + 2 ≤ 4
unfolding to_wait
stopping_ends_example = stopping_ends all_patches 1 dag_node_one to_wait (refl, tt)
