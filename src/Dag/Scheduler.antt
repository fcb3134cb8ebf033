-- ===== src/Dag/Scheduler.antt =====
-- The loop of dagMissionWorkflow in workflows/dag.workflow.ts. The promise of a running node is its
-- entry in `running`, with the parked node that it resumes. What can happen between two rounds of the
-- loop is an event: a promise settles, or a signal cancels the mission.
pub mod Bounds
pub mod Soundness
pub mod Outcomes
pub mod Idle
pub mod FromPlan
pub mod Starting
pub mod Complete
use cmap.Common.{
  ℕ, Bool, true, false, String, ◌==◌, Option, none, some, List, [], ◌∷◌, Dict, get, put, has, drop,
  values, find, all, length, leb, eqb, not, ◌&&◌, if◌then◌else◌,
}
use cmap.Dag.{
  DagNodeOutcome, failed, DagNode, Schedule, ParkedDagNode, Patches, finished_outcome, stop_reason,
  is_fatal, is_accepted_node,
}

pub record Workflow : Type 0 where
  pub outcomes : Dict DagNodeOutcome
  pub resumable : Dict ParkedDagNode
  pub parked : Dict ParkedDagNode
  pub running : Dict (Option ParkedDagNode)
  pub stopping : Bool
  pub draining : Bool
  pub cancel_reason : Option String

-- new Map(list.map(o => [o.nodeId, o]))
unfoldable pub by_node {ℓ} : {V : Type ℓ} → (V → String) → Dict V → List V → Dict V
by_node id m [] = m
by_node id m (v ∷ vs) = by_node id (put m (id v) v) vs

-- a run that takes over from `input.resume`
unfoldable pub starts : List DagNodeOutcome → List ParkedDagNode → Workflow
unfolding by_node
starts outcomes parked = record {
  outcomes = by_node (λ o. o.node_id) [] outcomes;
  resumable = by_node (λ p. p.node_id) [] parked;
  parked = [];
  running = [];
  stopping = false;
  draining = false;
  cancel_reason = none;
}

unfoldable pub launch : DagNode → Workflow → Workflow
launch n w = record w {
  running = put w.running n.node_id (get w.resumable n.node_id);
  resumable = drop w.resumable n.node_id;
}

-- the node has an outcome, or runs
abbrev pub is_taken : Workflow → String → Bool
is_taken w id = if has w.outcomes id then true else has w.running id

-- the `for` over schedule.nodes
unfoldable pub fill : ℕ → List DagNode → Workflow → Workflow
unfolding launch
fill concurrency [] w = w
fill concurrency (n ∷ ns) w =
    if leb concurrency (length w.running)
    then w
    else fill concurrency ns (
        if is_taken w n.node_id
        then w
        else if not (all (is_accepted_node w.outcomes) n.deps)
        then w
        else launch n w)

-- the first part of a round
unfoldable pub turn : Schedule → Workflow → Workflow
turn sc w = if not w.stopping && not w.draining then fill sc.concurrency sc.nodes w else w

-- what executeNode resolves to
pub data Settled : Type 0 where
  ended : DagNodeOutcome → Settled
  parked_at : ParkedDagNode → Settled

-- the `then` of a promise; a node parks only where shouldPark() has set `draining`
unfoldable pub settle : String → Settled → Workflow → Workflow
settle id (parked_at p) w = record w {
  parked = put w.parked id p;
  running = drop w.running id;
  draining = true;
}
settle id (ended o) w = record w {
  outcomes = put w.outcomes id o;
  running = drop w.running id;
  stopping = if is_fatal o.status then true else w.stopping;
}

-- the handler of cancelMission, by the reason on record and whether the change is present
abbrev pub cancel_from : Option String → Bool → String → Workflow → Workflow
cancel_from (some old) present reason w = w
cancel_from none false reason w = w
cancel_from none true reason w = record w { cancel_reason = some reason; stopping = true }

-- the reason is the one that the handler stores
unfoldable pub cancel : Patches → String → Workflow → Workflow
cancel patched reason w = cancel_from w.cancel_reason patched.cancel reason w

pub data Event : Type 0 where
  settles : String → Settled → Event
  cancels : String → Event
  turns : Event

unfoldable pub react : Patches → Schedule → Event → Workflow → Workflow
unfolding turn settle cancel
react patched sc (settles id r) w = if has w.running id then settle id r w else w
react patched sc (cancels reason) w = cancel patched reason w
react patched sc turns w = turn sc w

unfoldable pub play : Patches → Schedule → List Event → Workflow → Workflow
play patched sc [] w = w
play patched sc (e ∷ es) w = play patched sc es (react patched sc e w)

-- the parked nodes are finished, where the workflow is stopping
unfoldable pub close_parked :
    Option String → List ParkedDagNode → Dict DagNodeOutcome → Dict DagNodeOutcome
unfolding finished_outcome
close_parked reason [] outcomes = outcomes
close_parked reason (p ∷ ps) outcomes = close_parked reason ps (
    put outcomes p.node_id
      (finished_outcome p.node_id (some p.task_id) failed (stop_reason reason)))

-- what a round comes to
pub data Verdict : Type 0 where
  waits : Verdict
  continues : List DagNodeOutcome → List ParkedDagNode → Verdict  -- continueAsNew
  ends : Dict DagNodeOutcome → Verdict
  gives_up : String → Verdict  -- UNRESOLVED_DEPENDENCIES at a node
  breaks : Verdict  -- `missing!` is undefined

abbrev pub is_nonempty {ℓ} : {A : Type ℓ} → List A → Bool
is_nonempty [] = false
is_nonempty (x ∷ xs) = true

-- the node that is reported, by the search for one without an outcome
abbrev missing_verdict : Option DagNode → Verdict
missing_verdict none = breaks
missing_verdict (some n) = gives_up n.node_id

-- the second part of a round
unfoldable pub verdict : Schedule → Workflow → Verdict
unfolding close_parked
verdict sc w =
    if is_nonempty w.running
    then waits
    else if is_nonempty w.parked && not w.stopping
    then continues (values w.outcomes) (values w.parked)
    else if w.stopping
    then ends (close_parked w.cancel_reason (values w.parked) w.outcomes)
    else if eqb (length w.outcomes) (length sc.nodes)
    then ends w.outcomes
    else missing_verdict (find (λ n. not (has w.outcomes n.node_id)) sc.nodes)
