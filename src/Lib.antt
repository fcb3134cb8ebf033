-- ===== src/Lib.antt =====
-- The domain model of CMAP, a control plane that plans missions, dispatches their tasks to agents and
-- runners, and records everything in a ledger of events.
--
-- Parts and how they interact. Paths without a directory are below
-- packages/domain-model/src.
--   * TaskState (task-state.ts): the states of a task and the table of legal transitions. Its paths
--     (TaskState/Paths) are what the ledger is shown to follow.
--   * Entities (entities.ts): risks, mission states and the records of the ledger.
--   * Json (criterion-check.ts, jsonEqual): JSON values over exact ECMAScript numbers; node's
--     isDeepStrictEqual on such values is the same comparison.
--   * Approval (approval-state.ts): decideApprovalState.
--   * Gateway (runner-gateway.ts): leases of the outbound gateway and one-time enrollment tokens.
--   * Store (memory-store.ts, store.ts, mission-input.ts): the ledger. A method is a function of the
--     state to its result or error and the new state, whether it returns or throws. Store/Missions,
--     Store/Tasks, Store/Events, Store/Artifacts, Store/Reviews, Store/Approvals, Store/Locks,
--     Store/Runners, Store/Leases, Store/Quotas and Store/Attention hold the methods of the same names in snake_case, Store/Compare
--     the comparisons of repeated inputs; their child modules hold the theorems on them.
--   * Ledger: sequences of the store's writes to missions, tasks and events, each at any time of the
--     clock, with what holds after all of them.
--   * MissionPlan (mission-plan.ts): normalization of a plan and the search for cycles.
--   * Admission (runner-admission.ts): which runner may be given which task.
--   * Criterion (criterion-check.ts): recomputation of the criteria that an agent reports.
--   * EvidencePack (evidence-pack.ts): the evidence of a mission, read from the store.
--   * Dag (workflows/dag.workflow.ts): the workflow of a mission with a plan. Dag/Node is executeNode,
--     which stands at one await at a time and goes on with a reply; Dag/Scheduler is the loop that
--     starts the nodes, with the events that happen between its rounds; Dag/Scheduler/FromPlan is the
--     schedule that loadDagSchedule (workflows/dag-activities.ts) makes of an accepted plan.
--     `draining` is set when a node that parks has settled, a little later than in the source, so the
--     model allows more orders of events than the code.
--   * Preflight (workflows/runner-admission.ts): the checks before a task goes to a runner, which use
--     Admission, Approval and Store, and the receipt of a denial in the ledger.
--   * Permits (dispatch-permit.ts): issuing and verifying of dispatch permits.
--   * RunnerAuth (dispatch-permit.ts): signed requests and answers between control plane and runners.
--   * Common: lists, maps, outcomes, texts and times that the parts share.
--   * Examples: concrete inputs, at which the theorems are applied.
--
-- Parameters. Date.parse and toISOString are a record `Platform`; times are milliseconds from the
-- earliest time of ECMAScript, none for NaN. The clock that a method reads is an argument. The compiled
-- schema of a plan, JSON.parse and Number of a decimal text are arguments of what uses them. The
-- functions of node:crypto, Buffer and JSON that permits and signatures use are a record `Node`, and
-- what is documented of them is `IsDocumented`. What activities reply to a workflow, and when, is an
-- argument of its steps.
--
-- Fuel. The search for cycles has one unit more than there are nodes; a chain of visits never repeats
-- a node, so it is enough for every plan. All other loops are structural recursions.
--
-- Not modelled: the PostgreSQL store, which puts the same contract into SQL; the
-- queries over a tenant's missions and events, queryMissions and listTenantEvents, of the memory store; no-progress detection, which needs
-- the rounding of doubles; key files; what the activities of a workflow do, other than the checks
-- before a dispatch; a rejected node, which ends the run of its workflow; adapters, applications and
-- scripts. A deep copy of an immutable value is the value, and a map keeps the order of first insertion.
-- The result object of countMissionAttention is a map too: ids that are names of an object's own
-- prototype, which mission ids never are, read differently in JavaScript.
pub mod Common
pub mod TaskState
pub mod Json
pub mod Entities
pub mod Gateway
pub mod Approval
pub mod Store
pub mod Ledger
pub mod MissionPlan
pub mod Admission
pub mod Criterion
pub mod EvidencePack
pub mod Dag
pub mod Permits
pub mod RunnerAuth
pub mod Preflight
pub mod Examples
