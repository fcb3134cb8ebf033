-- ===== src/Store/Compare.antt =====
-- The comparisons of packages/domain-model/src/store.ts and mission-input.ts: two inputs agree when
-- their comparable parts are deeply equal.
use cmap.Common.{
  ◌==◌, ℕ, ◌*◌, ◌^◌, Bool, false, String, Option, none, some, List, [], ◌∷◌, Outcome, ok, err,
  if◌then◌else◌,
}
use cmap.Json.{Json, null, num, str, arr, obj, Items, nil, cons, Fields, end, field, json_equal}
use cmap.Json.Numbers.{finite}
use cmap.Entities.{Mission, Envelope, TaskRecord, TaskEvent, RemoteTaskBinding, risk_text}
use cmap.Entities.Evidence.{Review}
use cmap.Store.{StoreError, mission_conflict, task_conflict, event_conflict, review_conflict}

-- a whole number as an ECMAScript number: a multiple of the unit 2^-1074
unfoldable pub whole : ℕ → Json
whole n = num (finite false (n * 2 ^ 1074))

abbrev pub text_or_null : Option String → Json
text_or_null none = null
text_or_null (some s) = str s

abbrev pub number_or_null : Option ℕ → Json
number_or_null none = null
number_or_null (some n) = whole n

unfoldable pub texts : List String → Items
texts [] = nil
texts (s ∷ ss) = cons (str s) (texts ss)

-- an optional field is left out where it is undefined
abbrev pub optional_text : String → Option String → Fields → Fields
optional_text k none fs = fs
optional_text k (some s) fs = field k (str s) fs

unfoldable pub comparable_mission_input : Mission → Json
comparable_mission_input m = obj (
    field "tenant" (str m.tenant) (
      field "owner" (str m.owner) (
        field "type" (str m.kind) (
          field "goal" (str m.goal) (
            field "constraints" m.constraints (
              field "acceptance" m.acceptance
                (field "workflow_template" (str m.workflow_template) end)))))))

unfoldable pub assert_same_mission_input : Mission → Mission → Outcome StoreError (Unit {0})
assert_same_mission_input existing incoming =
    if json_equal (comparable_mission_input existing) (comparable_mission_input incoming)
    then ok tt
    else err (mission_conflict existing.id)

-- the fields of the envelope's identity and classification, then all its others
unfoldable pub envelope_json : Envelope → Json
unfolding whole
envelope_json e = obj (
    field "mission_id" (str e.mission_id) (
      field "task_id" (str e.task_id) (
        field "revision" (whole e.revision) (
          field "tenant" (text_or_null e.tenant) (
            field "owner" (text_or_null e.owner) (
              field "idempotency_key" (str e.idempotency_key) (
                field "requested_capability" (str e.requested_capability) (
                  field "risk_level" (str (risk_text e.risk_level)) (
                    field "affinity_host" (text_or_null e.affinity_host)
                      (field "other" e.other end))))))))))

unfoldable pub comparable_task_input : TaskRecord → Json
unfolding envelope_json texts whole
comparable_task_input t = obj (
    field "id" (str t.id) (
      field "mission_id" (str t.mission_id) (
        field "parent_task_id" (text_or_null t.parent_task_id) (
          field "supersedes_task_id" (text_or_null t.supersedes_task_id) (
            field "capability" (str t.capability) (
              field "risk" (str (risk_text t.risk)) (
                field "max_attempts" (whole t.max_attempts) (
                  field "envelope" (envelope_json t.envelope)
                    (field "deps" (arr (texts t.deps)) end)))))))))

unfoldable pub assert_same_task_input : TaskRecord → TaskRecord → Outcome StoreError (Unit {0})
assert_same_task_input existing incoming =
    if json_equal (comparable_task_input existing) (comparable_task_input incoming)
    then ok tt
    else err (task_conflict existing.id)

unfoldable pub comparable_review_input : Review → Json
unfolding texts whole
comparable_review_input r = obj (
    field "id" (str r.id) (
      field "mission_id" (str r.mission_id) (
        field "reviewed_task_ids" (arr (texts r.reviewed_task_ids))
          (field "round" (whole r.round) (field "decision" r.decision end)))))

unfoldable pub assert_same_review_input : Review → Review → Outcome StoreError (Unit {0})
assert_same_review_input existing incoming =
    if json_equal (comparable_review_input existing) (comparable_review_input incoming)
    then ok tt
    else err (review_conflict existing.id)

unfoldable pub comparable_event_input : TaskEvent → Json
unfolding whole
comparable_event_input e = obj (
    field "event_type" (str e.event_type) (
      field "event_version" (whole e.event_version) (
        field "mission_id" (str e.mission_id) (
          field "task_id" (text_or_null e.task_id) (
            field "attempt" (number_or_null e.attempt) (
              field "actor"
                (obj (
                  field "type" (str e.actor.kind) (
                    field "id" (str e.actor.id)
                      (field "runner_id" (text_or_null e.actor.runner_id) end))))
                (field "causation_id" (text_or_null e.causation_id) (
                  field "correlation_id" (str e.correlation_id) (
                    field "trace_id" (text_or_null e.trace_id) (
                      field "idempotency_key" (str e.idempotency_key)
                        (field "payload" (obj e.payload) end)))))))))))

unfoldable pub assert_same_event_input : TaskEvent → TaskEvent → Outcome StoreError (Unit {0})
assert_same_event_input existing incoming =
    if json_equal (comparable_event_input existing) (comparable_event_input incoming)
    then ok tt
    else err (event_conflict existing.idempotency_key)

-- the JSON of a binding
unfoldable pub binding_json : RemoteTaskBinding → Json
binding_json b = obj (
    field "adapter" (str b.adapter) (
      field "remote_task_id" (str b.remote_task_id) (
        optional_text "remote_context_id" b.remote_context_id (
          field "protocol" (str b.protocol) (
            field "protocol_version" (str b.protocol_version) (
              field "runner_id" (str b.runner_id)
                (optional_text "provider_session_id" b.provider_session_id end)))))))

-- isDeepStrictEqual(a, b) of two bindings
unfoldable pub same_binding : RemoteTaskBinding → RemoteTaskBinding → Bool
same_binding a b = json_equal (binding_json a) (binding_json b)

-- o[k] = v: an existing key keeps its place
unfoldable pub put_field : Fields → String → Json → Fields
put_field end k v = field k v end
put_field (field j w fs) k v = if j == k then field j v fs else field j w (put_field fs k v)

-- { ...base, ...extra }
unfoldable pub spread : Fields → Fields → Fields
unfolding put_field
spread base end = base
spread base (field k v fs) = spread (put_field base k v) fs
