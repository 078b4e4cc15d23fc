-- ===== src/Router/Delivery.antt =====
-- Delivery of a stored write to a node: `#deliver`, `#postBatch`, `#createMissingSession`,
-- `#finishDeliveryError`, `#retryEntry`, `#drain` and memoryRecord (apps/mcp/src/router.ts). What a
-- Core node answers is a parameter: a function of the node, the request and the number of the
-- request within the delivery. Deliveries that the source starts together run here one after the
-- other; each works on its own pair of a record and a target.
use neuromem.Prelude.{
  ℕ, String, Bool, false, Option, none, some, List, [], ◌∷◌, includes, str_eq, ◌==◌, if◌then◌else◌,
  get_or_else,
}
use neuromem.Json.{
  Json, JsonObject, null, string, array, nil, cons, empty, field, get, as_string, as_object,
}
use neuromem.CoreClient.{CoreError, Reply, replied, refused}
use neuromem.RetryQueue.Store.{RetryEntry, Store, Result, ok, err, M, ◌>>=◌, ◌>>◌, return}
use neuromem.RetryQueue.Writes.{record_id_of, enqueue_record, mark_pending, resolve}
use neuromem.RetryQueue.Reads.{list, read_record, count}

pub data DeliveryState : Type 0 where
  stored pending failed : DeliveryState

pub record DeliveryStatus : Type 0 where
  pub status : DeliveryState
  pub http_status : Option ℕ
  pub error_code : Option String

-- The path of a request: `/v1/records:batch`, or `/v1/workspaces/${w}/projects/${p}/sessions` with
-- `encodeURIComponent` of the two ids `w` and `p`.
pub data CorePath : Type 0 where
  records_batch : CorePath
  project_sessions : String → String → CorePath

-- A request to Core: its path, its body, and the idempotency key.
pub record CoreRequest : Type 0 where
  pub path : CorePath
  pub body : JsonObject
  pub idempotency_key : Option String

abbrev pub Core : Type 0
Core = String → CoreRequest → ℕ → Reply

-- What is thrown within `#deliver`: a CoreRequestError, or anything else.
pub data Failure : Type 0 where
  core : CoreError → Failure
  other : Failure

pub data Attempt : Type 0 where
  delivered : Attempt
  broken : Failure → Attempt

-- A scope as an object, with `origin_scopes?.[target] ?? scopeFor(…)`.
pub origin_scope : JsonObject → String → JsonObject → JsonObject
origin_scope write target scope =
    get_or_else (as_object (get target (get_or_else (as_object (get "origin_scopes" write)) empty)))
      scope

abbrev json_of : Option Json → Json
json_of none = null
json_of (some v) = v

-- `write.record` and `write.session_id`
abbrev member : String → JsonObject → Json
member key write = json_of (get key write)

unfoldable pub batch_request : JsonObject → String → JsonObject → CoreRequest
unfolding origin_scope
batch_request write target scope =
    let origin = origin_scope write target scope in
    record {
      path = records_batch;
      body = field "workspace_id" (member "workspace_id" origin) (
          field "project_id" (member "project_id" origin) (
            field "session_id" (member "session_id" write)
              (field "records" (array (cons (member "record" write) nil)) empty)));
      idempotency_key = some (record_id_of write);
    }

-- `typeof source === "string" && source ? source : "Agent session"`
session_name : JsonObject → String
session_name write =
    let source =
      get_or_else
        (as_string (get "source_app" (get_or_else (as_object (get "record" write)) empty))) "" in
    if str_eq source "" then "Agent session" else source

session_path : JsonObject → CorePath
session_path origin =
    project_sessions (get_or_else (as_string (get "workspace_id" origin)) "")
      (get_or_else (as_string (get "project_id" origin)) "")

unfoldable pub session_request : JsonObject → String → JsonObject → CoreRequest
unfolding session_name session_path origin_scope
session_request write target scope = record {
  path = session_path (origin_scope write target scope);
  body = field "id" (member "session_id" write) (
      field "external_key" (member "session_id" write)
        (field "name" (string (session_name write)) empty));
  idempotency_key = none;
}

-- A call of the queue inside `try`: what it throws is caught.
abbrev pub caught : Result (Unit {0}) × Store → Attempt × Store
caught (ok _, s) = (delivered, s)
caught (err e, s) = (broken other, s)

-- One `#postBatch` followed by `resolve`.
unfoldable pub post_and_resolve : Reply → JsonObject → String → Store → Attempt × Store
post_and_resolve (refused e) write target s = (broken (core e), s)
post_and_resolve (replied v) write target s = caught (resolve (record_id_of write) target s)

unfoldable pub pending_with : String → Option ℕ → DeliveryStatus
pending_with code http = record { status = pending; http_status = http; error_code = some code }

unfoldable pub failed_with : String → Option ℕ → DeliveryStatus
failed_with code http = record { status = failed; http_status = http; error_code = some code }

abbrev pub stored_status : DeliveryStatus
stored_status = record { status = stored; http_status = none; error_code = none }

-- `#finishDeliveryError`
unfoldable pub finish_delivery_error : JsonObject → String → ℕ → Failure → M DeliveryStatus
unfolding pending_with failed_with
finish_delivery_error write target now other = do
  mark_pending (record_id_of write) target "internal_error" now
  return (pending_with "internal_error" none)
finish_delivery_error write target now (core e) =
    if e.retryable
    then mark_pending (record_id_of write) target e.code now
      >> return (pending_with e.code e.http_status)
    else resolve (record_id_of write) target >> return (failed_with e.code e.http_status)

-- What `#createMissingSession` returns: created, refused by the other answer, or failed.
pub data Creation : Type 0 where
  created refused_session : Creation
  creation_error : CoreError → Creation

-- `created?.id === write.session_id`, for a session id that is a string.
unfoldable pub create_missing_session : Reply → JsonObject → Creation
create_missing_session (refused e) write = creation_error e
create_missing_session (replied v) write =
    elim (as_string (get "id" (get_or_else (as_object (some v)) empty))) [
      | none ↦ refused_session
      | some id ↦
          if str_eq id (get_or_else (as_string (get "session_id" write)) "")
          then created
          else refused_session
    ]

abbrev pub is_not_found : Failure → Bool
is_not_found other = false
is_not_found (core e) = elim e.http_status [ none ↦ false | some n ↦ n == 404 ]

unfoldable pub settle : JsonObject → String → ℕ → Attempt × Store → Result DeliveryStatus × Store
settle write target now (delivered, s) = (ok stored_status, s)
settle write target now (broken f, s) = finish_delivery_error write target now f s

-- The `catch` for a 404, by what the creation of the session gives.
unfoldable pub after_creation :
    Creation → Reply → JsonObject → String → ℕ → Failure → Store → Result DeliveryStatus × Store
unfolding settle post_and_resolve
after_creation created second write target now f s =
    settle write target now (post_and_resolve second write target s)
after_creation refused_session second write target now f s =
    finish_delivery_error write target now f s
after_creation (creation_error e) second write target now f s =
    finish_delivery_error write target now (if e.retryable then core e else f) s

unfoldable pub after_first :
    Core → JsonObject → String → JsonObject → ℕ → Attempt × Store → Result DeliveryStatus × Store
unfolding after_creation
after_first core_node write target scope now (delivered, s) = (ok stored_status, s)
after_first core_node write target scope now (broken f, s) =
    if is_not_found f
    then after_creation
        (create_missing_session (core_node target (session_request write target scope) 1) write)
        (core_node target (batch_request write target scope) 2) write target now f s
    else finish_delivery_error write target now f s

-- `#deliver`; `scope` is what `#scopeFor` gives for the target.
unfoldable pub deliver :
    Core → List String → JsonObject → String → JsonObject → ℕ → M DeliveryStatus
unfolding after_first post_and_resolve failed_with
deliver core_node clients write target scope now s =
    if includes clients target
    then after_first core_node write target scope now
        (post_and_resolve (core_node target (batch_request write target scope) 0) write target s)
    else (
      ok (record { status = failed; http_status = none; error_code = some "unknown_target" }),
      s,
    )

unfoldable pub retry_found :
    Core → List String → RetryEntry → JsonObject → ℕ → Option JsonObject → M DeliveryStatus
unfolding deliver failed_with pending_with
retry_found core_node clients entry scope now none = do
  resolve entry.record_id entry.target_node
  return (failed_with "spool_missing" none)
retry_found core_node clients entry scope now (some write) =
    if includes clients entry.target_node
    then deliver core_node clients write entry.target_node scope now
    else mark_pending entry.record_id entry.target_node "target_unavailable" now
      >> return (pending_with "target_unavailable" none)

-- `#retryEntry`
unfoldable pub retry_entry : Core → List String → JsonObject → ℕ → RetryEntry → M DeliveryStatus
unfolding retry_found
retry_entry core_node clients scope now entry = do
  write ← read_record entry.record_id
  retry_found core_node clients entry scope now write

unfoldable pub retry_all :
    Core → List String → (String → JsonObject) → ℕ → List RetryEntry → M (List DeliveryStatus)
unfolding retry_entry
retry_all core_node clients scope now [] = return []
retry_all core_node clients scope now (e ∷ es) = do
  status ← retry_entry core_node clients (scope e.target_node) now e
  statuses ← retry_all core_node clients scope now es
  return (status ∷ statuses)

-- `#drain`, with the targets and the limit already checked.
unfoldable pub drain :
    Core
    → List String
    → (String → JsonObject)
    → Option (List String)
    → ℕ
    → Bool
    → ℕ
    → M (List DeliveryStatus × ℕ)
unfolding retry_all
drain core_node clients scope targets limit force now = do
  es ← list targets limit force now
  statuses ← retry_all core_node clients scope now es
  remaining ← count
  return (statuses, remaining)

unfoldable pub deliver_all :
    Core
    → List String
    → (String → JsonObject)
    → ℕ
    → JsonObject
    → List String
    → M (List DeliveryStatus)
unfolding deliver
deliver_all core_node clients scope now write [] = return []
deliver_all core_node clients scope now write (t ∷ ts) = do
  status ← deliver core_node clients write t (scope t) now
  statuses ← deliver_all core_node clients scope now write ts
  return (status ∷ statuses)

-- memoryRecord, from the stored write on.
unfoldable pub submit :
    Core
    → List String
    → (String → JsonObject)
    → ℕ
    → JsonObject
    → List String
    → M (List DeliveryStatus)
unfolding deliver_all
submit core_node clients scope now write targets = do
  queued ← enqueue_record write targets now
  deliver_all core_node clients scope now queued targets
