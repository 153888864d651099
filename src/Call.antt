-- ===== src/Call.antt =====
-- `PooledWorkerHandle` of src/ida/pool.rs: one call of a worker's tool, on the slot of the worker. The
-- child's mutex is held during the admission and again at the end; what other tasks do to the slot in
-- between is an argument, and so is what each wait of the call shows.
pub mod Queue
pub mod Whole
pub mod Deadline
pub mod Transaction
pub mod Loss
pub mod Retired
mod Tests
use Prim.Native.String.{◌++◌}
use ida_mcp_rs.Base.{
  ℕ, String, Bool, true, false, ◌&&◌, ◌||◌, not, Option, none, some, if◌then◌else◌, ◌==◌, str_eq,
}
use ida_mcp_rs.Error.{
  ToolError, worker_crashed, worker_retired, database_replaced, never_dispatched, remote_protocol,
  is_never_dispatched, child_tool_error_retires_worker, unsettled_open_error_retires_worker,
}
use ida_mcp_rs.Pool.Data.{
  Result, ok, err, ChildState, idle, leased, closing, dead, is_dead, belongs_to_lease, PooledChild,
}
use ida_mcp_rs.Pool.Spawn.{DeadWorker, take_dead_worker_locked}
use ida_mcp_rs.Remote.{CallToolResult, Reply, read_reply}
use ida_mcp_rs.Database.Dispatch.{is_remote_call}

pub record PooledWorkerHandle : Type 0 where
  pub worker_id : ℕ
  pub lease_id : ℕ
  pub session_id : String
  pub preserve_on_cancel : Bool

-- Artifacts are named by a number, as in `PooledChild`.
pub record OpenDispatch : Type 0 where
  pub database_path : String
  pub artifacts : Option ℕ

-- How `remote::dispatch_tool` ends. The texts are those of its errors.
pub data Sent : Type 0 where
  sent_off : Sent
  unsendable : String → Sent
  send_failed : String → Sent

abbrev pub dispatch_tool : Sent → Result (Unit {0})
dispatch_tool sent_off = ok tt
dispatch_tool (unsendable message) = err (never_dispatched message)
dispatch_tool (send_failed message) = err (remote_protocol message)

-- How the wait for the worker ends: first the cancellation, the shutdown, the drain and the deadline,
-- then the admission, with how the request is sent.
pub data Wait : Type 0 where
  cancelled_waiting : Wait
  shut_down : Wait
  drained : Wait
  timed_out : Wait
  served : Sent → Wait

-- How the wait for the reply ends: whether the cancellation comes first, and the reply unless the
-- time runs out.
pub record Shown : Type 0 where
  pub cancelled_running : Bool
  pub answer : Option (Result CallToolResult)

pub record Admitted : Type 0 where
  pub sent : Result (Unit {0})
  pub previous_idb_path : Option String

pub data Response : Type 0 where
  retires : ToolError → Response
  settles : Result Reply → Response

-- `mark_dead_for_lease` on the slot.
unfoldable pub retire : ℕ → PooledChild → PooledChild × Option DeadWorker
unfolding take_dead_worker_locked
retire lease c =
    if not (belongs_to_lease c.state lease)
    then (c, none)
    else let (d, taken) = take_dead_worker_locked c in (d, some taken)

-- `WorkerRetireGuard` as it is dropped: a call whose future goes away before its end has an armed
-- guard. Outside a runtime, where nothing can be spawned, the slot stays as it is.
unfoldable pub drop_retire_guard : Bool → Bool → ℕ → PooledChild → PooledChild × Option DeadWorker
unfolding retire
drop_retire_guard armed in_runtime lease c =
    if armed && in_runtime then retire lease c else (c, none)

-- The error for a slot that no longer serves the handle.
unfoldable pub lease_refusal : String → PooledWorkerHandle → ChildState → Option ToolError
lease_refusal tool h idle = some database_replaced
lease_refusal tool h (closing lease) = some database_replaced
lease_refusal tool h dead = some (worker_crashed h.worker_id tool)
lease_refusal tool h (leased session lease) =
    if str_eq session h.session_id && lease == h.lease_id then none else some database_replaced

-- The intent of an open, with the path that stood there before.
abbrev pub publish_open : Option OpenDispatch → PooledChild → PooledChild × Option String
publish_open none c = (c, none)
publish_open (some o) c =
    (record c { idb_path = some o.database_path; pending_open_artifacts = o.artifacts }, c.idb_path)

unfoldable pub dispatch_sent :
    Option OpenDispatch → Result (Unit {0}) → PooledChild → PooledChild × Result Admitted
dispatch_sent opening (ok u) c =
    let (q, previous) = publish_open opening c in
    (q, ok (record { sent = ok u; previous_idb_path = previous }))
dispatch_sent opening (err e) c =
    if is_never_dispatched e
    then (c, err e)
    else (c, ok (record { sent = err e; previous_idb_path = none }))

-- `describe` and `say` are how an error and a number read.
module _ (describe : ToolError → String) (say : ℕ → String)
    (to_ascii_lowercase : String → String) where
  -- `seconds` is the deadline of the admission.
  unfoldable pub admit :
      PooledWorkerHandle
      → String
      → ℕ
      → Wait
      → Option OpenDispatch
      → PooledChild
      → PooledChild × Result Admitted
  unfolding lease_refusal dispatch_sent
  admit h tool seconds cancelled_waiting opening c = (
    c,
    err (
        never_dispatched (
          "cancelled " ++ tool
          ++ " before dispatch to the IDA worker; the worker and its database are unaffected")),
  )
  admit h tool seconds shut_down opening c = (
    c,
    err (never_dispatched (tool ++ " was not dispatched because the server is shutting down")),
  )
  admit h tool seconds drained opening c = (
    c,
    err (never_dispatched (tool ++ " was not dispatched because the server is shutting down")),
  )
  admit h tool seconds timed_out opening c = (
    c,
    err (
        never_dispatched (
          tool
          ++ " timed out after "
          ++ say seconds
          ++ " seconds waiting for the IDA worker, which is still busy; the worker and its database are unaffected, retry once that call finishes")),
  )
  admit h tool seconds (served sent) opening c = elim (lease_refusal tool h c.state) [
    | some e ↦ (c, err e)
    | none ↦ dispatch_sent opening (dispatch_tool sent) c
  ]

  -- The error in a reply that retires the worker.
  unfoldable pub reply_failure : Bool → String → Reply → Option ToolError
  reply_failure tracks_open tool reply = elim reply.crash [
    | some e ↦ some e
    | none ↦ elim reply.reported [
      | none ↦ none
      | some e ↦
          if (tracks_open && unsettled_open_error_retires_worker e)
            || child_tool_error_retires_worker tool e
          then some e
          else none
    ]
  ]

  abbrev pub answered : PooledWorkerHandle → Bool → String → Result CallToolResult → Response
  answered h tracks_open tool (err e) =
      if is_remote_call e
      then settles (err e)
      else retires (worker_crashed h.worker_id (tool ++ ": " ++ describe e))
  answered h tracks_open tool (ok result) =
      elim (reply_failure tracks_open tool (read_reply to_ascii_lowercase tool result)) [
        | some e ↦ retires e
        | none ↦ settles (ok (read_reply to_ascii_lowercase tool result))
      ]

  -- A request that was not sent has its error for an answer at once.
  abbrev pub answer_of :
      Result (Unit {0}) → Option (Result CallToolResult) → Option (Result CallToolResult)
  answer_of (ok u) answer = answer
  answer_of (err e) answer = some (err e)

  -- `seconds` is what is left of the deadline.
  unfoldable pub await_response :
      PooledWorkerHandle → Bool → String → ℕ → Shown → Result (Unit {0}) → Response
  unfolding reply_failure
  await_response h tracks_open tool seconds shown sent =
      if shown.cancelled_running && not h.preserve_on_cancel
      then retires (
          worker_retired (
            "cancelled "
            ++ tool
            ++ "; killed worker "
            ++ say h.worker_id
            ++ ". The database it held is no longer open and changes since the last save_idb are lost; call open_idb again"))
      else (elim (answer_of sent shown.answer) [
        | some answer ↦ answered h tracks_open tool answer
        | none ↦ retires (
            worker_retired (
              tool
              ++ " exceeded worker operation timeout of "
              ++ say seconds
              ++ " seconds; killed worker "
              ++ say h.worker_id
              ++ ". The database it held is no longer open and changes since the last save_idb are lost; call open_idb again"))
      ])

-- The path after an open that was answered.
abbrev pub settled_path : Option String → Option String → Result Reply → Option String
settled_path previous current (err e) = previous
settled_path previous current (ok reply) = elim reply.reported [
  | some e ↦ previous
  | none ↦ (elim reply.opened [ none ↦ current | some path ↦ some path ])
]

-- The end of a call that tracks an open, on the slot as it is by then.
unfoldable pub settle_open :
    PooledWorkerHandle
    → String
    → Bool
    → Option String
    → Result Reply
    → PooledChild
    → PooledChild × Result Reply
unfolding retire
settle_open h tool transport_closed previous result c =
    if is_dead c.state || transport_closed
    then ((retire h.lease_id c).0, err (worker_crashed h.worker_id tool))
    else if not (belongs_to_lease c.state h.lease_id)
    then (c, err database_replaced)
    else (
      record c {
        pending_open_artifacts = none;
        idb_path = settled_path previous c.idb_path result;
      },
      result,
    )

unfoldable pub finish :
    PooledWorkerHandle
    → String
    → Bool
    → Bool
    → Option String
    → Response
    → PooledChild
    → PooledChild × Result Reply
unfolding retire settle_open
finish h tool tracks_open transport_closed previous (retires e) c = ((retire h.lease_id c).0, err e)
finish h tool tracks_open transport_closed previous (settles result) c =
    if tracks_open then settle_open h tool transport_closed previous result c else (c, result)
