-- ===== src/Call/Whole.antt =====
-- The calls of src/ida/pool.rs from end to end: `PooledWorkerHandle::call_tool` around the slot, and
-- `dispatch_result_observed` and `open_observed_with_generation` around it, on a database and on the slot
-- of its worker.
use Prim.Native.String.{◌++◌}
use ida_mcp_rs.Base.{ℕ, String, Bool, true, false, not, Option, none, some, leb, if◌then◌else◌}
use ida_mcp_rs.Error.{ToolError, busy, never_dispatched, remote_protocol, open_error_releases_lease}
use ida_mcp_rs.Pool.Data.{Result, ok, err, PooledChild}
use ida_mcp_rs.Remote.{Reply}
use ida_mcp_rs.Database.{PooledDatabaseLease, WorkspaceDatabase, OpenHandle, lease_for_open}
use ida_mcp_rs.Database.Closing.{close_if_generation}
use ida_mcp_rs.Database.Dispatch.{begin_call, settle_call}
use ida_mcp_rs.Call.{
  PooledWorkerHandle, OpenDispatch, Wait, Shown, Admitted, retire, admit, await_response, finish,
}

abbrev pub child_queue_capacity : ℕ
child_queue_capacity = 64

-- How a call on a shared database gets the pool's lock.
pub data Gate : Type 0 where
  gate_cancelled : Gate
  gate_timed_out : Gate
  gate_taken : Gate

-- What a call meets on its way: the calls queued before it, the gate and whether the pool shuts down,
-- the deadline, the two waits with what is left of the deadline in between, what others do to the slot,
-- and whether the transport is closed at the end.
pub record Course : Type 0 where
  pub queued : ℕ
  pub gate : Gate
  pub shutting_down : Bool
  pub seconds : ℕ
  pub wait : Wait
  pub left : ℕ
  pub shown : Shown
  pub between : PooledChild → PooledChild
  pub transport_closed : Bool

abbrev pub is_some {ℓ} : {A : Type ℓ} → Option A → Bool
is_some none = false
is_some (some a) = true

abbrev pub handle_of : String → WorkspaceDatabase → ℕ → ℕ → PooledWorkerHandle
handle_of session_id db worker_id lease_id = record {
  worker_id = worker_id;
  lease_id = lease_id;
  session_id = session_id;
  preserve_on_cancel = db.shared_http;
}

-- `remote::parse_json::<DbInfo>`. `unparsed` is how its own error reads.
abbrev pub opened_path : String → Result Reply → Result String
opened_path unparsed (err e) = err e
opened_path unparsed (ok reply) = elim reply.reported [
  | some e ↦ err e
  | none ↦ (elim reply.opened [ none ↦ err (remote_protocol unparsed) | some path ↦ ok path ])
]

module _ (describe : ToolError → String) (say : ℕ → String)
    (to_ascii_lowercase : String → String) where
  -- What follows the admission, in `call_tool_admitted`.
  unfoldable pub after_admission :
      PooledWorkerHandle
      → String
      → Option OpenDispatch
      → Course
      → PooledChild × Result Admitted
      → PooledChild × Result Reply
  unfolding await_response finish
  after_admission h tool opening k (c, err e) = (c, err e)
  after_admission h tool opening k (c, ok a) =
      finish h tool (is_some opening) k.transport_closed a.previous_idb_path
        (await_response describe say to_ascii_lowercase h (is_some opening) tool k.left k.shown
          a.sent)
        (k.between c)

  unfoldable pub call_tool_admitted :
      PooledWorkerHandle
      → String
      → Option OpenDispatch
      → Course
      → PooledChild
      → PooledChild × Result Reply
  unfolding admit after_admission
  call_tool_admitted h tool opening k c =
      after_admission h tool opening k
        (admit describe say to_ascii_lowercase h tool k.seconds k.wait opening c)

  -- The call on a shared database runs as a task of the pool. A panic of that task is left out.
  unfoldable pub call_tool :
      PooledWorkerHandle
      → String
      → Option OpenDispatch
      → Course
      → PooledChild
      → PooledChild × Result Reply
  unfolding call_tool_admitted
  call_tool h tool opening k c =
      if leb child_queue_capacity k.queued
      then (c, err busy)
      else if not h.preserve_on_cancel
      then call_tool_admitted h tool opening k c
      else (elim k.gate [
        | gate_cancelled ↦ (
          c,
          err (never_dispatched ("cancelled " ++ tool ++ " before dispatch to the IDA worker")),
        )
        | gate_timed_out ↦
            (c, err (never_dispatched (tool ++ " timed out waiting for worker admission")))
        | gate_taken ↦
            if k.shutting_down
            then (
              c,
              err (
                  never_dispatched
                    (tool ++ " was not dispatched because the server is shutting down")),
            )
            else call_tool_admitted h tool opening k c
      ])

  -- What follows the call, in `dispatch_result_observed`.
  unfoldable pub after_call :
      String
      → PooledDatabaseLease
      → PooledChild × Result Reply
      → WorkspaceDatabase
      → WorkspaceDatabase × (PooledChild × Result Reply)
  unfolding settle_call retire
  after_call tool lease (d, result) db =
      let (q, (outcome, marks_dead)) =
        settle_call describe tool lease.worker_id lease.generation result db in
      (q, ((if marks_dead then (retire lease.lease_id d).0 else d), outcome))

  -- `others` is what other tasks do to the database during the call.
  unfoldable pub dispatch_result_observed :
      Option ℕ
      → Option ToolError
      → String
      → String
      → Course
      → (WorkspaceDatabase → WorkspaceDatabase)
      → WorkspaceDatabase
      → PooledChild
      → WorkspaceDatabase × (PooledChild × Result Reply)
  unfolding begin_call call_tool after_call
  dispatch_result_observed expected_generation args_error session_id tool k others db c =
      elim (begin_call expected_generation args_error db) [
        | err e ↦ (db, (c, err e))
        | ok lease ↦
            after_call tool lease
              (call_tool (handle_of session_id db lease.worker_id lease.lease_id) tool none k c)
              (others db)
      ]

  -- What follows the call of an open.
  unfoldable pub after_open :
      Option ToolError
      → String
      → OpenHandle
      → PooledChild × Result Reply
      → WorkspaceDatabase
      → WorkspaceDatabase × (PooledChild × Result (String × ℕ))
  unfolding open_error_releases_lease close_if_generation
  after_open released unparsed opening (d, result) db = elim (opened_path unparsed result) [
    | ok path ↦ (db, (d, ok (path, opening.generation)))
    | err e ↦
        if open_error_releases_lease opening.fresh e
        then ((close_if_generation opening.generation released db).0, (d, err e))
        else (db, (d, err e))
  ]

  -- `serves`, `leased` are those of `lease_for_open`, `released` that of `close_if_generation`.
  unfoldable pub open_observed_with_generation :
      Bool
      → Result (ℕ × ℕ)
      → Option ToolError
      → String
      → String
      → OpenDispatch
      → Course
      → (WorkspaceDatabase → WorkspaceDatabase)
      → WorkspaceDatabase
      → PooledChild
      → WorkspaceDatabase × (PooledChild × Result (String × ℕ))
  unfolding lease_for_open call_tool after_open
  open_observed_with_generation serves leased released session_id unparsed dispatch k others db c =
      let (db1, (handle, stale)) = lease_for_open serves leased db in
      elim handle [
        | err e ↦ (db1, (c, err e))
        | ok opening ↦
            after_open released unparsed opening
              (call_tool (handle_of session_id db opening.worker_id opening.lease_id) "open_idb"
                (some dispatch) k c)
              (others db1)
      ]
