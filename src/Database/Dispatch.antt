-- ===== src/Database/Dispatch.antt =====
-- A call of a child's tool through a database in src/ida/pool.rs: `dispatch_result_observed`, before
-- and after `PooledWorkerHandle::call_tool`, and the debugger's start and stop on top of it. Between
-- the parts other calls may act on the database. How an error reads is an argument, `describe`.
use Prim.Native.String.{◌++◌}
use ida_mcp_rs.Base.{
  ℕ, String, Bool, true, false, ◌&&◌, ◌||◌, not, Option, none, some, if◌then◌else◌, str_eq,
}
use ida_mcp_rs.Error.{
  ToolError, timeout, timeout_detailed, worker_retired, remote_call, debugger_start_retained,
  debugger_session_lost, is_never_dispatched, child_tool_error_retires_worker,
}
use ida_mcp_rs.Pool.Data.{Result, ok, err}
use ida_mcp_rs.Remote.{Reply}
use ida_mcp_rs.Database.{
  PooledDatabaseLease, WorkspaceDatabase, required_handle_for_generation, clear_handle_if_lease,
  set_debug_pin_for_lease,
}

abbrev pub starts_debugger : String → Bool
starts_debugger tool = str_eq tool "debug_launch" || str_eq tool "debug_attach"

abbrev pub may_have_started : ToolError → Bool
may_have_started (timeout seconds) = true
may_have_started (timeout_detailed message) = true
may_have_started (worker_retired message) = true
may_have_started _ = false

abbrev pub is_remote_call : ToolError → Bool
is_remote_call (remote_call code message) = true
is_remote_call _ = false

module _ (describe : ToolError → String) where
  unfoldable pub debugger_worker_loss_error : String → ToolError → Bool → ToolError
  debugger_worker_loss_error tool error debug_pinned =
      let uncertain_start = starts_debugger tool && may_have_started error in
      if not debug_pinned && not uncertain_start
      then error
      else if uncertain_start && not debug_pinned
      then debugger_session_lost (
          tool
          ++ " timed out and its worker was retired ("
          ++ describe error
          ++ "); ida-mcp cannot determine whether the debugger started before the timeout, and the target process may still be running — check for a stray debuggee before retrying "
          ++ tool)
      else debugger_session_lost (
          tool
          ++ " lost the worker hosting this database's debugger session ("
          ++ describe error
          ++ "); ida-mcp no longer controls that session and the target process may still be running — check for a stray debuggee, then reopen the database to start a new session")

  -- The worker is lost: its lease is cleared, if it is still the current one.
  unfoldable pub lose_worker :
      String → ℕ → ℕ → ToolError → WorkspaceDatabase → WorkspaceDatabase × Result Reply
  unfolding debugger_worker_loss_error clear_handle_if_lease
  lose_worker tool worker_id generation e db =
      let (q, debug_pinned) = clear_handle_if_lease worker_id generation db in
      (q, err (debugger_worker_loss_error tool e debug_pinned))

  -- What follows the call, from its outcome. The last part of the result says whether the slot is
  -- marked dead here.
  unfoldable pub settle_call :
      String → ℕ → ℕ → Result Reply → WorkspaceDatabase → WorkspaceDatabase × (Result Reply × Bool)
  unfolding lose_worker is_never_dispatched child_tool_error_retires_worker
  settle_call tool worker_id generation (ok reply) db = elim reply.reported [
    | none ↦ (db, (ok reply, false))
    | some e ↦
        if child_tool_error_retires_worker tool e
        then (let (q, result) = lose_worker tool worker_id generation e db in (q, (result, true)))
        else (db, (err e, false))
  ]
  settle_call tool worker_id generation (err e) db =
      if is_never_dispatched e || is_remote_call e
      then (db, (err e, false))
      else let (q, result) = lose_worker tool worker_id generation e db in (q, (result, false))

-- The first part: the handle to call, or the error that ends the call. `args_error` is the error of
-- `remote::json_object`.
unfoldable pub begin_call :
    Option ℕ → Option ToolError → WorkspaceDatabase → Result PooledDatabaseLease
unfolding required_handle_for_generation
begin_call expected_generation none db = required_handle_for_generation expected_generation db
begin_call expected_generation (some e) db =
    elim (required_handle_for_generation expected_generation db) [
      | err refused ↦ err refused
      | ok lease ↦ err e
    ]

unfoldable pub debug_start_retains_session : Result Reply → Bool
debug_start_retains_session (ok reply) = reply.session_retained
debug_start_retains_session (err (debugger_start_retained message)) = true
debug_start_retains_session (err _) = false

abbrev pub lost_before_pinning : String → ToolError
lost_before_pinning tool = debugger_session_lost (
    tool
    ++ " started a debugger session, but its worker was lost before the session could be tracked; ida-mcp no longer controls that session and the target process may still be running — check for a stray debuggee before retrying "
    ++ tool)

-- The pin on the worker and the generation that served the call, if it was dispatched at all.
unfoldable pub pin_dispatched : Option (ℕ × ℕ) → Bool → WorkspaceDatabase → WorkspaceDatabase × Bool
unfolding set_debug_pin_for_lease
pin_dispatched none pinned db = (db, false)
pin_dispatched (some (worker_id, generation)) pinned db =
    set_debug_pin_for_lease worker_id generation pinned db

-- What `debug_start` does with the result of its call.
unfoldable pub finish_debug_start :
    String → Option (ℕ × ℕ) → Result Reply → WorkspaceDatabase → WorkspaceDatabase × Result Reply
unfolding debug_start_retains_session pin_dispatched
finish_debug_start tool served result db =
    if debug_start_retains_session result
    then (let (q, pinned) = pin_dispatched served true db in
        (q, if pinned then result else err (lost_before_pinning tool)))
    else (db, result)

abbrev pub is_ok {ℓ} : {A : Type ℓ} → Result A → Bool
is_ok (ok a) = true
is_ok (err e) = false

-- What `debug_stop` does with the result of its call.
unfoldable pub finish_debug_stop :
    Option (ℕ × ℕ) → Result Reply → WorkspaceDatabase → WorkspaceDatabase × Result Reply
unfolding pin_dispatched
finish_debug_stop served result db =
    if is_ok result then ((pin_dispatched served false db).0, result) else (db, result)
