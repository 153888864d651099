-- ===== src/Call/Tests.antt =====
-- Calls of a worker's tool, and the theorems about them at concrete inputs.
use ida_mcp_rs.Base.{ℕ, ◌+◌, ◌≤◌, String, ◌≡◌, refl, true, false, none, some, arith}
use ida_mcp_rs.Error.{ToolError, busy, is_never_dispatched}
use ida_mcp_rs.Pool.Data.{ok, err, PooledChild, blank, leased}
use ida_mcp_rs.Remote.{CallToolResult}
use ida_mcp_rs.Database.{
  PooledDatabaseLease, WorkspaceDatabase, OpenHandle, new, has_generation, lease_for_open,
}
use ida_mcp_rs.Database.Dispatch.{begin_call, settle_call}
use ida_mcp_rs.Call.{PooledWorkerHandle, OpenDispatch, served, sent_off, drop_retire_guard}
use ida_mcp_rs.Call.Whole.{
  Course, gate_taken, call_tool, handle_of, dispatch_result_observed, open_observed_with_generation,
}
use ida_mcp_rs.Call.Retired.{holds, dispatch-retired, dispatch-drop_retire_guard, open-retired}
use ida_mcp_rs.Call.Transaction.{IsTransaction, call_tool-never_dispatched, call_tool-IsTransaction}
use ida_mcp_rs.Call.Queue.{Queue, move, enters, leaves, none_yet, then_moves, Moves-capacity}
use ida_mcp_rs.Call.Deadline.{debugger_response_timeout_secs, worker_op_timeout, close_rpc_timeout}

abbrev describe : ToolError → String
describe _ = "it failed"

abbrev say : ℕ → String
say _ = "n"

abbrev lower : String → String
lower s = s

-- Worker 4 under lease 7 of session a.
abbrev slot : PooledChild
slot = record blank { state = leased "a" 7; has_service = true; idb_path = some "/tmp/old.i64" }

abbrev lease : PooledDatabaseLease
lease = record {
  worker_id = 4;
  lease_id = 7;
  generation = 1;
  close_token = none;
  debug_pinned = false;
}

abbrev db : WorkspaceDatabase
db = record new { handle = some lease; last_generation = 1 }

-- The worker does not answer in time.
abbrev silent : Course
silent = record {
  queued = 0;
  gate = gate_taken;
  shutting_down = false;
  seconds = 130;
  wait = served sent_off;
  left = 129;
  shown = record { cancelled_running = false; answer = none };
  between = λ d. d;
  transport_closed = false;
}

dispatch-retired_example :
    holds 4 1
      (dispatch_result_observed describe say lower none none "a" "decompile" silent
        (λ d. d)
        db
        slot).0.handle
    ≡ false
unfolding begin_call dispatch_result_observed
dispatch-retired_example =
    dispatch-retired describe say lower none none "a" "decompile" silent (λ d. d) db slot lease refl
      (λ d held. held) refl refl

-- The call before was dropped, so its guard has retired the worker; the database still has the lease.
dispatch-drop_retire_guard_example :
    let c = (drop_retire_guard true true 7 slot).0 in
    let q =
      dispatch_result_observed describe say lower none none "a" "decompile" silent (λ d. d) db c in
    (holds 4 1 q.0.handle ≡ false) × (q.1.0 ≡ c)
unfolding begin_call
dispatch-drop_retire_guard_example =
    dispatch-drop_retire_guard describe say lower none none "a" "decompile" silent (λ d. d) db slot
      lease sent_off refl refl refl refl refl

abbrev dispatch : OpenDispatch
dispatch = record { database_path = "/tmp/new.i64"; artifacts = some 1 }

abbrev opened_handle : OpenHandle
opened_handle = record { worker_id = 4; lease_id = 7; generation = 1; fresh = false }

open-retired_example :
    has_generation 1
      (open_observed_with_generation describe say lower true
        (ok (4, 7))
        none
        "a"
        "no path"
        dispatch
        silent
        (λ d. d)
        db
        slot).0.handle
    ≡ false
unfolding lease_for_open open_observed_with_generation
open-retired_example =
    open-retired describe say lower true (ok (4, 7)) none "a" "no path" dispatch silent (λ d. d) db
      slot opened_handle refl (λ d held. held) refl refl

abbrev handle : PooledWorkerHandle
handle = handle_of "a" db 4 7

abbrev crowded : Course
crowded = record silent { queued = 64 }

call_tool-never_dispatched_example :
    ((call_tool describe say lower handle "decompile" none crowded slot).0 ≡ slot)
    × (settle_call describe "decompile" 4 1 (err busy) db ≡ (db, (err busy, false)))
unfolding call_tool is_never_dispatched
call_tool-never_dispatched_example =
    call_tool-never_dispatched describe say lower handle "decompile" none crowded slot db 1 busy
      refl refl

-- The worker reports that the file cannot be opened.
abbrev reports : CallToolResult
reports = record {
  marked = false;
  is_error = true;
  text = some "cannot open";
  opened = none;
  session_retained = false;
}

abbrev failing : Course
failing = record silent { shown = record { cancelled_running = false; answer = some (ok reports) } }

call_tool-IsTransaction_example :
    IsTransaction handle slot
      (call_tool describe say lower handle "open_idb" (some dispatch) failing slot)
call_tool-IsTransaction_example =
    call_tool-IsTransaction describe say lower handle "open_idb" dispatch failing slot

abbrev one_left : Queue
one_left =
    move leaves (move enters (move enters (record { queued = 0; admitted = 0; refusing = 0 })))

Moves-capacity_example :
    (one_left.admitted ≤ 64) × (one_left.queued ≡ one_left.admitted + one_left.refusing)
unfolding move
Moves-capacity_example =
    Moves-capacity 3 one_left (omega arith)
      (then_moves (then_moves (then_moves none_yet enters tt) enters tt) leaves (omega arith))

debugger_deadline_test : worker_op_timeout 3600 (some (debugger_response_timeout_secs 120)) ≡ 135
unfolding worker_op_timeout debugger_response_timeout_secs
debugger_deadline_test = refl

close_deadline_test : close_rpc_timeout 8 ≡ 20
unfolding close_rpc_timeout
close_deadline_test = refl
