-- ===== src/Task/Registry/Settlement.antt =====
-- How a task settles whose cancellation was requested, in src/server/task.rs.
use ida_mcp_rs.Base.{ℕ, ◌-◌, ◌<◌, String, Bool, true, false, Option, none, some, ◌≡◌, arith}
use ida_mcp_rs.Base.Assoc.{
  Assoc, lookup, modify, HasDistinctKeys, modify-found, modify-HasDistinctKeys,
}
use ida_mcp_rs.Task.Data.{
  TaskStatus, completed, failed, cancelled, is_running, unchanged, decided_unchanged,
  TaskSettlement, TaskEntry,
}
use ida_mcp_rs.Task.Clock.{Reading, now_with_iso}
use ida_mcp_rs.Task.Retention.{retention, is_kept}
use ida_mcp_rs.Task.Entry
use ida_mcp_rs.Task.Registry.{
  complete, complete_unless_cancelled, complete_with_cancel_token, fail, complete_after_fatal_error,
  fail_after_cleanup_error, complete_or_defer_cancellation, finish_cancelled, settle,
  decide_completion,
}
use ida_mcp_rs.Task.Registry.Parts.{lookup-prune}

module _ {V : Type 0} where
  -- An entry that settles: its token and its pending cancellation are gone.
  abbrev pub settled_as : TaskStatus → String → Option V → Reading → TaskEntry V → TaskEntry V
  settled_as status message result r e = record {
    owner = e.owner;
    state = record {
      id = e.state.id;
      status = status;
      message = message;
      result = result;
      created_at = e.state.created_at;
      updated_at = (now_with_iso r).0;
      created_at_iso = e.state.created_at_iso;
      updated_at_iso = (now_with_iso r).1;
      key = e.state.key;
    };
    workspace_database_id = e.workspace_database_id;
    cancel_token = none;
    cancel_requested = none;
  }

module _ {V : Type 0} (id : String) (e : TaskEntry V) (m : Assoc (TaskEntry V)) where
  settle-found :
      (method : TaskEntry V → TaskEntry V × TaskSettlement) (now : ℕ)
      → HasDistinctKeys m
      → lookup id m ≡ some e
      → ((settle id method now m).1 ≡ (method e).1)
        × (is_kept now (method e).0 ≡ true
            → lookup id (settle id method now m).0 ≡ some (method e).0)
  unfolding settle
  settle-found method now d found = (
    ground (arith, modify-found id method unchanged e m found),
    λ kept. ground (
      arith,
      modify-found id method unchanged e m found,
      modify-HasDistinctKeys id method unchanged m d,
      lookup-prune now id (modify id method unchanged m).0,
    ),
  )

  -- How a running task with a pending cancellation settles, for each way to settle it, as long as
  -- what has settled is within its retention. Success, failure and the end of the cancellation leave
  -- it cancelled, with the message of the request or of the canceller; the deferring completion
  -- leaves it as it is; a fatal error and a failed cleanup take the place of the cancellation.
  pub pending_settlements :
      (message text : String) (v : V) (c : Bool) (r : Reading) (now : ℕ)
      → HasDistinctKeys m
      → lookup id m ≡ some e
      → is_running e.state.status ≡ true
      → e.cancel_requested ≡ some message
      → now - r.instant < retention
      → let as_requested = some (settled_as cancelled message e.state.result r e) in
        let as_told = some (settled_as cancelled text e.state.result r e) in
        (lookup id (complete id v r now m).0 ≡ as_requested)
        × (lookup id (fail id text r now m).0 ≡ as_requested)
        × (lookup id (complete_with_cancel_token id v false text r now m).0 ≡ as_requested)
        × (lookup id (complete_with_cancel_token id v true text r now m).0 ≡ as_told)
        × (lookup id (finish_cancelled id text r now m).0 ≡ as_told)
        × (lookup id (complete_or_defer_cancellation id v c r now m).0 ≡ some e)
        × (lookup id (complete_after_fatal_error id v r now m).0
            ≡ some (settled_as completed "Completed" (some v) r e))
        × (lookup id (fail_after_cleanup_error id text r now m).0
            ≡ some (settled_as failed text e.state.result r e))
  unfolding complete fail complete_with_cancel_token complete_unless_cancelled
      complete_or_defer_cancellation complete_after_fatal_error fail_after_cleanup_error
      finish_cancelled Entry.complete Entry.fail Entry.complete_after_fatal_error
      Entry.fail_after_cleanup_error Entry.finish_cancelled now_with_iso
  pending_settlements message text v c r now d found runs asked soon = (
    ground (arith, settle-found (Entry.complete r v) now d found),
    ground (arith, settle-found (Entry.fail r text) now d found),
    ground (arith, settle-found (complete_unless_cancelled v false text r) now d found),
    ground (arith, settle-found (complete_unless_cancelled v true text r) now d found),
    ground (
      arith,
      modify-found id (Entry.finish_cancelled r text) false e m found,
      modify-HasDistinctKeys id (Entry.finish_cancelled r text) false m d,
      lookup-prune now id (modify id (Entry.finish_cancelled r text) false m).0,
    ),
    ground (arith, modify-found id (decide_completion v c r) decided_unchanged e m found),
    ground (arith, settle-found (Entry.complete_after_fatal_error r v) now d found),
    ground (arith, settle-found (Entry.fail_after_cleanup_error r text) now d found),
  )
