-- ===== src/Operation/Tests.antt =====
-- The theorems on the history of operations at concrete calls.
use ida_mcp_rs.Base.{◌≡◌, ◌≢◌, refl, none, some, List, [], ◌∷◌, take, map, ◌++◌}
use ida_mcp_rs.Base.Assoc.{lookup, insert, remove}
use ida_mcp_rs.Operation.{
  completed, failed, OperationState, Readings, recent, effective_limit, recent_event_cap, start,
  snapshot, record_progress, finish, queued_state, progressed, finished, snapshot_of, push_event,
}
use ida_mcp_rs.Operation.Registry.{
  Call, starts, progresses, finishes, run, step, log_of, IsTracked, recent-run, run-IsTracked,
  finish-once,
}

abbrev readings : Readings
readings = record { now_ms = 1000; at_snapshot = 5000000; at_event = 7000000 }

abbrev calls : List Call
calls =
    progresses "fg-1" "analyzing" "50%" readings
    ∷ starts "fg-1" "open_idb" "sample.i64" 1000000 readings
    ∷ finishes "fg-0" completed "done" readings
    ∷ starts "fg-0" "list_functions" "sample.i64" 1000000 readings
    ∷ []

abbrev under_way : OperationState
under_way =
    progressed "analyzing" "50%" 1000 (queued_state "fg-1" "open_idb" "sample.i64" 1000000 1000)

recent-run_example :
    (recent (some 2) 9000000 (run calls)).recent_events
    ≡ take (effective_limit (some 2)) (take recent_event_cap (log_of calls))
recent-run_example = recent-run (some 2) 9000000 calls

run-IsTracked_example : IsTracked (run calls)
run-IsTracked_example = run-IsTracked calls

phases_newest_first :
    map (λ e. e.phase) (recent (some 3) 9000000 (run calls)).recent_events
    ≡ "analyzing" ∷ "queued" ∷ "completed" ∷ []
unfolding recent run step start finish record_progress finished progressed push_event lookup insert
    remove
phases_newest_first = refl

-- What another operation does after the first has finished.
abbrev later : List Call
later =
    finishes "fg-2" completed "done" readings
    ∷ starts "fg-2" "list_functions" "sample.i64" 1000000 readings
    ∷ []

finish-once_example :
    let done = run (later ++ finishes "fg-1" failed "lost" readings ∷ calls) in
    ((finish "fg-1" failed "lost" readings (run calls)).1
      ≡ some (snapshot_of 5000000 (finished failed "lost" 1000 under_way)))
    × (snapshot "fg-1" 9000000 done ≡ none)
    × (done.active_op_id ≢ some "fg-1")
    × (finish "fg-1" completed "late" readings done ≡ (done, none))
    × (record_progress "fg-1" "late" "late" readings done ≡ (done, none))
unfolding run step start finish record_progress finished progressed push_event lookup insert remove
finish-once_example =
    finish-once later calls "fg-1" under_way failed completed "lost" "late" "late" readings readings
      9000000 refl (refl, (refl, tt))
