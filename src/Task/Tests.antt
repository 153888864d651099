-- ===== src/Task/Tests.antt =====
-- Runs of the task registry, and the theorems about it at concrete inputs.
use ida_mcp_rs.Base.{
  ℕ, ◌≤◌, ◌<◌, String, true, false, Option, none, some, List, [], ◌∷◌, ◌≡◌, ◌⊎◌, refl, arith, count,
  length, min, max, ◌-◌, eq_iff, ap, zero, suc, ◌+◌,
}
use ida_mcp_rs.Base.Assoc.{Assoc, lookup, modify, remove, retain_values, values, HasDistinctKeys}
use ida_mcp_rs.Task.Data.{
  TaskOwner, session, runtime, running, completed, cancelled, failed, TaskEntry,
  max_task_registry_entries, capacity_exceeded, is_session, owner_eq,
}
use ida_mcp_rs.Task.Clock.{Reading, iso_now, epoch_days_to_ymd}
use ida_mcp_rs.Task.Retention.{reclaim_capacity_for_admission, prune_terminal_tasks}
use ida_mcp_rs.Task.Retention.Removal.{runs}
use ida_mcp_rs.Task.Retention.Reclaim.{
  lookup-reclaim_oldest, reclaim_capacity_for_admission_lem, is_no_older,
}
use ida_mcp_rs.Task.Registry.{
  ok, err, has_key, create_keyed, complete, fail, complete_or_defer_cancellation,
  complete_with_cancel_token, finish_cancelled, complete_after_fatal_error,
  fail_after_cleanup_error, cancel_for_owner, set_cancel_token, get_for_owner,
}
use ida_mcp_rs.Task.Entry
use ida_mcp_rs.Task.Registry
use ida_mcp_rs.Task.Registry.Admission.{created, create_keyed-capacity, create_keyed-AlreadyRunning}
use ida_mcp_rs.Task.Registry.Settlement.{settled_as, pending_settlements}
use ida_mcp_rs.Task.Registry.Cancellation.{cancel-set_cancel_token, foreign_task}
use ida_mcp_rs.Task.Steps.{Call, creates, completes, cancels_for_owner, step, run}
use ida_mcp_rs.Task.Steps.Invariant.{Inv, run-Inv}
use ida_mcp_rs.Task.Steps.Final.{run-final}

abbrev noon : Reading
noon = record { instant = 5000000000; unix_secs = 1700000000 }

iso_now_test : iso_now 1700000000 ≡ "2023-11-14T22:13:20Z"
unfolding iso_now
iso_now_test = refl

leap_day_test : epoch_days_to_ymd 19782 ≡ record { year = 2024; month = 2; day = 29 }
unfolding epoch_days_to_ymd
leap_day_test = refl

abbrev alice : TaskOwner
alice = session "alice"

abbrev entry : String → String → Option String → TaskEntry ℕ
entry id key asked = record {
  owner = alice;
  state = record {
    id = id;
    status = running;
    message = "working";
    result = none;
    created_at = 0;
    updated_at = 0;
    created_at_iso = "";
    updated_at_iso = "";
    key = some key;
  };
  workspace_database_id = none;
  cancel_token = none;
  cancel_requested = asked;
}

abbrev done : String → ℕ → TaskEntry ℕ
done id at = record {
  owner = alice;
  state = record {
    id = id;
    status = completed;
    message = "Completed";
    result = some 7;
    created_at = 0;
    updated_at = at;
    created_at_iso = "";
    updated_at_iso = "";
    key = none;
  };
  workspace_database_id = none;
  cancel_token = none;
  cancel_requested = none;
}

abbrev one_running : Assoc (TaskEntry ℕ)
one_running = ("dsc-1", entry "dsc-1" "k" none) ∷ []

abbrev one_pending : Assoc (TaskEntry ℕ)
one_pending = ("dsc-1", entry "dsc-1" "k" (some "stop")) ∷ []

empty-Inv : Inv {V = ℕ} []
unfolding lookup
empty-Inv = record {
  distinct = tt;
  bounded = omega arith;
  own_id = λ j e h. ground arith;
  consistent = λ j e h. ground arith;
  deduplicated = λ key i j e f hi. ground arith;
}

abbrev calls : List (Call ℕ)
calls =
    creates alice "dsc-1" "k" "start" 0 noon
    ∷ cancels_for_owner alice "dsc-1" noon 6000000000
    ∷ completes "dsc-1" 7 noon 6000000000
    ∷ []

run-Inv_example : Inv (run calls [])
run-Inv_example = run-Inv calls [] empty-Inv

create_keyed-capacity_example :
    (((create_keyed alice "dsc-2" "j" "start" 0 noon one_running).1
        ≡ err (capacity_exceeded max_task_registry_entries))
      × (max_task_registry_entries ≤ count runs (values (prune_terminal_tasks 0 one_running))))
    ⊎ (((create_keyed alice "dsc-2" "j" "start" 0 noon one_running).1 ≡ ok "dsc-2")
        × (count runs (values (prune_terminal_tasks 0 one_running)) < max_task_registry_entries)
        × (lookup "dsc-2" (create_keyed alice "dsc-2" "j" "start" 0 noon one_running).0
            ≡ some (created alice "dsc-2" "j" "start" noon)))
unfolding lookup prune_terminal_tasks retain_values
create_keyed-capacity_example =
    create_keyed-capacity alice "dsc-2" "j" "start" 0 noon one_running (refl, tt) refl

create_keyed-AlreadyRunning_example :
    (is_session alice ≡ true)
    × ((j : String) × (e : TaskEntry ℕ) × (lookup j (prune_terminal_tasks 0 one_running) ≡ some e)
        × (owner_eq e.owner alice ≡ true)
        × (has_key "k" e ≡ true)
        × (e.state.id ≡ "dsc-1"))
unfolding create_keyed prune_terminal_tasks retain_values lookup
create_keyed-AlreadyRunning_example =
    create_keyed-AlreadyRunning alice "dsc-2" "k" "start" 0 noon one_running (refl, tt) "dsc-1" refl

reclaim_capacity_for_admission_lem_example :
    ((max_task_registry_entries ≤ length one_running)
      ⊎ (reclaim_capacity_for_admission one_running ≡ one_running))
    × (length (reclaim_capacity_for_admission one_running)
        ≡ min
            (length one_running)
            (max (max_task_registry_entries - 1) (count runs (values one_running))))
    × ((lookup "dsc-1" (reclaim_capacity_for_admission one_running) ≡ lookup "dsc-1" one_running)
        ⊎ ((lookup "dsc-1" (reclaim_capacity_for_admission one_running) ≡ none)
            × ((e : TaskEntry ℕ) × (lookup "dsc-1" one_running ≡ some e) × (runs e ≡ false))))
unfolding lookup
reclaim_capacity_for_admission_lem_example =
    reclaim_capacity_for_admission_lem "dsc-1" one_running (refl, tt)

pending_settlements_example :
    let pending = entry "dsc-1" "k" (some "stop") in
    (lookup "dsc-1" (complete "dsc-1" 7 noon 6000000000 one_pending).0
      ≡ some (settled_as cancelled "stop" none noon pending))
    × (lookup "dsc-1" (fail "dsc-1" "boom" noon 6000000000 one_pending).0
        ≡ some (settled_as cancelled "stop" none noon pending))
    × (lookup "dsc-1"
          (complete_with_cancel_token "dsc-1" 7 false "boom" noon 6000000000 one_pending).0
        ≡ some (settled_as cancelled "stop" none noon pending))
    × (lookup "dsc-1"
          (complete_with_cancel_token "dsc-1" 7 true "boom" noon 6000000000 one_pending).0
        ≡ some (settled_as cancelled "boom" none noon pending))
    × (lookup "dsc-1" (finish_cancelled "dsc-1" "boom" noon 6000000000 one_pending).0
        ≡ some (settled_as cancelled "boom" none noon pending))
    × (lookup "dsc-1" (complete_or_defer_cancellation "dsc-1" 7 false noon 6000000000 one_pending).0
        ≡ some pending)
    × (lookup "dsc-1" (complete_after_fatal_error "dsc-1" 7 noon 6000000000 one_pending).0
        ≡ some (settled_as completed "Completed" (some 7) noon pending))
    × (lookup "dsc-1" (fail_after_cleanup_error "dsc-1" "boom" noon 6000000000 one_pending).0
        ≡ some (settled_as failed "boom" none noon pending))
unfolding lookup
pending_settlements_example =
    pending_settlements "dsc-1" (entry "dsc-1" "k" (some "stop")) one_pending "stop" "boom" 7 false
      noon 6000000000 (refl, tt) refl refl refl (omega arith)

cancel-set_cancel_token_example :
    ((cancel_for_owner alice "dsc-1" noon 6000000000 (set_cancel_token "dsc-1" 3 one_running).0).1
      ≡ (true, 3 ∷ []))
    × ((set_cancel_token "dsc-1" 3 (cancel_for_owner alice "dsc-1" noon 6000000000 one_running).0).1
        ≡ 3 ∷ [])
unfolding lookup
cancel-set_cancel_token_example =
    cancel-set_cancel_token "dsc-1" (entry "dsc-1" "k" none) one_running alice 3 noon 6000000000
      (refl, tt) refl refl refl refl

foreign_task_example :
    (get_for_owner runtime "dsc-1" 6000000000 one_running
      ≡ get_for_owner runtime "dsc-9" 6000000000 one_running)
    × ((cancel_for_owner runtime "dsc-1" noon 6000000000 one_running).1
        ≡ (cancel_for_owner runtime "dsc-9" noon 6000000000 one_running).1)
    × (lookup "dsc-1" (cancel_for_owner runtime "dsc-1" noon 6000000000 one_running).0
        ≡ lookup "dsc-1" one_running)
unfolding lookup
foreign_task_example =
    foreign_task "dsc-1" (entry "dsc-1" "k" none) one_running runtime "dsc-9" "dsc-1" noon
      6000000000 (refl, tt) refl refl refl

abbrev one_done : Assoc (TaskEntry ℕ)
one_done = ("dsc-1", done "dsc-1" 0) ∷ []

done-Inv : Inv one_done
unfolding lookup
done-Inv = record {
  distinct = (refl, tt);
  bounded = omega arith;
  own_id = λ j e h. ground (arith, eq_iff "dsc-1" j);
  consistent = λ j e h. ground (arith, eq_iff "dsc-1" j);
  deduplicated = λ key i j e f hi hj ki kj. ground (arith, eq_iff "dsc-1" i, eq_iff "dsc-1" j);
}

run-final_example : (done "dsc-1" 0).state ≡ (done "dsc-1" 0).state
unfolding run step lookup modify Registry.complete Entry.complete
run-final_example =
    run-final (completes "dsc-1" 9 noon 0 ∷ []) "dsc-1" (done "dsc-1" 0) (done "dsc-1" 0) one_done
      done-Inv (tt, tt) refl refl refl

-- 256 settled tasks, each with a later time than the one below it.
name : ℕ → String
name zero = ""
name (suc n) = String.◌∷◌ "x" (name n)

settled_tasks : ℕ → Assoc (TaskEntry ℕ)
settled_tasks zero = []
settled_tasks (suc n) = (name n, done (name n) (n + 10)) ∷ settled_tasks n

length_of : String → ℕ
length_of String.[] = 0
length_of (String.◌∷◌ c s) = suc (length_of s)

length_of-name : (n : ℕ) → length_of (name n) ≡ n
unfolding length_of name
length_of-name zero = refl
length_of-name (suc n) = ap suc (length_of-name n)

settled_tasks-absent : (k n : ℕ) → n ≤ k → lookup (name k) (settled_tasks n) ≡ none
unfolding lookup settled_tasks
settled_tasks-absent k zero h = refl
settled_tasks-absent k (suc n) h = ground (
  arith,
  eq_iff (name n) (name k),
  length_of-name n,
  length_of-name k,
  settled_tasks-absent k n (omega arith),
)

settled_tasks-HasDistinctKeys : (n : ℕ) → HasDistinctKeys (settled_tasks n)
unfolding settled_tasks
settled_tasks-HasDistinctKeys zero = tt
settled_tasks-HasDistinctKeys (suc n) =
    (settled_tasks-absent n n (omega arith), settled_tasks-HasDistinctKeys n)

lookup-reclaim_oldest_example :
    (runs (done "" 10) ≡ false)
    × (is_no_older 10 (lookup "xxxxx" (reclaim_capacity_for_admission (settled_tasks 256))) ≡ true)
unfolding settled_tasks name lookup reclaim_capacity_for_admission remove
lookup-reclaim_oldest_example =
    lookup-reclaim_oldest "" "xxxxx" (done "" 10) (settled_tasks 256)
      (settled_tasks-HasDistinctKeys 256) refl refl
