-- ===== src/Task/Entry/Lifecycle.antt =====
-- What the methods of `TaskEntry` do to the lifecycle of one entry.
use ida_mcp_rs.Base.{
  ℕ, String, Bool, true, false, not, ◌||◌, Option, some, ◌≡◌, ◌⊎◌, arith, is_some,
}
use ida_mcp_rs.Task.Data.{TaskStatus, running, completed, failed, cancelled, is_running, TaskEntry}
use ida_mcp_rs.Task.Clock.{Reading}
use ida_mcp_rs.Task.Entry.{
  set_cancel_token, complete, complete_after_fatal_error, fail, fail_after_cleanup_error,
  request_cancel, finish_cancelled, update_message,
}

abbrev pub has_result : TaskStatus → Bool
has_result running = false
has_result completed = true
has_result failed = false
has_result cancelled = false

module _ {V : Type 0} where
  -- How an entry may differ after a method: its identity stays, and a terminal state is final.
  pub record Moves (e f : TaskEntry V) : Type 0 where
    pub same_owner : f.owner ≡ e.owner
    pub same_id : f.state.id ≡ e.state.id
    pub same_key : f.state.key ≡ e.state.key
    pub same_created : f.state.created_at ≡ e.state.created_at
    pub final : (is_running e.state.status ≡ true) ⊎ (f.state ≡ e.state)

  -- A result is there exactly when the status is `completed`, and only a running task has a
  -- cancellation pending.
  pub record IsConsistent (e : TaskEntry V) : Type 0 where
    pub result_iff : is_some e.state.result ≡ has_result e.state.status
    pub pending_runs : (not (is_some e.cancel_requested) || is_running e.state.status) ≡ true

  -- Both at once, for a step from one entry to another.
  pub record IsStep (e f : TaskEntry V) : Type 0 where
    pub moves : Moves e f
    pub keeps : IsConsistent e → IsConsistent f

  pub Moves-refl : (e : TaskEntry V) → Moves e e
  Moves-refl e = ground arith

  pub IsStep-refl : (e : TaskEntry V) → IsStep e e
  IsStep-refl e = record { moves = Moves-refl e; keeps = λ c. c }

  pub set_cancel_token-IsStep : (t : Option ℕ) (e : TaskEntry V) → IsStep e (set_cancel_token t e).0
  unfolding set_cancel_token
  set_cancel_token-IsStep t e = record { moves = ground arith; keeps = λ c. ground arith }

  pub bind-IsStep :
      (d : String) (e : TaskEntry V) → IsStep e (record e { workspace_database_id = some d })
  bind-IsStep d e = record { moves = ground arith; keeps = λ c. ground arith }

  pub update_message-IsStep :
      (r : Reading) (message : String) (e : TaskEntry V) → IsStep e (update_message r message e)
  unfolding update_message
  update_message-IsStep r message e = record { moves = ground arith; keeps = λ c. ground arith }

  pub request_cancel-IsStep :
      (r : Reading) (message : String) (e : TaskEntry V) → IsStep e (request_cancel r message e).0
  unfolding request_cancel
  request_cancel-IsStep r message e = record { moves = ground arith; keeps = λ c. ground arith }

  pub finish_cancelled-IsStep :
      (r : Reading) (message : String) (e : TaskEntry V) → IsStep e (finish_cancelled r message e).0
  unfolding finish_cancelled
  finish_cancelled-IsStep r message e = record { moves = ground arith; keeps = λ c. ground arith }

  pub complete-IsStep : (r : Reading) (v : V) (e : TaskEntry V) → IsStep e (complete r v e).0
  unfolding complete
  complete-IsStep r v e = record { moves = ground arith; keeps = λ c. ground arith }

  pub complete_after_fatal_error-IsStep :
      (r : Reading) (v : V) (e : TaskEntry V) → IsStep e (complete_after_fatal_error r v e).0
  unfolding complete_after_fatal_error
  complete_after_fatal_error-IsStep r v e = record {
    moves = ground arith;
    keeps = λ c. ground arith;
  }

  pub fail-IsStep : (r : Reading) (error : String) (e : TaskEntry V) → IsStep e (fail r error e).0
  unfolding fail
  fail-IsStep r error e = record { moves = ground arith; keeps = λ c. ground arith }

  pub fail_after_cleanup_error-IsStep :
      (r : Reading) (error : String) (e : TaskEntry V)
      → IsStep e (fail_after_cleanup_error r error e).0
  unfolding fail_after_cleanup_error
  fail_after_cleanup_error-IsStep r error e = record {
    moves = ground arith;
    keeps = λ c. ground arith;
  }
