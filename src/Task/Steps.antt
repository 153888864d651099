-- ===== src/Task/Steps.antt =====
-- The methods of `TaskRegistry` in src/server/task.rs as one step function over their calls. A call
-- carries what its method takes from outside: the clock readings, the generated id, and what a
-- cancellation token shows.
pub mod Invariant
pub mod Final
use ida_mcp_rs.Base.{ℕ, String, Bool, List, [], ◌∷◌}
use ida_mcp_rs.Base.Assoc.{Assoc}
use ida_mcp_rs.Task.Data.{TaskOwner, TaskEntry}
use ida_mcp_rs.Task.Clock.{Reading}
use ida_mcp_rs.Task.Registry

pub data Call (V : Type 0) : Type 0 where
  creates : TaskOwner → String → String → String → ℕ → Reading → Call V
  sets_cancel_token : String → ℕ → Call V
  binds_workspace_open : String → String → Call V
  asks_workspace_open : String → ℕ → Call V
  gets : String → ℕ → Call V
  gets_for_owner : TaskOwner → String → ℕ → Call V
  updates_message : String → String → Reading → Call V
  completes : String → V → Reading → ℕ → Call V
  completes_with_token : String → V → Bool → String → Reading → ℕ → Call V
  completes_after_fatal_error : String → V → Reading → ℕ → Call V
  completes_or_defers : String → V → Bool → Reading → ℕ → Call V
  fails : String → String → Reading → ℕ → Call V
  fails_after_cleanup_error : String → String → Reading → ℕ → Call V
  cancels_for_owner : TaskOwner → String → Reading → ℕ → Call V
  finishes_cancelled : String → String → Reading → ℕ → Call V
  cancels_all_running : String → (String → Reading) → ℕ → Call V

module _ {V : Type 0} where
  unfoldable pub step : Call V → Assoc (TaskEntry V) → Assoc (TaskEntry V)
  step (creates owner id key message now r) m =
      (Registry.create_keyed owner id key message now r m).0
  step (sets_cancel_token id t) m = (Registry.set_cancel_token id t m).0
  step (binds_workspace_open id d) m = Registry.bind_workspace_open id d m
  step (asks_workspace_open d now) m = (Registry.has_running_workspace_open d now m).0
  step (gets id now) m = (Registry.get id now m).0
  step (gets_for_owner owner id now) m = (Registry.get_for_owner owner id now m).0
  step (updates_message id message r) m = Registry.update_message id message r m
  step (completes id v r now) m = (Registry.complete id v r now m).0
  step (completes_with_token id v c message r now) m =
      (Registry.complete_with_cancel_token id v c message r now m).0
  step (completes_after_fatal_error id v r now) m =
      (Registry.complete_after_fatal_error id v r now m).0
  step (completes_or_defers id v c r now) m =
      (Registry.complete_or_defer_cancellation id v c r now m).0
  step (fails id error r now) m = (Registry.fail id error r now m).0
  step (fails_after_cleanup_error id error r now) m =
      (Registry.fail_after_cleanup_error id error r now m).0
  step (cancels_for_owner owner id r now) m = (Registry.cancel_for_owner owner id r now m).0
  step (finishes_cancelled id message r now) m = (Registry.finish_cancelled id message r now m).0
  step (cancels_all_running message readings now) m =
      (Registry.cancel_all_running message readings now m).0

  unfoldable pub run : List (Call V) → Assoc (TaskEntry V) → Assoc (TaskEntry V)
  run [] m = m
  run (c ∷ cs) m = run cs (step c m)
