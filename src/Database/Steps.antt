-- ===== src/Database/Steps.antt =====
-- The methods that change a database of src/ida/pool.rs as one step function over their calls. Any
-- task may make the next call.
use ida_mcp_rs.Base.{ℕ, String, Bool, Option, List, [], ◌∷◌}
use ida_mcp_rs.Error.{ToolError}
use ida_mcp_rs.Pool.Data.{Result}
use ida_mcp_rs.Database.{WorkspaceDatabase, Probe, lease_reap_decision, lease_for_open}
use ida_mcp_rs.Database.Closing.{close, issue_close_token, close_authorized, close_if_generation}
use ida_mcp_rs.Remote.{Reply}
use ida_mcp_rs.Database.Dispatch.{settle_call, finish_debug_start, finish_debug_stop}

pub data Call : Type 0 where
  opens : Bool → Result (ℕ × ℕ) → Call
  closes : Option ToolError → Call
  closes_authorized : String → Option String → Bool → Option ToolError → Call
  closes_generation : ℕ → Option ToolError → Call
  issues_token : String → ℕ → String → Call
  settles_call : String → ℕ → ℕ → Result Reply → Call
  starts_debugger : String → Option (ℕ × ℕ) → Result Reply → Call
  stops_debugger : Option (ℕ × ℕ) → Result Reply → Call
  probes : Probe → Call

module _ (describe : ToolError → String) where
  unfoldable pub step : Call → WorkspaceDatabase → WorkspaceDatabase
  step (opens serves leased) db = (lease_for_open serves leased db).0
  step (closes released) db = (close released db).0
  step (closes_authorized session_id token force released) db =
      (close_authorized session_id token force released db).0
  step (closes_generation generation released) db = (close_if_generation generation released db).0
  step (issues_token session_id generation token) db =
      (issue_close_token session_id generation token db).0
  step (settles_call tool worker_id generation result) db =
      (settle_call describe tool worker_id generation result db).0
  step (starts_debugger tool served result) db = (finish_debug_start tool served result db).0
  step (stops_debugger served result) db = (finish_debug_stop served result db).0
  step (probes p) db = (lease_reap_decision p db).0

  unfoldable pub run : List Call → WorkspaceDatabase → WorkspaceDatabase
  unfolding step
  run [] db = db
  run (c ∷ calls) db = run calls (step c db)
