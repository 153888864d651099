-- ===== src/Error/Classes.antt =====
-- How the classifications of errors in src/error.rs and src/ida/pool.rs fit together.
use ida_mcp_rs.Base.{String, ◌≡◌, ◌≢◌, refl, Bool, true, false, ◌||◌, arith}
use ida_mcp_rs.Error.{
  ToolError, no_database_open, debugger_session_lost, is_fatal, is_never_dispatched,
  release_error_retires_worker, child_tool_error_retires_worker,
  unsettled_open_error_retires_worker, open_error_releases_lease,
}

-- An error of a call that was never dispatched touches nothing: it is not fatal, it retires no worker
-- on a release, a tool call or an open, and no open releases its lease for it, not even a fresh one.
pub never_dispatched_harmless :
    (e : ToolError) (tool : String) (fresh_lease : Bool)
    → is_never_dispatched e ≡ true
    → (is_fatal e ≡ false)
      × (release_error_retires_worker e ≡ false)
      × (child_tool_error_retires_worker tool e ≡ false)
      × (unsettled_open_error_retires_worker e ≡ false)
      × (open_error_releases_lease fresh_lease e ≡ false)
unfolding is_fatal is_never_dispatched release_error_retires_worker child_tool_error_retires_worker
    unsettled_open_error_retires_worker open_error_releases_lease
never_dispatched_harmless no_database_open tool fresh_lease h = ground arith
never_dispatched_harmless _ tool fresh_lease h = ground arith

-- A fatal error other than a lost debugger session retires the worker on a release and on every tool
-- call, and makes an open release its lease.
pub fatal_retires :
    (e : ToolError) (tool : String) (fresh_lease : Bool)
    → is_fatal e ≡ true
    → ((s : String) → e ≢ debugger_session_lost s)
    → (release_error_retires_worker e ≡ true)
      × (child_tool_error_retires_worker tool e ≡ true)
      × (open_error_releases_lease fresh_lease e ≡ true)
unfolding is_fatal release_error_retires_worker child_tool_error_retires_worker
    open_error_releases_lease
fatal_retires no_database_open tool fresh_lease h other = ground arith
fatal_retires (debugger_session_lost s) tool fresh_lease h other = absurd (other s refl)
fatal_retires _ tool fresh_lease h other = ground arith

-- What retires a worker during a tool call or an open also retires it on release.
pub release_retires_most :
    (e : ToolError) (tool : String)
    → (child_tool_error_retires_worker tool e || unsettled_open_error_retires_worker e) ≡ true
    → release_error_retires_worker e ≡ true
unfolding release_error_retires_worker child_tool_error_retires_worker
    unsettled_open_error_retires_worker
release_retires_most no_database_open tool h = ground arith
release_retires_most _ tool h = ground arith
