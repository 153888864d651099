-- ===== src/Database/Closing.antt =====
-- The ways in which a database gives its worker back, in src/ida/pool.rs. `released` is the error of
-- `WorkerPool::release`, if it fails.
use ida_mcp_rs.Base.{ℕ, String, Bool, not, Option, none, some, if◌then◌else◌}
use ida_mcp_rs.Error.{ToolError, no_database_open}
use ida_mcp_rs.Pool.Data.{Result, ok, err}
use ida_mcp_rs.Database.{PooledDatabaseLease, WorkspaceDatabase, has_generation, take_handle}
use ida_mcp_rs.Database.CloseToken.{
  CloseAuthorization, granted, granted_by_override, denied, Issue, issue_for_session,
  authorize_close,
}

abbrev pub after_release {ℓ} : {A : Type ℓ} → Option ToolError → A → Result A
after_release none a = ok a
after_release (some e) a = err e

-- The results carry the lease that is released.
unfoldable pub close :
    Option ToolError → WorkspaceDatabase → WorkspaceDatabase × Result PooledDatabaseLease
unfolding take_handle
close released db =
    let (q, taken) = take_handle db in
    elim taken [ none ↦ (q, err no_database_open) | some lease ↦ (q, after_release released lease) ]

unfoldable pub issue_close_token :
    String → ℕ → String → WorkspaceDatabase → WorkspaceDatabase × Option Issue
unfolding issue_for_session
issue_close_token session_id generation new_token db = elim db.handle [
  | none ↦ (db, none)
  | some lease ↦
      if not (has_generation generation db.handle)
      then (db, none)
      else let (token, issue) = issue_for_session session_id new_token lease.close_token in
        (record db { handle = some (record lease { close_token = token }) }, some issue)
]

-- A granted close detaches the lease before it is released.
unfoldable pub detach :
    Option ToolError
    → CloseAuthorization
    → WorkspaceDatabase
    → WorkspaceDatabase × Result CloseAuthorization
unfolding take_handle
detach released (denied owner) db = (db, ok (denied owner))
detach released granted db = ((take_handle db).0, after_release released granted)
detach released (granted_by_override owner) db =
    ((take_handle db).0, after_release released (granted_by_override owner))

unfoldable pub close_authorized :
    String
    → Option String
    → Bool
    → Option ToolError
    → WorkspaceDatabase
    → WorkspaceDatabase × Result CloseAuthorization
unfolding authorize_close detach
close_authorized session_id token force released db = elim db.handle [
  | none ↦ (db, err no_database_open)
  | some current ↦ detach released (authorize_close session_id token force current.close_token) db
]

pub data ConditionalCloseResult : Type 0 where
  not_current : ConditionalCloseResult
  closed : ConditionalCloseResult

unfoldable pub close_if_generation :
    ℕ → Option ToolError → WorkspaceDatabase → WorkspaceDatabase × Result ConditionalCloseResult
unfolding take_handle
close_if_generation generation released db =
    if not (has_generation generation db.handle)
    then (db, ok not_current)
    else ((take_handle db).0, after_release released closed)
