-- ===== src/Database/Tests.antt =====
-- Runs of a database, and the theorems about it at concrete inputs.
use ida_mcp_rs.Base.{
  String, refl, true, false, Option, none, some, List, [], ◌∷◌, ◌⊎◌, ◌≡◌, any, ℕ, arith,
}
use ida_mcp_rs.Error.{ToolError, cancelled}
use ida_mcp_rs.Pool.Data.{ok, err}
use ida_mcp_rs.Database.{PooledDatabaseLease, WorkspaceDatabase, new, is_lease, lease_for_open}
use ida_mcp_rs.Database.CloseToken.{denied, owned_by}
use ida_mcp_rs.Database.Closing.{close, close_authorized, issue_close_token}
use ida_mcp_rs.Remote.{Reply}
use ida_mcp_rs.Database.Dispatch.{
  finish_debug_start, finish_debug_stop, debug_start_retains_session, lost_before_pinning,
}
use ida_mcp_rs.Database.Steps.{
  Call, opens, closes, issues_token, starts_debugger, stops_debugger, step, run,
}
use ida_mcp_rs.Database.Changes.{may_pin}
use ida_mcp_rs.Database.Stale.{Refuses, run-Refuses}
use ida_mcp_rs.Database.Ownership.{close_authorized-run, token_of}
use ida_mcp_rs.Database.Debugger.{pinned-run, finish_debug_start-held}

abbrev describe : ToolError → String
describe _ = "the worker is gone"

-- Worker 4 under lease 7, the first generation.
abbrev opening : List Call
opening = opens false (ok (4, 7)) ∷ []

abbrev first_lease : PooledDatabaseLease
first_lease = record {
  worker_id = 4;
  lease_id = 7;
  generation = 1;
  close_token = none;
  debug_pinned = false;
}

abbrev reopening : List Call
reopening = opens false (ok (5, 8)) ∷ issues_token "a" 2 "t" ∷ []

run-Refuses_example :
    Refuses 1 (run describe reopening (step describe (closes none) (run describe opening new)))
unfolding run lease_for_open close
run-Refuses_example =
    run-Refuses describe opening reopening (closes none) first_lease new refl refl refl

abbrev owned_lease : PooledDatabaseLease
owned_lease = record first_lease {
  close_token = some (record { token = "t"; owner_session_id = "a" });
}

abbrev owned : WorkspaceDatabase
owned = record { handle = some owned_lease; last_generation = 1; shared_http = true }

-- The second session asks for a token and the owner stops a debugger.
abbrev asking : List Call
asking = issues_token "b" 1 "u" ∷ stops_debugger none (err (cancelled "stopped")) ∷ []

close_authorized-run_example :
    let q = run describe asking owned in
    (close_authorized "b" (some "u") false none q ≡ (q, ok (denied "a")))
    × ((issue_close_token "b" 1 "v" q).1 ≡ some (owned_by "a"))
    × (token_of (issue_close_token "b" 1 "v" q).0.handle
        ≡ some (record { token = "t"; owner_session_id = "a" }))
unfolding run finish_debug_stop issue_close_token
close_authorized-run_example =
    close_authorized-run describe asking owned owned_lease owned_lease
      (record { token = "t"; owner_session_id = "a" }) "b" "v" (some "u") none refl refl
      (omega arith) refl refl refl refl

abbrev started : Reply
started = record { crash = none; reported = none; opened = none; session_retained = true }

abbrev debugging : List Call
debugging = opens false (ok (4, 7)) ∷ starts_debugger "debug_launch" (some (4, 1)) (ok started) ∷ []

pinned-run_example : any (λ c. may_pin c 4 1) debugging ≡ true
unfolding run finish_debug_start lease_for_open
pinned-run_example =
    pinned-run describe debugging new (record first_lease { debug_pinned = true }) refl refl refl

abbrev served : Option (ℕ × ℕ)
served = some (4, 1)

-- The worker of the first generation has been replaced when the start returns.
finish_debug_start-held_example :
    let (q, outcome) =
      finish_debug_start "debug_launch" served
        (ok started)
        (run describe (opens false (ok (5, 8)) ∷ []) (run describe opening new)) in
    (outcome ≡ err (lost_before_pinning "debug_launch"))
    ⊎ ((w : ℕ) × (g : ℕ) × (lease : PooledDatabaseLease) × (served ≡ some (w, g))
        × (q.handle ≡ some lease)
        × (is_lease w g lease ≡ true)
        × (lease.debug_pinned ≡ true)
        × (outcome ≡ ok started))
unfolding debug_start_retains_session
finish_debug_start-held_example =
    finish_debug_start-held "debug_launch" served (ok started)
      (run describe (opens false (ok (5, 8)) ∷ []) (run describe opening new)) refl
