-- ===== src/Call/Deadline.antt =====
-- The deadlines of calls in src/ida/pool.rs and src/ida/worker.rs, in seconds.
use ida_mcp_rs.Base.{ℕ, ◌+◌, ◌-◌, ◌^◌, min, max, Option, none, some}

abbrev pub max_timeout_secs : ℕ
max_timeout_secs = 600

abbrev pub child_timeout_grace_secs : ℕ
child_timeout_grace_secs = 10

abbrev pub debugger_response_grace_secs : ℕ
debugger_response_grace_secs = 5

abbrev pub close_send_timeout_secs : ℕ
close_send_timeout_secs = 5

abbrev pub debugger_teardown_timeout_secs : ℕ
debugger_teardown_timeout_secs = 5

abbrev pub min_child_close_rpc_timeout_secs : ℕ
min_child_close_rpc_timeout_secs =
    close_send_timeout_secs + debugger_teardown_timeout_secs + child_timeout_grace_secs

abbrev pub saturating_add : ℕ → ℕ → ℕ
saturating_add a b = min (a + b) (2 ^ 64 - 1)

unfoldable pub debugger_response_timeout_secs : ℕ → ℕ
debugger_response_timeout_secs timeout_seconds =
    saturating_add timeout_seconds debugger_response_grace_secs

-- `configured` is the operator's limit.
unfoldable pub worker_op_timeout : ℕ → Option ℕ → ℕ
worker_op_timeout configured none = configured
worker_op_timeout configured (some seconds) =
    min (saturating_add (min seconds max_timeout_secs) child_timeout_grace_secs) configured

unfoldable pub close_rpc_timeout : ℕ → ℕ
close_rpc_timeout configured = max configured min_child_close_rpc_timeout_secs
