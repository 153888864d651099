-- ===== src/Pool/Release.antt =====
-- The return of a worker in src/ida/pool.rs: `release_inner`, before and after the `close_idb` call
-- that it makes.
use Prim.Native.String.{◌++◌}
use ida_mcp_rs.Base.{ℕ, not, Option, none, some, if◌then◌else◌}
use ida_mcp_rs.Error.{ToolError, worker_retired, remote_call, release_error_retires_worker}
use ida_mcp_rs.Pool.Data.{Pool, closing, idle, is_dead, belongs_to_lease, set_cell, Result, ok, err}
use ida_mcp_rs.Pool.Retire.{take_worker_of_lease}

-- The first part: `none` if the slot is no longer under the handle's lease.
unfoldable pub begin_release : ℕ → ℕ → Pool → Option Pool
begin_release id lease p =
    if not (belongs_to_lease (p.heap id).state lease)
    then none
    else some
        (record p { heap = set_cell id (record (p.heap id) { state = closing lease }) p.heap })

abbrev retirement_error : ToolError → ToolError
retirement_error (remote_call code message) = worker_retired (
    "close_idb returned a protocol error (" ++ code ++ ": " ++ message
    ++ "), so its save could not be confirmed. The worker was retired; its database is no longer open and changes since the last save_idb may be lost")
retirement_error e = e

abbrev to_result : Option ToolError → Result (Unit {0})
to_result none = ok tt
to_result (some e) = err e

-- The slot is made idle, unless it died meanwhile.
unfoldable pub reset_idle : ℕ → ℕ → Option ToolError → Pool → Pool × Result (Unit {0})
reset_idle id now close_error p =
    if is_dead (p.heap id).state then (p, to_result close_error) else (
      record p {
        heap =
            set_cell id
              (record (p.heap id) {
                state = idle;
                last_used = now;
                idb_path = none;
                pending_open_artifacts = none;
              })
              p.heap;
      },
      ok tt,
    )

-- The second part, up to the `forget_slot` of a retirement. `close_error` is what `close_idb` came to.
unfoldable pub finish_release : ℕ → ℕ → ℕ → Option ToolError → Pool → Pool × Result (Unit {0})
unfolding take_worker_of_lease reset_idle release_error_retires_worker
finish_release id lease now none p = reset_idle id now none p
finish_release id lease now (some e) p =
    if release_error_retires_worker e
    then ((take_worker_of_lease id lease p).0, err (retirement_error e))
    else reset_idle id now (some e) p
