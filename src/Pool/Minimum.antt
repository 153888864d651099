-- ===== src/Pool/Minimum.antt =====
-- The lower bound of the pool of src/ida/pool.rs and its idle reap.
use ida_mcp_rs.Base.{ℕ, ◌≤◌, arith}
use ida_mcp_rs.Pool.Data.{Pool, set_cell, WorkerPoolConfig}
use ida_mcp_rs.Pool.Spawn.{take_dead_worker_locked, forget_slot}
use ida_mcp_rs.Pool.Retire.{mark_stale_idle_dead, take_stale_idle_worker_if_above_min}
use ida_mcp_rs.Pool.Counting.{count-set_dead_ge, count-without_dead}
use ida_mcp_rs.Pool.Invariant.{Inv, load}

-- An idle reap keeps live and reserved workers at the configured minimum: where they were at it or
-- above, they stay so.
pub reap-minimum :
    (cfg : WorkerPoolConfig) (bound id t : ℕ) (p : Pool)
    → Inv bound p
    → cfg.min_workers ≤ load p
    → cfg.min_workers ≤ load (mark_stale_idle_dead cfg id t p).0
unfolding mark_stale_idle_dead take_stale_idle_worker_if_above_min forget_slot
reap-minimum cfg bound id t p v h =
    let c = (take_dead_worker_locked (p.heap id)).0 in
    ground (
      arith,
      count-set_dead_ge p.heap id c p.children v.distinct,
      count-without_dead (set_cell id c p.heap) id p.children,
    )
