-- ===== src/Pool/Retire.antt =====
-- The retirement of workers in src/ida/pool.rs. `mark_dead_inner` is `Spawn.take_dead_worker` and then
-- `Spawn.forget_slot`; `shutdown_all` does both for every slot. These are steps of their own, and so is the
-- replenishment that may follow, `Spawn.schedule_replenishment`.
use ida_mcp_rs.Base.{
  ℕ, ◌+◌, true, not, ◌||◌, Option, none, some, length, count, leb, ltb, if◌then◌else◌,
}
use ida_mcp_rs.Pool.Data.{Pool, is_idle, is_live, belongs_to_lease, set_cell, WorkerPoolConfig}
use ida_mcp_rs.Pool.Spawn.{DeadWorker, take_dead_worker_locked, forget_slot}

-- The first section of `mark_dead_for_lease`, under the child's lock. `Spawn.forget_slot` follows.
unfoldable pub take_worker_of_lease : ℕ → ℕ → Pool → Pool × Option DeadWorker
unfolding take_dead_worker_locked
take_worker_of_lease id lease p =
    if not (belongs_to_lease (p.heap id).state lease)
    then (p, none)
    else let (c, taken) = take_dead_worker_locked (p.heap id) in
      (record p { heap = set_cell id c p.heap }, some taken)

-- The pool's lock is held from the count to the end, so no slot comes or goes and none is leased;
-- each child's lock is held only while it is looked at. A child that another task marks dead after it
-- has been counted makes no difference to what follows, as if it were marked dead after the end, and
-- one that is marked dead before it is counted, as if before the beginning. So the count is read at once.
unfoldable pub take_stale_idle_worker_if_above_min :
    WorkerPoolConfig → ℕ → ℕ → Pool → Pool × Option DeadWorker
unfolding take_dead_worker_locked
take_stale_idle_worker_if_above_min cfg id sleep_started p =
    let live_count = length p.spawning + count (is_live p.heap) p.children in
    if leb live_count cfg.min_workers
    then (p, none)
    else if not (is_idle (p.heap id).state) || ltb sleep_started (p.heap id).last_used
    then (p, none)
    else let (c, taken) = take_dead_worker_locked (p.heap id) in
      (record p { heap = set_cell id c p.heap }, some taken)

-- Two sections, with no other step in between. `Steps.step` has them one by one.
unfoldable pub mark_stale_idle_dead : WorkerPoolConfig → ℕ → ℕ → Pool → Pool × Option DeadWorker
unfolding take_stale_idle_worker_if_above_min forget_slot
mark_stale_idle_dead cfg id sleep_started p =
    let (q, taken) = take_stale_idle_worker_if_above_min cfg id sleep_started p in
    elim taken [ none ↦ (q, none) | some dead ↦ (forget_slot id q, some dead) ]

-- The flag that `begin_shutdown` sets under the pool's lock.
unfoldable pub begin_shutdown : Pool → Pool
begin_shutdown p = record p { shutting_down = true }
