-- ===== src/Pool/Spawn.antt =====
-- Reservations and their settlement in src/ida/pool.rs: `reserve_spawn_slot_locked`, `spawn_slot`,
-- `finish_spawn_reservation`, `discard_uninstalled_slot`, `warm_min`, `schedule_replenishment`.
use ida_mcp_rs.Base.{
  ℕ, zero, suc, ◌+◌, String, Bool, true, false, not, ◌&&◌, Option, none, some, List, [], ◌∷◌, ◌++◌,
  length, ltb, min, if◌then◌else◌,
}
use ida_mcp_rs.Pool.Data.{
  Pool, PooledChild, ChildState, dead, is_dead, idle, set_cell, insert, without, word_values,
  Result, ok, err, WorkerPoolConfig,
}
use ida_mcp_rs.Error.{ToolError, worker_closed, remote_protocol}

-- The guarded id is the reservation.
unfoldable pub reserve_spawn_slot_locked : Pool → Result (ℕ × Pool)
reserve_spawn_slot_locked p =
    if p.shutting_down
    then err worker_closed
    else if ltb (p.next_id + 1) word_values
    then ok
        (p.next_id, record p { next_id = p.next_id + 1; spawning = insert p.next_id p.spawning })
    else err (remote_protocol "worker identifier space exhausted")

-- The slot that `spawn_slot` makes when the child process starts.
unfoldable pub spawn_slot : ℕ → ChildState → ℕ → Pool → Pool
spawn_slot id initial_state now p = record p {
  heap =
      set_cell id
        (record {
          state = initial_state;
          has_service = true;
          last_used = now;
          idb_path = none;
          pending_open_artifacts = none;
        })
        p.heap;
}

-- What is taken from a child when it is marked dead.
pub record DeadWorker : Type 0 where
  pub had_service : Bool
  pub idb_path : Option String
  pub pending_open_artifacts : Option ℕ

unfoldable pub take_dead_worker_locked : PooledChild → PooledChild × DeadWorker
take_dead_worker_locked c = (
  record c { state = dead; has_service = false; idb_path = none; pending_open_artifacts = none },
  record {
    had_service = c.has_service;
    idb_path = c.idb_path;
    pending_open_artifacts = c.pending_open_artifacts;
  },
)

unfoldable pub take_dead_worker : ℕ → Pool → Pool × Option DeadWorker
unfolding take_dead_worker_locked
take_dead_worker id p =
    if is_dead (p.heap id).state
    then (p, none)
    else let (c, taken) = take_dead_worker_locked (p.heap id) in
      (record p { heap = set_cell id c p.heap }, some taken)

unfoldable pub forget_slot : ℕ → Pool → Pool
forget_slot id p = record p { children = without id p.children }

-- Two sections, in a row.
unfoldable pub discard_uninstalled_slot : ℕ → Pool → Pool
unfolding take_dead_worker forget_slot
discard_uninstalled_slot id p = forget_slot id (take_dead_worker id p).0

-- The first section of `finish_spawn_reservation` under the pool's lock, and whether it settles the
-- reservation. The second argument says whether a slot was made for it.
unfoldable pub settle_reservation : ℕ → Bool → Pool → Pool × Bool
settle_reservation id has_slot p = if p.shutting_down then (p, false) else (
  record p {
    children = (if has_slot then p.children ++ id ∷ [] else p.children);
    spawning = without id p.spawning;
  },
  true,
)

-- Its last section, which follows the discarding of the slot where the pool shuts down.
unfoldable pub drop_reservation : ℕ → Pool → Pool
drop_reservation id p = record p { spawning = without id p.spawning }

-- The sections in a row, with no other step in between. `Steps.step` has them one by one.
unfoldable pub finish_spawn_reservation : ℕ → Bool → Pool → Pool × Result (Unit {0})
unfolding settle_reservation drop_reservation discard_uninstalled_slot
finish_spawn_reservation id has_slot p =
    let (q, settled) = settle_reservation id has_slot p in
    if settled then (q, ok tt) else (
      drop_reservation id (if has_slot then discard_uninstalled_slot id q else q),
      err worker_closed,
    )

-- `spawn_reserved_slot`. `failure` is the error of `spawn_slot`, `none` if the child process started.
unfoldable pub spawn_reserved_slot :
    ℕ → ChildState → ℕ → Option ToolError → Pool → Pool × Result (Unit {0})
unfolding spawn_slot finish_spawn_reservation
spawn_reserved_slot id initial_state now none p =
    finish_spawn_reservation id true (spawn_slot id initial_state now p)
spawn_reserved_slot id initial_state now (some failure) p =
    ((finish_spawn_reservation id false p).0, err failure)

-- The loop of `warm_min` over the rounds left, with what each start comes to.
unfoldable pub warm : List (Option ToolError) → ℕ → Pool → Pool × Result (Unit {0})
unfolding reserve_spawn_slot_locked spawn_reserved_slot
warm [] now p = (p, ok tt)
warm (failure ∷ more) now p = elim (reserve_spawn_slot_locked p) [
  | err e ↦ (p, err e)
  | ok (id, q) ↦
      let (r, outcome) = spawn_reserved_slot id idle now failure q in
      let rest = warm more now r in elim outcome [ err e ↦ (r, err e) | ok _ ↦ rest ]
]

-- The loop of `schedule_replenishment`: the ids for which it spawns a start, `spawn_reserved_slot` with
-- an idle state. Each start is a task of its own, which is not repeated if it fails. Each round reserves one id below
-- the target, so the target is enough fuel.
unfoldable pub replenish : ℕ → ℕ → Pool → Pool × List ℕ
unfolding reserve_spawn_slot_locked
replenish zero target p = (p, [])
replenish (suc fuel) target p =
    if not p.shutting_down && ltb (length p.spawning + length p.children) target
    then (elim (reserve_spawn_slot_locked p) [
      | err e ↦ (p, [])
      | ok (id, q) ↦ let (r, ids) = replenish fuel target q in (r, id ∷ ids)
    ])
    else (p, [])

unfoldable pub schedule_replenishment : WorkerPoolConfig → Pool → Pool × List ℕ
unfolding replenish
schedule_replenishment c p =
    let min_workers = min c.min_workers c.max_workers in replenish min_workers min_workers p
