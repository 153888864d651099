-- ===== src/Pool/Tests.antt =====
-- Runs of the pool, and the theorems about it at concrete inputs.
use ida_mcp_rs.Base.{ℕ, ◌≤◌, ◌≡◌, refl, true, false, none, [], ◌∷◌, arith}
use ida_mcp_rs.Pool.Data.{
  Pool, new, idle, leased, blank, contains, set_cell, is_idle, WorkerPoolConfig,
}
use ida_mcp_rs.Pool.Spawn.{warm}
use ida_mcp_rs.Pool.Retire.{mark_stale_idle_dead}
use ida_mcp_rs.Pool.Lease.{lease_attempt, granted}
use ida_mcp_rs.Pool.Steps.{attempts_lease, step, here, next}
use ida_mcp_rs.Pool.Capacity.{Reach-capacity}
use ida_mcp_rs.Pool.Invariant.{Inv, load}
use ida_mcp_rs.Pool.Minimum.{reap-minimum}
use ida_mcp_rs.Pool.Possession.{step-possession, lease_attempt-idle, lease_attempt-exhausted}

abbrev config : WorkerPoolConfig
config = record { max_workers = 2; min_workers = 1 }

-- One idle worker after the start, and one more that a second session asked for.
abbrev warmed : Pool
warmed = (warm (none ∷ []) 0 new).0

Reach-capacity_example :
    Inv 2 (step config (attempts_lease "b" 2 6) (step config (attempts_lease "a" 1 5) warmed))
Reach-capacity_example =
    Reach-capacity config (none ∷ []) 0 _ refl
      (next (next here (attempts_lease "a" 1 5) tt) (attempts_lease "b" 2 6) tt)

-- Worker 0 is leased, worker 1 is idle.
abbrev busy_pool : Pool
busy_pool = record {
  heap =
      set_cell 0 (record blank { state = leased "a" 1; has_service = true })
        (set_cell 1 (record blank { state = idle; has_service = true }) (λ _. blank));
  children = 0 ∷ 1 ∷ [];
  spawning = [];
  next_id = 2;
  next_lease_id = 1;
  shutting_down = false;
}

busy_pool-Inv : Inv 2 busy_pool
busy_pool-Inv = record {
  within = omega arith;
  children_below = omega arith;
  spawning_below = tt;
  distinct = (refl, (refl, tt));
  apart = λ i h. ground arith;
}

step-possession_example :
    (((step config (attempts_lease "b" 2 9) busy_pool).heap 0).state ≡ leased "a" 1)
    × (contains 0 (step config (attempts_lease "b" 2 9) busy_pool).children ≡ true)
step-possession_example =
    step-possession config 0 1 "a" busy_pool (attempts_lease "b" 2 9) 2 busy_pool-Inv tt refl refl
      refl

lease_attempt-idle_example : (j : ℕ) × ((lease_attempt config "b" 2 9 busy_pool).1 ≡ granted j)
lease_attempt-idle_example = lease_attempt-idle config "b" 2 9 busy_pool 1 refl refl refl

abbrev full_pool : Pool
full_pool = record busy_pool {
  heap = set_cell 1 (record blank { state = leased "b" 2 }) busy_pool.heap;
}

lease_attempt-exhausted_example :
    (full_pool.spawning ≡ [])
    × (2 ≡ load full_pool)
    × (2 ≡ config.max_workers)
    × (2 ≤ 2)
    × (is_idle (full_pool.heap 0).state ≡ false)
unfolding lease_attempt
lease_attempt-exhausted_example = lease_attempt-exhausted config "c" 3 9 full_pool 0 2 2 refl refl

reap-minimum_example : 1 ≤ load (mark_stale_idle_dead config 1 50 busy_pool).0
reap-minimum_example = reap-minimum config 2 1 50 busy_pool busy_pool-Inv (omega arith)
