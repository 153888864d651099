-- ===== src/Pool.antt =====
-- src/ida/pool.rs: the pool of IDA worker processes. `Data` has the state, `Spawn` the reservations,
-- `Lease` the acquisition of a worker, `Retire` the removal of dead workers, `Release` the return of
-- a worker, `Steps` the steps that interleave.
pub mod Data
pub mod Spawn
pub mod Retire
pub mod Lease
pub mod Release
pub mod Counting
pub mod Steps
pub mod Quiet
pub mod Invariant
pub mod Capacity
pub mod Minimum
pub mod Possession
mod Tests
