-- ===== src/Task.antt =====
-- src/server/task.rs: the registry of background tasks. `Data` has the types, `Clock` the time
-- stamps, `Entry` the methods of one entry, `Retention` the dropping of entries, `Registry` the
-- methods of the whole map.
pub mod Data
pub mod Clock
pub mod Entry
pub mod Retention
pub mod Registry
pub mod Steps
mod Tests
