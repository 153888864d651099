-- ===== src/Database.antt =====
-- `WorkspaceDatabase` of src/ida/pool.rs: which worker lease a database has, and which generation
-- of the database the lease belongs to. The mutex on `handle` makes each method one step; what the
-- child's state, the worker pool and the contended locks show is an argument.
pub mod CloseToken
pub mod Closing
pub mod Dispatch
pub mod Steps
pub mod Changes
pub mod Stale
pub mod Ownership
pub mod Debugger
mod Tests
use ida_mcp_rs.Base.{
  ℕ, ◌+◌, String, Bool, true, false, ◌&&◌, ◌||◌, not, Option, none, some, ltb, if◌then◌else◌, ◌==◌,
}
use ida_mcp_rs.Error.{ToolError, no_database_open, database_replaced, ida_error}
use ida_mcp_rs.Pool.Data.{Result, ok, err, word_values}
use ida_mcp_rs.Database.CloseToken.{
  CloseTokenLease, CloseAuthorization, granted, granted_by_override, denied, Issue,
  issue_for_session, authorize_close,
}

-- `handle` is its worker and its lease in the pool.
pub record PooledDatabaseLease : Type 0 where
  pub worker_id : ℕ
  pub lease_id : ℕ
  pub generation : ℕ
  pub close_token : Option CloseTokenLease
  pub debug_pinned : Bool

-- The counter holds the last generation that was handed out.
pub record WorkspaceDatabase : Type 0 where
  pub handle : Option PooledDatabaseLease
  pub last_generation : ℕ
  pub shared_http : Bool

abbrev pub new : WorkspaceDatabase
new = record { handle = none; last_generation = 0; shared_http = false }

abbrev pub new_shared_http : WorkspaceDatabase
new_shared_http = record new { shared_http = true }

abbrev pub is_lease : ℕ → ℕ → PooledDatabaseLease → Bool
is_lease worker_id generation lease = lease.worker_id == worker_id && lease.generation == generation

-- Whether the installed lease is of a generation.
abbrev pub has_generation : ℕ → Option PooledDatabaseLease → Bool
has_generation generation none = false
has_generation generation (some lease) = lease.generation == generation

unfoldable pub set_debug_pin_for_lease : ℕ → ℕ → Bool → WorkspaceDatabase → WorkspaceDatabase × Bool
set_debug_pin_for_lease worker_id generation pinned db = elim db.handle [
  | none ↦ (db, false)
  | some current ↦
      if not (is_lease worker_id generation current)
      then (db, false)
      else (record db { handle = some (record current { debug_pinned = pinned }) }, true)
]

-- What the locks and the child show at one moment.
pub record Probe : Type 0 where
  pub handle_locked : Bool
  pub call_locked : Bool
  pub child_locked : Bool
  pub child_dead : Bool
  pub transport_closed : Bool
  pub idb_path : Option String

pub data LeaseSnapshot : Type 0 where
  bound : String → Bool → LeaseSnapshot
  no_worker : LeaseSnapshot
  busy : LeaseSnapshot

unfoldable pub lease_snapshot : Probe → WorkspaceDatabase → LeaseSnapshot
lease_snapshot p db = if p.handle_locked then busy else (elim db.handle [
  | none ↦ no_worker
  | some lease ↦
      if p.call_locked || p.child_locked
      then busy
      else if p.transport_closed
      then no_worker
      else (elim p.idb_path [ none ↦ busy | some path ↦ bound path lease.debug_pinned ])
])

pub data LeaseReapDecision : Type 0 where
  no_lease : LeaseReapDecision
  healthy_unpinned : LeaseReapDecision
  healthy_pinned : LeaseReapDecision
  contended : LeaseReapDecision
  dead_worker : ℕ → LeaseReapDecision

unfoldable pub lease_reap_decision :
    Probe → WorkspaceDatabase → WorkspaceDatabase × LeaseReapDecision
lease_reap_decision p db = if p.handle_locked then (db, contended) else (elim db.handle [
  | none ↦ (db, no_lease)
  | some lease ↦
      if p.child_locked
      then (db, contended)
      else if p.child_dead || p.transport_closed
      then (record db { handle = none }, dead_worker lease.worker_id)
      else (db, if lease.debug_pinned then healthy_pinned else healthy_unpinned)
])

abbrev pub is_none : Option PooledDatabaseLease → Bool
is_none none = true
is_none (some lease) = false

unfoldable pub lease_is_absent : Bool → WorkspaceDatabase → Bool
lease_is_absent handle_locked db = not handle_locked && is_none db.handle

unfoldable pub next_database_generation : WorkspaceDatabase → Result (ℕ × WorkspaceDatabase)
next_database_generation db =
    if ltb (db.last_generation + 1) word_values
    then ok (db.last_generation + 1, record db { last_generation = db.last_generation + 1 })
    else err (ida_error "database generation counter exhausted")

-- The handle that an open goes on with, and whether its lease is new.
pub record OpenHandle : Type 0 where
  pub worker_id : ℕ
  pub lease_id : ℕ
  pub generation : ℕ
  pub fresh : Bool

-- The second half of `lease_for_open`. `leased` is what `WorkerPool::lease` returns.
unfoldable pub install_lease :
    Result (ℕ × ℕ) → WorkspaceDatabase → WorkspaceDatabase × Result OpenHandle
unfolding next_database_generation
install_lease leased db = elim (next_database_generation db) [
  | err e ↦ (db, err e)
  | ok (generation, counted) ↦ (elim leased [
    | err e ↦ (counted, err e)
    | ok (worker_id, lease_id) ↦ (
      record counted {
        handle = some (record {
          worker_id = worker_id;
          lease_id = lease_id;
          generation = generation;
          close_token = none;
          debug_pinned = false;
        });
      },
      ok (record {
        worker_id = worker_id;
        lease_id = lease_id;
        generation = generation;
        fresh = true;
      }),
    )
  ])
]

-- `serves` says that the child still belongs to the lease and its transport is open. The last part
-- of the result is the worker and the lease that are marked dead.
unfoldable pub lease_for_open :
    Bool
    → Result (ℕ × ℕ)
    → WorkspaceDatabase
    → WorkspaceDatabase × (Result OpenHandle × Option (ℕ × ℕ))
unfolding install_lease
lease_for_open serves leased db = elim db.handle [
  | none ↦ let (q, result) = install_lease leased db in (q, (result, none))
  | some lease ↦
      if serves
      then (
        db,
        (
          ok (record {
            worker_id = lease.worker_id;
            lease_id = lease.lease_id;
            generation = lease.generation;
            fresh = false;
          }),
          none,
        ),
      )
      else let (q, result) = install_lease leased (record db { handle = none }) in
        (q, (result, some (lease.worker_id, lease.lease_id)))
]

abbrev pub is_expected : ℕ → Option ℕ → Bool
is_expected current none = true
is_expected current (some expected) = current == expected

unfoldable pub require_lease_generation : ℕ → Option ℕ → Result (Unit {0})
require_lease_generation current expected =
    if is_expected current expected then ok tt else err database_replaced

unfoldable pub required_handle_for_generation :
    Option ℕ → WorkspaceDatabase → Result PooledDatabaseLease
unfolding require_lease_generation
required_handle_for_generation expected db = elim db.handle [
  | none ↦ err no_database_open
  | some lease ↦ (elim (require_lease_generation lease.generation expected) [
    | err e ↦ err e
    | ok _ ↦ ok lease
  ])
]

unfoldable pub take_handle : WorkspaceDatabase → WorkspaceDatabase × Option PooledDatabaseLease
take_handle db = (record db { handle = none }, db.handle)

unfoldable pub clear_handle_if_lease : ℕ → ℕ → WorkspaceDatabase → WorkspaceDatabase × Bool
clear_handle_if_lease worker_id generation db = elim db.handle [
  | none ↦ (db, false)
  | some lease ↦
      if is_lease worker_id generation lease
      then (record db { handle = none }, lease.debug_pinned)
      else (db, false)
]
