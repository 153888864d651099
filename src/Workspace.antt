-- ===== src/Workspace.antt =====
-- `WorkspaceRegistry` of src/ida/pool.rs. An entry (`Arc<WorkspaceRegistryEntry>`) is shared by the
-- registry and by the guards of running calls, which may outlive its removal, so the entries lie in a
-- heap and the map holds their places. The map is behind a lock. What `Instant::now` shows is an
-- argument; durations and instants are in nanoseconds.
pub mod Reaper
pub mod Guards
pub mod Eviction
pub mod Terminal
mod Tests
use ida_mcp_rs.Base.{
  ℕ, ◌+◌, ◌-◌, ◌/◌, ◌%◌, ◌^◌, String, Bool, true, false, Option, none, some, List, [], ◌∷◌, ltb,
  leb, if◌then◌else◌, ◌==◌,
}
use ida_mcp_rs.Base.Assoc.{Assoc, lookup, insert, remove}
use ida_mcp_rs.Database
use ida_mcp_rs.Database.{
  WorkspaceDatabase, LeaseSnapshot, bound, no_worker, busy, Probe, lease_snapshot,
}

pub record WorkspaceRegistryEntry : Type 0 where
  pub database : WorkspaceDatabase
  pub last_used : ℕ
  pub active_calls : ℕ
  pub pins : ℕ
  pub legacy : Bool

abbrev pub Heap : Type 0
Heap = ℕ → WorkspaceRegistryEntry

abbrev pub set_entry : ℕ → WorkspaceRegistryEntry → Heap → Heap
set_entry i e heap j = if i == j then e else heap j

-- `next_place` is the place of the next entry.
pub record WorkspaceRegistry : Type 0 where
  pub heap : Heap
  pub entries : Assoc ℕ
  pub next_place : ℕ
  pub idle_timeout : ℕ

-- `fetch_add(1)` and `fetch_sub(1)` on an `AtomicUsize`.
abbrev pub fetch_add : ℕ → ℕ
fetch_add n = (n + 1) % 2 ^ 64

abbrev pub fetch_sub : ℕ → ℕ
fetch_sub n = (n + (2 ^ 64 - 1)) % 2 ^ 64

abbrev pub new_entry : Bool → ℕ → ℕ → WorkspaceRegistryEntry
new_entry legacy active_calls now = record {
  database = Database.new;
  last_used = now;
  active_calls = active_calls;
  pins = 0;
  legacy = legacy;
}

-- An entry under a new id.
unfoldable pub add_entry : String → WorkspaceRegistryEntry → WorkspaceRegistry → WorkspaceRegistry
add_entry database_id e r = record r {
  heap = set_entry r.next_place e r.heap;
  entries = insert database_id r.next_place r.entries;
  next_place = r.next_place + 1;
}

-- The place of the entry that the new guard protects.
unfoldable pub allocate_database : String → ℕ → WorkspaceRegistry → WorkspaceRegistry × ℕ
unfolding add_entry
allocate_database database_id now r =
    (add_entry database_id (new_entry false 1 now) r, r.next_place)

unfoldable pub bind_legacy : String → ℕ → WorkspaceRegistry → WorkspaceRegistry
unfolding add_entry
bind_legacy database_id now r = add_entry database_id (new_entry true 0 now) r

abbrev pub edit_entry :
    ℕ → (WorkspaceRegistryEntry → WorkspaceRegistryEntry) → WorkspaceRegistry → WorkspaceRegistry
edit_entry i f r = record r { heap = set_entry i (f (r.heap i)) r.heap }

-- WorkspaceRegistryEntry::touch
unfoldable pub touch : ℕ → ℕ → WorkspaceRegistry → WorkspaceRegistry
touch i now r = edit_entry i (λ e. record e { last_used = now }) r

unfoldable pub idle_for : ℕ → WorkspaceRegistryEntry → ℕ
idle_for now e = now - e.last_used

-- `acquire` and `pin` under the registry's lock. The guard is on the place in the result; a `touch`
-- follows after the lock.
unfoldable pub acquire : String → WorkspaceRegistry → WorkspaceRegistry × Option ℕ
acquire database_id r = elim (lookup database_id r.entries) [
  | none ↦ (r, none)
  | some i ↦ (edit_entry i (λ e. record e { active_calls = fetch_add e.active_calls }) r, some i)
]

unfoldable pub pin : String → WorkspaceRegistry → WorkspaceRegistry × Option ℕ
pin database_id r = elim (lookup database_id r.entries) [
  | none ↦ (r, none)
  | some i ↦ (edit_entry i (λ e. record e { pins = fetch_add e.pins }) r, some i)
]

-- The second statement of the two `drop` methods; the first is a `touch`.
unfoldable pub release_call : ℕ → WorkspaceRegistry → WorkspaceRegistry
release_call i r = edit_entry i (λ e. record e { active_calls = fetch_sub e.active_calls }) r

unfoldable pub release_pin : ℕ → WorkspaceRegistry → WorkspaceRegistry
release_pin i r = edit_entry i (λ e. record e { pins = fetch_sub e.pins }) r

unfoldable pub remove_database : String → WorkspaceRegistry → WorkspaceRegistry × Option ℕ
remove_database database_id r =
    (record r { entries = remove database_id r.entries }, lookup database_id r.entries)

pub record WorkspaceDatabaseSummary : Type 0 where
  pub database_id : String
  pub path : Option String
  pub state : String
  pub idle_seconds : ℕ
  pub active_calls : ℕ
  pub pinned : Bool
  pub debug_pinned : Bool

abbrev pub summary_of :
    String → ℕ → WorkspaceRegistryEntry → Option String → String → Bool → WorkspaceDatabaseSummary
summary_of database_id now e path state debug_pinned = record {
  database_id = database_id;
  path = path;
  state = state;
  idle_seconds = idle_for now e / 1000000000;
  active_calls = e.active_calls;
  pinned = ltb 0 e.pins;
  debug_pinned = debug_pinned;
}

unfoldable pub summarize : Probe → ℕ → String → WorkspaceRegistryEntry → WorkspaceDatabaseSummary
unfolding lease_snapshot
summarize p now database_id e = elim (lease_snapshot p e.database) [
  | bound path debug_pinned ↦
      summary_of database_id now e (some path) (if ltb 0 e.active_calls then "busy" else "open")
        debug_pinned
  | no_worker ↦ summary_of database_id now e none "no_worker" false
  | busy ↦ summary_of database_id now e none "busy" false
]
