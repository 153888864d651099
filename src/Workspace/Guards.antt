-- ===== src/Workspace/Guards.antt =====
-- The guards of src/ida/pool.rs that protect a workspace entry, as an interleaving: a `WorkspaceLease`
-- or a `WorkspacePin` is held, then dropped in two steps. Beside the registry stands what the code
-- does not store: the guards that are held or half dropped, the last drop of each entry, the clock.
use ida_mcp_rs.Base.{
  ℕ, suc, ◌+◌, ◌-◌, ◌<◌, String, Bool, false, Option, none, some, [], if◌then◌else◌, ◌==◌,
}
use ida_mcp_rs.Database.{WorkspaceDatabase}
use ida_mcp_rs.Workspace.{
  WorkspaceRegistry, edit_entry, new_entry, allocate_database, bind_legacy, touch, acquire, pin,
  release_call, release_pin, remove_database,
}
use ida_mcp_rs.Workspace.Reaper.{WorkspaceReapReason, take_expired}

abbrev pub set_at : ℕ → ℕ → (ℕ → ℕ) → ℕ → ℕ
set_at i n f j = if i == j then n else f j

-- For one kind of guard: how many are held, and how many have done the first half of their drop.
pub record Guards : Type 0 where
  pub held : ℕ → ℕ
  pub dropping : ℕ → ℕ

abbrev pub no_guards : Guards
no_guards = record { held = λ _. 0; dropping = λ _. 0 }

abbrev pub take_guard : Option ℕ → Guards → Guards
take_guard none g = g
take_guard (some i) g = record g { held = set_at i (g.held i + 1) g.held }

abbrev pub begin_drop : ℕ → Guards → Guards
begin_drop i g = record {
  held = set_at i (g.held i - 1) g.held;
  dropping = set_at i (g.dropping i + 1) g.dropping;
}

abbrev pub end_drop : ℕ → Guards → Guards
end_drop i g = record g { dropping = set_at i (g.dropping i - 1) g.dropping }

pub record System : Type 0 where
  pub registry : WorkspaceRegistry
  pub leases : Guards
  pub pins : Guards
  pub last_drop : ℕ → ℕ
  pub now : ℕ

pub data Action : Type 0 where
  ticks : ℕ → Action
  allocates : String → Action
  binds_legacy : String → Action
  acquires : String → Action
  takes_pin : String → Action
  touches : ℕ → Action
  begins_lease_drop : ℕ → Action
  ends_lease_drop : ℕ → Action
  begins_pin_drop : ℕ → Action
  ends_pin_drop : ℕ → Action
  removes : String → Action
  uses_database : ℕ → WorkspaceDatabase → Action
  expires : Bool → String → WorkspaceReapReason → Action

-- What a call does to the database of an entry matters here only for the last check of the reaper,
-- so `uses_database` leaves any database.
unfoldable pub step : Action → System → System
step (ticks d) s = record s { now = s.now + d }
step (allocates id) s =
    let (r, i) = allocate_database id s.now s.registry in
    record s { registry = r; leases = take_guard (some i) s.leases }
step (binds_legacy id) s = record s { registry = bind_legacy id s.now s.registry }
step (acquires id) s =
    let (r, i) = acquire id s.registry in record s { registry = r; leases = take_guard i s.leases }
step (takes_pin id) s =
    let (r, i) = pin id s.registry in record s { registry = r; pins = take_guard i s.pins }
step (touches i) s = record s { registry = touch i s.now s.registry }
step (begins_lease_drop i) s = record s {
  registry = touch i s.now s.registry;
  leases = begin_drop i s.leases;
  last_drop = set_at i s.now s.last_drop;
}
step (ends_lease_drop i) s = record s {
  registry = release_call i s.registry;
  leases = end_drop i s.leases;
}
step (begins_pin_drop i) s = record s {
  registry = touch i s.now s.registry;
  pins = begin_drop i s.pins;
  last_drop = set_at i s.now s.last_drop;
}
step (ends_pin_drop i) s = record s {
  registry = release_pin i s.registry;
  pins = end_drop i s.pins;
}
step (removes id) s = record s { registry = (remove_database id s.registry).0 }
step (uses_database i database) s = record s {
  registry = edit_entry i (λ e. record e { database = database }) s.registry;
}
step (expires handle_locked id reason) s = record s {
  registry = (take_expired s.now handle_locked id reason s.registry).0;
}

-- Only a guard that is there is dropped.
abbrev pub Enabled : Action → System → Type 0
Enabled (begins_lease_drop i) s = 0 < s.leases.held i
Enabled (ends_lease_drop i) s = 0 < s.leases.dropping i
Enabled (begins_pin_drop i) s = 0 < s.pins.held i
Enabled (ends_pin_drop i) s = 0 < s.pins.dropping i
Enabled _ s = Unit

abbrev pub initial : ℕ → System
initial idle_timeout = record {
  registry = record {
    heap = λ _. new_entry false 0 0;
    entries = [];
    next_place = 0;
    idle_timeout = idle_timeout;
  };
  leases = no_guards;
  pins = no_guards;
  last_drop = λ _. 0;
  now = 0;
}

-- The systems that a number of steps leads to.
pub data Reach (idle_timeout : ℕ) : ℕ → System → Type 0 where
  here : Reach idle_timeout 0 (initial idle_timeout)
  next :
      {n : ℕ} {s : System}
      → Reach idle_timeout n s
      → (a : Action) → Enabled a s
      → Reach idle_timeout (suc n) (step a s)
