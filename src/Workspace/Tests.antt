-- ===== src/Workspace/Tests.antt =====
-- A run of the registry of workspaces, and the theorems about it at concrete inputs.
use ida_mcp_rs.Base.{◌+◌, ◌≡◌, refl, false, none, arith}
use ida_mcp_rs.Base.Assoc.{lookup, insert}
use ida_mcp_rs.Database.{Probe}
use ida_mcp_rs.Workspace.Terminal.{reap-terminal}
use ida_mcp_rs.Workspace.{WorkspaceRegistry, release_call, touch, allocate_database}
use ida_mcp_rs.Workspace.Reaper.{take_expired, reap, idle}
use ida_mcp_rs.Workspace.Guards.{
  System, step, initial, Reach, here, next, ticks, allocates, begins_lease_drop, ends_lease_drop,
}
use ida_mcp_rs.Workspace.Eviction.{take_expired-unused, IsDue}

-- A database that a call has given up, 50 nanoseconds later.
abbrev given_up : System
given_up =
    step (ticks 50)
      (step (ends_lease_drop 0) (step (begins_lease_drop 0) (step (allocates "d") (initial 30))))

given_up-Reach : Reach 30 4 given_up
unfolding step allocate_database
given_up-Reach =
    next
      (next (next (next here (allocates "d") tt) (begins_lease_drop 0) (omega arith))
        (ends_lease_drop 0) (omega arith))
      (ticks 50) tt

take_expired-unused_example :
    (given_up.leases.held 0 + given_up.leases.dropping 0 ≡ 0)
    × (given_up.pins.held 0 + given_up.pins.dropping 0 ≡ 0)
    × ((given_up.registry.heap 0).legacy ≡ false)
    × IsDue idle given_up 0
unfolding step take_expired lookup release_call touch allocate_database insert
take_expired-unused_example =
    take_expired-unused 30 4 given_up false "d" idle 0 (omega arith) given_up-Reach refl

-- The same entry without an idle timeout. No lock is held and no child shows anything.
abbrev lost : WorkspaceRegistry
lost =
    (step (ends_lease_drop 0)
      (step (begins_lease_drop 0) (step (allocates "d") (initial 0)))).registry

abbrev quiet : Probe
quiet = record {
  handle_locked = false;
  call_locked = false;
  child_locked = false;
  child_dead = false;
  transport_closed = false;
  idb_path = none;
}

reap-terminal_example : lookup "d" (reap (λ _. quiet) (λ _. false) 0 lost).entries ≡ none
unfolding step lookup release_call touch allocate_database insert
reap-terminal_example =
    reap-terminal (λ _. quiet) (λ _. false) 0 0 "d" lost (refl, tt) refl refl refl refl
