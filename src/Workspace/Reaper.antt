-- ===== src/Workspace/Reaper.antt =====
-- The reaper of idle and lost databases in src/ida/pool.rs, one function for each of its phases.
use ida_mcp_rs.Base.{
  ℕ, String, Bool, not, ◌&&◌, Option, none, some, List, [], ◌∷◌, leb, if◌then◌else◌, ◌==◌,
}
use Prim.Native.String.{◌++◌}
use ida_mcp_rs.Error.{ToolError, invalid_params}
use ida_mcp_rs.Pool.Data.{Result, ok, err}
use ida_mcp_rs.Database.Closing.{close}
use ida_mcp_rs.Base.Assoc.{Assoc, lookup, remove}
use ida_mcp_rs.Database.{
  Probe, LeaseReapDecision, no_lease, healthy_unpinned, healthy_pinned, contended, dead_worker,
  lease_reap_decision, lease_is_absent, take_handle,
}
use ida_mcp_rs.Workspace.{
  WorkspaceRegistry, WorkspaceRegistryEntry, Heap, edit_entry, idle_for, remove_database,
}

pub data WorkspaceReapReason : Type 0 where
  idle : WorkspaceReapReason
  terminal : WorkspaceReapReason

-- Neither a legacy binding, nor in use, nor pinned.
abbrev pub is_unguarded : WorkspaceRegistryEntry → Bool
is_unguarded e = not e.legacy && (e.active_calls == 0 && e.pins == 0)

unfoldable pub candidates_of : Heap → Assoc ℕ → Assoc ℕ
candidates_of heap [] = []
candidates_of heap ((id, i) ∷ entries) =
    let rest = candidates_of heap entries in if is_unguarded (heap i) then (id, i) ∷ rest else rest

unfoldable pub collect_reap_candidates : WorkspaceRegistry → Assoc ℕ
unfolding candidates_of
collect_reap_candidates r = candidates_of r.heap r.entries

-- `!idle_timeout.is_zero() && entry.idle_for() >= idle_timeout`
unfoldable pub is_expired : ℕ → ℕ → WorkspaceRegistryEntry → Bool
unfolding idle_for
is_expired idle_timeout now e = not (idle_timeout == 0) && leb idle_timeout (idle_for now e)

abbrev pub reason_of : Bool → LeaseReapDecision → Option WorkspaceReapReason
reason_of expired no_lease = some terminal
reason_of expired healthy_unpinned = if expired then some idle else none
reason_of expired healthy_pinned = none
reason_of expired contended = none
reason_of expired (dead_worker worker_id) = some terminal

-- The probe of one candidate. A worker that is found dead is also marked dead in the pool.
unfoldable pub probe_candidate :
    Probe → ℕ → ℕ → WorkspaceRegistry → WorkspaceRegistry × Option WorkspaceReapReason
unfolding lease_reap_decision is_expired
probe_candidate p now i r =
    let (database, decision) = lease_reap_decision p (r.heap i).database in
    (
      edit_entry i (λ e. record e { database = database }) r,
      reason_of (is_expired r.idle_timeout now (r.heap i)) decision,
    )

abbrev pub add_reason :
    String
    → Option WorkspaceReapReason
    → List (String × WorkspaceReapReason)
    → List (String × WorkspaceReapReason)
add_reason id none reapable = reapable
add_reason id (some reason) reapable = (id, reason) ∷ reapable

-- `shows` is what each candidate's locks and child show when its turn comes.
unfoldable pub probe_reap_candidates :
    (ℕ → Probe)
    → ℕ
    → Assoc ℕ
    → WorkspaceRegistry
    → WorkspaceRegistry × List (String × WorkspaceReapReason)
unfolding probe_candidate
probe_reap_candidates shows now [] r = (r, [])
probe_reap_candidates shows now ((id, i) ∷ candidates) r =
    let (q, reason) = probe_candidate (shows i) now i r in
    let (s, reapable) = probe_reap_candidates shows now candidates q in
    (s, add_reason id reason reapable)

unfoldable pub still_reapable : ℕ → ℕ → Bool → WorkspaceReapReason → WorkspaceRegistryEntry → Bool
unfolding is_expired lease_is_absent
still_reapable idle_timeout now handle_locked idle e =
    is_unguarded e && is_expired idle_timeout now e
still_reapable idle_timeout now handle_locked terminal e =
    is_unguarded e && lease_is_absent handle_locked e.database

-- One round of `take_expired_entries`: the place of the entry that is removed, if it is.
unfoldable pub take_expired :
    ℕ → Bool → String → WorkspaceReapReason → WorkspaceRegistry → WorkspaceRegistry × Option ℕ
unfolding still_reapable
take_expired now handle_locked id reason r = elim (lookup id r.entries) [
  | none ↦ (r, none)
  | some i ↦
      if still_reapable r.idle_timeout now handle_locked reason (r.heap i)
      then (record r { entries = remove id r.entries }, some i)
      else (r, none)
]

abbrev pub add_taken : Option ℕ → List ℕ → List ℕ
add_taken none places = places
add_taken (some i) places = i ∷ places

unfoldable pub take_expired_entries :
    ℕ
    → (String → Bool)
    → List (String × WorkspaceReapReason)
    → WorkspaceRegistry
    → WorkspaceRegistry × List ℕ
unfolding take_expired
take_expired_entries now handle_locked [] r = (r, [])
take_expired_entries now handle_locked ((id, reason) ∷ reapable) r =
    let (q, taken) = take_expired now (handle_locked id) id reason r in
    let (s, places) = take_expired_entries now handle_locked reapable q in
    (s, add_taken taken places)

-- `WorkspaceDatabase::close` on each entry that was removed takes its handle.
unfoldable pub close_each : List ℕ → WorkspaceRegistry → WorkspaceRegistry
unfolding take_handle
close_each [] r = r
close_each (i ∷ places) r =
    close_each places (edit_entry i (λ e. record e { database = (take_handle e.database).0 }) r)

-- One round of `workspace_reaper` with nothing in between.
unfoldable pub reap : (ℕ → Probe) → (String → Bool) → ℕ → WorkspaceRegistry → WorkspaceRegistry
unfolding collect_reap_candidates probe_reap_candidates take_expired_entries close_each
reap shows handle_locked now r =
    let (q, reapable) = probe_reap_candidates shows now (collect_reap_candidates r) r in
    let (s, places) = take_expired_entries now handle_locked reapable q in close_each places s

-- A database that is removed is closed, if it was there.
unfoldable pub close_database :
    String → Option ToolError → WorkspaceRegistry → WorkspaceRegistry × Result (Unit {0})
unfolding remove_database close_each
close_database database_id released r =
    let (q, removed) = remove_database database_id r in
    elim removed [
      | none ↦ (q, err (invalid_params ("unknown database_id: " ++ database_id)))
      | some i ↦ (
        close_each (i ∷ []) q,
        elim (close released (q.heap i).database).1 [ err e ↦ err e | ok _ ↦ ok tt ],
      )
    ]

abbrev pub places_of : Assoc ℕ → List ℕ
places_of [] = []
places_of ((id, i) ∷ entries) = i ∷ places_of entries

unfoldable pub shutdown : WorkspaceRegistry → WorkspaceRegistry
unfolding close_each
shutdown r = close_each (places_of r.entries) (record r { entries = [] })
