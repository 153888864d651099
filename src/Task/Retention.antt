-- ===== src/Task/Retention.antt =====
-- Which entries the registry of src/server/task.rs drops: `prune_terminal_tasks` and
-- `reclaim_capacity_for_admission`.
pub mod Sorting
pub mod Removal
pub mod Reclaim
use Prim.Native.Nat.{compare, Ordering}
use Prim.Native.String
use ida_mcp_rs.Base.{
  ℕ, ◌+◌, ◌-◌, ◌*◌, String, Bool, true, false, not, ◌||◌, List, [], ◌∷◌, take, length, ltb,
  if◌then◌else◌,
}
use ida_mcp_rs.Base.Assoc.{Assoc, remove, retain_values}
use ida_mcp_rs.Task.Data.{is_running, TaskEntry, task_retention_ttl_ms, max_task_registry_entries}

-- The retention in nanoseconds, the unit of an `Instant`.
abbrev pub retention : ℕ
retention = task_retention_ttl_ms * 1000000

-- `sort_unstable` on pairs of a time and an id, by the time and then by the id.
abbrev pub before : ℕ × String → ℕ × String → Bool
before (t, i) (u, j) = elim (compare t u) [
  | Ordering.lt ↦ true
  | Ordering.eq ↦ (elim (String.compare i j) [ Ordering.gt ↦ false | _ ↦ true ])
  | Ordering.gt ↦ false
]

pub insert_sorted : ℕ × String → List (ℕ × String) → List (ℕ × String)
insert_sorted x [] = x ∷ []
insert_sorted x (y ∷ ys) =
    let rest = insert_sorted x ys in if before x y then x ∷ y ∷ ys else y ∷ rest

pub sort_unstable : List (ℕ × String) → List (ℕ × String)
unfolding insert_sorted
sort_unstable [] = []
sort_unstable (x ∷ xs) = insert_sorted x (sort_unstable xs)

module _ {V : Type 0} where
  abbrev pub is_kept : ℕ → TaskEntry V → Bool
  is_kept now e = is_running e.state.status || ltb (now - e.state.updated_at) retention

  unfoldable pub prune_terminal_tasks : ℕ → Assoc (TaskEntry V) → Assoc (TaskEntry V)
  prune_terminal_tasks now entries = retain_values (is_kept now) entries

  pub terminal_tasks : Assoc (TaskEntry V) → List (ℕ × String)
  terminal_tasks [] = []
  terminal_tasks ((id, e) ∷ m) =
      let rest = terminal_tasks m in
      if not (is_running e.state.status) then (e.state.updated_at, id) ∷ rest else rest

  pub remove_each : List (ℕ × String) → Assoc (TaskEntry V) → Assoc (TaskEntry V)
  remove_each [] m = m
  remove_each ((_, id) ∷ ids) m = remove_each ids (remove id m)

  unfoldable pub reclaim_capacity_for_admission : Assoc (TaskEntry V) → Assoc (TaskEntry V)
  unfolding terminal_tasks remove_each sort_unstable
  reclaim_capacity_for_admission entries =
      if ltb (length entries) max_task_registry_entries
      then entries
      else let excess = length entries - max_task_registry_entries + 1 in
        remove_each (take excess (sort_unstable (terminal_tasks entries))) entries
