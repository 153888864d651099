-- ===== src/Task/Registry/Admission.antt =====
-- `create_keyed`: when a task is admitted, and what its refusals tell.
use ida_mcp_rs.Base.{
  ℕ, ◌≤◌, ◌<◌, String, Bool, true, false, none, some, [], ◌∷◌, ◌≡◌, refl, ◌⊎◌, inl, inr, arith,
  length, count, find, Bool-cases, Option-cases, eq_iff, count-le-length,
}
use ida_mcp_rs.Base.Assoc.{
  Assoc, lookup, values, HasDistinctKeys, lookup-insert, length-insert, insert-HasDistinctKeys,
  retain_values-HasDistinctKeys, length-retain_values,
}
use ida_mcp_rs.Task.Data.{
  TaskOwner, owner_eq, is_session, already_running, capacity_exceeded, running, TaskEntry,
  max_task_registry_entries,
}
use ida_mcp_rs.Task.Clock.{Reading, now_with_iso}
use ida_mcp_rs.Task.Retention.{is_kept, prune_terminal_tasks, reclaim_capacity_for_admission}
use ida_mcp_rs.Task.Retention.Removal.{runs}
use ida_mcp_rs.Task.Retention.Reclaim.{length-reclaim, reclaim-HasDistinctKeys, lookup-reclaim_some}
use ida_mcp_rs.Task.Entry.{new_entry}
use ida_mcp_rs.Task.Registry.{ok, err, has_key, create_keyed}

module _ {V : Type 0} where
  -- The entry that an admission stores.
  abbrev pub created : TaskOwner → String → String → String → Reading → TaskEntry V
  created owner id key message r = record {
    owner = owner;
    state = record {
      id = id;
      status = running;
      message = message;
      result = none;
      created_at = (now_with_iso r).0;
      updated_at = (now_with_iso r).0;
      created_at_iso = (now_with_iso r).1;
      updated_at_iso = (now_with_iso r).1;
      key = some key;
    };
    workspace_database_id = none;
    cancel_token = none;
    cancel_requested = none;
  }

  length-values : (m : Assoc (TaskEntry V)) → length (values m) ≡ length m
  length-values [] = refl
  length-values ((i, e) ∷ m) = omega (arith, length-values m)

  prune-HasDistinctKeys :
      (now : ℕ) (m : Assoc (TaskEntry V))
      → HasDistinctKeys m
      → HasDistinctKeys (prune_terminal_tasks now m)
  unfolding prune_terminal_tasks
  prune-HasDistinctKeys now m d = retain_values-HasDistinctKeys (is_kept now) m d

  length-prune :
      (now : ℕ) (m : Assoc (TaskEntry V)) → length (prune_terminal_tasks now m) ≤ length m
  unfolding prune_terminal_tasks
  length-prune now m = length-retain_values (is_kept now) m

  pub find-values :
      (p : TaskEntry V → Bool) (e : TaskEntry V) (m : Assoc (TaskEntry V))
      → HasDistinctKeys m
      → find p (values m) ≡ some e
      → (id : String) × (lookup id m ≡ some e) × (p e ≡ true)
  unfolding lookup
  find-values p e [] d h = cc
  find-values p e ((i, x) ∷ m) d h = elim (Bool-cases (p x)) [
    | inl hit ↦ (i, ground (arith, eq_iff i i), ground arith)
    | inr miss ↦
        let (id, found, holds) = find-values p e m d.1 (ground arith) in
        (id, ground (arith, eq_iff i id), holds)
  ]

  pub find-none :
      (p : TaskEntry V → Bool) (id : String) (e : TaskEntry V) (m : Assoc (TaskEntry V))
      → find p (values m) ≡ none
      → lookup id m ≡ some e
      → p e ≡ false
  unfolding lookup
  find-none p id e [] h f = ground arith
  find-none p id e ((i, x) ∷ m) h f = ground (arith, find-none p id e m)

  module _ (owner : TaskOwner) (id key message : String) (now : ℕ) (r : Reading)
      (m : Assoc (TaskEntry V)) where
    -- With no running task of the key, a task is refused exactly when 256 tasks run; otherwise it is
    -- stored as running under the new id.
    pub create_keyed-capacity :
        HasDistinctKeys m
        → find (has_key key) (values (prune_terminal_tasks now m)) ≡ none
        → (((create_keyed owner id key message now r m).1
              ≡ err (capacity_exceeded max_task_registry_entries))
            × (max_task_registry_entries ≤ count runs (values (prune_terminal_tasks now m))))
          ⊎ (((create_keyed owner id key message now r m).1 ≡ ok id)
              × (count runs (values (prune_terminal_tasks now m)) < max_task_registry_entries)
              × (lookup id (create_keyed owner id key message now r m).0
                  ≡ some (created owner id key message r)))
    unfolding create_keyed new_entry
    create_keyed-capacity d free =
        let pruned = prune_terminal_tasks now m in
        let room = reclaim_capacity_for_admission pruned in
        ground (
          arith,
          length-reclaim pruned (prune-HasDistinctKeys now m d),
          count-le-length runs (values pruned),
          length-values pruned,
          eq_iff id id,
          lookup-insert id id (created owner id key message r) room,
        )

    -- A refusal names an existing task only to the legacy session that owns it: the named task runs,
    -- has the requested key and the requesting session as its owner. Every other duplicate is
    -- refused without an id.
    pub create_keyed-AlreadyRunning :
        HasDistinctKeys m
        → (x : String) → (create_keyed owner id key message now r m).1 ≡ err (already_running x)
        → (is_session owner ≡ true)
          × ((j : String) × (e : TaskEntry V) × (lookup j (prune_terminal_tasks now m) ≡ some e)
              × (owner_eq e.owner owner ≡ true)
              × (has_key key e ≡ true)
              × (e.state.id ≡ x))
    unfolding create_keyed
    create_keyed-AlreadyRunning d x h =
        elim (Option-cases (find (has_key key) (values (prune_terminal_tasks now m)))) [
          | inl free ↦ ground arith
          | inr (e, hit) ↦
              let (j, found, holds) =
                find-values (has_key key) e (prune_terminal_tasks now m)
                  (prune-HasDistinctKeys now m d) hit in
              (ground arith, (j, e, found, ground arith, holds, ground arith))
        ]

    -- Where an entry of the new map comes from, and when a new one is stored.
    pub create_keyed-origin :
        HasDistinctKeys m
        → (j : String) (f : TaskEntry V)
        → lookup j (create_keyed owner id key message now r m).0 ≡ some f
        → (lookup j (prune_terminal_tasks now m) ≡ some f)
          ⊎ ((j ≡ id)
              × (f ≡ created owner id key message r)
              × (find (has_key key) (values (prune_terminal_tasks now m)) ≡ none))
    unfolding create_keyed new_entry
    create_keyed-origin d j f h =
        let pruned = prune_terminal_tasks now m in
        let room = reclaim_capacity_for_admission pruned in
        ground (
          arith,
          eq_iff id j,
          lookup-insert id j (created owner id key message r) room,
          lookup-reclaim_some j f pruned (prune-HasDistinctKeys now m d),
        )

    pub create_keyed-HasDistinctKeys :
        HasDistinctKeys m → HasDistinctKeys (create_keyed owner id key message now r m).0
    unfolding create_keyed new_entry
    create_keyed-HasDistinctKeys d =
        let pruned = prune_terminal_tasks now m in
        let room = reclaim_capacity_for_admission pruned in
        ground (
          arith,
          prune-HasDistinctKeys now m d,
          reclaim-HasDistinctKeys pruned (prune-HasDistinctKeys now m d),
          insert-HasDistinctKeys id (created owner id key message r) room,
        )

    pub create_keyed-bounded :
        HasDistinctKeys m
        → length m ≤ max_task_registry_entries
        → length (create_keyed owner id key message now r m).0 ≤ max_task_registry_entries
    unfolding create_keyed new_entry
    create_keyed-bounded d h =
        let pruned = prune_terminal_tasks now m in
        let room = reclaim_capacity_for_admission pruned in
        ground (
          arith,
          length-prune now m,
          length-reclaim pruned (prune-HasDistinctKeys now m d),
          length-insert id (created owner id key message r) room,
        )
