-- ===== src/Task/Retention/Reclaim.antt =====
-- The admission step of the registry: what `reclaim_capacity_for_admission` guarantees.
use ida_mcp_rs.Base.{
  ◌⊎◌, leb, ◌||◌, Option, Bool, sym, ℕ, ◌+◌, ◌-◌, ◌≤◌, min, max, String, ◌≡◌, ◌∙◌, true, false,
  none, some, List, inl, inr, arith, take, length, count, length-take, ltb, Bool-cases,
  Option-cases, if◌then◌else◌,
}
use ida_mcp_rs.Base.Assoc.{Assoc, lookup, values, HasDistinctKeys}
use ida_mcp_rs.Task.Data.{TaskEntry, max_task_registry_entries}
use ida_mcp_rs.Task.Retention.{
  sort_unstable, terminal_tasks, remove_each, reclaim_capacity_for_admission,
}
use ida_mcp_rs.Task.Retention.Sorting.{
  time_of, sort_unstable-All, sort_unstable-IsSorted, sort_unstable-HasDistinctIds,
  time_of-sort_unstable, length-sort_unstable, time_of-take, take-HasDistinctIds, take-All,
  take_oldest,
}
use ida_mcp_rs.Task.Retention.Removal.{
  runs, terminal_time, IsPresent, time_of-terminal_tasks, terminal_tasks-HasDistinctIds,
  terminal_tasks-All, length-terminal_tasks, lookup-remove_each, length-remove_each,
  remove_each-HasDistinctKeys,
}

module _ {V : Type 0} where
  candidates : Assoc (TaskEntry V) → List (ℕ × String)
  candidates m = sort_unstable (terminal_tasks m)

  -- The entries that a full registry gives up.
  victims : Assoc (TaskEntry V) → List (ℕ × String)
  victims m = take (length m - max_task_registry_entries + 1) (candidates m)

  time_of-candidates :
      (id : String) (m : Assoc (TaskEntry V))
      → HasDistinctKeys m
      → time_of id (candidates m) ≡ terminal_time (lookup id m)
  unfolding candidates
  time_of-candidates id m d =
      time_of-sort_unstable id (terminal_tasks m) (terminal_tasks-HasDistinctIds m d)
      ∙ time_of-terminal_tasks id m d

  time_of-victims :
      (id : String) (t : ℕ) (m : Assoc (TaskEntry V))
      → HasDistinctKeys m
      → time_of id (victims m) ≡ some t
      → terminal_time (lookup id m) ≡ some t
  unfolding victims
  time_of-victims id t m d h = cc (time_of-candidates id m d, time_of-take id _ t (candidates m) h)

  lookup-reclaim :
      (id : String) (m : Assoc (TaskEntry V))
      → HasDistinctKeys m
      → lookup id (reclaim_capacity_for_admission m) ≡ (
          if ltb (length m) max_task_registry_entries
          then lookup id m
          else (elim (time_of id (victims m)) [ none ↦ lookup id m | some _ ↦ none ]))
  unfolding reclaim_capacity_for_admission victims candidates
  lookup-reclaim id m d = elim (Bool-cases (ltb (length m) max_task_registry_entries)) [
    | inl e ↦ rw e
    | inr e ↦ rw e (lookup-remove_each id (victims m) m d)
  ]

  -- Nothing is changed: what is still there is as it was.
  pub lookup-reclaim_some :
      (id : String) (e : TaskEntry V) (m : Assoc (TaskEntry V))
      → HasDistinctKeys m
      → lookup id (reclaim_capacity_for_admission m) ≡ some e
      → lookup id m ≡ some e
  lookup-reclaim_some id e m d h = ground (arith, lookup-reclaim id m d)

  -- Running entries are never reclaimed.
  pub lookup-reclaim_running :
      (id : String) (e : TaskEntry V) (m : Assoc (TaskEntry V))
      → HasDistinctKeys m
      → lookup id m ≡ some e
      → runs e ≡ true
      → lookup id (reclaim_capacity_for_admission m) ≡ some e
  lookup-reclaim_running id e m d found run = elim (Option-cases (time_of id (victims m))) [
    | inl kept ↦ ground (arith, lookup-reclaim id m d)
    | inr (t, gone) ↦ ground (arith, time_of-victims id t m d gone)
  ]

  oldest_le :
      (id other : String) (e o : TaskEntry V) (m : Assoc (TaskEntry V))
      → HasDistinctKeys m
      → lookup id m ≡ some e
      → lookup id (reclaim_capacity_for_admission m) ≡ none
      → lookup other (reclaim_capacity_for_admission m) ≡ some o
      → runs o ≡ false
      → (runs e ≡ false) × (e.state.updated_at ≤ o.state.updated_at)
  unfolding victims candidates
  oldest_le id other e o m d found gone kept terminal =
      elim (Option-cases (time_of id (victims m))) [
        | inl stays ↦ ground (arith, lookup-reclaim id m d)
        | inr (t, taken) ↦ elim (Option-cases (time_of other (victims m))) [
          | inr (u, goes) ↦ ground (arith, lookup-reclaim id m d, lookup-reclaim other m d)
          | inl stays ↦ ground (
            arith,
            lookup-reclaim id m d,
            lookup-reclaim other m d,
            time_of-victims id t m d taken,
            time_of-candidates other m d,
            take_oldest _ t o.state.updated_at id other (candidates m)
                (sort_unstable-IsSorted (terminal_tasks m)) taken stays,
          )
        ]
      ]

  -- Whether an entry, if there is one, runs or was updated no earlier than a time.
  abbrev pub is_no_older : ℕ → Option (TaskEntry V) → Bool
  is_no_older time none = true
  is_no_older time (some o) = runs o || leb time o.state.updated_at

  -- An entry that is reclaimed is terminal, and no terminal entry that stays, under any id, is
  -- older.
  pub lookup-reclaim_oldest :
      (id other : String) (e : TaskEntry V) (m : Assoc (TaskEntry V))
      → HasDistinctKeys m
      → lookup id m ≡ some e
      → lookup id (reclaim_capacity_for_admission m) ≡ none
      → (runs e ≡ false)
        × (is_no_older e.state.updated_at (lookup other (reclaim_capacity_for_admission m)) ≡ true)
  lookup-reclaim_oldest id other e m d found gone =
      let terminal : runs e ≡ false = ground (arith, lookup-reclaim_running id e m d found) in
      (
        terminal,
        elim (Option-cases (lookup other (reclaim_capacity_for_admission m))) [
          | inl absent ↦ rw absent
          | inr (o, kept) ↦ elim (Bool-cases (runs o)) [
            | inl b ↦ ground (arith, kept, b)
            | inr b ↦ ground (arith, kept, b, oldest_le id other e o m d found gone kept b)
          ]
        ],
      )

  length-victims :
      (m : Assoc (TaskEntry V))
      → HasDistinctKeys m
      → length (remove_each (victims m) m) + length (victims m) ≡ length m
  unfolding victims candidates
  length-victims m d =
      length-remove_each (victims m) m
        (take-HasDistinctIds _ (candidates m)
          (sort_unstable-HasDistinctIds (terminal_tasks m) (terminal_tasks-HasDistinctIds m d)))
        (take-All (IsPresent m) _ (candidates m)
          (sort_unstable-All (IsPresent m) (terminal_tasks m) (terminal_tasks-All m)))

  pub length-reclaim :
      (m : Assoc (TaskEntry V))
      → HasDistinctKeys m
      → length (reclaim_capacity_for_admission m)
        ≡ min (length m) (max (max_task_registry_entries - 1) (count runs (values m)))
  unfolding reclaim_capacity_for_admission victims candidates
  length-reclaim m d = ground (
    arith,
    length-victims m d,
    length-terminal_tasks m,
    length-sort_unstable (terminal_tasks m),
    length-take (length m - max_task_registry_entries + 1) (candidates m),
  )

  -- Of a registry with one entry for each id, exactly what is needed goes. With fewer than 256
  -- entries nothing does; otherwise 255 entries stay, or all that run, if they are more. Whatever
  -- the id, its entry stays as it was, or it was terminal and is gone.
  pub reclaim_capacity_for_admission_lem :
      (id : String) (m : Assoc (TaskEntry V))
      → HasDistinctKeys m
      → ((max_task_registry_entries ≤ length m) ⊎ (reclaim_capacity_for_admission m ≡ m))
        × (length (reclaim_capacity_for_admission m)
            ≡ min (length m) (max (max_task_registry_entries - 1) (count runs (values m))))
        × ((lookup id (reclaim_capacity_for_admission m) ≡ lookup id m)
            ⊎ ((lookup id (reclaim_capacity_for_admission m) ≡ none)
                × ((e : TaskEntry V) × (lookup id m ≡ some e) × (runs e ≡ false))))
  reclaim_capacity_for_admission_lem id m d = (
    elim (Bool-cases (ltb (length m) max_task_registry_entries)) [
      | inl e ↦ inr (unfold reclaim_capacity_for_admission in rw e)
      | inr e ↦ inl (ground (arith, e))
    ],
    length-reclaim m d,
    elim (Option-cases (lookup id (reclaim_capacity_for_admission m))) [
      | inr (e, kept) ↦ inl (ground (arith, kept, lookup-reclaim_some id e m d kept))
      | inl gone ↦ elim (Option-cases (lookup id m)) [
        | inl absent ↦ inl (gone ∙ sym absent)
        | inr (e, found) ↦
            inr (gone, (e, found, ground (arith, gone, lookup-reclaim_running id e m d found)))
      ]
    ],
  )

  pub reclaim-HasDistinctKeys :
      (m : Assoc (TaskEntry V))
      → HasDistinctKeys m
      → HasDistinctKeys (reclaim_capacity_for_admission m)
  unfolding reclaim_capacity_for_admission victims candidates
  reclaim-HasDistinctKeys m d = ground (arith, remove_each-HasDistinctKeys (victims m) m d)
