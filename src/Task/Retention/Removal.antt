-- ===== src/Task/Retention/Removal.antt =====
-- What `reclaim_capacity_for_admission` removes, and what it keeps.
use ida_mcp_rs.Base.{
  ℕ, ◌+◌, String, ◌≡◌, refl, Bool, true, not, Option, none, some, List, [], ◌∷◌, inl, inr, arith,
  All, length, count, is_some, Option-cases, eq_iff, if◌then◌else◌,
}
use ida_mcp_rs.Base.Assoc.{
  Assoc, lookup, remove, values, HasDistinctKeys, lookup-remove_ne, lookup-remove_self,
  remove-HasDistinctKeys, length-remove_present,
}
use ida_mcp_rs.Task.Data.{is_running, TaskEntry}
use ida_mcp_rs.Task.Retention.{terminal_tasks, remove_each}
use ida_mcp_rs.Task.Retention.Sorting.{time_of, HasDistinctIds}

module _ {V : Type 0} where
  abbrev pub runs : TaskEntry V → Bool
  runs e = is_running e.state.status

  -- The time at which a terminal entry was last updated.
  abbrev pub terminal_time : Option (TaskEntry V) → Option ℕ
  terminal_time none = none
  terminal_time (some e) = if not (runs e) then some e.state.updated_at else none

  abbrev pub IsPresent : Assoc (TaskEntry V) → ℕ × String → Type 0
  IsPresent m p = is_some (lookup p.1 m) ≡ true

  pub time_of-terminal_tasks :
      (id : String) (m : Assoc (TaskEntry V))
      → HasDistinctKeys m
      → time_of id (terminal_tasks m) ≡ terminal_time (lookup id m)
  unfolding terminal_tasks lookup
  time_of-terminal_tasks id [] d = refl
  time_of-terminal_tasks id ((i, e) ∷ m) d =
      ground (arith, eq_iff i id, time_of-terminal_tasks id m d.1)

  pub terminal_tasks-HasDistinctIds :
      (m : Assoc (TaskEntry V)) → HasDistinctKeys m → HasDistinctIds (terminal_tasks m)
  unfolding terminal_tasks
  terminal_tasks-HasDistinctIds [] d = tt
  terminal_tasks-HasDistinctIds ((i, e) ∷ m) d =
      ground (arith, terminal_tasks-HasDistinctIds m d.1, time_of-terminal_tasks i m d.1)

  IsPresent-cons :
      (i : String) (e : TaskEntry V) (m : Assoc (TaskEntry V)) (xs : List (ℕ × String))
      → All (IsPresent m) xs
      → All (IsPresent ((i, e) ∷ m)) xs
  unfolding lookup
  IsPresent-cons i e m [] a = tt
  IsPresent-cons i e m ((t, j) ∷ xs) a = (ground arith, IsPresent-cons i e m xs a.1)

  pub terminal_tasks-All : (m : Assoc (TaskEntry V)) → All (IsPresent m) (terminal_tasks m)
  unfolding terminal_tasks lookup
  terminal_tasks-All [] = tt
  terminal_tasks-All ((i, e) ∷ m) =
      ground (arith, eq_iff i i, IsPresent-cons i e m (terminal_tasks m) (terminal_tasks-All m))

  pub length-terminal_tasks :
      (m : Assoc (TaskEntry V)) → length (terminal_tasks m) + count runs (values m) ≡ length m
  unfolding terminal_tasks
  length-terminal_tasks [] = refl
  length-terminal_tasks ((i, e) ∷ m) = ground (arith, length-terminal_tasks m)

  pub lookup-remove_each :
      (id : String) (xs : List (ℕ × String)) (m : Assoc (TaskEntry V))
      → HasDistinctKeys m
      → lookup id (remove_each xs m) ≡ (elim (time_of id xs) [ none ↦ lookup id m | some _ ↦ none ])
  unfolding remove_each
  lookup-remove_each id [] m d = refl
  lookup-remove_each id ((t, i) ∷ xs) m d = ground (
    arith,
    eq_iff i id,
    lookup-remove_each id xs (remove i m) (remove-HasDistinctKeys i m d),
    lookup-remove_ne i id m,
    lookup-remove_self i m d,
  )

  IsPresent-remove :
      (i : String) (xs : List (ℕ × String)) (m : Assoc (TaskEntry V))
      → time_of i xs ≡ none
      → All (IsPresent m) xs
      → All (IsPresent (remove i m)) xs
  IsPresent-remove i [] m h a = tt
  IsPresent-remove i ((t, j) ∷ xs) m h a = (
    ground (arith, eq_iff i j, eq_iff j i, lookup-remove_ne i j m),
    IsPresent-remove i xs m (ground arith) a.1,
  )

  pub length-remove_each :
      (xs : List (ℕ × String)) (m : Assoc (TaskEntry V))
      → HasDistinctIds xs
      → All (IsPresent m) xs
      → length (remove_each xs m) + length xs ≡ length m
  unfolding remove_each
  length-remove_each [] m d a = omega arith
  length-remove_each ((t, i) ∷ xs) m d a = elim (Option-cases (lookup i m)) [
    | inl e ↦ ground arith
    | inr (v, e) ↦ omega (
      arith,
      length-remove_present i v m e,
      length-remove_each xs (remove i m) d.1 (IsPresent-remove i xs m d.0 a.1),
    )
  ]

  pub remove_each-HasDistinctKeys :
      (xs : List (ℕ × String)) (m : Assoc (TaskEntry V))
      → HasDistinctKeys m
      → HasDistinctKeys (remove_each xs m)
  unfolding remove_each
  remove_each-HasDistinctKeys [] m d = d
  remove_each-HasDistinctKeys ((t, i) ∷ xs) m d =
      remove_each-HasDistinctKeys xs (remove i m) (remove-HasDistinctKeys i m d)
