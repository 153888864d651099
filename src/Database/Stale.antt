-- ===== src/Database/Stale.antt =====
-- Operations bound to a database generation that was closed or replaced, in src/ida/pool.rs.
use ida_mcp_rs.Base.{
  ℕ, ◌≤◌, ◌≡◌, ◌⊎◌, refl, subst, sym, inl, inr, String, Bool, false, Option, none, some, List, [],
  ◌∷◌, arith, ◌==◌, Option-cases,
}
use ida_mcp_rs.Error.{ToolError, no_database_open, database_replaced}
use ida_mcp_rs.Pool.Data.{ok, err}
use ida_mcp_rs.Database.{
  PooledDatabaseLease, WorkspaceDatabase, has_generation, set_debug_pin_for_lease,
  clear_handle_if_lease, require_lease_generation, required_handle_for_generation,
}
use ida_mcp_rs.Database.Closing.{issue_close_token, close_if_generation, not_current}
use ida_mcp_rs.Database.Steps.{Call, step, run}
use ida_mcp_rs.Database.Changes.{
  Change, same, cleared, edited, counted, replaced, may_pin, step-Change,
}

abbrev pub IsBounded : ℕ → Option PooledDatabaseLease → Type 0
IsBounded n none = Unit
IsBounded n (some lease) = lease.generation ≤ n

pub Change-grows :
    (P : ℕ → ℕ → Bool) (db q : WorkspaceDatabase) (g : ℕ)
    → Change P db q
    → g ≤ db.last_generation
    → g ≤ q.last_generation
Change-grows P db _ g same h = h
Change-grows P db _ g cleared h = h
Change-grows P db _ g (edited old lease e w k tk pk) h = h
Change-grows P db _ g counted h = omega (arith, h)
Change-grows P db _ g (replaced lease k p) h = omega (arith, h)

-- A generation that was handed out and is not the current one.
pub record IsRetired (g : ℕ) (db : WorkspaceDatabase) : Type 0 where
  pub handed_out : g ≤ db.last_generation
  pub gone : has_generation g db.handle ≡ false

pub Change-IsBounded :
    (P : ℕ → ℕ → Bool) (db q : WorkspaceDatabase)
    → Change P db q
    → IsBounded db.last_generation db.handle
    → IsBounded q.last_generation q.handle
Change-IsBounded P db _ same b = b
Change-IsBounded P db _ cleared b = tt
Change-IsBounded P db _ (edited old lease e w g tk pk) b =
    let c : IsBounded db.last_generation (some old) = subst (IsBounded db.last_generation) e b in
    omega (arith, c, g)
Change-IsBounded P db _ counted b = tt
Change-IsBounded P db _ (replaced lease g p) b = omega (arith, g)

pub Change-IsRetired :
    (P : ℕ → ℕ → Bool) (g : ℕ) (db q : WorkspaceDatabase)
    → Change P db q
    → IsRetired g db
    → IsRetired g q
Change-IsRetired P g db _ same r = r
Change-IsRetired P g db _ cleared r = record { handed_out = r.handed_out; gone = refl }
Change-IsRetired P g db _ (edited old lease e w k tk pk) r = record {
  handed_out = r.handed_out;
  gone = subst (λ j. (j == g) ≡ false) k (subst (λ h. has_generation g h ≡ false) e r.gone);
}
Change-IsRetired P g db _ counted r = record {
  handed_out = omega (arith, r.handed_out);
  gone = refl;
}
Change-IsRetired P g db _ (replaced lease k p) r = record {
  handed_out = omega (arith, r.handed_out);
  gone = ground (arith, k, r.handed_out);
}

module _ (describe : ToolError → String) where
  pub run-IsBounded :
      (calls : List Call) (db : WorkspaceDatabase)
      → IsBounded db.last_generation db.handle
      → IsBounded (run describe calls db).last_generation (run describe calls db).handle
  unfolding run
  run-IsBounded [] db b = b
  run-IsBounded (c ∷ calls) db b =
      run-IsBounded calls (step describe c db)
        (Change-IsBounded (may_pin c) db (step describe c db) (step-Change describe c db) b)

  run-IsRetired :
      (g : ℕ) (calls : List Call) (db : WorkspaceDatabase)
      → IsRetired g db
      → IsRetired g (run describe calls db)
  unfolding run
  run-IsRetired g [] db r = r
  run-IsRetired g (c ∷ calls) db r =
      run-IsRetired g calls (step describe c db)
        (Change-IsRetired (may_pin c) g db (step describe c db) (step-Change describe c db) r)

-- What the operations bound to a generation come to once it is retired.
pub record Refuses (g : ℕ) (db : WorkspaceDatabase) : Type 0 where
  pub requires :
      (required_handle_for_generation (some g) db ≡ err no_database_open)
      ⊎ (required_handle_for_generation (some g) db ≡ err database_replaced)
  pub pins : (w : ℕ) (pinned : Bool) → set_debug_pin_for_lease w g pinned db ≡ (db, false)
  pub clears : (w : ℕ) → clear_handle_if_lease w g db ≡ (db, false)
  pub closes :
      (released : Option ToolError) → close_if_generation g released db ≡ (db, ok not_current)
  pub issues : (session_id token : String) → issue_close_token session_id g token db ≡ (db, none)

IsRetired-Refuses : (g : ℕ) (db : WorkspaceDatabase) → IsRetired g db → Refuses g db
unfolding required_handle_for_generation require_lease_generation set_debug_pin_for_lease
    clear_handle_if_lease close_if_generation issue_close_token
IsRetired-Refuses g db r = record {
  requires = elim (Option-cases db.handle) [
    | inl e ↦ inl (ground (arith, e))
    | inr (l, e) ↦ inr (ground (arith, e, r.gone))
  ];
  pins = λ w pinned. ground (arith, r.gone);
  clears = λ w. ground (arith, r.gone);
  closes = λ released. ground (arith, r.gone);
  issues = λ session_id token. ground (arith, r.gone);
}

-- A call bound to a database generation never reaches a later one: once the lease of a generation is
-- no longer installed, then after any calls whatsoever an operation for that generation is refused,
-- with no database open or with the database replaced, and a pin, a clearing, a conditional close
-- or a token for it changes nothing.
pub run-Refuses :
    (describe : ToolError → String) (before after : List Call) (c : Call)
    (lease : PooledDatabaseLease) (start : WorkspaceDatabase)
    → start.handle ≡ none
    → (run describe before start).handle ≡ some lease
    → has_generation lease.generation (step describe c (run describe before start)).handle ≡ false
    → Refuses lease.generation (run describe after (step describe c (run describe before start)))
run-Refuses describe before after c lease start empty installed gone =
    let db = run describe before start in
    let b : IsBounded db.last_generation db.handle =
      run-IsBounded describe before start
        (subst (IsBounded start.last_generation) (sym empty) tt) in
    let held : IsBounded db.last_generation (some lease) =
      subst (IsBounded db.last_generation) installed b in
    IsRetired-Refuses lease.generation (run describe after (step describe c db)) (
      run-IsRetired describe lease.generation after (step describe c db) (record {
        handed_out =
            Change-grows (may_pin c) db (step describe c db) lease.generation
              (step-Change describe c db) held;
        gone = gone;
      }))
