-- ===== src/Database/Ownership.antt =====
-- Who may close the shared database of src/ida/pool.rs, and where its debugger pin comes from.
use ida_mcp_rs.Base.{
  ℕ, ◌≤◌, ◌≡◌, ◌⊎◌, refl, subst, ap, ◌∙◌, inl, inr, String, Bool, true, false, Option, none, some,
  List, [], ◌∷◌, arith, ◌==◌, str_eq,
}
use ida_mcp_rs.Error.{ToolError}
use ida_mcp_rs.Pool.Data.{ok}
use ida_mcp_rs.Database.{PooledDatabaseLease, WorkspaceDatabase, has_generation}
use ida_mcp_rs.Database.CloseToken.{
  CloseTokenLease, denied, owned_by, is_token, issue_for_session, authorize_close,
}
use ida_mcp_rs.Database.Closing.{close_authorized, issue_close_token, detach}
use ida_mcp_rs.Database.Steps.{Call, step, run}
use ida_mcp_rs.Database.Changes.{
  Change, same, cleared, edited, counted, replaced, may_pin, step-Change,
}
use ida_mcp_rs.Database.Stale.{IsRetired, Change-IsRetired}

abbrev pub token_of : Option PooledDatabaseLease → Option CloseTokenLease
token_of none = none
token_of (some lease) = lease.close_token

-- The lease of a generation is installed, with a token.
record IsOwned (g : ℕ) (t : CloseTokenLease) (db : WorkspaceDatabase) : Type 0 where
  handed_out : g ≤ db.last_generation
  current : has_generation g db.handle ≡ true
  token : token_of db.handle ≡ some t

Change-IsOwned :
    (P : ℕ → ℕ → Bool) (g : ℕ) (t : CloseTokenLease) (db q : WorkspaceDatabase)
    → Change P db q
    → IsOwned g t db
    → IsOwned g t q ⊎ IsRetired g q
Change-IsOwned P g t db _ same o = inl o
Change-IsOwned P g t db _ cleared o = inr (record { handed_out = o.handed_out; gone = refl })
Change-IsOwned P g t db _ (edited old lease e w k keeps p) o = inl (record {
  handed_out = o.handed_out;
  current = subst (λ j. (j == g) ≡ true) k (subst (λ h. has_generation g h ≡ true) e o.current);
  token = keeps t (subst (λ h. token_of h ≡ some t) e o.token);
})
Change-IsOwned P g t db _ counted o =
    inr (record { handed_out = omega (arith, o.handed_out); gone = refl })
Change-IsOwned P g t db _ (replaced lease k p) o =
    inr
      (record { handed_out = omega (arith, o.handed_out); gone = ground (arith, k, o.handed_out) })

module _ (describe : ToolError → String) where
  run-IsOwned :
      (g : ℕ) (t : CloseTokenLease) (calls : List Call) (db : WorkspaceDatabase)
      → IsOwned g t db ⊎ IsRetired g db
      → IsOwned g t (run describe calls db) ⊎ IsRetired g (run describe calls db)
  unfolding run
  run-IsOwned g t [] db o = o
  run-IsOwned g t (c ∷ calls) db (inl o) =
      run-IsOwned g t calls (step describe c db)
        (Change-IsOwned (may_pin c) g t db (step describe c db) (step-Change describe c db) o)
  run-IsOwned g t (c ∷ calls) db (inr r) =
      run-IsOwned g t calls (step describe c db)
        (inr (Change-IsRetired (may_pin c) g db (step describe c db) (step-Change describe c db) r))

  -- Once a session has been given the close token of a database, then as long as that generation is
  -- open, and whatever calls any session makes, another session that neither presents the token nor
  -- forces the close is denied it, which changes nothing, and is told the owner when it asks for a
  -- token, which leaves the owner's in place. A close that it forces is not meant.
  pub close_authorized-run :
      (calls : List Call) (db : WorkspaceDatabase) (lease current : PooledDatabaseLease)
      (t : CloseTokenLease) (session_id new_token : String) (token : Option String)
      (released : Option ToolError)
      → db.handle ≡ some lease
      → lease.close_token ≡ some t
      → lease.generation ≤ db.last_generation
      → (run describe calls db).handle ≡ some current
      → current.generation ≡ lease.generation
      → str_eq t.owner_session_id session_id ≡ false
      → is_token token t.token ≡ false
      → let q = run describe calls db in
        (close_authorized session_id token false released q ≡ (q, ok (denied t.owner_session_id)))
        × ((issue_close_token session_id lease.generation new_token q).1
            ≡ some (owned_by t.owner_session_id))
        × (token_of (issue_close_token session_id lease.generation new_token q).0.handle ≡ some t)
  unfolding close_authorized issue_close_token issue_for_session authorize_close detach
  close_authorized-run calls db lease current t session_id new_token token released e has bound
        installed same_generation other unknown =
      let start : IsOwned lease.generation t db = record {
        handed_out = bound;
        current = ground (arith, e);
        token = ap token_of e ∙ has;
      } in
      elim (run-IsOwned lease.generation t calls db (inl start)) [
        | inr r ↦ ground (arith, r.gone, installed, same_generation)
        | inl o ↦
            let owned : current.close_token ≡ some t =
              subst (λ h. token_of h ≡ some t) installed o.token in
            (
              ground (arith, installed, owned, other, unknown),
              ground (arith, installed, owned, other, same_generation),
              ground (arith, installed, owned, other, same_generation),
            )
      ]
