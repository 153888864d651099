-- ===== src/Database/Debugger.antt =====
-- Where the debugger pin of a database in src/ida/pool.rs comes from, and what a client is told of
-- its debugger session.
use ida_mcp_rs.Base.{
  ℕ, ◌≡◌, ◌⊎◌, refl, subst, sym, inl, inr, String, Bool, true, false, ◌||◌, Option, none, some,
  List, [], ◌∷◌, any, arith, Bool-cases, Option-cases,
}
use ida_mcp_rs.Error.{ToolError}
use ida_mcp_rs.Pool.Data.{Result, err}
use ida_mcp_rs.Database.{PooledDatabaseLease, WorkspaceDatabase, is_lease, set_debug_pin_for_lease}
use ida_mcp_rs.Remote.{Reply}
use ida_mcp_rs.Database.Dispatch.{
  debug_start_retains_session, finish_debug_start, lost_before_pinning, pin_dispatched,
}
use ida_mcp_rs.Database.Steps.{Call, step, run}
use ida_mcp_rs.Database.Changes.{
  Change, same, cleared, edited, counted, replaced, may_pin, step-Change,
}

-- Every pin that is set is for a worker and a generation that pass a test.
abbrev Pins : (ℕ → ℕ → Bool) → Option PooledDatabaseLease → Type 0
Pins P none = Unit
Pins P (some lease) = lease.debug_pinned ≡ true → P lease.worker_id lease.generation ≡ true

Change-Pins :
    (P Q : ℕ → ℕ → Bool) (db q : WorkspaceDatabase)
    → Change P db q
    → Pins Q db.handle
    → Pins (λ w g. Q w g || P w g) q.handle
Change-Pins P Q db _ same h = go db.handle h
  where
    go : (o : Option PooledDatabaseLease) → Pins Q o → Pins (λ w g. Q w g || P w g) o
    go none h = tt
    go (some l) h = λ set. ground (arith, h set)
Change-Pins P Q db _ cleared h = tt
Change-Pins P Q db _ (edited old lease e w k keeps p) h =
    let before = subst (Pins Q) e h in
    λ set. elim (p set) [
      | inl was ↦ ground (arith, before was, w, k)
      | inr may ↦ ground (arith, may)
    ]
Change-Pins P Q db _ counted h = tt
Change-Pins P Q db _ (replaced lease k p) h = λ set. cc

imp-Pins :
    (P Q : ℕ → ℕ → Bool) (o : Option PooledDatabaseLease)
    → ((w g : ℕ) → P w g ≡ true → Q w g ≡ true)
    → Pins P o
    → Pins Q o
imp-Pins P Q none imp h = tt
imp-Pins P Q (some l) imp h = λ set. imp l.worker_id l.generation (h set)

-- A pin that a step may set, or one of the later calls.
abbrev pinned_by : List Call → ℕ → ℕ → Bool
pinned_by calls w g = any (λ c. may_pin c w g) calls

module _ (describe : ToolError → String) where
  run-Pins :
      (Q : ℕ → ℕ → Bool) (calls : List Call) (db : WorkspaceDatabase)
      → Pins Q db.handle
      → Pins (λ w g. Q w g || pinned_by calls w g) (run describe calls db).handle
  unfolding run
  run-Pins Q [] db h = imp-Pins Q _ db.handle (λ w g q. ground (arith, q)) h
  run-Pins Q (c ∷ calls) db h =
      imp-Pins (λ w g. (Q w g || may_pin c w g) || pinned_by calls w g)
        (λ w g. Q w g || pinned_by (c ∷ calls) w g) (run describe calls (step describe c db)).handle
        (λ w g q. ground (arith, q))
        (run-Pins (λ w g. Q w g || may_pin c w g) calls (step describe c db)
          (Change-Pins (may_pin c) Q db (step describe c db) (step-Change describe c db) h))

  -- The debugger pin never outlives its worker or its database generation: after any calls on a
  -- database that starts with no lease, a pinned lease was pinned by a debugger start that was served
  -- by this very worker and generation and left its session alive.
  pub pinned-run :
      (calls : List Call) (start : WorkspaceDatabase) (lease : PooledDatabaseLease)
      → start.handle ≡ none
      → (run describe calls start).handle ≡ some lease
      → lease.debug_pinned ≡ true
      → any (λ c. may_pin c lease.worker_id lease.generation) calls ≡ true
  pinned-run calls start lease empty installed set =
      let none_yet : Pins (λ w g. false) start.handle =
        subst (Pins (λ w g. false)) (sym empty) tt in
      subst (Pins (λ w g. false || pinned_by calls w g)) installed
        (run-Pins (λ w g. false) calls start none_yet) set

-- A debugger start that reports a live session has pinned the worker and the generation that served
-- it, or the client is told that the session is lost: no result claims a session that is not held.
pub finish_debug_start-held :
    (tool : String) (served : Option (ℕ × ℕ)) (result : Result Reply) (db : WorkspaceDatabase)
    → debug_start_retains_session result ≡ true
    → let (q, outcome) = finish_debug_start tool served result db in
      (outcome ≡ err (lost_before_pinning tool))
      ⊎ ((w : ℕ) × (g : ℕ) × (lease : PooledDatabaseLease) × (served ≡ some (w, g))
          × (q.handle ≡ some lease)
          × (is_lease w g lease ≡ true)
          × (lease.debug_pinned ≡ true)
          × (outcome ≡ result))
unfolding finish_debug_start pin_dispatched set_debug_pin_for_lease
finish_debug_start-held tool none result db h = inl (ground (arith, h))
finish_debug_start-held tool (some (w, g)) result db h = elim (Option-cases db.handle) [
  | inl e ↦ inl (ground (arith, h, e))
  | inr (l, e) ↦ elim (Bool-cases (is_lease w g l)) [
    | inr other ↦ inl (ground (arith, h, e, other))
    | inl held ↦ inr (
      w,
      g,
      record l { debug_pinned = true },
      refl,
      ground (arith, h, e, held),
      held,
      refl,
      ground (arith, h, e, held),
    )
  ]
]
