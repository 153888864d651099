-- ===== src/Task/Steps/Final.antt =====
-- Terminal states are final: what a client has once read of a settled task never changes.
use ida_mcp_rs.Base.{
  String, true, false, some, List, [], ◌∷◌, ◌≡◌, ◌≢◌, refl, ◌⊎◌, inl, inr, arith, All,
}
use ida_mcp_rs.Base.Assoc.{Assoc, lookup}
use ida_mcp_rs.Task.Data.{is_running, TaskEntry}
use ida_mcp_rs.Task.Registry.Parts.{lookup-prune}
use ida_mcp_rs.Task.Registry.Admission.{create_keyed-origin}
use ida_mcp_rs.Task.Steps.{Call, creates, step, run}
use ida_mcp_rs.Task.Steps.Invariant.{Inv, step-IsShrunk, step-Inv}

module _ {V : Type 0} where
  -- The call creates no task under the id: ids are random and never repeat.
  abbrev pub Spares : String → Call V → Type 0
  Spares j (creates owner id key message now r) = j ≢ id
  Spares j _ = Unit

  -- An entry that was running, or that still has the same state.
  abbrev pub Settled : TaskEntry V → TaskEntry V → Type 0
  Settled e f = (is_running e.state.status ≡ true) ⊎ (f.state ≡ e.state)

  step-final :
      (c : Call V) (j : String) (f : TaskEntry V) (m : Assoc (TaskEntry V))
      → Inv m
      → Spares j c
      → lookup j (step c m) ≡ some f
      → (e : TaskEntry V) × (lookup j m ≡ some e) × Settled e f
  unfolding step
  step-final (creates owner id key message now r) j f m v spared h =
      elim (create_keyed-origin owner id key message now r m v.distinct j f h) [
        | inl old ↦ (f, ground (arith, lookup-prune now j m v.distinct), inr refl)
        | inr (here, _, _) ↦ absurd (spared here)
      ]
  step-final c j f m v spared h =
      let (e, there, st) = (step-IsShrunk c m refl v.distinct).origin j f h in
      (e, there, st.moves.final)

  run_origin :
      (cs : List (Call V)) (j : String) (f : TaskEntry V) (m : Assoc (TaskEntry V))
      → Inv m
      → All (Spares j) cs
      → lookup j (run cs m) ≡ some f
      → (e : TaskEntry V) × (lookup j m ≡ some e) × Settled e f
  unfolding run
  run_origin [] j f m v spared h = (f, h, inr refl)
  run_origin (c ∷ cs) j f m v spared h =
      let (d, later, settled) = run_origin cs j f (step c m) (step-Inv c m v) spared.1 h in
      let (e, now, before) = step-final c j d m v spared.0 later in
      (e, now, ground (arith, settled, before))

  -- From a registry in which the task is settled, whatever calls follow (none of which creates a
  -- task under its id), the task is gone or has exactly the state that it had: status, message,
  -- result and times.
  pub run-final :
      (cs : List (Call V)) (j : String) (e f : TaskEntry V) (m : Assoc (TaskEntry V))
      → Inv m
      → All (Spares j) cs
      → lookup j m ≡ some e
      → is_running e.state.status ≡ false
      → lookup j (run cs m) ≡ some f
      → f.state ≡ e.state
  run-final cs j e f m v spared here settled h =
      let (d, there, moved) = run_origin cs j f m v spared h in ground (arith, there, moved)
