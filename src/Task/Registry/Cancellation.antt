-- ===== src/Task/Registry/Cancellation.antt =====
-- Cancellation: it reaches the token in either order, and decides how the task settles.
use ida_mcp_rs.Base.{ℕ, String, true, false, none, some, [], ◌∷◌, ◌≡◌, arith, eq_iff}
use ida_mcp_rs.Base.Assoc.{
  Assoc, lookup, modify, HasDistinctKeys, lookup-update, lookup-modify, modify-found, modify-absent,
  modify-HasDistinctKeys,
}
use ida_mcp_rs.Task.Data.{TaskOwner, owner_eq, is_running, TaskEntry}
use ida_mcp_rs.Task.Clock.{Reading}
use ida_mcp_rs.Task.Entry
use ida_mcp_rs.Task.Registry.{set_cancel_token, cancel_for_owner, request_cancel_as, get_for_owner}
use ida_mcp_rs.Task.Registry.Parts.{lookup-prune}

module _ {V : Type 0} (id : String) (e : TaskEntry V) (m : Assoc (TaskEntry V)) where
  -- A request that is accepted: its outcome, and the entry that waits for the operation to settle.
  cancel_found :
      (owner : TaskOwner) (r : Reading) (now : ℕ)
      → HasDistinctKeys m
      → lookup id m ≡ some e
      → owner_eq e.owner owner ≡ true
      → is_running e.state.status ≡ true
      → e.cancel_requested ≡ none
      → ((cancel_for_owner owner id r now m).1
          ≡ (true, elim e.cancel_token [ none ↦ [] | some t ↦ t ∷ [] ]))
        × (lookup id (cancel_for_owner owner id r now m).0
            ≡ some (Entry.request_cancel r "Cancelled by client" e).0)
  unfolding cancel_for_owner Entry.request_cancel
  cancel_found owner r now d found owns runs fresh = ground (
    arith,
    modify-found id (request_cancel_as owner r) (false, []) e m found,
    modify-HasDistinctKeys id (request_cancel_as owner r) (false, []) m d,
    lookup-prune now id (modify id (request_cancel_as owner r) (false, []) m).0,
  )

  -- A client's cancellation of its running task reaches the operation's token, whichever of the two
  -- comes first: the registration of the token or the request.
  pub cancel-set_cancel_token :
      (owner : TaskOwner) (t : ℕ) (r : Reading) (now : ℕ)
      → HasDistinctKeys m
      → lookup id m ≡ some e
      → owner_eq e.owner owner ≡ true
      → is_running e.state.status ≡ true
      → e.cancel_requested ≡ none
      → ((cancel_for_owner owner id r now (set_cancel_token id t m).0).1 ≡ (true, t ∷ []))
        × ((set_cancel_token id t (cancel_for_owner owner id r now m).0).1 ≡ t ∷ [])
  unfolding set_cancel_token Entry.set_cancel_token
  cancel-set_cancel_token owner t r now d found owns runs fresh = (
    unfold cancel_for_owner modify Entry.request_cancel in
        ground
          (arith, eq_iff id id, lookup-update id id (λ _. (Entry.set_cancel_token (some t) e).0) m),
    unfold Entry.request_cancel in
        ground (
          arith,
          cancel_found owner r now d found owns runs fresh,
          modify-found id (Entry.set_cancel_token (some t)) []
              (Entry.request_cancel r "Cancelled by client" e).0
              (cancel_for_owner owner id r now m).0,
        ),
  )

  -- To anyone but its owner a task is as good as unknown: reading it and cancelling it answer, and
  -- leave the registry, as they do for an id that is not there, and no token is cancelled.
  pub foreign_task :
      (owner : TaskOwner) (other j : String) (r : Reading) (now : ℕ)
      → HasDistinctKeys m
      → lookup id m ≡ some e
      → owner_eq e.owner owner ≡ false
      → lookup other m ≡ none
      → (get_for_owner owner id now m ≡ get_for_owner owner other now m)
        × ((cancel_for_owner owner id r now m).1 ≡ (cancel_for_owner owner other r now m).1)
        × (lookup j (cancel_for_owner owner id r now m).0 ≡ lookup j m)
  unfolding get_for_owner cancel_for_owner
  foreign_task owner other j r now d found foreign absent = (
    ground (arith, lookup-prune now id m d, lookup-prune now other m d),
    ground (
      arith,
      modify-found id (request_cancel_as owner r) (false, []) e m found,
      modify-absent other (request_cancel_as owner r) (false, []) m absent,
    ),
    ground (
      arith,
      eq_iff id j,
      modify-found id (request_cancel_as owner r) (false, []) e m found,
      lookup-modify id j (request_cancel_as owner r) (false, []) m,
    ),
  )
