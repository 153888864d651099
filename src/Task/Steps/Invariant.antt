-- ===== src/Task/Steps/Invariant.antt =====
-- The invariant of the task registry, and that every method keeps it.
use ida_mcp_rs.Base.{
  ℕ, ◌≤◌, String, Bool, true, false, none, some, List, [], ◌∷◌, ◌≡◌, refl, ◌⊎◌, inl, inr, ◌∙◌, sym,
  subst, arith, length, find, eq_iff,
}
use ida_mcp_rs.Base.Assoc.{Assoc, lookup, values, HasDistinctKeys}
use ida_mcp_rs.Task.Data.{TaskOwner, TaskEntry, max_task_registry_entries}
use ida_mcp_rs.Task.Clock.{Reading}
use ida_mcp_rs.Task.Retention.{prune_terminal_tasks}
use ida_mcp_rs.Task.Entry.Lifecycle.{
  IsStep, IsConsistent, set_cancel_token-IsStep, bind-IsStep, update_message-IsStep,
  request_cancel-IsStep, finish_cancelled-IsStep, complete-IsStep,
  complete_after_fatal_error-IsStep, fail-IsStep, fail_after_cleanup_error-IsStep, IsStep-refl,
}
use ida_mcp_rs.Task.Registry.{
  has_key, create_keyed, set_cancel_token, bind_workspace_open, update_message,
  has_running_workspace_open, get, get_for_owner, complete, complete_with_cancel_token,
  complete_unless_cancelled, complete_after_fatal_error, complete_or_defer_cancellation,
  decide_completion, fail, fail_after_cleanup_error, cancel_for_owner, request_cancel_as,
  finish_cancelled, cancel_all_running,
}
use ida_mcp_rs.Task.Registry.Parts.{
  IsShrunk, IsShrunk-refl, lookup-prune, prune-IsShrunk, if-IsShrunk, update-IsShrunk,
  modify-IsShrunk, settle-IsShrunk, request_cancel_each-IsShrunk,
}
use ida_mcp_rs.Task.Registry.Admission.{
  created, find-none, create_keyed-origin, create_keyed-HasDistinctKeys, create_keyed-bounded,
}
use ida_mcp_rs.Task.Steps.{
  Call, creates, sets_cancel_token, binds_workspace_open, asks_workspace_open, gets, gets_for_owner,
  updates_message, completes, completes_with_token, completes_after_fatal_error,
  completes_or_defers, fails, fails_after_cleanup_error, cancels_for_owner, finishes_cancelled,
  cancels_all_running, step, run,
}

module _ {V : Type 0} where
  abbrev pub is_creation : Call V → Bool
  is_creation (creates owner id key message now r) = true
  is_creation _ = false

  -- Two running tasks never share a key, each task is stored under its own id, and each is
  -- consistent.
  pub record Inv (m : Assoc (TaskEntry V)) : Type 0 where
    pub distinct : HasDistinctKeys m
    pub bounded : length m ≤ max_task_registry_entries
    pub own_id : (j : String) (e : TaskEntry V) → lookup j m ≡ some e → e.state.id ≡ j
    pub consistent : (j : String) (e : TaskEntry V) → lookup j m ≡ some e → IsConsistent e
    pub deduplicated :
        (key i j : String) (e f : TaskEntry V)
        → lookup i m ≡ some e
        → lookup j m ≡ some f
        → has_key key e ≡ true
        → has_key key f ≡ true
        → i ≡ j

  complete_unless_cancelled-IsStep :
      (v : V) (c : Bool) (message : String) (r : Reading) (e : TaskEntry V)
      → IsStep e (complete_unless_cancelled v c message r e).0
  unfolding complete_unless_cancelled
  complete_unless_cancelled-IsStep v true message r e = finish_cancelled-IsStep r message e
  complete_unless_cancelled-IsStep v false message r e = complete-IsStep r v e

  decide_completion-IsStep :
      (v : V) (c : Bool) (r : Reading) (e : TaskEntry V) → IsStep e (decide_completion v c r e).0
  unfolding decide_completion
  decide_completion-IsStep v c r e = ground (arith, complete-IsStep r v e, IsStep-refl e)

  request_cancel_as-IsStep :
      (owner : TaskOwner) (r : Reading) (e : TaskEntry V) → IsStep e (request_cancel_as owner r e).0
  unfolding request_cancel_as
  request_cancel_as-IsStep owner r e =
      ground (arith, request_cancel-IsStep r "Cancelled by client" e, IsStep-refl e)

  -- Every method but `create_keyed` changes entries one by one, and adds none.
  pub step-IsShrunk :
      (c : Call V) (m : Assoc (TaskEntry V))
      → is_creation c ≡ false
      → HasDistinctKeys m
      → IsShrunk m (step c m)
  unfolding step
  step-IsShrunk (creates owner id key message now r) m h d = cc
  step-IsShrunk (sets_cancel_token id t) m h d =
      unfold set_cancel_token in modify-IsShrunk id _ _ m (set_cancel_token-IsStep (some t)) d
  step-IsShrunk (binds_workspace_open id w) m h d =
      unfold bind_workspace_open in update-IsShrunk id _ m (bind-IsStep w) d
  step-IsShrunk (asks_workspace_open w now) m h d =
      unfold has_running_workspace_open in prune-IsShrunk now m m (IsShrunk-refl m d)
  step-IsShrunk (gets id now) m h d = unfold get in prune-IsShrunk now m m (IsShrunk-refl m d)
  step-IsShrunk (gets_for_owner owner id now) m h d =
      unfold get_for_owner in prune-IsShrunk now m m (IsShrunk-refl m d)
  step-IsShrunk (updates_message id message r) m h d =
      unfold update_message in update-IsShrunk id _ m (update_message-IsStep r message) d
  step-IsShrunk (completes id v r now) m h d =
      unfold complete in settle-IsShrunk id _ now m (complete-IsStep r v) d
  step-IsShrunk (completes_with_token id v c message r now) m h d =
      unfold complete_with_cancel_token in
      settle-IsShrunk id _ now m (complete_unless_cancelled-IsStep v c message r) d
  step-IsShrunk (completes_after_fatal_error id v r now) m h d =
      unfold complete_after_fatal_error in
      settle-IsShrunk id _ now m (complete_after_fatal_error-IsStep r v) d
  step-IsShrunk (completes_or_defers id v c r now) m h d =
      unfold complete_or_defer_cancellation in
      (let s = modify-IsShrunk id _ _ m (decide_completion-IsStep v c r) d in
        if-IsShrunk _ m _ _ (prune-IsShrunk now m _ s) s)
  step-IsShrunk (fails id error r now) m h d =
      unfold fail in settle-IsShrunk id _ now m (fail-IsStep r error) d
  step-IsShrunk (fails_after_cleanup_error id error r now) m h d =
      unfold fail_after_cleanup_error in
      settle-IsShrunk id _ now m (fail_after_cleanup_error-IsStep r error) d
  step-IsShrunk (cancels_for_owner owner id r now) m h d =
      unfold cancel_for_owner in
      (let s = modify-IsShrunk id _ _ m (request_cancel_as-IsStep owner r) d in
        if-IsShrunk _ m _ _ (prune-IsShrunk now m _ s) s)
  step-IsShrunk (finishes_cancelled id message r now) m h d =
      unfold finish_cancelled in
      (let s = modify-IsShrunk id _ _ m (finish_cancelled-IsStep r message) d in
        if-IsShrunk _ m _ _ (prune-IsShrunk now m _ s) s)
  step-IsShrunk (cancels_all_running message readings now) m h d =
      unfold cancel_all_running in
      (let s = request_cancel_each-IsShrunk message readings m d in
        if-IsShrunk _ m _ _ (prune-IsShrunk now m _ s) s)

  has_key-IsStep :
      (key : String) (e f : TaskEntry V) → IsStep e f → has_key key f ≡ true → has_key key e ≡ true
  has_key-IsStep key e f s h = ground (arith, s.moves.same_key, s.moves.final)

  IsShrunk-Inv : (m n : Assoc (TaskEntry V)) → IsShrunk m n → Inv m → Inv n
  IsShrunk-Inv m n s v = record {
    distinct = s.distinct;
    bounded = omega (arith, s.shorter, v.bounded);
    own_id = λ j f h. let (e, there, st) = s.origin j f h in st.moves.same_id ∙ v.own_id j e there;
    consistent = λ j f h. let (e, there, st) = s.origin j f h in st.keeps (v.consistent j e there);
    deduplicated = λ key i j f g hi hj ki kj.
        let (e, at_i, si) = s.origin i f hi in
        let (d, at_j, sj) = s.origin j g hj in
        v.deduplicated key i j e d at_i at_j (has_key-IsStep key e f si ki)
          (has_key-IsStep key d g sj kj);
  }

  lookup-pruned :
      (now : ℕ) (j : String) (e : TaskEntry V) (m : Assoc (TaskEntry V))
      → HasDistinctKeys m
      → lookup j (prune_terminal_tasks now m) ≡ some e
      → lookup j m ≡ some e
  lookup-pruned now j e m d h = ground (arith, lookup-prune now j m d)

  created-IsConsistent :
      (owner : TaskOwner) (id key message : String) (r : Reading)
      → IsConsistent (created {V = V} owner id key message r)
  created-IsConsistent owner id key message r = record { result_iff = refl; pending_runs = refl }

  has_key-same :
      (key key' : String) (owner : TaskOwner) (id message : String) (r : Reading) (f : TaskEntry V)
      → f ≡ created owner id key message r
      → has_key key' f ≡ true
      → key ≡ key'
  has_key-same key key' owner id message r f new h = ground (arith, eq_iff key key')

  create_keyed-Inv :
      (owner : TaskOwner) (id key message : String) (now : ℕ) (r : Reading)
      (m : Assoc (TaskEntry V))
      → Inv m
      → Inv (create_keyed owner id key message now r m).0
  create_keyed-Inv owner id key message now r m v = record {
    distinct = create_keyed-HasDistinctKeys owner id key message now r m v.distinct;
    bounded = create_keyed-bounded owner id key message now r m v.distinct v.bounded;
    own_id = λ j f h. elim (from j f h) [
      | inl old ↦ v.own_id j f (lookup-pruned now j f m v.distinct old)
      | inr (here, new, _) ↦ rw (here, new)
    ];
    consistent = λ j f h. elim (from j f h) [
      | inl old ↦ v.consistent j f (lookup-pruned now j f m v.distinct old)
      | inr (here, new, _) ↦ rw new (created-IsConsistent owner id key message r)
    ];
    deduplicated = λ k i j e f hi hj ki kj. elim (from i e hi) [
      | inl old ↦ elim (from j f hj) [
        | inl old' ↦
            v.deduplicated k i j e f (lookup-pruned now i e m v.distinct old)
              (lookup-pruned now j f m v.distinct old') ki kj
        | inr (_, new, free) ↦ absurd (clash k i e f old new free ki kj)
      ]
      | inr (here, new, free) ↦ elim (from j f hj) [
        | inl old' ↦ absurd (clash k j f e old' new free kj ki)
        | inr (there, _, _) ↦ here ∙ sym there
      ]
    ];
  }
    where
      from :
          (j : String) (f : TaskEntry V)
          → lookup j (create_keyed owner id key message now r m).0 ≡ some f
          → (lookup j (prune_terminal_tasks now m) ≡ some f)
            ⊎ ((j ≡ id)
                × (f ≡ created owner id key message r)
                × (find (has_key key) (values (prune_terminal_tasks now m)) ≡ none))
      from = create_keyed-origin owner id key message now r m v.distinct

      clash :
          (k i : String) (e f : TaskEntry V)
          → lookup i (prune_terminal_tasks now m) ≡ some e
          → f ≡ created owner id key message r
          → find (has_key key) (values (prune_terminal_tasks now m)) ≡ none
          → has_key k e ≡ true
          → has_key k f ≡ true
          → ⊥
      clash k i e f old new free ke kf =
          let same : key ≡ k = has_key-same key k owner id message r f new kf in
          let none_has = find-none (has_key key) i e (prune_terminal_tasks now m) free old in
          let has : has_key key e ≡ true = subst (λ q. has_key q e ≡ true) (sym same) ke in cc

  -- Every method keeps the invariant of the registry.
  pub step-Inv : (c : Call V) (m : Assoc (TaskEntry V)) → Inv m → Inv (step c m)
  unfolding step
  step-Inv (creates owner id key message now r) m v =
      create_keyed-Inv owner id key message now r m v
  step-Inv c m v = IsShrunk-Inv m _ (step-IsShrunk c m refl v.distinct) v

  -- So it holds after every sequence of calls on a new registry: at most 256 entries, each under its
  -- own id, a result exactly on completed tasks, a pending cancellation only on running ones, and no
  -- two running tasks with one key.
  pub run-Inv : (cs : List (Call V)) (m : Assoc (TaskEntry V)) → Inv m → Inv (run cs m)
  unfolding run
  run-Inv [] m v = v
  run-Inv (c ∷ cs) m v = run-Inv cs (step c m) (step-Inv c m v)
