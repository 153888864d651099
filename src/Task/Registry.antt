-- ===== src/Task/Registry.antt =====
-- `TaskRegistry` of src/server/task.rs: each method is a function on the map. A method that reads
-- the clocks more than once takes a reading for each.
pub mod Parts
pub mod Cancellation
pub mod Settlement
pub mod Admission
use ida_mcp_rs.Base.{
  ℕ, suc, String, Bool, true, false, not, ◌&&◌, ◌||◌, Option, none, some, List, [], ◌∷◌, ◌++◌, find,
  any, length, is_some, ltb, leb, if◌then◌else◌, str_eq,
}
use ida_mcp_rs.Base.Assoc.{Assoc, lookup, insert, modify, update, values}
use ida_mcp_rs.Task.Data.{
  TaskOwner, owner_eq, is_session, TaskCreateError, already_running, existing_task_id_is_private,
  capacity_exceeded, running, is_running, TaskSettlement, unchanged, settled_completed,
  settled_cancelled, settled_failed, TaskCompletionDecision, decided_completed,
  cancellation_pending, decided_unchanged, TaskState, TaskEntry, max_task_registry_entries,
}
use ida_mcp_rs.Task.Clock.{Reading, now_with_iso}
use ida_mcp_rs.Task.Retention.{prune_terminal_tasks, reclaim_capacity_for_admission}
use ida_mcp_rs.Task.Entry

pub data CreateResult : Type 0 where
  ok : String → CreateResult
  err : TaskCreateError → CreateResult

abbrev pub is_unchanged : TaskSettlement → Bool
is_unchanged unchanged = true
is_unchanged settled_completed = false
is_unchanged settled_failed = false
is_unchanged settled_cancelled = false

abbrev pub is_completed : TaskCompletionDecision → Bool
is_completed decided_completed = true
is_completed cancellation_pending = false
is_completed decided_unchanged = false

module _ {V : Type 0} where
  abbrev pub has_key : String → TaskEntry V → Bool
  has_key key e =
      is_running e.state.status && (elim e.state.key [ none ↦ false | some k ↦ str_eq k key ])

  -- `id` is what `next_task_id` returns.
  unfoldable pub create_keyed :
      TaskOwner
      → String
      → String
      → String
      → ℕ
      → Reading
      → Assoc (TaskEntry V)
      → Assoc (TaskEntry V) × CreateResult
  create_keyed owner id key message now r entries =
      let pruned = prune_terminal_tasks now entries in
      elim (find (has_key key) (values pruned)) [
        | some existing ↦ (
          pruned,
          if is_session owner && owner_eq existing.owner owner
              then err (already_running existing.state.id)
              else err existing_task_id_is_private,
        )
        | none ↦
            let room = reclaim_capacity_for_admission pruned in
            if leb max_task_registry_entries (length room)
            then (room, err (capacity_exceeded max_task_registry_entries))
            else let (instant, created) = now_with_iso r in
              let state : TaskState V = record {
                id = id;
                status = running;
                message = message;
                result = none;
                created_at = instant;
                updated_at = instant;
                created_at_iso = created;
                updated_at_iso = created;
                key = some key;
              } in
              (insert id (Entry.new_entry owner state) room, ok id)
      ]

  -- The second part has the tokens on which `cancel` is called.
  unfoldable pub set_cancel_token : String → ℕ → Assoc (TaskEntry V) → Assoc (TaskEntry V) × List ℕ
  set_cancel_token id token entries = modify id (Entry.set_cancel_token (some token)) [] entries

  unfoldable pub bind_workspace_open : String → String → Assoc (TaskEntry V) → Assoc (TaskEntry V)
  bind_workspace_open id database_id entries =
      update id (λ e. record e { workspace_database_id = some database_id }) entries

  unfoldable pub has_running_workspace_open :
      String → ℕ → Assoc (TaskEntry V) → Assoc (TaskEntry V) × Bool
  has_running_workspace_open database_id now entries =
      let pruned = prune_terminal_tasks now entries in
      (
        pruned,
        any
            (λ e.
              is_running e.state.status
              && (elim e.workspace_database_id [ none ↦ false | some d ↦ str_eq d database_id ]))
            (values pruned),
      )

  unfoldable pub get : String → ℕ → Assoc (TaskEntry V) → Assoc (TaskEntry V) × Option (TaskState V)
  get id now entries =
      let pruned = prune_terminal_tasks now entries in
      (pruned, elim (lookup id pruned) [ none ↦ none | some e ↦ some e.state ])

  unfoldable pub get_for_owner :
      TaskOwner → String → ℕ → Assoc (TaskEntry V) → Assoc (TaskEntry V) × Option (TaskState V)
  get_for_owner owner id now entries =
      let pruned = prune_terminal_tasks now entries in
      (
        pruned,
        elim (lookup id pruned) [
          | none ↦ none
          | some e ↦ if owner_eq e.owner owner then some e.state else none
        ],
      )

  unfoldable pub update_message :
      String → String → Reading → Assoc (TaskEntry V) → Assoc (TaskEntry V)
  update_message id message r entries = update id (Entry.update_message r message) entries

  -- The shape that the settling methods share: apply the entry's method, then prune if it settled.
  unfoldable pub settle :
      String
      → (TaskEntry V → TaskEntry V × TaskSettlement)
      → ℕ
      → Assoc (TaskEntry V)
      → Assoc (TaskEntry V) × TaskSettlement
  settle id method now entries =
      let (entries', settlement) = modify id method unchanged entries in
      (if is_unchanged settlement then entries' else prune_terminal_tasks now entries', settlement)

  unfoldable pub complete :
      String → V → Reading → ℕ → Assoc (TaskEntry V) → Assoc (TaskEntry V) × TaskSettlement
  unfolding settle
  complete id result r now entries = settle id (Entry.complete r result) now entries

  -- `is_cancelled` is what the token shows.
  unfoldable pub complete_unless_cancelled :
      V → Bool → String → Reading → TaskEntry V → TaskEntry V × TaskSettlement
  complete_unless_cancelled result is_cancelled cancel_message r e =
      if is_cancelled
      then (let (e', done) = Entry.finish_cancelled r cancel_message e in
          (e', if done then settled_cancelled else unchanged))
      else Entry.complete r result e

  unfoldable pub complete_with_cancel_token :
      String
      → V
      → Bool
      → String
      → Reading
      → ℕ
      → Assoc (TaskEntry V)
      → Assoc (TaskEntry V) × TaskSettlement
  unfolding settle complete_unless_cancelled
  complete_with_cancel_token id result is_cancelled cancel_message r now entries =
      settle id (complete_unless_cancelled result is_cancelled cancel_message r) now entries

  unfoldable pub complete_after_fatal_error :
      String → V → Reading → ℕ → Assoc (TaskEntry V) → Assoc (TaskEntry V) × TaskSettlement
  unfolding settle
  complete_after_fatal_error id result r now entries =
      settle id (Entry.complete_after_fatal_error r result) now entries

  -- The `match` of `complete_or_defer_cancellation` on an entry that is there.
  unfoldable pub decide_completion :
      V → Bool → Reading → TaskEntry V → TaskEntry V × TaskCompletionDecision
  decide_completion result is_cancelled r e =
      if not (is_running e.state.status)
      then (e, decided_unchanged)
      else if is_cancelled || is_some e.cancel_requested
      then (e, cancellation_pending)
      else let (e', settlement) = Entry.complete r result e in
        (
          e',
          elim settlement [
            | settled_completed ↦ decided_completed
            | settled_failed ↦ decided_unchanged
            | settled_cancelled ↦ decided_unchanged
            | unchanged ↦ decided_unchanged
          ],
        )

  unfoldable pub complete_or_defer_cancellation :
      String
      → V
      → Bool
      → Reading
      → ℕ
      → Assoc (TaskEntry V)
      → Assoc (TaskEntry V) × TaskCompletionDecision
  unfolding decide_completion
  complete_or_defer_cancellation id result is_cancelled r now entries =
      let (entries', decision) =
        modify id (decide_completion result is_cancelled r) decided_unchanged entries in
      (if is_completed decision then prune_terminal_tasks now entries' else entries', decision)

  unfoldable pub fail :
      String → String → Reading → ℕ → Assoc (TaskEntry V) → Assoc (TaskEntry V) × TaskSettlement
  unfolding settle
  fail id error r now entries = settle id (Entry.fail r error) now entries

  unfoldable pub fail_after_cleanup_error :
      String → String → Reading → ℕ → Assoc (TaskEntry V) → Assoc (TaskEntry V) × TaskSettlement
  unfolding settle
  fail_after_cleanup_error id error r now entries =
      settle id (Entry.fail_after_cleanup_error r error) now entries

  -- `request_cancel` behind the filter on the owner.
  unfoldable pub request_cancel_as :
      TaskOwner → Reading → TaskEntry V → TaskEntry V × (Bool × List ℕ)
  request_cancel_as owner r e =
      if owner_eq e.owner owner
      then Entry.request_cancel r "Cancelled by client" e
      else (e, (false, []))

  unfoldable pub cancel_for_owner :
      TaskOwner → String → Reading → ℕ → Assoc (TaskEntry V) → Assoc (TaskEntry V) × (Bool × List ℕ)
  unfolding request_cancel_as
  cancel_for_owner owner id r now entries =
      let (entries', outcome) = modify id (request_cancel_as owner r) (false, []) entries in
      (if outcome.0 then prune_terminal_tasks now entries' else entries', outcome)

  unfoldable pub finish_cancelled :
      String → String → Reading → ℕ → Assoc (TaskEntry V) → Assoc (TaskEntry V) × Bool
  finish_cancelled id message r now entries =
      let (entries', cancelled) = modify id (Entry.finish_cancelled r message) false entries in
      (if cancelled then prune_terminal_tasks now entries' else entries', cancelled)

  -- The fold over `values_mut`, with a reading for each entry: the number of new requests, and the
  -- tokens on which `cancel` is called.
  unfoldable pub request_cancel_each :
      String → (String → Reading) → Assoc (TaskEntry V) → Assoc (TaskEntry V) × (ℕ × List ℕ)
  request_cancel_each message readings [] = ([], (0, []))
  request_cancel_each message readings ((id, e) ∷ m) =
      let (rest, (count, tokens)) = request_cancel_each message readings m in
      let (e', (done, token)) = Entry.request_cancel (readings id) message e in
      ((id, e') ∷ rest, (if done then suc count else count, token ++ tokens))

  unfoldable pub cancel_all_running :
      String → (String → Reading) → ℕ → Assoc (TaskEntry V) → Assoc (TaskEntry V) × (ℕ × List ℕ)
  unfolding request_cancel_each
  cancel_all_running message readings now entries =
      let (entries', outcome) = request_cancel_each message readings entries in
      (if ltb 0 outcome.0 then prune_terminal_tasks now entries' else entries', outcome)
