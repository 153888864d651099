-- ===== src/Task/Entry.antt =====
-- The methods of `TaskEntry` in src/server/task.rs. A `&mut self` method returns the new entry and
-- its result. A call of `CancellationToken::cancel` is the token's name in a list of calls.
pub mod Lifecycle
use Prim.Native.String.{◌++◌}
use ida_mcp_rs.Base.{
  ℕ, String, Bool, true, false, not, ◌&&◌, ◌||◌, Option, none, some, List, [], ◌∷◌, is_some,
  if◌then◌else◌,
}
use ida_mcp_rs.Task.Data.{
  TaskOwner, completed, failed, cancelled, is_running, TaskSettlement, settled_completed,
  settled_failed, settled_cancelled, unchanged, TaskState, TaskEntry,
}
use ida_mcp_rs.Task.Clock.{Reading, now_with_iso}

module _ {V : Type 0} where
  unfoldable pub new_entry : TaskOwner → TaskState V → TaskEntry V
  new_entry owner state = record {
    owner = owner;
    state = state;
    workspace_database_id = none;
    cancel_token = none;
    cancel_requested = none;
  }

  unfoldable pub refresh_updated : Reading → TaskState V → TaskState V
  refresh_updated r s =
      let (updated_at, updated_at_iso) = now_with_iso r in
      record s { updated_at = updated_at; updated_at_iso = updated_at_iso }

  -- The second part has the tokens on which `cancel` is called.
  unfoldable pub set_cancel_token : Option ℕ → TaskEntry V → TaskEntry V × List ℕ
  set_cancel_token token e = (
    record e { cancel_token = token },
    if is_some e.cancel_requested then (elim token [ none ↦ [] | some t ↦ t ∷ [] ]) else [],
  )

  unfoldable pub clear_runtime : TaskEntry V → TaskEntry V
  clear_runtime e = record e { cancel_token = none }

  unfoldable pub transition_cancelled : Reading → String → TaskEntry V → TaskEntry V
  unfolding refresh_updated clear_runtime
  transition_cancelled r message e = record (clear_runtime e) {
    cancel_requested = none;
    state = refresh_updated r (record e.state { status = cancelled; message = message });
  }

  unfoldable pub complete : Reading → V → TaskEntry V → TaskEntry V × TaskSettlement
  unfolding refresh_updated clear_runtime transition_cancelled
  complete r result e =
      if not (is_running e.state.status) then (e, unchanged) else (elim e.cancel_requested [
        | some message ↦ (transition_cancelled r message e, settled_cancelled)
        | none ↦ (
          clear_runtime (record e {
            state = refresh_updated r (record e.state {
              status = completed;
              message = "Completed";
              result = some result;
            });
          }),
          settled_completed,
        )
      ])

  unfoldable pub complete_after_fatal_error :
      Reading → V → TaskEntry V → TaskEntry V × TaskSettlement
  unfolding complete
  complete_after_fatal_error r result e =
      if not (is_running e.state.status)
      then (e, unchanged)
      else complete r result (record e { cancel_requested = none })

  -- What the two failing methods write.
  transition_failed : Reading → String → TaskEntry V → TaskEntry V
  unfolding refresh_updated clear_runtime
  transition_failed r error e =
      clear_runtime (record e {
        state = refresh_updated r (record e.state { status = failed; message = error });
      })

  unfoldable pub fail : Reading → String → TaskEntry V → TaskEntry V × TaskSettlement
  unfolding transition_failed transition_cancelled
  fail r error e =
      if not (is_running e.state.status) then (e, unchanged) else (elim e.cancel_requested [
        | some message ↦ (transition_cancelled r message e, settled_cancelled)
        | none ↦ (transition_failed r error e, settled_failed)
      ])

  unfoldable pub fail_after_cleanup_error :
      Reading → String → TaskEntry V → TaskEntry V × TaskSettlement
  unfolding transition_failed
  fail_after_cleanup_error r error e =
      if not (is_running e.state.status)
      then (e, unchanged)
      else (transition_failed r error (record e { cancel_requested = none }), settled_failed)

  -- The result, and the tokens on which `cancel` is called.
  unfoldable pub request_cancel : Reading → String → TaskEntry V → TaskEntry V × (Bool × List ℕ)
  unfolding refresh_updated
  request_cancel r message e =
      if not (is_running e.state.status) || is_some e.cancel_requested then (e, (false, [])) else (
        record e {
          cancel_requested = some message;
          state =
              refresh_updated r
                (record e.state { message = message ++ "; waiting for the operation to settle" });
        },
        (true, elim e.cancel_token [ none ↦ [] | some t ↦ t ∷ [] ]),
      )

  unfoldable pub finish_cancelled : Reading → String → TaskEntry V → TaskEntry V × Bool
  unfolding transition_cancelled
  finish_cancelled r message e =
      if not (is_running e.state.status)
      then (e, false)
      else (transition_cancelled r message e, true)

  unfoldable pub update_message : Reading → String → TaskEntry V → TaskEntry V
  unfolding refresh_updated
  update_message r message e =
      if is_running e.state.status && not (is_some e.cancel_requested)
      then record e { state = refresh_updated r (record e.state { message = message }) }
      else e
