-- ===== src/Disconnect.antt =====
-- The disconnect cleanup of pooled HTTP sessions in src/server/http_config.rs: the methods of
-- `SessionDisconnectRegistry` and the streams whose guards call them. The map is behind a lock, so
-- each section under it is one step; a poisoned lock is outside the model.
pub mod Reconnect
pub mod Streams
mod Tests
use ida_mcp_rs.Base.{
  ℕ, zero, suc, ◌+◌, ◌-◌, ◌%◌, ◌^◌, min, String, Bool, true, false, ◌&&◌, Option, none, some, List,
  [], ◌∷◌, ◌==◌, if◌then◌else◌, str_eq, count,
}
use ida_mcp_rs.Base.Assoc.{Assoc, lookup, insert, remove}

pub record SessionDisconnectState : Type 0 where
  pub generation : ℕ
  pub active_streams : ℕ
  pub abandoned_generation : Option ℕ

abbrev pub default_state : SessionDisconnectState
default_state = record { generation = 0; active_streams = 0; abandoned_generation = none }

abbrev pub state_or_default : Option SessionDisconnectState → SessionDisconnectState
state_or_default none = default_state
state_or_default (some s) = s

abbrev pub opened : SessionDisconnectState → SessionDisconnectState
opened s = record {
  generation = (s.generation + 1) % 2 ^ 64;
  active_streams = min (s.active_streams + 1) (2 ^ 64 - 1);
  abandoned_generation = none;
}

-- The new map, and the generation of the guard.
unfoldable pub stream_opened :
    String → Assoc SessionDisconnectState → Assoc SessionDisconnectState × ℕ
stream_opened session_id states =
    let state = opened (state_or_default (lookup session_id states)) in
    (insert session_id state states, state.generation)

unfoldable pub session_closed : String → Assoc SessionDisconnectState → Assoc SessionDisconnectState
session_closed session_id states = remove session_id states

-- The write of `stream_closed`.
abbrev pub closed : ℕ → Bool → SessionDisconnectState → SessionDisconnectState
closed generation abandoned s = record s {
  active_streams = s.active_streams - 1;
  abandoned_generation = if abandoned then some generation else s.abandoned_generation;
}

-- The generation that the cleanup is to close, if one is called for.
abbrev pub close_generation : SessionDisconnectState → Option ℕ
close_generation s = if s.active_streams == 0 then s.abandoned_generation else none

-- The section of `stream_closed` under the lock: the new map, and the generation to close.
unfoldable pub stream_closed :
    String → ℕ → Bool → Assoc SessionDisconnectState → Assoc SessionDisconnectState × Option ℕ
stream_closed session_id generation abandoned states = elim (lookup session_id states) [
  | none ↦ (states, none)
  | some s ↦
      let state = closed generation abandoned s in
      (insert session_id state states, close_generation state)
]

abbrev pub is_generation : ℕ → Option ℕ → Bool
is_generation generation none = false
is_generation generation (some g) = g == generation

unfoldable pub should_close : String → ℕ → Assoc SessionDisconnectState → Bool
should_close session_id generation states = elim (lookup session_id states) [
  | none ↦ false
  | some s ↦ is_generation generation s.abandoned_generation && s.active_streams == 0
]

-- A stream with its guard: TrackedSessionStream.
pub record Stream : Type 0 where
  pub session_id : String
  pub generation : ℕ
  pub close_on_drop : Bool

-- `cleanups` are the spawned cleanups, with their generations, that have yet to check, and `closing`
-- the sessions that are to be forgotten next: those for which a cleanup awaits `close_session`, and
-- those whose stream was dropped outside a runtime.
pub record Server : Type 0 where
  pub states : Assoc SessionDisconnectState
  pub streams : List Stream
  pub cleanups : List (String × ℕ)
  pub closing : List String

-- A stream ends by its last item, or is dropped before. A cleanup checks at any time after it was
-- spawned. While it awaits the close of the session, which may succeed or fail, other steps may come;
-- then it forgets the session. A close that a client asks for is `closes`.
pub data Step : Type 0 where
  opens : String → Bool → Step
  ends : String → ℕ → Bool → Bool → Step
  checks : String → ℕ → Step
  forgets : String → Step
  closes : String → Step

-- The stream that a guard names, and the others.
unfoldable pub take_stream : String → ℕ → List Stream → Option (Stream × List Stream)
take_stream session_id generation [] = none
take_stream session_id generation (s ∷ ss) =
    let later = take_stream session_id generation ss in
    if str_eq s.session_id session_id && s.generation == generation
    then some (s, ss)
    else (elim later [ none ↦ none | some (found, rest) ↦ some (found, s ∷ rest) ])

-- What follows the section: inside a runtime a cleanup is spawned.
abbrev pub spawn_cleanup : Bool → String → Option ℕ → List (String × ℕ) → List (String × ℕ)
spawn_cleanup in_runtime session_id none cleanups = cleanups
spawn_cleanup in_runtime session_id (some generation) cleanups =
    if in_runtime then (session_id, generation) ∷ cleanups else cleanups

-- Outside a runtime, where none can be spawned, the session is only to be forgotten.
abbrev pub skip_cleanup : Bool → String → Option ℕ → List String → List String
skip_cleanup in_runtime session_id none closing = closing
skip_cleanup in_runtime session_id (some generation) closing =
    if in_runtime then closing else session_id ∷ closing

abbrev pub is_cleanup : String → ℕ → String × ℕ → Bool
is_cleanup session_id generation (i, g) = str_eq i session_id && g == generation

-- The cleanup of a session and a generation, and the others.
unfoldable pub take_cleanup : String → ℕ → List (String × ℕ) → Option (List (String × ℕ))
take_cleanup session_id generation [] = none
take_cleanup session_id generation (c ∷ cs) =
    let later = take_cleanup session_id generation cs in
    if is_cleanup session_id generation c
    then some cs
    else (elim later [ none ↦ none | some rest ↦ some (c ∷ rest) ])

unfoldable pub take_closing : String → List String → Option (List String)
take_closing session_id [] = none
take_closing session_id (i ∷ is) =
    let later = take_closing session_id is in
    if str_eq i session_id
    then some is
    else (elim later [ none ↦ none | some rest ↦ some (i ∷ rest) ])

unfoldable pub step : Step → Server → Server
unfolding stream_opened stream_closed should_close session_closed take_stream take_cleanup
    take_closing
step (opens session_id close_on_drop) p =
    let (states, generation) = stream_opened session_id p.states in
    record p {
      states = states;
      streams =
          record { session_id = session_id; generation = generation; close_on_drop = close_on_drop }
          ∷ p.streams;
    }
step (ends session_id generation exhausted in_runtime) p =
    elim (take_stream session_id generation p.streams) [
      | none ↦ p
      | some (s, rest) ↦
          let (states, generation_to_close) =
            stream_closed session_id generation (if exhausted then false else s.close_on_drop)
              p.states in
          record p {
            states = states;
            streams = rest;
            cleanups = spawn_cleanup in_runtime session_id generation_to_close p.cleanups;
            closing = skip_cleanup in_runtime session_id generation_to_close p.closing;
          }
    ]
step (checks session_id generation) p = elim (take_cleanup session_id generation p.cleanups) [
  | none ↦ p
  | some rest ↦ record p {
    cleanups = rest;
    closing =
        if should_close session_id generation p.states then session_id ∷ p.closing else p.closing;
  }
]
step (forgets session_id) p = elim (take_closing session_id p.closing) [
  | none ↦ p
  | some rest ↦ record p { states = session_closed session_id p.states; closing = rest }
]
step (closes session_id) p = record p { states = session_closed session_id p.states }

abbrev pub streams_of : String → List Stream → ℕ
streams_of session_id = count (λ s. str_eq s.session_id session_id)

unfoldable pub run : List Step → Server → Server
unfolding step
run [] p = p
run (s ∷ ss) p = run ss (step s p)

-- The session that a step is about.
abbrev pub session_of : Step → String
session_of (opens session_id close_on_drop) = session_id
session_of (ends session_id generation exhausted in_runtime) = session_id
session_of (checks session_id generation) = session_id
session_of (forgets session_id) = session_id
session_of (closes session_id) = session_id

abbrev pub ends_stream : String → Step → Bool
ends_stream session_id (opens i close_on_drop) = false
ends_stream session_id (ends i generation exhausted in_runtime) = str_eq i session_id
ends_stream session_id (checks i generation) = false
ends_stream session_id (forgets i) = false
ends_stream session_id (closes i) = false
