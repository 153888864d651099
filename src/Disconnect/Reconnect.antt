-- ===== src/Disconnect/Reconnect.antt =====
-- What a client of src/server/http_config.rs gains by opening a stream again, and what a session
-- comes to whose client does not.
use ida_mcp_rs.Base.{
  ℕ, ◌≡◌, ◌⊎◌, refl, inl, inr, String, Bool, true, false, none, some, List, [], ◌∷◌, str_eq, eq_iff,
  arith, any, Bool-cases, Option-cases, All,
}
use ida_mcp_rs.Base.Assoc.{
  Assoc, lookup, lookup-insert, lookup-remove_ne, lookup-remove_self, HasDistinctKeys,
  insert-HasDistinctKeys, remove-HasDistinctKeys,
}
use ida_mcp_rs.Disconnect.{
  SessionDisconnectState, state_or_default, opened, stream_opened, session_closed, closed,
  stream_closed, should_close, take_cleanup, is_cleanup, Stream, Server, Step, opens, ends, checks,
  forgets, closes, take_stream, step, run, session_of, ends_stream,
}

-- `HasDistinctKeys` through each method.
pub stream_closed-HasDistinctKeys :
    (i : String) (g : ℕ) (abandoned : Bool) (states : Assoc SessionDisconnectState)
    → HasDistinctKeys states
    → HasDistinctKeys (stream_closed i g abandoned states).0
unfolding stream_closed session_closed
stream_closed-HasDistinctKeys i g abandoned states h = elim (Option-cases (lookup i states)) [
  | inl e ↦ rw (e, stream_closed) h
  | inr (s, e) ↦ rw (e, stream_closed) (insert-HasDistinctKeys i (closed g abandoned s) states h)
]

pub step-HasDistinctKeys :
    (s : Step) (p : Server) → HasDistinctKeys p.states → HasDistinctKeys (step s p).states
unfolding step stream_opened session_closed
step-HasDistinctKeys (opens i c) p h =
    insert-HasDistinctKeys i (opened (state_or_default (lookup i p.states))) p.states h
step-HasDistinctKeys (ends i g exhausted in_runtime) p h =
    elim (Option-cases (take_stream i g p.streams)) [
      | inl e ↦ rw (e, step) h
      | inr ((s, rest), e) ↦ rw (e, step) (stream_closed-HasDistinctKeys i g _ p.states h)
    ]
step-HasDistinctKeys (checks i g) p h = ground (arith, h)
step-HasDistinctKeys (forgets i) p h = ground (arith, h, remove-HasDistinctKeys i p.states h)
step-HasDistinctKeys (closes i) p h = remove-HasDistinctKeys i p.states h

-- A session that is not marked as abandoned, if it is known at all.
record IsKept (id : String) (p : Server) : Type 0 where
  distinct : HasDistinctKeys p.states
  unmarked :
      (s : SessionDisconnectState) → lookup id p.states ≡ some s → s.abandoned_generation ≡ none

pub stream_closed_other :
    (i id : String) (g : ℕ) (abandoned : Bool) (states : Assoc SessionDisconnectState)
    → str_eq i id ≡ false
    → lookup id (stream_closed i g abandoned states).0 ≡ lookup id states
unfolding stream_closed session_closed
stream_closed_other i id g abandoned states ne = elim (Option-cases (lookup i states)) [
  | inl e ↦ rw (e, stream_closed)
  | inr (s, e) ↦ ground (arith, lookup-insert i id (closed g abandoned s) states)
]

-- What `stream_closed` leaves of its session: nothing, or one stream fewer.
pub stream_closed_lem :
    (i : String) (g : ℕ) (abandoned : Bool) (states : Assoc SessionDisconnectState)
    → HasDistinctKeys states
    → let after = lookup i (stream_closed i g abandoned states).0 in
      (after ≡ none)
      ⊎ ((s : SessionDisconnectState) × (lookup i states ≡ some s)
          × (after ≡ some (closed g abandoned s)))
unfolding stream_closed session_closed
stream_closed_lem i g abandoned states h = elim (Option-cases (lookup i states)) [
  | inl e ↦ rw (e, stream_closed) (inl e)
  | inr (s, e) ↦
      rw (e, stream_closed)
        (inr (s, refl, ground (arith, lookup-insert i i (closed g abandoned s) states, eq_iff i i)))
]

-- A step about another session leaves the entry of a session as it is.
pub step_other :
    (s : Step) (id : String) (p : Server)
    → str_eq (session_of s) id ≡ false
    → lookup id (step s p).states ≡ lookup id p.states
unfolding step stream_opened session_closed
step_other (opens i c) id p ne =
    ground (arith, lookup-insert i id (opened (state_or_default (lookup i p.states))) p.states)
step_other (ends i g exhausted in_runtime) id p ne =
    elim (Option-cases (take_stream i g p.streams)) [
      | inl e ↦ rw (e, step)
      | inr ((s, rest), e) ↦ rw (e, step) (stream_closed_other i id g _ p.states ne)
    ]
step_other (checks i g) id p ne = ground arith
step_other (forgets i) id p ne = ground (arith, lookup-remove_ne i id p.states ne)
step_other (closes i) id p ne = lookup-remove_ne i id p.states ne

step-IsKept :
    (s : Step) (id : String) (p : Server)
    → ends_stream id s ≡ false
    → IsKept id p
    → IsKept id (step s p)
unfolding step stream_opened session_closed
step-IsKept (opens i c) id p quiet v = record {
  distinct = step-HasDistinctKeys (opens i c) p v.distinct;
  unmarked = λ s h. ground (
    arith,
    eq_iff i id,
    v.unmarked s,
    lookup-insert i id (opened (state_or_default (lookup i p.states))) p.states,
  );
}
step-IsKept (ends i g exhausted in_runtime) id p quiet v = record {
  distinct = step-HasDistinctKeys (ends i g exhausted in_runtime) p v.distinct;
  unmarked =
      λ s h. ground (arith, v.unmarked s, step_other (ends i g exhausted in_runtime) id p quiet);
}
step-IsKept (checks i g) id p quiet v = record {
  distinct = step-HasDistinctKeys (checks i g) p v.distinct;
  unmarked = λ s h. ground (arith, v.unmarked s);
}
step-IsKept (forgets i) id p quiet v = record {
  distinct = step-HasDistinctKeys (forgets i) p v.distinct;
  unmarked = λ s h. ground (
    arith,
    eq_iff i id,
    v.unmarked s,
    lookup-remove_self i p.states v.distinct,
    lookup-remove_ne i id p.states,
  );
}
step-IsKept (closes i) id p quiet v = record {
  distinct = step-HasDistinctKeys (closes i) p v.distinct;
  unmarked = λ s h. ground (
    arith,
    eq_iff i id,
    v.unmarked s,
    lookup-remove_self i p.states v.distinct,
    lookup-remove_ne i id p.states,
  );
}

run-IsKept :
    (ss : List Step) (id : String) (p : Server)
    → All (λ s. ends_stream id s ≡ false) ss
    → IsKept id p
    → IsKept id (run ss p)
unfolding run
run-IsKept [] id p quiet v = v
run-IsKept (s ∷ ss) id p quiet v =
    run-IsKept ss id (step s p) quiet.1 (step-IsKept s id p quiet.0 v)

unmarked_lem : (id : String) (g : ℕ) (p : Server) → IsKept id p → should_close id g p.states ≡ false
unfolding should_close
unmarked_lem id g p v = elim (Option-cases (lookup id p.states)) [
  | inl e ↦ rw (e, should_close)
  | inr (s, e) ↦ ground (arith, e, v.unmarked s e)
]

opens-IsKept :
    (id : String) (c : Bool) (p : Server)
    → HasDistinctKeys p.states
    → IsKept id (step (opens id c) p)
unfolding step stream_opened
opens-IsKept id c p h = record {
  distinct = step-HasDistinctKeys (opens id c) p h;
  unmarked = λ s e. ground (
    arith,
    eq_iff id id,
    lookup-insert id id (opened (state_or_default (lookup id p.states))) p.states,
  );
}

-- Once a client has opened a stream, no cleanup of any generation finds its session to be closed
-- until one of the session's streams ends, whatever other steps come between. A close that a cleanup
-- has begun before is not taken back.
pub check-reconnected :
    (id : String) (c : Bool) (p : Server) (ss : List Step) (g : ℕ)
    → HasDistinctKeys p.states
    → All (λ s. ends_stream id s ≡ false) ss
    → (should_close id g (run ss (step (opens id c) p)).states ≡ false)
      × ((step (checks id g) (run ss (step (opens id c) p))).closing
          ≡ (run ss (step (opens id c) p)).closing)
check-reconnected id c p ss g h quiet =
    let v = run-IsKept ss id (step (opens id c) p) quiet (opens-IsKept id c p h) in
    let q = run ss (step (opens id c) p) in
    let kept : should_close id g q.states ≡ false = unmarked_lem id g q v in
    (kept, unfold step in ground (arith, kept))

run_other :
    (ss : List Step) (id : String) (p : Server)
    → All (λ s. str_eq (session_of s) id ≡ false) ss
    → lookup id (run ss p).states ≡ lookup id p.states
unfolding run
run_other [] id p others = refl
run_other (s ∷ ss) id p others =
    ground (arith, run_other ss id (step s p) others.1, step_other s id p others.0)

take_cleanup-any :
    (i id : String) (k g : ℕ) (cs rest : List (String × ℕ))
    → str_eq i id ≡ false
    → take_cleanup i k cs ≡ some rest
    → any (is_cleanup id g) cs ≡ true
    → any (is_cleanup id g) rest ≡ true
unfolding take_cleanup
take_cleanup-any i id k g [] rest ne h a = ground (arith, a)
take_cleanup-any i id k g (c ∷ cs) rest ne h a = elim (Option-cases (take_cleanup i k cs)) [
  | inl e ↦ ground (arith, ne, h, a, e, eq_iff c.0 i)
  | inr (later, e) ↦
      ground (arith, ne, h, a, e, eq_iff c.0 i, take_cleanup-any i id k g cs later ne e)
]

take_cleanup-found :
    (id : String) (g : ℕ) (cs : List (String × ℕ))
    → any (is_cleanup id g) cs ≡ true
    → (rest : List (String × ℕ)) × (take_cleanup id g cs ≡ some rest)
unfolding take_cleanup
take_cleanup-found id g [] h = absurd (ground (arith, h))
take_cleanup-found id g (c ∷ cs) h = elim (Bool-cases (is_cleanup id g c)) [
  | inl same ↦ (cs, ground (arith, same))
  | inr other ↦
      let (rest, e) = take_cleanup-found id g cs (ground (arith, h, other)) in
      (c ∷ rest, ground (arith, other, e))
]

-- A cleanup that was spawned stays until it checks.
step-cleanup :
    (s : Step) (id : String) (g : ℕ) (p : Server)
    → str_eq (session_of s) id ≡ false
    → any (is_cleanup id g) p.cleanups ≡ true
    → any (is_cleanup id g) (step s p).cleanups ≡ true
unfolding step
step-cleanup (opens i c) id g p ne h = h
step-cleanup (ends i k exhausted in_runtime) id g p ne h =
    elim (Option-cases (take_stream i k p.streams)) [
      | inl e ↦ ground (arith, e, h)
      | inr ((s, rest), e) ↦ ground (arith, e, h)
    ]
step-cleanup (checks i k) id g p ne h = elim (Option-cases (take_cleanup i k p.cleanups)) [
  | inl e ↦ ground (arith, e, h)
  | inr (rest, e) ↦ ground (arith, e, take_cleanup-any i id k g p.cleanups rest ne e h)
]
step-cleanup (forgets i) id g p ne h = ground (arith, h)
step-cleanup (closes i) id g p ne h = h

run-cleanup :
    (ss : List Step) (id : String) (g : ℕ) (p : Server)
    → All (λ s. str_eq (session_of s) id ≡ false) ss
    → any (is_cleanup id g) p.cleanups ≡ true
    → any (is_cleanup id g) (run ss p).cleanups ≡ true
unfolding run
run-cleanup [] id g p others h = h
run-cleanup (s ∷ ss) id g p others h =
    run-cleanup ss id g (step s p) others.1 (step-cleanup s id g p others.0 h)

-- When the only stream of a session, one whose drop counts as a disconnect, is dropped inside the
-- runtime, a cleanup is spawned; if nothing more is done with the session until it checks, whatever
-- other sessions do, then it goes on to close the session.
pub cleanup-abandoned :
    (id : String) (g : ℕ) (s : Stream) (rest : List Stream) (state : SessionDisconnectState)
    (p : Server) (ss : List Step)
    → take_stream id g p.streams ≡ some (s, rest)
    → s.close_on_drop ≡ true
    → lookup id p.states ≡ some state
    → state.active_streams ≡ 1
    → All (λ o. str_eq (session_of o) id ≡ false) ss
    → let q = run ss (step (ends id g false true) p) in
      ((step (ends id g false true) p).cleanups ≡ (id, g) ∷ p.cleanups)
      × (any (is_cleanup id g) q.cleanups ≡ true)
      × ((step (checks id g) q).closing ≡ id ∷ q.closing)
unfolding should_close step stream_closed
cleanup-abandoned id g s rest state p ss taken drops known single others =
    let after = step (ends id g false true) p in
    let q = run ss after in
    let spawned : after.cleanups ≡ (id, g) ∷ p.cleanups =
      ground (arith, taken, drops, known, single) in
    let first : any (is_cleanup id g) after.cleanups ≡ true =
      ground (arith, spawned, eq_iff id id) in
    let waits : any (is_cleanup id g) q.cleanups ≡ true = run-cleanup ss id g after others first in
    let (left, found) = take_cleanup-found id g q.cleanups waits in
    let abandoned : should_close id g q.states ≡ true = ground (
      arith,
      taken,
      drops,
      known,
      single,
      eq_iff id id,
      lookup-insert id id (closed g true state) p.states,
      run_other ss id after others,
    ) in
    (spawned, waits, ground (arith, found, abandoned))
