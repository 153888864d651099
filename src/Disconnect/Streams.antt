-- ===== src/Disconnect/Streams.antt =====
-- The count of open streams that src/server/http_config.rs keeps for each session.
use ida_mcp_rs.Base.{
  ◌==◌, ◌⊎◌, ℕ, suc, ◌+◌, ◌≤◌, ◌<◌, ◌^◌, ◌≡◌, inl, inr, String, Bool, true, none, some, List, [],
  ◌∷◌, str_eq, eq_iff, arith, length, count-le-length, Option-cases, Bool-cases, subst, ◌∙◌,
  if◌then◌else◌,
}
use ida_mcp_rs.Base.Assoc.{
  Assoc, lookup, insert, lookup-insert, lookup-remove_ne, lookup-remove_self, HasDistinctKeys,
}
use ida_mcp_rs.Disconnect.{
  SessionDisconnectState, state_or_default, opened, stream_opened, session_closed, stream_closed,
  should_close, Stream, Server, Step, opens, ends, checks, forgets, closes, take_stream, step,
  streams_of,
}
use ida_mcp_rs.Disconnect.Reconnect.{
  stream_closed-HasDistinctKeys, step-HasDistinctKeys, stream_closed_other, stream_closed_lem,
}

-- A session whose entry was removed gets a new one only when none of its streams is left: the
-- session ids of new sessions are fresh.
abbrev pub Enabled : Step → Server → Type 0
Enabled (opens id close_on_drop) p = lookup id p.states ≡ none → streams_of id p.streams ≡ 0
Enabled _ p = Unit

abbrev pub initial : Server
initial = record { states = []; streams = []; cleanups = []; closing = [] }

-- The servers that a number of steps leads to.
pub data Reach : ℕ → Server → Type 0 where
  here : Reach 0 initial
  next : {n : ℕ} {p : Server} → Reach n p → (s : Step) → Enabled s p → Reach (suc n) (step s p)

-- The streams are at most as many as the steps.
pub record Inv (n : ℕ) (p : Server) : Type 0 where
  pub distinct : HasDistinctKeys p.states
  pub bounded : length p.streams ≤ n
  pub counted :
      (id : String) (s : SessionDisconnectState)
      → lookup id p.states ≡ some s
      → s.active_streams ≡ streams_of id p.streams

take_stream-session :
    (i : String) (g : ℕ) (ss rest : List Stream) (s : Stream)
    → take_stream i g ss ≡ some (s, rest)
    → (length ss ≡ suc (length rest))
      × ((id : String) → streams_of id ss ≡ (if str_eq i id then 1 else 0) + streams_of id rest)
unfolding take_stream
take_stream-session i g [] rest s h = ground arith
take_stream-session i g (x ∷ ss) rest s h = elim (Option-cases (take_stream i g ss)) [
  | inl e ↦ (ground arith, λ id. ground (arith, eq_iff x.session_id i))
  | inr ((found, later), e) ↦
      let (l, k) = take_stream-session i g ss later found e in
      (ground (arith, l), λ id. ground (arith, eq_iff x.session_id i, k id))
]

opened-counted :
    (i id : String) (k : ℕ) (states : Assoc SessionDisconnectState) (s : SessionDisconnectState)
    → k + 1 < 2 ^ 64
    → ((t : SessionDisconnectState) → lookup id states ≡ some t → t.active_streams ≡ k)
    → (lookup i states ≡ none → str_eq i id ≡ true → k ≡ 0)
    → lookup id (insert i (opened (state_or_default (lookup i states))) states) ≡ some s
    → s.active_streams ≡ (if str_eq i id then suc k else k)
opened-counted i id k states s small before fresh h =
    let found = lookup-insert i id (opened (state_or_default (lookup i states))) states in
    elim (Bool-cases (str_eq i id)) [
      | inr ne ↦ ground (arith, ne, found, before s)
      | inl same ↦
          let eq = (eq_iff i id).0 same in
          elim (Option-cases (lookup i states)) [
            | inl e ↦ ground (arith, same, found, fresh e same, e)
            | inr (t, e) ↦ ground (arith, same, found, eq, e, before t)
          ]
    ]

opens-Inv :
    (n : ℕ) (i : String) (c : Bool) (p : Server)
    → n + 1 < 2 ^ 64
    → Enabled (opens i c) p
    → Inv n p
    → Inv (suc n) (step (opens i c) p)
unfolding step stream_opened
opens-Inv n i c p small enabled v = record {
  distinct = step-HasDistinctKeys (opens i c) p v.distinct;
  bounded = omega (arith, v.bounded);
  counted = λ id s h.
      opened-counted i id (streams_of id p.streams) p.states s
        (omega (arith, v.bounded, count-le-length (λ t. str_eq t.session_id id) p.streams, small))
        (v.counted id)
        (λ absent same.
          subst (λ j. streams_of j p.streams ≡ 0) ((eq_iff i id).0 same) (enabled absent))
        h;
}

closed-counted :
    (i id : String) (g k : ℕ) (abandoned : Bool) (states : Assoc SessionDisconnectState)
    (s : SessionDisconnectState)
    → HasDistinctKeys states
    → ((t : SessionDisconnectState)
        → lookup id states ≡ some t
        → t.active_streams ≡ (if str_eq i id then 1 else 0) + k)
    → lookup id (stream_closed i g abandoned states).0 ≡ some s
    → s.active_streams ≡ k
closed-counted i id g k abandoned states s d before h = elim (Bool-cases (str_eq i id)) [
  | inr ne ↦ ground (arith, ne, stream_closed_other i id g abandoned states ne, before s)
  | inl same ↦
      let eq = (eq_iff i id).0 same in
      elim (Option-cases (lookup i states)) [
        | inl e ↦ ground (arith, stream_closed_lem i g abandoned states d, e, eq)
        | inr (t, e) ↦
            ground (arith, stream_closed_lem i g abandoned states d, e, eq, before t, same)
      ]
]

ends-Inv :
    (n : ℕ) (i : String) (g : ℕ) (exhausted in_runtime : Bool) (p : Server)
    → Inv n p
    → Inv (suc n) (step (ends i g exhausted in_runtime) p)
unfolding step
ends-Inv n i g exhausted in_runtime p v = elim (Option-cases (take_stream i g p.streams)) [
  | inl e ↦
      rw (e, step)
        (record { distinct = v.distinct; bounded = omega (arith, v.bounded); counted = v.counted })
  | inr ((s, rest), e) ↦
      let (l, k) = take_stream-session i g p.streams rest s e in
      rw (e, step)
        (record {
          distinct = stream_closed-HasDistinctKeys i g _ p.states v.distinct;
          bounded = omega (arith, v.bounded, l);
          counted = λ id t h.
              closed-counted i id g (streams_of id rest) _ p.states t v.distinct
                (λ u f. v.counted id u f ∙ k id) h;
        })
]

step-Inv :
    (n : ℕ) (s : Step) (p : Server)
    → n + 1 < 2 ^ 64
    → Enabled s p
    → Inv n p
    → Inv (suc n) (step s p)
unfolding step session_closed
step-Inv n (opens i c) p small enabled v = opens-Inv n i c p small enabled v
step-Inv n (ends i g exhausted in_runtime) p small enabled v =
    ends-Inv n i g exhausted in_runtime p v
step-Inv n (checks i g) p small enabled v = record {
  distinct = step-HasDistinctKeys (checks i g) p v.distinct;
  bounded = ground (arith, v.bounded);
  counted = λ id s h. ground (arith, v.counted id s);
}
step-Inv n (forgets i) p small enabled v = record {
  distinct = step-HasDistinctKeys (forgets i) p v.distinct;
  bounded = ground (arith, v.bounded);
  counted = λ id s h. ground (
    arith,
    eq_iff i id,
    v.counted id s,
    lookup-remove_self i p.states v.distinct,
    lookup-remove_ne i id p.states,
  );
}
step-Inv n (closes i) p small enabled v = record {
  distinct = step-HasDistinctKeys (closes i) p v.distinct;
  bounded = omega (arith, v.bounded);
  counted = λ id s h. ground (
    arith,
    eq_iff i id,
    v.counted id s,
    lookup-remove_self i p.states v.distinct,
    lookup-remove_ne i id p.states,
  );
}

-- After fewer than 2^64 steps in any order, from a server without sessions, in which no session
-- whose entry is gone gets a stream while an older one is open, the registry has one entry at most
-- for each session, and each entry counts the session's open streams exactly.
pub Reach-Inv : (n : ℕ) (p : Server) → n < 2 ^ 64 → Reach n p → Inv n p
unfolding lookup
Reach-Inv _ _ small here = record {
  distinct = tt;
  bounded = omega arith;
  counted = λ id s h. ground arith;
}
Reach-Inv _ _ small (next {n} {p} r s enabled) =
    step-Inv n s p (omega arith) enabled (Reach-Inv n p (omega arith) r)

-- After fewer than 2^64 steps in any order, in which no session whose entry is gone gets a stream
-- while an older one is open, a cleanup that checks leaves its session alone, unless no stream of the
-- session is open at the check. Streams that open while it closes the session are not meant.
pub check-unused :
    (n : ℕ) (p : Server) (id : String) (g : ℕ)
    → n < 2 ^ 64
    → Reach n p
    → ((step (checks id g) p).closing ≡ p.closing) ⊎ (streams_of id p.streams ≡ 0)
unfolding step should_close
check-unused n p id g small r =
    let v = Reach-Inv n p small r in
    elim (Option-cases (lookup id p.states)) [
      | inl e ↦ inl (ground (arith, e))
      | inr (s, e) ↦ elim (Bool-cases (s.active_streams == 0)) [
        | inl b ↦ inr (ground (arith, b, v.counted id s e))
        | inr b ↦ inl (ground (arith, e, b))
      ]
    ]
