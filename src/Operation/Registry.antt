-- ===== src/Operation/Registry.antt =====
-- The methods of `OperationRegistry` in src/server/operation.rs over sequences of calls.
use ida_mcp_rs.Base.{
  Bool, All, ℕ, ◌≡◌, ◌≢◌, refl, ap, ◌∙◌, inl, inr, true, false, String, Option, none, some, List,
  [], ◌∷◌, ◌++◌, take, str_eq, eq_iff, is_some, arith, Option-cases,
}
use ida_mcp_rs.Base.Assoc.{
  lookup, insert, remove, lookup-insert, lookup-remove_ne, lookup-remove_self, HasDistinctKeys,
  insert-HasDistinctKeys, remove-HasDistinctKeys,
}
use ida_mcp_rs.Operation.{
  OperationStatus, OperationState, OperationEvent, OperationRegistryInner, Readings, new, start,
  record_progress, snapshot, finish, recent, queued_state, progressed, finished, event_of,
  snapshot_of, effective_limit, rev, recent_event_cap, clear_active,
}
use ida_mcp_rs.Operation.History.{push_all, rev-push_all}

pub data Call : Type 0 where
  starts : String → String → String → ℕ → Readings → Call
  progresses : String → String → String → Readings → Call
  finishes : String → OperationStatus → String → Readings → Call

unfoldable pub step : Call → OperationRegistryInner → OperationRegistryInner
step (starts op_id tool target began r) inner = start op_id tool target began r inner
step (progresses op_id phase message r) inner = (record_progress op_id phase message r inner).0
step (finishes op_id status message r) inner = (finish op_id status message r inner).0

abbrev pub call_id : Call → String
call_id (starts op_id tool target began r) = op_id
call_id (progresses op_id phase message r) = op_id
call_id (finishes op_id status message r) = op_id

-- The latest call stands first.
unfoldable pub run : List Call → OperationRegistryInner
unfolding step
run [] = new
run (c ∷ earlier) = step c (run earlier)

-- The event that a call reports, if any.
unfoldable pub reported : Call → OperationRegistryInner → List OperationEvent
reported (starts op_id tool target began r) inner =
    event_of r.at_event (queued_state op_id tool target began r.now_ms) ∷ []
reported (progresses op_id phase message r) inner = elim (lookup op_id inner.current) [
  | none ↦ []
  | some s ↦ event_of r.at_event (progressed phase message r.now_ms s) ∷ []
]
reported (finishes op_id status message r) inner = elim (lookup op_id inner.current) [
  | none ↦ []
  | some s ↦ event_of r.at_event (finished status message r.now_ms s) ∷ []
]

-- All that a sequence of calls reports, the newest first.
unfoldable pub log_of : List Call → List OperationEvent
unfolding reported
log_of [] = []
log_of (c ∷ earlier) = reported c (run earlier) ++ log_of earlier

step-events :
    (c : Call) (inner : OperationRegistryInner) (log : List OperationEvent)
    → inner.events ≡ push_all log
    → (step c inner).events ≡ push_all (reported c inner ++ log)
unfolding step start record_progress finish reported push_all
step-events (starts op_id tool target began r) inner log h = cc h
step-events (progresses op_id phase message r) inner log h =
    elim (Option-cases (lookup op_id inner.current)) [
      | inl e ↦ rw (e, step, record_progress, reported) h
      | inr (s, e) ↦ rw (e, step, record_progress, reported) (cc h)
    ]
step-events (finishes op_id status message r) inner log h =
    elim (Option-cases (lookup op_id inner.current)) [
      | inl e ↦ rw (e, step, finish, reported) h
      | inr (s, e) ↦ rw (e, step, finish, reported) (cc h)
    ]

run-events : (calls : List Call) → (run calls).events ≡ push_all (log_of calls)
unfolding run log_of push_all
run-events [] = refl
run-events (c ∷ earlier) = step-events c (run earlier) (log_of earlier) (run-events earlier)

-- After any sequence of calls on a new registry, `recent` shows the newest of the events that the
-- calls reported, the newest first: as many as its limit, put between 1 and 50, allows, and never
-- more than the last 20.
pub recent-run :
    (limit : Option ℕ) (now : ℕ) (calls : List Call)
    → (recent limit now (run calls)).recent_events
      ≡ take (effective_limit limit) (take recent_event_cap (log_of calls))
unfolding recent
recent-run limit now calls =
    ap (take (effective_limit limit)) (ap rev (run-events calls) ∙ rev-push_all (log_of calls))

-- What holds of the operations under way.
pub record IsTracked (inner : OperationRegistryInner) : Type 0 where
  pub distinct : HasDistinctKeys inner.current
  pub own_ids :
      (op_id : String) (s : OperationState) → lookup op_id inner.current ≡ some s → s.op_id ≡ op_id
  pub active_is_current :
      (op_id : String)
      → inner.active_op_id ≡ some op_id
      → is_some (lookup op_id inner.current) ≡ true

-- `start` and `record_progress` put a state under its own id and make it the active one.
put-IsTracked :
    (op_id : String) (state : OperationState) (inner : OperationRegistryInner)
    (events : List OperationEvent)
    → state.op_id ≡ op_id
    → IsTracked inner
    → IsTracked (record {
      active_op_id = some op_id;
      current = insert op_id state inner.current;
      events = events;
    })
put-IsTracked op_id state inner events same v = record {
  distinct = insert-HasDistinctKeys op_id state inner.current v.distinct;
  own_ids = λ i s h.
      ground (arith, lookup-insert op_id i state inner.current, eq_iff op_id i, v.own_ids i s);
  active_is_current =
      λ i h. ground (arith, lookup-insert op_id i state inner.current, eq_iff op_id i);
}

finish-IsTracked :
    (op_id : String) (inner : OperationRegistryInner) (events : List OperationEvent)
    → IsTracked inner
    → IsTracked (record {
      active_op_id = clear_active op_id inner.active_op_id;
      current = remove op_id inner.current;
      events = events;
    })
finish-IsTracked op_id inner events v = record {
  distinct = remove-HasDistinctKeys op_id inner.current v.distinct;
  own_ids = λ i s h. ground (
    arith,
    lookup-remove_ne op_id i inner.current,
    lookup-remove_self op_id inner.current v.distinct,
    eq_iff op_id i,
    v.own_ids i s,
  );
  active_is_current = λ i h. ground (
    arith,
    lookup-remove_ne op_id i inner.current,
    eq_iff op_id i,
    eq_iff i op_id,
    v.active_is_current i,
  );
}

step-IsTracked :
    (c : Call) (inner : OperationRegistryInner) → IsTracked inner → IsTracked (step c inner)
unfolding step start record_progress finish progressed
step-IsTracked (starts op_id tool target began r) inner v =
    put-IsTracked op_id (queued_state op_id tool target began r.now_ms) inner _ refl v
step-IsTracked (progresses op_id phase message r) inner v =
    elim (Option-cases (lookup op_id inner.current)) [
      | inl e ↦ rw (e, step, record_progress) v
      | inr (s, e) ↦
          rw (e, step, record_progress)
            (put-IsTracked op_id (progressed phase message r.now_ms s) inner _ (v.own_ids op_id s e)
              v)
    ]
step-IsTracked (finishes op_id status message r) inner v =
    elim (Option-cases (lookup op_id inner.current)) [
      | inl e ↦ rw (e, step, finish) v
      | inr (s, e) ↦ rw (e, step, finish) (finish-IsTracked op_id inner _ v)
    ]

-- Every sequence of calls on a new registry leaves one state at most for each id, each under its
-- own id, and an active operation only if it is under way.
pub run-IsTracked : (calls : List Call) → IsTracked (run calls)
unfolding run lookup
run-IsTracked [] = record {
  distinct = tt;
  own_ids = λ i s h. ground arith;
  active_is_current = λ i h. ground arith;
}
run-IsTracked (c ∷ earlier) = step-IsTracked c (run earlier) (run-IsTracked earlier)

-- Whether a call starts an operation.
abbrev pub starts_op : String → Call → Bool
starts_op op_id (starts i tool target began r) = str_eq i op_id
starts_op op_id (progresses i phase message r) = false
starts_op op_id (finishes i status message r) = false

step-absent :
    (c : Call) (op_id : String) (inner : OperationRegistryInner)
    → starts_op op_id c ≡ false
    → lookup op_id inner.current ≡ none
    → lookup op_id (step c inner).current ≡ none
unfolding step start record_progress finish
step-absent (starts i tool target began r) op_id inner other absent = ground (
  arith,
  absent,
  other,
  lookup-insert i op_id (queued_state i tool target began r.now_ms) inner.current,
)
step-absent (progresses i phase message r) op_id inner other absent =
    elim (Option-cases (lookup i inner.current)) [
      | inl e ↦ rw (e, step, record_progress) absent
      | inr (s, e) ↦ ground (
        arith,
        e,
        absent,
        eq_iff i op_id,
        lookup-insert i op_id (progressed phase message r.now_ms s) inner.current,
      )
    ]
step-absent (finishes i status message r) op_id inner other absent =
    elim (Option-cases (lookup i inner.current)) [
      | inl e ↦ rw (e, step, finish) absent
      | inr (s, e) ↦
          ground (arith, e, absent, eq_iff i op_id, lookup-remove_ne i op_id inner.current)
    ]

-- An operation that is not under way stays so until it is started.
run-absent :
    (calls earlier : List Call) (op_id : String)
    → All (λ c. starts_op op_id c ≡ false) calls
    → lookup op_id (run earlier).current ≡ none
    → lookup op_id (run (calls ++ earlier)).current ≡ none
unfolding run
run-absent [] earlier op_id others absent = absent
run-absent (c ∷ calls) earlier op_id others absent =
    step-absent c op_id (run (calls ++ earlier)) others.0
      (run-absent calls earlier op_id others.1 absent)

-- An operation finishes once: after any sequence of calls, `finish` on an operation under way
-- returns its snapshot, and after any later calls that do not start it again, it has no snapshot and
-- is not the active one, and another `finish` or `record_progress` of it changes nothing and returns
-- nothing.
pub finish-once :
    (later calls : List Call) (op_id : String) (s : OperationState) (status again : OperationStatus)
    (message text phase : String) (r q : Readings) (now : ℕ)
    → lookup op_id (run calls).current ≡ some s
    → All (λ c. starts_op op_id c ≡ false) later
    → let done = run (later ++ finishes op_id status message r ∷ calls) in
      ((finish op_id status message r (run calls)).1
        ≡ some (snapshot_of r.at_snapshot (finished status message r.now_ms s)))
      × (snapshot op_id now done ≡ none)
      × (done.active_op_id ≢ some op_id)
      × (finish op_id again text q done ≡ (done, none))
      × (record_progress op_id phase text q done ≡ (done, none))
unfolding finish record_progress finished snapshot
finish-once later calls op_id s status again message text phase r q now h others =
    let after = finishes op_id status message r ∷ calls in
    let done = run (later ++ after) in
    let gone : lookup op_id (run after).current ≡ none =
      unfold run in
      unfold step in
      ground
        (arith, h, lookup-remove_self op_id (run calls).current ((run-IsTracked calls).distinct)) in
    let absent : lookup op_id done.current ≡ none = run-absent later after op_id others gone in
    (
      ground (arith, h),
      ground (arith, absent),
      λ active.
          absurd (
            ground
              (arith, absent, (run-IsTracked (later ++ after)).active_is_current op_id active)),
      ground (arith, absent),
      ground (arith, absent),
    )

-- The calls of one operation do not touch another: its snapshot stays the same through the start,
-- the progress and the end of others.
pub snapshot-step_other :
    (c : Call) (inner : OperationRegistryInner) (op_id : String) (now : ℕ)
    → str_eq (call_id c) op_id ≡ false
    → snapshot op_id now (step c inner) ≡ snapshot op_id now inner
unfolding snapshot step start record_progress finish
snapshot-step_other (starts i tool target began r) inner op_id now h =
    ground (arith, lookup-insert i op_id (queued_state i tool target began r.now_ms) inner.current)
snapshot-step_other (progresses i phase message r) inner op_id now h =
    elim (Option-cases (lookup i inner.current)) [
      | inl e ↦ ground arith
      | inr (s, e) ↦
          ground (arith, lookup-insert i op_id (progressed phase message r.now_ms s) inner.current)
    ]
snapshot-step_other (finishes i status message r) inner op_id now h =
    ground (arith, lookup-remove_ne i op_id inner.current)
