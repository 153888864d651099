-- ===== src/Operation.antt =====
-- The history of foreground operations of src/server/operation.rs. What the clocks show at each
-- reading is an argument; a `VecDeque` is a list whose head is the front.
pub mod History
pub mod Registry
mod Tests
use ida_mcp_rs.Base.{
  ℕ, suc, ◌+◌, ◌-◌, ◌*◌, ◌/◌, ◌%◌, ◌^◌, min, max, String, Option, none, some, List, [], ◌∷◌, ◌++◌,
  length, take, drop, ◌==◌, if◌then◌else◌, str_eq,
}
use ida_mcp_rs.Base.Assoc.{Assoc, lookup, insert, remove}

abbrev pub recent_event_cap : ℕ
recent_event_cap = 20

abbrev pub max_recent_limit : ℕ
max_recent_limit = 50

pub data OperationStatus : Type 0 where
  queued : OperationStatus
  running : OperationStatus
  completed : OperationStatus
  failed : OperationStatus
  timed_out : OperationStatus
  cancelled : OperationStatus

pub record OperationSnapshot : Type 0 where
  pub op_id : String
  pub tool : String
  pub target_summary : String
  pub phase : String
  pub status : OperationStatus
  pub message : String
  pub started_at_ms : ℕ
  pub last_update_ms : ℕ
  pub elapsed_ms : ℕ

pub record OperationEvent : Type 0 where
  pub op_id : String
  pub tool : String
  pub target_summary : String
  pub phase : String
  pub status : OperationStatus
  pub message : String
  pub timestamp_ms : ℕ
  pub elapsed_ms : ℕ

-- `started_at` is in nanoseconds of the monotonic clock.
pub record OperationState : Type 0 where
  pub op_id : String
  pub tool : String
  pub target_summary : String
  pub phase : String
  pub status : OperationStatus
  pub message : String
  pub started_at : ℕ
  pub started_at_ms : ℕ
  pub last_update_ms : ℕ

pub record OperationRegistryInner : Type 0 where
  pub active_op_id : Option String
  pub current : Assoc OperationState
  pub events : List OperationEvent

pub record RecentOperations : Type 0 where
  pub active_operation : Option OperationSnapshot
  pub recent_events : List OperationEvent

-- The readings of one method: `now_ms`, and the monotonic clock at the snapshot and at the event.
pub record Readings : Type 0 where
  pub now_ms : ℕ
  pub at_snapshot : ℕ
  pub at_event : ℕ

-- `started_at.elapsed().as_millis() as u64`: 0 if the clock shows an earlier time.
abbrev pub elapsed : ℕ → ℕ → ℕ
elapsed started_at now = ((now - started_at) / 1000000) % 2 ^ 64

-- OperationState::snapshot
abbrev pub snapshot_of : ℕ → OperationState → OperationSnapshot
snapshot_of now s = record {
  op_id = s.op_id;
  tool = s.tool;
  target_summary = s.target_summary;
  phase = s.phase;
  status = s.status;
  message = s.message;
  started_at_ms = s.started_at_ms;
  last_update_ms = s.last_update_ms;
  elapsed_ms = elapsed s.started_at now;
}

-- OperationState::event
abbrev pub event_of : ℕ → OperationState → OperationEvent
event_of now s = record {
  op_id = s.op_id;
  tool = s.tool;
  target_summary = s.target_summary;
  phase = s.phase;
  status = s.status;
  message = s.message;
  timestamp_ms = s.last_update_ms;
  elapsed_ms = elapsed s.started_at now;
}

unfoldable pub push_event : List OperationEvent → OperationEvent → List OperationEvent
push_event events event =
    (if length events == recent_event_cap then drop 1 events else events) ++ (event ∷ [])

-- OperationRegistry::new
abbrev pub new : OperationRegistryInner
new = record { active_op_id = none; current = []; events = [] }

abbrev pub queued_state : String → String → String → ℕ → ℕ → OperationState
queued_state op_id tool target_summary started_at now_ms = record {
  op_id = op_id;
  tool = tool;
  target_summary = target_summary;
  phase = "queued";
  status = queued;
  message = "Queued for IDA worker execution";
  started_at = started_at;
  started_at_ms = now_ms;
  last_update_ms = now_ms;
}

unfoldable pub start :
    String → String → String → ℕ → Readings → OperationRegistryInner → OperationRegistryInner
unfolding push_event
start op_id tool target_summary started_at r inner =
    let state = queued_state op_id tool target_summary started_at r.now_ms in
    record {
      active_op_id = some op_id;
      current = insert op_id state inner.current;
      events = push_event inner.events (event_of r.at_event state);
    }

-- What `record_progress` writes to the state.
unfoldable pub progressed : String → String → ℕ → OperationState → OperationState
progressed phase message now_ms s = record s {
  phase = phase;
  status = if str_eq phase "queued" then queued else running;
  message = message;
  last_update_ms = now_ms;
}

unfoldable pub record_progress :
    String
    → String
    → String
    → Readings
    → OperationRegistryInner
    → OperationRegistryInner × Option OperationSnapshot
unfolding push_event progressed
record_progress op_id phase message r inner = elim (lookup op_id inner.current) [
  | none ↦ (inner, none)
  | some s ↦
      let state = progressed phase message r.now_ms s in
      (
        record {
          active_op_id = some op_id;
          current = insert op_id state inner.current;
          events = push_event inner.events (event_of r.at_event state);
        },
        some (snapshot_of r.at_snapshot state),
      )
]

-- OperationRegistry::snapshot
unfoldable pub snapshot : String → ℕ → OperationRegistryInner → Option OperationSnapshot
snapshot op_id now inner = elim (lookup op_id inner.current) [
  | none ↦ none
  | some s ↦ some (snapshot_of now s)
]

-- The phase that an operation ends in which was never taken up.
abbrev pub final_phase : OperationStatus → String → String
final_phase queued phase = phase
final_phase running phase = phase
final_phase completed phase = "completed"
final_phase failed phase = "failed"
final_phase timed_out phase = "timed_out"
final_phase cancelled phase = "cancelled"

-- What `finish` writes to the state that it has removed.
unfoldable pub finished : OperationStatus → String → ℕ → OperationState → OperationState
finished status message now_ms s = record s {
  status = status;
  message = message;
  last_update_ms = now_ms;
  phase = if str_eq s.phase "queued" then final_phase status s.phase else s.phase;
}

abbrev pub clear_active : String → Option String → Option String
clear_active op_id none = none
clear_active op_id (some active) = if str_eq active op_id then none else some active

unfoldable pub finish :
    String
    → OperationStatus
    → String
    → Readings
    → OperationRegistryInner
    → OperationRegistryInner × Option OperationSnapshot
unfolding push_event finished
finish op_id status message r inner = elim (lookup op_id inner.current) [
  | none ↦ (inner, none)
  | some s ↦
      let state = finished status message r.now_ms s in
      (
        record {
          active_op_id = clear_active op_id inner.active_op_id;
          current = remove op_id inner.current;
          events = push_event inner.events (event_of r.at_event state);
        },
        some (snapshot_of r.at_snapshot state),
      )
]

-- `limit.unwrap_or(RECENT_EVENT_CAP).clamp(1, MAX_RECENT_LIMIT)`
abbrev pub effective_limit : Option ℕ → ℕ
effective_limit none = min (max recent_event_cap 1) max_recent_limit
effective_limit (some limit) = min (max limit 1) max_recent_limit

abbrev pub rev : List OperationEvent → List OperationEvent
rev [] = []
rev (e ∷ es) = rev es ++ (e ∷ [])

unfoldable pub recent : Option ℕ → ℕ → OperationRegistryInner → RecentOperations
unfolding snapshot
recent limit now inner = record {
  active_operation = elim inner.active_op_id [
    | none ↦ none
    | some op_id ↦ snapshot op_id now inner
  ];
  recent_events = take (effective_limit limit) (rev inner.events);
}
