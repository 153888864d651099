-- ===== src/Task/Data.antt =====
-- The types of src/server/task.rs. An `Instant` is a number of nanoseconds, a cancellation token
-- is named by a number, and the JSON value of a result is a parameter.
use ida_mcp_rs.Base.{ℕ, ◌*◌, String, Bool, true, false, Option, str_eq}

-- TASK_RETENTION_TTL_MS
abbrev pub task_retention_ttl_ms : ℕ
task_retention_ttl_ms = 24 * 60 * 60 * 1000

-- MAX_TASK_REGISTRY_ENTRIES
abbrev pub max_task_registry_entries : ℕ
max_task_registry_entries = 256

pub data TaskOwner : Type 0 where
  session : String → TaskOwner
  runtime : TaskOwner

-- The derived `==` of `TaskOwner`.
abbrev pub owner_eq : TaskOwner → TaskOwner → Bool
owner_eq (session a) (session b) = str_eq a b
owner_eq (session a) runtime = false
owner_eq runtime (session b) = false
owner_eq runtime runtime = true

abbrev pub is_session : TaskOwner → Bool
is_session (session a) = true
is_session runtime = false

pub data TaskCreateError : Type 0 where
  already_running : String → TaskCreateError
  existing_task_id_is_private : TaskCreateError
  capacity_exceeded : ℕ → TaskCreateError

pub data TaskStatus : Type 0 where
  running completed failed cancelled : TaskStatus

abbrev pub is_running : TaskStatus → Bool
is_running running = true
is_running completed = false
is_running failed = false
is_running cancelled = false

pub data TaskSettlement : Type 0 where
  settled_completed settled_failed settled_cancelled unchanged : TaskSettlement

pub data TaskCompletionDecision : Type 0 where
  decided_completed cancellation_pending decided_unchanged : TaskCompletionDecision

pub record TaskState (V : Type 0) : Type 0 where
  pub id : String
  pub status : TaskStatus
  pub message : String
  pub result : Option V
  pub created_at : ℕ
  pub updated_at : ℕ
  pub created_at_iso : String
  pub updated_at_iso : String
  pub key : Option String

pub record TaskEntry (V : Type 0) : Type 0 where
  pub owner : TaskOwner
  pub state : TaskState V
  pub workspace_database_id : Option String
  pub cancel_token : Option ℕ
  pub cancel_requested : Option String
