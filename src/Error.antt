-- ===== src/Error.antt =====
-- src/error.rs: the errors of the tools, with the classifications of src/error.rs and of
-- src/ida/pool.rs. A `RemoteCall` carries the code and the message of its protocol error.
pub mod Classes
use ida_mcp_rs.Base.{ℕ, String, Bool, true, false, ◌||◌, ◌&&◌, if◌then◌else◌, str_eq}

pub data ToolError : Type 0 where
  no_database_open : ToolError
  database_already_open : String → ToolError
  open_failed : String → ToolError
  database_locked : String → ToolError
  invalid_address : String → ToolError
  invalid_path : String → ToolError
  invalid_params : String → ToolError
  invalid_tool_category : String → ToolError
  invalid_tool_name : String → ToolError
  address_out_of_range : ℕ → ToolError
  function_not_found : ℕ → ToolError
  function_name_not_found : String → ToolError
  decompiler_unavailable : ToolError
  timeout : ℕ → ToolError
  timeout_detailed : String → ToolError
  cancelled : String → ToolError
  busy : ToolError
  database_replaced : ToolError
  background_task_handle_private : ToolError
  background_task_registry_full : ℕ → ToolError
  pool_exhausted : ℕ → ℕ → ToolError
  worker_crashed : ℕ → String → ToolError
  worker_retired : String → ToolError
  never_dispatched : String → ToolError
  sdk_crashed : String → ToolError
  remote_protocol : String → ToolError
  remote_call : String → String → ToolError
  ida_error : String → ToolError
  debugger_teardown : String → ToolError
  debugger_start_retained : String → ToolError
  debugger_session_lost : String → ToolError
  not_supported : String → ToolError
  worker_closed : ToolError
  sdk_version_mismatch : String → ToolError

-- ToolError::is_fatal
unfoldable pub is_fatal : ToolError → Bool
is_fatal no_database_open = false
is_fatal (database_already_open a) = false
is_fatal (open_failed a) = false
is_fatal (database_locked a) = false
is_fatal (invalid_address a) = false
is_fatal (invalid_path a) = false
is_fatal (invalid_params a) = false
is_fatal (invalid_tool_category a) = false
is_fatal (invalid_tool_name a) = false
is_fatal (address_out_of_range a) = false
is_fatal (function_not_found a) = false
is_fatal (function_name_not_found a) = false
is_fatal decompiler_unavailable = false
is_fatal (timeout a) = false
is_fatal (timeout_detailed a) = false
is_fatal (cancelled a) = false
is_fatal busy = false
is_fatal database_replaced = false
is_fatal background_task_handle_private = false
is_fatal (background_task_registry_full a) = false
is_fatal (pool_exhausted a b) = false
is_fatal (worker_crashed a b) = true
is_fatal (worker_retired a) = true
is_fatal (never_dispatched a) = false
is_fatal (sdk_crashed a) = true
is_fatal (remote_protocol a) = false
is_fatal (remote_call a b) = false
is_fatal (ida_error a) = false
is_fatal (debugger_teardown a) = false
is_fatal (debugger_start_retained a) = false
is_fatal (debugger_session_lost a) = true
is_fatal (not_supported a) = false
is_fatal worker_closed = false
is_fatal (sdk_version_mismatch a) = false

-- ToolError::never_dispatched
unfoldable pub is_never_dispatched : ToolError → Bool
is_never_dispatched no_database_open = false
is_never_dispatched (database_already_open a) = false
is_never_dispatched (open_failed a) = false
is_never_dispatched (database_locked a) = false
is_never_dispatched (invalid_address a) = false
is_never_dispatched (invalid_path a) = false
is_never_dispatched (invalid_params a) = false
is_never_dispatched (invalid_tool_category a) = false
is_never_dispatched (invalid_tool_name a) = false
is_never_dispatched (address_out_of_range a) = false
is_never_dispatched (function_not_found a) = false
is_never_dispatched (function_name_not_found a) = false
is_never_dispatched decompiler_unavailable = false
is_never_dispatched (timeout a) = false
is_never_dispatched (timeout_detailed a) = false
is_never_dispatched (cancelled a) = false
is_never_dispatched busy = true
is_never_dispatched database_replaced = false
is_never_dispatched background_task_handle_private = false
is_never_dispatched (background_task_registry_full a) = false
is_never_dispatched (pool_exhausted a b) = false
is_never_dispatched (worker_crashed a b) = false
is_never_dispatched (worker_retired a) = false
is_never_dispatched (never_dispatched a) = true
is_never_dispatched (sdk_crashed a) = false
is_never_dispatched (remote_protocol a) = false
is_never_dispatched (remote_call a b) = false
is_never_dispatched (ida_error a) = false
is_never_dispatched (debugger_teardown a) = false
is_never_dispatched (debugger_start_retained a) = false
is_never_dispatched (debugger_session_lost a) = false
is_never_dispatched (not_supported a) = false
is_never_dispatched worker_closed = false
is_never_dispatched (sdk_version_mismatch a) = false

-- release_error_retires_worker
unfoldable pub release_error_retires_worker : ToolError → Bool
release_error_retires_worker no_database_open = false
release_error_retires_worker (database_already_open a) = false
release_error_retires_worker (open_failed a) = false
release_error_retires_worker (database_locked a) = false
release_error_retires_worker (invalid_address a) = false
release_error_retires_worker (invalid_path a) = false
release_error_retires_worker (invalid_params a) = false
release_error_retires_worker (invalid_tool_category a) = false
release_error_retires_worker (invalid_tool_name a) = false
release_error_retires_worker (address_out_of_range a) = false
release_error_retires_worker (function_not_found a) = false
release_error_retires_worker (function_name_not_found a) = false
release_error_retires_worker decompiler_unavailable = false
release_error_retires_worker (timeout a) = true
release_error_retires_worker (timeout_detailed a) = true
release_error_retires_worker (cancelled a) = true
release_error_retires_worker busy = false
release_error_retires_worker database_replaced = false
release_error_retires_worker background_task_handle_private = false
release_error_retires_worker (background_task_registry_full a) = false
release_error_retires_worker (pool_exhausted a b) = false
release_error_retires_worker (worker_crashed a b) = true
release_error_retires_worker (worker_retired a) = true
release_error_retires_worker (never_dispatched a) = false
release_error_retires_worker (sdk_crashed a) = true
release_error_retires_worker (remote_protocol a) = true
release_error_retires_worker (remote_call a b) = true
release_error_retires_worker (ida_error a) = false
release_error_retires_worker (debugger_teardown a) = true
release_error_retires_worker (debugger_start_retained a) = false
release_error_retires_worker (debugger_session_lost a) = false
release_error_retires_worker (not_supported a) = false
release_error_retires_worker worker_closed = true
release_error_retires_worker (sdk_version_mismatch a) = false

-- The first test of `child_tool_error_retires_worker`.
unfoldable pub loses_worker : ToolError → Bool
loses_worker no_database_open = false
loses_worker (database_already_open a) = false
loses_worker (open_failed a) = false
loses_worker (database_locked a) = false
loses_worker (invalid_address a) = false
loses_worker (invalid_path a) = false
loses_worker (invalid_params a) = false
loses_worker (invalid_tool_category a) = false
loses_worker (invalid_tool_name a) = false
loses_worker (address_out_of_range a) = false
loses_worker (function_not_found a) = false
loses_worker (function_name_not_found a) = false
loses_worker decompiler_unavailable = false
loses_worker (timeout a) = false
loses_worker (timeout_detailed a) = false
loses_worker (cancelled a) = false
loses_worker busy = false
loses_worker database_replaced = false
loses_worker background_task_handle_private = false
loses_worker (background_task_registry_full a) = false
loses_worker (pool_exhausted a b) = false
loses_worker (worker_crashed a b) = true
loses_worker (worker_retired a) = true
loses_worker (never_dispatched a) = false
loses_worker (sdk_crashed a) = true
loses_worker (remote_protocol a) = true
loses_worker (remote_call a b) = false
loses_worker (ida_error a) = false
loses_worker (debugger_teardown a) = false
loses_worker (debugger_start_retained a) = false
loses_worker (debugger_session_lost a) = false
loses_worker (not_supported a) = false
loses_worker worker_closed = true
loses_worker (sdk_version_mismatch a) = false

-- Its last test.
unfoldable pub is_timeout : ToolError → Bool
is_timeout no_database_open = false
is_timeout (database_already_open a) = false
is_timeout (open_failed a) = false
is_timeout (database_locked a) = false
is_timeout (invalid_address a) = false
is_timeout (invalid_path a) = false
is_timeout (invalid_params a) = false
is_timeout (invalid_tool_category a) = false
is_timeout (invalid_tool_name a) = false
is_timeout (address_out_of_range a) = false
is_timeout (function_not_found a) = false
is_timeout (function_name_not_found a) = false
is_timeout decompiler_unavailable = false
is_timeout (timeout a) = true
is_timeout (timeout_detailed a) = true
is_timeout (cancelled a) = false
is_timeout busy = false
is_timeout database_replaced = false
is_timeout background_task_handle_private = false
is_timeout (background_task_registry_full a) = false
is_timeout (pool_exhausted a b) = false
is_timeout (worker_crashed a b) = false
is_timeout (worker_retired a) = false
is_timeout (never_dispatched a) = false
is_timeout (sdk_crashed a) = false
is_timeout (remote_protocol a) = false
is_timeout (remote_call a b) = false
is_timeout (ida_error a) = false
is_timeout (debugger_teardown a) = false
is_timeout (debugger_start_retained a) = false
is_timeout (debugger_session_lost a) = false
is_timeout (not_supported a) = false
is_timeout worker_closed = false
is_timeout (sdk_version_mismatch a) = false

-- child_tool_error_retires_worker
unfoldable pub child_tool_error_retires_worker : String → ToolError → Bool
unfolding loses_worker is_timeout
child_tool_error_retires_worker tool e =
    if loses_worker e
    then true
    else (str_eq tool "debug_launch"
        || str_eq tool "debug_attach"
        || str_eq tool "debug_modules"
        || str_eq tool "debug_stop")
      && is_timeout e

-- unsettled_open_error_retires_worker
unfoldable pub unsettled_open_error_retires_worker : ToolError → Bool
unsettled_open_error_retires_worker no_database_open = false
unsettled_open_error_retires_worker (database_already_open a) = false
unsettled_open_error_retires_worker (open_failed a) = false
unsettled_open_error_retires_worker (database_locked a) = false
unsettled_open_error_retires_worker (invalid_address a) = false
unsettled_open_error_retires_worker (invalid_path a) = false
unsettled_open_error_retires_worker (invalid_params a) = false
unsettled_open_error_retires_worker (invalid_tool_category a) = false
unsettled_open_error_retires_worker (invalid_tool_name a) = false
unsettled_open_error_retires_worker (address_out_of_range a) = false
unsettled_open_error_retires_worker (function_not_found a) = false
unsettled_open_error_retires_worker (function_name_not_found a) = false
unsettled_open_error_retires_worker decompiler_unavailable = false
unsettled_open_error_retires_worker (timeout a) = true
unsettled_open_error_retires_worker (timeout_detailed a) = true
unsettled_open_error_retires_worker (cancelled a) = true
unsettled_open_error_retires_worker busy = false
unsettled_open_error_retires_worker database_replaced = false
unsettled_open_error_retires_worker background_task_handle_private = false
unsettled_open_error_retires_worker (background_task_registry_full a) = false
unsettled_open_error_retires_worker (pool_exhausted a b) = false
unsettled_open_error_retires_worker (worker_crashed a b) = false
unsettled_open_error_retires_worker (worker_retired a) = true
unsettled_open_error_retires_worker (never_dispatched a) = false
unsettled_open_error_retires_worker (sdk_crashed a) = true
unsettled_open_error_retires_worker (remote_protocol a) = false
unsettled_open_error_retires_worker (remote_call a b) = false
unsettled_open_error_retires_worker (ida_error a) = false
unsettled_open_error_retires_worker (debugger_teardown a) = false
unsettled_open_error_retires_worker (debugger_start_retained a) = false
unsettled_open_error_retires_worker (debugger_session_lost a) = false
unsettled_open_error_retires_worker (not_supported a) = false
unsettled_open_error_retires_worker worker_closed = true
unsettled_open_error_retires_worker (sdk_version_mismatch a) = false

-- The last test of `open_error_releases_lease`.
unfoldable pub loses_lease : ToolError → Bool
loses_lease no_database_open = false
loses_lease (database_already_open a) = false
loses_lease (open_failed a) = false
loses_lease (database_locked a) = false
loses_lease (invalid_address a) = false
loses_lease (invalid_path a) = false
loses_lease (invalid_params a) = false
loses_lease (invalid_tool_category a) = false
loses_lease (invalid_tool_name a) = false
loses_lease (address_out_of_range a) = false
loses_lease (function_not_found a) = false
loses_lease (function_name_not_found a) = false
loses_lease decompiler_unavailable = false
loses_lease (timeout a) = true
loses_lease (timeout_detailed a) = true
loses_lease (cancelled a) = true
loses_lease busy = false
loses_lease database_replaced = true
loses_lease background_task_handle_private = false
loses_lease (background_task_registry_full a) = false
loses_lease (pool_exhausted a b) = false
loses_lease (worker_crashed a b) = true
loses_lease (worker_retired a) = true
loses_lease (never_dispatched a) = false
loses_lease (sdk_crashed a) = true
loses_lease (remote_protocol a) = false
loses_lease (remote_call a b) = false
loses_lease (ida_error a) = false
loses_lease (debugger_teardown a) = false
loses_lease (debugger_start_retained a) = false
loses_lease (debugger_session_lost a) = false
loses_lease (not_supported a) = false
loses_lease worker_closed = true
loses_lease (sdk_version_mismatch a) = false

-- open_error_releases_lease
unfoldable pub open_error_releases_lease : Bool → ToolError → Bool
unfolding is_never_dispatched loses_lease
open_error_releases_lease fresh_lease e =
    if is_never_dispatched e then false else fresh_lease || loses_lease e
