-- ===== src/Remote.antt =====
-- src/ida/remote.rs: what the pool reads from the reply of a worker's tool. A reply is given by what
-- the code reads from it. `to_ascii_lowercase` is an argument.
use Prim.Native.String.{◌++◌, len, slice}
use text.Mathlib.Text.{starts_with, find?}
use ida_mcp_rs.Base.{String, Bool, true, false, ◌||◌, not, Option, none, some, if◌then◌else◌}
use ida_mcp_rs.Error.{
  ToolError, debugger_start_retained, not_supported, worker_closed, timeout_detailed, cancelled,
  debugger_teardown, ida_error, sdk_crashed,
}

-- `marked` is the `_meta` key of a crash, `text` the text of the first content, `opened` the path in
-- the value that parses as a `DbInfo`.
pub record CallToolResult : Type 0 where
  pub marked : Bool
  pub is_error : Bool
  pub text : Option String
  pub opened : Option String
  pub session_retained : Bool

-- The same with the errors that are found in it.
pub record Reply : Type 0 where
  pub crash : Option ToolError
  pub reported : Option ToolError
  pub opened : Option String
  pub session_retained : Bool

abbrev pub not_supported_prefix : String
not_supported_prefix = "Not supported: "

abbrev pub debugger_start_retained_prefix : String
debugger_start_retained_prefix = "Debugger start incomplete; active session retained: "

abbrev pub contains : String → String → Bool
contains s t = elim (find? s t) [ none ↦ false | some i ↦ true ]

abbrev pub after : String → String → String
after prefix s = slice s (len prefix) (len s)

unfoldable pub result_error_message : String → CallToolResult → String
result_error_message tool result = elim result.text [
  | none ↦ "child tool " ++ tool ++ " returned an error"
  | some text ↦ text
]

unfoldable pub sdk_crash : String → CallToolResult → Option ToolError
unfolding result_error_message
sdk_crash tool result =
    if not result.marked
    then none
    else some (
        sdk_crashed (
          if result.is_error
          then result_error_message tool result
          else tool
            ++ " crashed inside the IDA SDK. The database state can no longer be trusted, so it is closed without saving and changes since the last save_idb are lost. Call open_idb again."))

module _ (to_ascii_lowercase : String → String) where
  unfoldable pub classify_child_error : String → ToolError
  classify_child_error message =
      if starts_with message debugger_start_retained_prefix
      then debugger_start_retained (after debugger_start_retained_prefix message)
      else if starts_with message not_supported_prefix
      then not_supported (after not_supported_prefix message)
      else let lowered = to_ascii_lowercase message in
        if contains lowered "worker channel closed"
        then worker_closed
        else if contains lowered "timed out after"
            || contains lowered "operation timed out"
            || contains lowered "exceeded worker operation timeout"
        then timeout_detailed message
        else if contains lowered "cancelled" || contains lowered "canceled"
        then cancelled message
        else if contains lowered "debugger teardown incomplete"
        then debugger_teardown message
        else ida_error message

  unfoldable pub result_error : String → CallToolResult → Option ToolError
  unfolding classify_child_error
  result_error tool result =
      if not result.is_error
      then none
      else some (classify_child_error (result_error_message tool result))

  unfoldable pub read_reply : String → CallToolResult → Reply
  unfolding result_error
  read_reply tool result = record {
    crash = sdk_crash tool result;
    reported = result_error tool result;
    opened = result.opened;
    session_retained = result.session_retained;
  }
