-- ===== src/ToolFilter/Tests.antt =====
-- The theorems on the tool filter at a concrete registry.
use ida_mcp_rs.Base.{◌≡◌, ◌≢◌, refl, String, true, false, ◌&&◌, none, some, List, [], ◌∷◌}
use ida_mcp_rs.ToolFilter.{
  ToolInfo, core, editing, debug, types, ToolFilter, trim, trim_start, trim_end, split_commas,
  clean, clean_profile, contains, read_only_deny_list, category_from_str, profile_tools, get_tool,
  tools_by_category, add_profile, add_toolsets, add_tools, remove_tools, remove_all, not_empty,
  read_only_filter, from_cleaned, from_profile_and_inputs, is_enabled, enabled_count,
  with_capabilities,
}
use ida_mcp_rs.ToolFilter.Precedence.{is_enabled-excluded}

abbrev registry : List ToolInfo
registry =
    record {
      name = "open_idb";
      category = core;
      requires_debugger = false;
      requires_workspace = false;
    }
    ∷ record {
      name = "patch";
      category = editing;
      requires_debugger = false;
      requires_workspace = false;
    }
    ∷ record {
      name = "debug_step";
      category = debug;
      requires_debugger = true;
      requires_workspace = false;
    }
    ∷ []

-- On names that are in lower case already.
abbrev lowercase : String → String
lowercase s = s

abbrev filter : ToolFilter
filter = record {
  enabled = "debug_step" ∷ "open_idb" ∷ [];
  is_active = true;
  debugger_enabled = false;
  workspace_enabled = false;
}

abbrev with_debugger : ToolFilter
with_debugger = record filter { debugger_enabled = true }

clean_input : clean (" a,b ,," ∷ "" ∷ []) ≡ "a" ∷ "b" ∷ []
unfolding clean split_commas trim trim_start trim_end
clean_input = refl

type_names : category_from_str lowercase " structs" ≡ some types
unfolding category_from_str trim trim_start trim_end
type_names = refl

lean_in_capitals : profile_tools "LeaN " ≢ none
unfolding profile_tools trim trim_start trim_end
lean_in_capitals h = cc h

is_enabled-excluded_example :
    (contains "open_idb" (clean []) ≡ false)
    × ((true && contains "open_idb" read_only_deny_list) ≡ false)
unfolding clean split_commas trim trim_start trim_end clean_profile category_from_str profile_tools
    get_tool tools_by_category add_profile add_toolsets add_tools remove_tools remove_all not_empty
    read_only_filter from_cleaned from_profile_and_inputs is_enabled enabled_count with_capabilities
is_enabled-excluded_example =
    is_enabled-excluded registry lowercase none [] [] [] true true true false filter with_debugger
      "open_idb" refl refl refl
