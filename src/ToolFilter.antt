-- ===== src/ToolFilter.antt =====
-- The tool filter of src/server/tool_filter.rs over the registry of src/tool_registry.rs. The
-- registry's table is an argument: every statement holds for any table. A `HashSet` is a list that is
-- only asked for members. Whether the build runs on Apple silicon is an argument.
pub mod Sets
pub mod Precedence
mod Tests
use Prim.Native.Char.{code}
use Prim.Native.String
use ida_mcp_rs.Base.{
  ℕ, ◌+◌, String, Bool, true, false, ◌&&◌, ◌||◌, not, Option, none, some, List, [], ◌∷◌, ◌++◌, map,
  retain, any, find, count, is_some, ◌==◌, leb, if◌then◌else◌, str_eq,
}

pub data ToolCategory : Type 0 where
  core : ToolCategory
  functions : ToolCategory
  disassembly : ToolCategory
  decompile : ToolCategory
  xrefs : ToolCategory
  control_flow : ToolCategory
  memory : ToolCategory
  search : ToolCategory
  metadata : ToolCategory
  types : ToolCategory
  editing : ToolCategory
  debug : ToolCategory
  ui : ToolCategory
  scripting : ToolCategory

-- The place of a category in its declaration, which tells it apart.
abbrev pub rank : ToolCategory → ℕ
rank core = 0
rank functions = 1
rank disassembly = 2
rank decompile = 3
rank xrefs = 4
rank control_flow = 5
rank memory = 6
rank search = 7
rank metadata = 8
rank types = 9
rank editing = 10
rank debug = 11
rank ui = 12
rank scripting = 13

pub record ToolInfo : Type 0 where
  pub name : String
  pub category : ToolCategory
  pub requires_debugger : Bool
  pub requires_workspace : Bool

abbrev pub read_only_deny_list : List String
read_only_deny_list =
    "run_script" ∷ "save_idb" ∷ "patch" ∷ "patch_asm" ∷ "rename" ∷ "rename_lvar" ∷ "set_lvar_type"
    ∷ "set_comments" ∷ "set_pseudocode_comment" ∷ "lumina_apply" ∷ "declare_type" ∷ "apply_types"
    ∷ "infer_types" ∷ "declare_stack" ∷ "delete_stack" ∷ "dsc_add_dylib" ∷ "dsc_add_region"
    ∷ "analyze_funcs" ∷ "debug_launch" ∷ "debug_attach" ∷ "debug_stop" ∷ []

abbrev pub lean_profile : List String
lean_profile =
    "open_idb" ∷ "open_dsc" ∷ "dsc_add_dylib" ∷ "dsc_add_region" ∷ "load_debug_info"
    ∷ "analysis_status" ∷ "analyze_funcs" ∷ "save_idb" ∷ "close_idb" ∷ "task_status"
    ∷ "list_functions" ∷ "resolve_function" ∷ "function_at" ∷ "disasm" ∷ "decompile" ∷ "xrefs_to"
    ∷ "xrefs_from" ∷ "callers" ∷ "callees" ∷ "strings" ∷ "find_bytes" ∷ "search" ∷ "segments"
    ∷ "imports" ∷ "exports" ∷ "rename" ∷ "set_comments" ∷ "run_script" ∷ []

pub data ToolFilterError : Type 0 where
  unknown_profile : String → ToolFilterError
  unknown_toolset : String → ToolFilterError
  unknown_tool : String → ToolFilterError
  empty_final_set : ToolFilterError

pub record ToolFilter : Type 0 where
  pub enabled : List String
  pub is_active : Bool
  pub debugger_enabled : Bool
  pub workspace_enabled : Bool

pub data Result {ℓ} (A : Type ℓ) : Type ℓ where
  ok : A → Result A
  err : ToolFilterError → Result A

infixl 10 ◌>>=◌
abbrev pub ◌>>=◌ {ℓ κ} : {A : Type ℓ} {B : Type κ} → Result A → (A → Result B) → Result B
ok a >>= f = f a
err e >>= f = err e

-- `char::is_whitespace`
abbrev pub is_whitespace : ℕ → Bool
is_whitespace c =
    (leb 9 c && leb c 13)
    || any (λ w. c == w)
        (32 ∷ 0x85 ∷ 0xa0 ∷ 0x1680 ∷ 0x2028 ∷ 0x2029 ∷ 0x202f ∷ 0x205f ∷ 0x3000 ∷ [])
    || (leb 0x2000 c && leb c 0x200a)

unfoldable pub trim_start : String → String
trim_start String.[] = ""
trim_start (String.◌∷◌ c s) =
    let rest = trim_start s in if is_whitespace (code c) then rest else String.◌∷◌ c s

unfoldable pub trim_end : String → String
trim_end String.[] = ""
trim_end (String.◌∷◌ c s) =
    let rest = trim_end s in
    if is_whitespace (code c) && str_eq rest "" then "" else String.◌∷◌ c rest

unfoldable pub trim : String → String
unfolding trim_start trim_end
trim s = trim_end (trim_start s)

abbrev pub add_to_first : String → List String → List String
add_to_first c [] = c ∷ []
add_to_first c (s ∷ ss) = String.◌++◌ c s ∷ ss

-- `split(',')`
unfoldable pub split_commas : String → List String
split_commas String.[] = "" ∷ []
split_commas (String.◌∷◌ c s) =
    let rest = split_commas s in
    if code c == 44 then "" ∷ rest else add_to_first (String.◌∷◌ c String.[]) rest

unfoldable pub clean : List String → List String
unfolding split_commas trim
clean [] = []
clean (s ∷ input) = retain (λ t. not (str_eq t "")) (map trim (split_commas s)) ++ clean input

abbrev pub codes : String → List ℕ
codes String.[] = []
codes (String.◌∷◌ c s) = code c ∷ codes s

abbrev pub codes_eq : List ℕ → List ℕ → Bool
codes_eq [] [] = true
codes_eq [] (d ∷ ds) = false
codes_eq (c ∷ cs) [] = false
codes_eq (c ∷ cs) (d ∷ ds) = c == d && codes_eq cs ds

abbrev pub ascii_lowercase : ℕ → ℕ
ascii_lowercase c = if leb 65 c && leb c 90 then c + 32 else c

unfoldable pub profile_tools : String → Option (List String)
unfolding trim
profile_tools name =
    if codes_eq (map ascii_lowercase (codes (trim name))) (codes "lean")
    then some lean_profile
    else none

-- Membership in a set of names, `HashSet::insert` of each of some names, and `HashSet::remove`.
abbrev pub contains : String → List String → Bool
contains name names = any (λ n. str_eq n name) names

abbrev pub add : String → List String → List String
add name names = if contains name names then names else name ∷ names

abbrev pub extend : List String → List String → List String
extend names [] = names
extend names (n ∷ more) = extend (add n names) more

abbrev pub without : String → List String → List String
without name names = retain (λ n. not (str_eq n name)) names

abbrev pub names_of : List ToolInfo → List String
names_of tools = map (λ t. t.name) tools

-- The names under which `ToolCategory::from_str` knows the categories.
abbrev pub category_names : List (String × ToolCategory)
category_names =
    ("core", core)
    ∷ ("functions", functions)
    ∷ ("function", functions)
    ∷ ("disassembly", disassembly)
    ∷ ("disasm", disassembly)
    ∷ ("decompile", decompile)
    ∷ ("decompiler", decompile)
    ∷ ("xrefs", xrefs)
    ∷ ("xref", xrefs)
    ∷ ("references", xrefs)
    ∷ ("control_flow", control_flow)
    ∷ ("controlflow", control_flow)
    ∷ ("cfg", control_flow)
    ∷ ("memory", memory)
    ∷ ("data", memory)
    ∷ ("search", search)
    ∷ ("metadata", metadata)
    ∷ ("meta", metadata)
    ∷ ("info", metadata)
    ∷ ("types", types)
    ∷ ("type", types)
    ∷ ("structs", types)
    ∷ ("editing", editing)
    ∷ ("edit", editing)
    ∷ ("debug", debug)
    ∷ ("debugger", debug)
    ∷ ("ui", ui)
    ∷ ("scripting", scripting)
    ∷ ("script", scripting)
    ∷ ("eval", scripting)
    ∷ []

-- `lowercase` is what `str::to_lowercase` makes of a text by the tables of Unicode.
unfoldable pub category_from_str : (String → String) → String → Option ToolCategory
unfolding trim
category_from_str lowercase input =
    let normalized =
      map (λ c. if c == 45 || c == 32 then 95 else c) (codes (lowercase (trim input))) in
    elim (find (λ (n, _). codes_eq normalized (codes n)) category_names) [
      | none ↦ none
      | some (_, category) ↦ some category
    ]

unfoldable pub add_profile : Option String → List String → Result (List String)
unfolding profile_tools
add_profile none enabled = ok enabled
add_profile (some name) enabled = elim (profile_tools name) [
  | none ↦ err (unknown_profile name)
  | some members ↦ ok (extend enabled members)
]

unfoldable pub remove_all : List String → List String → List String
remove_all [] enabled = enabled
remove_all (name ∷ names) enabled = remove_all names (without name enabled)

abbrev pub is_empty : List String → Bool
is_empty [] = true
is_empty (n ∷ names) = false

-- `profile.map(str::trim).filter(|name| !name.is_empty())`
unfoldable pub clean_profile : Option String → Option String
unfolding trim
clean_profile none = none
clean_profile (some name) = if str_eq (trim name) "" then none else some (trim name)

-- The test for an empty set.
unfoldable pub not_empty : Bool → List String → Result ToolFilter
not_empty is_active enabled =
    if is_empty enabled
    then err empty_final_set
    else ok (record {
      enabled = enabled;
      is_active = is_active;
      debugger_enabled = false;
      workspace_enabled = false;
    })

-- The deny-list, and the test.
unfoldable pub read_only_filter : Bool → Bool → List String → Result ToolFilter
unfolding remove_all not_empty
read_only_filter is_active read_only excluded =
    not_empty is_active (if read_only then remove_all read_only_deny_list excluded else excluded)

module _ (registry : List ToolInfo) where
  unfoldable pub get_tool : String → Option ToolInfo
  get_tool name = find (λ t. str_eq t.name name) registry

  unfoldable pub tools_by_category : ToolCategory → List ToolInfo
  tools_by_category category = retain (λ t. rank t.category == rank category) registry

  unfoldable pub add_toolsets : (String → String) → List String → List String → Result (List String)
  unfolding category_from_str tools_by_category
  add_toolsets lowercase [] enabled = ok enabled
  add_toolsets lowercase (raw ∷ toolsets) enabled = elim (category_from_str lowercase raw) [
    | none ↦ err (unknown_toolset raw)
    | some category ↦
        add_toolsets lowercase toolsets (extend enabled (names_of (tools_by_category category)))
  ]

  unfoldable pub add_tools : List String → List String → Result (List String)
  unfolding get_tool
  add_tools [] enabled = ok enabled
  add_tools (raw ∷ tools) enabled = elim (get_tool raw) [
    | none ↦ err (unknown_tool raw)
    | some tool ↦ add_tools tools (extend enabled (tool.name ∷ []))
  ]

  unfoldable pub remove_tools : List String → List String → Result (List String)
  unfolding get_tool
  remove_tools [] enabled = ok enabled
  remove_tools (raw ∷ excludes) enabled = elim (get_tool raw) [
    | none ↦ err (unknown_tool raw)
    | some tool ↦ remove_tools excludes (without tool.name enabled)
  ]

  -- The filter from cleaned inputs.
  unfoldable pub from_cleaned :
      (String → String)
      → Option String
      → List String
      → List String
      → List String
      → Bool
      → Result ToolFilter
  unfolding add_profile add_toolsets add_tools remove_tools read_only_filter
  from_cleaned lowercase profile toolsets tools excludes read_only =
      let narrowed = is_some profile || not (is_empty toolsets) || not (is_empty tools) in
      do
        based ← add_profile profile (if narrowed then [] else extend [] (names_of registry))
        categorised ← add_toolsets lowercase toolsets based
        included ← add_tools tools categorised
        excluded ← remove_tools excludes included
        read_only_filter (narrowed || not (is_empty excludes) || read_only) read_only excluded

  unfoldable pub from_profile_and_inputs :
      (String → String)
      → Option String
      → List String
      → List String
      → List String
      → Bool
      → Result ToolFilter
  unfolding clean clean_profile from_cleaned
  from_profile_and_inputs lowercase profile toolsets tools exclude_tools read_only =
      from_cleaned lowercase (clean_profile profile) (clean toolsets) (clean tools)
        (clean exclude_tools) read_only

  unfoldable pub is_enabled : ToolFilter → String → Bool
  unfolding get_tool
  is_enabled f name = contains name f.enabled && (elim (get_tool name) [
    | none ↦ false
    | some tool ↦
        (not tool.requires_debugger || f.debugger_enabled)
        && (not tool.requires_workspace || f.workspace_enabled)
  ])

  unfoldable pub enabled_count : ToolFilter → ℕ
  unfolding is_enabled
  enabled_count f = count (is_enabled f) f.enabled

  -- `apple_silicon` is `cfg!(all(target_os = "macos", target_arch = "aarch64"))`.
  unfoldable pub with_capabilities : Bool → ToolFilter → Bool → Bool → Result ToolFilter
  unfolding enabled_count
  with_capabilities apple_silicon f debugger_requested workspace_enabled =
      let g = record f {
        debugger_enabled = debugger_requested && apple_silicon;
        workspace_enabled = workspace_enabled;
      } in
      if enabled_count g == 0 then err empty_final_set else ok g
