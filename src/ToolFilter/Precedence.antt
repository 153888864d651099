-- ===== src/ToolFilter/Precedence.antt =====
-- Which inputs win in src/server/tool_filter.rs.
use ida_mcp_rs.Base.{
  ◌≡◌, refl, subst, sym, ap, ◌∙◌, inl, inr, String, Bool, true, false, ◌&&◌, ◌||◌, not, Option,
  List, [], ◌∷◌, is_some, arith, if◌then◌else◌,
}
use ida_mcp_rs.ToolFilter.{
  ToolInfo, ToolFilter, ok, contains, extend, names_of, read_only_deny_list, add_profile,
  add_toolsets, add_tools, remove_tools, is_empty, clean, clean_profile, from_cleaned,
  read_only_filter, not_empty, from_profile_and_inputs, is_enabled, with_capabilities,
}
use ida_mcp_rs.ToolFilter.Sets.{Result-cases, contains-remove_all, contains-remove_tools}

not_empty-enabled :
    (is_active : Bool) (names : List String) (f : ToolFilter)
    → not_empty is_active names ≡ ok f
    → f.enabled ≡ names
unfolding not_empty
not_empty-enabled is_active [] f h = ground (arith, h)
not_empty-enabled is_active (n ∷ names) f h = ground (arith, h)

split_and : (a b : Bool) → (a && not b) ≡ true → (a ≡ true) × (b ≡ false)
split_and true false h = (refl, refl)
split_and true true h = ground (arith, h)
split_and false b h = ground (arith, h)

read_only_filter-excluded :
    (is_active read_only : Bool) (excluded : List String) (f : ToolFilter) (name : String)
    → read_only_filter is_active read_only excluded ≡ ok f
    → contains name f.enabled ≡ true
    → (contains name excluded ≡ true) × ((read_only && contains name read_only_deny_list) ≡ false)
unfolding read_only_filter
read_only_filter-excluded is_active true excluded f name h c =
    split_and (contains name excluded) (contains name read_only_deny_list) (
      sym (contains-remove_all name read_only_deny_list excluded)
      ∙ (ap (contains name) (sym (not_empty-enabled is_active _ f h)) ∙ c))
read_only_filter-excluded is_active false excluded f name h c =
    (ap (contains name) (sym (not_empty-enabled is_active excluded f h)) ∙ c, refl)

module _ (registry : List ToolInfo) (lowercase : String → String) where
  from_cleaned-chain :
      (profile : Option String) (toolsets tools excludes : List String) (read_only : Bool)
      (based categorised included excluded : List String)
      → (let narrowed = is_some profile || not (is_empty toolsets) || not (is_empty tools) in
          add_profile profile (if narrowed then [] else extend [] (names_of registry)) ≡ ok based)
      → add_toolsets registry lowercase toolsets based ≡ ok categorised
      → add_tools registry tools categorised ≡ ok included
      → remove_tools registry excludes included ≡ ok excluded
      → from_cleaned registry lowercase profile toolsets tools excludes read_only ≡ (
          let narrowed = is_some profile || not (is_empty toolsets) || not (is_empty tools) in
          read_only_filter (narrowed || not (is_empty excludes) || read_only) read_only excluded)
  unfolding from_cleaned
  from_cleaned-chain profile toolsets tools excludes read_only based categorised included excluded e
        g i j =
      rw (e, g, i, j, from_cleaned)

  from_cleaned-excluded :
      (profile : Option String) (toolsets tools excludes : List String) (read_only : Bool)
      (f : ToolFilter) (name : String)
      → from_cleaned registry lowercase profile toolsets tools excludes read_only ≡ ok f
      → contains name f.enabled ≡ true
      → (contains name excludes ≡ false)
        × ((read_only && contains name read_only_deny_list) ≡ false)
  unfolding from_cleaned
  from_cleaned-excluded profile toolsets tools excludes read_only f name h c =
      let narrowed = is_some profile || not (is_empty toolsets) || not (is_empty tools) in
      elim (Result-cases
        (add_profile profile (if narrowed then [] else extend [] (names_of registry)))) [
          | inl (x, e) ↦ ground (arith, h, e)
          | inr (based, e) ↦ elim (Result-cases (add_toolsets registry lowercase toolsets based)) [
            | inl (x, g) ↦ ground (arith, h, e, g)
            | inr (categorised, g) ↦ elim (Result-cases (add_tools registry tools categorised)) [
              | inl (x, i) ↦ ground (arith, h, e, g, i)
              | inr (included, i) ↦ elim (Result-cases (remove_tools registry excludes included)) [
                | inl (x, j) ↦ ground (arith, h, e, g, i, j)
                | inr (excluded, j) ↦
                    let active = narrowed || not (is_empty excludes) || read_only in
                    let last =
                      read_only_filter-excluded active read_only excluded f name
                        (subst (λ r. r ≡ ok f)
                          (from_cleaned-chain profile toolsets tools excludes read_only based
                            categorised included excluded e g i j)
                          h)
                        c in
                    let kept = contains-remove_tools registry name excludes included excluded j in
                    (ground (arith, kept, last.0), last.1)
              ]
            ]
          ]
        ]

  -- Excludes and the read-only deny-list always win: whatever the profile, the toolsets and the
  -- tools include, a server that starts enables no excluded tool, and none of the deny-list in
  -- read-only mode.
  pub is_enabled-excluded :
      (profile : Option String) (toolsets tools exclude_tools : List String)
      (read_only apple_silicon debugger workspace : Bool) (f g : ToolFilter) (name : String)
      → from_profile_and_inputs registry lowercase profile toolsets tools exclude_tools read_only
        ≡ ok f
      → with_capabilities registry apple_silicon f debugger workspace ≡ ok g
      → is_enabled registry g name ≡ true
      → (contains name (clean exclude_tools) ≡ false)
        × ((read_only && contains name read_only_deny_list) ≡ false)
  unfolding from_profile_and_inputs with_capabilities is_enabled
  is_enabled-excluded profile toolsets tools exclude_tools read_only apple_silicon debugger
        workspace f g name h k enabled =
      from_cleaned-excluded (clean_profile profile) (clean toolsets) (clean tools)
        (clean exclude_tools) read_only f name h (ground (arith, k, enabled))
