-- ===== src/ToolFilter/Sets.antt =====
-- Membership in the sets of names of src/server/tool_filter.rs.
use ida_mcp_rs.Base.{
  ◌≡◌, refl, ◌⊎◌, inl, inr, String, ◌&&◌, not, some, List, [], ◌∷◌, find, str_eq, eq_iff, arith,
  Option-cases,
}
use ida_mcp_rs.ToolFilter.{
  ToolInfo, ToolFilterError, Result, ok, err, contains, without, get_tool, remove_tools, remove_all,
}

pub Result-cases {ℓ} :
    {A : Type ℓ} (r : Result A) → ((e : ToolFilterError) × (r ≡ err e)) ⊎ ((a : A) × (r ≡ ok a))
Result-cases (err e) = inl (e, refl)
Result-cases (ok a) = inr (a, refl)

pub contains-without :
    (n m : String) (names : List String)
    → contains n (without m names) ≡ (contains n names && not (str_eq m n))
contains-without n m [] = refl
contains-without n m (x ∷ names) =
    ground (arith, eq_iff x m, eq_iff x n, eq_iff m n, contains-without n m names)

pub contains-remove_all :
    (n : String) (removed names : List String)
    → contains n (remove_all removed names) ≡ (contains n names && not (contains n removed))
unfolding remove_all
contains-remove_all n [] names = ground arith
contains-remove_all n (m ∷ removed) names =
    ground (arith, contains-remove_all n removed (without m names), contains-without n m names)

module _ (registry : List ToolInfo) where
  pub get_tool-name :
      (name : String) (tool : ToolInfo) → get_tool registry name ≡ some tool → tool.name ≡ name
  unfolding get_tool
  get_tool-name name tool h = go registry h
    where
      go : (ts : List ToolInfo) → find (λ t. str_eq t.name name) ts ≡ some tool → tool.name ≡ name
      go [] h = ground arith
      go (t ∷ ts) h = ground (arith, h, eq_iff t.name name, go ts)

  -- Excluding names leaves the others.
  pub contains-remove_tools :
      (n : String) (excludes names out : List String)
      → remove_tools registry excludes names ≡ ok out
      → contains n out ≡ (contains n names && not (contains n excludes))
  unfolding remove_tools
  contains-remove_tools n [] names out h = ground (arith, h)
  contains-remove_tools n (raw ∷ excludes) names out h =
      elim (Option-cases (get_tool registry raw)) [
        | inl e ↦ ground (arith, h, e)
        | inr (t, e) ↦ ground (
          arith,
          h,
          e,
          get_tool-name raw t e,
          contains-without n t.name names,
          contains-remove_tools n excludes (without t.name names) out,
        )
      ]
