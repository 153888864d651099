-- ===== src/Access/Configured.antt =====
-- What the command line of src/server/http_access.rs allows.
use ida_mcp_rs.Base.{
  String, ◌≡◌, refl, sym, subst, inl, inr, arith, Bool, true, false, not, ◌&&◌, ◌||◌, Option, none,
  some, List, [], ◌∷◌, any, str_eq, Option-cases, Bool-cases,
}
use ida_mcp_rs.Access.{
  NormalizedAuthority, Library, allow_list_contains, is_allowed_by, normalize_host,
  normalize_authority, clean_allowlist, parse_allowed_authority, collect_hosts, hosts_from_cli,
}

module _ (lib : Library) where
  -- A value of the command line that names a host.
  abbrev pub names_host : NormalizedAuthority → String → Bool
  names_host host value = elim (parse_allowed_authority lib (lib.trim value)) [
    | none ↦ false
    | some allowed_host ↦ is_allowed_by host allowed_host
  ]

  -- The values switch the check of hosts off: one of them is the wildcard, or all are blank.
  abbrev pub switches_off : List String → Bool
  switches_off values =
      any (λ value. str_eq (lib.trim value) "*") values
      || not (any (λ value. not (str_eq (lib.trim value) "")) values)

  pub clean_allowlist-any :
      (origin : String) (values : List String)
      → any (λ o. str_eq o origin) (clean_allowlist lib values) ≡ true
      → any (λ value. not (str_eq (lib.trim value) "") && str_eq (lib.trim value) origin) values
        ≡ true
  unfolding clean_allowlist
  clean_allowlist-any origin [] h = h
  clean_allowlist-any origin (value ∷ values) h =
      ground (arith, h, clean_allowlist-any origin values)

  collect_hosts-any :
      (host : NormalizedAuthority) (values : List String) (hosts : List NormalizedAuthority)
      → collect_hosts lib values ≡ some hosts
      → any (is_allowed_by host) hosts ≡ true
      → any (names_host host) values ≡ true
  unfolding collect_hosts
  collect_hosts-any host [] hosts h a = ground (arith, h, a)
  collect_hosts-any host (value ∷ values) hosts h a =
      elim (Option-cases (collect_hosts lib values)) [
        | inl e ↦ absurd (ground (arith, h, e))
        | inr (rest, e) ↦ elim (Option-cases (parse_allowed_authority lib (lib.trim value))) [
          | inl p ↦ ground (arith, h, a, e, p, collect_hosts-any host values rest e)
          | inr (entry, p) ↦ ground (arith, h, a, e, p, collect_hosts-any host values rest e)
        ]
      ]

  collect_hosts-none :
      (values : List String)
      → collect_hosts lib values ≡ none
      → any (λ value. str_eq (lib.trim value) "*") values ≡ true
  unfolding collect_hosts
  collect_hosts-none [] h = ground (arith, h)
  collect_hosts-none (value ∷ values) h = elim (Option-cases (collect_hosts lib values)) [
    | inl e ↦ ground (arith, h, e, collect_hosts-none values e)
    | inr (rest, e) ↦ ground (arith, h, e)
  ]

  parse_allowed_authority-some :
      (value : String)
      → str_eq (lib.trim value) "" ≡ false
      → (entry : NormalizedAuthority) × (parse_allowed_authority lib value ≡ some entry)
  unfolding parse_allowed_authority
  parse_allowed_authority-some value h = elim (Option-cases (lib.authority (lib.trim value))) [
    | inl e ↦
        (record { host = normalize_host lib (lib.trim value); port = none }, ground (arith, h, e))
    | inr (authority, e) ↦ (normalize_authority lib authority, ground (arith, h, e))
  ]

  collect_hosts-blank :
      ((s : String) → lib.trim (lib.trim s) ≡ lib.trim s)
      → (values : List String) → collect_hosts lib values ≡ some []
      → any (λ value. not (str_eq (lib.trim value) "")) values ≡ false
  unfolding collect_hosts
  collect_hosts-blank idempotent [] h = refl
  collect_hosts-blank idempotent (value ∷ values) h =
      elim (Bool-cases (str_eq (lib.trim value) "")) [
        | inl blank ↦ ground (arith, blank, h, collect_hosts-blank idempotent values)
        | inr filled ↦
            let again : str_eq (lib.trim (lib.trim value)) "" ≡ false =
              subst (λ s. str_eq s "" ≡ false) (sym (idempotent value)) filled in
            let (entry, p) = parse_allowed_authority-some (lib.trim value) again in
            elim (Option-cases (collect_hosts lib values)) [
              | inl e ↦ absurd (ground (arith, h, filled, e))
              | inr (rest, e) ↦ absurd (ground (arith, h, filled, p, e))
            ]
      ]

  -- The hosts of the command line let a host through: it is one of them, or they switch the check off.
  pub hosts_from_cli-contains :
      ((s : String) → lib.trim (lib.trim s) ≡ lib.trim s)
      → (host : NormalizedAuthority) (allow_host : Option (List String))
      → allow_list_contains (hosts_from_cli lib allow_host) host ≡ true
      → (values : List String) × (allow_host ≡ some values)
        × ((any (names_host host) values || switches_off values) ≡ true)
  unfolding hosts_from_cli allow_list_contains
  hosts_from_cli-contains idempotent host none h = absurd (ground (arith, h))
  hosts_from_cli-contains idempotent host (some values) h = (
    values,
    refl,
    elim (Option-cases (collect_hosts lib values)) [
      | inl e ↦ ground (arith, collect_hosts-none values e)
      | inr ([], e) ↦ ground (arith, collect_hosts-blank idempotent values e)
      | inr (entry ∷ hosts, e) ↦
          ground (arith, h, e, collect_hosts-any host values (entry ∷ hosts) e)
    ],
  )
