-- ===== src/Access/Accepted.antt =====
-- What a request that passes the checks of src/server/http_access.rs has in its headers.
use ida_mcp_rs.Base.{
  ℕ, String, ◌≡◌, ◌⊎◌, refl, inl, inr, arith, true, not, ◌&&◌, ◌||◌, Option, none, some, List, any,
  str_eq, eq_iff, Option-cases, Bool-cases,
}
use ida_mcp_rs.Access.{
  IpAddr, is_loopback, is_unspecified, ip_eq, NormalizedAuthority, Library, Header, missing,
  no_text, text, HeaderMap, HttpAccessPolicy, allowed, port_matches, allow_list_contains,
  normalize_authority, policy_from_cli, validate_origin, parse_host_header, host_allowed_by_bind,
  validate_host, validate,
}
use ida_mcp_rs.Access.Configured.{
  names_host, switches_off, clean_allowlist-any, hosts_from_cli-contains,
}

module _ (lib : Library) where
  -- A host that the server is bound to: `localhost`, or an address that reaches it.
  abbrev pub IsBoundHost : IpAddr → ℕ → NormalizedAuthority → Type 0
  IsBoundHost bind_ip bind_port host =
      ((host.port ≡ none) ⊎ (host.port ≡ some bind_port))
      × (((host.host ≡ "localhost") × ((is_loopback bind_ip || is_unspecified bind_ip) ≡ true))
          ⊎ ((ip : IpAddr) × (lib.parse_ip host.host ≡ some ip)
              × ((is_unspecified bind_ip
                    || ((is_loopback bind_ip && is_loopback ip) || ip_eq ip bind_ip))
                  ≡ true)))

  host_allowed_by_bind-IsBoundHost :
      (policy : HttpAccessPolicy) (host : NormalizedAuthority)
      → host_allowed_by_bind lib policy host ≡ true
      → IsBoundHost policy.bind_ip policy.bind_port host
  unfolding host_allowed_by_bind port_matches
  host_allowed_by_bind-IsBoundHost policy host h = (port host.port refl, address)
    where
      port :
          (p : Option ℕ) → host.port ≡ p → (host.port ≡ none) ⊎ (host.port ≡ some policy.bind_port)
      port none e = inl e
      port (some n) e = inr (ground (arith, h, e))

      address :
          ((host.host ≡ "localhost")
            × ((is_loopback policy.bind_ip || is_unspecified policy.bind_ip) ≡ true))
          ⊎ ((ip : IpAddr) × (lib.parse_ip host.host ≡ some ip)
              × ((is_unspecified policy.bind_ip
                    || ((is_loopback policy.bind_ip && is_loopback ip) || ip_eq ip policy.bind_ip))
                  ≡ true))
      address = elim (Bool-cases (str_eq host.host "localhost")) [
        | inl e ↦ inl ((eq_iff host.host "localhost").0 e, ground (arith, h, e))
        | inr e ↦ elim (Option-cases (lib.parse_ip host.host)) [
          | inl p ↦ absurd (ground (arith, h, e, p))
          | inr (ip, p) ↦ inr (ip, p, ground (arith, h, e, p))
        ]
      ]

  -- A request that the server answers is no rebound one. If the checks that the command line sets up
  -- let it through, then it has no `Origin` or one that the command line lists, and its `Host` parses
  -- to a host that the server is bound to (its port, if it has one, is the bound port, and it is
  -- `localhost` on a loopback or unspecified address, or an address which the bound one covers), or to one
  -- that the command line names, or the command line switches the check of hosts off. The condition is
  -- that trimming a text twice is trimming it once.
  pub validate-allowed :
      ((s : String) → lib.trim (lib.trim s) ≡ lib.trim s)
      → (bind_ip : IpAddr) (bind_port : ℕ) (allow_origin : List String)
        (allow_host : Option (List String)) (headers : HeaderMap)
      → validate lib (policy_from_cli lib bind_ip bind_port allow_origin allow_host) headers
        ≡ allowed
      → ((headers.origin ≡ missing)
          ⊎ ((origin : String) × (headers.origin ≡ text origin)
              × (any
                    (λ value. not (str_eq (lib.trim value) "") && str_eq (lib.trim value) origin)
                    allow_origin
                  ≡ true)))
        × ((host : String) × (authority : String × Option ℕ) × (headers.host ≡ text host)
            × (lib.authority host ≡ some authority)
            × (IsBoundHost bind_ip bind_port (normalize_authority lib authority)
                ⊎ ((values : List String) × (allow_host ≡ some values)
                    × ((any (names_host lib (normalize_authority lib authority)) values
                          || switches_off lib values)
                        ≡ true))))
  unfolding validate validate_origin validate_host parse_host_header policy_from_cli
      allow_list_contains
  validate-allowed idempotent bind_ip bind_port allow_origin allow_host headers h =
      (from_origin headers.origin refl, from_host headers.host refl)
    where
      policy : HttpAccessPolicy
      policy = policy_from_cli lib bind_ip bind_port allow_origin allow_host

      from_origin :
          (o : Header)
          → headers.origin ≡ o
          → (headers.origin ≡ missing)
            ⊎ ((origin : String) × (headers.origin ≡ text origin)
                × (any
                      (λ value. not (str_eq (lib.trim value) "") && str_eq (lib.trim value) origin)
                      allow_origin
                    ≡ true))
      from_origin missing e = inl e
      from_origin no_text e = absurd (ground (arith, h, e))
      from_origin (text origin) e =
          inr (origin, e, clean_allowlist-any lib origin allow_origin (ground (arith, h, e)))

      from_host :
          (o : Header)
          → headers.host ≡ o
          → (host : String) × (authority : String × Option ℕ) × (headers.host ≡ text host)
            × (lib.authority host ≡ some authority)
            × (IsBoundHost bind_ip bind_port (normalize_authority lib authority)
                ⊎ ((values : List String) × (allow_host ≡ some values)
                    × ((any (names_host lib (normalize_authority lib authority)) values
                          || switches_off lib values)
                        ≡ true)))
      from_host missing e = absurd (ground (arith, h, e))
      from_host no_text e = absurd (ground (arith, h, e))
      from_host (text host) e = elim (Option-cases (lib.authority host)) [
        | inl a ↦ absurd (ground (arith, h, e, a))
        | inr (authority, a) ↦ (
          host,
          authority,
          e,
          a,
          (elim (Bool-cases (host_allowed_by_bind lib policy (normalize_authority lib authority))) [
            | inl bound ↦
                inl (
                  host_allowed_by_bind-IsBoundHost policy (normalize_authority lib authority) bound)
            | inr other ↦ inr (
                hosts_from_cli-contains lib idempotent (normalize_authority lib authority)
                  allow_host (ground (arith, h, e, a, other)))
          ]),
        )
      ]
