-- ===== src/Access/Tests.antt =====
-- A policy and a request, and the theorem about them.
use ida_mcp_rs.Base.{
  ℕ, ◌*◌, ◌+◌, ◌^◌, String, ◌≡◌, ◌⊎◌, refl, true, Option, none, some, List, [], ◌∷◌, not, ◌&&◌,
  ◌||◌, any, str_eq,
}
use ida_mcp_rs.Access.{
  Library, IpAddr, v4, missing, text, HeaderMap, policy_from_cli, validate, validate_origin,
  validate_host, parse_host_header, host_allowed_by_bind, port_matches, normalize_authority,
  normalize_host, clean_allowlist, hosts_from_cli,
}
use ida_mcp_rs.Access.Configured.{names_host, switches_off}
use ida_mcp_rs.Access.Accepted.{IsBoundHost, validate-allowed}

-- For texts without blanks, brackets and capitals, one address and one authority.
abbrev loopback : IpAddr
loopback = v4 (127 * 2 ^ 24 + 1)

abbrev library : Library
library = record {
  trim = λ s. s;
  trim_matches = λ t s. s;
  to_ascii_lowercase = λ s. s;
  parse_ip = λ s. some loopback;
  authority = λ s. some (s, some 8765);
}

abbrev request : HeaderMap
request = record { origin = text "http://localhost"; host = text "127.0.0.1" }

abbrev origins : List String
origins = "http://localhost" ∷ []

validate-allowed_example :
    ((request.origin ≡ missing)
      ⊎ ((origin : String) × (request.origin ≡ text origin)
          × (any (λ value. not (str_eq value "") && str_eq value origin) origins ≡ true)))
    × ((host : String) × (authority : String × Option ℕ) × (request.host ≡ text host)
        × (library.authority host ≡ some authority)
        × (IsBoundHost library loopback 8765 (normalize_authority library authority)
            ⊎ ((values : List String) × (none ≡ some values)
                × ((any (names_host library (normalize_authority library authority)) values
                      || switches_off library values)
                    ≡ true))))
unfolding validate validate_origin validate_host parse_host_header policy_from_cli
    host_allowed_by_bind port_matches normalize_host clean_allowlist hosts_from_cli
validate-allowed_example =
    validate-allowed library (λ s. refl) loopback 8765 origins none request refl
