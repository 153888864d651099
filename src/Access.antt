-- ===== src/Access.antt =====
-- src/server/http_access.rs: the checks of the `Origin` and `Host` headers. The functions of `str`, of
-- `IpAddr` and of the `http` package that it uses are arguments.
pub mod Configured
pub mod Accepted
mod Tests
use Prim.Native.String.{◌++◌}
use ida_mcp_rs.Base.{
  ℕ, ◌/◌, ◌^◌, String, Bool, true, false, not, ◌&&◌, ◌||◌, Option, none, some, List, [], ◌∷◌, any,
  if◌then◌else◌, ◌==◌, str_eq,
}

-- An address, as the number that its bytes make.
pub data IpAddr : Type 0 where
  v4 : ℕ → IpAddr
  v6 : ℕ → IpAddr

abbrev pub is_loopback : IpAddr → Bool
is_loopback (v4 n) = n / 2 ^ 24 == 127
is_loopback (v6 n) = n == 1

abbrev pub is_unspecified : IpAddr → Bool
is_unspecified (v4 n) = n == 0
is_unspecified (v6 n) = n == 0

abbrev pub ip_eq : IpAddr → IpAddr → Bool
ip_eq (v4 n) (v4 m) = n == m
ip_eq (v4 n) (v6 m) = false
ip_eq (v6 n) (v4 m) = false
ip_eq (v6 n) (v6 m) = n == m

pub record NormalizedAuthority : Type 0 where
  pub host : String
  pub port : Option ℕ

-- `trim`, `trim_matches` and `to_ascii_lowercase` of `str`, the parser of `IpAddr`, and the host and
-- the port of `http::uri::Authority`.
pub record Library : Type 0 where
  pub trim : String → String
  pub trim_matches : String → String → String
  pub to_ascii_lowercase : String → String
  pub parse_ip : String → Option IpAddr
  pub authority : String → Option (String × Option ℕ)

-- A header that is missing, is no text, or is a text.
pub data Header : Type 0 where
  missing : Header
  no_text : Header
  text : String → Header

pub record HeaderMap : Type 0 where
  pub origin : Header
  pub host : Header

pub data HostAllowList : Type 0 where
  any_host : HostAllowList
  restricted : List NormalizedAuthority → HostAllowList

pub record HttpAccessPolicy : Type 0 where
  pub bind_ip : IpAddr
  pub bind_port : ℕ
  pub allowed_origins : List String
  pub allowed_hosts : HostAllowList

-- The status and the kind of message of a refusal.
pub data AccessError : Type 0 where
  invalid_origin : AccessError
  origin_forbidden : AccessError
  missing_host : AccessError
  invalid_host : AccessError
  host_forbidden : NormalizedAuthority → AccessError

pub data Access : Type 0 where
  allowed : Access
  refused : AccessError → Access

-- `HttpAccessPolicy::host_check_disabled`
abbrev pub is_any : HostAllowList → Bool
is_any any_host = true
is_any (restricted hosts) = false

abbrev pub has_port : Option ℕ → ℕ → Bool
has_port none port = false
has_port (some p) port = p == port

unfoldable pub port_matches : Option ℕ → ℕ → Bool
port_matches none bind_port = true
port_matches (some port) bind_port = port == bind_port

abbrev pub allowed_port : Option ℕ → Option ℕ → Bool
allowed_port none port = true
allowed_port (some wanted) port = has_port port wanted

abbrev pub is_allowed_by : NormalizedAuthority → NormalizedAuthority → Bool
is_allowed_by host entry = str_eq entry.host host.host && allowed_port entry.port host.port

-- HostAllowList::contains
unfoldable pub allow_list_contains : HostAllowList → NormalizedAuthority → Bool
allow_list_contains any_host host = true
allow_list_contains (restricted hosts) host = any (is_allowed_by host) hosts

module _ (lib : Library) where
  unfoldable pub normalize_host : String → String
  normalize_host host = lib.to_ascii_lowercase (lib.trim_matches "]" (lib.trim_matches "[" host))

  abbrev pub normalize_authority : String × Option ℕ → NormalizedAuthority
  normalize_authority (host, port) = record { host = normalize_host host; port = port }

  unfoldable pub clean_allowlist : List String → List String
  clean_allowlist [] = []
  clean_allowlist (value ∷ values) =
      let rest = clean_allowlist values in
      if str_eq (lib.trim value) "" then rest else lib.trim value ∷ rest

  unfoldable pub parse_allowed_authority : String → Option NormalizedAuthority
  parse_allowed_authority value =
      if str_eq (lib.trim value) "" then none else (elim (lib.authority (lib.trim value)) [
        | some authority ↦ some (normalize_authority authority)
        | none ↦ some (record { host = normalize_host (lib.trim value); port = none })
      ])

  abbrev pub push_host :
      Option NormalizedAuthority → List NormalizedAuthority → List NormalizedAuthority
  push_host none hosts = hosts
  push_host (some host) hosts = host ∷ hosts

  -- The loop of `HostAllowList::from_cli`: the hosts of the values, unless one of them allows any.
  unfoldable pub collect_hosts : List String → Option (List NormalizedAuthority)
  unfolding parse_allowed_authority
  collect_hosts [] = some []
  collect_hosts (value ∷ values) =
      let rest = collect_hosts values in
      if str_eq (lib.trim value) "*"
      then none
      else if str_eq (lib.trim value) ""
      then rest
      else (elim rest [
        | none ↦ none
        | some hosts ↦ some (push_host (parse_allowed_authority (lib.trim value)) hosts)
      ])

  abbrev pub restrict_to : Option (List NormalizedAuthority) → HostAllowList
  restrict_to none = any_host
  restrict_to (some []) = any_host
  restrict_to (some (host ∷ hosts)) = restricted (host ∷ hosts)

  -- HostAllowList::from_cli
  unfoldable pub hosts_from_cli : Option (List String) → HostAllowList
  unfolding collect_hosts
  hosts_from_cli none = restricted []
  hosts_from_cli (some values) = restrict_to (collect_hosts values)

  -- HttpAccessPolicy::from_cli
  unfoldable pub policy_from_cli :
      IpAddr → ℕ → List String → Option (List String) → HttpAccessPolicy
  unfolding clean_allowlist hosts_from_cli
  policy_from_cli bind_ip bind_port allow_origin allow_host = record {
    bind_ip = bind_ip;
    bind_port = bind_port;
    allowed_origins = clean_allowlist allow_origin;
    allowed_hosts = hosts_from_cli allow_host;
  }

  unfoldable pub validate_origin : HttpAccessPolicy → HeaderMap → Access
  validate_origin policy headers = elim headers.origin [
    | missing ↦ allowed
    | no_text ↦ refused invalid_origin
    | text origin ↦
        if any (λ o. str_eq o origin) policy.allowed_origins
        then allowed
        else refused origin_forbidden
  ]

  -- The host, or the error.
  unfoldable pub parse_host_header : HeaderMap → Option NormalizedAuthority × Access
  parse_host_header headers = elim headers.host [
    | missing ↦ (none, refused missing_host)
    | no_text ↦ (none, refused invalid_host)
    | text host ↦ (elim (lib.authority host) [
      | none ↦ (none, refused invalid_host)
      | some authority ↦ (some (normalize_authority authority), allowed)
    ])
  ]

  unfoldable pub host_allowed_by_bind : HttpAccessPolicy → NormalizedAuthority → Bool
  unfolding port_matches
  host_allowed_by_bind policy host =
      if not (port_matches host.port policy.bind_port)
      then false
      else if str_eq host.host "localhost"
      then is_loopback policy.bind_ip || is_unspecified policy.bind_ip
      else (elim (lib.parse_ip host.host) [
        | none ↦ false
        | some host_ip ↦
            if is_unspecified policy.bind_ip
            then true
            else if is_loopback policy.bind_ip
            then is_loopback host_ip
            else ip_eq host_ip policy.bind_ip
      ])

  unfoldable pub validate_host : HttpAccessPolicy → HeaderMap → Access
  unfolding parse_host_header host_allowed_by_bind allow_list_contains
  validate_host policy headers =
      let (parsed, failure) = parse_host_header headers in
      elim parsed [
        | none ↦ failure
        | some host ↦
            if is_any policy.allowed_hosts
            then allowed
            else if host_allowed_by_bind policy host
                || allow_list_contains policy.allowed_hosts host
            then allowed
            else refused (host_forbidden host)
      ]

  unfoldable pub validate : HttpAccessPolicy → HeaderMap → Access
  unfolding validate_origin validate_host
  validate policy headers = elim (validate_origin policy headers) [
    | refused e ↦ refused e
    | allowed ↦ validate_host policy headers
  ]
