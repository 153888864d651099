-- ===== src/Database/CloseToken.antt =====
-- The close tokens of src/ida/worker.rs: `CloseTokenState`. The token that a first grant generates
-- is an argument.
use ida_mcp_rs.Base.{String, Bool, true, false, ◌||◌, Option, none, some, if◌then◌else◌, str_eq}

pub record CloseTokenLease : Type 0 where
  pub token : String
  pub owner_session_id : String

pub record CloseTokenGrant : Type 0 where
  pub token : String
  pub reused : Bool
  pub owner_session_id : String

pub data CloseAuthorization : Type 0 where
  granted : CloseAuthorization
  granted_by_override : String → CloseAuthorization
  denied : String → CloseAuthorization

-- A grant, or the session that owns the database.
pub data Issue : Type 0 where
  issued : CloseTokenGrant → Issue
  owned_by : String → Issue

unfoldable pub issue_for_session :
    String → String → Option CloseTokenLease → Option CloseTokenLease × Issue
issue_for_session session_id new_token none = (
  some (record { token = new_token; owner_session_id = session_id }),
  issued (record { token = new_token; reused = false; owner_session_id = session_id }),
)
issue_for_session session_id new_token (some lease) = (
  some lease,
  if str_eq lease.owner_session_id session_id
      then issued
          (record { token = lease.token; reused = true; owner_session_id = lease.owner_session_id })
      else owned_by lease.owner_session_id,
)

abbrev pub is_token : Option String → String → Bool
is_token none token = false
is_token (some t) token = str_eq t token

unfoldable pub authorize_close :
    String → Option String → Bool → Option CloseTokenLease → CloseAuthorization
authorize_close session_id token force none = granted
authorize_close session_id token force (some lease) =
    if is_token token lease.token || str_eq lease.owner_session_id session_id
    then granted
    else if force
    then granted_by_override lease.owner_session_id
    else denied lease.owner_session_id
