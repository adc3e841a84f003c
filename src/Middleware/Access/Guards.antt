-- ===== src/Middleware/Access/Guards.antt =====
-- api/internal/middleware/auth.go, scope.go, rbac.go and plan.go: the guards themselves, and their
-- chain on a route of a logbook.
use radioledger.Base.{
  ℕ, zero, Bool, not, ◌&&◌, ◌||◌, Bytes, List, [], Option, none, some, ◌⊎◌, inl, inr, equal,
  if◌then◌else◌, member,
}
use radioledger.Base.Int.{ℤ, pos}
use radioledger.Base.Text.{codes, is_empty, trim_space}
use radioledger.Auth.Rbac.{Permission, Role, parse_role, has_permission}
use radioledger.Middleware.ClientIp.{Net, Request}
use radioledger.Middleware.StreamToken.{
  StreamTokens, StreamError, consume_stream_token, is_positive,
}
use radioledger.Middleware.Access.{
  UserInfo, RoleRow, Database, Verdict, refused, passed, AuthError, ip_not_allowed, invalid_token,
  same_id, is_null, first_row, has_suffix, extract_bearer_token, is_api_key_token,
  authenticate_api_key, begin_tx, set_role, set_user, get_role,
}

-- `UserIDFromContext`: no user, or the id 0, is no id.
abbrev pub nonzero : ℤ → Option ℤ
nonzero (pos zero) = none
nonzero id = some id

unfoldable pub user_id_from_context : Option UserInfo → Option ℤ
user_id_from_context none = none
user_id_from_context (some info) = nonzero info.user_id

-- What a stream token stands for.
abbrev pub stream_user : StreamError ⊎ ℤ → AuthError ⊎ UserInfo
stream_user (inl e) = inl invalid_token
stream_user (inr user_id) = inr (record {
  user_id = user_id;
  user_uuid = [];
  email = [];
  external_id = [];
  api_key_scopes = none;
})

unfoldable pub status_of : AuthError ⊎ UserInfo → Verdict UserInfo
status_of (inl ip_not_allowed) = refused 403
status_of (inl invalid_token) = refused 401
status_of (inr info) = passed info

unfoldable pub require_api_key_scope : Bytes → Option UserInfo → Verdict UserInfo
require_api_key_scope scope none = refused 401
require_api_key_scope scope (some info) = elim info.api_key_scopes [
  | none ↦ passed info
  | some scopes ↦ if member scope scopes then passed info else refused 403
]

-- What CheckLimit of a plan provider returns: nothing, a limit that is reached, or another error.
pub data LimitCheck : Type 0 where
  within_limit : LimitCheck
  limit_reached : LimitCheck
  check_failed : LimitCheck

abbrev limit_verdict : ℤ → LimitCheck → Verdict ℤ
limit_verdict user_id limit_reached = refused 403
limit_verdict user_id within_limit = passed user_id
limit_verdict user_id check_failed = passed user_id

unfoldable pub enforce_plan : (ℤ → LimitCheck) → Option UserInfo → Verdict ℤ
unfolding user_id_from_context
enforce_plan check_limit info = elim (user_id_from_context info) [
  | none ↦ refused 401
  | some user_id ↦ limit_verdict user_id (check_limit user_id)
]

module _ {Addr Prefix : Type 0} (net : Net Addr Prefix) (trusted : List Prefix)
    (hash_api_key : Bytes → Bytes) (validate_token : Bytes → Option UserInfo)
    (parse_uuid : Bytes → Option Bytes) (db : Database Addr) where
  abbrev validated : Option UserInfo → AuthError ⊎ UserInfo
  validated none = inl invalid_token
  validated (some info) = inr info

  unfoldable pub bearer : Request → Bytes → AuthError ⊎ UserInfo
  unfolding is_api_key_token
  bearer r token =
      if is_api_key_token token
      then authenticate_api_key net trusted hash_api_key db r token
      else validated (validate_token token)

  -- The parameter stream_token, or its old name stream_ticket.
  unfoldable pub query_token : Request → Bytes
  query_token r =
      if is_empty (trim_space r.stream_token)
      then trim_space r.stream_ticket
      else trim_space r.stream_token

  -- A request without a bearer token.
  unfoldable pub by_stream_token :
      ℕ → Request → StreamTokens → StreamTokens × (AuthError ⊎ UserInfo)
  by_stream_token now r tokens =
      let (after, user) = consume_stream_token (query_token r) r.path now tokens in
      if not (is_empty (query_token r)) && has_suffix (codes "/stream") r.path
      then (after, stream_user user)
      else (tokens, inl invalid_token)

  unfoldable pub authenticate : ℕ → Request → StreamTokens → StreamTokens × (AuthError ⊎ UserInfo)
  unfolding bearer by_stream_token
  authenticate now r tokens = elim (extract_bearer_token r) [
    | some token ↦ (tokens, bearer r token)
    | none ↦ by_stream_token now r tokens
  ]

  unfoldable pub auth : ℕ → Request → StreamTokens → StreamTokens × Verdict UserInfo
  unfolding authenticate status_of
  auth now r tokens = let (after, result) = authenticate now r tokens in (after, status_of result)

  -- GetUserRoleForLogbook: the role of a user in a logbook that is not deleted.
  unfoldable pub get_user_role_for_logbook : Bytes → ℤ → Option RoleRow
  unfolding first_row same_id
  get_user_role_for_logbook logbook user_id =
      first_row
        (λ row.
          equal row.logbook_uuid logbook
          && (same_id row.role_user_id user_id && is_null row.logbook_deleted_at))
        db.user_roles

  abbrev role_verdict : Permission → Role × Bool → Verdict Role
  role_verdict permission parsed =
      if not parsed.1 || not (has_permission parsed.0 permission)
      then refused 403
      else passed parsed.0

  abbrev row_verdict : Permission → Option RoleRow → Verdict Role
  row_verdict permission none = refused 403
  row_verdict permission (some row) = role_verdict permission (parse_role row.role)

  abbrev in_transaction : Permission → ℤ → Bytes → Verdict Role
  in_transaction permission user_id logbook =
      if db.fails begin_tx
      then refused 503
      else if db.fails set_role
      then refused 500
      else if db.fails set_user
      then refused 500
      else if db.fails get_role
      then refused 500
      else row_verdict permission (get_user_role_for_logbook logbook user_id)

  abbrev on_logbook : Permission → ℤ → Option Bytes → Verdict Role
  on_logbook permission user_id none = refused 400
  on_logbook permission user_id (some logbook) = in_transaction permission user_id logbook

  abbrev by_user : Permission → Request → Option ℤ → Verdict Role
  by_user permission r none = refused 401
  by_user permission r (some user_id) =
      if is_positive user_id
      then on_logbook permission user_id (parse_uuid r.logbook_uuid)
      else refused 401

  unfoldable pub require_logbook_permission : Permission → Request → Option UserInfo → Verdict Role
  unfolding user_id_from_context get_user_role_for_logbook is_positive
  require_logbook_permission permission r info =
      if db.available then by_user permission r (user_id_from_context info) else refused 503

  abbrev pub with_role : UserInfo → Verdict Role → Verdict (UserInfo × Role)
  with_role info (refused status) = refused status
  with_role info (passed role) = passed (info, role)

  abbrev pub on_scope : Permission → Request → Verdict UserInfo → Verdict (UserInfo × Role)
  on_scope permission r (refused status) = refused status
  on_scope permission r (passed info) =
      with_role info (require_logbook_permission permission r (some info))

  abbrev pub on_auth : Bytes → Permission → Request → Verdict UserInfo → Verdict (UserInfo × Role)
  on_auth scope permission r (refused status) = refused status
  on_auth scope permission r (passed info) =
      on_scope permission r (require_api_key_scope scope (some info))

  -- The guards of a route of a logbook, such as those of the contacts.
  unfoldable pub logbook_route :
      Bytes → Permission → ℕ → Request → StreamTokens → StreamTokens × Verdict (UserInfo × Role)
  unfolding require_api_key_scope auth require_logbook_permission
  logbook_route scope permission now r tokens =
      let (after, user) = auth now r tokens in (after, on_auth scope permission r user)
