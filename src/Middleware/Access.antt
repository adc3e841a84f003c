-- ===== src/Middleware/Access.antt =====
-- api/internal/middleware: who may reach a handler. Auth of auth.go, RequireAPIKeyScope of scope.go,
-- RequireLogbookPermission of rbac.go and EnforcePlan of plan.go, one behind the other as the routes
-- of api/internal/router/router.go put them. The configured authenticator, the hash of an API key,
-- the parser of UUIDs and the plan provider are functions; the tables are lists of rows, and a
-- statement fails where `fails` says so. The update of last_used_at, which runs on its own and
-- changes nothing that the guards read, is left out.
pub mod Guards
pub mod Laws
pub mod Known
pub mod Route
use mathlib.Core.Option
use radioledger.Base.{
  ℕ, zero, suc, Bool, true, false, not, ◌&&◌, ◌||◌, Bytes, List, [], ◌∷◌, Option, none, some, ◌⊎◌,
  inl, inr, equal, ltb, if◌then◌else◌, any, member, ◌==◌,
}
use radioledger.Base.Int.{ℤ, pos, negsuc}
use radioledger.Base.Text.{codes, is_empty, trim_space}
use radioledger.Auth.Rbac.{Permission, Role, parse_role, has_permission}
use radioledger.Middleware.ClientIp.{Net, Request, client_ip}
use radioledger.Middleware.StreamToken.{StreamTokens, consume_stream_token, is_positive}

-- `auth.UserInfo`; no scopes at all stand for a request that no API key authenticated.
pub record UserInfo : Type 0 where
  pub user_id : ℤ
  pub user_uuid : Bytes
  pub email : Bytes
  pub external_id : Bytes
  pub api_key_scopes : Option (List Bytes)

-- The columns of api_keys, users, and the join of user_roles and logbooks that the guards read.
pub record ApiKey (Addr : Type 0) : Type 0 where
  pub key_hash : Bytes
  pub key_user_id : ℤ
  pub scopes : List Bytes
  pub allowed_ips : List Addr
  pub expires_at : Option ℕ
  pub revoked_at : Option ℕ

pub record UserRow : Type 0 where
  pub id : ℤ
  pub uuid : Bytes
  pub email : Bytes
  pub deleted_at : Option ℕ

pub record RoleRow : Type 0 where
  pub logbook_uuid : Bytes
  pub role_user_id : ℤ
  pub role : Bytes
  pub logbook_deleted_at : Option ℕ

pub data Query : Type 0 where
  get_api_key : Query
  get_user : Query
  begin_tx : Query
  set_role : Query
  set_user : Query
  get_role : Query

-- The database; it is not available where the server has no pool.
pub record Database (Addr : Type 0) : Type 0 where
  pub available : Bool
  pub api_keys : List (ApiKey Addr)
  pub users : List UserRow
  pub user_roles : List RoleRow
  pub now : ℕ
  pub fails : Query → Bool

-- What a guard does: it answers with a status, or hands on.
pub data Verdict (A : Type 0) : Type 0 where
  refused : ℕ → Verdict A
  passed : A → Verdict A

pub data AuthError : Type 0 where
  ip_not_allowed : AuthError
  invalid_token : AuthError

unfoldable pub same_id : ℤ → ℤ → Bool
same_id (pos m) (pos n) = m == n
same_id (negsuc m) (negsuc n) = m == n
same_id _ _ = false

abbrev pub is_null : Option ℕ → Bool
is_null none = true
is_null (some t) = false

abbrev pub is_ahead : ℕ → Option ℕ → Bool
is_ahead now none = true
is_ahead now (some t) = ltb now t

-- The first row that passes the test, of a query for one row.
unfoldable pub first_row {ℓ} : {A : Type ℓ} → (A → Bool) → List A → Option A
first_row p [] = none
first_row p (x ∷ xs) = elim (p x) [ true ↦ some x | false ↦ first_row p xs ]

-- `strings.HasPrefix` and `strings.HasSuffix`.
unfoldable pub has_prefix : Bytes → Bytes → Bool
has_prefix [] s = true
has_prefix (c ∷ prefix) [] = false
has_prefix (c ∷ prefix) (d ∷ s) = c == d && has_prefix prefix s

unfoldable pub has_suffix : Bytes → Bytes → Bool
has_suffix suffix [] = is_empty suffix
has_suffix suffix (c ∷ s) = equal suffix (c ∷ s) || has_suffix suffix s

unfoldable pub after_prefix : Bytes → Bytes → Option Bytes
after_prefix [] s = some s
after_prefix (c ∷ prefix) [] = none
after_prefix (c ∷ prefix) (d ∷ s) =
    let rest = after_prefix prefix s in if c == d then rest else none

-- `extractBearerToken`.
abbrev token_or_none : Option Bytes → Option Bytes
token_or_none none = none
token_or_none (some s) = if is_empty (trim_space s) then none else some (trim_space s)

unfoldable pub extract_bearer_token : Request → Option Bytes
unfolding after_prefix
extract_bearer_token r = token_or_none (after_prefix (codes "Bearer ") (trim_space r.authorization))

unfoldable pub is_api_key_token : Bytes → Bool
unfolding has_prefix
is_api_key_token token = has_prefix (codes "rl_") token

module _ {Addr Prefix : Type 0} (net : Net Addr Prefix) (trusted : List Prefix)
    (hash_api_key : Bytes → Bytes) (db : Database Addr) where
  -- GetAPIKeyByHash: of a key that is neither revoked nor expired.
  unfoldable pub get_api_key_by_hash : Bytes → Option (ApiKey Addr)
  unfolding first_row
  get_api_key_by_hash hash =
      if db.fails get_api_key
      then none
      else first_row
          (λ k. equal k.key_hash hash && (is_null k.revoked_at && is_ahead db.now k.expires_at))
          db.api_keys

  -- The user of an id, if it is not deleted.
  unfoldable pub user_of : ℤ → Option UserRow
  unfolding first_row same_id
  user_of user_id =
      if db.fails get_user
      then none
      else first_row (λ u. same_id u.id user_id && is_null u.deleted_at) db.users

  abbrev listed : Option Addr → List Addr → Bool
  listed none addrs = false
  listed (some addr) addrs = any (net.same_addr addr) addrs

  -- An empty list allows every address.
  unfoldable pub ip_allowed : Request → List Addr → Bool
  ip_allowed r [] = true
  ip_allowed r (a ∷ addrs) = listed (net.parse_addr (client_ip net trusted r)) (a ∷ addrs)

  abbrev key_info : ApiKey Addr → Option UserRow → AuthError ⊎ UserInfo
  key_info k none = inl invalid_token
  key_info k (some u) = inr (record {
    user_id = k.key_user_id;
    user_uuid = u.uuid;
    email = u.email;
    external_id = [];
    api_key_scopes = some k.scopes;
  })

  abbrev with_key : Request → Option (ApiKey Addr) → AuthError ⊎ UserInfo
  with_key r none = inl invalid_token
  with_key r (some k) =
      if not (ip_allowed r k.allowed_ips)
      then inl ip_not_allowed
      else key_info k (user_of k.key_user_id)

  unfoldable pub authenticate_api_key : Request → Bytes → AuthError ⊎ UserInfo
  unfolding get_api_key_by_hash user_of ip_allowed
  authenticate_api_key r token =
      if not db.available
      then inl invalid_token
      else with_key r (get_api_key_by_hash (hash_api_key token))
