-- ===== src/Middleware/Access/Known.antt =====
-- api/internal/middleware/auth.go, and the routes of a logbook: where the user of a request comes from.
use mathlib.Core.List.{Memᴰ}
use radioledger.Base.{
  ℕ, ◌≡◌, ap, sym, true, false, not, ◌&&◌, Bytes, List, [], Option, none, some, ◌⊎◌, inl, inr,
  equal, equal_iff, arith, Bool-cases, Option-cases,
}
use radioledger.Base.Int.{ℤ}
use radioledger.Base.Text.{codes, is_empty}
use radioledger.Middleware.ClientIp.{Net, Request}
use radioledger.Middleware.StreamToken.{StreamTokens, consume_stream_token, StreamError}
use radioledger.Middleware.Access.{
  UserInfo, ApiKey, UserRow, Database, passed, AuthError, ip_not_allowed, invalid_token, same_id,
  is_null, is_ahead, ip_allowed, get_api_key_by_hash, user_of, authenticate_api_key,
  extract_bearer_token, has_suffix, is_api_key_token,
}
use radioledger.Middleware.Access.Guards.{
  stream_user, auth, authenticate, bearer, by_stream_token, query_token, status_of,
}
use radioledger.Middleware.Access.Laws.{first_row-member, same_id-only, is_null-only}

stream_user-only :
    (x : StreamError ⊎ ℤ) {info : UserInfo}
    → stream_user x ≡ inr info
    → (x ≡ inr info.user_id) × (info.api_key_scopes ≡ none)
stream_user-only (inl e) h = ground arith
stream_user-only (inr id) {info} h =
    let filled : record {
      user_id = id;
      user_uuid = [];
      email = [];
      external_id = [];
      api_key_scopes = none;
    }
        ≡ info =
      ground arith in
    (
      ap (λ (i : UserInfo). inr i.user_id) filled,
      sym (ap (λ (i : UserInfo). i.api_key_scopes) filled),
    )

status_of-only :
    (x : AuthError ⊎ UserInfo) {info : UserInfo} → status_of x ≡ passed info → x ≡ inr info
unfolding status_of
status_of-only (inl ip_not_allowed) h = ground arith
status_of-only (inl invalid_token) h = ground arith
status_of-only (inr i) h = ground arith

module _ {Addr Prefix : Type 0} (net : Net Addr Prefix) (trusted : List Prefix)
    (hash_api_key : Bytes → Bytes) (validate_token : Bytes → Option UserInfo)
    (parse_uuid : Bytes → Option Bytes) (db : Database Addr) where
  -- The key is stored under the hash of the token, is in force, allows the address of the request,
  -- and belongs to a user that is not deleted; the request has its user and its scopes.
  abbrev pub IsKeyOf : Request → Bytes → UserInfo → Type 0
  IsKeyOf r token info =
      (k : ApiKey Addr) × (u : UserRow) × Memᴰ k db.api_keys
      × Memᴰ u db.users
      × (k.key_hash ≡ hash_api_key token)
      × (k.revoked_at ≡ none)
      × (is_ahead db.now k.expires_at ≡ true)
      × (ip_allowed net trusted hash_api_key db r k.allowed_ips ≡ true)
      × (u.id ≡ k.key_user_id)
      × (u.deleted_at ≡ none)
      × (info.user_id ≡ k.key_user_id)
      × (info.api_key_scopes ≡ some k.scopes)

  -- Who a request is from: the holder of an API key, whom the authenticator says, or who was sent a
  -- stream token for this path.
  pub data IsFrom (now : ℕ) (r : Request) (tokens : StreamTokens) (info : UserInfo) : Type 0 where
    api_key :
        (token : Bytes)
        → extract_bearer_token r ≡ some token
        → is_api_key_token token ≡ true
        → IsKeyOf r token info
        → IsFrom now r tokens info
    authenticated :
        (token : Bytes)
        → extract_bearer_token r ≡ some token
        → is_api_key_token token ≡ false
        → validate_token token ≡ some info
        → IsFrom now r tokens info
    streaming :
        extract_bearer_token r ≡ none
        → has_suffix (codes "/stream") r.path ≡ true
        → (consume_stream_token
            (query_token net trusted hash_api_key validate_token parse_uuid db r)
            r.path
            now
            tokens).1
          ≡ inr info.user_id
        → info.api_key_scopes ≡ none
        → IsFrom now r tokens info

  get_api_key_by_hash-row :
      (hash : Bytes) {k : ApiKey Addr}
      → get_api_key_by_hash net trusted hash_api_key db hash ≡ some k
      → Memᴰ k db.api_keys
        × ((equal k.key_hash hash && (is_null k.revoked_at && is_ahead db.now k.expires_at)) ≡ true)
  unfolding get_api_key_by_hash
  get_api_key_by_hash-row hash h =
      first_row-member
        (λ k. equal k.key_hash hash && (is_null k.revoked_at && is_ahead db.now k.expires_at))
        db.api_keys (ground arith)

  user_of-row :
      (id : ℤ) {u : UserRow}
      → user_of net trusted hash_api_key db id ≡ some u
      → Memᴰ u db.users × ((same_id u.id id && is_null u.deleted_at) ≡ true)
  unfolding user_of
  user_of-row id h =
      first_row-member (λ u. same_id u.id id && is_null u.deleted_at) db.users (ground arith)

  authenticate_api_key-info :
      (r : Request) (token : Bytes) {info : UserInfo} {k : ApiKey Addr} {u : UserRow}
      → get_api_key_by_hash net trusted hash_api_key db (hash_api_key token) ≡ some k
      → user_of net trusted hash_api_key db k.key_user_id ≡ some u
      → authenticate_api_key net trusted hash_api_key db r token ≡ inr info
      → info ≡ record {
        user_id = k.key_user_id;
        user_uuid = u.uuid;
        email = u.email;
        external_id = [];
        api_key_scopes = some k.scopes;
      }
  unfolding authenticate_api_key
  authenticate_api_key-info r token found user h = ground (arith, found, user)

  authenticate_api_key-IsKeyOf :
      (r : Request) (token : Bytes) {info : UserInfo}
      → authenticate_api_key net trusted hash_api_key db r token ≡ inr info
      → IsKeyOf r token info
  unfolding authenticate_api_key
  authenticate_api_key-IsKeyOf r token {info} h =
      elim (Option-cases (get_api_key_by_hash net trusted hash_api_key db (hash_api_key token))) [
        | inl missing ↦ absurd (ground (arith, missing))
        | inr (k, found) ↦ elim (Option-cases (user_of net trusted hash_api_key db k.key_user_id)) [
          | inl nobody ↦ absurd (ground (arith, found, nobody))
          | inr (u, user) ↦
              let filled = authenticate_api_key-info r token found user h in
              let (m, t) = get_api_key_by_hash-row (hash_api_key token) found in
              let (n, v) = user_of-row k.key_user_id user in
              (
                k,
                u,
                m,
                n,
                (equal_iff k.key_hash (hash_api_key token)).0 (ground (arith, t)),
                is_null-only k.revoked_at (ground (arith, t)),
                ground (arith, t),
                ground (arith, found, user),
                same_id-only u.id k.key_user_id (ground (arith, v)),
                is_null-only u.deleted_at (ground (arith, v)),
                ap (λ (i : UserInfo). i.user_id) filled,
                ap (λ (i : UserInfo). i.api_key_scopes) filled,
              )
        ]
      ]

  bearer-IsFrom :
      (now : ℕ) (r : Request) (tokens : StreamTokens) (token : Bytes) {info : UserInfo}
      → extract_bearer_token r ≡ some token
      → bearer net trusted hash_api_key validate_token parse_uuid db r token ≡ inr info
      → IsFrom now r tokens info
  unfolding bearer
  bearer-IsFrom now r tokens token {info} e h = elim (Bool-cases (is_api_key_token token)) [
    | inl key ↦
        api_key token e key
          (authenticate_api_key-IsKeyOf r token {info = info} (ground (arith, key)))
    | inr other ↦ authenticated token e other (ground (arith, other))
  ]

  by_stream_token-IsFrom :
      (now : ℕ) (r : Request) (tokens : StreamTokens) {info : UserInfo}
      → extract_bearer_token r ≡ none
      → (by_stream_token net trusted hash_api_key validate_token parse_uuid db now r tokens).1
        ≡ inr info
      → IsFrom now r tokens info
  unfolding by_stream_token
  by_stream_token-IsFrom now r tokens e h =
      elim (Bool-cases (
        not (is_empty (query_token net trusted hash_api_key validate_token parse_uuid db r))
        && has_suffix (codes "/stream") r.path)) [
          | inl open_stream ↦
              let (sent, unscoped) = stream_user-only _ (rw open_stream at h) in
              streaming e (ground (arith, open_stream)) sent unscoped
          | inr shut ↦ absurd (ground (arith, shut))
        ]

  pub auth-IsFrom :
      (now : ℕ) (r : Request) (tokens : StreamTokens) {info : UserInfo}
      → (auth net trusted hash_api_key validate_token parse_uuid db now r tokens).1 ≡ passed info
      → IsFrom now r tokens info
  unfolding auth authenticate status_of
  auth-IsFrom now r tokens {info} h =
      let only =
        status_of-only
          (authenticate net trusted hash_api_key validate_token parse_uuid db now r tokens).1 h in
      elim (Option-cases (extract_bearer_token r)) [
        | inl nothing ↦
            by_stream_token-IsFrom now r tokens nothing (rw (nothing, authenticate) at only)
        | inr (token, there) ↦
            bearer-IsFrom now r tokens token there (rw (there, authenticate) at only)
      ]
