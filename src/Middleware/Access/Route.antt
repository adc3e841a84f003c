-- ===== src/Middleware/Access/Route.antt =====
-- The routes of a logbook in api/internal/router/router.go: the guards of api/internal/middleware,
-- one behind the other.
use mathlib.Core.Path.{subst}
use radioledger.Base.{
  ℕ, ◌≡◌, refl, ap, sym, ◌∙◌, true, Bytes, List, Option, some, ◌⊎◌, inl, inr, arith,
}
use radioledger.Auth.Rbac.{Permission, Role}
use radioledger.Middleware.ClientIp.{Net, Request}
use radioledger.Middleware.StreamToken.{StreamTokens, is_positive}
use radioledger.Middleware.Access.{UserInfo, Database, Verdict, refused, passed}
use radioledger.Middleware.Access.Guards.{
  on_auth, require_api_key_scope, require_logbook_permission, logbook_route, auth,
}
use radioledger.Middleware.Access.Known.{IsFrom, auth-IsFrom}
use radioledger.Middleware.Access.Laws.{
  HasScope, MayUse, require_api_key_scope-HasScope, require_logbook_permission-MayUse,
}

Verdict-cases :
    {A : Type 0} (v : Verdict A) → ((n : ℕ) × (v ≡ refused n)) ⊎ ((a : A) × (v ≡ passed a))
Verdict-cases (refused n) = inl (n, refl)
Verdict-cases (passed a) = inr (a, refl)

module _ {Addr Prefix : Type 0} (net : Net Addr Prefix) (trusted : List Prefix)
    (hash_api_key : Bytes → Bytes) (validate_token : Bytes → Option UserInfo)
    (parse_uuid : Bytes → Option Bytes) (db : Database Addr) where
  on_auth-only :
      (scope : Bytes) (permission : Permission) (r : Request) (v : Verdict UserInfo)
      {info : UserInfo} {role : Role}
      → on_auth net trusted hash_api_key validate_token parse_uuid db scope permission r v
        ≡ passed (info, role)
      → (v ≡ passed info)
        × HasScope scope info.api_key_scopes
        × (require_logbook_permission net trusted hash_api_key validate_token parse_uuid db
              permission r
              (some info)
            ≡ passed role)
  on_auth-only scope permission r (refused status) h = ground arith
  on_auth-only scope permission r (passed user) {info} {role} h =
      elim (Verdict-cases (require_api_key_scope scope (some user))) [
        | inl (n, out) ↦ absurd (ground (arith, rw out at h))
        | inr (same, on) ↦
            elim (Verdict-cases (
              require_logbook_permission net trusted hash_api_key validate_token parse_uuid db
                permission r (some same))) [
                  | inl (n, out) ↦ absurd (ground (arith, rw (on, out) at h))
                  | inr (found, out) ↦
                      let shown : ◌≡◌ {A = Verdict (UserInfo × Role)} (passed (same, found))
                          (passed (info, role)) =
                        rw (on, out) at h in
                      let same_user : same ≡ info = ground (arith, shown) in
                      let same_role : found ≡ role = ground (arith, shown) in
                      let (is_user, scoped) = require_api_key_scope-HasScope scope user on in
                      let user_info = sym is_user ∙ same_user in
                      (
                        ap passed user_info,
                        subst (λ (i : UserInfo). HasScope scope i.api_key_scopes) user_info scoped,
                        rw (sym same_user) (out ∙ ap passed same_role),
                      )
                ]
      ]

  -- What the guards of a route of a logbook hand on is authorised. The request is from its user: by
  -- an API key that is in force and allows the address, by the authenticator, or by a stream token.
  -- An API key has the scope of the route. The user's id is positive, the user has a role in the
  -- logbook that the request names, which is not deleted, and the role has the permission.
  pub logbook_route-IsAuthorised :
      (scope : Bytes) (permission : Permission) (now : ℕ) (r : Request) (tokens : StreamTokens)
      {info : UserInfo} {role : Role}
      → (logbook_route net trusted hash_api_key validate_token parse_uuid db scope permission now r
          tokens).1
        ≡ passed (info, role)
      → IsFrom net trusted hash_api_key validate_token parse_uuid db now r tokens info
        × HasScope scope info.api_key_scopes
        × (is_positive info.user_id ≡ true)
        × MayUse net trusted hash_api_key validate_token parse_uuid db permission r info.user_id
            role
  unfolding logbook_route
  logbook_route-IsAuthorised scope permission now r tokens {info} {role} h =
      let (known, scoped, granted) =
        on_auth-only scope permission r
          (auth net trusted hash_api_key validate_token parse_uuid db now r tokens).1 h in
      let (may, positive) =
        require_logbook_permission-MayUse net trusted hash_api_key validate_token parse_uuid db
          permission r info granted in
      (
        auth-IsFrom net trusted hash_api_key validate_token parse_uuid db now r tokens known,
        scoped,
        positive,
        may,
      )
