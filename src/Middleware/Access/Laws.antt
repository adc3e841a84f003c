-- ===== src/Middleware/Access/Laws.antt =====
-- api/internal/middleware: what is known of a request that the guards have handed on.
use mathlib.Core.List.{Memᴰ}
use radioledger.Base.{
  zero, suc, ℕ, ◌≡◌, refl, ap, sym, ◌∙◌, Bool, true, Bytes, List, [], ◌∷◌, Option, none, some, inl,
  inr, equal_iff, member, arith, Bool-cases, Option-cases,
}
use radioledger.Base.Int.{ℤ, pos, negsuc}
use radioledger.Auth.Rbac.{Permission, Role, parse_role, has_permission}
use radioledger.Middleware.ClientIp.{Net, Request}
use radioledger.Middleware.StreamToken.{is_positive}
use radioledger.Middleware.Access.{UserInfo, RoleRow, Database, passed, same_id, is_null, first_row}
use radioledger.Middleware.Access.Guards.{
  nonzero, require_api_key_scope, require_logbook_permission, user_id_from_context,
  get_user_role_for_logbook,
}

-- The row that a query for one row returns is a row of the table and passes the test.
pub first_row-member :
    {A : Type 0} (p : A → Bool) (xs : List A) {x : A}
    → first_row p xs ≡ some x
    → Memᴰ x xs × (p x ≡ true)
unfolding first_row
first_row-member p [] h = ground arith
first_row-member p (y ∷ xs) {x} h = elim (Bool-cases (p y)) [
  | inl here ↦ let same : y ≡ x = ground arith in (Memᴰ.head (sym same), ap p (sym same) ∙ here)
  | inr later ↦ let (m, t) = first_row-member p xs (rw (later, first_row) at h) in (Memᴰ.tail m, t)
]

pub same_id-only : (i j : ℤ) → same_id i j ≡ true → i ≡ j
unfolding same_id
same_id-only (pos m) (pos n) h = ground arith
same_id-only (negsuc m) (negsuc n) h = ground arith
same_id-only (pos m) (negsuc n) h = ground arith
same_id-only (negsuc m) (pos n) h = ground arith

pub is_null-only : (o : Option ℕ) → is_null o ≡ true → o ≡ none
is_null-only none h = refl
is_null-only (some t) h = ground arith

nonzero-only : (i : ℤ) {id : ℤ} → nonzero i ≡ some id → i ≡ id
nonzero-only (pos zero) h = ground arith
nonzero-only (pos (suc n)) h = ground arith
nonzero-only (negsuc n) h = ground arith

nonzero_only :
    (info : UserInfo) {id : ℤ} → user_id_from_context (some info) ≡ some id → info.user_id ≡ id
unfolding user_id_from_context
nonzero_only info h = nonzero-only info.user_id h

-- The scope of a route is among those of the API key, if an API key authenticated the request.
abbrev pub HasScope : Bytes → Option (List Bytes) → Type 0
HasScope scope none = Unit
HasScope scope (some scopes) = member scope scopes ≡ true

pub require_api_key_scope-HasScope :
    (scope : Bytes) (info : UserInfo) {out : UserInfo}
    → require_api_key_scope scope (some info) ≡ passed out
    → (out ≡ info) × HasScope scope info.api_key_scopes
unfolding require_api_key_scope
require_api_key_scope-HasScope scope info h = elim (Option-cases info.api_key_scopes) [
  | inl none_there ↦ (ground (arith, rw none_there at h), rw none_there tt)
  | inr (scopes, there) ↦ (ground (arith, rw there at h), rw there (ground (arith, rw there at h)))
]

module _ {Addr Prefix : Type 0} (net : Net Addr Prefix) (trusted : List Prefix)
    (hash_api_key : Bytes → Bytes) (validate_token : Bytes → Option UserInfo)
    (parse_uuid : Bytes → Option Bytes) (db : Database Addr) where
  -- The user has a role in the logbook that the request names, and the role has the permission.
  abbrev pub MayUse : Permission → Request → ℤ → Role → Type 0
  MayUse permission r user_id role =
      (row : RoleRow) × Memᴰ row db.user_roles
      × (parse_uuid r.logbook_uuid ≡ some row.logbook_uuid)
      × (row.role_user_id ≡ user_id)
      × (row.logbook_deleted_at ≡ none)
      × ((parse_role row.role).0 ≡ role)
      × (has_permission role permission ≡ true)

  pub require_logbook_permission-MayUse :
      (permission : Permission) (r : Request) (info : UserInfo) {role : Role}
      → require_logbook_permission net trusted hash_api_key validate_token parse_uuid db permission
          r
          (some info)
        ≡ passed role
      → MayUse permission r info.user_id role × (is_positive info.user_id ≡ true)
  unfolding require_logbook_permission
  require_logbook_permission-MayUse permission r info h =
      let open_db : db.available ≡ true = ground arith in
      elim (Option-cases (user_id_from_context (some info))) [
        | inl nobody ↦ absurd (ground (arith, nobody))
        | inr (id, user) ↦ elim (Option-cases (parse_uuid r.logbook_uuid)) [
          | inl bad ↦ absurd (ground (arith, user, bad))
          | inr (logbook, named) ↦
              elim (Option-cases (
                get_user_role_for_logbook net trusted hash_api_key validate_token parse_uuid db
                  logbook id)) [
                    | inl missing ↦ absurd (ground (arith, user, named, missing))
                    | inr (row, found) ↦
                        let (m, t) =
                          first_row-member _ db.user_roles
                            (unfold get_user_role_for_logbook in found) in
                        let key : row.logbook_uuid ≡ logbook =
                          (equal_iff row.logbook_uuid logbook).0 (ground (arith, t)) in
                        let owner : row.role_user_id ≡ id =
                          same_id-only row.role_user_id id (ground (arith, t)) in
                        let live : row.logbook_deleted_at ≡ none =
                          is_null-only row.logbook_deleted_at (ground (arith, t)) in
                        let known : info.user_id ≡ id = nonzero_only info user in
                        (
                          (
                            row,
                            m,
                            named ∙ ap some (sym key),
                            owner ∙ sym known,
                            live,
                            ground (arith, user, named, found),
                            ground (arith, user, named, found),
                          ),
                          rw known (ground (arith, user)),
                        )
                  ]
        ]
      ]
