-- ===== src/Auth/Rbac/Laws.antt =====
-- The order of the roles of api/internal/auth/rbac.go and their permissions.
use radioledger.Base.{ℕ, ◌≡◌, refl, true, arith, leb}
use radioledger.Auth.Rbac.{
  Role, owner, admin, operator, contributor, viewer, other_role, Permission, has_permission,
  at_least, role_order, order_or_zero, role_permissions, logbook_read, logbook_update,
  logbook_delete, manage_members, transfer_ownership, manage_billing, qso_read, qso_create,
  qso_update, qso_delete, import_adif, export_adif, stats_read, other_permission, Bytes,
}

-- The place in the role order from which on a permission is held; no role holds an unknown one.
abbrev pub required : Permission → ℕ
required logbook_read = 1
required logbook_update = 4
required logbook_delete = 5
required manage_members = 4
required transfer_ownership = 5
required manage_billing = 5
required qso_read = 1
required qso_create = 2
required qso_update = 2
required qso_delete = 2
required import_adif = 3
required export_adif = 1
required stats_read = 3
required (other_permission s) = 6

by_role :
    (P : Role → Type 0)
    → P owner
    → P admin
    → P operator
    → P contributor
    → P viewer
    → ((s : Bytes) → P (other_role s))
    → (r : Role) → P r
by_role P a b c d e f owner = a
by_role P a b c d e f admin = b
by_role P a b c d e f operator = c
by_role P a b c d e f contributor = d
by_role P a b c d e f viewer = e
by_role P a b c d e f (other_role s) = f s

abbrev IsByOrder : Permission → Role → Type 0
IsByOrder permission r =
    has_permission r permission ≡ leb (required permission) (order_or_zero (role_order r))

-- The table of permissions is given by a threshold: a role has a permission exactly when its place
-- in the role order, 0 for an unknown role, is at least the one required for the permission.
pub has_permission-required :
    (r : Role) (permission : Permission)
    → has_permission r permission ≡ leb (required permission) (order_or_zero (role_order r))
unfolding has_permission role_permissions role_order
has_permission-required r logbook_read =
    by_role (IsByOrder logbook_read) refl refl refl refl refl (λ s. refl) r
has_permission-required r logbook_update =
    by_role (IsByOrder logbook_update) refl refl refl refl refl (λ s. refl) r
has_permission-required r logbook_delete =
    by_role (IsByOrder logbook_delete) refl refl refl refl refl (λ s. refl) r
has_permission-required r manage_members =
    by_role (IsByOrder manage_members) refl refl refl refl refl (λ s. refl) r
has_permission-required r transfer_ownership =
    by_role (IsByOrder transfer_ownership) refl refl refl refl refl (λ s. refl) r
has_permission-required r manage_billing =
    by_role (IsByOrder manage_billing) refl refl refl refl refl (λ s. refl) r
has_permission-required r qso_read =
    by_role (IsByOrder qso_read) refl refl refl refl refl (λ s. refl) r
has_permission-required r qso_create =
    by_role (IsByOrder qso_create) refl refl refl refl refl (λ s. refl) r
has_permission-required r qso_update =
    by_role (IsByOrder qso_update) refl refl refl refl refl (λ s. refl) r
has_permission-required r qso_delete =
    by_role (IsByOrder qso_delete) refl refl refl refl refl (λ s. refl) r
has_permission-required r import_adif =
    by_role (IsByOrder import_adif) refl refl refl refl refl (λ s. refl) r
has_permission-required r export_adif =
    by_role (IsByOrder export_adif) refl refl refl refl refl (λ s. refl) r
has_permission-required r stats_read =
    by_role (IsByOrder stats_read) refl refl refl refl refl (λ s. refl) r
has_permission-required r (other_permission u) =
    by_role (IsByOrder (other_permission u)) refl refl refl refl refl (λ s. refl) r

-- A role that is at least another one has every permission of it.
pub has_permission-at_least :
    (r minimum : Role) (permission : Permission)
    → at_least r minimum ≡ true
    → has_permission minimum permission ≡ true
    → has_permission r permission ≡ true
unfolding at_least
has_permission-at_least r minimum permission h g =
    ground (arith, has_permission-required r permission, has_permission-required minimum permission)
