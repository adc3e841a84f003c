-- ===== src/Auth/Rbac.antt =====
-- api/internal/auth/rbac.go: the roles of a logbook and what they permit.
pub mod Laws
use radioledger.Base.{
  ℕ, Bool, true, false, Bytes, List, [], ◌∷◌, Option, some, none, lookup, leb, if◌then◌else◌,
}
use radioledger.Base.Text.{codes, to_lower, trim_space}

-- A `Role`, a string type; a value that is no constant is `other_role`.
pub data Role : Type 0 where
  owner : Role
  admin : Role
  operator : Role
  contributor : Role
  viewer : Role
  other_role : Bytes → Role

pub data Permission : Type 0 where
  logbook_read : Permission
  logbook_update : Permission
  logbook_delete : Permission
  manage_members : Permission
  transfer_ownership : Permission
  manage_billing : Permission
  qso_read : Permission
  qso_create : Permission
  qso_update : Permission
  qso_delete : Permission
  import_adif : Permission
  export_adif : Permission
  stats_read : Permission
  other_permission : Bytes → Permission

-- The constants, by their strings.
unfoldable pub named_roles : List (Bytes × Role)
named_roles =
    (codes "owner", owner)
    ∷ (codes "admin", admin)
    ∷ (codes "operator", operator)
    ∷ (codes "contributor", contributor)
    ∷ (codes "viewer", viewer)
    ∷ []

unfoldable pub to_role : Bytes → Role
to_role s = elim (lookup s named_roles) [ some r ↦ r | none ↦ other_role s ]

-- `roleOrder`: a key that is missing reads as 0.
unfoldable pub role_order : Role → Option ℕ
role_order viewer = some 1
role_order contributor = some 2
role_order operator = some 3
role_order admin = some 4
role_order owner = some 5
role_order (other_role s) = none

abbrev pub order_or_zero : Option ℕ → ℕ
order_or_zero (some n) = n
order_or_zero none = 0

-- `rolePermissions`: the permissions of a role, as a set.
unfoldable pub role_permissions : Role → Permission → Bool
role_permissions owner (other_permission s) = false
role_permissions owner _ = true
role_permissions admin logbook_delete = false
role_permissions admin transfer_ownership = false
role_permissions admin manage_billing = false
role_permissions admin (other_permission s) = false
role_permissions admin _ = true
role_permissions operator logbook_read = true
role_permissions operator qso_read = true
role_permissions operator qso_create = true
role_permissions operator qso_update = true
role_permissions operator qso_delete = true
role_permissions operator import_adif = true
role_permissions operator export_adif = true
role_permissions operator stats_read = true
role_permissions operator _ = false
role_permissions contributor logbook_read = true
role_permissions contributor qso_read = true
role_permissions contributor qso_create = true
role_permissions contributor qso_update = true
role_permissions contributor qso_delete = true
role_permissions contributor export_adif = true
role_permissions contributor _ = false
role_permissions viewer logbook_read = true
role_permissions viewer qso_read = true
role_permissions viewer export_adif = true
role_permissions viewer _ = false
role_permissions (other_role s) _ = false

abbrev is_known : Option ℕ → Bool
is_known (some n) = true
is_known none = false

unfoldable pub parse_role : Bytes → Role × Bool
unfolding to_role role_order
parse_role value = let r = to_role (to_lower (trim_space value)) in (r, is_known (role_order r))

unfoldable pub at_least : Role → Role → Bool
unfolding role_order
at_least r minimum = leb (order_or_zero (role_order minimum)) (order_or_zero (role_order r))

unfoldable pub has_permission : Role → Permission → Bool
unfolding role_permissions
has_permission r permission = role_permissions r permission
