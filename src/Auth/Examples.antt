-- ===== src/Auth/Examples.antt =====
-- Runs of the role checks, and the theorems at such roles.
use radioledger.Base.{lookup, ◌≡◌, refl, true, leb}
use radioledger.Base.Text.{codes, to_lower, trim_space}
use radioledger.Auth.Rbac.{
  named_roles, owner, operator, import_adif, has_permission, parse_role, role_order, order_or_zero,
}
use radioledger.Auth.Rbac.Laws.{required, has_permission-required}

has_permission-required_example :
    has_permission operator import_adif
    ≡ leb (required import_adif) (order_or_zero (role_order operator))
has_permission-required_example = has_permission-required operator import_adif

owner_parses : parse_role (codes " Owner") ≡ (owner, true)
unfolding parse_role lookup named_roles to_lower trim_space
owner_parses = refl
