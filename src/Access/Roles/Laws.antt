-- ===== src/Access/Roles/Laws.antt =====
-- How the permission tables of the roles relate.
use cherry_wiki.Base.{String, ◌≡◌, refl, Bool, true, false, List, [], ◌∷◌, arith, eq_iff, every}
use cherry_wiki.Base.Text.{includes}
use cherry_wiki.Access.Roles.{
  Role, owner, admin, space_admin, editor, viewer, auditor, role_permissions, permission_points,
  space_scoped_permissions, resource_acl_deferrable_permissions, is_permission_point,
  is_space_scoped_permission, is_resource_acl_deferrable,
}

-- A list that is checked entry by entry is included in another.
pub includes_of_every :
    (big small : List String) (s : String)
    → every (includes big) small ≡ true
    → includes small s ≡ true
    → includes big s ≡ true
includes_of_every big [] s h k = cc
includes_of_every big (t ∷ ts) s h k = ground (arith, eq_iff t s, includes_of_every big ts s)

-- The chain of the roles. The auditor stands apart: below the administrator only.
abbrev pub is_above : Role → Role → Bool
is_above owner b = true
is_above admin owner = false
is_above admin b = true
is_above space_admin space_admin = true
is_above space_admin editor = true
is_above space_admin viewer = true
is_above editor editor = true
is_above editor viewer = true
is_above viewer viewer = true
is_above auditor auditor = true
is_above _ _ = false

tables_nested :
    (a b : Role)
    → is_above a b ≡ true
    → every (includes (role_permissions a)) (role_permissions b) ≡ true
unfolding role_permissions
tables_nested owner owner h = refl
tables_nested owner admin h = refl
tables_nested owner space_admin h = refl
tables_nested owner editor h = refl
tables_nested owner viewer h = refl
tables_nested owner auditor h = refl
tables_nested admin admin h = refl
tables_nested admin space_admin h = refl
tables_nested admin editor h = refl
tables_nested admin viewer h = refl
tables_nested admin auditor h = refl
tables_nested space_admin space_admin h = refl
tables_nested space_admin editor h = refl
tables_nested space_admin viewer h = refl
tables_nested editor editor h = refl
tables_nested editor viewer h = refl
tables_nested viewer viewer h = refl
tables_nested auditor auditor h = refl
tables_nested _ _ h = cc

-- A role that stands above another in the chain has each of its permissions.
pub role_permissions_monotone :
    (a b : Role) (p : String)
    → is_above a b ≡ true
    → includes (role_permissions b) p ≡ true
    → includes (role_permissions a) p ≡ true
role_permissions_monotone a b p h =
    includes_of_every (role_permissions a) (role_permissions b) p (tables_nested a b h)

-- A permission whose check may be left to the service is one that is checked for each space, and
-- one that is checked for each space is a permission point.
pub deferrable_scoped :
    (p : String) → is_resource_acl_deferrable p ≡ true → is_space_scoped_permission p ≡ true
unfolding is_resource_acl_deferrable is_space_scoped_permission
deferrable_scoped p =
    includes_of_every space_scoped_permissions resource_acl_deferrable_permissions p refl

pub scoped_point : (p : String) → is_space_scoped_permission p ≡ true → is_permission_point p ≡ true
unfolding is_space_scoped_permission is_permission_point
scoped_point p = includes_of_every permission_points space_scoped_permissions p refl
