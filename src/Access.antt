-- ===== src/Access.antt =====
-- The class `RBAC` of noema/modules/auth/kernel.py. The dictionaries are association lists; a role is
-- its permissions, since nothing reads `is_default`.
pub mod Grants
mod Tests
use Prim.Native.String.{String}
use text.Mathlib.Text.{◌==◌ as str_eq}
use noema.Prelude.{Bool, true, false, ◌||◌, List, [], ◌∷◌, ◌++◌, Option, none, some, if◌then◌else◌}

abbrev pub Dict : Type 0
Dict = List (String × List String)

pub record Rbac : Type 0 where
  pub roles : Dict
  pub user_roles : Dict

abbrev pub has : String → List String → Bool
has t [] = false
has t (u ∷ us) = str_eq t u || has t us

unfoldable pub lookup : String → Dict → Option (List String)
lookup key [] = none
lookup key ((k, xs) ∷ d) = if str_eq key k then some xs else lookup key d

-- `d.get(key, [])`
unfoldable pub get_or_empty : String → Dict → List String
get_or_empty key [] = []
get_or_empty key ((k, xs) ∷ d) = if str_eq key k then xs else get_or_empty key d

unfoldable pub put : String → List String → Dict → Dict
put key xs [] = (key, xs) ∷ []
put key xs ((k, ys) ∷ d) = if str_eq key k then (key, xs) ∷ d else (k, ys) ∷ put key xs d

-- `list.remove`
unfoldable pub remove_first : String → List String → List String
remove_first t [] = []
remove_first t (u ∷ us) = if str_eq t u then us else u ∷ remove_first t us

unfoldable pub default_roles : Dict
default_roles =
    ("admin", "read" ∷ "write" ∷ "delete" ∷ "admin" ∷ "manage_users" ∷ "manage_roles" ∷ [])
    ∷ ("user", "read" ∷ "write" ∷ [])
    ∷ ("viewer", "read" ∷ [])
    ∷ ("moderator", "read" ∷ "write" ∷ "delete" ∷ [])
    ∷ []

unfoldable pub init : Rbac
unfolding default_roles
init = record { roles = default_roles; user_roles = [] }

-- `setdefault` and the append of a role that is not there.
unfoldable pub add_role : String → List String → List String
add_role role_name names = if has role_name names then names else names ++ role_name ∷ []

unfoldable pub assign_role : String → String → Rbac → Rbac × Bool
assign_role user_id role_name c = elim (lookup role_name c.roles) [
  | none ↦ (c, false)
  | some permissions ↦ (
    record c {
      user_roles =
          put user_id (add_role role_name (get_or_empty user_id c.user_roles)) c.user_roles;
    },
    true,
  )
]

unfoldable pub revoke_role : String → String → Rbac → Rbac × Bool
revoke_role user_id role_name c =
    let names = get_or_empty user_id c.user_roles in
    if has role_name names
    then (record c { user_roles = put user_id (remove_first role_name names) c.user_roles }, true)
    else (c, false)

abbrev pub allows : Option (List String) → String → Bool
allows none permission = false
allows (some permissions) permission = has permission permissions

-- The loop of `has_permission` over the user's roles.
unfoldable pub any_allows : Dict → String → List String → Bool
any_allows roles permission [] = false
any_allows roles permission (r ∷ rs) =
    allows (lookup r roles) permission || any_allows roles permission rs

unfoldable pub has_permission : String → String → Rbac → Bool
has_permission user_id permission c =
    any_allows c.roles permission (get_or_empty user_id c.user_roles)
