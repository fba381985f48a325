-- ===== src/Access/Tests.antt =====
-- The access control of noema/modules/auth/kernel.py at work.
use noema.Prelude.{◌≡◌, refl, true, [], ◌∷◌}
use noema.Access.{init, lookup, default_roles, assign_role, has_permission}
use noema.Access.Grants.{has_permission-assign_role}

has_permission-assign_role_example :
    has_permission "ann" "delete" (assign_role "ann" "moderator" init).0 ≡ true
unfolding init lookup default_roles
has_permission-assign_role_example =
    has_permission-assign_role init "ann" "moderator" "delete" ("read" ∷ "write" ∷ "delete" ∷ [])
      refl refl
