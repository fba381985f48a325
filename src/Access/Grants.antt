-- ===== src/Access/Grants.antt =====
-- What assigning a role of noema/modules/auth/kernel.py grants.
use Prim.Native.String.{String}
use text.Mathlib.Text.{◌==◌ as str_eq}
use text.Mathlib.TextEquality.{eq_iff}
use text.Mathlib.TextPositions.{eq_refl}
use noema.Prelude.{
  ◌≡◌, refl, sym, ap, ◌∙◌, arith, true, Bool-cases, inl, inr, List, [], ◌∷◌, ◌++◌, some,
}
use noema.Access.{
  Dict, Rbac, has, lookup, get_or_empty, put, add_role, assign_role, allows, any_allows,
  has_permission,
}

get_or_empty-put :
    (key : String) (xs : List String) (d : Dict) → get_or_empty key (put key xs d) ≡ xs
unfolding get_or_empty put
get_or_empty-put key xs [] = rw (eq_refl key) refl
get_or_empty-put key xs ((k, ys) ∷ d) = elim (Bool-cases (str_eq key k)) [
  | inl y ↦ rw (y, get_or_empty, eq_refl key) refl
  | inr n ↦ rw (n, get_or_empty, n) (get_or_empty-put key xs d)
]

module _ (roles : Dict) (permission role_name : String)
    (allowed : allows (lookup role_name roles) permission ≡ true) where
  any_allows-has :
      (names : List String) → has role_name names ≡ true → any_allows roles permission names ≡ true
  unfolding any_allows
  any_allows-has [] h = absurd cc
  any_allows-has (r ∷ rs) h = elim (Bool-cases (str_eq role_name r)) [
    | inl y ↦
        let here : allows (lookup r roles) permission ≡ true =
          ap (λ n. allows (lookup n roles) permission) (sym ((eq_iff role_name r).0 y)) ∙ allowed in
        ground (arith, here)
    | inr n ↦ ground (arith, h, n, any_allows-has rs)
  ]

  any_allows-append :
      (names : List String) → any_allows roles permission (names ++ role_name ∷ []) ≡ true
  unfolding any_allows
  any_allows-append [] = ground (arith, allowed)
  any_allows-append (r ∷ rs) = ground (arith, any_allows-append rs)

  any_allows-add_role :
      (names : List String) → any_allows roles permission (add_role role_name names) ≡ true
  unfolding add_role
  any_allows-add_role names = elim (Bool-cases (has role_name names)) [
    | inl y ↦ rw (y) (any_allows-has names y)
    | inr n ↦ rw (n) (any_allows-append names)
  ]

-- A user who is assigned a role that exists has every permission of that role, whatever roles the
-- user had before.
pub has_permission-assign_role :
    (c : Rbac) (user_id role_name permission : String) (permissions : List String)
    → lookup role_name c.roles ≡ some permissions
    → has permission permissions ≡ true
    → has_permission user_id permission (assign_role user_id role_name c).0 ≡ true
unfolding has_permission assign_role
has_permission-assign_role c user_id role_name permission permissions known listed =
    let allowed = ap (λ o. allows o permission) known ∙ listed in
    rw (assign_role, known)
      (ap (any_allows c.roles permission) (get_or_empty-put user_id _ c.user_roles)
        ∙ any_allows-add_role c.roles permission role_name allowed
            (get_or_empty user_id c.user_roles))
