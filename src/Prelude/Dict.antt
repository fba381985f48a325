-- ===== src/Prelude/Dict.antt =====
-- Dictionaries keyed by strings, as association lists in order of insertion, and what their
-- operations leave for each key.
use Prim.Native.String.{String}
use text.Mathlib.Text.{◌==◌ as str_eq}
use text.Mathlib.TextEquality.{eq_iff}
use text.Mathlib.TextPositions.{eq_refl}
use Prim.Native.Nat.{◌+◌, ◌≤◌}
use mathlib.Core.Path.{◌≡◌, refl, sym, ap, ◌∙◌}
use mathlib.Core.Logic.{inl, inr}
use mathlib.Core.Bool.{false}
use mathlib.Core.Option.{Option, none, some}
use mathlib.Core.List.{List, [], ◌∷◌}
use native.Mathlib.Omega.{arith}
use noema.Prelude.Tests.{if◌then◌else◌, Bool-cases}
use noema.Prelude.Lists.{length}

module _ {ℓ} {V : Type ℓ} where
  -- `d.get(key)`
  unfoldable pub lookup : String → List (String × V) → Option V
  lookup key [] = none
  lookup key ((k, v) ∷ d) = if str_eq key k then some v else lookup key d

  -- `d.get(key, default)`
  unfoldable pub lookup_or : V → String → List (String × V) → V
  lookup_or default key [] = default
  lookup_or default key ((k, v) ∷ d) = if str_eq key k then v else lookup_or default key d

  -- `d[key] = v`: a key that is there keeps its place.
  unfoldable pub insert : String → V → List (String × V) → List (String × V)
  insert key v [] = (key, v) ∷ []
  insert key v ((k, w) ∷ d) = if str_eq key k then (k, v) ∷ d else (k, w) ∷ insert key v d

  -- `d.pop(key, None)`
  unfoldable pub erase : String → List (String × V) → List (String × V)
  erase key [] = []
  erase key ((k, w) ∷ d) = let rest = erase key d in if str_eq key k then rest else (k, w) ∷ rest

  pub lookup-insert :
      (key : String) (v : V) (d : List (String × V)) → lookup key (insert key v d) ≡ some v
  unfolding lookup insert
  lookup-insert key v [] = rw (eq_refl key) refl
  lookup-insert key v ((k, w) ∷ d) = elim (Bool-cases (str_eq key k)) [
    | inl y ↦ rw (y, lookup, y) refl
    | inr n ↦ rw (n, lookup, n) (lookup-insert key v d)
  ]

  pub lookup-insert-other :
      (key k : String) (v : V) (d : List (String × V))
      → str_eq key k ≡ false
      → lookup key (insert k v d) ≡ lookup key d
  unfolding lookup insert
  lookup-insert-other key k v [] h = rw (h) refl
  lookup-insert-other key k v ((k', w) ∷ d) h = elim (Bool-cases (str_eq k k')) [
    | inl y ↦
        let same : str_eq key k' ≡ false = ap (str_eq key) (sym ((eq_iff k k').0 y)) ∙ h in
        rw (y, lookup, same) refl
    | inr n ↦ elim (Bool-cases (str_eq key k')) [
      | inl y ↦ rw (n, lookup, y) refl
      | inr z ↦ rw (n, lookup, z) (lookup-insert-other key k v d h)
    ]
  ]

  pub lookup-erase : (key : String) (d : List (String × V)) → lookup key (erase key d) ≡ none
  unfolding lookup erase
  lookup-erase key [] = refl
  lookup-erase key ((k, w) ∷ d) = elim (Bool-cases (str_eq key k)) [
    | inl y ↦ rw (y) (lookup-erase key d)
    | inr n ↦ rw (n, lookup, n) (lookup-erase key d)
  ]

  pub lookup-erase-other :
      (key k : String) (d : List (String × V))
      → str_eq key k ≡ false
      → lookup key (erase k d) ≡ lookup key d
  unfolding lookup erase
  lookup-erase-other key k [] h = refl
  lookup-erase-other key k ((k', w) ∷ d) h = elim (Bool-cases (str_eq k k')) [
    | inl y ↦
        let same : str_eq key k' ≡ false = ap (str_eq key) (sym ((eq_iff k k').0 y)) ∙ h in
        rw (y, same) (lookup-erase-other key k d h)
    | inr n ↦ elim (Bool-cases (str_eq key k')) [
      | inl y ↦ rw (n, lookup, y) refl
      | inr z ↦ rw (n, lookup, z) (lookup-erase-other key k d h)
    ]
  ]

  pub lookup_or-insert :
      (default : V) (key : String) (v : V) (d : List (String × V))
      → lookup_or default key (insert key v d) ≡ v
  unfolding lookup_or insert
  lookup_or-insert default key v [] = rw (eq_refl key) refl
  lookup_or-insert default key v ((k, w) ∷ d) = elim (Bool-cases (str_eq key k)) [
    | inl y ↦ rw (y, lookup_or, y) refl
    | inr n ↦ rw (n, lookup_or, n) (lookup_or-insert default key v d)
  ]

  pub lookup_or-insert-other :
      (default : V) (key k : String) (v : V) (d : List (String × V))
      → str_eq key k ≡ false
      → lookup_or default key (insert k v d) ≡ lookup_or default key d
  unfolding lookup_or insert
  lookup_or-insert-other default key k v [] h = rw (h) refl
  lookup_or-insert-other default key k v ((k', w) ∷ d) h = elim (Bool-cases (str_eq k k')) [
    | inl y ↦
        let same : str_eq key k' ≡ false = ap (str_eq key) (sym ((eq_iff k k').0 y)) ∙ h in
        rw (y, lookup_or, same) refl
    | inr n ↦ elim (Bool-cases (str_eq key k')) [
      | inl y ↦ rw (n, lookup_or, y) refl
      | inr z ↦ rw (n, lookup_or, z) (lookup_or-insert-other default key k v d h)
    ]
  ]

  pub length-insert :
      (key : String) (v : V) (d : List (String × V)) → length (insert key v d) ≤ length d + 1
  unfolding insert
  length-insert key v [] = omega arith
  length-insert key v ((k, w) ∷ d) = elim (Bool-cases (str_eq key k)) [
    | inl y ↦ rw (y) (omega arith)
    | inr n ↦ rw (n) (omega (arith, length-insert key v d))
  ]

-- A property of all values, and of a value that may be missing.
abbrev pub AllValues : {V : Type 0} → (V → Type 0) → List (String × V) → Type 0
AllValues P [] = Unit
AllValues P ((k, v) ∷ d) = P v × AllValues P d

abbrev pub IfSome : {V : Type 0} → (V → Type 0) → Option V → Type 0
IfSome P none = Unit
IfSome P (some v) = P v

module _ {V : Type 0} (P : V → Type 0) where
  pub insert-AllValues :
      (key : String) (v : V) (d : List (String × V))
      → P v
      → AllValues P d
      → AllValues P (insert key v d)
  unfolding insert
  insert-AllValues key v [] p ps = (p, tt)
  insert-AllValues key v ((k, w) ∷ d) p (q, ps) = elim (Bool-cases (str_eq key k)) [
    | inl y ↦ rw (y) (p, ps)
    | inr n ↦ rw (n) (q, insert-AllValues key v d p ps)
  ]

  pub lookup-AllValues :
      (key : String) (d : List (String × V)) → AllValues P d → IfSome P (lookup key d)
  unfolding lookup
  lookup-AllValues key [] ps = tt
  lookup-AllValues key ((k, w) ∷ d) (q, ps) = elim (Bool-cases (str_eq key k)) [
    | inl y ↦ rw (y) q
    | inr n ↦ rw (n) (lookup-AllValues key d ps)
  ]
