-- ===== src/Caching/Layers.antt =====
-- The class `MultiLayerCache` of noema/modules/caching/kernel.py, and what it answers.
use Prim.Native.Nat.{min}
use Prim.Native.String.{String}
use noema.Prelude.{ℕ, ◌+◌, ◌≤◌, ◌≡◌, refl, arith, inl, inr, List, [], Option, none, some}
use noema.Caching.{LruCache, delete, get, set, or_default, invalidate_tag, empty}
use noema.Caching.Lookup.{get-set, get-delete}

pub record MultiLayerCache (V : Type 0) : Type 0 where
  pub l1 : LruCache V
  pub l2 : LruCache V

abbrev pub new : {V : Type 0} → ℕ → ℕ → MultiLayerCache V
new l1_max l2_max = record { l1 = empty l1_max 60; l2 = empty l2_max 3600 }

module _ {V : Type 0} where
  -- `get` from the second layer on; a value found there is set in the first, with no tags.
  unfoldable pub from_l2 :
      ℕ → String → LruCache V → LruCache V × Option V → MultiLayerCache V × Option V
  from_l2 now key l1 (l2, none) = (record { l1 = l1; l2 = l2 }, none)
  from_l2 now key l1 (l2, some v) = (record { l1 = set now key v (some 60) [] l1; l2 = l2 }, some v)

  unfoldable pub from_l1 :
      ℕ → String → LruCache V → LruCache V × Option V → MultiLayerCache V × Option V
  unfolding from_l2
  from_l1 now key l2 (l1, some v) = (record { l1 = l1; l2 = l2 }, some v)
  from_l1 now key l2 (l1, none) = from_l2 now key l1 (get now key l2)

  unfoldable pub get_layered : ℕ → String → MultiLayerCache V → MultiLayerCache V × Option V
  unfolding from_l1
  get_layered now key m = from_l1 now key m.l2 (get now key m.l1)

  unfoldable pub set_layered :
      ℕ → String → V → Option ℕ → List String → MultiLayerCache V → MultiLayerCache V
  set_layered now key v ttl tags m = record {
    l1 = set now key v (some (min (or_default ttl 60) 60)) tags m.l1;
    l2 = set now key v ttl tags m.l2;
  }

  unfoldable pub invalidate : String → MultiLayerCache V → MultiLayerCache V
  invalidate key m = record { l1 = (delete key m.l1).0; l2 = (delete key m.l2).0 }

  unfoldable pub invalidate_tag_layered : String → MultiLayerCache V → MultiLayerCache V × ℕ
  invalidate_tag_layered tag m =
      let (l1, n1) = invalidate_tag tag m.l1 in
      let (l2, n2) = invalidate_tag tag m.l2 in (record { l1 = l1; l2 = l2 }, n1 + n2)

  pub answers-first :
      (now : ℕ) (key : String) (m : MultiLayerCache V) (v : V)
      → (get now key m.l1).1 ≡ some v
      → (get_layered now key m).1 ≡ some v
  unfolding get_layered from_l1
  answers-first now key m v e = rw (get_layered, e) refl

  second-answers :
      (now : ℕ) (key : String) (l1 : LruCache V) (r : LruCache V × Option V) (o : Option V)
      → r.1 ≡ o
      → (from_l2 now key l1 r).1 ≡ o
  unfolding from_l2
  second-answers now key l1 (l2, none) o e = e
  second-answers now key l1 (l2, some v) o e = e

  answers-second :
      (now : ℕ) (key : String) (m : MultiLayerCache V) (o : Option V)
      → (get now key m.l1).1 ≡ none
      → (get now key m.l2).1 ≡ o
      → (get_layered now key m).1 ≡ o
  unfolding get_layered from_l1 from_l2
  answers-second now key m o e e' =
      rw (get_layered, e) (second-answers now key (get now key m.l1).0 (get now key m.l2) o e')

  -- After a value is set in both layers, a lookup of its key finds it for as long as the second layer
  -- keeps it, though the first keeps it for at most 60 seconds.
  pub get_layered-set_layered :
      (now later : ℕ) (key : String) (v : V) (ttl : Option ℕ) (tags : List String)
      (m : MultiLayerCache V)
      → later ≤ now + or_default ttl m.l2.default_ttl
      → (get_layered later key (set_layered now key v ttl tags m)).1 ≡ some v
  unfolding set_layered
  get_layered-set_layered now later key v ttl tags m h =
      let m' = set_layered now key v ttl tags m in
      elim (get-set now later key v ttl tags m.l2) [
        | inr (late, _) ↦ absurd (omega (arith, h))
        | inl (_, second) ↦
            elim (get-set now later key v (some (min (or_default ttl 60) 60)) tags m.l1) [
              | inl (_, first) ↦ answers-first later key m' v first
              | inr (_, gone) ↦ answers-second later key m' (some v) gone second
            ]
      ]

  -- After a key is invalidated, a lookup of it finds nothing at any time.
  pub get_layered-invalidate :
      (now : ℕ) (key : String) (m : MultiLayerCache V)
      → (get_layered now key (invalidate key m)).1 ≡ none
  unfolding invalidate
  get_layered-invalidate now key m =
      answers-second now key _ none (get-delete now key m.l1) (get-delete now key m.l2)
