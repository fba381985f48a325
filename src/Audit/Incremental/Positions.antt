-- ===== src/Audit/Incremental/Positions.antt =====
-- The tree of hashes over infinitely many leaves, where the last leaf stands for ever: what each level of
-- the trees of noema/audit/merkle_proof.py holds at each position.
use noema.Audit.Bytes.{Bytes}
use noema.Audit.Proofs.{hash_pair}
use noema.Audit.Incremental.{Level, entry, or_pad, node, put_at, last_or_zeros}
use noema.Prelude.{
  ℕ, zero, suc, ◌+◌, ◌*◌, ◌≤◌, ◌<◌, ◌≡◌, refl, sym, ap, ◌∙◌, ◌⊎◌, inl, inr, arith, List, [], ◌∷◌,
  ◌++◌, none, some, length, replicate, subst,
}

-- The leaf at a position, the last one behind them all.
unfoldable pub leaf_at : List Bytes → ℕ → Bytes
leaf_at [] j = replicate 32 0
leaf_at (x ∷ []) j = x
leaf_at (x ∷ y ∷ xs) zero = x
leaf_at (x ∷ y ∷ xs) (suc j) = leaf_at (y ∷ xs) j

pub leaf_at-append :
    (xs : List Bytes) (leaf : Bytes) (j : ℕ)
    → j < length xs
    → leaf_at (xs ++ leaf ∷ []) j ≡ leaf_at xs j
unfolding leaf_at
leaf_at-append [] leaf j h = absurd (omega arith)
leaf_at-append (x ∷ []) leaf zero h = refl
leaf_at-append (x ∷ []) leaf (suc j) h = absurd (omega arith)
leaf_at-append (x ∷ y ∷ xs) leaf zero h = refl
leaf_at-append (x ∷ y ∷ xs) leaf (suc j) h = leaf_at-append (y ∷ xs) leaf j (omega arith)

pub leaf_at-append-last :
    (xs : List Bytes) (leaf : Bytes) (j : ℕ) → length xs ≤ j → leaf_at (xs ++ leaf ∷ []) j ≡ leaf
unfolding leaf_at
leaf_at-append-last [] leaf j h = refl
leaf_at-append-last (x ∷ []) leaf zero h = absurd (omega arith)
leaf_at-append-last (x ∷ []) leaf (suc j) h = refl
leaf_at-append-last (x ∷ y ∷ xs) leaf zero h = absurd (omega arith)
leaf_at-append-last (x ∷ y ∷ xs) leaf (suc j) h = leaf_at-append-last (y ∷ xs) leaf j (omega arith)

pub last_or_zeros-append : (xs : List Bytes) (leaf : Bytes) → last_or_zeros (xs ++ leaf ∷ []) ≡ leaf
unfolding last_or_zeros
last_or_zeros-append [] leaf = refl
last_or_zeros-append (x ∷ []) leaf = refl
last_or_zeros-append (x ∷ y ∷ xs) leaf = last_or_zeros-append (y ∷ xs) leaf

pub entry-put_at : (i : ℕ) (v : Bytes) (level : Level) → entry (put_at i v level) i ≡ some v
unfolding entry put_at
entry-put_at zero v [] = refl
entry-put_at zero v (x ∷ xs) = refl
entry-put_at (suc i) v [] = entry-put_at i v []
entry-put_at (suc i) v (x ∷ xs) = entry-put_at i v xs

pub entry-put_at-other :
    (i : ℕ) (v : Bytes) (level : Level) (j : ℕ)
    → (j < i) ⊎ (i < j)
    → entry (put_at i v level) j ≡ entry level j
unfolding entry put_at
entry-put_at-other zero v [] zero h = absurd (omega (arith, h))
entry-put_at-other zero v [] (suc j) h = refl
entry-put_at-other zero v (x ∷ xs) zero h = absurd (omega (arith, h))
entry-put_at-other zero v (x ∷ xs) (suc j) h = refl
entry-put_at-other (suc i) v [] zero h = refl
entry-put_at-other (suc i) v [] (suc j) h = entry-put_at-other i v [] j (omega (arith, h))
entry-put_at-other (suc i) v (x ∷ xs) zero h = refl
entry-put_at-other (suc i) v (x ∷ xs) (suc j) h = entry-put_at-other i v xs j (omega (arith, h))

-- A level holds the values of `f` at its first `count` positions, and `f` is the padding from there on.
unfoldable pub Holds : Level → Bytes → (ℕ → Bytes) → ℕ → Type 0
Holds level pad f count =
    (j : ℕ)
    → ((j < count) × (entry level j ≡ some (f j)))
      ⊎ ((count ≤ j) × (entry level j ≡ none) × (f j ≡ pad))

-- The same but for one position, which is to be set.
unfoldable pub Ready : Level → (ℕ → Bytes) → ℕ → Type 0
Ready level f i =
    (j : ℕ)
    → ((j < i) × (entry level j ≡ some (f j))) ⊎ ((j ≡ i) ⊎ ((i < j) × (entry level j ≡ none)))

pub node-Holds :
    (level : Level) (pad : Bytes) (f : ℕ → Bytes) (count : ℕ)
    → Holds level pad f count
    → (j : ℕ) → node level pad j ≡ f j
unfolding Holds node
node-Holds level pad f count h j = elim (h j) [
  | inl (lt, e) ↦ ap (or_pad pad) e
  | inr (le, e, same) ↦ ap (or_pad pad) e ∙ sym same
]

pub put_at-Holds :
    (level : Level) (pad : Bytes) (f : ℕ → Bytes) (i : ℕ)
    → Ready level f i
    → ((j : ℕ) → i < j → f j ≡ pad)
    → Holds (put_at i (f i) level) pad f (i + 1)
unfolding Holds Ready
put_at-Holds level pad f i r same j = elim (r j) [
  | inl (lt, e) ↦ inl (omega arith, entry-put_at-other i (f i) level j (inl lt) ∙ e)
  | inr (inl here) ↦ inl (
    omega (arith, here),
    subst (λ k. entry (put_at i (f i) level) k ≡ some (f k)) (sym here)
        (entry-put_at i (f i) level),
  )
  | inr (inr (lt, e)) ↦
      inr (omega arith, entry-put_at-other i (f i) level j (inr lt) ∙ e, same j lt)
]

order : (a b : ℕ) → (a < b) ⊎ (b ≤ a)
order a b = ground arith

pub Holds-Ready :
    (level : Level) (pad : Bytes) (f f' : ℕ → Bytes) (count i : ℕ)
    → Holds level pad f count
    → i ≤ count
    → count ≤ i + 1
    → ((j : ℕ) → j < i → f' j ≡ f j)
    → Ready level f' i
unfolding Holds Ready
Holds-Ready level pad f f' count i h le ge same j = elim (h j) [
  | inl (lt, e) ↦ elim (order j i) [
    | inl less ↦ inl (less, e ∙ ap some (sym (same j less)))
    | inr more ↦ inr (inl (omega (arith, lt, ge, more)))
  ]
  | inr (at_end, e, pads) ↦ elim (order i j) [
    | inl less ↦ inr (inr (less, e))
    | inr more ↦ inr (inl (omega (arith, at_end, le, more)))
  ]
]

module _ (safe_hash : Bytes → Bytes) where
  -- The level above.
  unfoldable pub up : (ℕ → Bytes) → ℕ → Bytes
  up f j = hash_pair safe_hash (f (2 * j)) (f (2 * j + 1))

  -- The hash at position 0 of the level that is `n` above.
  unfoldable pub summit : ℕ → (ℕ → Bytes) → Bytes
  unfolding up
  summit zero f = f 0
  summit (suc n) f = summit n (up f)
