-- ===== src/Audit/Incremental/Construction.antt =====
-- The constructor of the incremental tree of noema/audit/merkle_proof.py, given leaves.
use native.Mathlib.Nat.{add-div_right, div-div-eq-div-mul}
use noema.Audit.Bytes.{Bytes}
use noema.Audit.Incremental.{
  Level, Tree, entry, last_or_zeros, compute_pad_hashes, pads_from, nullify, nullify_pads, empty,
  new,
}
use noema.Audit.Proofs.{hash_pair}
use noema.Audit.Incremental.Positions.{leaf_at, Holds, up}
use noema.Audit.Incremental.Depth.{pow_suc, pow_pos, bits, bits-upper}
use noema.Audit.Incremental.Refresh.{HoldsAll, pads_above, pads_from-above}
use noema.Audit.Incremental.Growth.{IsValid, IsValid-empty}
use noema.Audit.Incremental.Refinement.{tabulate}
use noema.Audit.Incremental.Paths.{tables, build_levels-tables}
use noema.Prelude.{
  ℕ, zero, suc, ◌+◌, ◌-◌, ◌*◌, ◌/◌, ◌^◌, ◌≤◌, ◌<◌, ◌≡◌, refl, sym, ap, ap₂, ◌∙◌, ◌⊎◌, inl, inr,
  arith, List, [], ◌∷◌, map, none, some, length, length-map, subst, ok,
}

suc_plus : (k : ℕ) → suc k ≡ k + 1
suc_plus k = omega arith

order : (a b : ℕ) → (a < b) ⊎ (b ≤ a)
order a b = ground arith

entry-tabulate :
    (n : ℕ) (f : ℕ → Bytes) (j : ℕ) → j < n → entry (map some (tabulate n f)) j ≡ some (f j)
unfolding entry tabulate
entry-tabulate zero f j h = absurd (omega arith)
entry-tabulate (suc n) f zero h = refl
entry-tabulate (suc n) f (suc j) h = entry-tabulate n (λ i. f (suc i)) j (omega arith)

-- The number of entries that are not padding alone, one level up.
ceil-step : (n p : ℕ) → 1 ≤ p → ((n + p - 1) / p + 1) / 2 ≡ (n + 2 * p - 1) / (2 * p)
ceil-step n p h =
    let sum : n + p - 1 + p ≡ n + 2 * p - 1 = omega (arith, h) in
    let twice : p * 2 ≡ 2 * p = omega arith in
    ap (λ k. k / 2) (sym (add-div_right (n + p - 1) h))
    ∙ div-div-eq-div-mul (n + p - 1 + p) p 2
    ∙ ap₂ (λ a b. a / b) sum twice

module _ (safe_hash : Bytes → Bytes) where
  entry-nullify : (s : ℕ) (l : Level) (j : ℕ) → j < s → entry (nullify safe_hash s l) j ≡ entry l j
  unfolding entry nullify
  entry-nullify s [] j h = refl
  entry-nullify zero (x ∷ xs) j h = absurd (omega arith)
  entry-nullify (suc s) (x ∷ xs) zero h = refl
  entry-nullify (suc s) (x ∷ xs) (suc j) h = entry-nullify s xs j (omega arith)

  entry-nullified : (s : ℕ) (l : Level) (j : ℕ) → s ≤ j → entry (nullify safe_hash s l) j ≡ none
  unfolding entry nullify
  entry-nullified s [] j h = refl
  entry-nullified zero (x ∷ xs) zero h = refl
  entry-nullified zero (x ∷ xs) (suc j) h = entry-nullified zero xs j (omega arith)
  entry-nullified (suc s) (x ∷ xs) zero h = absurd (omega arith)
  entry-nullified (suc s) (x ∷ xs) (suc j) h = entry-nullified s xs j (omega arith)

  nullify-Holds :
      (n count : ℕ) (f : ℕ → Bytes) (pad : Bytes)
      → count ≤ n
      → ((j : ℕ) → count ≤ j → f j ≡ pad)
      → Holds (nullify safe_hash count (map some (tabulate n f))) pad f count
  unfolding Holds
  nullify-Holds n count f pad enough pads j = elim (order j count) [
    | inl less ↦ inl (
      less,
      entry-nullify count (map some (tabulate n f)) j less
          ∙ entry-tabulate n f j (omega (arith, less, enough)),
    )
    | inr more ↦ inr (more, entry-nullified count (map some (tabulate n f)) j more, pads j more)
  ]

  up-pads :
      (f : ℕ → Bytes) (pad : Bytes) (count : ℕ)
      → ((j : ℕ) → count ≤ j → f j ≡ pad)
      → (j : ℕ) → (count + 1) / 2 ≤ j
      → up safe_hash f j ≡ hash_pair safe_hash pad pad
  unfolding up
  up-pads f pad count pads j h =
      ap₂ (hash_pair safe_hash) (pads (2 * j) (omega (arith, h)))
        (pads (2 * j + 1) (omega (arith, h)))

  nullify_pads-HoldsAll :
      (d n k count : ℕ) (f : ℕ → Bytes) (pad : Bytes)
      → count ≡ (n + 2 ^ k - 1) / 2 ^ k
      → count ≤ 2 ^ d
      → ((j : ℕ) → count ≤ j → f j ≡ pad)
      → HoldsAll safe_hash
          (nullify_pads safe_hash n k (map (map some) (tables safe_hash d f)))
          (pad ∷ pads_above safe_hash d pad)
          f
          count
  unfolding HoldsAll nullify_pads tables pads_above
  nullify_pads-HoldsAll zero n k count f pad here enough pads = (
    subst (λ c. Holds (nullify safe_hash c (map some (tabulate 1 f))) pad f count) here
        (nullify-Holds 1 count f pad enough pads),
    tt,
  )
  nullify_pads-HoldsAll (suc d) n k count f pad here enough pads =
      let above : (count + 1) / 2 ≡ (n + 2 ^ (k + 1) - 1) / 2 ^ (k + 1) =
        ap (λ c. (c + 1) / 2) here
        ∙ ceil-step n (2 ^ k) (pow_pos k)
        ∙ ap (λ q. (n + q - 1) / q) (sym (pow_suc k) ∙ ap (λ e. 2 ^ e) (suc_plus k)) in
      (
        subst (λ c. Holds (nullify safe_hash c (map some (tabulate (2 ^ suc d) f))) pad f count)
            here (nullify-Holds (2 ^ suc d) count f pad enough pads),
        nullify_pads-HoldsAll d n (k + 1) ((count + 1) / 2) (up safe_hash f)
            (hash_pair safe_hash pad pad) above (omega (arith, enough, pow_suc d))
            (up-pads f pad count pads),
      )

  length-nullify_pads :
      (n k : ℕ) (levels : List Level) → length (nullify_pads safe_hash n k levels) ≡ length levels
  unfolding nullify_pads
  length-nullify_pads n k [] = refl
  length-nullify_pads n k (l ∷ ls) = ap suc (length-nullify_pads n (k + 1) ls)

  length-tables : (d : ℕ) (f : ℕ → Bytes) → length (tables safe_hash d f) ≡ suc d
  unfolding tables
  length-tables zero f = refl
  length-tables (suc d) f = ap suc (length-tables d (up safe_hash f))

  leaf_at-beyond :
      (x : Bytes) (xs : List Bytes) (j : ℕ)
      → suc (length xs) ≤ j
      → leaf_at (x ∷ xs) j ≡ last_or_zeros (x ∷ xs)
  unfolding leaf_at last_or_zeros
  leaf_at-beyond x [] j h = refl
  leaf_at-beyond x (y ∷ ys) zero h = absurd (omega arith)
  leaf_at-beyond x (y ∷ ys) (suc j) h = leaf_at-beyond y ys j (omega arith)

  -- The constructor gives a valid tree with the leaves, and raises nothing.
  unfoldable pub Constructs : List Bytes → Type 0
  Constructs leaves =
      (t : Tree) × (new safe_hash leaves ≡ ok t) × IsValid safe_hash t × (t.real ≡ leaves)

  pub new-IsValid : (leaves : List Bytes) → Constructs leaves
  unfolding Constructs new IsValid
  new-IsValid [] =
      (empty safe_hash, refl, unfold IsValid in IsValid-empty safe_hash, unfold empty in refl)
  new-IsValid (x ∷ xs) =
      let n = length (x ∷ xs) in
      let d = bits (length xs) in
      let f = leaf_at (x ∷ xs) in
      let pad = last_or_zeros (x ∷ xs) in
      let levels = nullify_pads safe_hash n 0 (map (map some) (tables safe_hash d f)) in
      let depth : length levels ≡ suc d =
        length-nullify_pads n 0 (map (map some) (tables safe_hash d f))
        ∙ length-map (map some) (tables safe_hash d f)
        ∙ length-tables d f in
      let less : length levels - 1 ≡ d = omega (arith, depth) in
      let pads : compute_pad_hashes safe_hash (x ∷ xs) levels ≡ pad ∷ pads_above safe_hash d pad =
        unfold compute_pad_hashes in
        (ap (λ k. pads_from safe_hash k pad) less ∙ pads_from-above safe_hash d pad) in
      let holds : HoldsAll safe_hash levels (pad ∷ pads_above safe_hash d pad) f (suc (length xs)) =
        nullify_pads-HoldsAll d n 0 (suc (length xs)) f pad (omega arith)
          (omega (arith, bits-upper (length xs))) (leaf_at-beyond x xs) in
      (
        record {
          real = x ∷ xs;
          levels = levels;
          pad_hashes = compute_pad_hashes safe_hash (x ∷ xs) levels;
        },
        rw (build_levels-tables safe_hash x xs) refl,
        inr (
          length xs,
          refl,
          depth,
          pads,
          subst (λ ps. HoldsAll safe_hash levels ps f (suc (length xs))) (sym pads) holds,
        ),
        refl,
      )
