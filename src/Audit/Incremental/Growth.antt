-- ===== src/Audit/Incremental/Growth.antt =====
-- What appending a leaf keeps of the incremental tree of noema/audit/merkle_proof.py.
use noema.Audit.Bytes.{Bytes}
use noema.Audit.Proofs.{bit_length, next_pow2}
use noema.Audit.Incremental.{
  Level, Tree, entry, last_or_zeros, is_blank, pads_from, compute_pad_hashes, set_leaf, deepen,
  append, empty,
}
use noema.Audit.Incremental.Positions.{
  leaf_at, leaf_at-append, leaf_at-append-last, last_or_zeros-append, Holds,
}
use noema.Audit.Incremental.Depth.{
  pow_suc, pow_pos, bits, bits-upper, bits_mono, bits_step, bits_pow, next_pow2-suc,
}
use noema.Audit.Incremental.Refresh.{
  split, pads_above, pads_from-above, HoldsAll, ReadyAll, HoldsAll-ReadyAll, ReadyAll-deeper,
  SetsLeaf, set_leaf-HoldsAll,
}
use noema.Prelude.{
  ℕ, zero, suc, ◌-◌, ◌^◌, ◌≤◌, ◌≡◌, refl, sym, ap, ap₂, ◌∙◌, ◌⊎◌, inl, inr, arith, true, false,
  List, [], ◌∷◌, ◌++◌, none, some, length, length-append, subst, Bool-cases, ltb, ltb→lt, ok,
}

ltb-ge : (a b : ℕ) → ltb a b ≡ false → b ≤ a
ltb-ge a b h = ground arith

module _ (safe_hash : Bytes → Bytes) where
  -- A tree without leaves, or one whose levels are as deep as its leaves need and hold their hashes.
  unfoldable pub IsValid : Tree → Type 0
  IsValid t =
      ((t.real ≡ []) × (t.levels ≡ [] ∷ []))
      ⊎ ((m : ℕ) × (length t.real ≡ suc m)
          × (length t.levels ≡ suc (bits m))
          × (t.pad_hashes
              ≡ last_or_zeros t.real ∷ pads_above safe_hash (bits m) (last_or_zeros t.real))
          × HoldsAll safe_hash t.levels t.pad_hashes (leaf_at t.real) (suc m))

  not_blank :
      (levels : List Level) (ps : List Bytes) (f : ℕ → Bytes) (m : ℕ)
      → HoldsAll safe_hash levels ps f (suc m)
      → is_blank levels ≡ false
  unfolding is_blank HoldsAll Holds entry
  not_blank [] ps f m h = refl
  not_blank ([] ∷ []) [] f m h = absurd h
  not_blank ([] ∷ []) (p ∷ ps) f m (here, above) = elim (here 0) [
    | inl (lt, e) ↦ absurd cc
    | inr (le, e, same) ↦ absurd (omega (arith, le))
  ]
  not_blank ([] ∷ l ∷ ls) ps f m h = refl
  not_blank ((x ∷ xs) ∷ ls) ps f m h = refl

  pub IsValid-empty : IsValid (empty safe_hash)
  unfolding IsValid empty
  IsValid-empty = inl (refl, refl)

  beyond : (leaf : Bytes) (j : ℕ) → 1 ≤ j → entry (some leaf ∷ []) j ≡ none
  unfolding entry
  beyond leaf zero h = absurd (omega arith)
  beyond leaf (suc j) h = refl

  one_leaf :
      (real : List Bytes) (leaf : Bytes)
      → real ≡ []
      → HoldsAll safe_hash
          ((some leaf ∷ []) ∷ [])
          (last_or_zeros (real ++ leaf ∷ []) ∷ [])
          (leaf_at (real ++ leaf ∷ []))
          1
  unfolding HoldsAll Holds entry
  one_leaf real leaf none_yet =
      let same : (j : ℕ) → leaf_at (real ++ leaf ∷ []) j ≡ leaf =
        λ j. leaf_at-append-last real leaf j (omega (arith, ap length none_yet)) in
      (
        λ j. elim (split j) [
          | inl z ↦ inl (
            omega (arith, z),
            subst (λ k. entry (some leaf ∷ []) k ≡ some (leaf_at (real ++ leaf ∷ []) k)) (sym z)
                (ap some (sym (same 0))),
          )
          | inr more ↦ inr (more, beyond leaf j more, same j ∙ sym (last_or_zeros-append real leaf))
        ],
        tt,
      )

  unfoldable pub Appends : Bytes → Tree → Type 0
  Appends leaf t =
      (t' : Tree) × (append safe_hash leaf t ≡ ok t') × IsValid t' × (t'.real ≡ t.real ++ leaf ∷ [])

  append-first : (leaf : Bytes) (t : Tree) → t.real ≡ [] → t.levels ≡ [] ∷ [] → Appends leaf t
  unfolding Appends append compute_pad_hashes pads_from IsValid pads_above bit_length
  append-first leaf t none_yet blank =
      let b : is_blank t.levels ≡ true = ap is_blank blank ∙ unfold is_blank in refl in
      (
        record {
          real = t.real ++ leaf ∷ [];
          levels = (some leaf ∷ []) ∷ [];
          pad_hashes = last_or_zeros (t.real ++ leaf ∷ []) ∷ [];
        },
        rw (b) refl,
        inr (
          0,
          omega (arith, length-append t.real (leaf ∷ []), ap length none_yet),
          refl,
          refl,
          one_leaf t.real leaf none_yet,
        ),
        refl,
      )

  -- The levels before the path is refreshed: as many as the new number of leaves needs.
  Deepened : List Level → ℕ → (ℕ → Bytes) → Type 0
  Deepened levels n f = (length levels ≡ suc (bits n)) × ReadyAll safe_hash levels f n

  deepen-Deepened :
      (levels : List Level) (m : ℕ) (f : ℕ → Bytes)
      → length levels ≡ suc (bits m)
      → ReadyAll safe_hash levels f (suc m)
      → Deepened (deepen safe_hash (suc (suc m)) levels) (suc m) f
  unfolding Deepened deepen ReadyAll
  deepen-Deepened levels m f long r =
      let depth : bit_length (next_pow2 (suc (suc m))) (next_pow2 (suc (suc m)))
          ≡ suc (bits (suc m)) =
        ap bits (next_pow2-suc (suc m)) ∙ bits_pow (bits (suc m)) in
      elim (Bool-cases
        (ltb (length levels) (bit_length (next_pow2 (suc (suc m))) (next_pow2 (suc (suc m)))))) [
          | inl y ↦
              let less = ltb→lt (length levels) _ y in
              rw (deepen, y)
                (
                  omega (arith, length-append levels ([] ∷ []), long, less, depth, bits_step m),
                  ReadyAll-deeper safe_hash levels f (suc m)
                      (omega (
                        arith,
                        bits-upper m,
                        pow_suc (bits m),
                        pow_pos (bits m),
                        ap (λ k. 2 ^ k) long,
                      ))
                      r,
                )
          | inr n ↦
              rw (deepen, n)
                (omega (arith, long, bits_mono m, depth, ltb-ge (length levels) _ n), r)
        ]

  compute_pad_hashes-deep :
      (real : List Bytes) (leaf : Bytes) (levels : List Level) (d : ℕ)
      → length levels ≡ suc d
      → compute_pad_hashes safe_hash (real ++ leaf ∷ []) levels ≡ leaf ∷ pads_above safe_hash d leaf
  unfolding compute_pad_hashes
  compute_pad_hashes-deep real leaf levels d long =
      let depth : length levels - 1 ≡ d = omega (arith, long) in
      ap₂ (pads_from safe_hash) depth (last_or_zeros-append real leaf)
      ∙ pads_from-above safe_hash d leaf

  append-later :
      (leaf : Bytes) (t : Tree) (m : ℕ)
      → length t.real ≡ suc m
      → length t.levels ≡ suc (bits m)
      → HoldsAll safe_hash t.levels t.pad_hashes (leaf_at t.real) (suc m)
      → Appends leaf t
  unfolding Appends append IsValid Deepened SetsLeaf
  append-later leaf t m many long holds =
      let real = t.real ++ leaf ∷ [] in
      let f = leaf_at real in
      let more : length real ≡ suc (suc m) =
        omega (arith, length-append t.real (leaf ∷ []), many) in
      let ready : ReadyAll safe_hash t.levels f (suc m) =
        HoldsAll-ReadyAll safe_hash t.levels t.pad_hashes (leaf_at t.real) f (suc m) (suc m) holds
          (omega arith) (omega arith)
          (λ j h. leaf_at-append t.real leaf j (omega (arith, h, many))) in
      let levels = deepen safe_hash (length real) t.levels in
      let deep : Deepened levels (suc m) f =
        subst (λ n. Deepened (deepen safe_hash n t.levels) (suc m) f) (sym more)
          (deepen-Deepened t.levels m f long ready) in
      let d = bits (suc m) in
      let set : SetsLeaf safe_hash d (suc m) leaf levels f =
        set_leaf-HoldsAll safe_hash levels d (suc m) leaf f deep.0 deep.1
          (λ j h. leaf_at-append-last t.real leaf j (omega (arith, h, many))) in
      let (levels', runs, held, depth) = set in
      let pads : compute_pad_hashes safe_hash real levels ≡ leaf ∷ pads_above safe_hash d leaf =
        compute_pad_hashes-deep t.real leaf levels d deep.0 in
      let index : length real - 1 ≡ suc m = omega (arith, more) in
      let sets : set_leaf safe_hash (length real - 1) leaf levels
            (compute_pad_hashes safe_hash real levels)
          ≡ ok levels' =
        ap₂ (λ n ps. set_leaf safe_hash n leaf levels ps) index pads ∙ runs in
      (
        record {
          real = real;
          levels = levels';
          pad_hashes = compute_pad_hashes safe_hash real levels;
        },
        rw (not_blank t.levels t.pad_hashes (leaf_at t.real) m holds, sets) refl,
        inr (
          suc m,
          more,
          depth,
          pads ∙ sym (ap (λ h. h ∷ pads_above safe_hash d h) (last_or_zeros-append t.real leaf)),
          subst (λ ps. HoldsAll safe_hash levels' ps f (suc (suc m))) (sym pads)
              (subst (HoldsAll safe_hash levels' (leaf ∷ pads_above safe_hash d leaf) f)
                (omega arith) held),
        ),
        refl,
      )

  -- Appending a leaf to a valid tree gives a valid tree with that leaf at the end, and never raises.
  pub append-IsValid : (leaf : Bytes) (t : Tree) → IsValid t → Appends leaf t
  unfolding IsValid
  append-IsValid leaf t (inl (none_yet, blank)) = append-first leaf t none_yet blank
  append-IsValid leaf t (inr (m, many, long, pads, holds)) = append-later leaf t m many long holds
