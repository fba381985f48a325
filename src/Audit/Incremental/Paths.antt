-- ===== src/Audit/Incremental/Paths.antt =====
-- The inclusion proofs of the incremental tree of noema/audit/merkle_proof.py beside those of the static
-- builder of the same file.
use noema.Audit.Bytes.{Bytes}
use noema.Audit.Chain.{Error, at}
use noema.Audit.Proofs.{
  InclusionProof, levels_from, parents, build_levels, top_of, compute_root,
  generate_inclusion_proof, path_from as static_path_from,
}
use noema.Audit.Incremental.{Level, Tree, empty, root, path_from, proof, inclusion_proof}
use noema.Audit.Incremental.Positions.{leaf_at, node-Holds, up, summit}
use noema.Audit.Incremental.Depth.{pow_suc, pow_pos, bits, bits-upper}
use noema.Audit.Incremental.Refresh.{HoldsAll}
use noema.Audit.Incremental.Growth.{IsValid, IsValid-empty}
use noema.Audit.Incremental.Refinement.{
  tabulate, length-tabulate, parents-tabulate, pad_sequence-tabulate, le_pow, append_all, Built,
  append_all-Built, root_of-valid, compute_root-summit,
}
use noema.Prelude.{
  ℕ, zero, suc, ◌+◌, ◌-◌, ◌*◌, ◌/◌, ◌%◌, ◌^◌, ◌≤◌, ◌<◌, ◌≡◌, refl, sym, ap, ap₂, ◌∙◌, inl, inr,
  arith, Bool, true, false, List, [], ◌∷◌, length, ltb, leb, ◌==◌, ==_iff, lt→ltb, Bool-cases,
  if◌then◌else◌, Result, ok, ◌>>=◌,
}

at-tabulate : (n : ℕ) (f : ℕ → Bytes) (j : ℕ) → j < n → at (tabulate n f) j ≡ ok (f j)
unfolding at tabulate
at-tabulate zero f j h = absurd (omega arith)
at-tabulate (suc n) f zero h = refl
at-tabulate (suc n) f (suc j) h = at-tabulate n (λ i. f (suc i)) j (omega arith)

pub leb-false : (a b : ℕ) → b < a → leb a b ≡ false
leb-false a b h = ground arith

module _ (safe_hash : Bytes → Bytes) where
  -- The levels of a complete tree over the values of `f`.
  unfoldable pub tables : ℕ → (ℕ → Bytes) → List (List Bytes)
  tables zero f = tabulate 1 f ∷ []
  tables (suc d) f = tabulate (2 ^ suc d) f ∷ tables d (up safe_hash f)

  levels_from-tables :
      (d fuel : ℕ) (f : ℕ → Bytes)
      → d ≤ fuel
      → levels_from safe_hash fuel (tabulate (2 ^ d) f) ≡ ok (tables d f)
  unfolding levels_from tables tabulate
  levels_from-tables zero zero f h = refl
  levels_from-tables zero (suc fuel) f h = refl
  levels_from-tables (suc d) zero f h = absurd (omega arith)
  levels_from-tables (suc d) (suc fuel) f h =
      let base = tabulate (2 ^ suc d) f in
      let long : ltb 1 (length base) ≡ true =
        lt→ltb 1 (length base)
          (omega (arith, length-tabulate (2 ^ suc d) f, pow_suc d, pow_pos d)) in
      let above =
        ap (λ n. parents safe_hash (tabulate n f)) (pow_suc d)
        ∙ parents-tabulate safe_hash (2 ^ d) f in
      rw (levels_from, long, above, levels_from-tables d fuel (up safe_hash f) (omega (arith, h)))
        refl

  -- The siblings on the way up from a position through `d` levels, with their sides.
  unfoldable pub siblings : ℕ → ℕ → (ℕ → Bytes) → List (Bytes × Bool)
  siblings zero idx f = []
  siblings (suc d) idx f =
      (if idx % 2 == 0 then f (idx + 1) else f (idx - 1), if idx % 2 == 0 then false else true)
      ∷ siblings d (idx / 2) (up safe_hash f)

  -- One step of the static loop, since there is a level above.
  sibling_in : List Bytes → ℕ → Result Error (Bytes × Bool)
  sibling_in level idx =
      if idx % 2 == 0
      then (do s ← at level (idx + 1); ok (s, false))
      else (do s ← at level (idx - 1); ok (s, true))

  static_path-step :
      (d idx : ℕ) (level : List Bytes) (g : ℕ → Bytes)
      → static_path_from safe_hash idx (level ∷ tables d g) ≡ (do
        step ← sibling_in level idx
        rest ← static_path_from safe_hash (idx / 2) (tables d g)
        ok (step ∷ rest))
  unfolding static_path_from tables sibling_in
  static_path-step zero idx level g = refl
  static_path-step (suc d) idx level g = refl

  sibling_in-tabulate :
      (n idx : ℕ) (f : ℕ → Bytes)
      → idx < 2 * n
      → sibling_in (tabulate (2 * n) f) idx
        ≡ ok (
          if idx % 2 == 0 then f (idx + 1) else f (idx - 1),
          if idx % 2 == 0 then false else true,
        )
  unfolding sibling_in
  sibling_in-tabulate n idx f h = elim (Bool-cases (idx % 2 == 0)) [
    | inl y ↦
        let even : idx % 2 ≡ 0 = (==_iff (idx % 2) 0).0 y in
        rw (y, at-tabulate (2 * n) f (idx + 1) (omega (arith, even, h))) refl
    | inr z ↦ rw (z, at-tabulate (2 * n) f (idx - 1) (omega (arith, h))) refl
  ]

  pub static_path-siblings :
      (d idx : ℕ) (f : ℕ → Bytes)
      → idx < 2 ^ d
      → static_path_from safe_hash idx (tables d f) ≡ ok (siblings d idx f)
  unfolding tables siblings
  static_path-siblings zero idx f h = unfold static_path_from in refl
  static_path-siblings (suc d) idx f h =
      let level : sibling_in (tabulate (2 ^ suc d) f) idx ≡ _ =
        ap (λ n. sibling_in (tabulate n f) idx) (pow_suc d)
        ∙ sibling_in-tabulate (2 ^ d) idx f (omega (arith, h, pow_suc d)) in
      static_path-step d idx (tabulate (2 ^ suc d) f) (up safe_hash f)
      ∙ rw (level, static_path-siblings d (idx / 2) (up safe_hash f) (omega (arith, h, pow_suc d)))
          refl

  path_from-siblings :
      (l : Level) (ls : List Level) (p : Bytes) (ps : List Bytes) (idx count : ℕ) (f : ℕ → Bytes)
      → HoldsAll safe_hash (l ∷ ls) (p ∷ ps) f count
      → path_from safe_hash idx (l ∷ ls) (p ∷ ps) ≡ ok (siblings (length ls) idx f)
  unfolding path_from siblings HoldsAll
  path_from-siblings l [] p ps idx count f (here, above) = refl
  path_from-siblings l (l' ∷ ls) p [] idx count f (here, above) = absurd above
  path_from-siblings l (l' ∷ ls) p (p' ∷ ps) idx count f (here, above) =
      rw
        (
          path_from-siblings l' ls p' ps (idx / 2) ((count + 1) / 2) (up safe_hash f) above,
          node-Holds l p f count here (idx + 1),
          node-Holds l p f count here (idx - 1),
        )
        refl

  path_from-levels :
      (levels : List Level) (pads : List Bytes) (d idx count : ℕ) (f : ℕ → Bytes)
      → length levels ≡ suc d
      → HoldsAll safe_hash levels pads f count
      → path_from safe_hash idx levels pads ≡ ok (siblings d idx f)
  unfolding HoldsAll
  path_from-levels [] pads d idx count f long h = absurd (omega (arith, long))
  path_from-levels (l ∷ ls) [] d idx count f long h = absurd h
  path_from-levels (l ∷ ls) (p ∷ ps) d idx count f long h =
      let depth : length ls ≡ d = omega (arith, long) in
      path_from-siblings l ls p ps idx count f h ∙ ap (λ n. ok (siblings n idx f)) depth

  pub build_levels-tables :
      (x : Bytes) (xs : List Bytes)
      → build_levels safe_hash (x ∷ xs) ≡ ok (tables (bits (length xs)) (leaf_at (x ∷ xs)))
  unfolding build_levels
  build_levels-tables x xs =
      let d = bits (length xs) in
      let f = leaf_at (x ∷ xs) in
      rw (pad_sequence-tabulate safe_hash x xs) (
        levels_from-tables d (length (tabulate (2 ^ d) f)) f
          (omega (arith, le_pow safe_hash d, length-tabulate (2 ^ d) f)))

  pub top_of-tables :
      (x : Bytes) (xs : List Bytes)
      → top_of safe_hash (tables (bits (length xs)) (leaf_at (x ∷ xs)))
        ≡ ok (summit safe_hash (bits (length xs)) (leaf_at (x ∷ xs)))
  top_of-tables x xs =
      ap (λ r. r >>= top_of safe_hash) (sym (build_levels-tables x xs))
      ∙ (unfold compute_root in compute_root-summit safe_hash x xs)

  module _ {D : Type 0} (serialize : D → Bytes) (leaf_data : D) where
    -- Both proofs, of a tree with these leaves.
    SameProof : List Bytes → ℕ → Tree → Type 0
    SameProof leaves i t =
        (p : InclusionProof) × (inclusion_proof safe_hash serialize leaf_data i t ≡ ok p)
        × (generate_inclusion_proof safe_hash serialize leaf_data i leaves ≡ ok p)

    inclusion_proof-valid :
        (leaves : List Bytes) (t : Tree) (i : ℕ)
        → t.real ≡ leaves
        → IsValid safe_hash t
        → i < length leaves
        → SameProof leaves i t
    unfolding SameProof inclusion_proof proof generate_inclusion_proof IsValid root
    inclusion_proof-valid [] t i same v h = absurd (omega arith)
    inclusion_proof-valid (x ∷ xs) t i same (inl (none_yet, blank)) h =
        absurd (omega (arith, ap length (sym same ∙ none_yet)))
    inclusion_proof-valid (x ∷ xs) t i same (inr (m, many, long, pads, holds)) h =
        let f = leaf_at (x ∷ xs) in
        let d = bits (length xs) in
        let here : m ≡ length xs = omega (arith, many, ap length same) in
        let inside : ltb i (length t.real) ≡ true =
          lt→ltb i (length t.real) (omega (arith, h, ap length same)) in
        let path : path_from safe_hash i t.levels t.pad_hashes ≡ ok (siblings d i f) =
          path_from-levels t.levels t.pad_hashes (bits m) i (suc m) (leaf_at t.real) long holds
          ∙ ap₂ (λ k ls. ok (siblings (bits k) i (leaf_at ls))) here same in
        let top : root safe_hash t ≡ ok (summit safe_hash d f) =
          root_of-valid safe_hash t.real t refl (inr (m, many, long, pads, holds))
          ∙ ap (compute_root safe_hash) same
          ∙ compute_root-summit safe_hash x xs in
        let below : i < 2 ^ d = omega (arith, h, bits-upper (length xs)) in
        (
          record {
            leaf_hash = safe_hash (serialize leaf_data);
            path = siblings d i f;
            root_hash = summit safe_hash d f;
            block_index = i;
          },
          rw (inside, path, top) refl,
          rw
              (
                leb-false (length (x ∷ xs)) i h,
                build_levels-tables x xs,
                static_path-siblings d i f below,
                top_of-tables x xs,
              )
              refl,
        )

    -- For any leaves and any index below their number: the tree to which the leaves were appended one by one
    -- gives the same inclusion proof, with the same path, root and leaf hash, as the static builder from
    -- the whole list; neither raises.
    pub inclusion_proof-append_all :
        (leaves : List Bytes) (i : ℕ)
        → i < length leaves
        → (t : Tree) × (append_all safe_hash leaves (empty safe_hash) ≡ ok t)
          × (p : InclusionProof) × (inclusion_proof safe_hash serialize leaf_data i t ≡ ok p)
          × (generate_inclusion_proof safe_hash serialize leaf_data i leaves ≡ ok p)
    unfolding Built empty SameProof
    inclusion_proof-append_all leaves i h =
        let (t, built, v, real) =
          append_all-Built safe_hash leaves (empty safe_hash) (IsValid-empty safe_hash) in
        let (p, incremental, static) = inclusion_proof-valid leaves t i real v h in
        (t, built, p, incremental, static)
