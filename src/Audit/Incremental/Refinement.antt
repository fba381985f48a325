-- ===== src/Audit/Incremental/Refinement.antt =====
-- The incremental tree of noema/audit/merkle_proof.py beside the static builder of the same file.
use noema.Audit.Bytes.{Bytes}
use noema.Audit.Chain.{Error, at, last}
use noema.Audit.Proofs.{
  hash_pair, next_pow2, pad_sequence, parents, levels_from, build_levels, top_of, compute_root,
}
use noema.Audit.Incremental.{Level, Tree, node, empty, append, root, root_of, last_or_zeros}
use noema.Audit.Incremental.Positions.{leaf_at, node-Holds, up, summit}
use noema.Audit.Incremental.Depth.{pow_suc, pow_pos, bits, bits-upper, next_pow2-suc}
use noema.Audit.Incremental.Refresh.{HoldsAll}
use noema.Audit.Incremental.Growth.{IsValid, IsValid-empty, Appends, append-IsValid}
use noema.Prelude.{
  ℕ, zero, suc, ◌+◌, ◌-◌, ◌*◌, ◌/◌, ◌^◌, ◌≤◌, ◌<◌, ◌≡◌, refl, sym, ap, ap₂, fun_ext, ◌∙◌, inl, inr,
  arith, List, [], ◌∷◌, ◌++◌, append-nil, append_assoc, length, replicate, lt→ltb, Result, ok,
  ◌>>=◌,
}

-- The first `n` values of a function.
unfoldable pub tabulate : ℕ → (ℕ → Bytes) → List Bytes
tabulate zero f = []
tabulate (suc n) f = f 0 ∷ tabulate n (λ j. f (suc j))

pub length-tabulate : (n : ℕ) (f : ℕ → Bytes) → length (tabulate n f) ≡ n
unfolding tabulate
length-tabulate zero f = refl
length-tabulate (suc n) f = ap suc (length-tabulate n (λ j. f (suc j)))

-- A list with its last leaf repeated behind it is a table of `leaf_at`.
constant : (k : ℕ) (x : Bytes) → replicate k x ≡ tabulate k (λ j. x)
unfolding tabulate
constant zero x = refl
constant (suc k) x = ap (λ xs. x ∷ xs) (constant k x)

padded-tabulate :
    (x : Bytes) (xs : List Bytes) (k : ℕ)
    → (x ∷ xs) ++ replicate k (last_or_zeros (x ∷ xs))
      ≡ tabulate (length (x ∷ xs) + k) (leaf_at (x ∷ xs))
unfolding last_or_zeros tabulate leaf_at
padded-tabulate x [] k =
    let more : suc k ≡ 1 + k = omega arith in
    ap (λ xs. x ∷ xs) (constant k x) ∙ ap (λ n. tabulate n (leaf_at (x ∷ []))) more
padded-tabulate x (y ∷ ys) k =
    let more : suc (suc (length ys) + k) ≡ suc (suc (length ys)) + k = omega arith in
    ap (λ xs. x ∷ xs) (padded-tabulate y ys k) ∙ ap (λ n. tabulate n (leaf_at (x ∷ y ∷ ys))) more

last-last_or_zeros : (x : Bytes) (xs : List Bytes) → last (x ∷ xs) ≡ ok (last_or_zeros (x ∷ xs))
unfolding last last_or_zeros
last-last_or_zeros x [] = refl
last-last_or_zeros x (y ∷ ys) = last-last_or_zeros y ys

module _ (safe_hash : Bytes → Bytes) where
  up-shift :
      (f : ℕ → Bytes) (j : ℕ) → up safe_hash (λ i. f (suc (suc i))) j ≡ up safe_hash f (suc j)
  unfolding up
  up-shift f j =
      let even : suc (suc (2 * j)) ≡ 2 * suc j = omega arith in
      let odd : suc (suc (2 * j + 1)) ≡ 2 * suc j + 1 = omega arith in
      ap₂ (λ a b. hash_pair safe_hash (f a) (f b)) even odd

  pub parents-tabulate :
      (n : ℕ) (f : ℕ → Bytes)
      → parents safe_hash (tabulate (2 * n) f) ≡ ok (tabulate n (up safe_hash f))
  unfolding tabulate parents up
  parents-tabulate zero f = refl
  parents-tabulate (suc n) f =
      let g : ℕ → Bytes = λ j. f (suc (suc j)) in
      let twice : 2 * suc n ≡ suc (suc (2 * n)) = omega arith in
      let shifted : up safe_hash g ≡ (λ j. up safe_hash f (suc j)) = fun_ext (up-shift f) in
      ap (λ m. parents safe_hash (tabulate m f)) twice
      ∙ rw (parents-tabulate n g) refl
      ∙ ap (λ h. ok (hash_pair safe_hash (f 0) (f 1) ∷ tabulate n h)) shifted

  -- The highest node over levels that hold the hashes over `f`.
  tops :
      (l : Level) (ls : List Level) (p : Bytes) (ps : List Bytes) (f : ℕ → Bytes) (count : ℕ)
      → HoldsAll safe_hash (l ∷ ls) (p ∷ ps) f count
      → (top : Level) × (pad : Bytes) × (last (l ∷ ls) ≡ ok top)
        × (at (p ∷ ps) (length ls) ≡ ok pad)
        × (node top pad 0 ≡ summit safe_hash (length ls) f)
  unfolding HoldsAll last at summit
  tops l [] p ps f count (here, above) = (l, p, refl, refl, node-Holds l p f count here 0)
  tops l (l' ∷ ls) p [] f count (here, above) = absurd above
  tops l (l' ∷ ls) p (p' ∷ ps) f count (here, above) =
      tops l' ls p' ps (up safe_hash f) ((count + 1) / 2) (unfold HoldsAll in above)

  -- The static builder's levels over a table of a power of two.
  Tops : ℕ → (ℕ → Bytes) → Result Error (List (List Bytes)) → Type 0
  Tops d f built =
      (level : List Bytes) × (levels : List (List Bytes)) × (built ≡ ok (level ∷ levels))
      × (top_of safe_hash (level ∷ levels) ≡ ok (summit safe_hash d f))

  levels_from-Tops :
      (d fuel : ℕ) (f : ℕ → Bytes)
      → d ≤ fuel
      → Tops d f (levels_from safe_hash fuel (tabulate (2 ^ d) f))
  unfolding Tops levels_from tabulate top_of last at summit
  levels_from-Tops zero zero f h = (f 0 ∷ [], [], refl, refl)
  levels_from-Tops zero (suc fuel) f h = (f 0 ∷ [], [], refl, refl)
  levels_from-Tops (suc d) zero f h = absurd (omega arith)
  levels_from-Tops (suc d) (suc fuel) f h =
      let base = tabulate (2 ^ suc d) f in
      let long : 1 < length base =
        omega (arith, length-tabulate (2 ^ suc d) f, pow_suc d, pow_pos d) in
      let above : parents safe_hash base ≡ ok (tabulate (2 ^ d) (up safe_hash f)) =
        ap (λ n. parents safe_hash (tabulate n f)) (pow_suc d) ∙ parents-tabulate (2 ^ d) f in
      let (level, levels, built, top) =
        levels_from-Tops d fuel (up safe_hash f) (omega (arith, h)) in
      (base, level ∷ levels, rw (levels_from, lt→ltb 1 (length base) long, above, built) refl, top)

  pub pad_sequence-tabulate :
      (x : Bytes) (xs : List Bytes)
      → pad_sequence (x ∷ xs) ≡ ok (tabulate (2 ^ bits (length xs)) (leaf_at (x ∷ xs)))
  unfolding pad_sequence
  pad_sequence-tabulate x xs =
      let d = bits (length xs) in
      let missing : next_pow2 (length (x ∷ xs)) - length (x ∷ xs) ≡ 2 ^ d - suc (length xs) =
        ap (λ k. k - suc (length xs)) (next_pow2-suc (length xs)) in
      let full : length (x ∷ xs) + (2 ^ d - suc (length xs)) ≡ 2 ^ d =
        omega (arith, bits-upper (length xs)) in
      rw (last-last_or_zeros x xs) (
        ap (λ k. ok ((x ∷ xs) ++ replicate k (last_or_zeros (x ∷ xs)))) missing
        ∙ ap ok (padded-tabulate x xs (2 ^ d - suc (length xs)))
        ∙ ap (λ k. ok (tabulate k (leaf_at (x ∷ xs)))) full)

  pub le_pow : (d : ℕ) → d ≤ 2 ^ d
  le_pow zero = omega arith
  le_pow (suc d) = omega (arith, le_pow d, pow_suc d, pow_pos d)

  pub compute_root-summit :
      (x : Bytes) (xs : List Bytes)
      → compute_root safe_hash (x ∷ xs)
        ≡ ok (summit safe_hash (bits (length xs)) (leaf_at (x ∷ xs)))
  unfolding compute_root build_levels Tops
  compute_root-summit x xs =
      let d = bits (length xs) in
      let padded = tabulate (2 ^ d) (leaf_at (x ∷ xs)) in
      let (level, levels, built, top) =
        levels_from-Tops d (length padded) (leaf_at (x ∷ xs))
          (omega (arith, le_pow d, length-tabulate (2 ^ d) (leaf_at (x ∷ xs)))) in
      rw (pad_sequence-tabulate x xs, built) top

  root_levels :
      (levels : List Level) (pads : List Bytes) (d count : ℕ) (f : ℕ → Bytes)
      → length levels ≡ suc d
      → HoldsAll safe_hash levels pads f count
      → (do top ← last levels; pad ← at pads (length levels - 1); ok (node top pad 0))
        ≡ ok (summit safe_hash d f)
  unfolding HoldsAll
  root_levels [] pads d count f long h = absurd (omega (arith, long))
  root_levels (l ∷ ls) [] d count f long h = absurd h
  root_levels (l ∷ ls) (p ∷ ps) d count f long h =
      let (top, pad, is_top, is_pad, same) = tops l ls p ps f count h in
      let index : length (l ∷ ls) - 1 ≡ length ls = omega arith in
      let depth : length ls ≡ d = omega (arith, long) in
      rw (is_top) (
        ap (λ k. at (p ∷ ps) k >>= λ q. ok (node top q 0)) index
        ∙ rw (is_pad) (ap ok same)
        ∙ ap (λ k. ok (summit safe_hash k f)) depth)

  pub root_of-valid :
      (leaves : List Bytes) (t : Tree)
      → t.real ≡ leaves
      → IsValid safe_hash t
      → root_of safe_hash leaves t ≡ compute_root safe_hash leaves
  unfolding IsValid root_of
  root_of-valid [] t same v = unfold compute_root in refl
  root_of-valid (x ∷ xs) t same (inl (none_yet, blank)) =
      absurd (omega (arith, ap length (sym same ∙ none_yet)))
  root_of-valid (x ∷ xs) t same (inr (m, many, long, pads, holds)) =
      let here : m ≡ length xs = omega (arith, many, ap length same) in
      root_levels t.levels t.pad_hashes (bits m) (suc m) (leaf_at t.real) long holds
      ∙ ap₂ (λ k ls. ok (summit safe_hash (bits k) (leaf_at ls))) here same
      ∙ sym (compute_root-summit x xs)

  -- Leaves appended one after the other.
  unfoldable pub append_all : List Bytes → Tree → Result Error Tree
  unfolding append
  append_all [] t = ok t
  append_all (x ∷ xs) t = do t' ← append safe_hash x t; append_all xs t'

  unfoldable pub Built : List Bytes → Tree → Result Error Tree → Type 0
  Built leaves t built =
      (t' : Tree) × (built ≡ ok t') × IsValid safe_hash t' × (t'.real ≡ t.real ++ leaves)

  pub append_all-Built :
      (xs : List Bytes) (t : Tree) → IsValid safe_hash t → Built xs t (append_all xs t)
  unfolding Built append_all Appends
  append_all-Built [] t v = (t, refl, v, sym (append-nil t.real))
  append_all-Built (x ∷ xs) t v =
      let (t₁, first, v₁, real₁) = append-IsValid safe_hash x t v in
      let (t₂, rest, v₂, real₂) = append_all-Built xs t₁ v₁ in
      (
        t₂,
        rw (append_all, first) rest,
        v₂,
        real₂ ∙ ap (λ ys. ys ++ xs) real₁ ∙ append_assoc t.real (x ∷ []) xs,
      )

  -- For any leaves: appending them one by one to an empty tree never raises, and the tree, which refreshes
  -- one path for each, has the root that the static builder computes from the whole list of leaves.
  pub root-append_all :
      (leaves : List Bytes)
      → (t : Tree) × (append_all leaves (empty safe_hash) ≡ ok t)
        × (t.real ≡ leaves)
        × (root safe_hash t ≡ compute_root safe_hash leaves)
  unfolding Built root empty
  root-append_all leaves =
      let (t, built, v, real) =
        append_all-Built leaves (empty safe_hash) (IsValid-empty safe_hash) in
      (t, built, real, root_of-valid t.real t refl v ∙ ap (compute_root safe_hash) real)
