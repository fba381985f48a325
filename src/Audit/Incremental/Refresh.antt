-- ===== src/Audit/Incremental/Refresh.antt =====
-- What `_refresh_path` of noema/audit/merkle_proof.py makes of the levels above a leaf.
use noema.Audit.Bytes.{Bytes}
use noema.Audit.Proofs.{hash_pair}
use noema.Audit.Incremental.{Level, entry, node, put_at, pads_from, refresh_path, set_leaf}
use noema.Audit.Incremental.Positions.{Holds, Ready, node-Holds, put_at-Holds, Holds-Ready, up}
use noema.Audit.Incremental.Depth.{pow_suc}
use noema.Prelude.{
  ℕ, zero, suc, ◌+◌, ◌*◌, ◌/◌, ◌^◌, ◌≤◌, ◌<◌, ◌≡◌, refl, ap, ap₂, ◌⊎◌, inl, inr, arith, List, [],
  ◌∷◌, ◌++◌, length, subst, ok,
}

pub split : (j : ℕ) → (j ≡ 0) ⊎ (1 ≤ j)
split j = ground arith

module _ (safe_hash : Bytes → Bytes) where
  -- The hashes of the padding at the levels above one whose padding is `h`.
  unfoldable pub pads_above : ℕ → Bytes → List Bytes
  pads_above zero h = []
  pads_above (suc n) h = hash_pair safe_hash h h ∷ pads_above n (hash_pair safe_hash h h)

  pub pads_from-above : (n : ℕ) (h : Bytes) → pads_from safe_hash n h ≡ h ∷ pads_above n h
  unfolding pads_from pads_above
  pads_from-above zero h = refl
  pads_from-above (suc n) h = ap (λ ps. h ∷ ps) (pads_from-above n (hash_pair safe_hash h h))

  -- Level after level holds the hashes over `f`, of which `count` are not padding alone.
  unfoldable pub HoldsAll : List Level → List Bytes → (ℕ → Bytes) → ℕ → Type 0
  HoldsAll [] [] f count = Unit
  HoldsAll [] (p ∷ ps) f count = ⊥
  HoldsAll (l ∷ ls) [] f count = ⊥
  HoldsAll (l ∷ ls) (p ∷ ps) f count =
      Holds l p f count × HoldsAll ls ps (up safe_hash f) ((count + 1) / 2)

  unfoldable pub ReadyAll : List Level → (ℕ → Bytes) → ℕ → Type 0
  ReadyAll [] f i = Unit
  ReadyAll (l ∷ ls) f i = Ready l f i × ReadyAll ls (up safe_hash f) (i / 2)

  up-same :
      (f g : ℕ → Bytes) (i : ℕ)
      → ((j : ℕ) → j < i → f j ≡ g j)
      → (j : ℕ) → j < i / 2
      → up safe_hash f j ≡ up safe_hash g j
  unfolding up
  up-same f g i same j h =
      ap₂ (hash_pair safe_hash) (same (2 * j) (omega arith)) (same (2 * j + 1) (omega arith))

  up-pad :
      (f : ℕ → Bytes) (pad : Bytes) (i : ℕ)
      → ((j : ℕ) → i < j → f j ≡ pad)
      → (j : ℕ) → i / 2 < j
      → up safe_hash f j ≡ hash_pair safe_hash pad pad
  unfolding up
  up-pad f pad i same j h =
      ap₂ (hash_pair safe_hash) (same (2 * j) (omega arith)) (same (2 * j + 1) (omega arith))

  pub HoldsAll-ReadyAll :
      (ls : List Level) (ps : List Bytes) (f g : ℕ → Bytes) (count i : ℕ)
      → HoldsAll ls ps f count
      → i ≤ count
      → count ≤ i + 1
      → ((j : ℕ) → j < i → g j ≡ f j)
      → ReadyAll ls g i
  unfolding HoldsAll ReadyAll
  HoldsAll-ReadyAll [] ps f g count i h le ge same = tt
  HoldsAll-ReadyAll (l ∷ ls) [] f g count i h le ge same = absurd h
  HoldsAll-ReadyAll (l ∷ ls) (p ∷ ps) f g count i (here, above) le ge same = (
    Holds-Ready l p f g count i here le ge same,
    HoldsAll-ReadyAll ls ps (up safe_hash f) (up safe_hash g) ((count + 1) / 2) (i / 2) above
        (omega (arith, le)) (omega (arith, ge)) (up-same g f i same),
  )

  -- A level more at the top is ready if the position to set there is the first.
  pub ReadyAll-deeper :
      (ls : List Level) (f : ℕ → Bytes) (i : ℕ)
      → i < 2 ^ length ls
      → ReadyAll ls f i
      → ReadyAll (ls ++ [] ∷ []) f i
  unfolding ReadyAll Ready entry
  ReadyAll-deeper [] f i h r = (
    λ j. elim (split j) [
      | inl z ↦ inr (inl (omega (arith, z, h)))
      | inr more ↦ inr (inr (omega (arith, more, h), refl))
    ],
    tt,
  )
  ReadyAll-deeper (l ∷ ls) f i h (here, above) = (
    here,
    ReadyAll-deeper ls (up safe_hash f) (i / 2) (omega (arith, h, pow_suc (length ls))) above,
  )

  -- Setting one position refreshes what stands above it.
  Refreshes : Level → Bytes → ℕ → List Level → (ℕ → Bytes) → Type 0
  Refreshes below pad i ls f =
      (ls' : List Level) × (refresh_path safe_hash below pad i ls (pads_above (length ls) pad)
        ≡ ok ls')
      × HoldsAll ls' (pads_above (length ls) pad) (up safe_hash f) (i / 2 + 1)
      × (length ls' ≡ length ls)

  refresh_path-HoldsAll :
      (ls : List Level) (below : Level) (pad : Bytes) (i : ℕ) (f : ℕ → Bytes)
      → Holds below pad f (i + 1)
      → ((j : ℕ) → i < j → f j ≡ pad)
      → ReadyAll ls (up safe_hash f) (i / 2)
      → Refreshes below pad i ls f
  unfolding Refreshes refresh_path ReadyAll pads_above HoldsAll
  refresh_path-HoldsAll [] below pad i f h pads r = ([], refl, tt, refl)
  refresh_path-HoldsAll (l ∷ ls) below pad i f h pads (here, above) =
      let k = i / 2 in
      let pad' = hash_pair safe_hash pad pad in
      let parent : hash_pair safe_hash (node below pad (2 * k)) (node below pad (2 * k + 1))
          ≡ up safe_hash f k =
        unfold up in
        ap₂ (hash_pair safe_hash) (node-Holds below pad f (i + 1) h (2 * k))
          (node-Holds below pad f (i + 1) h (2 * k + 1)) in
      let held = put_at-Holds l pad' (up safe_hash f) k here (up-pad f pad i pads) in
      let (ls', runs, holds, long) =
        refresh_path-HoldsAll ls (put_at k (up safe_hash f k) l) pad' k (up safe_hash f) held
          (up-pad f pad i pads) above in
      (
        put_at k (up safe_hash f k) l ∷ ls',
        rw (parent, runs) refl,
        (
          held,
          subst (HoldsAll ls' (pads_above (length ls) pad') (up safe_hash (up safe_hash f)))
              (omega arith) holds,
        ),
        ap suc long,
      )

  unfoldable pub SetsLeaf : ℕ → ℕ → Bytes → List Level → (ℕ → Bytes) → Type 0
  SetsLeaf d i leaf levels f =
      (levels' : List Level) × (set_leaf safe_hash i leaf levels (leaf ∷ pads_above d leaf)
        ≡ ok levels')
      × HoldsAll levels' (leaf ∷ pads_above d leaf) f (i + 1)
      × (length levels' ≡ suc d)

  pub set_leaf-HoldsAll :
      (levels : List Level) (d i : ℕ) (leaf : Bytes) (f : ℕ → Bytes)
      → length levels ≡ suc d
      → ReadyAll levels f i
      → ((j : ℕ) → i ≤ j → f j ≡ leaf)
      → SetsLeaf d i leaf levels f
  unfolding SetsLeaf ReadyAll Refreshes
  set_leaf-HoldsAll [] d i leaf f long r same = absurd (omega (arith, long))
  set_leaf-HoldsAll (l ∷ ls) d i leaf f long (here, above) same =
      let pads : (j : ℕ) → i < j → f j ≡ leaf = λ j h. same j (omega arith) in
      let held : Holds (put_at i leaf l) leaf f (i + 1) =
        subst (λ v. Holds (put_at i v l) leaf f (i + 1)) (same i (omega arith))
          (put_at-Holds l leaf f i here pads) in
      let (ls', runs, holds, same_length) =
        refresh_path-HoldsAll ls (put_at i leaf l) leaf i f held pads above in
      let set : SetsLeaf (length ls) i leaf (l ∷ ls) f = (
        put_at i leaf l ∷ ls',
        unfold set_leaf in rw (runs) refl,
        unfold HoldsAll in
            (
              held,
              subst (HoldsAll ls' (pads_above (length ls) leaf) (up safe_hash f)) (omega arith)
                  holds,
            ),
        ap suc same_length,
      ) in
      subst (λ n. SetsLeaf n i leaf (l ∷ ls) f) (omega (arith, long)) set
