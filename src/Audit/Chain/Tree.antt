-- ===== src/Audit/Chain/Tree.antt =====
-- The Merkle tree over the block hashes of a `MerkleChainAudit` and its inclusion proofs, from
-- noema/audit/merkle.py: `MerkleProof.verify`, `_build_levels`, `root`, `prove_inclusion` and
-- `verify_proof`.
pub mod Complete
pub mod Binding
use noema.Prelude.{
  ℕ, zero, suc, ◌+◌, ◌-◌, ◌/◌, ◌%◌, Bool, true, false, Option, none, some, List, [], ◌∷◌, ◌++◌, map,
  ltb, ◌==◌, if◌then◌else◌, length, get_elem?, Result, ok, ◌>>=◌,
}
use noema.Audit.Bytes.{Bytes, compare_digest}
use noema.Audit.Chain.{Error, Chain, at, last}

pub record MerkleProof : Type 0 where
  pub block_index : ℕ
  pub block_hash : Bytes
  pub siblings : List (Bytes × Bool)

-- `levels[:-1]`
unfoldable pub all_but_last {ℓ} : {A : Type ℓ} → List A → List A
all_but_last [] = []
all_but_last (x ∷ []) = []
all_but_last (x ∷ y ∷ xs) = x ∷ all_but_last (y ∷ xs)

-- The body of the loop of `prove_inclusion`: what one level adds to the proof.
unfoldable pub sibling : ℕ → List Bytes → Result Error (List (Bytes × Bool))
unfolding at
sibling idx level =
    if idx % 2 == 0
    then (if ltb (idx + 1) (length level)
        then (do s ← at level (idx + 1); ok ((s, false) ∷ []))
        else ok [])
    else (do s ← at level (idx - 1); ok ((s, true) ∷ []))

unfoldable pub siblings_from : ℕ → List (List Bytes) → Result Error (List (Bytes × Bool))
siblings_from idx [] = ok []
siblings_from idx (level ∷ levels) = do
  found ← sibling idx level
  rest ← siblings_from (idx / 2) levels
  ok (found ++ rest)

module _ (hash : Bytes → Bytes) where
  -- The loop of `MerkleProof.verify`.
  unfoldable pub climb : Bytes → List (Bytes × Bool) → Bytes
  climb current [] = current
  climb current ((sibling, is_left) ∷ rest) =
      climb (if is_left then hash (sibling ++ current) else hash (current ++ sibling)) rest

  unfoldable pub proof_verify : MerkleProof → Bytes → Bytes → Bool
  proof_verify p root leaf = compare_digest (climb leaf p.siblings) root

  -- One round of the loops of `_build_merkle_tree` and `_build_levels`.
  unfoldable pub next_level : List Bytes → List Bytes
  next_level [] = []
  next_level (x ∷ []) = x ∷ []
  next_level (x ∷ y ∷ level) = hash (x ++ y) ∷ next_level level

  -- The `while` loop, on as much fuel as there are leaves.
  unfoldable pub levels_from : ℕ → List Bytes → List (List Bytes)
  levels_from zero level = level ∷ []
  levels_from (suc fuel) level =
      let rest = levels_from fuel (next_level level) in
      if ltb 1 (length level) then level ∷ rest else level ∷ []

  unfoldable pub leaves : Chain → List Bytes
  leaves c = map (λ b. b.block_hash) c.blocks

  -- The levels, with the chain that remembers them.
  unfoldable pub build_levels : Chain → List (List Bytes) × Chain
  unfolding leaves
  build_levels c = elim c.tree_levels [
    | some levels ↦ (levels, c)
    | none ↦
        let levels = levels_from (length (leaves c)) (leaves c) in
        (levels, record c { tree_levels = some levels })
  ]

  -- `_build_levels()[-1][0]`
  unfoldable pub root : Chain → Result Error (Bytes × Chain)
  root c = do let (levels, c') = build_levels c; top ← last levels; r ← at top 0; ok (r, c')

  unfoldable pub prove_inclusion : ℕ → Chain → Result Error (Option MerkleProof × Chain)
  prove_inclusion block_index c = elim (get_elem? c.blocks block_index) [
    | none ↦ ok (none, c)
    | some block ↦ do
      let (levels, c') = build_levels c
      lowest ← at levels 0
      siblings ←
          (if length lowest == 1 then ok [] else siblings_from block_index (all_but_last levels))
      ok (
        some (record {
          block_index = block_index;
          block_hash = block.block_hash;
          siblings = siblings;
        }),
        c',
      )
  ]

  unfoldable pub verify_proof : MerkleProof → Chain → Result Error (Bool × Chain)
  verify_proof p c = elim (get_elem? c.blocks p.block_index) [
    | none ↦ ok (false, c)
    | some block ↦
        if compare_digest block.block_hash p.block_hash
        then (do (r, c') ← root c; ok (proof_verify p r block.block_hash, c'))
        else ok (false, c)
  ]
