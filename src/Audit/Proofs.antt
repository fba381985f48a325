-- ===== src/Audit/Proofs.antt =====
-- The static tree and the inclusion proofs of noema/audit/merkle_proof.py. SHA-256 behind its domain
-- separator is the parameter `safe_hash`, and JSON the parameter `serialize`.
pub mod Unordered
use noema.Audit.Bytes.{Bytes, compare_digest}
use noema.Audit.Chain.{Error, at, last}
use noema.Prelude.{
  ℕ, zero, suc, ◌+◌, ◌-◌, ◌/◌, ◌%◌, ◌^◌, Bool, true, false, List, [], ◌∷◌, ◌++◌, ltb, leb, ◌==◌,
  if◌then◌else◌, length, replicate, Result, ok, raise, ◌>>=◌,
}

-- `left < right` on byte strings.
unfoldable pub less : Bytes → Bytes → Bool
less xs [] = false
less [] (y ∷ ys) = true
less (x ∷ xs) (y ∷ ys) =
    let rest = less xs ys in if ltb x y then true else if ltb y x then false else rest

-- `int.bit_length`, on as much fuel as the number.
unfoldable pub bit_length : ℕ → ℕ → ℕ
bit_length zero n = 0
bit_length (suc fuel) n = let rest = bit_length fuel (n / 2) in if n == 0 then 0 else suc rest

unfoldable pub next_pow2 : ℕ → ℕ
unfolding bit_length
next_pow2 n = if ltb 0 n then 2 ^ bit_length (n - 1) (n - 1) else 1

unfoldable pub pad_sequence : List Bytes → Result Error (List Bytes)
pad_sequence [] = raise Error.value_error
pad_sequence (x ∷ xs) = do
  tip ← last (x ∷ xs)
  let n = length (x ∷ xs)
  ok ((x ∷ xs) ++ replicate (next_pow2 n - n) tip)

-- `_serialize` stands in `verify_inclusion_proof` and `generate_inclusion_proof`.
pub record InclusionProof : Type 0 where
  pub leaf_hash : Bytes
  pub path : List (Bytes × Bool)
  pub root_hash : Bytes
  pub block_index : ℕ

module _ (safe_hash : Bytes → Bytes) where
  unfoldable pub hash_pair : Bytes → Bytes → Bytes
  hash_pair left right =
      if less left right then safe_hash (left ++ right) else safe_hash (right ++ left)

  -- One round of `_build_levels`; an odd level raises.
  unfoldable pub parents : List Bytes → Result Error (List Bytes)
  parents [] = ok []
  parents (x ∷ []) = raise Error.index_error
  parents (x ∷ y ∷ level) = do rest ← parents level; ok (hash_pair x y ∷ rest)

  -- The `while` loop, on as much fuel as there are leaves.
  unfoldable pub levels_from : ℕ → List Bytes → Result Error (List (List Bytes))
  levels_from zero level = ok (level ∷ [])
  levels_from (suc fuel) level =
      let more = (do above ← parents level; rest ← levels_from fuel above; ok (level ∷ rest)) in
      if ltb 1 (length level) then more else ok (level ∷ [])

  unfoldable pub build_levels : List Bytes → Result Error (List (List Bytes))
  build_levels leaves = do padded ← pad_sequence leaves; levels_from (length padded) padded

  unfoldable pub top_of : List (List Bytes) → Result Error Bytes
  top_of levels = do top ← last levels; at top 0

  unfoldable pub compute_root : List Bytes → Result Error Bytes
  unfolding top_of
  compute_root [] = ok (replicate 32 0)
  compute_root (x ∷ xs) = do levels ← build_levels (x ∷ xs); top_of levels

  -- The loop over `levels[:-1]`.
  unfoldable pub path_from : ℕ → List (List Bytes) → Result Error (List (Bytes × Bool))
  path_from idx [] = ok []
  path_from idx (level ∷ []) = ok []
  path_from idx (level ∷ next ∷ levels) = do
    step ←
        (if idx % 2 == 0
          then (do s ← at level (idx + 1); ok (s, false))
          else (do s ← at level (idx - 1); ok (s, true)))
    rest ← path_from (idx / 2) (next ∷ levels)
    ok (step ∷ rest)

  unfoldable pub generate_inclusion_proof :
      {D : Type 0} → (D → Bytes) → D → ℕ → List Bytes → Result Error InclusionProof
  generate_inclusion_proof serialize leaf_data leaf_index [] = raise Error.value_error
  generate_inclusion_proof serialize leaf_data leaf_index (x ∷ xs) =
      if leb (length (x ∷ xs)) leaf_index then raise Error.index_error else (do
        levels ← build_levels (x ∷ xs)
        path ← path_from leaf_index levels
        top ← top_of levels
        ok (record {
          leaf_hash = safe_hash (serialize leaf_data);
          path = path;
          root_hash = top;
          block_index = leaf_index;
        }))

  -- The loop of `verify_inclusion_proof`.
  unfoldable pub ascend : Bytes → List (Bytes × Bool) → Bytes
  ascend current [] = current
  ascend current ((sibling, is_right) ∷ path) =
      ascend (if is_right then hash_pair sibling current else hash_pair current sibling) path

  unfoldable pub verify_inclusion_proof : {D : Type 0} → (D → Bytes) → InclusionProof → D → Bool
  verify_inclusion_proof serialize proof leaf_data =
      let current = safe_hash (serialize leaf_data) in
      if compare_digest current proof.leaf_hash
      then compare_digest (ascend current proof.path) proof.root_hash
      else false
