-- ===== src/Audit/Proofs/Unordered.antt =====
-- What the proofs of noema/audit/merkle_proof.py say of positions.
use noema.Audit.Bytes.{Bytes, compare_digest}
use noema.Audit.Proofs.{InclusionProof, less, hash_pair, ascend, verify_inclusion_proof}
use noema.Prelude.{
  ℕ, ◌≡◌, refl, sym, ap, ap₂, ◌∙◌, arith, Bool, true, false, not, Bool-cases, inl, inr, List, [],
  ◌∷◌, ◌++◌, if◌then◌else◌,
}

less-asym : (xs ys : Bytes) → less xs ys ≡ true → less ys xs ≡ false
unfolding less
less-asym xs [] h = absurd cc
less-asym [] (y ∷ ys) h = refl
less-asym (x ∷ xs) (y ∷ ys) h = ground (arith, h, less-asym xs ys)

less-total : (xs ys : Bytes) → less xs ys ≡ false → less ys xs ≡ false → xs ≡ ys
unfolding less
less-total [] [] h h' = refl
less-total (x ∷ xs) [] h h' = absurd cc
less-total [] (y ∷ ys) h h' = absurd cc
less-total (x ∷ xs) (y ∷ ys) h h' = ground (arith, h, h', less-total xs ys)

module _ (safe_hash : Bytes → Bytes) where
  hash_pair_comm : (x y : Bytes) → hash_pair safe_hash x y ≡ hash_pair safe_hash y x
  unfolding hash_pair
  hash_pair_comm x y = elim (Bool-cases (less x y)) [
    | inl l ↦ rw (l, less-asym x y l) refl
    | inr n ↦ elim (Bool-cases (less y x)) [
      | inl l ↦ rw (n, l) refl
      | inr m ↦
          let same = less-total x y n m in
          rw (n, m) (ap₂ (λ a b. safe_hash (a ++ b)) (sym same) same)
    ]
  ]

  -- The path with every direction turned round.
  unfoldable pub turned : List (Bytes × Bool) → List (Bytes × Bool)
  turned [] = []
  turned ((s, is_right) ∷ path) = (s, not is_right) ∷ turned path

  ascend-turned :
      (x : Bytes) (path : List (Bytes × Bool))
      → ascend safe_hash x (turned path) ≡ ascend safe_hash x path
  unfolding ascend turned
  ascend-turned x [] = refl
  ascend-turned x ((s, true) ∷ path) =
      ap (λ h. ascend safe_hash h (turned path)) (hash_pair_comm x s)
      ∙ ascend-turned (hash_pair safe_hash s x) path
  ascend-turned x ((s, false) ∷ path) =
      ap (λ h. ascend safe_hash h (turned path)) (hash_pair_comm s x)
      ∙ ascend-turned (hash_pair safe_hash x s) path

  -- The verdict on a proof stays the same when every direction of its path is turned round and its
  -- index is replaced by any other: the proofs say nothing of the leaf's position.
  pub verify_inclusion_proof-turned :
      {D : Type 0} (serialize : D → Bytes) (proof : InclusionProof) (index : ℕ) (leaf_data : D)
      → verify_inclusion_proof safe_hash serialize
          (record proof { path = turned proof.path; block_index = index })
          leaf_data
        ≡ verify_inclusion_proof safe_hash serialize proof leaf_data
  unfolding verify_inclusion_proof
  verify_inclusion_proof-turned serialize proof index leaf_data =
      ap
        (λ top.
          if compare_digest (safe_hash (serialize leaf_data)) proof.leaf_hash
          then compare_digest top proof.root_hash
          else false)
        (ascend-turned (safe_hash (serialize leaf_data)) proof.path)
