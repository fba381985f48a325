-- ===== src/Audit/Incremental/Complete.antt =====
-- The proofs that noema/audit/merkle_proof.py generates are accepted by its verification.
use noema.Audit.Bytes.{Bytes, compare_digest, compare_digest_self}
use noema.Audit.Proofs.{
  InclusionProof, hash_pair, generate_inclusion_proof, ascend, verify_inclusion_proof,
}
use noema.Audit.Incremental.{or_pad}
use noema.Audit.Incremental.Positions.{leaf_at, up, summit}
use noema.Audit.Incremental.Depth.{pow_suc, bits, bits-upper}
use noema.Audit.Incremental.Paths.{
  leb-false, siblings, static_path-siblings, build_levels-tables, top_of-tables,
}
use noema.Prelude.{
  ℕ, zero, suc, ◌+◌, ◌-◌, ◌*◌, ◌/◌, ◌%◌, ◌^◌, ◌<◌, ◌≡◌, refl, sym, ap, ap₂, ◌∙◌, inl, inr, arith,
  true, List, [], ◌∷◌, some, length, ◌==◌, ==_iff, Bool-cases, ok, get_elem?,
}

get_elem?-leaf_at : (xs : List Bytes) (i : ℕ) → i < length xs → get_elem? xs i ≡ some (leaf_at xs i)
unfolding leaf_at
get_elem?-leaf_at [] i h = absurd (omega arith)
get_elem?-leaf_at (x ∷ []) zero h = refl
get_elem?-leaf_at (x ∷ []) (suc i) h = absurd (omega arith)
get_elem?-leaf_at (x ∷ y ∷ xs) zero h = refl
get_elem?-leaf_at (x ∷ y ∷ xs) (suc i) h = get_elem?-leaf_at (y ∷ xs) i (omega arith)

module _ (safe_hash : Bytes → Bytes) where
  pair-up :
      (f : ℕ → Bytes) (idx a b : ℕ)
      → a ≡ 2 * (idx / 2)
      → b ≡ 2 * (idx / 2) + 1
      → hash_pair safe_hash (f a) (f b) ≡ up safe_hash f (idx / 2)
  unfolding up
  pair-up f idx a b even odd = ap₂ (λ x y. hash_pair safe_hash (f x) (f y)) even odd

  ascend-siblings :
      (d idx : ℕ) (f : ℕ → Bytes)
      → idx < 2 ^ d
      → ascend safe_hash (f idx) (siblings safe_hash d idx f) ≡ summit safe_hash d f
  unfolding ascend siblings summit
  ascend-siblings zero idx f h = ap f (omega arith)
  ascend-siblings (suc d) idx f h =
      let rest = siblings safe_hash d (idx / 2) (up safe_hash f) in
      let above = ascend-siblings d (idx / 2) (up safe_hash f) (omega (arith, h, pow_suc d)) in
      elim (Bool-cases (idx % 2 == 0)) [
        | inl y ↦
            let even : idx % 2 ≡ 0 = (==_iff (idx % 2) 0).0 y in
            rw (y) (
              ap (λ v. ascend safe_hash v rest)
                (pair-up f idx idx (idx + 1) (omega (arith, even)) (omega (arith, even)))
              ∙ above)
        | inr z ↦
            let odd : idx % 2 ≡ 1 = ground (arith, z) in
            rw (z) (
              ap (λ v. ascend safe_hash v rest)
                (pair-up f idx (idx - 1) idx (omega (arith, odd)) (omega (arith, odd)))
              ∙ above)
      ]

  -- For leaves that hold the hash of a record at an index: the static builder generates a proof for the record
  -- there, and verification accepts it.
  pub generate_inclusion_proof-verify :
      {D : Type 0} (serialize : D → Bytes) (leaf_data : D) (leaves : List Bytes) (i : ℕ)
      → i < length leaves
      → get_elem? leaves i ≡ some (safe_hash (serialize leaf_data))
      → (p : InclusionProof) × (generate_inclusion_proof safe_hash serialize leaf_data i leaves
          ≡ ok p)
        × (verify_inclusion_proof safe_hash serialize p leaf_data ≡ true)
  unfolding generate_inclusion_proof verify_inclusion_proof
  generate_inclusion_proof-verify serialize leaf_data [] i h there = absurd (omega arith)
  generate_inclusion_proof-verify serialize leaf_data (x ∷ xs) i h there =
      let f = leaf_at (x ∷ xs) in
      let d = bits (length xs) in
      let below : i < 2 ^ d = omega (arith, h, bits-upper (length xs)) in
      let leaf = safe_hash (serialize leaf_data) in
      let same : leaf ≡ f i = ap (or_pad []) (sym there ∙ get_elem?-leaf_at (x ∷ xs) i h) in
      (
        record {
          leaf_hash = leaf;
          path = siblings safe_hash d i f;
          root_hash = summit safe_hash d f;
          block_index = i;
        },
        rw
            (
              leb-false (length (x ∷ xs)) i h,
              build_levels-tables safe_hash x xs,
              static_path-siblings safe_hash d i f below,
              top_of-tables safe_hash x xs,
            )
            refl,
        rw (compare_digest_self leaf) (
            ap
              (λ v.
                compare_digest (ascend safe_hash v (siblings safe_hash d i f))
                  (summit safe_hash d f))
              same
            ∙ ap (λ v. compare_digest v (summit safe_hash d f)) (ascend-siblings d i f below)
            ∙ compare_digest_self (summit safe_hash d f)),
      )
