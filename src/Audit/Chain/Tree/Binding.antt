-- ===== src/Audit/Chain/Tree/Binding.antt =====
-- What an accepted path says of the leaf that it starts from.
use noema.Prelude.{
  ◌≡◌, sym, ◌∙◌, Bool, true, false, List, [], ◌∷◌, ◌++◌, length, ◌⊎◌, inl, inr, if◌then◌else◌,
}
use noema.Audit.Bytes.{Bytes, compare_digest-eq, append-injective}
use noema.Audit.Chain.Tree.{MerkleProof, climb, proof_verify}
use noema.Audit.Chain.Log.Tamper.{Collision, same_or_Collision}

-- The sides on which the siblings of a path stand.
abbrev pub directions : List (Bytes × Bool) → List Bool
directions [] = []
directions (s ∷ ss) = s.1 ∷ directions ss

abbrev pub AllDigest : List (Bytes × Bool) → Type 0
AllDigest [] = Unit
AllDigest (s ∷ ss) = (length s.0 ≡ 32) × AllDigest ss

module _ (hash : Bytes → Bytes) (digest_size : (d : Bytes) → length (hash d) ≡ 32) where
  one_up : Bytes → Bool → Bytes → Bytes
  one_up s is_left x = if is_left then hash (s ++ x) else hash (x ++ s)

  one_up-injective :
      (x y s t : Bytes) (is_left : Bool)
      → length x ≡ 32
      → length y ≡ 32
      → length s ≡ 32
      → length t ≡ 32
      → one_up s is_left x ≡ one_up t is_left y
      → (x ≡ y) ⊎ Collision hash
  unfolding one_up
  one_up-injective x y s t true lx ly ls lt h = elim (same_or_Collision hash (s ++ x) (t ++ y) h) [
    | inl e ↦ inl (append-injective s t (ls ∙ sym lt) e).1
    | inr c ↦ inr c
  ]
  one_up-injective x y s t false lx ly ls lt h = elim (same_or_Collision hash (x ++ s) (y ++ t) h) [
    | inl e ↦ inl (append-injective x y (lx ∙ sym ly) e).0
    | inr c ↦ inr c
  ]

  climb-injective :
      (x y : Bytes) (ss ts : List (Bytes × Bool))
      → length x ≡ 32
      → length y ≡ 32
      → AllDigest ss
      → AllDigest ts
      → directions ss ≡ directions ts
      → climb hash x ss ≡ climb hash y ts
      → (x ≡ y) ⊎ Collision hash
  unfolding climb one_up
  climb-injective x y [] [] lx ly ds dt e h = inl h
  climb-injective x y [] (t ∷ ts) lx ly ds dt e h = cc
  climb-injective x y (s ∷ ss) [] lx ly ds dt e h = cc
  climb-injective x y ((s, true) ∷ ss) ((t, false) ∷ ts) lx ly ds dt e h = cc
  climb-injective x y ((s, false) ∷ ss) ((t, true) ∷ ts) lx ly ds dt e h = cc
  climb-injective x y ((s, true) ∷ ss) ((t, true) ∷ ts) lx ly ds dt e h =
      elim (climb-injective (hash (s ++ x)) (hash (t ++ y)) ss ts (digest_size (s ++ x))
        (digest_size (t ++ y)) ds.1 dt.1 (cc) h) [
          | inl up ↦ one_up-injective x y s t true lx ly ds.0 dt.0 up
          | inr c ↦ inr c
        ]
  climb-injective x y ((s, false) ∷ ss) ((t, false) ∷ ts) lx ly ds dt e h =
      elim (climb-injective (hash (x ++ s)) (hash (y ++ t)) ss ts (digest_size (x ++ s))
        (digest_size (y ++ t)) ds.1 dt.1 (cc) h) [
          | inl up ↦ one_up-injective x y s t false lx ly ds.0 dt.0 up
          | inr c ↦ inr c
        ]

  -- With a digest of 32 bytes: two proofs that turn the same ways, whose siblings have 32 bytes
  -- each, and that one root accepts for two leaves of 32 bytes, are for one leaf, or else two inputs
  -- are at hand that the digest does not tell apart.
  pub proof_verify-binding :
      (p q : MerkleProof) (root x y : Bytes)
      → length x ≡ 32
      → length y ≡ 32
      → AllDigest p.siblings
      → AllDigest q.siblings
      → directions p.siblings ≡ directions q.siblings
      → proof_verify hash p root x ≡ true
      → proof_verify hash q root y ≡ true
      → (x ≡ y) ⊎ Collision hash
  unfolding proof_verify
  proof_verify-binding p q root x y lx ly dp dq e a b =
      climb-injective x y p.siblings q.siblings lx ly dp dq e (
        compare_digest-eq (climb hash x p.siblings) root a
        ∙ sym (compare_digest-eq (climb hash y q.siblings) root b))
