-- ===== src/Audit/Incremental/Tests.antt =====
-- The trees of noema/audit/merkle_proof.py over three leaves.
use noema.Audit.Bytes.{Bytes}
use noema.Audit.Proofs.{
  InclusionProof, compute_root, generate_inclusion_proof, verify_inclusion_proof,
}
use noema.Audit.Incremental.{Tree, empty, root, inclusion_proof}
use noema.Audit.Incremental.Refinement.{append_all, root-append_all}
use noema.Audit.Incremental.Paths.{inclusion_proof-append_all}
use noema.Audit.Incremental.Complete.{generate_inclusion_proof-verify}
use noema.Audit.Examples.{digest}
use noema.Prelude.{◌≡◌, refl, arith, true, List, [], ◌∷◌, ok}

abbrev leaves : List Bytes
leaves = digest (1 ∷ []) ∷ digest (2 ∷ []) ∷ digest (3 ∷ []) ∷ []

root-append_all_example :
    (t : Tree) × (append_all digest leaves (empty digest) ≡ ok t)
    × (t.real ≡ leaves)
    × (root digest t ≡ compute_root digest leaves)
root-append_all_example = root-append_all digest leaves

inclusion_proof-append_all_example :
    (t : Tree) × (append_all digest leaves (empty digest) ≡ ok t)
    × (p : InclusionProof) × (inclusion_proof digest (λ b. b) (3 ∷ []) 2 t ≡ ok p)
    × (generate_inclusion_proof digest (λ b. b) (3 ∷ []) 2 leaves ≡ ok p)
inclusion_proof-append_all_example =
    inclusion_proof-append_all digest (λ b. b) (3 ∷ []) leaves 2 (omega arith)

generate_inclusion_proof-verify_example :
    (p : InclusionProof) × (generate_inclusion_proof digest (λ b. b) (3 ∷ []) 2 leaves ≡ ok p)
    × (verify_inclusion_proof digest (λ b. b) p (3 ∷ []) ≡ true)
generate_inclusion_proof-verify_example =
    generate_inclusion_proof-verify digest (λ b. b) (3 ∷ []) leaves 2 (omega arith) refl
