-- ===== src/Audit/Tests.antt =====
-- Runs of the chain of noema/audit/merkle.py on a small codec.
use noema.Prelude.{
  ◌≡◌, ◌≢◌, refl, arith, ◌⊎◌, inl, true, false, none, some, [], ◌∷◌, ◌++◌, replicate, map, ok,
}
use noema.Audit.Bytes.{Bytes, to_bytes, compare_digest}
use noema.Audit.Chain.{
  AuditBlock, Chain, zero_hash, block_data, compute_commitment, compute_block_hash, block_verify,
  last, to_bytes8,
}
use noema.Audit.Chain.Tree.{MerkleProof, root, prove_inclusion, verify_proof, proof_verify, climb}
use noema.Audit.Chain.Tree.Complete.{prove_inclusion-verify_proof}
use noema.Audit.Chain.Tree.Binding.{proof_verify-binding}
use noema.Audit.Chain.Log.{
  genesis_meta, genesis_of, init, append, verify_blocks, verify_after, verify_chain, export_blocks,
  import_blocks, create_audit_proof,
}
use noema.Audit.Chain.Log.Valid.{verify_chain_iff}
use noema.Audit.Chain.Log.Growth.{IsValid, append-IsValid, create_audit_proof-accepted}
use noema.Audit.Chain.Log.Tamper.{Collision, truncated, same_tip-same_blocks}
use noema.Audit.Chain.Log.Boundary.{shift, verify_chain-shift}
use noema.Audit.Chain.Log.RoundTrip.{import_blocks-export_blocks}
use noema.Audit.Examples.{digest, codec, hex_back, decode_back, from_text}

abbrev first : AuditBlock
first =
    let commitment = digest (codec.created "a") in
    record {
      index = 0;
      prev_hash = zero_hash;
      timestamp = 0;
      commitment = commitment;
      metadata = genesis_meta codec;
      block_hash = digest (block_data 0 zero_hash commitment 0 (genesis_meta codec));
    }

abbrev second : AuditBlock
second =
    let commitment = digest (5 ∷ []) in
    record {
      index = 1;
      prev_hash = first.block_hash;
      timestamp = 300000;
      commitment = commitment;
      metadata = 9 ∷ [];
      block_hash = digest (block_data 1 first.block_hash commitment 300000 (9 ∷ []));
    }

abbrev small : Chain
small = record { chain_id = "a"; genesis = first; blocks = first ∷ second ∷ []; tree_levels = none }

small_verifies : verify_chain codec small ≡ ok true
unfolding verify_chain verify_blocks verify_after block_verify compute_block_hash to_bytes8 to_bytes
    digest compare_digest from_text
small_verifies = refl

init-first :
    init codec "a"
    ≡ ok (record { chain_id = "a"; genesis = first; blocks = first ∷ []; tree_levels = none })
unfolding init genesis_of compute_commitment compute_block_hash to_bytes8 to_bytes digest
init-first = refl

small-IsValid : IsValid digest small
small-IsValid = record {
  linked = (verify_chain_iff codec small).0 small_verifies;
  numbered = (refl, (refl, tt));
  fresh = inl refl;
  started = omega arith;
}

append-IsValid_example :
    (b : AuditBlock) × (c' : Chain) × (append codec (4 ∷ []) (7 ∷ []) 500 small ≡ ok (b, c'))
    × IsValid digest c'
    × (c'.blocks ≡ small.blocks ++ b ∷ [])
    × (b.index ≡ 2)
append-IsValid_example =
    append-IsValid codec (4 ∷ []) (7 ∷ []) 500 small small-IsValid (omega arith) (omega arith)

create_audit_proof-accepted_example :
    (b : AuditBlock) × (p : MerkleProof) × (r : Bytes) × (c' : Chain) × (create_audit_proof codec
        "task" "tenant" 500 small
      ≡ ok ((b, some p, r, true), c'))
    × (c'.blocks ≡ small.blocks ++ b ∷ [])
    × (p.block_index ≡ 2)
    × (verify_proof digest p c' ≡ ok (true, c'))
create_audit_proof-accepted_example =
    create_audit_proof-accepted codec "task" "tenant" 500 small small-IsValid (omega arith)
      (omega arith)

prove_inclusion-verify_proof_example :
    (p : MerkleProof) × (r : Bytes) × (c' : Chain) × (prove_inclusion digest 1 small
      ≡ ok (some p, c'))
    × (p.block_index ≡ 1)
    × (c'.blocks ≡ small.blocks)
    × (root digest c' ≡ ok (r, c'))
    × (verify_proof digest p c' ≡ ok (true, c'))
prove_inclusion-verify_proof_example =
    prove_inclusion-verify_proof digest small 1 (inl refl) (omega arith)

abbrev one_step : MerkleProof
one_step = record {
  block_index = 0;
  block_hash = first.block_hash;
  siblings = (second.block_hash, false) ∷ [];
}

one_step_accepted :
    proof_verify digest one_step (digest (first.block_hash ++ second.block_hash)) first.block_hash
    ≡ true
unfolding proof_verify digest to_bytes compare_digest climb from_text
one_step_accepted = refl

proof_verify-binding_example : (first.block_hash ≡ first.block_hash) ⊎ Collision digest
unfolding digest
proof_verify-binding_example =
    proof_verify-binding digest (λ d. refl) one_step one_step
      (digest (first.block_hash ++ second.block_hash)) first.block_hash first.block_hash refl refl
      (refl, tt) (refl, tt) refl one_step_accepted one_step_accepted

same_tip-same_blocks_example :
    (map truncated small.blocks ≡ map truncated small.blocks) ⊎ Collision digest
unfolding last digest
same_tip-same_blocks_example =
    same_tip-same_blocks codec small small small_verifies small_verifies
      ((refl, refl), ((refl, refl), tt)) ((refl, refl), ((refl, refl), tt)) refl refl refl refl

abbrev shorter : Bytes
shorter = 8 ∷ replicate 30 0

verify_chain-shift_example :
    (verify_chain codec (record small { blocks = first ∷ shift shorter second ∷ [] }) ≡ ok true)
    × ((shift shorter second).commitment ≢ second.commitment)
unfolding digest
verify_chain-shift_example =
    verify_chain-shift codec small (first ∷ []) [] second shorter refl refl small_verifies

import_blocks-export_blocks_example : import_blocks codec "a" (export_blocks codec small) ≡ ok small
unfolding genesis_of compute_commitment compute_block_hash to_bytes8 to_bytes digest
import_blocks-export_blocks_example =
    import_blocks-export_blocks codec hex_back small first (second ∷ []) refl refl
      (refl, (refl, tt)) (decode_back _, tt) small_verifies
