-- ===== src/Audit/Chain/Log/Growth.antt =====
-- The operations that make and extend a chain keep it valid.
use Prim.Native.String.{String}
use noema.Prelude.{
  ℕ, suc, ◌+◌, ◌<◌, ◌^◌, ◌≡◌, refl, sym, ap, subst, ◌∙◌, true, none, some, List, [], ◌∷◌, ◌++◌,
  lt→ltb, length, length-append, ok, arith, inl,
}
use noema.Audit.Bytes.{Bytes, compare_digest_self, to_bytes}
use noema.Audit.Chain.{
  AuditBlock, Chain, micros, last, zero_hash, block_data, compute_commitment, compute_block_hash,
  to_bytes8, block_verify,
}
use noema.Audit.Chain.Tree.{MerkleProof, verify_proof}
use noema.Audit.Chain.Tree.Complete.{IsFresh, prove_inclusion-verify_proof}
use noema.Audit.Chain.Log.{Codec, genesis_meta, genesis_of, init, append, create_audit_proof}
use noema.Audit.Chain.Log.Valid.{
  IsSound, IsLinked, IsNumberedFrom, verify_chain_iff, linked-append, numbered-append,
}

pub record IsValid (hash : Bytes → Bytes) (c : Chain) : Type 0 where
  pub linked : IsLinked hash c.blocks
  pub numbered : IsNumberedFrom 0 c.blocks
  pub fresh : IsFresh hash c
  pub started : 0 < length c.blocks

to_bytes8_lem : (n : ℕ) → n < 256 ^ 8 → to_bytes8 n ≡ ok (to_bytes 8 n)
unfolding to_bytes8
to_bytes8_lem n h = rw (lt→ltb n (256 ^ 8) h)

pub hashed :
    (hash : Bytes → Bytes) (index : ℕ) (prev commitment : Bytes) (now : ℕ) (metadata : Bytes)
    → index < 256 ^ 8
    → micros now < 256 ^ 8
    → compute_block_hash hash index prev commitment now metadata
      ≡ ok (hash (block_data index prev commitment now metadata))
unfolding compute_block_hash
hashed hash index prev commitment now metadata i t =
    rw (to_bytes8_lem index i, to_bytes8_lem (micros now) t)

some_tip : (bs : List AuditBlock) → 0 < length bs → (tip : AuditBlock) × (last bs ≡ ok tip)
unfolding last
some_tip [] h = absurd (omega arith)
some_tip (x ∷ []) h = (x, refl)
some_tip (x ∷ y ∷ bs) h = some_tip (y ∷ bs) (omega arith)

pub IsSound-of_hash :
    (hash : Bytes → Bytes) (b : AuditBlock)
    → compute_block_hash hash b.index b.prev_hash b.commitment b.timestamp b.metadata
      ≡ ok b.block_hash
    → IsSound hash b
unfolding block_verify
IsSound-of_hash hash b h = rw (h, compare_digest_self)

tip_index :
    (n : ℕ) (bs : List AuditBlock) (tip : AuditBlock)
    → IsNumberedFrom n bs
    → last bs ≡ ok tip
    → tip.index + 1 ≡ n + length bs
unfolding last
tip_index n [] tip h t = cc
tip_index n (x ∷ []) tip h t = ground arith
tip_index n (x ∷ y ∷ bs) tip h t = omega (arith, tip_index (suc n) (y ∷ bs) tip h.1 t)

module _ {P : Type 0} (codec : Codec P) where
  open codec use {hash, serialize, created, completed, solution_generation}

  extend :
      (bs : List AuditBlock) (tip b : AuditBlock)
      → IsLinked hash bs
      → IsNumberedFrom 0 bs
      → last bs ≡ ok tip
      → IsSound hash b
      → b.prev_hash ≡ tip.block_hash
      → b.index ≡ tip.index + 1
      → IsLinked hash (bs ++ b ∷ []) × IsNumberedFrom 0 (bs ++ b ∷ []) × (tip.index + 1 ≡ length bs)
  unfolding last
  extend [] tip b l n t s e i = cc
  extend (x ∷ bs) tip b l n t s e i =
      let (nums, at_end) = numbered-append 0 x bs tip b n t i in
      ((l.0, linked-append codec x bs tip b l.1 t s e), nums, omega arith)

  -- A new chain is valid and holds one block.
  pub init-IsValid :
      (chain_id : String)
      → (c : Chain) × (init codec chain_id ≡ ok c) × IsValid hash c × (length c.blocks ≡ 1)
  unfolding init genesis_of
  init-IsValid chain_id =
      let commitment = compute_commitment hash serialize (created chain_id) none in
      let made =
        hashed hash 0 zero_hash commitment 0 (genesis_meta codec) (omega arith) (omega arith) in
      let genesis : AuditBlock = record {
        index = 0;
        prev_hash = zero_hash;
        timestamp = 0;
        commitment = commitment;
        metadata = genesis_meta codec;
        block_hash = hash (block_data 0 zero_hash commitment 0 (genesis_meta codec));
      } in
      (
        record {
          chain_id = chain_id;
          genesis = genesis;
          blocks = genesis ∷ [];
          tree_levels = none;
        },
        rw made,
        record {
          linked = (IsSound-of_hash hash genesis made, tt);
          numbered = (refl, tt);
          fresh = inl refl;
          started = omega arith;
        },
        refl,
      )

  -- On a valid chain of fewer than 2^64 blocks, at a time below 2^64 microseconds, `append`
  -- succeeds: the chain stays valid and grows at its end by the block that is returned, whose index
  -- is its position.
  pub append-IsValid :
      (payload metadata : P) (now : ℕ) (c : Chain)
      → IsValid hash c
      → length c.blocks < 256 ^ 8
      → micros now < 256 ^ 8
      → (b : AuditBlock) × (c' : Chain) × (append codec payload metadata now c ≡ ok (b, c'))
        × IsValid hash c'
        × (c'.blocks ≡ c.blocks ++ b ∷ [])
        × (b.index ≡ length c.blocks)
  unfolding append
  append-IsValid payload metadata now c v small early =
      let (tip, tips) = some_tip c.blocks v.started in
      let commitment = compute_commitment hash serialize payload none in
      let next : AuditBlock = record {
        index = tip.index + 1;
        prev_hash = tip.block_hash;
        timestamp = now;
        commitment = commitment;
        metadata = serialize metadata;
        block_hash =
            hash (block_data (tip.index + 1) tip.block_hash commitment now (serialize metadata));
      } in
      let position = tip_index 0 c.blocks tip v.numbered tips in
      let made =
        hashed hash (tip.index + 1) tip.block_hash commitment now (serialize metadata) (omega arith)
          early in
      let sound = IsSound-of_hash hash next made in
      let (linked, numbered, at_end) =
        extend c.blocks tip next v.linked v.numbered tips sound refl refl in
      (
        next,
        record c { blocks = c.blocks ++ next ∷ []; tree_levels = none },
        rw (tips, made, sound),
        record {
          linked = linked;
          numbered = numbered;
          fresh = inl refl;
          started = omega (arith, length-append c.blocks (next ∷ []));
        },
        refl,
        at_end,
      )

  -- On a valid chain of fewer than 2^64 blocks, at a time below 2^64 microseconds,
  -- `create_audit_proof` succeeds: the verdict that it reports is true, the block that it reports
  -- is the chain's new last one, and the proof that it reports is there, is for the position of that
  -- block, and is accepted by the chain.
  pub create_audit_proof-accepted :
      (task_id tenant_id : String) (now : ℕ) (c : Chain)
      → IsValid hash c
      → length c.blocks < 256 ^ 8
      → micros now < 256 ^ 8
      → (b : AuditBlock) × (p : MerkleProof) × (r : Bytes) × (c' : Chain) × (create_audit_proof
            codec task_id tenant_id now c
          ≡ ok ((b, some p, r, true), c'))
        × (c'.blocks ≡ c.blocks ++ b ∷ [])
        × (p.block_index ≡ length c.blocks)
        × (verify_proof hash p c' ≡ ok (true, c'))
  unfolding create_audit_proof
  create_audit_proof-accepted task_id tenant_id now c v small early =
      let (b, c₁, appended, v₁, grown, position) =
        append-IsValid (completed task_id tenant_id) solution_generation now c v small early in
      let longer : length c₁.blocks ≡ length c.blocks + 1 =
        ap length grown ∙ length-append c.blocks (b ∷ []) in
      let (p, r, c₂, made, index, kept, rooted, accepted) =
        prove_inclusion-verify_proof hash c₁ b.index v₁.fresh (omega arith) in
      let still : IsLinked hash c₂.blocks = subst (IsLinked hash) (sym kept) v₁.linked in
      let verified = (verify_chain_iff codec c₂).1 still in
      (b, p, r, c₂, rw (appended, made, rooted, verified), kept ∙ grown, index ∙ position, accepted)
