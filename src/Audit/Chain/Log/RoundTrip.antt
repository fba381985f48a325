-- ===== src/Audit/Chain/Log/RoundTrip.antt =====
-- Export and import of a chain.
use noema.Prelude.{
  ℕ, suc, ◌≡◌, refl, sym, ap, subst, ◌∙◌, true, false, none, some, List, [], ◌∷◌, map, ok, ◌>>=◌,
  arith, ◌==◌,
}
use noema.Audit.Bytes.{Bytes}
use noema.Audit.Chain.{AuditBlock, Chain}
use noema.Audit.Chain.Log.{
  Codec, BlockDict, get, genesis_of, init, verify_blocks, verify_chain, export_block, export_blocks,
  parse_hex, import_block, import_each, import_blocks,
}
use noema.Audit.Chain.Log.Valid.{IsNumberedFrom}

module _ {P : Type 0} (codec : Codec P)
    (hex_back : (b : Bytes) → codec.from_hex (codec.hex b) ≡ some b) where
  -- The metadata of every block is the encoding of a text.
  abbrev pub IsText : List AuditBlock → Type 0
  IsText [] = Unit
  IsText (b ∷ bs) = (codec.encode (codec.decode b.metadata) ≡ b.metadata) × IsText bs

  parse_hex-hex : (b : Bytes) → parse_hex codec (codec.hex b) ≡ ok b
  unfolding parse_hex
  parse_hex-hex b = rw (hex_back b, parse_hex)

  import_block-export_block :
      (b : AuditBlock)
      → codec.encode (codec.decode b.metadata) ≡ b.metadata
      → import_block codec (export_block codec b) ≡ ok b
  unfolding import_block export_block get
  import_block-export_block b t =
      rw (parse_hex-hex b.prev_hash, parse_hex-hex b.commitment, parse_hex-hex b.block_hash, t)

  import_each-genesis :
      (b : AuditBlock) (ds : List BlockDict)
      → b.index ≡ 0
      → import_each codec (export_block codec b ∷ ds) ≡ import_each codec ds
  unfolding import_each export_block
  import_each-genesis b ds z = rw z

  import_each-cons :
      (b : AuditBlock) (ds : List BlockDict) {n : ℕ}
      → b.index ≡ suc n
      → import_each codec (export_block codec b ∷ ds) ≡ (
          import_block codec (export_block codec b) >>= λ x.
          import_each codec ds >>= λ xs. ok (x ∷ xs))
  unfolding import_each export_block
  import_each-cons b ds i = let no_genesis : (b.index == 0) ≡ false = ground arith in rw no_genesis

  import_each-export_blocks :
      (n : ℕ) (bs : List AuditBlock)
      → IsNumberedFrom (suc n) bs
      → IsText bs
      → import_each codec (map (export_block codec) bs) ≡ ok bs
  import_each-export_blocks n [] i t = unfold import_each in refl
  import_each-export_blocks n (b ∷ bs) i t =
      import_each-cons b (map (export_block codec) bs) i.0
      ∙ rw (import_block-export_block b t.0, import_each-export_blocks (suc n) bs i.1 t.1)

  -- Let hexadecimal text decode to what it encodes, and let a chain that verifies start with the
  -- genesis block of its identifier, number its blocks from 0, and hold metadata that is text. What
  -- it exports is imported, under the same identifier, as a chain with the same blocks.
  pub import_blocks-export_blocks :
      (c : Chain) (genesis : AuditBlock) (bs : List AuditBlock)
      → genesis_of codec c.chain_id ≡ ok genesis
      → c.blocks ≡ genesis ∷ bs
      → IsNumberedFrom 0 c.blocks
      → IsText bs
      → verify_chain codec c ≡ ok true
      → import_blocks codec c.chain_id (export_blocks codec c)
        ≡ ok (record {
          chain_id = c.chain_id;
          genesis = genesis;
          blocks = c.blocks;
          tree_levels = none;
        })
  unfolding import_blocks export_blocks init verify_chain
  import_blocks-export_blocks c genesis bs g e i t v =
      let numbered = subst (IsNumberedFrom 0) e i in
      let others : import_each codec (map (export_block codec) c.blocks) ≡ ok bs = rw e (
        import_each-genesis genesis (map (export_block codec) bs) numbered.0
        ∙ import_each-export_blocks 0 bs numbered.1 t) in
      let good : verify_blocks codec (genesis ∷ bs) ≡ ok true = rw e at v in
      rw (g, others, good)
        (ap
          (λ x.
            ok
              (record { chain_id = c.chain_id; genesis = genesis; blocks = x; tree_levels = none }))
          (sym e))
