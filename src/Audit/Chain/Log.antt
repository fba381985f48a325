-- ===== src/Audit/Chain/Log.antt =====
-- The chain of blocks of a `MerkleChainAudit`, from noema/audit/merkle.py: `__init__`, `append`,
-- `verify_chain`, `export_blocks`, `import_blocks` and `create_audit_proof`.
pub mod Valid
pub mod Growth
pub mod Tamper
pub mod Boundary
pub mod RoundTrip
use Prim.Native.String.{String}
use noema.Prelude.{
  ℕ, zero, suc, ◌+◌, Bool, true, false, Option, none, some, List, [], ◌∷◌, ◌++◌, map, ◌==◌,
  if◌then◌else◌, Result, ok, raise, ◌>>=◌,
}
use noema.Audit.Bytes.{Bytes, compare_digest}
use noema.Audit.Chain.{
  Error, AuditBlock, Chain, zero_hash, last, compute_commitment, compute_block_hash, block_verify,
}
use noema.Audit.Chain.Tree.{MerkleProof, root, prove_inclusion}

-- The module's parameters: the digest, `json.dumps(...).encode()` on the dictionaries that the code
-- builds or is given, and the encodings of an export.
pub record Codec (P : Type 0) : Type 0 where
  pub hash : Bytes → Bytes
  pub serialize : P → Bytes
  pub created : String → P
  pub completed : String → String → P
  pub solution_generation : P
  pub hex : Bytes → String
  pub from_hex : String → Option Bytes
  pub decode : Bytes → String
  pub encode : String → Bytes

-- The `metadata` entry of an exported block: text, or bytes as they are.
pub data RawMeta : Type 0 where
  text : String → RawMeta
  bytes : Bytes → RawMeta

-- A dictionary of an export; `none` is a missing key.
pub record BlockDict : Type 0 where
  pub index : Option ℕ
  pub prev_hash : Option String
  pub timestamp : Option ℕ
  pub commitment : Option String
  pub block_hash : Option String
  pub metadata : Option RawMeta

-- `d[k]`
unfoldable pub get : {A : Type 0} → Option A → Result Error A
get none = raise Error.key_error
get (some a) = ok a

module _ {P : Type 0} (codec : Codec P) where
  open codec use {
    hash, serialize, created, completed, solution_generation, hex, from_hex, decode, encode,
  }

  abbrev pub genesis_meta : Bytes
  genesis_meta = b'g' ∷ b'e' ∷ b'n' ∷ b'e' ∷ b's' ∷ b'i' ∷ b's' ∷ []

  unfoldable pub genesis_of : String → Result Error AuditBlock
  genesis_of chain_id = do
    let commitment = compute_commitment hash serialize (created chain_id) none
    genesis_hash ← compute_block_hash hash 0 zero_hash commitment 0 genesis_meta
    ok (record {
      index = 0;
      prev_hash = zero_hash;
      timestamp = 0;
      commitment = commitment;
      metadata = genesis_meta;
      block_hash = genesis_hash;
    })

  -- `MerkleChainAudit(chain_id)`; an empty identifier is replaced by a random one, given here.
  unfoldable pub init : String → Result Error Chain
  init chain_id = do
    genesis ← genesis_of chain_id
    ok (record {
      chain_id = chain_id;
      genesis = genesis;
      blocks = genesis ∷ [];
      tree_levels = none;
    })

  -- `append(payload, metadata)` at the time `now`; `metadata` is the given or the empty dictionary.
  unfoldable pub append : P → P → ℕ → Chain → Result Error (AuditBlock × Chain)
  append payload metadata now c = do
    prev ← last c.blocks
    let index = prev.index + 1
    let commitment = compute_commitment hash serialize payload none
    let meta_bytes = serialize metadata
    block_hash ← compute_block_hash hash index prev.block_hash commitment now meta_bytes
    let block : AuditBlock = record {
      index = index;
      prev_hash = prev.block_hash;
      timestamp = now;
      commitment = commitment;
      metadata = meta_bytes;
      block_hash = block_hash;
    }
    good ← block_verify hash block
    if good
        then ok (block, record c { blocks = c.blocks ++ block ∷ []; tree_levels = none })
        else raise Error.runtime_error

  -- The loop of `verify_chain`, from the block after `prev` on.
  unfoldable pub verify_after : AuditBlock → List AuditBlock → Result Error Bool
  verify_after prev [] = ok true
  verify_after prev (b ∷ bs) = do
    good ← block_verify hash b
    let rest = verify_after b bs
    if good
        then (if compare_digest b.prev_hash prev.block_hash then rest else ok false)
        else ok false

  unfoldable pub verify_blocks : List AuditBlock → Result Error Bool
  verify_blocks [] = ok true
  verify_blocks (b ∷ bs) = do
    good ← block_verify hash b
    if good then verify_after b bs else ok false

  unfoldable pub verify_chain : Chain → Result Error Bool
  verify_chain c = verify_blocks c.blocks

  export_block : AuditBlock → BlockDict
  export_block b = record {
    index = some b.index;
    prev_hash = some (hex b.prev_hash);
    timestamp = some b.timestamp;
    commitment = some (hex b.commitment);
    block_hash = some (hex b.block_hash);
    metadata = some (RawMeta.text (decode b.metadata));
  }

  unfoldable pub export_blocks : Chain → List BlockDict
  unfolding export_block
  export_blocks c = map export_block c.blocks

  -- `bytes.fromhex`
  unfoldable pub parse_hex : String → Result Error Bytes
  parse_hex t = elim (from_hex t) [ none ↦ raise Error.value_error | some b ↦ ok b ]

  meta_of : Option RawMeta → Bytes
  meta_of none = encode ""
  meta_of (some (RawMeta.text t)) = encode t
  meta_of (some (RawMeta.bytes b)) = b

  unfoldable pub import_block : BlockDict → Result Error AuditBlock
  unfolding meta_of
  import_block d = do
    index ← get d.index
    prev_text ← get d.prev_hash
    prev_hash ← parse_hex prev_text
    timestamp ← get d.timestamp
    commitment_text ← get d.commitment
    commitment ← parse_hex commitment_text
    hash_text ← get d.block_hash
    block_hash ← parse_hex hash_text
    ok (record {
      index = index;
      prev_hash = prev_hash;
      timestamp = timestamp;
      commitment = commitment;
      metadata = meta_of d.metadata;
      block_hash = block_hash;
    })

  -- `bd.get("index") == 0`
  abbrev is_genesis : Option ℕ → Bool
  is_genesis none = false
  is_genesis (some i) = i == 0

  unfoldable pub import_each : List BlockDict → Result Error (List AuditBlock)
  import_each [] = ok []
  import_each (d ∷ ds) =
      let others = import_each ds in
      if is_genesis d.index then others else (do b ← import_block d; bs ← others; ok (b ∷ bs))

  unfoldable pub import_blocks : String → List BlockDict → Result Error Chain
  import_blocks chain_id blocks_data = do
    c ← init chain_id
    others ← import_each blocks_data
    let c' = record c { blocks = c.genesis ∷ others; tree_levels = none }
    good ← verify_chain c'
    if good then ok c' else raise Error.value_error

  -- The block that `create_audit_proof` appends, its proof, the root, and the chain's verdict.
  unfoldable pub create_audit_proof :
      String
      → String
      → ℕ
      → Chain
      → Result Error ((AuditBlock × Option MerkleProof × Bytes × Bool) × Chain)
  create_audit_proof task_id tenant_id now c = do
    (block, c₁) ← append (completed task_id tenant_id) solution_generation now c
    (proof, c₂) ← prove_inclusion hash block.index c₁
    (r, c₃) ← root hash c₂
    verified ← verify_chain c₃
    ok ((block, proof, r, verified), c₃)
