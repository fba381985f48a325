-- ===== src/Audit/Chain.antt =====
-- The classes `AuditBlock`, `MerkleProof` and `MerkleChainAudit` of noema/audit/merkle.py. The
-- digest (`hashlib.blake2b` with the module's salt) and the JSON encoder are parameters. A
-- timestamp, a float of seconds, is a number of nanoseconds, of which the digest covers the microseconds; the
-- random `nonce` of a block, which nothing reads, the lock-free flag `_dirty` and the logging are
-- left out.
pub mod Tree
pub mod Log
use Prim.Native.String.{String}
use noema.Prelude.{
  ℕ, ◌^◌, ◌/◌, Bool, Option, none, some, List, [], ◌∷◌, ◌++◌, ltb, if◌then◌else◌, get_elem?,
  replicate, Result, ok, raise, ◌>>=◌,
}
use noema.Audit.Bytes.{Bytes, compare_digest, to_bytes}

pub data Error : Type 0 where
  overflow_error index_error key_error value_error runtime_error os_error : Error

pub record AuditBlock : Type 0 where
  pub index : ℕ
  pub prev_hash : Bytes
  pub timestamp : ℕ
  pub commitment : Bytes
  pub metadata : Bytes
  pub block_hash : Bytes

pub record Chain : Type 0 where
  pub chain_id : String
  pub genesis : AuditBlock
  pub blocks : List AuditBlock
  pub tree_levels : Option (List (List Bytes))

abbrev pub zero_hash : Bytes
zero_hash = replicate 32 0

-- `n.to_bytes(8, "big")`
unfoldable pub to_bytes8 : ℕ → Result Error Bytes
to_bytes8 n = if ltb n (256 ^ 8) then ok (to_bytes 8 n) else raise Error.overflow_error

-- An element by its position; a missing one raises.
unfoldable pub at : {A : Type 0} → List A → ℕ → Result Error A
at xs i = elim (get_elem? xs i) [ none ↦ raise Error.index_error | some x ↦ ok x ]

-- `xs[-1]`
unfoldable pub last : {A : Type 0} → List A → Result Error A
last [] = raise Error.index_error
last (x ∷ []) = ok x
last (x ∷ y ∷ xs) = last (y ∷ xs)

-- `int(timestamp * 1_000_000)`
abbrev pub micros : ℕ → ℕ
micros timestamp = timestamp / 1000

-- The `data` that `_compute_block_hash` hashes.
abbrev pub block_data : ℕ → Bytes → Bytes → ℕ → Bytes → Bytes
block_data index prev_hash commitment timestamp metadata =
    to_bytes 8 index ++ (prev_hash ++ (commitment ++ (to_bytes 8 (micros timestamp) ++ metadata)))

module _ (hash : Bytes → Bytes) where
  unfoldable pub compute_commitment : {P : Type 0} → (P → Bytes) → P → Option Bytes → Bytes
  compute_commitment serialize payload none = hash (serialize payload)
  compute_commitment serialize payload (some nonce) = hash (nonce ++ serialize payload)

  unfoldable pub compute_block_hash : ℕ → Bytes → Bytes → ℕ → Bytes → Result Error Bytes
  unfolding to_bytes8
  compute_block_hash index prev_hash commitment timestamp metadata = do
    index_bytes ← to_bytes8 index
    time_bytes ← to_bytes8 (micros timestamp)
    ok (hash (index_bytes ++ (prev_hash ++ (commitment ++ (time_bytes ++ metadata)))))

  unfoldable pub block_verify : AuditBlock → Result Error Bool
  block_verify b = do
    expected ← compute_block_hash b.index b.prev_hash b.commitment b.timestamp b.metadata
    ok (compare_digest expected b.block_hash)
