-- ===== src/Audit/Incremental.antt =====
-- The class `IncrementalMerkleTree` of noema/audit/merkle_proof.py. A level is a list whose `none` entries
-- stand for the hash of the padding at that level, as a missing entry does.
pub mod Positions
pub mod Depth
pub mod Refresh
pub mod Growth
pub mod Refinement
pub mod Paths
pub mod Construction
pub mod Complete
mod Tests
use noema.Audit.Bytes.{Bytes}
use noema.Audit.Chain.{Error, at, last}
use noema.Audit.Proofs.{InclusionProof, bit_length, next_pow2, hash_pair, build_levels}
use noema.Prelude.{
  ℕ, zero, suc, ◌+◌, ◌-◌, ◌*◌, ◌/◌, ◌%◌, ◌^◌, Bool, true, false, List, [], ◌∷◌, ◌++◌, Option, none,
  some, ltb, leb, ◌==◌, if◌then◌else◌, length, get_elem?, map, take, replicate, Result, ok, raise,
  ◌>>=◌,
}

abbrev pub Level : Type 0
Level = List (Option Bytes)

pub record Tree : Type 0 where
  pub real : List Bytes
  pub levels : List Level
  pub pad_hashes : List Bytes

-- `self._levels == [[]]`
unfoldable pub is_blank : List Level → Bool
is_blank ([] ∷ []) = true
is_blank _ = false

-- What stands at a position, `none` if the level is too short.
unfoldable pub entry : Level → ℕ → Option Bytes
entry [] j = none
entry (x ∷ xs) zero = x
entry (x ∷ xs) (suc j) = entry xs j

abbrev pub or_pad : Bytes → Option Bytes → Bytes
or_pad pad none = pad
or_pad pad (some v) = v

-- `_node`, given the level and its padding.
unfoldable pub node : Level → Bytes → ℕ → Bytes
unfolding entry
node level pad j = or_pad pad (entry level j)

-- The loop that appends `None` up to a position, and the assignment there.
unfoldable pub put_at : ℕ → Bytes → Level → Level
put_at zero v [] = some v ∷ []
put_at zero v (x ∷ xs) = some v ∷ xs
put_at (suc i) v [] = none ∷ put_at i v []
put_at (suc i) v (x ∷ xs) = x ∷ put_at i v xs

-- `self._real[-1] if self._real else b"\x00" * 32`
unfoldable pub last_or_zeros : List Bytes → Bytes
last_or_zeros [] = replicate 32 0
last_or_zeros (x ∷ []) = x
last_or_zeros (x ∷ y ∷ xs) = last_or_zeros (y ∷ xs)

module _ (safe_hash : Bytes → Bytes) where
  unfoldable pub pads_from : ℕ → Bytes → List Bytes
  pads_from zero h = h ∷ []
  pads_from (suc n) h = h ∷ pads_from n (hash_pair safe_hash h h)

  unfoldable pub compute_pad_hashes : List Bytes → List Level → List Bytes
  unfolding pads_from last_or_zeros
  compute_pad_hashes real levels = pads_from (length levels - 1) (last_or_zeros real)

  -- Level k keeps its first `(n + (1 << k) - 1) >> k` entries.
  unfoldable pub nullify : ℕ → Level → Level
  nullify start [] = []
  nullify zero (x ∷ xs) = none ∷ nullify zero xs
  nullify (suc start) (x ∷ xs) = x ∷ nullify start xs

  unfoldable pub nullify_pads : ℕ → ℕ → List Level → List Level
  unfolding nullify
  nullify_pads n k [] = []
  nullify_pads n k (level ∷ levels) =
      nullify ((n + 2 ^ k - 1) / 2 ^ k) level ∷ nullify_pads n (k + 1) levels

  unfoldable pub empty : Tree
  unfolding compute_pad_hashes
  empty = record { real = []; levels = [] ∷ []; pad_hashes = compute_pad_hashes [] ([] ∷ []) }

  -- `IncrementalMerkleTree.__init__`
  unfoldable pub new : List Bytes → Result Error Tree
  unfolding empty nullify_pads compute_pad_hashes
  new [] = ok empty
  new (x ∷ xs) = do
    built ← build_levels safe_hash (x ∷ xs)
    let levels = nullify_pads (length (x ∷ xs)) 0 (map (map some) built)
    ok (record { real = x ∷ xs; levels = levels; pad_hashes = compute_pad_hashes (x ∷ xs) levels })

  unfoldable pub root_of : List Bytes → Tree → Result Error Bytes
  unfolding node
  root_of [] t = ok (replicate 32 0)
  root_of (x ∷ xs) t = do
    top ← last t.levels
    pad ← at t.pad_hashes (length t.levels - 1)
    ok (node top pad 0)

  unfoldable pub root : Tree → Result Error Bytes
  unfolding root_of
  root t = root_of t.real t

  -- `_refresh_path`: the levels above one whose position `idx` has just been set.
  unfoldable pub refresh_path :
      Level → Bytes → ℕ → List Level → List Bytes → Result Error (List Level)
  unfolding node put_at
  refresh_path below below_pad idx [] pads = ok []
  refresh_path below below_pad idx (level ∷ levels) [] = raise Error.index_error
  refresh_path below below_pad idx (level ∷ levels) (pad ∷ pads) =
      let i = idx / 2 in
      let parent =
        hash_pair safe_hash (node below below_pad (2 * i)) (node below below_pad (2 * i + 1)) in
      let level' = put_at i parent level in
      do rest ← refresh_path level' pad i levels pads; ok (level' ∷ rest)

  -- Level 0 gets the leaf, and the path above it is refreshed.
  unfoldable pub set_leaf : ℕ → Bytes → List Level → List Bytes → Result Error (List Level)
  unfolding refresh_path put_at
  set_leaf idx leaf [] pads = raise Error.index_error
  set_leaf idx leaf (level ∷ levels) [] = raise Error.index_error
  set_leaf idx leaf (level ∷ levels) (pad ∷ pads) =
      let level' = put_at idx leaf level in
      do rest ← refresh_path level' pad idx levels pads; ok (level' ∷ rest)

  -- A level more, when the padded length needs one.
  unfoldable pub deepen : ℕ → List Level → List Level
  deepen count levels =
      let padded = next_pow2 count in
      if ltb (length levels) (bit_length padded padded) then levels ++ [] ∷ [] else levels

  unfoldable pub append : Bytes → Tree → Result Error Tree
  unfolding is_blank deepen set_leaf compute_pad_hashes
  append leaf t =
      let real = t.real ++ leaf ∷ [] in
      if is_blank t.levels
      then ok (record {
        real = real;
        levels = (some leaf ∷ []) ∷ [];
        pad_hashes = compute_pad_hashes real ((some leaf ∷ []) ∷ []);
      })
      else (let levels = deepen (length real) t.levels in
          let pads = compute_pad_hashes real levels in
          do
            levels' ← set_leaf (length real - 1) leaf levels pads
            ok (record { real = real; levels = levels'; pad_hashes = pads }))

  -- The loop of `proof` over all levels but the last.
  unfoldable pub path_from : ℕ → List Level → List Bytes → Result Error (List (Bytes × Bool))
  unfolding node
  path_from idx [] pads = ok []
  path_from idx (level ∷ []) pads = ok []
  path_from idx (level ∷ next ∷ levels) [] = raise Error.index_error
  path_from idx (level ∷ next ∷ levels) (pad ∷ pads) = do
    let sibling = if idx % 2 == 0 then node level pad (idx + 1) else node level pad (idx - 1)
    rest ← path_from (idx / 2) (next ∷ levels) pads
    ok ((sibling, if idx % 2 == 0 then false else true) ∷ rest)

  unfoldable pub proof : ℕ → Tree → Result Error (List (Bytes × Bool))
  unfolding path_from
  proof leaf_index t =
      if ltb leaf_index (length t.real)
      then path_from leaf_index t.levels t.pad_hashes
      else raise Error.index_error

  unfoldable pub inclusion_proof :
      {D : Type 0} → (D → Bytes) → D → ℕ → Tree → Result Error InclusionProof
  unfolding proof root
  inclusion_proof serialize leaf_data leaf_index t =
      if ltb leaf_index (length t.real)
      then (do
        path ← proof leaf_index t
        top ← root t
        ok (record {
          leaf_hash = safe_hash (serialize leaf_data);
          path = path;
          root_hash = top;
          block_index = leaf_index;
        }))
      else raise Error.index_error
