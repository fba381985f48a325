-- ===== src/Audit/Logger/Sealing.antt =====
-- What noema/audit/logger.py puts into the records, beside a description that builds every root anew.
use noema.Audit.Bytes.{Bytes}
use noema.Audit.Chain.{Error}
use noema.Audit.Proofs.{compute_root}
use noema.Audit.Incremental.{Tree, root}
use noema.Audit.Incremental.Growth.{IsValid}
use noema.Audit.Logger.{Sealed, Services, Logger, tenant_filename, seal, log}
use noema.Prelude.{
  ℕ, ◌≡◌, ◌&&◌, List, [], ◌∷◌, ◌++◌, map, some, length, if◌then◌else◌, Result, ok, ◌>>=◌,
}

module _ {D W : Type 0} where
  -- Storing a record leaves the leaf hashes and the tree as they are.
  unfoldable Keeps : Logger D W → Logger D W → Type 0
  Keeps l l' = (l'.leaf_hashes ≡ l.leaf_hashes) × (l'.tree ≡ l.tree)

-- The tenants of the events are valid, so that a file name is made of each.
abbrev pub AllNamed : {D W : Type 0} → Services D W → List D → Type 0
AllNamed services [] = Unit
AllNamed services (event ∷ events) =
    ((name : List ℕ) × (tenant_filename (services.tenant_id event) ≡ ok name))
    × AllNamed services events

-- The hashes that the logger starts with: those in the rows, or those in the files.
abbrev pub loaded : {D W : Type 0} → Services D W → List Bytes → List Bytes → W → List Bytes
loaded services in_rows in_files w =
    if services.has_pg && (services.create_table w).1 then in_rows else in_files

module _ (safe_hash : Bytes → Bytes) {D W : Type 0} (services : Services D W)
    (serialize : D → Bytes) (digits : ℕ → Bytes) where
  -- A record is stored or given up, with nothing raised.
  Stores : Logger D W → Result Error (Logger D W) → Type 0
  Stores l stored = (l' : Logger D W) × (stored ≡ ok l') × Keeps l l'

  -- The tree stands for the leaf hashes.
  IsSynced : Logger D W → Type 0
  IsSynced l = (t : Tree) × (l.tree ≡ some t) × IsValid safe_hash t × (t.real ≡ l.leaf_hashes)

  Logs : D → Logger D W → Type 0
  Logs event l =
      (l' : Logger D W) × (prev : Bytes) × (compute_root safe_hash l.leaf_hashes ≡ ok prev)
      × (log safe_hash services serialize digits event l
          ≡ ok (l', seal safe_hash services serialize digits event prev (length l.leaf_hashes)))
      × IsSynced l'
      × (l'.leaf_hashes ≡ l.leaf_hashes ++ safe_hash (serialize event) ∷ [])

  -- The records of a log whose leaves so far are `leaves`, with every root built from the whole list.
  unfoldable pub sealed_from : List Bytes → List D → Result Error (List (Sealed D))
  unfolding seal
  sealed_from leaves [] = ok []
  sealed_from leaves (event ∷ events) = do
    prev ← compute_root safe_hash leaves
    rest ← sealed_from (leaves ++ safe_hash (serialize event) ∷ []) events
    ok (seal safe_hash services serialize digits event prev (length leaves) ∷ rest)

  -- A run of the logger, of which the tree still stands for all leaf hashes.
  unfoldable pub LogsEach :
      List D → List Bytes → Result Error (Logger D W × List (Sealed D)) → Type 0
  LogsEach events leaves logged =
      (l' : Logger D W) × (records : List (Sealed D)) × (t : Tree) × (logged ≡ ok (l', records))
      × (sealed_from leaves events ≡ ok records)
      × (l'.leaf_hashes ≡ leaves ++ map (λ e. safe_hash (serialize e)) events)
      × (l'.tree ≡ some t)
      × (root safe_hash t ≡ compute_root safe_hash l'.leaf_hashes)

  -- The logger once it has started with these hashes.
  Starts : List Bytes → Result Error (Logger D W) → Type 0
  Starts stored begun = (l : Logger D W) × (begun ≡ ok l) × IsSynced l × (l.leaf_hashes ≡ stored)
