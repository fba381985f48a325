-- ===== src/Audit/Logger.antt =====
-- The class `AuditLogger` of noema/audit/logger.py: how an event is sealed and stored. `serialize` stands
-- for the JSON of `_build_leaf_data`, `digits` for `str(block_index).encode()`. PostgreSQL and the files are
-- services that say whether a write succeeds. The hashes of the rows and of the files are arguments. What
-- a call that raises has changed before is left out: the logger is not used after it.
pub mod Sealing
mod Tests
use noema.Audit.Bytes.{Bytes}
use noema.Audit.Chain.{Error}
use noema.Audit.Incremental.{Tree, new, root, append}
use noema.Prelude.{
  ℕ, ◌+◌, Bool, true, false, ◌&&◌, ◌||◌, not, leb, ltb, List, [], ◌∷◌, ◌++◌, Option, none, some,
  ◌==◌, if◌then◌else◌, length, replicate, Result, ok, raise, ◌>>=◌,
}

-- What `log` adds to an event: its fields `commitment`, `chain_link` and `block_index`.
pub record Sealed (D : Type 0) : Type 0 where
  pub event : D
  pub commitment : Bytes
  pub chain_link : Bytes
  pub block_index : ℕ

pub record Services (D W : Type 0) : Type 0 where
  pub has_pg : Bool
  -- The statements that create the table, `mkdir`, and an event's tenant, as code points.
  pub create_table : W → W × Bool
  pub make_directory : W → W × Bool
  pub tenant_id : D → List ℕ
  pub insert_row : Sealed D → W → W × Bool
  pub write_line : Sealed D → W → W × Bool

pub record Logger (D W : Type 0) : Type 0 where
  pub file_fallback : Bool
  pub leaf_hashes : List Bytes
  pub tree : Option Tree
  pub rows : List (Sealed D)
  pub lines : List (Sealed D)
  pub world : W

-- The set `[A-Za-z0-9_.-]`
unfoldable pub is_safe : ℕ → Bool
is_safe c =
    (leb 65 c && leb c 90)
    || (leb 97 c && leb c 122)
    || (leb 48 c && leb c 57)
    || (c == 95)
    || (c == 46)
    || (c == 45)

-- `_TENANT_RE.sub("_", _)`, after a character that was replaced or not.
unfoldable pub sub_unsafe : Bool → List ℕ → List ℕ
unfolding is_safe
sub_unsafe after [] = []
sub_unsafe after (c ∷ cs) =
    let kept = c ∷ sub_unsafe false cs in
    let rest = sub_unsafe true cs in if is_safe c then kept else if after then rest else 95 ∷ rest

abbrev pub is_dots : List ℕ → Bool
is_dots (c ∷ []) = c == 46
is_dots (c ∷ d ∷ []) = (c == 46) && (d == 46)
is_dots _ = false

unfoldable pub tenant_filename : List ℕ → Result Error (List ℕ)
unfolding sub_unsafe
tenant_filename tenant_id =
    let name = sub_unsafe false tenant_id in
    if (length name == 0) || is_dots name || ltb 100 (length name)
    then raise Error.value_error
    else ok name

module _ (safe_hash : Bytes → Bytes) where
  unfoldable pub sync_with : List Bytes → Option Tree → Result Error Tree
  sync_with leaf_hashes none = new safe_hash leaf_hashes
  sync_with leaf_hashes (some t) =
      if length t.real == length leaf_hashes then ok t else new safe_hash leaf_hashes

  -- `_sync_tree`
  unfoldable pub sync_tree : {D W : Type 0} → Logger D W → Result Error (Logger D W)
  unfolding sync_with
  sync_tree l = do t ← sync_with l.leaf_hashes l.tree; ok (record l { tree = some t })

  -- `_get_prev_root`, after `_sync_tree`.
  unfoldable pub prev_root : Option Tree → Result Error Bytes
  prev_root none = ok (replicate 32 0)
  prev_root (some t) = root safe_hash t

  module _ {D W : Type 0} (services : Services D W) (serialize : D → Bytes)
      (digits : ℕ → Bytes) where
    abbrev pub started : Bool → List Bytes → W → Logger D W
    started file_fallback stored w = record {
      file_fallback = file_fallback;
      leaf_hashes = stored;
      tree = none;
      rows = [];
      lines = [];
      world = w;
    }

    -- The end of `initialize`, without the database; an `OSError` of `mkdir` is let out.
    unfoldable pub start_on_files : List Bytes → W × Bool → Result Error (Logger D W)
    unfolding sync_tree
    start_on_files in_files (w, true) = sync_tree (started true in_files w)
    start_on_files in_files (w, false) = raise Error.os_error

    unfoldable pub start_on_rows : List Bytes → List Bytes → W × Bool → Result Error (Logger D W)
    unfolding sync_tree start_on_files
    start_on_rows in_rows in_files (w, true) = sync_tree (started false in_rows w)
    start_on_rows in_rows in_files (w, false) = start_on_files in_files (services.make_directory w)

    -- `initialize`, with the hashes that the rows and the files hold.
    unfoldable pub initialize : List Bytes → List Bytes → W → Result Error (Logger D W)
    unfolding start_on_rows start_on_files
    initialize in_rows in_files w =
        if services.has_pg
        then start_on_rows in_rows in_files (services.create_table w)
        else start_on_files in_files (services.make_directory w)

    unfoldable pub seal : D → Bytes → ℕ → Sealed D
    seal event prev block_index = record {
      event = event;
      commitment = safe_hash (serialize event);
      chain_link = safe_hash (prev ++ serialize event ++ digits block_index);
      block_index = block_index;
    }

    unfoldable pub append_line : Sealed D → Logger D W → Logger D W
    append_line s l =
        let (w, written) = services.write_line s l.world in
        if written
        then record l { lines = l.lines ++ s ∷ []; world = w }
        else record l { world = w }

    -- `_write_fallback`
    unfoldable pub write_fallback : Sealed D → Logger D W → Result Error (Logger D W)
    unfolding append_line
    write_fallback s l = do
      name ← tenant_filename (services.tenant_id s.event)
      ok (append_line s l)

    -- The end of `log`: the row, or the file from the first failed row on.
    unfoldable pub store : Sealed D → Logger D W → Result Error (Logger D W)
    unfolding write_fallback
    store s l =
        if not l.file_fallback && services.has_pg
        then (let (w, inserted) = services.insert_row s l.world in
            if inserted
            then ok (record l { rows = l.rows ++ s ∷ []; world = w })
            else write_fallback s (record l { file_fallback = true; world = w }))
        else write_fallback s l

    -- `self._tree.append(commitment)`, or a new tree.
    unfoldable pub grow : Bytes → List Bytes → Option Tree → Result Error Tree
    grow commitment leaf_hashes none = new safe_hash leaf_hashes
    grow commitment leaf_hashes (some t) = append safe_hash commitment t

    unfoldable pub log : D → Logger D W → Result Error (Logger D W × Sealed D)
    unfolding sync_tree prev_root seal store grow
    log event l = do
      synced ← sync_tree l
      prev ← prev_root synced.tree
      let sealed = seal event prev (length synced.leaf_hashes)
      let leaf_hashes = synced.leaf_hashes ++ sealed.commitment ∷ []
      t ← grow sealed.commitment leaf_hashes synced.tree
      stored ← store sealed (record synced { leaf_hashes = leaf_hashes; tree = some t })
      ok (stored, sealed)

    unfoldable pub log_each : List D → Logger D W → Result Error (Logger D W × List (Sealed D))
    unfolding log
    log_each [] l = ok (l, [])
    log_each (event ∷ events) l = do
      first ← log event l
      rest ← log_each events first.0
      ok (rest.0, first.1 ∷ rest.1)
