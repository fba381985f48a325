-- ===== src/Audit/Logger/Tests.antt =====
-- The logger of noema/audit/logger.py with a database that fails at the second record.
use noema.Audit.Bytes.{Bytes}
use noema.Audit.Logger.{Services}
use noema.Audit.Examples.{digest}
use noema.Prelude.{ℕ, zero, suc, Bool, true, false, List, [], ◌∷◌, ◌>>=◌}

-- The world counts the rows that can still be written.
abbrev insert_row : ℕ → ℕ × Bool
insert_row zero = (zero, false)
insert_row (suc n) = (n, true)

abbrev services : Services Bytes ℕ
services = record {
  has_pg = true;
  create_table = λ w. (w, true);
  make_directory = λ w. (w, true);
  tenant_id = λ e. 97 ∷ 47 ∷ e;
  insert_row = λ s w. insert_row w;
  write_line = λ s w. (w, true);
}

abbrev digits : ℕ → Bytes
digits n = n ∷ []

abbrev events : List Bytes
events = (1 ∷ []) ∷ (2 ∷ []) ∷ []

abbrev in_rows : List Bytes
in_rows = digest (7 ∷ []) ∷ []
