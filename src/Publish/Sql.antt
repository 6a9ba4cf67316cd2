-- ===== src/Publish/Sql.antt =====
-- The database as tmsdb/gorm_tm.go uses it: what the calls of the library and the statements of Postgres
-- are documented to do to the rows.
use backend_pkg.Common.{◌≡◌, Bool, true, false, Option, some}

pub data Statement (Row : Type 0) : Type 0 where
  savepoint rollback_to release : Statement Row
  create : Row → Statement Row

-- A connection sees rows, those of its transaction included, and has stored rows for others; its newest
-- savepoint keeps the rows that were seen then. A statement, and a transaction around a function, tell
-- whether there was no error.
pub record Sql (Row : Type 0) : Type 1 where
  pub Conn : Type 0
  pub Rows : Type 0
  pub insert : Row → Rows → Rows
  pub seen : Conn → Rows
  pub stored : Conn → Rows
  pub kept : Conn → Option Rows
  pub is_open : Conn → Bool
  pub run : Statement Row → Conn → Conn × Bool
  -- The connection of a transaction that has just begun.
  pub started : Conn → Conn
  pub transaction : (Conn → Conn × Bool) → Conn → Conn × Bool
  pub seen-savepoint : (c : Conn) → (run savepoint c).1 ≡ true → seen (run savepoint c).0 ≡ seen c
  pub kept-savepoint :
      (c : Conn) → (run savepoint c).1 ≡ true → kept (run savepoint c).0 ≡ some (seen c)
  pub seen-create :
      (row : Row) (c : Conn)
      → (run (create row) c).1 ≡ true
      → seen (run (create row) c).0 ≡ insert row (seen c)
  pub kept-create : (row : Row) (c : Conn) → kept (run (create row) c).0 ≡ kept c
  pub seen-rollback_to :
      (c : Conn) (rows : Rows)
      → kept c ≡ some rows
      → (run rollback_to c).1 ≡ true
      → seen (run rollback_to c).0 ≡ rows
  pub seen-release : (c : Conn) → seen (run release c).0 ≡ seen c
  pub is_open-started : (c : Conn) → is_open (started c) ≡ true
  pub seen-started : (c : Conn) → seen (started c) ≡ stored c
  -- Without an error the function had none, and what it saw at its end is stored.
  pub transaction_committed :
      (f : Conn → Conn × Bool) (c : Conn)
      → (transaction f c).1 ≡ true
      → ((f (started c)).1 ≡ true) × (stored (transaction f c).0 ≡ seen (f (started c)).0)
  -- An error of the function is passed on, and nothing that it did is stored.
  pub transaction_undone :
      (f : Conn → Conn × Bool) (c : Conn)
      → (f (started c)).1 ≡ false
      → ((transaction f c).1 ≡ false) × (stored (transaction f c).0 ≡ stored c)
