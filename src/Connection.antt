-- ===== src/Connection.antt =====
-- `ConnectionManager.write` of src/ancestree/db/connection.py, seen from the one thread that holds the
-- write lock: the connection's tables, the snapshot that BEGIN takes, and the thread's depth and flag.
pub mod Atomic
pub mod Transaction
use ancestree.Prelude.{ℕ, zero, suc, ◌+◌, Bool, true, false, Result, ok, err, Error, value_error}
use ancestree.Database.{Database}

pub record Connection : Type 0 where
  pub tables : Database
  pub begun : Database
  pub depth : ℕ
  pub failed : Bool

-- What a block does: statements that may raise, one step after another, a `try` that swallows what is
-- raised inside it, and an inner `with manager.write()`.
pub data Block : Type 0 where
  statement : (Database → Result (Unit {0}) × Database) → Block
  sequence : Block → Block → Block
  attempt : Block → Block
  nested : Block → Block

abbrev pub Run : Type 0
Run = Connection → Result (Unit {0}) × Connection

-- BEGIN IMMEDIATE at depth 0, and one level down.
unfoldable pub enter : Connection → Connection
enter c = elim c.depth [
  | zero ↦ record { tables = c.tables; begun = c.tables; depth = 1; failed = false }
  | suc d ↦ record c { depth = suc (suc d) }
]

-- The `except` clause.
unfoldable pub note_failure {ℓ} : {A : Type ℓ} → Result A → Connection → Connection
note_failure (ok _) c = c
note_failure (err e) c = record c { failed = true }

-- The `finally` clause: the depth found on entry, and at depth 0 ROLLBACK or COMMIT.
unfoldable pub leave : ℕ → Connection → Connection
leave zero c = elim c.failed [
  | true ↦ record c { tables = c.begun; depth = 0 }
  | false ↦ record c { depth = 0 }
]
leave (suc d) c = record c { depth = suc d }

unfoldable pub write : Run → Run
write body c = let (r, c') = body (enter c) in (r, leave c.depth (note_failure r c'))

unfoldable pub after : Result (Unit {0}) → Run → Run
after (ok _) next c = next c
after (err e) next c = (err e, c)

unfoldable pub execute : Block → Run
execute (statement s) c = let (r, db) = s c.tables in (r, record c { tables = db })
execute (sequence p q) c = let (r, c') = execute p c in after r (execute q) c'
execute (attempt p) c = (ok tt, (execute p c).1)
execute (nested p) c = write (execute p) c
