-- ===== src/Connection/Transaction.antt =====
-- `with manager.write()` on an idle connection, around statements that raise what a nested block of
-- theirs raises.
use ancestree.Prelude.{◌≡◌, ap, zero, false, Result, ok, err, Error}
use ancestree.Database.{Database}
use ancestree.Exec.{Exec}
use ancestree.Connection.{Connection, enter, note_failure, leave}

abbrev idle : Database → Connection
idle db = record { tables = db; begun = db; depth = zero; failed = false }

-- The tables behind the `finally` clause: what COMMIT keeps or ROLLBACK restores.
abbrev exit_outermost {ℓ} : {A : Type ℓ} → Connection → Result A × Database → Result A × Database
exit_outermost c (r, db) = (r, (leave zero (note_failure r (record c { tables = db }))).tables)

unfoldable pub transaction {ℓ} : {A : Type ℓ} → Exec A → Exec A
transaction body db = let c = enter (idle db) in exit_outermost c (body c.tables)

-- What a body wrote that returned is kept.
pub transaction-ok {ℓ} :
    {A : Type ℓ} (body : Exec A) (db db' : Database) (a : A)
    → body db ≡ (ok a, db')
    → transaction body db ≡ (ok a, db')
unfolding transaction enter leave note_failure
transaction-ok body db db' a h = ap (exit_outermost (enter (idle db))) h

-- What a body wrote that raised is undone.
pub transaction-err {ℓ} :
    {A : Type ℓ} (body : Exec A) (db db' : Database) (e : Error)
    → body db ≡ (err e, db')
    → transaction body db ≡ (err e, db)
unfolding transaction enter leave note_failure
transaction-err body db db' e h = ap (exit_outermost (enter (idle db))) h
