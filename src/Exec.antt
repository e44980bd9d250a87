-- ===== src/Exec.antt =====
-- Code that runs statements on a database and may raise. What a statement wrote before another one
-- raised stays written until the transaction is rolled back, so the state comes back beside an error.
use ancestree.Prelude.{Result, ok, err, Error, List, [], ◌∷◌}
use ancestree.Database.{Database}

abbrev pub Exec {ℓ} : Type ℓ → Type ℓ
Exec A = Database → Result A × Database

abbrev pub pure {ℓ} : {A : Type ℓ} → A → Exec A
pure a db = (ok a, db)

abbrev pub raise {ℓ} : {A : Type ℓ} → Error → Exec A
raise e db = (err e, db)

abbrev pub lift {ℓ} : {A : Type ℓ} → Result A → Exec A
lift r db = (r, db)

-- A read in the transaction.
abbrev pub reads {ℓ} : {A : Type ℓ} → (Database → Result A) → Exec A
reads f db = (f db, db)

abbrev pub continue {ℓ} : {A B : Type ℓ} → Result A → (A → Exec B) → Exec B
continue (ok a) f db = f a db
continue (err e) f db = (err e, db)

infixl 5 ◌>>=◌ ◌>>◌
abbrev pub ◌>>=◌ {ℓ} : {A B : Type ℓ} → Exec A → (A → Exec B) → Exec B
◌>>=◌ m f db = let (r, db') = m db in continue r f db'

abbrev pub ◌>>◌ : {B : Type 0} → Exec (Unit {0}) → Exec B → Exec B
m >> k = m >>= λ _. k

-- `executemany`, and loops over a statement.
unfoldable pub for_each : {A : Type 0} → (A → Exec (Unit {0})) → List A → Exec (Unit {0})
for_each f [] = pure tt
for_each f (a ∷ as') = f a >> for_each f as'
