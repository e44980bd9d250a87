-- ===== src/Connection/Atomic.antt =====
-- A transaction is all or nothing, however its blocks nest and whatever they swallow.
use ancestree.Prelude.{
  ℕ, suc, Option, none, some, ◌≡◌, refl, ap, sym, subst₂, ◌∙◌, Bool-cases, inl, inr, true, false,
  Result, ok, err,
}
use ancestree.Database.{Database}
use ancestree.Connection.{
  Connection, Block, statement, sequence, attempt, nested, Run, enter, note_failure, leave, write,
  after, execute,
}

abbrev pub Outcome : Type 0
Outcome = Option (Result (Unit {0}) × Database)

-- The block on the tables alone; nothing, once a block that was entered has raised.
abbrev then_outcome : Outcome → (Database → Outcome) → Outcome
then_outcome none next = none
then_outcome (some (ok _, db)) next = next db
then_outcome (some (err e, db)) next = some (err e, db)

abbrev swallow : Outcome → Outcome
swallow none = none
swallow (some (r, db)) = some (ok tt, db)

abbrev joined : Outcome → Outcome
joined none = none
joined (some (ok _, db)) = some (ok tt, db)
joined (some (err e, db)) = none

unfoldable pub outcome : Block → Database → Outcome
outcome (statement s) db = some (s db)
outcome (sequence p q) db = then_outcome (outcome p db) (outcome q)
outcome (attempt p) db = swallow (outcome p db)
outcome (nested p) db = joined (outcome p db)

-- Inside a transaction: the block leaves the depth and the snapshot, never clears the flag, and
-- either follows its outcome or sets the flag.
record Follows (o : Outcome) (c : Connection) (out : Result (Unit {0}) × Connection) : Type 0 where
  depth : out.1.depth ≡ c.depth
  begun : out.1.begun ≡ c.begun
  sticky : c.failed ≡ true → out.1.failed ≡ true
  poisoned : o ≡ none → out.1.failed ≡ true
  followed :
      (r : Result (Unit {0})) (db : Database)
      → o ≡ some (r, db)
      → c.failed ≡ false
      → (out.0 ≡ r) × (out.1.tables ≡ db) × (out.1.failed ≡ false)

statement-Follows :
    (c : Connection) (o : Result (Unit {0}) × Database)
    → Follows (some o) c (o.0, record c { tables = o.1 })
statement-Follows c o = record {
  depth = refl;
  begun = refl;
  sticky = λ h. h;
  poisoned = λ h. cc;
  followed = λ r db e f. (cc, cc, f);
}

module _ (c : Connection) (f : Database → Outcome) (run : Run) where
  after-Follows :
      (o : Outcome) (r : Result (Unit {0})) (c' : Connection)
      → Follows o c (r, c')
      → Follows (f c'.tables) c' (run c')
      → Follows (then_outcome o f) c (after r run c')
  unfolding after
  after-Follows none (ok u) c' h g = record {
    depth = g.depth ∙ h.depth;
    begun = g.begun ∙ h.begun;
    sticky = λ s. g.sticky (h.sticky s);
    poisoned = λ e. g.sticky (h.poisoned refl);
    followed = λ r db e s. cc;
  }
  after-Follows (some (ok v, db₁)) (ok u) c' h g = record {
    depth = g.depth ∙ h.depth;
    begun = g.begun ∙ h.begun;
    sticky = λ s. g.sticky (h.sticky s);
    poisoned = λ e. elim (Bool-cases c.failed) [
      | inl s ↦ g.sticky (h.sticky s)
      | inr s ↦ let (p, q, k) = h.followed (ok v) db₁ refl s in g.poisoned (ap f q ∙ e)
    ];
    followed =
        λ r db e s. let (p, q, k) = h.followed (ok v) db₁ refl s in g.followed r db (ap f q ∙ e) k;
  }
  after-Follows (some (err v, db₁)) (ok u) c' h g = record {
    depth = g.depth ∙ h.depth;
    begun = g.begun ∙ h.begun;
    sticky = λ s. g.sticky (h.sticky s);
    poisoned = λ e. cc;
    followed = λ r db e s. let (p, q, k) = h.followed (err v) db₁ refl s in cc;
  }
  after-Follows none (err v) c' h g = record {
    depth = h.depth;
    begun = h.begun;
    sticky = λ s. h.sticky s;
    poisoned = λ e. h.poisoned refl;
    followed = λ r db e s. cc;
  }
  after-Follows (some (ok u, db₁)) (err v) c' h g = record {
    depth = h.depth;
    begun = h.begun;
    sticky = λ s. h.sticky s;
    poisoned = λ e. elim (Bool-cases c.failed) [
      | inl s ↦ h.sticky s
      | inr s ↦ let (p, q, k) = h.followed (ok u) db₁ refl s in cc
    ];
    followed = λ r db e s. let (p, q, k) = h.followed (ok u) db₁ refl s in cc;
  }
  after-Follows (some (err u, db₁)) (err v) c' h g = record {
    depth = h.depth;
    begun = h.begun;
    sticky = λ s. h.sticky s;
    poisoned = λ e. cc;
    followed = h.followed;
  }

attempt-Follows :
    (c : Connection) (o : Outcome) (r : Result (Unit {0})) (c' : Connection)
    → Follows o c (r, c')
    → Follows (swallow o) c (ok tt, c')
attempt-Follows c none r c' h = record {
  depth = h.depth;
  begun = h.begun;
  sticky = h.sticky;
  poisoned = λ e. h.poisoned refl;
  followed = λ r' db e f. cc;
}
attempt-Follows c (some (r₁, db₁)) r c' h = record {
  depth = h.depth;
  begun = h.begun;
  sticky = h.sticky;
  poisoned = λ e. cc;
  followed = λ r' db e f. let (p, q, s) = h.followed r₁ db₁ refl f in (cc, q ∙ cc, s);
}

-- An inner write of a connection at depth `suc d`, by what its body comes back with.
nested-Follows :
    (c : Connection) (d : ℕ) (o : Outcome) (r : Result (Unit {0})) (c' : Connection)
    → c.depth ≡ suc d
    → Follows o (record c { depth = suc (suc d) }) (r, c')
    → Follows (joined o) c (r, leave (suc d) (note_failure r c'))
unfolding leave note_failure
nested-Follows c d none (ok u) c' k h = record {
  depth = sym k;
  begun = h.begun;
  sticky = h.sticky;
  poisoned = λ e. h.poisoned refl;
  followed = λ r db e s. cc;
}
nested-Follows c d (some (ok v, db₁)) (ok u) c' k h = record {
  depth = sym k;
  begun = h.begun;
  sticky = h.sticky;
  poisoned = λ e. cc;
  followed = λ r db e s. let (p, q, k₁) = h.followed (ok v) db₁ refl s in (cc, q ∙ cc, k₁);
}
nested-Follows c d (some (err v, db₁)) (ok u) c' k h = record {
  depth = sym k;
  begun = h.begun;
  sticky = h.sticky;
  poisoned = λ e. elim (Bool-cases c.failed) [
    | inl s ↦ h.sticky s
    | inr s ↦ let (p, q, k₁) = h.followed (err v) db₁ refl s in cc
  ];
  followed = λ r db e s. cc;
}
nested-Follows c d none (err u) c' k h = record {
  depth = sym k;
  begun = h.begun;
  sticky = λ s. refl;
  poisoned = λ e. refl;
  followed = λ r db e s. cc;
}
nested-Follows c d (some (ok v, db₁)) (err u) c' k h = record {
  depth = sym k;
  begun = h.begun;
  sticky = λ s. refl;
  poisoned = λ e. refl;
  followed = λ r db e s. let (p, q, k₁) = h.followed (ok v) db₁ refl s in cc;
}
nested-Follows c d (some (err v, db₁)) (err u) c' k h = record {
  depth = sym k;
  begun = h.begun;
  sticky = λ s. refl;
  poisoned = λ e. refl;
  followed = λ r db e s. cc;
}

enter_inside :
    (c : Connection) (d : ℕ) → c.depth ≡ suc d → enter c ≡ record c { depth = suc (suc d) }
unfolding enter
enter_inside c d k = rw k refl

execute-Follows :
    (p : Block) (c : Connection) (d : ℕ)
    → c.depth ≡ suc d
    → Follows (outcome p c.tables) c (execute p c)
unfolding execute outcome write
execute-Follows (statement s) c d k = statement-Follows c (s c.tables)
execute-Follows (sequence p q) c d k =
    let h = execute-Follows p c d k in
    after-Follows c (outcome q) (execute q) (outcome p c.tables) (execute p c).0 (execute p c).1 h
      (execute-Follows q (execute p c).1 d (h.depth ∙ k))
execute-Follows (attempt p) c d k =
    attempt-Follows c (outcome p c.tables) (execute p c).0 (execute p c).1 (execute-Follows p c d k)
execute-Follows (nested p) c d k =
    let inner : Connection = record c { depth = suc (suc d) } in
    let h = execute-Follows p inner (suc d) refl in
    subst₂
      (λ e n.
        Follows (joined (outcome p c.tables)) c
          ((execute p e).0, leave n (note_failure (execute p e).0 (execute p e).1)))
      (sym (enter_inside c d k)) (sym k)
      (nested-Follows c d (outcome p c.tables) (execute p inner).0 (execute p inner).1 k h)

-- What an outermost transaction leaves: the tables its block made when it returns and no block inside
-- it raised, and otherwise the tables from before.
abbrev pub committed : Outcome → Database → Database
committed none before = before
committed (some (ok _, db)) before = db
committed (some (err e, db)) before = before

leave_outermost :
    (c : Connection) (o : Outcome) (r : Result (Unit {0})) (c' : Connection)
    → Follows o (record { tables = c.tables; begun = c.tables; depth = 1; failed = false }) (r, c')
    → (leave 0 (note_failure r c')).tables ≡ committed o c.tables
unfolding leave note_failure
leave_outermost c none (ok u) c' h = rw (h.poisoned refl) h.begun
leave_outermost c (some (ok v, db₁)) (ok u) c' h =
    let (p, q, k) = h.followed (ok v) db₁ refl refl in rw k q
leave_outermost c (some (err v, db₁)) (ok u) c' h =
    let (p, q, k) = h.followed (err v) db₁ refl refl in cc
leave_outermost c none (err u) c' h = h.begun
leave_outermost c (some (ok v, db₁)) (err u) c' h =
    let (p, q, k) = h.followed (ok v) db₁ refl refl in cc
leave_outermost c (some (err v, db₁)) (err u) c' h = h.begun

enter_outermost :
    (c : Connection)
    → c.depth ≡ 0
    → enter c ≡ record { tables = c.tables; begun = c.tables; depth = 1; failed = false }
unfolding enter
enter_outermost c k = rw k refl

leave-depth : (c : Connection) → (leave 0 c).depth ≡ 0
unfolding leave
leave-depth c = elim (Bool-cases c.failed) [ inl e ↦ rw e refl | inr e ↦ rw e refl ]

-- An outermost `write` (one entered at depth 0) around any block leaves the tables that the block made
-- exactly when the block returns and no `write` nested in it raised, also if a `try` swallowed what
-- was raised; otherwise it leaves the tables it found. It always comes back to depth 0.
pub write-committed :
    (p : Block) (c : Connection)
    → c.depth ≡ 0
    → ((write (execute p) c).1.tables ≡ committed (outcome p c.tables) c.tables)
      × ((write (execute p) c).1.depth ≡ 0)
unfolding write
write-committed p c k =
    let outer : Connection = record {
      tables = c.tables;
      begun = c.tables;
      depth = 1;
      failed = false;
    } in
    let h = execute-Follows p outer 0 refl in
    subst₂
      (λ e n.
        ((leave n (note_failure (execute p e).0 (execute p e).1)).tables
          ≡ committed (outcome p c.tables) c.tables)
        × ((leave n (note_failure (execute p e).0 (execute p e).1)).depth ≡ 0))
      (sym (enter_outermost c k)) (sym k)
      (
        leave_outermost c (outcome p c.tables) (execute p outer).0 (execute p outer).1 h,
        leave-depth (note_failure (execute p outer).0 (execute p outer).1),
      )
