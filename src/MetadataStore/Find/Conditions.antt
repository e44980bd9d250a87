-- ===== src/MetadataStore/Find/Conditions.antt =====
-- The WHERE clause of `find` against the filters on columns and on entries.
use ancestree.Prelude.{
  ℕ, String, ◌==◌, ◌≡◌, refl, ap, ◌∙◌, Bool, true, ◌&&◌, Option, none, some, List, [], ◌∷◌, ◌++◌,
  map, all, ok, Option-cases, inl, inr, arith,
}
use ancestree.Database.{Database, NodeRow, MetadataRow}
use ancestree.MetadataStore.Read.{lookup, metadata_for}
use ancestree.MetadataStore.Find.{
  Argument, null, boolean, number, word, node_like, sequence, callable, Driver, numeric, Stages,
  Condition, column_condition, entry_number, entry_value, entry_condition, entry_conditions,
  bind_condition, bind_all, holds, statement, same_number,
}
use ancestree.MetadataStore.Find.Entries.{HasKeys, any-hit, passes_entry}
use ancestree.MetadataStore.Find.Accepts.{
  is_ok, entry_supported, entry_test, column_test, entry_accepts,
}
use ancestree.MetadataStore.Find.Staging.{is_ok_value, stages_supported}

passes_entry-ext :
    (f g : MetadataRow → Bool)
    → ((m : MetadataRow) → f m ≡ g m)
    → (o : Option MetadataRow) → passes_entry f o ≡ passes_entry g o
passes_entry-ext f g h none = refl
passes_entry-ext f g h (some m) = ap (λ b. m.searchable && b) (h m)

module _ (driver : Driver) (db : Database) where
  holds-column :
      (f : String × Argument) (n : NodeRow)
      → holds driver db (column_condition f) n ≡ column_test driver db n f
  unfolding holds column_test
  holds-column (key, null) n = refl
  holds-column (key, boolean b) n = refl
  holds-column (key, number i) n = refl
  holds-column (key, word s) n = refl
  holds-column (key, node_like i) n = refl
  holds-column (key, sequence is) n = refl
  holds-column (key, callable p) n = refl

  -- The terms for the stages, bound, hold where the stages accept.
  pub record Stated (tests : NodeRow → Bool) (conditions : List Condition) : Type 0 where
    pub bound : bind_all driver conditions ≡ ok tt
    pub meets : (n : NodeRow) → all (λ c. holds driver db c n) conditions ≡ tests n

  module _ (unique : HasKeys db.metadata) where
    Stated_number :
        (key : String) (value : Argument) (i : ℕ)
        → numeric value ≡ some i
        → (n : NodeRow)
        → holds driver db (entry_number key i) n ≡ entry_accepts driver db n (key, value)
    unfolding holds
    Stated_number key value i e n =
        any-hit (λ m. same_number m.num_value i) n.node_id key db unique
        ∙ passes_entry-ext _ (entry_test driver value) (λ m. rw (entry_test, e) refl)
            (lookup (metadata_for db n.node_id) key)

    Stated_value :
        (key text : String) (value : Argument)
        → numeric value ≡ none
        → driver.dumps value ≡ ok text
        → (n : NodeRow)
        → holds driver db (entry_value key text) n ≡ entry_accepts driver db n (key, value)
    unfolding holds
    Stated_value key text value e d n =
        any-hit (λ m. m.value_json == text) n.node_id key db unique
        ∙ passes_entry-ext _ (entry_test driver value) (λ m. rw (entry_test, e, d) refl)
            (lookup (metadata_for db n.node_id) key)

    Stated-cons :
        (f : String × Argument) (c : Condition) (fs : List (String × Argument))
        (cs : List Condition) (test : String × Argument → NodeRow → Bool)
        → bind_condition driver c ≡ ok tt
        → ((n : NodeRow) → holds driver db c n ≡ test f n)
        → Stated (λ n. all (λ g. test g n) fs) cs
        → Stated (λ n. all (λ g. test g n) (f ∷ fs)) (c ∷ cs)
    unfolding all bind_all
    Stated-cons f c fs cs test b h k = record {
      bound = rw (b) k.bound;
      meets = λ n. ground (arith, h n, k.meets n);
    }

    module _ (key : String) (value : Argument) (fs : List (String × Argument))
        (cs : List Condition) where
      conditions_number :
          (i : ℕ)
          → numeric value ≡ some i
          → entry_conditions driver fs ≡ ok cs
          → entry_conditions driver ((key, value) ∷ fs) ≡ ok (entry_number key i ∷ cs)
      unfolding entry_conditions
      conditions_number i e q = rw (entry_conditions, entry_condition, e, q) refl

      conditions_value :
          (text : String)
          → numeric value ≡ none
          → driver.dumps value ≡ ok text
          → entry_conditions driver fs ≡ ok cs
          → entry_conditions driver ((key, value) ∷ fs) ≡ ok (entry_value key text ∷ cs)
      unfolding entry_conditions
      conditions_value text e d q = rw (entry_conditions, entry_condition, e, d, q) refl

    entry_conditions-Stated :
        (fs : List (String × Argument))
        → all (λ f. entry_supported driver f.1) fs ≡ true
        → (cs : List Condition) × (entry_conditions driver fs ≡ ok cs)
          × Stated (λ n. all (λ f. entry_accepts driver db n f) fs) cs
    unfolding entry_conditions all bind_all
    entry_conditions-Stated [] h = ([], refl, record { bound = refl; meets = λ n. refl })
    entry_conditions-Stated ((key, value) ∷ fs) h =
        let (cs, q, k) = entry_conditions-Stated fs (ground (arith, h)) in
        let here : entry_supported driver value ≡ true = ground (arith, h) in
        elim (Option-cases (numeric value)) [
          | inr (i, e) ↦ (
            entry_number key i ∷ cs,
            conditions_number key value fs cs i e q,
            Stated-cons (key, value) (entry_number key i) fs cs (λ f n. entry_accepts driver db n f)
                refl (Stated_number key value i e) k,
          )
          | inl e ↦
              let (text, d) = is_ok_value (driver.dumps value) (rw (entry_supported, e) at here) in
              (
                entry_value key text ∷ cs,
                conditions_value key value fs cs text e d q,
                Stated-cons (key, value) (entry_value key text) fs cs
                    (λ f n. entry_accepts driver db n f) refl (Stated_value key text value e d) k,
              )
        ]

    columns-Stated :
        (fs : List (String × Argument)) (cs : List Condition) (tests : NodeRow → Bool)
        → all (λ f. is_ok (bind_condition driver (column_condition f))) fs ≡ true
        → Stated tests cs
        → Stated (λ n. all (column_test driver db n) fs && tests n) (map column_condition fs ++ cs)
    unfolding all bind_all
    columns-Stated [] cs tests h k = record {
      bound = k.bound;
      meets = λ n. k.meets n ∙ ground arith;
    }
    columns-Stated (f ∷ fs) cs tests h k =
        let rest = columns-Stated fs cs tests (ground (arith, h)) k in
        let (done, b) =
          is_ok_value (bind_condition driver (column_condition f)) (ground (arith, h)) in
        record {
          bound = rw b rest.bound;
          meets = λ n. ground (arith, holds-column f n, rest.meets n);
        }

    pub statement-Stated :
        (s : Stages)
        → stages_supported driver db s ≡ true
        → (cs : List Condition) × (statement driver s ≡ ok cs)
          × Stated
              (λ n.
                all (column_test driver db n) s.column_eq
                && all (entry_accepts driver db n) s.metadata_eq)
              cs
    unfolding statement
    statement-Stated s h =
        let (es, q, k) = entry_conditions-Stated s.metadata_eq (ground (arith, h)) in
        let whole =
          columns-Stated s.column_eq es (λ n. all (entry_accepts driver db n) s.metadata_eq)
            (ground (arith, h)) k in
        (map column_condition s.column_eq ++ es, rw (q, whole.bound) refl, whole)
