-- ===== src/MetadataStore/Find/Staging.antt =====
-- The loop of `find` over the filters sorts them into stages that accept what the filters accept.
use ancestree.Prelude.{
  String, text_discrete, ◌==◌, ◌≡◌, refl, ap, sym, ◌∙◌, Bool, true, false, not, ◌&&◌, Option, none,
  some, List, [], ◌∷◌, ◌++◌, map, contains, IsDistinct, Result, ok, err, all, Option-cases,
  Bool-cases, inl, inr, arith,
}
use ancestree.Database.{Database, NodeRow}
use ancestree.MetadataStore.Read.{parents_of}
use ancestree.MetadataStore.Find.{
  Argument, Driver, Predicate, parent_id_list, node_columns, Stages, as_callable, classify,
  column_condition, bind_condition, same_texts,
}
use ancestree.MetadataStore.Find.Accepts.{
  is_ok, supported, entry_supported, column_test, entry_accepts, predicate_accepts, accepts,
}

abbrev pub keys : List (String × Argument) → List String
keys filters = map (λ f. f.0) filters

all-concat {ℓ} :
    {A : Type ℓ} (p : A → Bool) (xs : List A) (x : A) → all p (xs ++ x ∷ []) ≡ (all p xs && p x)
unfolding all
all-concat p [] x = ground arith
all-concat p (y ∷ xs) x = ground (arith, all-concat p xs x)

pub all_head {ℓ} :
    {A : Type ℓ} (p : A → Bool) (x : A) (xs : List A) → all p (x ∷ xs) ≡ true → p x ≡ true
unfolding all
all_head p x xs h = ground arith

pub all_tail {ℓ} :
    {A : Type ℓ} (p : A → Bool) (x : A) (xs : List A) → all p (x ∷ xs) ≡ true → all p xs ≡ true
unfolding all
all_tail p x xs h = ground arith

pub is_ok_value {ℓ} : {A : Type ℓ} (r : Result A) → is_ok r ≡ true → (a : A) × (r ≡ ok a)
is_ok_value (ok a) h = (a, refl)
is_ok_value (err e) h = cc

module _ (driver : Driver) (key : String) (value : Argument) (e : as_callable value ≡ none) where
  supported_parent :
      (key == "parent_id") ≡ true → supported driver (key, value) ≡ is_ok (parent_id_list value)
  unfolding supported
  supported_parent q = rw (supported, e, q) refl

  module _ (q : (key == "parent_id") ≡ false) where
    supported_column :
        contains node_columns key ≡ true
        → supported driver (key, value)
          ≡ is_ok (bind_condition driver (column_condition (key, value)))
    unfolding supported
    supported_column c = rw (supported, e, q, c) refl

    pub supported_entry :
        contains node_columns key ≡ false
        → supported driver (key, value) ≡ entry_supported driver value
    unfolding supported
    supported_entry c = rw (supported, e, q, c) refl

module _ (driver : Driver) (db : Database) (n : NodeRow) (key : String) (value : Argument)
    (e : as_callable value ≡ none) (q : (key == "parent_id") ≡ false) where
  accepts_column :
      contains node_columns key ≡ true
      → accepts driver db n (key, value) ≡ column_test driver db n (key, value)
  unfolding accepts
  accepts_column c = rw (accepts, e, q, c) refl

  pub accepts_entry :
      contains node_columns key ≡ false
      → accepts driver db n (key, value) ≡ entry_accepts driver db n (key, value)
  unfolding accepts
  accepts_entry c = rw (accepts, e, q, c) refl

module _ (driver : Driver) (db : Database) where
  abbrev pub parents_fit : NodeRow → Option (List String) → Bool
  parents_fit n none = true
  parents_fit n (some ids) = same_texts (parents_of db.edge n.node_id) ids

  -- What the stages accept.
  abbrev pub stages_fit : Stages → NodeRow → Bool
  stages_fit s n =
      all (column_test driver db n) s.column_eq
      && all (entry_accepts driver db n) s.metadata_eq
      && all (predicate_accepts driver db n) s.predicates
      && parents_fit n s.parent_eq

  abbrev pub stages_supported : Stages → Bool
  stages_supported s =
      all (λ f. is_ok (bind_condition driver (column_condition f))) s.column_eq
      && all (λ f. entry_supported driver f.1) s.metadata_eq

  -- No parents yet, or none to come.
  abbrev one_parent : Option (List String) → List (String × Argument) → Bool
  one_parent none filters = true
  one_parent (some ids) filters = not (contains (keys filters) "parent_id")

  pub record Staged (filters : List (String × Argument)) (s s' : Stages) : Type 0 where
    pub classified : classify filters s ≡ ok s'
    pub fits :
        (n : NodeRow) → stages_fit s' n ≡ (stages_fit s n && all (accepts driver db n) filters)
    pub fine : stages_supported s ≡ true → stages_supported s' ≡ true

  module _ (key : String) (value : Argument) (filters : List (String × Argument))
      (s s' : Stages) where
    Staged-callable :
        (p : Predicate)
        → as_callable value ≡ some p
        → Staged filters (record s { predicates = s.predicates ++ (key, p) ∷ [] }) s'
        → Staged ((key, value) ∷ filters) s s'
    unfolding classify all accepts
    Staged-callable p e k = record {
      classified = rw (classify, e) k.classified;
      fits = λ n.
          k.fits n
          ∙ rw (accepts, e)
              (rw (all-concat (predicate_accepts driver db n) s.predicates (key, p))
                (ground arith));
      fine = λ q. k.fine q;
    }

    module _ (e : as_callable value ≡ none) where
      Staged-parent :
          (ids : List String)
          → (key == "parent_id") ≡ true
          → parent_id_list value ≡ ok ids
          → s.parent_eq ≡ none
          → Staged filters (record s { parent_eq = some ids }) s'
          → Staged ((key, value) ∷ filters) s s'
      unfolding classify all accepts
      Staged-parent ids q listed first k = record {
        classified = rw (classify, e, q, listed) k.classified;
        fits = λ n. k.fits n ∙ rw (accepts, e, q, listed, first) (ground arith);
        fine = λ f. k.fine f;
      }

      Staged-column :
          (key == "parent_id") ≡ false
          → contains node_columns key ≡ true
          → is_ok (bind_condition driver (column_condition (key, value))) ≡ true
          → Staged filters (record s { column_eq = s.column_eq ++ (key, value) ∷ [] }) s'
          → Staged ((key, value) ∷ filters) s s'
      unfolding classify all
      Staged-column q c bound k = record {
        classified = rw (classify, e, q, c) k.classified;
        fits = λ n.
            k.fits n
            ∙ (let now : accepts driver db n (key, value) ≡ column_test driver db n (key, value) =
                  accepts_column driver db n key value e q c in
                ground (arith, all-concat (column_test driver db n) s.column_eq (key, value)));
        fine = λ f. k.fine (
            ground (
              arith,
              all-concat
                  (λ (g : String × Argument). is_ok (bind_condition driver (column_condition g)))
                  s.column_eq (key, value),
            ));
      }

      Staged-entry :
          (key == "parent_id") ≡ false
          → contains node_columns key ≡ false
          → entry_supported driver value ≡ true
          → Staged filters (record s { metadata_eq = s.metadata_eq ++ (key, value) ∷ [] }) s'
          → Staged ((key, value) ∷ filters) s s'
      unfolding classify all
      Staged-entry q c encoded k = record {
        classified = rw (classify, e, q, c) k.classified;
        fits = λ n.
            k.fits n
            ∙ (let now : accepts driver db n (key, value) ≡ entry_accepts driver db n (key, value) =
                  accepts_entry driver db n key value e q c in
                ground (arith, all-concat (entry_accepts driver db n) s.metadata_eq (key, value)));
        fine = λ f. k.fine (
            ground (
              arith,
              all-concat (λ (g : String × Argument). entry_supported driver g.1) s.metadata_eq
                  (key, value),
            ));
      }

  pub classify-Staged :
      (filters : List (String × Argument)) (s : Stages)
      → all (supported driver) filters ≡ true
      → IsDistinct (keys filters)
      → one_parent s.parent_eq filters ≡ true
      → (s' : Stages) × Staged filters s s'
  unfolding classify all contains
  classify-Staged [] s h d o =
      (s, record { classified = refl; fits = λ n. ground arith; fine = λ q. q })
  classify-Staged ((key, value) ∷ filters) s h d o = elim (Option-cases (as_callable value)) [
    | inr (p, e) ↦
        let (s', k) =
          classify-Staged filters (record s { predicates = s.predicates ++ (key, p) ∷ [] })
            (all_tail (supported driver) (key, value) filters h) d.1 (ground arith) in
        (s', Staged-callable key value filters s s' p e k)
    | inl e ↦ elim (text_discrete key "parent_id") [
      | yes q ↦
          let q' : (key == "parent_id") ≡ true = ground arith in
          let (ids, listed) = is_ok_value (parent_id_list value) (
            sym (supported_parent driver key value e q')
            ∙ all_head (supported driver) (key, value) filters h) in
          let (s', k) =
            classify-Staged filters (record s { parent_eq = some ids })
              (all_tail (supported driver) (key, value) filters h) d.1
              (ap (λ k. not (contains (keys filters) k)) (sym q) ∙ ap not d.0) in
          (s', Staged-parent key value filters s s' e ids q' listed (ground (arith, o)) k)
      | no q ↦
          let q' : (key == "parent_id") ≡ false = ground arith in
          elim (Bool-cases (contains node_columns key)) [
            | inl c ↦
                let bound : is_ok (bind_condition driver (column_condition (key, value))) ≡ true =
                  sym (supported_column driver key value e q' c)
                  ∙ all_head (supported driver) (key, value) filters h in
                let (s', k) =
                  classify-Staged filters
                    (record s { column_eq = s.column_eq ++ (key, value) ∷ [] })
                    (all_tail (supported driver) (key, value) filters h) d.1 (ground arith) in
                (s', Staged-column key value filters s s' e q' c bound k)
            | inr c ↦
                let encoded : entry_supported driver value ≡ true =
                  sym (supported_entry driver key value e q' c)
                  ∙ all_head (supported driver) (key, value) filters h in
                let (s', k) =
                  classify-Staged filters
                    (record s { metadata_eq = s.metadata_eq ++ (key, value) ∷ [] })
                    (all_tail (supported driver) (key, value) filters h) d.1 (ground arith) in
                (s', Staged-entry key value filters s s' e q' c encoded k)
          ]
    ]
  ]
