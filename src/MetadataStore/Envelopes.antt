-- ===== src/MetadataStore/Envelopes.antt =====
-- `metadata_for_many` of src/ancestree/db/metadata_store.py against `metadata_for`.
use mathlib.Core.List.{flatten}
use ancestree.Prelude.{
  String, text_discrete, ◌==◌, ◌≡◌, refl, ap, ap₂, sym, ◌∙◌, Bool, true, false, ◌&&◌, ◌||◌, Option,
  none, some, List, [], ◌∷◌, ◌++◌, append-nil, append_assoc, filter, contains, contains-append,
  length, if◌then◌else◌, arith, Bool-cases, inl, inr, any,
}
use ancestree.Database.{Database, EntryRow, MetadataRow}
use ancestree.MetadataStore.Write.{has_entry}
use ancestree.MetadataStore.Read.{Dict, lookup, insert, batched, metadata_for}
use ancestree.MetadataStore.Batches.{lookup-insert, batched-flatten}
use ancestree.MetadataStore.Find.Entries.{HasKeys, entries_of}

abbrev or_no_entries : Option (Dict MetadataRow) → Dict MetadataRow
or_no_entries none = []
or_no_entries (some d) = d

-- `{node_id: {} for node_id in node_ids}`
unfoldable pub empty_entries : List String → Dict (Dict MetadataRow) → Dict (Dict MetadataRow)
empty_entries [] out = out
empty_entries (node_id ∷ node_ids) out = empty_entries node_ids (insert node_id [] out)

-- `out[row["node_id"]][row["key"]] = ...`; the node of a row is among the ids of its batch, so in `out`.
unfoldable pub add_entries : List EntryRow → Dict (Dict MetadataRow) → Dict (Dict MetadataRow)
add_entries [] out = out
add_entries (m ∷ rows) out =
    add_entries rows
      (insert m.owner (insert m.entry.key m.entry (or_no_entries (lookup out m.owner))) out)

unfoldable pub entry_batches :
    Database → List (List String) → Dict (Dict MetadataRow) → Dict (Dict MetadataRow)
entry_batches db [] out = out
entry_batches db (batch ∷ batches) out =
    entry_batches db batches (add_entries (filter (λ m. contains batch m.owner) db.metadata) out)

unfoldable pub metadata_for_many : Database → List String → Dict (Dict MetadataRow)
metadata_for_many db node_ids =
    entry_batches db (batched (length node_ids) node_ids) (empty_entries node_ids [])

abbrev or_else : Option MetadataRow → Option MetadataRow → Option MetadataRow
or_else none old = old
or_else (some new) old = some new

abbrev is_some {ℓ} : {A : Type ℓ} → Option A → Bool
is_some none = false
is_some (some a) = true

is_some_value {ℓ} : {A : Type ℓ} (o : Option A) → is_some o ≡ true → (a : A) × (o ≡ some a)
is_some_value none h = cc
is_some_value (some a) h = (a, refl)

has_entry-filter :
    (batch : List String) (owner key : String) (rows : List EntryRow)
    → has_entry rows owner key ≡ false
    → has_entry (filter (λ m. contains batch m.owner) rows) owner key ≡ false
unfolding has_entry any filter
has_entry-filter batch owner key [] h = refl
has_entry-filter batch owner key (m ∷ rows) h =
    ground (arith, has_entry-filter batch owner key rows)

entries_absent :
    (id key : String) (rows : List EntryRow)
    → has_entry rows id key ≡ false
    → lookup (entries_of id rows) key ≡ none
unfolding has_entry any filter lookup
entries_absent id key [] h = refl
entries_absent id key (m ∷ rows) h = ground (arith, entries_absent id key rows)

lookup-if :
    (b : Bool) (es : Dict MetadataRow) (key : String)
    → lookup (if b then es else []) key ≡ (if b then lookup es key else none)
unfolding lookup
lookup-if true es key = refl
lookup-if false es key = refl

or_else-same :
    (b : Bool) (c : Bool) (o : Option MetadataRow)
    → or_else (if b then o else none) (if c then o else none) ≡ (if c || b then o else none)
or_else-same true true none = refl
or_else-same true true (some m) = refl
or_else-same true false none = refl
or_else-same true false (some m) = refl
or_else-same false true o = refl
or_else-same false false o = refl

module _ (id : String) where
  is_some-add_entries :
      (rows : List EntryRow) (out : Dict (Dict MetadataRow))
      → is_some (lookup out id) ≡ true
      → is_some (lookup (add_entries rows out) id) ≡ true
  unfolding add_entries
  is_some-add_entries [] out h = h
  is_some-add_entries (m ∷ rows) out h =
      let new = insert m.entry.key m.entry (or_no_entries (lookup out m.owner)) in
      is_some-add_entries rows (insert m.owner new out)
        (ground (arith, lookup-insert m.owner new out id))

  is_some-entry_batches :
      (db : Database) (batches : List (List String)) (out : Dict (Dict MetadataRow))
      → is_some (lookup out id) ≡ true
      → is_some (lookup (entry_batches db batches out) id) ≡ true
  unfolding entry_batches
  is_some-entry_batches db [] out h = h
  is_some-entry_batches db (batch ∷ batches) out h =
      is_some-entry_batches db batches
        (add_entries (filter (λ m. contains batch m.owner) db.metadata) out)
        (is_some-add_entries (filter (λ m. contains batch m.owner) db.metadata) out h)

  -- Every id has an empty dict to begin with.
  lookup-empty_entries :
      (ids : List String) (out : Dict (Dict MetadataRow))
      → lookup (empty_entries ids out) id ≡ (if contains ids id then some [] else lookup out id)
  unfolding empty_entries contains
  lookup-empty_entries [] out = refl
  lookup-empty_entries (i ∷ ids) out =
      lookup-empty_entries ids (insert i [] out) ∙ ground (arith, lookup-insert i [] out id)

  module _ (key : String) where
    abbrev value_in : Dict (Dict MetadataRow) → Option MetadataRow
    value_in out = lookup (or_no_entries (lookup out id)) key

    value_in-insert :
        (m : EntryRow) (out : Dict (Dict MetadataRow))
        → value_in
            (insert m.owner (insert m.entry.key m.entry (or_no_entries (lookup out m.owner))) out)
          ≡ (if (m.owner == id) && (m.entry.key == key) then some m.entry else value_in out)
    value_in-insert m out =
        let old = or_no_entries (lookup out m.owner) in
        ap (λ o. lookup (or_no_entries o) key)
          (lookup-insert m.owner (insert m.entry.key m.entry old) out id)
        ∙ elim (text_discrete m.owner id) [
          | yes e ↦
              let same : lookup old key ≡ value_in out =
                ap (λ i. lookup (or_no_entries (lookup out i)) key) e in
              ground (arith, lookup-insert m.entry.key m.entry old key)
          | no e ↦ ground arith
        ]

    value_in-add_entries :
        (rows : List EntryRow) (out : Dict (Dict MetadataRow))
        → HasKeys rows
        → value_in (add_entries rows out) ≡ or_else (lookup (entries_of id rows) key) (value_in out)
    unfolding add_entries lookup filter
    value_in-add_entries [] out k = refl
    value_in-add_entries (m ∷ rows) out k =
        let out' =
          insert m.owner (insert m.entry.key m.entry (or_no_entries (lookup out m.owner))) out in
        value_in-add_entries rows out' k.1
        ∙ ap (or_else (lookup (entries_of id rows) key)) (value_in-insert m out)
        ∙ elim (text_discrete m.owner id) [
          | no o ↦ ground arith
          | yes o ↦ elim (text_discrete m.entry.key key) [
            | no e ↦ ground arith
            | yes e ↦
                let absent : has_entry rows id key ≡ false =
                  ap₂ (has_entry rows) (sym o) (sym e) ∙ k.0 in
                ground (arith, entries_absent id key rows absent)
          ]
        ]

  module _ (batch : List String) where
    HasKeys-filter :
        (rows : List EntryRow) → HasKeys rows → HasKeys (filter (λ m. contains batch m.owner) rows)
    unfolding filter
    HasKeys-filter [] k = tt
    HasKeys-filter (m ∷ rows) k = elim (Bool-cases (contains batch m.owner)) [
      | inl e ↦ rw e (has_entry-filter batch m.owner m.entry.key rows k.0, HasKeys-filter rows k.1)
      | inr e ↦ rw e (HasKeys-filter rows k.1)
    ]

    entries_of-filter :
        (rows : List EntryRow)
        → entries_of id (filter (λ m. contains batch m.owner) rows)
          ≡ (if contains batch id then entries_of id rows else [])
    unfolding filter
    entries_of-filter [] = ground arith
    entries_of-filter (m ∷ rows) = elim (text_discrete m.owner id) [
      | yes e ↦
          let same : contains batch m.owner ≡ contains batch id = ap (contains batch) e in
          ground (arith, entries_of-filter rows)
      | no e ↦ ground (arith, entries_of-filter rows)
    ]

  module _ (key : String) (db : Database) (unique : HasKeys db.metadata) where
    value_in-entry_batches :
        (batches : List (List String)) (seen : List String) (out : Dict (Dict MetadataRow))
        → value_in key out ≡ (if contains seen id then lookup (metadata_for db id) key else none)
        → value_in key (entry_batches db batches out) ≡ (
            if contains (seen ++ flatten batches) id then lookup (metadata_for db id) key else none)
    unfolding entry_batches flatten metadata_for lookup
    value_in-entry_batches [] seen out h =
        h
        ∙ ap (λ xs. if contains xs id then lookup (metadata_for db id) key else none)
            (sym (append-nil seen))
    value_in-entry_batches (batch ∷ batches) seen out h =
        let rows = filter (λ (m : EntryRow). contains batch m.owner) db.metadata in
        value_in-entry_batches batches (seen ++ batch) (add_entries rows out) (
          value_in-add_entries key rows out (HasKeys-filter batch db.metadata unique)
          ∙ ap (λ es. or_else (lookup es key) (value_in key out))
              (entries_of-filter batch db.metadata)
          ∙ ap₂ or_else (lookup-if (contains batch id) (entries_of id db.metadata) key) h
          ∙ or_else-same (contains batch id) (contains seen id) (lookup (metadata_for db id) key)
          ∙ ap (λ b. if b then lookup (metadata_for db id) key else none)
              (sym (contains-append seen batch id)))
        ∙ ap (λ xs. if contains xs id then lookup (metadata_for db id) key else none)
            (append_assoc seen batch (flatten batches))

-- For each id it is given, `metadata_for_many` holds a dict with the entries that `metadata_for` gives
-- for that node, however the ids fall into batches, when no two rows of the metadata have the same
-- node and key.
pub metadata_for_many-metadata_for :
    (db : Database) (ids : List String) (id : String)
    → HasKeys db.metadata
    → contains ids id ≡ true
    → (entries : Dict MetadataRow) × (lookup (metadata_for_many db ids) id ≡ some entries)
      × ((key : String) → lookup entries key ≡ lookup (metadata_for db id) key)
unfolding metadata_for_many lookup contains
metadata_for_many-metadata_for db ids id unique asked =
    let start = empty_entries ids [] in
    let begun : lookup start id ≡ some [] = lookup-empty_entries id ids [] ∙ rw asked refl in
    let out = entry_batches db (batched (length ids) ids) start in
    let there : is_some (lookup out id) ≡ true =
      is_some-entry_batches id db (batched (length ids) ids) start (ap is_some begun) in
    let (entries, e) = is_some_value (lookup out id) there in
    (
      entries,
      e,
      λ key.
          ap (λ o. lookup (or_no_entries o) key) (sym e)
          ∙ value_in-entry_batches id key db unique (batched (length ids) ids) [] start
              (ap (λ o. lookup (or_no_entries o) key) begun)
          ∙ ap (λ xs. if contains xs id then lookup (metadata_for db id) key else none)
              (batched-flatten (length ids) ids (omega arith))
          ∙ rw asked refl,
    )
