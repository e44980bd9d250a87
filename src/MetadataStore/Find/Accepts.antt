-- ===== src/MetadataStore/Find/Accepts.antt =====
-- What it means for a node to match a filter, one node at a time, by what `get` and `metadata_for` say
-- of the node.
use ancestree.Prelude.{
  String, ◌==◌, Bool, true, false, none, some, List, contains, if◌then◌else◌, Result, ok, err,
}
use ancestree.Database.{Database, NodeRow, MetadataRow}
use ancestree.MetadataStore.Read.{lookup, parents_of, metadata_for}
use ancestree.MetadataStore.Find.{
  Cell, flag, parent_list, Argument, Driver, numeric, parent_id_list, node_columns, column,
  Predicate, as_callable, column_condition, same_texts, same_number, decoded_or_nothing,
  column_is_null, column_is, bind_condition, is_null,
}
use ancestree.MetadataStore.Find.Entries.{passes_entry, searchable_value}

-- A predicate that raises refuses the node.
abbrev pub passes : Result Bool → Bool
passes (ok b) = b
passes (err e) = false

abbrev pub is_ok {ℓ} : {A : Type ℓ} → Result A → Bool
is_ok (ok a) = true
is_ok (err e) = false

abbrev pub same_ids : List String → Result (List String) → Bool
same_ids ids (ok wanted) = same_texts ids wanted
same_ids ids (err e) = false

abbrev same_text : String → Result String → Bool
same_text s (ok t) = s == t
same_text s (err e) = false

module _ (driver : Driver) where
  abbrev pub entry_test : Argument → MetadataRow → Bool
  entry_test value m = elim (numeric value) [
    | some i ↦ same_number m.num_value i
    | none ↦ same_text m.value_json (driver.dumps value)
  ]

  abbrev pub entry_supported : Argument → Bool
  entry_supported value = elim (numeric value) [ some i ↦ true | none ↦ is_ok (driver.dumps value) ]

  -- A value that the driver and the JSON library take, in the place where its key sends it.
  unfoldable pub supported : String × Argument → Bool
  supported (key, value) = elim (as_callable value) [
    | some p ↦ true
    | none ↦
        if key == "parent_id"
        then is_ok (parent_id_list value)
        else if contains node_columns key
        then is_ok (bind_condition driver (column_condition (key, value)))
        else entry_supported value
  ]

module _ (driver : Driver) (db : Database) (n : NodeRow) where
  -- What the node holds under a key: None where it has no searchable entry.
  unfoldable pub value_of : String → Cell
  value_of key =
      if key == "parent_id"
      then parent_list (parents_of db.edge n.node_id)
      else if contains node_columns key
      then (if key == "healthy" then flag n.healthy else column key n)
      else decoded_or_nothing (searchable_value (lookup (metadata_for db n.node_id) key))

  unfoldable pub column_test : String × Argument → Bool
  column_test f = elim (column_condition f) [
    | column_is_null key ↦ is_null (column key n)
    | column_is key value ↦ driver.sql_equal (column key n) value
    | _ ↦ false
  ]

  abbrev pub entry_accepts : String × Argument → Bool
  entry_accepts (key, value) =
      passes_entry (entry_test driver value) (lookup (metadata_for db n.node_id) key)

  abbrev pub predicate_accepts : String × Predicate → Bool
  predicate_accepts (key, p) = passes (p (value_of key))

  unfoldable pub accepts : String × Argument → Bool
  accepts (key, value) = elim (as_callable value) [
    | some p ↦ predicate_accepts (key, p)
    | none ↦
        if key == "parent_id"
        then same_ids (parents_of db.edge n.node_id) (parent_id_list value)
        else if contains node_columns key
        then column_test (key, value)
        else entry_accepts (key, value)
  ]
