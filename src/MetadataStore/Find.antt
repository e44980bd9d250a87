-- ===== src/MetadataStore/Find.antt =====
-- `find` of src/ancestree/db/metadata_store.py: the search for nodes by filters.
pub mod Parents
pub mod Entries
pub mod Staging
pub mod Accepts
pub mod Conditions
pub mod Answer
use ancestree.Prelude.{
  ℕ, String, ◌==◌, ◌=?◌, Bool, true, false, not, ◌&&◌, ◌||◌, leb, text_leb, Option, none, some,
  List, [], ◌∷◌, ◌++◌, map, filter, any, all, contains, sort_by, if◌then◌else◌, Result, ok, err,
  Error, type_error, ◌>>=◌, ◌>>◌,
}
use ancestree.Database.{Database, NodeRow, EdgeRow, EntryRow}
use ancestree.MetadataStore.Read.{Dict, lookup, insert, edge_order, by_age}

-- What a predicate is handed: None, the value of a column, a decoded JSON value (by its canonical
-- text), or the list of the parents.
pub data Cell : Type 0 where
  nothing : Cell
  flag : Bool → Cell
  integer real : ℕ → Cell
  str decoded : String → Cell
  parent_list : List String → Cell

-- An item of a list: an id, or a Node or handle, by its id.
pub data Item : Type 0 where
  identifier handle : String → Item

-- The value of a filter. A number is an int or a float, by its code.
pub data Argument : Type 0 where
  null : Argument
  boolean : Bool → Argument
  number : ℕ → Argument
  word : String → Argument
  node_like : String → Argument
  sequence : List Item → Argument
  callable : (Cell → Result Bool) → Argument

-- What the driver and the JSON library do: `dumps` and `bind` raise on values they do not support,
-- and `sql_equal` is SQLite's `=` between a column and a parameter.
pub record Driver : Type 0 where
  pub dumps : Argument → Result String
  pub bind : Argument → Result (Unit {0})
  pub sql_equal : Cell → Argument → Bool

abbrev pub numeric : Argument → Option ℕ
numeric (number n) = some n
numeric null = none
numeric (boolean b) = none
numeric (word s) = none
numeric (node_like i) = none
numeric (sequence is) = none
numeric (callable p) = none

abbrev pub node_id_of : Item → String
node_id_of (identifier i) = i
node_id_of (handle i) = i

abbrev pub parent_id_list : Argument → Result (List String)
parent_id_list null = err type_error
parent_id_list (boolean b) = err type_error
parent_id_list (number n) = err type_error
parent_id_list (word s) = ok (s ∷ [])
parent_id_list (node_like i) = ok (i ∷ [])
parent_id_list (sequence items) = ok (map node_id_of items)
parent_id_list (callable p) = err type_error

abbrev or_nothing : (ℕ → Cell) → Option ℕ → Cell
or_nothing f none = nothing
or_nothing f (some n) = f n

abbrev str_or_nothing : Option String → Cell
str_or_nothing none = nothing
str_or_nothing (some s) = str s

abbrev pub node_columns : List String
node_columns =
    "node_id" ∷ "step_type" ∷ "generation" ∷ "healthy" ∷ "duration_seconds" ∷ "size_bytes"
    ∷ "content_hash" ∷ "created_utc" ∷ "created_epoch_seconds" ∷ []

-- `row[key]`, for a key of `_NODE_COLUMNS`. SQLite keeps a Boolean as 0 or 1.
unfoldable pub column : String → NodeRow → Cell
column key row =
    if key == "node_id"
    then str row.node_id
    else if key == "step_type"
    then str row.step_type
    else if key == "generation"
    then integer row.generation
    else if key == "healthy"
    then integer (if row.healthy then 1 else 0)
    else if key == "duration_seconds"
    then or_nothing real row.duration
    else if key == "size_bytes"
    then integer row.size_bytes
    else if key == "content_hash"
    then str_or_nothing row.content_hash
    else if key == "created_utc"
    then str row.created_utc
    else if key == "created_epoch_seconds"
    then real row.created_epoch
    else nothing

abbrev pub is_null : Cell → Bool
is_null nothing = true
is_null (flag b) = false
is_null (integer n) = false
is_null (real n) = false
is_null (str s) = false
is_null (decoded s) = false
is_null (parent_list ps) = false

abbrev pub Predicate : Type 0
Predicate = Cell → Result Bool

-- `column_eq`, `metadata_eq`, `predicates` and `parent_eq`, and whether there is a parent filter.
pub record Stages : Type 0 where
  pub column_eq : List (String × Argument)
  pub metadata_eq : List (String × Argument)
  pub predicates : List (String × Predicate)
  pub parent_eq : Option (List String)

abbrev pub as_callable : Argument → Option Predicate
as_callable (callable p) = some p
as_callable null = none
as_callable (boolean b) = none
as_callable (number n) = none
as_callable (word s) = none
as_callable (node_like i) = none
as_callable (sequence is) = none

-- `for key, value in filters.items()`
unfoldable pub classify : List (String × Argument) → Stages → Result Stages
classify [] s = ok s
classify ((key, value) ∷ filters) s = elim (as_callable value) [
  | some p ↦ classify filters (record s { predicates = s.predicates ++ (key, p) ∷ [] })
  | none ↦
      let by_parent =
        parent_id_list value >>= λ ids. classify filters (record s { parent_eq = some ids }) in
      let by_column =
        classify filters (record s { column_eq = s.column_eq ++ (key, value) ∷ [] }) in
      let by_entry =
        classify filters (record s { metadata_eq = s.metadata_eq ++ (key, value) ∷ [] }) in
      if key == "parent_id"
      then by_parent
      else if contains node_columns key
      then by_column
      else by_entry
]

-- A term of the WHERE clause with its parameters.
pub data Condition : Type 0 where
  column_is_null : String → Condition
  column_is : String → Argument → Condition
  entry_number : String → ℕ → Condition
  entry_value : String → String → Condition

abbrev pub column_condition : String × Argument → Condition
column_condition (key, null) = column_is_null key
column_condition (key, boolean b) = column_is key (boolean b)
column_condition (key, number n) = column_is key (number n)
column_condition (key, word s) = column_is key (word s)
column_condition (key, node_like i) = column_is key (node_like i)
column_condition (key, sequence is) = column_is key (sequence is)
column_condition (key, callable p) = column_is key (callable p)

unfoldable pub same_texts : List String → List String → Bool
same_texts [] [] = true
same_texts [] (y ∷ ys) = false
same_texts (x ∷ xs) [] = false
same_texts (x ∷ xs) (y ∷ ys) = (x == y) && same_texts xs ys

abbrev pub same_number : Option ℕ → ℕ → Bool
same_number none n = false
same_number (some m) n = m =? n

module _ (driver : Driver) where
  abbrev pub entry_condition : String × Argument → Result Condition
  entry_condition (key, value) = elim (numeric value) [
    | some n ↦ ok (entry_number key n)
    | none ↦ driver.dumps value >>= λ text. ok (entry_value key text)
  ]

  unfoldable pub entry_conditions : List (String × Argument) → Result (List Condition)
  entry_conditions [] = ok []
  entry_conditions (f ∷ filters) =
      entry_condition f >>= λ c. entry_conditions filters >>= λ cs. ok (c ∷ cs)

  abbrev pub bind_condition : Condition → Result (Unit {0})
  bind_condition (column_is_null key) = ok tt
  bind_condition (column_is key value) = driver.bind value
  bind_condition (entry_number key n) = ok tt
  bind_condition (entry_value key text) = ok tt

  unfoldable pub bind_all : List Condition → Result (Unit {0})
  bind_all [] = ok tt
  bind_all (c ∷ cs) = bind_condition c >> bind_all cs

  -- `node_id IN (SELECT node_id FROM metadata WHERE key = ? AND searchable = 1 AND ...)`
  unfoldable pub holds : Database → Condition → NodeRow → Bool
  holds db (column_is_null key) n = is_null (column key n)
  holds db (column_is key value) n = driver.sql_equal (column key n) value
  holds db (entry_number key i) n =
      any
        (λ m.
          (m.owner == n.node_id)
          && (m.entry.key == key)
          && m.entry.searchable
          && same_number m.entry.num_value i)
        db.metadata
  holds db (entry_value key text) n =
      any
        (λ m.
          (m.owner == n.node_id)
          && (m.entry.key == key)
          && m.entry.searchable
          && (m.entry.value_json == text))
        db.metadata

  -- `SELECT * FROM node WHERE ... ORDER BY created_epoch_seconds, node_id`
  unfoldable pub select : Database → List Condition → List NodeRow
  select db conditions = sort_by by_age (filter (λ n. all (λ c. holds db c n) conditions) db.node)

-- `ORDER BY child_id, ordinal`
abbrev pub by_child : EdgeRow → EdgeRow → Bool
by_child a b =
    text_leb a.child_id b.child_id
    && (not (text_leb b.child_id a.child_id) || leb a.ordinal b.ordinal)

-- `d.get(k, [])`
abbrev pub or_none : Option (List String) → List String
or_none none = []
or_none (some ids) = ids

-- `for row in rows: parents.setdefault(row["child_id"], []).append(row["parent_id"])`
unfoldable pub add_parents : List EdgeRow → Dict (List String) → Dict (List String)
add_parents [] parents = parents
add_parents (e ∷ rows) parents =
    add_parents rows
      (insert e.child_id (or_none (lookup parents e.child_id) ++ e.parent_id ∷ []) parents)

unfoldable pub parent_lists : Database → Dict (List String)
parent_lists db = add_parents (sort_by by_child db.edge) []

-- `meta_values[key]`: the searchable values under a key; a node has one row under it at most.
unfoldable pub meta_values : Database → String → Dict String
meta_values db key =
    map (λ m. (m.owner, m.entry.value_json))
      (filter (λ m. (m.entry.key == key) && m.entry.searchable) db.metadata)

abbrev pub decoded_or_nothing : Option String → Cell
decoded_or_nothing none = nothing
decoded_or_nothing (some value) = decoded value

-- `stored`; the dict of the parents is there when one of the filters is on the parents.
unfoldable pub stored : Database → NodeRow → String → Cell
stored db row key =
    if key == "parent_id"
    then parent_list (or_none (lookup (parent_lists db) row.node_id))
    else if contains node_columns key
    then (if key == "healthy" then flag row.healthy else column key row)
    else decoded_or_nothing (lookup (meta_values db key) row.node_id)

-- A predicate that raised.
abbrev pub Warning : Type 0
Warning = String × Error

-- `for key, predicate in predicates`, up to the first one that refuses the node or raises.
unfoldable pub evaluate : (String → Cell) → List (String × Predicate) → Bool × List Warning
evaluate value [] = (true, [])
evaluate value ((key, predicate) ∷ predicates) = elim (predicate (value key)) [
  | err e ↦ (false, (key, e) ∷ [])
  | ok b ↦ if b then evaluate value predicates else (false, [])
]

unfoldable pub matched :
    Database → List (String × Predicate) → List NodeRow → List String × List Warning
matched db predicates [] = ([], [])
matched db predicates (row ∷ rows) =
    let (fits, warnings) = evaluate (stored db row) predicates in
    let (rest, later) = matched db predicates rows in
    (if fits then row.node_id ∷ rest else rest, warnings ++ later)

abbrev pub no_stages : Stages
no_stages = record { column_eq = []; metadata_eq = []; predicates = []; parent_eq = none }

abbrev pub same_parents : Database → Option (List String) → NodeRow → Bool
same_parents db none row = true
same_parents db (some ids) row = same_texts (or_none (lookup (parent_lists db) row.node_id)) ids

module _ (driver : Driver) where
  -- `conditions` and `params`: the statement is run when every parameter has been bound.
  unfoldable pub statement : Stages → Result (List Condition)
  statement s = entry_conditions driver s.metadata_eq >>= λ entries.
      let conditions = map column_condition s.column_eq ++ entries in
      bind_all driver conditions >> ok conditions

  -- From the rows of the statement on.
  unfoldable pub narrow : Database → Stages → List Condition → List String × List Warning
  narrow db s conditions =
      let candidates = filter (same_parents db s.parent_eq) (select driver db conditions) in
      elim s.predicates [
        | [] ↦ (map (λ row. row.node_id) candidates, [])
        | p ∷ ps ↦ matched db (p ∷ ps) candidates
      ]

  -- The ids of the nodes that match every filter, oldest first, and the warnings.
  unfoldable pub find : Database → List (String × Argument) → Result (List String × List Warning)
  find db filters =
      classify filters no_stages >>= λ s. statement s >>= λ conditions. ok (narrow db s conditions)
