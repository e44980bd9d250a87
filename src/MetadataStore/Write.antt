-- ===== src/MetadataStore/Write.antt =====
-- The writes of src/ancestree/db/metadata_store.py, with the constraints of the node, edge and
-- metadata tables in src/ancestree/db/schema.py.
use ancestree.Prelude.{
  ℕ, ◌+◌, String, ◌==◌, Bool, not, ◌&&◌, ◌||◌, List, [], ◌∷◌, ◌++◌, filter, any, if◌then◌else◌, ok,
  err, sqlite_integrity,
}
use ancestree.Database.{Database, NodeRow, EdgeRow, EntryRow, MetadataRow}
use ancestree.Exec.{Exec, ◌>>◌, for_each}

-- `NodeRecord`: a row of the node table and the ordered parent ids.
pub record NodeRecord : Type 0 where
  pub row : NodeRow
  pub open row use *
  pub parent_id : List String

-- `SELECT 1 FROM node WHERE node_id = ? LIMIT 1`
unfoldable pub exists : Database → String → Bool
exists db node_id = any (λ n. n.node_id == node_id) db.node

unfoldable pub has_edge : List EdgeRow → String → String → Bool
has_edge edges child parent = any (λ e. (e.child_id == child) && (e.parent_id == parent)) edges

unfoldable pub has_entry : List EntryRow → String → String → Bool
has_entry entries owner key = any (λ m. (m.owner == owner) && (m.entry.key == key)) entries

unfoldable pub insert_node : NodeRow → Exec (Unit {0})
insert_node row db =
    if exists db row.node_id
    then (err sqlite_integrity, db)
    else (ok tt, record db { node = db.node ++ row ∷ [] })

-- (child_id, parent_id) is the primary key, and both are foreign keys.
unfoldable pub insert_edge : EdgeRow → Exec (Unit {0})
insert_edge row db =
    if has_edge db.edge row.child_id row.parent_id
      || not (exists db row.child_id && exists db row.parent_id)
    then (err sqlite_integrity, db)
    else (ok tt, record db { edge = db.edge ++ row ∷ [] })

-- (node_id, key) is the primary key, and the node a foreign key.
unfoldable pub insert_entry : EntryRow → Exec (Unit {0})
insert_entry row db =
    if has_entry db.metadata row.owner row.entry.key || not (exists db row.owner)
    then (err sqlite_integrity, db)
    else (ok tt, record db { metadata = db.metadata ++ row ∷ [] })

-- `enumerate(record.parent_id)` as rows, from an ordinal on.
unfoldable pub edge_rows : String → ℕ → List String → List EdgeRow
edge_rows child ordinal [] = []
edge_rows child ordinal (parent ∷ parents) =
    record { child_id = child; parent_id = parent; ordinal = ordinal }
    ∷ edge_rows child (ordinal + 1) parents

unfoldable pub entry_rows : String → List MetadataRow → List EntryRow
entry_rows owner [] = []
entry_rows owner (m ∷ ms) = record { owner = owner; entry = m } ∷ entry_rows owner ms

-- The statements of `add_node`; the transaction around them is `write` of the connection manager.
unfoldable pub add_node : NodeRecord → List MetadataRow → Exec (Unit {0})
add_node r metadata = do
  insert_node r.row
  for_each insert_edge (edge_rows r.node_id 0 r.parent_id)
  for_each insert_entry (entry_rows r.node_id metadata)

-- `DELETE FROM node WHERE node_id = ?` with its cascades: the edges on both sides, the metadata,
-- the artifacts, and with the artifacts their recipes.
unfoldable pub delete_node : String → Database → Database
delete_node node_id db = record db {
  node = filter (λ n. not (n.node_id == node_id)) db.node;
  edge = filter (λ e. not (e.child_id == node_id) && not (e.parent_id == node_id)) db.edge;
  metadata = filter (λ m. not (m.owner == node_id)) db.metadata;
  artifact = filter (λ a. not (a.node_id == node_id)) db.artifact;
  artifact_chunk = filter (λ r. not (r.node_id == node_id)) db.artifact_chunk;
}

unfoldable pub remove : String → Exec (Unit {0})
remove node_id db = (ok tt, delete_node node_id db)
