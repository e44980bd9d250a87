-- ===== src/Ingest/Added.antt =====
-- What the statements of `add_node` leave behind for those that store the files.
use ancestree.Prelude.{
  String, ◌==◌, ◌≡◌, refl, ap, subst, ◌∙◌, Bool, true, false, not, ◌&&◌, ◌||◌, List, [], ◌∷◌, ◌++◌,
  any, any-append, Result, ok, err, Error, sqlite_integrity, if◌then◌else◌, arith, inl, inr,
  Bool-cases,
}
use ancestree.Database.{Database, NodeRow, EdgeRow, EntryRow, MetadataRow}
use ancestree.Exec.{Exec, ◌>>=◌, for_each, continue}
use ancestree.MetadataStore.Write.{
  NodeRecord, has_edge, has_entry, exists, insert_node, insert_edge, insert_entry, edge_rows,
  entry_rows, add_node,
}
use ancestree.ChunkStore.Artifact.{has_node}

-- The tables of nodes only grow, those of chunks and artifacts stay.
record OnlyNodes (db db' : Database) : Type 0 where
  node : (id : String) → has_node db.node id ≡ true → has_node db'.node id ≡ true
  chunk : db'.chunk ≡ db.chunk
  artifact : db'.artifact ≡ db.artifact
  artifact_chunk : db'.artifact_chunk ≡ db.artifact_chunk

OnlyNodes-refl : (db : Database) → OnlyNodes db db
OnlyNodes-refl db = record {
  node = λ id h. h;
  chunk = refl;
  artifact = refl;
  artifact_chunk = refl;
}

OnlyNodes-trans : (a b c : Database) → OnlyNodes a b → OnlyNodes b c → OnlyNodes a c
OnlyNodes-trans a b c p q = record {
  node = λ id h. q.node id (p.node id h);
  chunk = q.chunk ∙ p.chunk;
  artifact = q.artifact ∙ p.artifact;
  artifact_chunk = q.artifact_chunk ∙ p.artifact_chunk;
}

-- Sequencing keeps what both parts keep.
then-OnlyNodes :
    (db : Database) (one : Result (Unit {0}) × Database) (next : Exec (Unit {0}))
    → OnlyNodes db one.1
    → ((d : Database) → OnlyNodes d (next d).1)
    → OnlyNodes db (continue one.0 (λ _. next) one.1).1
then-OnlyNodes db (ok u, mid) next p q = OnlyNodes-trans db mid (next mid).1 p (q mid)
then-OnlyNodes db (err e, mid) next p q = p

for_each-OnlyNodes :
    {A : Type 0} (f : A → Exec (Unit {0}))
    → ((a : A) (d : Database) → OnlyNodes d (f a d).1)
    → (as' : List A) (db : Database) → OnlyNodes db (for_each f as' db).1
unfolding for_each
for_each-OnlyNodes f keep [] db = OnlyNodes-refl db
for_each-OnlyNodes f keep (a ∷ as') db =
    then-OnlyNodes db (f a db) (for_each f as') (keep a db) (for_each-OnlyNodes f keep as')

guarded-OnlyNodes :
    (b : Bool) (e : Error) (db db' : Database)
    → OnlyNodes db db'
    → OnlyNodes db (if◌then◌else◌ {A = Result (Unit {0}) × Database} b (err e, db) (ok tt, db')).1
guarded-OnlyNodes true e db db' h = OnlyNodes-refl db
guarded-OnlyNodes false e db db' h = h

insert_edge-OnlyNodes : (row : EdgeRow) (db : Database) → OnlyNodes db (insert_edge row db).1
unfolding insert_edge
insert_edge-OnlyNodes row db =
    guarded-OnlyNodes
      (has_edge db.edge row.child_id row.parent_id
        || not (exists db row.child_id && exists db row.parent_id))
      sqlite_integrity db (record db { edge = db.edge ++ row ∷ [] })
      (record { node = λ id h. h; chunk = refl; artifact = refl; artifact_chunk = refl })

insert_entry-OnlyNodes : (row : EntryRow) (db : Database) → OnlyNodes db (insert_entry row db).1
unfolding insert_entry
insert_entry-OnlyNodes row db =
    guarded-OnlyNodes (has_entry db.metadata row.owner row.entry.key || not (exists db row.owner))
      sqlite_integrity db (record db { metadata = db.metadata ++ row ∷ [] })
      (record { node = λ id h. h; chunk = refl; artifact = refl; artifact_chunk = refl })

-- Nodes, edges and metadata are all that the statements of `add_node` write, and once they are through
-- the node is there.
pub record AddsNode (db db' : Database) (id : String) : Type 0 where
  pub here : has_node db'.node id ≡ true
  pub chunk : db'.chunk ≡ db.chunk
  pub artifact : db'.artifact ≡ db.artifact
  pub artifact_chunk : db'.artifact_chunk ≡ db.artifact_chunk

has_node-last :
    (rows : List NodeRow) (row : NodeRow) → has_node (rows ++ row ∷ []) row.node_id ≡ true
unfolding any
has_node-last rows row = any-append (λ n. n.node_id == row.node_id) rows (row ∷ []) ∙ ground arith

pub add_node-AddsNode :
    (r : NodeRecord) (metadata : List MetadataRow) (db db' : Database)
    → add_node r metadata db ≡ (ok tt, db')
    → AddsNode db db' r.row.node_id
unfolding add_node insert_node
add_node-AddsNode r metadata db db' h = elim (Bool-cases (exists db r.row.node_id)) [
  | inl e ↦ let h' = rw e at h in cc
  | inr e ↦
      let mid : Database = record db { node = db.node ++ r.row ∷ [] } in
      let edges = for_each insert_edge (edge_rows r.row.node_id 0 r.parent_id) in
      let entries = for_each insert_entry (entry_rows r.row.node_id metadata) in
      let keep : OnlyNodes mid ((edges >>= λ _. entries) mid).1 =
        then-OnlyNodes mid (edges mid) entries
          (for_each-OnlyNodes insert_edge insert_edge-OnlyNodes
            (edge_rows r.row.node_id 0 r.parent_id) mid)
          (for_each-OnlyNodes insert_entry insert_entry-OnlyNodes
            (entry_rows r.row.node_id metadata)) in
      let same : ((edges >>= λ _. entries) mid).1 ≡ db' = ap (λ q. q.1) (rw e at h) in
      let keep' : OnlyNodes mid db' = subst (OnlyNodes mid) same keep in
      record {
        here = keep'.node r.row.node_id (has_node-last db.node r.row);
        chunk = keep'.chunk;
        artifact = keep'.artifact;
        artifact_chunk = keep'.artifact_chunk;
      }
]
