-- ===== src/MetadataStore/RoundTrip.antt =====
-- What `get` and `metadata_for` give back of a node that `add_node` has written.
use ancestree.Prelude.{
  ℕ, ◌+◌, String, text_discrete, ◌==◌, ◌≡◌, ◌≢◌, refl, ap, ap₂, sym, ◌∙◌, Bool, true, false, not,
  ◌&&◌, ◌||◌, Option, none, some, List, [], ◌∷◌, ◌++◌, map, append-nil, append_assoc, filter, find?,
  any, all, any-false_of_find?, find?-append_miss, sort_by, sort_by_sorted, IsAscending,
  if◌then◌else◌, Result, ok, err, sqlite_integrity, arith,
}
use ancestree.Database.{Database, NodeRow, EdgeRow, EntryRow, MetadataRow}
use ancestree.Exec.{Exec, for_each, continue}
use ancestree.MetadataStore.Write.{
  NodeRecord, exists, has_edge, has_entry, insert_node, insert_edge, insert_entry, edge_rows,
  entry_rows, add_node,
}
use ancestree.MetadataStore.Read.{
  node_row, edge_order, parents_of, record_from_row, get, metadata_for,
}

-- The foreign keys of the edges and of the metadata.
abbrev pub HasOwners : Database → Type 0
HasOwners db =
    (all (λ e. exists db e.child_id) db.edge ≡ true)
    × (all (λ m. exists db m.owner) db.metadata ≡ true)

guarded-ok :
    (b : Bool) (db db1 db' : Database)
    → ◌≡◌ {A = Result (Unit {0}) × Database}
        (if b then (err sqlite_integrity, db) else (ok tt, db1))
        (ok tt, db')
    → (b ≡ false) × (db1 ≡ db')
guarded-ok true db db1 db' h = cc
guarded-ok false db db1 db' h = (refl, ap (λ r. r.1) h)

then-ok :
    (one : Result (Unit {0}) × Database) (next : Exec (Unit {0})) (db' : Database)
    → continue one.0 (λ _. next) one.1 ≡ (ok tt, db')
    → (mid : Database) × (one ≡ (ok tt, mid)) × (next mid ≡ (ok tt, db'))
then-ok (ok u, mid) next db' h = (mid, refl, h)
then-ok (err e, mid) next db' h = cc

edges_in :
    (rows : List EdgeRow) (db db' : Database)
    → for_each insert_edge rows db ≡ (ok tt, db')
    → record db { edge = db.edge ++ rows } ≡ db'
unfolding for_each insert_edge
edges_in [] db db' h = ap (λ es. record db { edge = es }) (append-nil db.edge) ∙ ap (λ r. r.1) h
edges_in (e ∷ rows) db db' h =
    let (mid, one, rest) = then-ok (insert_edge e db) (for_each insert_edge rows) db' h in
    let (free, grown) =
      guarded-ok
        (has_edge db.edge e.child_id e.parent_id
          || not (exists db e.child_id && exists db e.parent_id))
        db (record db { edge = db.edge ++ e ∷ [] }) mid one in
    ap (λ es. record db { edge = es }) (sym (append_assoc db.edge (e ∷ []) rows))
    ∙ ap (λ (d : Database). record d { edge = d.edge ++ rows }) grown
    ∙ edges_in rows mid db' rest

entries_in :
    (rows : List EntryRow) (db db' : Database)
    → for_each insert_entry rows db ≡ (ok tt, db')
    → record db { metadata = db.metadata ++ rows } ≡ db'
unfolding for_each insert_entry
entries_in [] db db' h =
    ap (λ es. record db { metadata = es }) (append-nil db.metadata) ∙ ap (λ r. r.1) h
entries_in (m ∷ rows) db db' h =
    let (mid, one, rest) = then-ok (insert_entry m db) (for_each insert_entry rows) db' h in
    let (free, grown) =
      guarded-ok (has_entry db.metadata m.owner m.entry.key || not (exists db m.owner)) db
        (record db { metadata = db.metadata ++ m ∷ [] }) mid one in
    ap (λ es. record db { metadata = es }) (sym (append_assoc db.metadata (m ∷ []) rows))
    ∙ ap (λ (d : Database). record d { metadata = d.metadata ++ rows }) grown
    ∙ entries_in rows mid db' rest

filter-append {ℓ} :
    {A : Type ℓ} (p : A → Bool) (xs ys : List A) → filter p (xs ++ ys) ≡ filter p xs ++ filter p ys
unfolding filter
filter-append p [] ys = refl
filter-append p (x ∷ xs) ys = ground (arith, filter-append p xs ys)

filter-none {ℓ} : {A : Type ℓ} (p : A → Bool) (xs : List A) → any p xs ≡ false → filter p xs ≡ []
unfolding filter any
filter-none p [] h = refl
filter-none p (x ∷ xs) h = ground (arith, filter-none p xs)

abbrev as_entry : EntryRow → String × MetadataRow
as_entry m = (m.entry.key, m.entry)

abbrev pub by_key : MetadataRow → String × MetadataRow
by_key m = (m.key, m)

-- The three tables once a node is in.
abbrev with_node : NodeRecord → List MetadataRow → Database → Database
with_node r ms db = record db {
  node = db.node ++ r.row ∷ [];
  edge = db.edge ++ edge_rows r.row.node_id 0 r.parent_id;
  metadata = db.metadata ++ entry_rows r.row.node_id ms;
}

add_node-with_node :
    (r : NodeRecord) (ms : List MetadataRow) (db db' : Database)
    → add_node r ms db ≡ (ok tt, db')
    → (exists db r.row.node_id ≡ false) × (with_node r ms db ≡ db')
unfolding add_node insert_node
add_node-with_node r ms db db' h =
    let (mid, one, rest) = then-ok (insert_node r.row db) _ db' h in
    let (free, noded) =
      guarded-ok (exists db r.row.node_id) db (record db { node = db.node ++ r.row ∷ [] }) mid
        one in
    let (mid', two, rest') =
      then-ok (for_each insert_edge (edge_rows r.row.node_id 0 r.parent_id) mid) _ db' rest in
    (
      free,
      ap
            (λ (d : Database). record d {
              edge = d.edge ++ edge_rows r.row.node_id 0 r.parent_id;
              metadata = d.metadata ++ entry_rows r.row.node_id ms;
            })
            noded
          ∙ ap (λ (d : Database). record d { metadata = d.metadata ++ entry_rows r.row.node_id ms })
              (edges_in (edge_rows r.row.node_id 0 r.parent_id) mid mid' two)
          ∙ entries_in (entry_rows r.row.node_id ms) mid' db' rest',
    )

module _ (id : String) where
  own_edges :
      (k : ℕ) (ps : List String)
      → filter (λ (e : EdgeRow). e.child_id == id) (edge_rows id k ps) ≡ edge_rows id k ps
  unfolding filter edge_rows
  own_edges k [] = refl
  own_edges k (p ∷ ps) = ground (arith, own_edges (k + 1) ps)

  others_edges :
      (j : String) (k : ℕ) (ps : List String)
      → j ≢ id
      → filter (λ (e : EdgeRow). e.child_id == j) (edge_rows id k ps) ≡ []
  unfolding filter edge_rows
  others_edges j k [] d = refl
  others_edges j k (p ∷ ps) d = elim (text_discrete id j) [
    | yes e ↦ absurd (d (sym e))
    | no e ↦ ground (arith, others_edges j (k + 1) ps d)
  ]

  edge_rows-IsAscending : (k : ℕ) (ps : List String) → IsAscending edge_order (edge_rows id k ps)
  unfolding edge_rows
  edge_rows-IsAscending k [] = tt
  edge_rows-IsAscending k (p ∷ []) = tt
  edge_rows-IsAscending k (p ∷ q ∷ ps) = (ground arith, edge_rows-IsAscending (k + 1) (q ∷ ps))

  edge_rows-parents :
      (k : ℕ) (ps : List String) → map (λ (e : EdgeRow). e.parent_id) (edge_rows id k ps) ≡ ps
  unfolding edge_rows
  edge_rows-parents k [] = refl
  edge_rows-parents k (p ∷ ps) = ap (◌∷◌ p) (edge_rows-parents (k + 1) ps)

  own_entries :
      (ms : List MetadataRow)
      → map as_entry (filter (λ (m : EntryRow). m.owner == id) (entry_rows id ms)) ≡ map by_key ms
  unfolding filter entry_rows
  own_entries [] = refl
  own_entries (m ∷ ms) = ground (arith, own_entries ms)

  others_entries :
      (j : String) (ms : List MetadataRow)
      → j ≢ id
      → filter (λ (m : EntryRow). m.owner == j) (entry_rows id ms) ≡ []
  unfolding filter entry_rows
  others_entries j [] d = refl
  others_entries j (m ∷ ms) d = elim (text_discrete id j) [
    | yes e ↦ absurd (d (sym e))
    | no e ↦ ground (arith, others_entries j ms d)
  ]

none_of {ℓ} :
    {A : Type ℓ} (f : A → String) (as' : List A) (db : Database) (id : String)
    → all (λ a. exists db (f a)) as' ≡ true
    → exists db id ≡ false
    → any (λ a. f a == id) as' ≡ false
unfolding all any
none_of f [] db id h new = refl
none_of f (a ∷ as') db id h new = elim (text_discrete (f a) id) [
  | yes e ↦ let same : exists db (f a) ≡ exists db id = ap (exists db) e in absurd (ground arith)
  | no e ↦ ground (arith, none_of f as' db id)
]

module _ (r : NodeRecord) (ms : List MetadataRow) (db : Database) (owned : HasOwners db)
    (new : exists db r.row.node_id ≡ false) where
  abbrev id : String
  id = r.row.node_id

  own_row : node_row (with_node r ms db).node id ≡ some r.row
  unfolding node_row exists find?
  own_row =
      find?-append_miss (λ (n : NodeRow). n.node_id == id) db.node (r.row ∷ [])
        (any-false_of_find? (λ (n : NodeRow). n.node_id == id) db.node new)
      ∙ ground arith

  own_parents : parents_of (with_node r ms db).edge id ≡ r.parent_id
  unfolding parents_of
  own_parents =
      let rows = edge_rows id 0 r.parent_id in
      let none_before =
        filter-none (λ (e : EdgeRow). e.child_id == id) db.edge
          (none_of (λ (e : EdgeRow). e.child_id) db.edge db id owned.0 new) in
      ap (λ es. map (λ (e : EdgeRow). e.parent_id) (sort_by edge_order es))
        (filter-append (λ (e : EdgeRow). e.child_id == id) db.edge rows
          ∙ ap₂ (λ a b. a ++ b) none_before (own_edges id 0 r.parent_id))
      ∙ ap (map (λ (e : EdgeRow). e.parent_id))
          (sort_by_sorted edge_order rows (edge_rows-IsAscending id 0 r.parent_id))
      ∙ edge_rows-parents id 0 r.parent_id

  own_record : get (with_node r ms db) id ≡ some r
  unfolding get record_from_row
  own_record = rw (get, own_row, own_parents) refl

  own_metadata : metadata_for (with_node r ms db) id ≡ map by_key ms
  unfolding metadata_for
  own_metadata =
      let none_before =
        filter-none (λ (m : EntryRow). m.owner == id) db.metadata
          (none_of (λ (m : EntryRow). m.owner) db.metadata db id owned.1 new) in
      ap (map as_entry) (
        filter-append (λ (m : EntryRow). m.owner == id) db.metadata (entry_rows id ms)
        ∙ ap (λ a. a ++ filter (λ (m : EntryRow). m.owner == id) (entry_rows id ms)) none_before)
      ∙ own_entries id ms

  module _ (j : String) (d : j ≢ id) where
    find-other : (rows : List NodeRow) → node_row (rows ++ r.row ∷ []) j ≡ node_row rows j
    unfolding node_row find?
    find-other [] = ground (arith, λ (q : id ≡ j). d (sym q))
    find-other (n ∷ rows) = ground (arith, find-other rows)

    other_parents : parents_of (with_node r ms db).edge j ≡ parents_of db.edge j
    unfolding parents_of
    other_parents =
        ap (λ es. map (λ (e : EdgeRow). e.parent_id) (sort_by edge_order es))
          (filter-append (λ (e : EdgeRow). e.child_id == j) db.edge (edge_rows id 0 r.parent_id)
            ∙ ap (λ b. filter (λ (e : EdgeRow). e.child_id == j) db.edge ++ b)
                (others_edges id j 0 r.parent_id d)
            ∙ append-nil (filter (λ (e : EdgeRow). e.child_id == j) db.edge))

    other_record : get (with_node r ms db) j ≡ get db j
    unfolding get
    other_record =
        ap₂
          (λ o ps. elim o as (λ _. Option NodeRecord) [
            | none ↦ none
            | some row ↦ some (record_from_row row ps)
          ])
          (find-other db.node) other_parents

    other_metadata : metadata_for (with_node r ms db) j ≡ metadata_for db j
    unfolding metadata_for
    other_metadata = ap (map as_entry) (
        filter-append (λ (m : EntryRow). m.owner == j) db.metadata (entry_rows id ms)
        ∙ ap (λ b. filter (λ (m : EntryRow). m.owner == j) db.metadata ++ b)
            (others_entries id j ms d)
        ∙ append-nil (filter (λ (m : EntryRow). m.owner == j) db.metadata))

-- A node that has been written reads back as it was given, its parents in their order and its metadata
-- under their keys, and every other node reads as before. The edges and the metadata in the store
-- belong to nodes of the store, as the foreign keys demand.
pub add_node-get :
    (r : NodeRecord) (ms : List MetadataRow) (db db' : Database)
    → HasOwners db
    → add_node r ms db ≡ (ok tt, db')
    → (get db' r.row.node_id ≡ some r)
      × (metadata_for db' r.row.node_id ≡ map by_key ms)
      × ((j : String)
          → j ≢ r.row.node_id
          → (get db' j ≡ get db j) × (metadata_for db' j ≡ metadata_for db j))
add_node-get r ms db db' owned h =
    let (new, e) = add_node-with_node r ms db db' h in
    (
      ap (λ d. get d r.row.node_id) (sym e) ∙ own_record r ms db owned new,
      ap (λ d. metadata_for d r.row.node_id) (sym e) ∙ own_metadata r ms db owned new,
      λ j d. (
        ap (λ q. get q j) (sym e) ∙ other_record r ms db owned new j d,
        ap (λ q. metadata_for q j) (sym e) ∙ other_metadata r ms db owned new j d,
      ),
    )
