-- ===== src/MetadataStore/Removal.antt =====
-- What the store holds after `remove`.
use ancestree.Prelude.{
  String, text_discrete, ◌==◌, ◌≡◌, ◌≢◌, refl, ap, sym, ◌∙◌, Bool, not, ◌&&◌, Option, none, some,
  List, [], ◌∷◌, map, filter, filter-sort_by, IsOrdering, find?, sort_by, if◌then◌else◌,
  Option-cases, inl, inr, arith,
}
use ancestree.Database.{Database, NodeRow, EdgeRow, EntryRow}
use ancestree.MetadataStore.Write.{NodeRecord, delete_node, remove}
use ancestree.MetadataStore.Read.{
  node_row, edge_order, parents_of, record_from_row, get, metadata_for,
}

edge_order-IsOrdering : IsOrdering edge_order
edge_order-IsOrdering = record {
  total = λ a b. ground arith;
  transitive = λ a b c h k. ground (arith, h, k);
}

filter-map_parent :
    (p : String → Bool) (es : List EdgeRow)
    → map (λ e. e.parent_id) (filter (λ e. p e.parent_id) es) ≡ filter p (map (λ e. e.parent_id) es)
unfolding filter
filter-map_parent p [] = refl
filter-map_parent p (e ∷ es) = ground (arith, filter-map_parent p es)

-- The record of a node that has lost a parent.
abbrev pub without : String → Option NodeRecord → Option NodeRecord
without id none = none
without id (some r) = some (record r { parent_id = filter (λ p. not (p == id)) r.parent_id })

absent :
    (id : String) (rows : List NodeRow)
    → node_row (filter (λ n. not (n.node_id == id)) rows) id ≡ none
unfolding node_row find? filter
absent id [] = refl
absent id (n ∷ rows) = ground (arith, absent id rows)

entries_gone :
    (id j : String) (rows : List EntryRow)
    → filter (λ (m : EntryRow). m.owner == j) (filter (λ m. not (m.owner == id)) rows)
      ≡ (if j == id then [] else filter (λ (m : EntryRow). m.owner == j) rows)
unfolding filter
entries_gone id j [] = ground arith
entries_gone id j (m ∷ rows) = elim (text_discrete m.owner j) [
  | yes e ↦
      let same : (m.owner == id) ≡ (j == id) = ap (λ i. i == id) e in
      ground (arith, entries_gone id j rows)
  | no e ↦ ground (arith, entries_gone id j rows)
]

entries_own :
    (id : String) (rows : List EntryRow)
    → filter (λ (m : EntryRow). m.owner == id) (filter (λ m. not (m.owner == id)) rows) ≡ []
entries_own id rows = entries_gone id id rows ∙ ground arith

entries_other :
    (id j : String)
    → j ≢ id
    → (rows : List EntryRow)
    → filter (λ (m : EntryRow). m.owner == j) (filter (λ m. not (m.owner == id)) rows)
      ≡ filter (λ (m : EntryRow). m.owner == j) rows
entries_other id j d rows = entries_gone id j rows ∙ ground (arith, d)

module _ (id : String) (db : Database) where
  own_row : node_row (delete_node id db).node id ≡ none
  unfolding delete_node node_row
  own_row = absent id db.node

  others_row :
      (j : String)
      → j ≢ id
      → (rows : List NodeRow)
      → node_row (filter (λ n. not (n.node_id == id)) rows) j ≡ node_row rows j
  unfolding node_row find? filter
  others_row j d [] = refl
  others_row j d (n ∷ rows) = elim (text_discrete n.node_id id) [
    | yes e ↦ elim (text_discrete n.node_id j) [
      | yes f ↦ absurd (d (sym f ∙ e))
      | no f ↦ ground (arith, others_row j d rows)
    ]
    | no e ↦ ground (arith, others_row j d rows)
  ]

  kept_edges :
      (j : String)
      → j ≢ id
      → (es : List EdgeRow)
      → filter
          (λ (e : EdgeRow). e.child_id == j)
          (filter (λ e. not (e.child_id == id) && not (e.parent_id == id)) es)
        ≡ filter
            (λ (e : EdgeRow). not (e.parent_id == id))
            (filter (λ (e : EdgeRow). e.child_id == j) es)
  unfolding filter
  kept_edges j d [] = refl
  kept_edges j d (e ∷ es) = elim (text_discrete e.child_id j) [
    | yes f ↦ elim (text_discrete e.child_id id) [
      | yes g ↦ absurd (d (sym f ∙ g))
      | no g ↦ ground (arith, kept_edges j d es)
    ]
    | no f ↦ ground (arith, kept_edges j d es)
  ]

  others_parents :
      (j : String)
      → j ≢ id
      → parents_of (delete_node id db).edge j ≡ filter (λ p. not (p == id)) (parents_of db.edge j)
  unfolding delete_node parents_of
  others_parents j d =
      let mine = filter (λ (e : EdgeRow). e.child_id == j) db.edge in
      let kept : EdgeRow → Bool = λ e. not (e.parent_id == id) in
      ap (λ es. map (λ (e : EdgeRow). e.parent_id) (sort_by edge_order es)) (kept_edges j d db.edge)
      ∙ ap (map (λ (e : EdgeRow). e.parent_id))
          (sym (filter-sort_by edge_order edge_order-IsOrdering kept mine))
      ∙ filter-map_parent (λ p. not (p == id)) (sort_by edge_order mine)

  others_record : (j : String) → j ≢ id → get (delete_node id db) j ≡ without id (get db j)
  unfolding get delete_node record_from_row
  others_record j d = elim (Option-cases (node_row db.node j)) [
    | inl e ↦ rw (get, others_row j d db.node, e) refl
    | inr (row, e) ↦
        rw (get, others_row j d db.node, e)
          (ap (λ ps. some (record_from_row row ps)) (others_parents j d))
  ]

-- A node that has been removed is gone with its metadata, and every other node reads as before, but for
-- the removed one among its parents, whose order stays. This
-- holds of any id, known or not.
pub remove-get :
    (id : String) (db : Database)
    → (get (remove id db).1 id ≡ none)
      × (metadata_for (remove id db).1 id ≡ [])
      × ((j : String)
          → j ≢ id
          → (get (remove id db).1 j ≡ without id (get db j))
            × (metadata_for (remove id db).1 j ≡ metadata_for db j))
unfolding remove get delete_node metadata_for
remove-get id db = (
  rw (get, own_row id db) refl,
  ap (map (λ (m : EntryRow). (m.entry.key, m.entry))) (entries_own id db.metadata),
  λ j d. (
    others_record id db j d,
    ap (map (λ (m : EntryRow). (m.entry.key, m.entry))) (entries_other id j d db.metadata),
  ),
)
