-- ===== src/Maintenance/Prune/Deleted.antt =====
-- What `Pruner.delete` leaves of the nodes and the edges.
use ancestree.Prelude.{
  ℕ, zero, suc, ◌≤◌, String, text_discrete, ◌==◌, ◌≡◌, refl, ◌∙◌, ap, ap₂, sym, Bool, true, false,
  not, ◌&&◌, ◌||◌, List, [], ◌∷◌, filter, any, length, take, drop, take-append-drop, length-drop,
  contains, contains-append, arith,
}
use ancestree.Database.{Database, NodeRow, EdgeRow}
use ancestree.MetadataStore.Write.{exists, has_edge}
use ancestree.Maintenance.Prune.{batch_size, delete_rows, delete_batches, delete}

node_left :
    (batch : List String) (rows : List NodeRow) (id : String)
    → any (λ n. n.node_id == id) (filter (λ n. not (contains batch n.node_id)) rows)
      ≡ (any (λ (n : NodeRow). n.node_id == id) rows && not (contains batch id))
unfolding any filter
node_left batch [] id = refl
node_left batch (n ∷ rows) id = elim (text_discrete n.node_id id) [
  | yes e ↦
      let same : contains batch n.node_id ≡ contains batch id = ap (contains batch) e in
      ground (arith, node_left batch rows id)
  | no e ↦ ground (arith, node_left batch rows id)
]

edge_left :
    (batch : List String) (rows : List EdgeRow) (c p : String)
    → has_edge
        (filter (λ e. not (contains batch e.child_id) && not (contains batch e.parent_id)) rows)
        c
        p
      ≡ (has_edge rows c p && not (contains batch c || contains batch p))
unfolding has_edge any filter
edge_left batch [] c p = refl
edge_left batch (e ∷ rows) c p = elim (text_discrete e.child_id c) [
  | no d ↦ ground (arith, edge_left batch rows c p)
  | yes d ↦ elim (text_discrete e.parent_id p) [
    | no f ↦ ground (arith, edge_left batch rows c p)
    | yes f ↦
        let one : contains batch e.child_id ≡ contains batch c = ap (contains batch) d in
        let other : contains batch e.parent_id ≡ contains batch p = ap (contains batch) f in
        ground (arith, edge_left batch rows c p)
  ]
]

contains-split :
    (n : ℕ) (ids : List String) (id : String)
    → contains ids id ≡ (contains (take n ids) id || contains (drop n ids) id)
contains-split n ids id =
    ap (λ l. contains l id) (sym (take-append-drop n ids))
    ∙ contains-append (take n ids) (drop n ids) id

two_slices : (e a b : Bool) → (e && not a && not b) ≡ (e && not (a || b))
two_slices true true b = refl
two_slices true false b = refl
two_slices false a b = refl

two_slices_twice :
    (e a b c d : Bool) → (e && not (a || b) && not (c || d)) ≡ (e && not ((a || c) || (b || d)))
two_slices_twice e a b c d = ground arith

delete_batches-left :
    (fuel : ℕ) (ids : List String) (db : Database)
    → length ids ≤ fuel
    → ((id : String)
        → exists (delete_batches fuel ids db) id ≡ (exists db id && not (contains ids id)))
      × ((c p : String)
          → has_edge (delete_batches fuel ids db).edge c p
            ≡ (has_edge db.edge c p && not (contains ids c || contains ids p)))
unfolding delete_batches delete_rows contains exists any
delete_batches-left zero [] db h = (λ id. ground arith, λ c p. ground arith)
delete_batches-left zero (i ∷ ids) db h = absurd (omega (arith, h))
delete_batches-left (suc fuel) [] db h = (λ id. ground arith, λ c p. ground arith)
delete_batches-left (suc fuel) (i ∷ ids) db h =
    let batch = take batch_size (i ∷ ids) in
    let more = drop batch_size (i ∷ ids) in
    let (nodes, edges) =
      delete_batches-left fuel more (delete_rows batch db)
        (omega (arith, h, length-drop batch_size (i ∷ ids))) in
    (
      λ id.
          nodes id
          ∙ ap (λ b. b && not (contains more id)) (node_left batch db.node id)
          ∙ two_slices (exists db id) (contains batch id) (contains more id)
          ∙ ap (λ b. exists db id && not b) (sym (contains-split batch_size (i ∷ ids) id)),
      λ c p.
          edges c p
          ∙ ap (λ b. b && not (contains more c || contains more p)) (edge_left batch db.edge c p)
          ∙ two_slices_twice (has_edge db.edge c p) (contains batch c) (contains batch p)
              (contains more c) (contains more p)
          ∙ ap₂ (λ a b. has_edge db.edge c p && not (a || b))
              (sym (contains-split batch_size (i ∷ ids) c))
              (sym (contains-split batch_size (i ∷ ids) p)),
    )

-- Deleting a list of ids, however long, leaves exactly the nodes that are not in the list, and exactly
-- the edges of which neither end is.
pub delete-left :
    (ids : List String) (db : Database)
    → ((id : String) → exists (delete ids db) id ≡ (exists db id && not (contains ids id)))
      × ((c p : String)
          → has_edge (delete ids db).edge c p
            ≡ (has_edge db.edge c p && not (contains ids c || contains ids p)))
unfolding delete
delete-left ids db = delete_batches-left (length ids) ids db (omega arith)
