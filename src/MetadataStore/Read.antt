-- ===== src/MetadataStore/Read.antt =====
-- The point reads and walks of src/ancestree/db/metadata_store.py.
use ancestree.Prelude.{
  ℕ, zero, suc, String, ◌==◌, ◌=?◌, Bool, ◌&&◌, ◌||◌, Option, none, some, List, [], false, ◌∷◌, map,
  filter, find?, any, contains, length, take, drop, leb, ltb, text_leb, sort_by, if◌then◌else◌,
}
use ancestree.Database.{Database, NodeRow, EdgeRow, MetadataRow}
use ancestree.MetadataStore.Write.{NodeRecord}

abbrev pub max_params : ℕ
max_params = 900

unfoldable pub node_row : List NodeRow → String → Option NodeRow
node_row rows node_id = find? (λ n. n.node_id == node_id) rows

abbrev pub edge_order : EdgeRow → EdgeRow → Bool
edge_order a b = leb a.ordinal b.ordinal

-- `SELECT parent_id FROM edge WHERE child_id = ? ORDER BY ordinal`
unfoldable pub parents_of : List EdgeRow → String → List String
parents_of edges child =
    map (λ e. e.parent_id) (sort_by edge_order (filter (λ e. e.child_id == child) edges))

unfoldable pub record_from_row : NodeRow → List String → NodeRecord
record_from_row row parents = record { row = row; parent_id = parents }

unfoldable pub get : Database → String → Option NodeRecord
get db node_id = elim (node_row db.node node_id) [
  | none ↦ none
  | some row ↦ some (record_from_row row (parents_of db.edge node_id))
]

-- A Python dict with text keys, in the order of insertion.
abbrev pub Dict {ℓ} : Type ℓ → Type ℓ
Dict V = List (String × V)

unfoldable pub lookup {ℓ} : {V : Type ℓ} → Dict V → String → Option V
lookup [] k = none
lookup ((j, v) ∷ d) k = let rest = lookup d k in if j == k then some v else rest

-- `d[k] = v`: a key that is there keeps its place.
unfoldable pub insert {ℓ} : {V : Type ℓ} → String → V → Dict V → Dict V
insert k v [] = (k, v) ∷ []
insert k v ((j, w) ∷ d) = let rest = insert k v d in if j == k then (j, v) ∷ d else (j, w) ∷ rest

-- `_batched`: slices of at most `max_params`, on fuel; every slice takes at least one item.
unfoldable pub batched : ℕ → List String → List (List String)
batched zero items = []
batched (suc fuel) items = elim items [
  | [] ↦ []
  | i ∷ is ↦ take max_params (i ∷ is) ∷ batched fuel (drop max_params (i ∷ is))
]

-- `parents.setdefault(child, []).append(parent)` over rows, then `parents.get(child, ())`.
-- The rows come ordered by child and ordinal; only those of one child meet in a list.
unfoldable pub batch_parents : List EdgeRow → List String → String → List String
batch_parents edges batch child =
    map (λ e. e.parent_id)
      (sort_by edge_order
        (filter (λ e. e.child_id == child) (filter (λ e. contains batch e.child_id) edges)))

-- `for row in ...: records[row["node_id"]] = ...`
unfoldable pub add_records :
    List EdgeRow → List String → List NodeRow → Dict NodeRecord → Dict NodeRecord
add_records edges batch [] records = records
add_records edges batch (row ∷ rows) records =
    add_records edges batch rows
      (insert row.node_id (record_from_row row (batch_parents edges batch row.node_id)) records)

unfoldable pub get_batches : Database → List (List String) → Dict NodeRecord → Dict NodeRecord
get_batches db [] records = records
get_batches db (batch ∷ batches) records =
    get_batches db batches
      (add_records db.edge batch (filter (λ n. contains batch n.node_id) db.node) records)

unfoldable pub get_many : Database → List String → Dict NodeRecord
get_many db node_ids = get_batches db (batched (length node_ids) node_ids) []

-- A dict from the rows of one node; the key is unique among them.
unfoldable pub metadata_for : Database → String → Dict MetadataRow
metadata_for db node_id =
    map (λ m. (m.entry.key, m.entry)) (filter (λ m. m.owner == node_id) db.metadata)

-- ORDER BY created_epoch_seconds, node_id
abbrev pub by_age : NodeRow → NodeRow → Bool
by_age a b =
    ltb a.created_epoch b.created_epoch
    || (a.created_epoch =? b.created_epoch) && text_leb a.node_id b.node_id

unfoldable pub all_node_ids : Database → List String
all_node_ids db = map (λ n. n.node_id) (sort_by by_age db.node)

-- ORDER BY ... DESC, ... DESC LIMIT 1 over `node_id IN (...)`
unfoldable pub most_recent : Database → List String → Option String
most_recent db node_ids = elim node_ids [
  | [] ↦ none
  | i ∷ is ↦
      elim (sort_by (λ a b. by_age b a) (filter (λ n. contains (i ∷ is) n.node_id) db.node)) [
        | [] ↦ none
        | n ∷ _ ↦ some n.node_id
      ]
]

unfoldable pub find_by_hash : Database → String → Option String
find_by_hash db content_hash =
    elim (find? (λ n. elim n.content_hash [ none ↦ false | some h ↦ h == content_hash ]) db.node) [
      | none ↦ none
      | some n ↦ some n.node_id
    ]

-- The child rows that join with the edges to a parent, ordered by age.
unfoldable pub children : Database → String → List String
children db node_id =
    map (λ n. n.node_id)
      (sort_by by_age (
        filter (λ n. any (λ e. (e.child_id == n.node_id) && (e.parent_id == node_id)) db.edge)
          db.node))
