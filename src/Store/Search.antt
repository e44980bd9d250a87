-- ===== src/Store/Search.antt =====
-- The searches of the facade in src/ancestree/store.py: `find`, `latest` and `ancestors`. A `Node` is
-- its record.
use mathlib.Core.List.{Memᴰ}
use mathlib.Core.Option
use mathlib.Core.List.Memᴰ
use ancestree.Prelude.{
  String, text_discrete, ◌==◌, ◌≡◌, refl, ap, sym, ◌∙◌, true, Option, none, some, List, [], ◌∷◌,
  map, filter, find?, all, contains, contains_of_mem, sort_by, mem-sort_by, mem-filter, IsDistinct,
  if◌then◌else◌, Result, ok, err, ◌>>=◌, inl, inr, arith,
}
use ancestree.Database.{Database, NodeRow}
use ancestree.MetadataStore.Write.{NodeRecord}
use ancestree.MetadataStore.Read.{
  node_row, parents_of, record_from_row, get, Dict, lookup, get_many, by_age, most_recent,
}
use ancestree.MetadataStore.Batches.{AreDistinct, get_many-get}
use ancestree.MetadataStore.Find.{Argument, Driver, find}
use ancestree.MetadataStore.Find.Entries.{HasKeys}
use ancestree.MetadataStore.Find.Accepts.{supported, accepts}
use ancestree.MetadataStore.Find.Staging.{keys}
use ancestree.MetadataStore.Find.Answer.{find-accepts}
use ancestree.Lineage.{lineage}
use ancestree.Store.Queries.{node_id_of, pick, nodes_for_ids, get_node}

abbrev pub Filters : Type 0
Filters = List (String × Argument)

unfoldable pub find_nodes : Driver → Database → Filters → Result (List NodeRecord)
find_nodes driver db filters = find driver db filters >>= λ found. ok (nodes_for_ids db found.0)

-- `self.get(node_id)` of the most recent id.
unfoldable pub latest : (String → String) → Driver → Database → Filters → Result (Option NodeRecord)
latest lower driver db filters = find driver db filters >>= λ found.
    ok (elim (most_recent db found.0) [
      | none ↦ none
      | some node_id ↦ get_node lower db (some node_id)
    ])

-- The walk of `lineage` runs on fuel.
unfoldable pub ancestors :
    (String → String)
    → Driver
    → Database
    → Option String
    → Filters
    → Option (Result (List NodeRecord))
ancestors lower driver db node filters = elim (node_id_of lower node) [
  | none ↦ some (ok [])
  | some node_id ↦ elim (find driver db filters) [
    | err e ↦ some (err e)
    | ok found ↦
        Option.map
          (λ walked. walked >>= λ order. ok (nodes_for_ids db (filter (contains found.0) order)))
          (lineage db node_id)
  ]
]

node_row_of_mem :
    (rows : List NodeRow) (n : NodeRow)
    → AreDistinct rows
    → Memᴰ n rows
    → node_row rows n.node_id ≡ some n
unfolding node_row find?
node_row_of_mem [] n d m = absurd (Memᴰ.not-nil m)
node_row_of_mem (r ∷ rows) n d m = elim (Memᴰ.cases_cons m) [
  | inl here ↦
      ap (λ b. if b then some r else node_row rows n.node_id)
        (ap (λ q. r.node_id == q.node_id) here)
      ∙ ground (arith, sym here)
  | inr there ↦
      let found = node_row_of_mem rows n d.1 there in
      elim (text_discrete r.node_id n.node_id) [
        | yes e ↦ let absent = ap (node_row rows) (sym e) ∙ d.0 in cc
        | no e ↦ ground (arith, found)
      ]
]

pick-map :
    (d : Dict NodeRecord) (f : NodeRow → NodeRecord) (rows : List NodeRow)
    → ((n : NodeRow) → Memᴰ n rows → lookup d n.node_id ≡ some (f n))
    → pick d (map (λ n. n.node_id) rows) ≡ map f rows
unfolding pick
pick-map d f [] h = refl
pick-map d f (n ∷ rows) h =
    rw (pick, h n (Memᴰ.head refl)) (ap (◌∷◌ (f n)) (pick-map d f rows (λ r m. h r (Memᴰ.tail m))))

module _ (db : Database) where
  -- The record of a row, its parents in their order.
  abbrev pub record_of_row : NodeRow → NodeRecord
  record_of_row n = record_from_row n (parents_of db.edge n.node_id)

  record_of_mem :
      AreDistinct db.node
      → (n : NodeRow) → Memᴰ n db.node
      → get db n.node_id ≡ some (record_of_row n)
  unfolding get
  record_of_mem d n m = rw (get, node_row_of_mem db.node n d m) refl

  nodes_for_ids-rows :
      (rows : List NodeRow)
      → AreDistinct db.node
      → ((n : NodeRow) → Memᴰ n rows → Memᴰ n db.node)
      → nodes_for_ids db (map (λ n. n.node_id) rows) ≡ map record_of_row rows
  unfolding nodes_for_ids
  nodes_for_ids-rows rows d inside =
      pick-map (get_many db (map (λ n. n.node_id) rows)) record_of_row rows (λ n m.
        get_many-get db (map (λ n. n.node_id) rows) n.node_id d
        ∙ rw
            (contains_of_mem (map (λ r. r.node_id) rows) n.node_id
              (Memᴰ.map (λ (r : NodeRow). r.node_id) m))
            (record_of_mem d n (inside n m)))

module _ (driver : Driver) (db : Database) where
  -- A search whose values the driver takes ends with the records of exactly those nodes that match every
  -- filter, oldest first, each with its parents in order. The filters are under distinct keys, no two
  -- rows of the node table have the same id, and no two of the metadata the same node and key.
  pub find_nodes-accepts :
      (filters : Filters)
      → AreDistinct db.node
      → HasKeys db.metadata
      → IsDistinct (keys filters)
      → all (supported driver) filters ≡ true
      → find_nodes driver db filters
        ≡ ok (
            map
              (record_of_row db)
              (sort_by by_age (filter (λ n. all (accepts driver db n) filters) db.node)))
  unfolding find_nodes
  find_nodes-accepts filters d unique distinct takes =
      let (found, q, ids) = find-accepts driver db filters unique distinct takes in
      let rows = filter (λ n. all (accepts driver db n) filters) db.node in
      rw q (
        ap (λ is. ok (nodes_for_ids db is)) ids
        ∙ ap ok (
            nodes_for_ids-rows db (sort_by by_age rows) d (λ n m.
              (mem-filter (λ n. all (accepts driver db n) filters) n db.node
                (mem-sort_by by_age n rows m)).0)))
