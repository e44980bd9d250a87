-- ===== src/MetadataStore/Batches.antt =====
-- `get_many` answers as `get` does, id by id.
use mathlib.Core.List.{flatten}
use ancestree.Prelude.{
  ℕ, zero, suc, ◌≤◌, String, text_discrete, ◌==◌, ◌≡◌, refl, ◌∙◌, ap, sym, Bool, true, false,
  Option, none, some, List, [], ◌∷◌, ◌++◌, map, filter, find?, any, contains, contains-append,
  length, length-drop, take, drop, take-append-drop, arith, Bool-cases, Option-cases, inl, inr,
  subst, append-nil, if◌then◌else◌, sort_by, append_assoc,
}
use ancestree.Database.{Database, NodeRow, EdgeRow}
use ancestree.MetadataStore.Write.{NodeRecord}
use ancestree.MetadataStore.Read.{
  max_params, node_row, edge_order, parents_of, record_from_row, get, Dict, lookup, insert, batched,
  batch_parents, add_records, get_batches, get_many,
}

-- The primary key of the node table.
abbrev pub AreDistinct : List NodeRow → Type 0
AreDistinct [] = Unit
AreDistinct (n ∷ ns) = (node_row ns n.node_id ≡ none) × AreDistinct ns

pub lookup-insert {ℓ} :
    {V : Type ℓ} (k : String) (v : V) (d : Dict V) (j : String)
    → lookup (insert k v d) j ≡ (if k == j then some v else lookup d j)
unfolding lookup insert
lookup-insert k v [] j = refl
lookup-insert k v ((i, w) ∷ d) j = ground (arith, lookup-insert k v d j)

node_row-id :
    (rows : List NodeRow) (id : String) (row : NodeRow)
    → node_row rows id ≡ some row
    → row.node_id ≡ id
unfolding node_row find?
node_row-id [] id row h = cc
node_row-id (n ∷ rows) id row h = ground (arith, node_row-id rows id row)

pub get-id :
    (db : Database) (id : String) (r : NodeRecord) → get db id ≡ some r → r.row.node_id ≡ id
unfolding get record_from_row
get-id db id r h = elim (Option-cases (node_row db.node id)) [
  | inl e ↦ let h' = rw (get, e) at h in cc
  | inr (row, e) ↦
      let h' = rw (get, e) at h in
      ap (λ (o : Option NodeRecord). elim o [ none ↦ id | some q ↦ q.row.node_id ]) (sym h')
      ∙ node_row-id db.node id row e
]

-- The record of a row under a way to find parents.
abbrev record_for : (String → List String) → Option NodeRow → Option NodeRecord
record_for parents none = none
record_for parents (some row) = some (record_from_row row (parents row.node_id))

abbrev or_else : Option NodeRecord → Option NodeRecord → Option NodeRecord
or_else none old = old
or_else (some new) old = some new

step_record :
    (parents : String → List String) (n : NodeRow) (rows : List NodeRow) (id : String)
    (old : Option NodeRecord)
    → node_row rows n.node_id ≡ none
    → or_else
        (record_for parents (node_row rows id))
        (if n.node_id == id then some (record_from_row n (parents n.node_id)) else old)
      ≡ or_else (record_for parents (node_row (n ∷ rows) id)) old
unfolding node_row find?
step_record parents n rows id old fresh = elim (text_discrete n.node_id id) [
  | yes e ↦
      let absent : node_row rows id ≡ none = subst (λ i. node_row rows i ≡ none) e fresh in
      rw (absent, e) (ground arith)
  | no e ↦ ground arith
]

lookup-add_records :
    (edges : List EdgeRow) (batch : List String) (rows : List NodeRow) (d : Dict NodeRecord)
    (id : String)
    → AreDistinct rows
    → lookup (add_records edges batch rows d) id
      ≡ or_else (record_for (batch_parents edges batch) (node_row rows id)) (lookup d id)
unfolding add_records node_row find?
lookup-add_records edges batch [] d id k = refl
lookup-add_records edges batch (n ∷ rows) d id k =
    let r = record_from_row n (batch_parents edges batch n.node_id) in
    lookup-add_records edges batch rows (insert n.node_id r d) id k.1
    ∙ ap (or_else (record_for (batch_parents edges batch) (node_row rows id)))
        (lookup-insert n.node_id r d id)
    ∙ step_record (batch_parents edges batch) n rows id (lookup d id) k.0

module _ (batch : List String) where
  node_row-filter :
      (rows : List NodeRow) (id : String)
      → node_row (filter (λ n. contains batch n.node_id) rows) id
        ≡ (if contains batch id then node_row rows id else none)
  unfolding node_row find? filter
  node_row-filter [] id = ground arith
  node_row-filter (n ∷ rows) id = elim (text_discrete n.node_id id) [
    | yes e ↦
        let same : contains batch n.node_id ≡ contains batch id = ap (contains batch) e in
        ground (arith, node_row-filter rows id)
    | no e ↦ ground (arith, node_row-filter rows id)
  ]

  AreDistinct-filter :
      (rows : List NodeRow)
      → AreDistinct rows
      → AreDistinct (filter (λ n. contains batch n.node_id) rows)
  unfolding filter
  AreDistinct-filter [] k = tt
  AreDistinct-filter (n ∷ rows) k = elim (Bool-cases (contains batch n.node_id)) [
    | inl e ↦
        rw e (node_row-filter rows n.node_id ∙ ground (arith, k.0), AreDistinct-filter rows k.1)
    | inr e ↦ rw e (AreDistinct-filter rows k.1)
  ]

  filter-filter :
      (edges : List EdgeRow) (id : String)
      → contains batch id ≡ true
      → filter (λ (e : EdgeRow). e.child_id == id) (filter (λ e. contains batch e.child_id) edges)
        ≡ filter (λ e. e.child_id == id) edges
  unfolding filter
  filter-filter [] id h = refl
  filter-filter (e ∷ edges) id h = elim (text_discrete e.child_id id) [
    | yes q ↦
        let same : contains batch e.child_id ≡ contains batch id = ap (contains batch) q in
        ground (arith, filter-filter edges id)
    | no q ↦ ground (arith, filter-filter edges id)
  ]

  batch_parents-eq :
      (edges : List EdgeRow) (id : String)
      → contains batch id ≡ true
      → batch_parents edges batch id ≡ parents_of edges id
  unfolding batch_parents parents_of
  batch_parents-eq edges id h =
      ap (λ es. map (λ (e : EdgeRow). e.parent_id) (sort_by edge_order es))
        (filter-filter edges id h)

elim-record_for :
    (ps : List String) (found : Option NodeRow)
    → elim found [ none ↦ none | some row ↦ some (record_from_row row ps) ]
      ≡ record_for (λ _. ps) found
elim-record_for ps none = refl
elim-record_for ps (some row) = refl

record_for-get :
    (db : Database) (parents : String → List String) (id : String)
    → parents id ≡ parents_of db.edge id
    → record_for parents (node_row db.node id) ≡ get db id
unfolding get
record_for-get db parents id h =
    elim (Option-cases (node_row db.node id)) [
      | inl e ↦ rw e refl
      | inr (row, e) ↦
          rw e (
            ap (λ ps. some (record_from_row row ps))
              (ap parents (node_row-id db.node id row e) ∙ h))
    ]
    ∙ sym (elim-record_for (parents_of db.edge id) (node_row db.node id))

or_else-same : (b : Bool) (r : Option NodeRecord) → or_else r (if b then r else none) ≡ r
or_else-same true none = refl
or_else-same false none = refl
or_else-same true (some r) = refl
or_else-same false (some r) = refl

module _ (db : Database) (distinct : AreDistinct db.node) where
  lookup-batch :
      (batch : List String) (d : Dict NodeRecord) (id : String)
      → lookup (add_records db.edge batch (filter (λ n. contains batch n.node_id) db.node) d) id
        ≡ (if contains batch id then or_else (get db id) (lookup d id) else lookup d id)
  lookup-batch batch d id =
      lookup-add_records db.edge batch (filter (λ n. contains batch n.node_id) db.node) d id
        (AreDistinct-filter batch db.node distinct)
      ∙ elim (Bool-cases (contains batch id)) [
        | inl e ↦
            rw (node_row-filter batch db.node id, e)
              (ap (λ r. or_else r (lookup d id))
                (record_for-get db (batch_parents db.edge batch) id
                  (batch_parents-eq batch db.edge id e)))
        | inr e ↦ rw (node_row-filter batch db.node id, e) refl
      ]

  get_batches-lookup :
      (batches : List (List String)) (seen : List String) (d : Dict NodeRecord) (id : String)
      → lookup d id ≡ (if contains seen id then get db id else none)
      → lookup (get_batches db batches d) id
        ≡ (if contains (seen ++ flatten batches) id then get db id else none)
  unfolding get_batches flatten
  get_batches-lookup [] seen d id h =
      h ∙ ap (λ xs. if contains xs id then get db id else none) (sym (append-nil seen))
  get_batches-lookup (batch ∷ batches) seen d id h =
      get_batches-lookup batches (seen ++ batch)
        (add_records db.edge batch (filter (λ n. contains batch n.node_id) db.node) d) id
        (lookup-batch batch d id
          ∙ grind (
            arith,
            h,
            contains-append seen batch id,
            or_else-same (contains seen id) (get db id),
          ))
      ∙ ap (λ xs. if contains xs id then get db id else none)
          (append_assoc seen batch (flatten batches))

pub batched-flatten :
    (fuel : ℕ) (ids : List String) → length ids ≤ fuel → flatten (batched fuel ids) ≡ ids
unfolding batched flatten
batched-flatten zero [] h = refl
batched-flatten zero (i ∷ is) h = absurd (omega (arith, h))
batched-flatten (suc fuel) [] h = refl
batched-flatten (suc fuel) (i ∷ is) h =
    ap (λ rest. take max_params (i ∷ is) ++ rest)
      (batched-flatten fuel (drop max_params (i ∷ is))
        (omega (arith, h, length-drop max_params (i ∷ is))))
    ∙ take-append-drop max_params (i ∷ is)

-- When no two rows of the node table have the same id, the dict that `get_many` builds batch by batch
-- holds for each id it was given, however many they are, what `get` answers for that id, and holds
-- nothing for an id it was not given.
pub get_many-get :
    (db : Database) (ids : List String) (id : String)
    → AreDistinct db.node
    → lookup (get_many db ids) id ≡ (if contains ids id then get db id else none)
unfolding get_many contains any lookup
get_many-get db ids id distinct =
    get_batches-lookup db distinct (batched (length ids) ids) [] [] id refl
    ∙ ap (λ xs. if contains xs id then get db id else none)
        (batched-flatten (length ids) ids (omega arith))
