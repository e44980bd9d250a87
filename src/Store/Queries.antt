-- ===== src/Store/Queries.antt =====
-- The queries, the pruning and the numbers of the facade in src/ancestree/store.py. A `Node` is its
-- record; an argument that stands for a node is its id, None or a text that spells "none".
use ancestree.Prelude.{
  ℕ, ◌+◌, String, ◌==◌, Bool, Option, none, some, List, [], ◌∷◌, length, if◌then◌else◌, Result, ok,
  err,
}
use ancestree.Database.{Database, ArtifactRow, ChunkRow}
use ancestree.MetadataStore.Write.{NodeRecord, exists}
use ancestree.MetadataStore.Read.{Dict, lookup, get, get_many, children}
use ancestree.Maintenance.Compact.{compact_chunks}
use ancestree.Maintenance.Prune.{plan, delete}

-- `str.lower` is Python's.
unfoldable pub node_id_of : (String → String) → Option String → Option String
node_id_of lower none = none
node_id_of lower (some text) = if lower text == "none" then none else some text

unfoldable pub pick : Dict NodeRecord → List String → List NodeRecord
pick records [] = []
pick records (node_id ∷ node_ids) =
    let rest = pick records node_ids in
    elim (lookup records node_id) [ none ↦ rest | some r ↦ r ∷ rest ]

unfoldable pub nodes_for_ids : Database → List String → List NodeRecord
nodes_for_ids db node_ids = pick (get_many db node_ids) node_ids

unfoldable pub get_node : (String → String) → Database → Option String → Option NodeRecord
get_node lower db node = elim (node_id_of lower node) [
  | none ↦ none
  | some node_id ↦ get db node_id
]

unfoldable pub children_of : (String → String) → Database → Option String → List NodeRecord
children_of lower db node = elim (node_id_of lower node) [
  | none ↦ []
  | some node_id ↦ if exists db node_id then nodes_for_ids db (children db node_id) else []
]

-- Behind `self.compact()`: its number is not used, what it raises is raised.
abbrev after_compact : List NodeRecord → Result ℕ × Database → Result (List NodeRecord) × Database
after_compact nodes (ok removed, db) = (ok nodes, db)
after_compact nodes (err e, db) = (err e, db)

-- `prune`: what was (or would be) deleted, and the tables behind it.
unfoldable pub prune :
    (String → String) → Database → Option String → Bool → Bool → Result (List NodeRecord) × Database
prune lower db node dry_run compact = elim (node_id_of lower node) [
  | none ↦ (ok [], db)
  | some node_id ↦
      let doomed = plan db node_id in
      let nodes = nodes_for_ids db doomed in
      let kept = delete doomed db in
      if dry_run then (ok nodes, db) else elim doomed [
        | [] ↦ (ok nodes, db)
        | _ ∷ _ ↦ if compact then after_compact nodes (compact_chunks kept) else (ok nodes, kept)
      ]
]

abbrev pub sum_of {ℓ} : {A : Type ℓ} → (A → ℕ) → List A → ℕ
sum_of f [] = 0
sum_of f (a ∷ as') = f a + sum_of f as'

-- `stats`, less the size of the file on disk and the ratio of two of the numbers.
pub record Stats : Type 0 where
  pub nodes : ℕ
  pub artifacts : ℕ
  pub chunks : ℕ
  pub artifact_bytes : ℕ
  pub chunk_plain_bytes : ℕ
  pub chunk_stored_bytes : ℕ

unfoldable pub stats : Database → Stats
stats db = record {
  nodes = length db.node;
  artifacts = length db.artifact;
  chunks = length db.chunk;
  artifact_bytes = sum_of (λ (a : ArtifactRow). a.size) db.artifact;
  chunk_plain_bytes = sum_of (λ (c : ChunkRow). c.length) db.chunk;
  chunk_stored_bytes = sum_of (λ (c : ChunkRow). length c.blob) db.chunk;
}
