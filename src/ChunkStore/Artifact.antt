-- ===== src/ChunkStore/Artifact.antt =====
-- The artifact rows and their chunk recipes in src/ancestree/db/chunk_store.py.
use ancestree.Prelude.{
  ◌=?◌, ℕ, ◌+◌, String, ◌==◌, Bool, not, ◌&&◌, ◌||◌, Option, none, some, List, [], ◌∷◌, ◌++◌, map,
  filter, find?, any, leb, if◌then◌else◌, text_leb, sort_by, Result, ok, err, sqlite_integrity,
  artifact_not_found, corrupt_chunk, ◌>>=◌,
}
use ancestree.Cdc.{Bytes}
use ancestree.Database.{Database, NodeRow, ChunkRow, ArtifactRow, RecipeRow}
use ancestree.External.{External}
use ancestree.Exec.{Exec, for_each}
use ancestree.Exec
use ancestree.ChunkStore.Read.{get_chunk}
use ancestree.ChunkStore.Write.{has_chunk}

-- `ArtifactRecord`
pub record ArtifactRecord : Type 0 where
  pub relpath : String
  pub size : ℕ
  pub sha256 : String
  pub chunk_digests : List String

abbrev pub has_node : List NodeRow → String → Bool
has_node rows node_id = any (λ n. n.node_id == node_id) rows

-- `SELECT ... FROM artifact WHERE node_id = ? AND relpath = ?`
unfoldable pub artifact_row : List ArtifactRow → String → String → Option ArtifactRow
artifact_row rows node_id relpath =
    find? (λ a. (a.node_id == node_id) && (a.relpath == relpath)) rows

unfoldable pub has_artifact : List ArtifactRow → String → String → Bool
has_artifact rows node_id relpath = any (λ a. (a.node_id == node_id) && (a.relpath == relpath)) rows

unfoldable pub recipe_rows : List RecipeRow → String → String → List RecipeRow
recipe_rows rows node_id relpath =
    filter (λ r. (r.node_id == node_id) && (r.relpath == relpath)) rows

abbrev pub by_ordinal : RecipeRow → RecipeRow → Bool
by_ordinal a b = leb a.ordinal b.ordinal

-- `SELECT digest FROM artifact_chunk WHERE ... ORDER BY ordinal`
unfoldable pub recipe : List RecipeRow → String → String → List String
recipe rows node_id relpath =
    map (λ r. r.digest) (sort_by by_ordinal (recipe_rows rows node_id relpath))

-- INSERT INTO artifact: (node_id, relpath) is the primary key, the node a foreign key.
unfoldable pub insert_artifact : ArtifactRow → Exec (Unit {0})
insert_artifact row db =
    if has_artifact db.artifact row.node_id row.relpath || not (has_node db.node row.node_id)
    then (err sqlite_integrity, db)
    else (ok tt, record db { artifact = db.artifact ++ row ∷ [] })

unfoldable pub has_recipe : List RecipeRow → String → String → ℕ → Bool
has_recipe rows node_id relpath ordinal =
    any (λ r. (r.node_id == node_id) && (r.relpath == relpath) && (r.ordinal =? ordinal)) rows

-- INSERT INTO artifact_chunk: (node_id, relpath, ordinal) is the primary key, the chunk and the artifact
-- are foreign keys.
unfoldable pub insert_recipe : RecipeRow → Exec (Unit {0})
insert_recipe row db =
    if has_recipe db.artifact_chunk row.node_id row.relpath row.ordinal
      || not (has_chunk db.chunk row.digest && has_artifact db.artifact row.node_id row.relpath)
    then (err sqlite_integrity, db)
    else (ok tt, record db { artifact_chunk = db.artifact_chunk ++ row ∷ [] })

-- `enumerate(chunk_digests)` as rows, from an ordinal on.
unfoldable pub enumerate : String → String → ℕ → List String → List RecipeRow
enumerate node_id relpath ordinal [] = []
enumerate node_id relpath ordinal (digest ∷ digests) =
    record { node_id = node_id; relpath = relpath; ordinal = ordinal; digest = digest }
    ∷ enumerate node_id relpath (ordinal + 1) digests

unfoldable pub add_artifact : String → String → ℕ → String → List String → Exec (Unit {0})
add_artifact node_id relpath size sha256 chunk_digests =
    Exec.◌>>◌
      (insert_artifact
        (record { node_id = node_id; relpath = relpath; size = size; sha256 = sha256 }))
      (for_each insert_recipe (enumerate node_id relpath 0 chunk_digests))

unfoldable pub has_artifacts : Database → String → Bool
has_artifacts db node_id = any (λ a. a.node_id == node_id) db.artifact

-- The rows of the join grouped by artifact, in the order of the relpaths.
unfoldable pub artifact_manifest : Database → String → List ArtifactRecord
artifact_manifest db node_id =
    map
      (λ a. record {
        relpath = a.relpath;
        size = a.size;
        sha256 = a.sha256;
        chunk_digests = recipe db.artifact_chunk node_id a.relpath;
      })
      (sort_by (λ a b. text_leb a.relpath b.relpath)
        (filter (λ a. a.node_id == node_id) db.artifact))

module _ (x : External) where
  -- `b"".join(self.get_chunk(digest) for digest in digests)`
  unfoldable pub read_chunks : List ChunkRow → List String → Result Bytes
  read_chunks pool [] = ok []
  read_chunks pool (digest ∷ digests) = do
    head ← get_chunk x pool digest
    rest ← read_chunks pool digests
    ok (head ++ rest)

  unfoldable pub verified : String → Bytes → Result Bytes
  verified sha256 data' = if x.sha256 data' == sha256 then ok data' else err corrupt_chunk

  unfoldable pub artifact_bytes : Database → String → String → Result Bytes
  artifact_bytes db node_id relpath = elim (artifact_row db.artifact node_id relpath) [
    | none ↦ err artifact_not_found
    | some artifact ↦ do
      data' ← read_chunks db.chunk (recipe db.artifact_chunk node_id relpath)
      verified artifact.sha256 data'
  ]
