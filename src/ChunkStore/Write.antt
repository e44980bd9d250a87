-- ===== src/ChunkStore/Write.antt =====
-- The write methods of src/ancestree/db/chunk_store.py: they run in the caller's transaction, and
-- what they read they read in it.
use ancestree.Prelude.{
  ℕ, ◌*◌, min, String, ◌==◌, ◌=?◌, Bool, true, false, not, ◌&&◌, ◌||◌, Option, none, some, List, [],
  ◌∷◌, ◌++◌, length, filter, any, leb, ltb, if◌then◌else◌, ok, err, sqlite_integrity,
}
use ancestree.Cdc.{Bytes}
use ancestree.Database.{Database, ChunkRow, FeatureRow}
use ancestree.External.{External}
use ancestree.Exec.{Exec, pure, reads, ◌>>=◌, ◌>>◌, for_each}
use ancestree.ChunkStore.Features.{super_features, delta_encode}
use ancestree.ChunkStore.Read.{get_chunk, kind_raw, kind_delta, kind_stored}

abbrev pub delta_min_size : ℕ
delta_min_size = 2048

-- `SELECT 1 FROM chunk WHERE digest = ?`
unfoldable pub has_chunk : List ChunkRow → String → Bool
has_chunk pool digest = any (λ c. c.digest == digest) pool

-- A foreign key is checked unless it is NULL.
unfoldable pub base_present : List ChunkRow → Option String → Bool
base_present pool none = true
base_present pool (some b) = has_chunk pool b

abbrev pub add_chunk : ChunkRow → Database → Database
add_chunk row db = record db { chunk = db.chunk ++ row ∷ [] }

-- INSERT INTO chunk: the digest is the primary key, `base_digest` a foreign key.
unfoldable pub insert_row : ChunkRow → Exec (Unit {0})
insert_row row db =
    if has_chunk db.chunk row.digest || not (base_present db.chunk row.base_digest)
    then (err sqlite_integrity, db)
    else (ok tt, add_chunk row db)

-- How many of the features a digest shares: `count(*)` of its group.
unfoldable pub shared : List FeatureRow → List ℕ → String → ℕ
shared index features digest =
    length (filter (λ f. (f.digest == digest) && any (λ n. n =? f.feature) features) index)

-- ORDER BY count(*) DESC, created_epoch_seconds: does `c` come before `b`?
unfoldable pub comes_before : (String → ℕ) → ChunkRow → ChunkRow → Bool
comes_before count c b =
    ltb (count b.digest) (count c.digest)
    || (count b.digest =? count c.digest) && ltb c.created_epoch b.created_epoch

-- ... LIMIT 1, the first of equals.
unfoldable pub nearest : (String → ℕ) → Option ChunkRow → List ChunkRow → Option ChunkRow
nearest count best [] = best
nearest count none (c ∷ cs) = nearest count (some c) cs
nearest count (some b) (c ∷ cs) = nearest count (some (if comes_before count c b then c else b)) cs

-- The rows of the join: chunks that are no deltas and share a feature.
unfoldable pub candidates : Database → List ℕ → List ChunkRow
candidates db features =
    filter (λ c. not (c.kind =? kind_delta) && ltb 0 (shared db.chunk_feature features c.digest))
      db.chunk

unfoldable pub find_base : List ℕ → Database → Option String
find_base [] db = none
find_base (f ∷ fs) db =
    elim (nearest (shared db.chunk_feature (f ∷ fs)) none (candidates db (f ∷ fs))) [
      | none ↦ none
      | some c ↦ some c.digest
    ]

-- The primary key of the chunk_feature table.
unfoldable pub has_feature : List FeatureRow → String → ℕ → Bool
has_feature index digest feature = any (λ f. (f.feature =? feature) && (f.digest == digest)) index

-- INSERT OR IGNORE INTO chunk_feature: a row that is there already is passed over, a digest that
-- is in no chunk violates the foreign key.
unfoldable pub insert_feature : String → ℕ → Exec (Unit {0})
insert_feature digest feature db =
    if has_feature db.chunk_feature digest feature
    then (ok tt, db)
    else if has_chunk db.chunk digest
    then (
      ok tt,
      record db {
        chunk_feature = db.chunk_feature ++ record { feature = feature; digest = digest } ∷ [];
      },
    )
    else (err sqlite_integrity, db)

unfoldable pub store_features : String → List ℕ → Exec (Unit {0})
store_features digest features = for_each (insert_feature digest) features

module _ (x : External) where
  -- `_insert_chunk`, with the clock read as the row is built.
  unfoldable pub insert_chunk : String → ℕ → Option String → Bytes → ℕ → Exec (Unit {0})
  insert_chunk digest kind base_digest blob length' db =
      insert_row
        (record {
          digest = digest;
          kind = kind;
          base_digest = base_digest;
          blob = blob;
          length = length';
          created_epoch = x.time db;
        })
        db

  -- zlib, or verbatim when zlib made it no smaller
  unfoldable pub insert_raw : String → Bytes → Bytes → Exec (Unit {0})
  insert_raw digest data' packed =
      if ltb (length packed) (length data')
      then insert_chunk digest kind_raw none packed (length data')
      else insert_chunk digest kind_stored none data' (length data')

  -- The trial against a nominated base;
  -- `len(delta_blob) >= min(len(packed), len(data)) * 0.8` in fifths.
  unfoldable pub try_base : String → Bytes → Bytes → Option String → Exec Bool
  try_base digest data' packed none = pure false
  try_base digest data' packed (some base_digest) = do
    base ← reads (λ db. get_chunk x db.chunk base_digest)
    if leb (min (length packed) (length data') * 4) (length (delta_encode x base data') * 5)
        then pure false
        else do
          insert_chunk digest kind_delta (some base_digest) (delta_encode x base data')
              (length data')
          pure true

  unfoldable pub try_delta : String → Bytes → Bytes → List ℕ → Exec Bool
  try_delta digest data' packed features db =
      try_base digest data' packed (find_base features db) db

  -- The branch under the delta policy.
  unfoldable pub put_similar : String → Bytes → Exec (Unit {0})
  put_similar digest data' = do
    let features = super_features x.little_endian data'
    stored ← try_delta digest data' (x.compress data') features
    if stored
        then pure tt
        else do insert_raw digest data' (x.compress data'); store_features digest features

  unfoldable pub put_chunk : Bool → Bytes → Exec String
  put_chunk delta data' db =
      if has_chunk db.chunk (x.sha256 data')
      then (ok (x.sha256 data'), db)
      else if delta && leb delta_min_size (length data')
      then (put_similar (x.sha256 data') data' >>= λ _. pure (x.sha256 data')) db
      else (insert_raw (x.sha256 data') data' (x.compress data') >>= λ _. pure (x.sha256 data')) db

  -- `[chunk_store.put_chunk(conn, piece) for piece in ...]`
  unfoldable pub put_chunks : Bool → List Bytes → Exec (List String)
  put_chunks delta [] = pure []
  put_chunks delta (piece ∷ pieces) = do
    digest ← put_chunk delta piece
    digests ← put_chunks delta pieces
    pure (digest ∷ digests)
