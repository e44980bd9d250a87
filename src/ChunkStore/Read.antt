-- ===== src/ChunkStore/Read.antt =====
-- `get_chunk` and `_decode_chunk` of src/ancestree/db/chunk_store.py. A read sees the chunk table
-- alone, here `pool`.
use ancestree.Prelude.{
  ℕ, String, ◌==◌, ◌=?◌, Option, none, some, List, find?, if◌then◌else◌, Result, ok, err,
  integrity_error, corrupt_chunk, zlib_error, ◌>>=◌,
}
use ancestree.Cdc.{Bytes}
use ancestree.Database.{ChunkRow}
use ancestree.External.{External}
use ancestree.ChunkStore.Features.{delta_decode}

abbrev pub kind_raw : ℕ
kind_raw = 0

abbrev pub kind_delta : ℕ
kind_delta = 1

abbrev pub kind_stored : ℕ
kind_stored = 2

-- `SELECT ... FROM chunk WHERE digest = ?`
unfoldable pub chunk_row : List ChunkRow → String → Option ChunkRow
chunk_row pool digest = find? (λ c. c.digest == digest) pool

-- What zlib returns, or its error.
abbrev pub or_zlib_error : Option Bytes → Result Bytes
or_zlib_error (some data') = ok data'
or_zlib_error none = err zlib_error

module _ (x : External) where
  -- The tests on the kind; `delta` is what the delta branch gives.
  unfoldable pub decode_row : ChunkRow → Result Bytes → Result Bytes
  decode_row row delta =
      if row.kind =? kind_raw
      then or_zlib_error (x.decompress row.blob)
      else if row.kind =? kind_stored
      then ok row.blob
      else if row.kind =? kind_delta
      then delta
      else err integrity_error

  -- `_decode_chunk(digest, allow_delta=False)`
  unfoldable pub decode_base : List ChunkRow → String → Result Bytes
  decode_base pool digest = elim (chunk_row pool digest) [
    | none ↦ err integrity_error
    | some row ↦ decode_row row (err integrity_error)
  ]

  -- The delta branch; a NULL base matches no row.
  unfoldable pub decode_against : List ChunkRow → Option String → Bytes → Result Bytes
  decode_against pool none blob = err integrity_error
  decode_against pool (some base_digest) blob = do
    base ← decode_base pool base_digest
    if x.sha256 base == base_digest
        then or_zlib_error (delta_decode x base blob)
        else err corrupt_chunk

  abbrev pub decode_delta : List ChunkRow → ChunkRow → Result Bytes
  decode_delta pool row = decode_against pool row.base_digest row.blob

  -- `_decode_chunk(digest, allow_delta=True)`
  unfoldable pub decode_chunk : List ChunkRow → String → Result Bytes
  decode_chunk pool digest = elim (chunk_row pool digest) [
    | none ↦ err integrity_error
    | some row ↦ decode_row row (decode_delta pool row)
  ]

  unfoldable pub get_chunk : List ChunkRow → String → Result Bytes
  get_chunk pool digest = do
    data' ← decode_chunk pool digest
    if x.sha256 data' == digest then ok data' else err corrupt_chunk
