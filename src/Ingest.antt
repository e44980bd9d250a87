-- ===== src/Ingest.antt =====
-- src/ancestree/ingest/packing.py. The scratch directory is the list of its files.
pub mod Added
pub mod Whole
use ancestree.Prelude.{
  ◌*◌, leb, if◌then◌else◌, ℕ, zero, ◌+◌, String, Bool, List, [], ◌∷◌, length, Result, ok, err,
}
use ancestree.Cdc.{Bytes}
use ancestree.Database.{Database, NodeRow, MetadataRow}
use ancestree.External.{External}
use ancestree.Exec.{Exec, pure, ◌>>=◌, ◌>>◌}
use ancestree.Connection.Transaction.{transaction}
use ancestree.MetadataStore.Write.{NodeRecord, add_node}
use ancestree.ChunkStore.File.{store_file}

abbrev pub Files : Type 0
Files = List (String × Bytes)

pub record IngestResult : Type 0 where
  pub final : NodeRecord
  pub artifact_sha256s : List (String × String)

-- `sum(path.stat().st_size for _, path in files)`
unfoldable pub total_size : Files → ℕ
total_size [] = 0
total_size ((relpath, data') ∷ files) = length data' + total_size files

unfoldable pub with_size : NodeRecord → ℕ → NodeRecord
with_size r total = record { row = record r.row { size_bytes = total }; parent_id = r.parent_id }

unfoldable pub store_files : External → Bool → ℕ → String → Files → Exec (List (String × String))
store_files x delta threshold node_id [] = pure []
store_files x delta threshold node_id ((relpath, data') ∷ files) = do
  digest ← store_file x delta threshold node_id relpath data'
  rest ← store_files x delta threshold node_id files
  pure ((relpath, digest) ∷ rest)

abbrev pub checkpoint_bytes : ℕ
checkpoint_bytes = 32 * 1024 * 1024

-- `if total >= _CHECKPOINT_BYTES: manager.checkpoint()`, with no transaction open.
unfoldable pub checkpoint_large : External → ℕ → Exec (Unit {0})
checkpoint_large x total db =
    if leb checkpoint_bytes total then (x.checkpoint db, db) else (ok tt, db)

-- The block of the transaction.
unfoldable pub ingest_statements :
    External → Bool → ℕ → NodeRecord → List MetadataRow → Files → Exec IngestResult
ingest_statements x delta threshold r metadata files =
    let final = with_size r (total_size files) in
    do
      add_node final metadata
      digests ← store_files x delta threshold r.node_id files
      pure (record { final = final; artifact_sha256s = digests })

-- The end of the scratch directory changes no table.
unfoldable pub ingest_node :
    External → Bool → ℕ → NodeRecord → List MetadataRow → Files → Exec IngestResult
ingest_node x delta threshold r metadata files = do
  result ← transaction (ingest_statements x delta threshold r metadata files)
  checkpoint_large x (total_size files)
  pure result
