-- ===== src/Lib.antt =====
-- Ancestree keeps the lineage of a data pipeline: a directed acyclic graph of nodes, their metadata,
-- and their artifacts as deduplicated chunks, all in one SQLite database. This library models the
-- core of src/ancestree and states what makes it correct.
--
-- The parts and the files that model them:
-- - Cdc: src/ancestree/ingest/cdc.py, section 1: `next_cut`, `chunk_bytes` and the slices of a large
--   file. Both loops run on the length of the data as fuel, and every round takes at least one byte.
-- - Database: the tables of src/ancestree/db/schema.py as lists of rows. Keys and foreign keys are
--   checks of the functions that insert, cascades are in those that delete.
-- - Schema: `ensure_schema` of the same file, on the table names and the version stamp: the script of
--   `SCHEMA_SQL` and the checks against `TABLES`, two lists of the source.
-- - Exec: statements that may raise, as functions from the tables to a result and the tables.
-- - External: hashlib, zlib, the random Gear table, the clock and the checkpoint are parameters.
--   `IsLawful` states that zlib inflates what it deflated and that SHA-256 has no collision.
-- - Connection: `ConnectionManager.write` of src/ancestree/db/connection.py: depth, flag, snapshot,
--   commit and rollback. A block is a small program of statements, sequences, swallowed exceptions
--   and nested writes.
-- - ChunkStore: src/ancestree/db/chunk_store.py: Features (cdc.py, sections 2 and 3), Read, Write,
--   Artifact; Pool, Put, Recipes and File are about reading back what has been stored.
-- - MetadataStore: src/ancestree/db/metadata_store.py: Write, Read, the batched reads in Batches and
--   Envelopes, and Find: the filters are sorted into stages, the conditions of one statement, and the
--   predicates run over its rows. The driver and the JSON library are a parameter.
-- - Lineage: `MetadataStore.lineage`. Ancestry is about the recursive query, which follows each edge
--   once, so that one round more than there are edges is enough. The walk runs on fuel, an amount for
--   each edge of the ancestry and for the start.
-- - Ingest: `ingest_node` of src/ancestree/ingest/packing.py on the list of the scratch files. The
--   checkpoint behind the COMMIT may raise.
-- - Kahn: the loop that orders a graph, in `Pruner.plan` and in `assign_levels`. Its fuel is the number
--   of nodes, each of which gets ready once.
-- - Maintenance: src/ancestree/maintenance.py: Compact and Prune. The walk over the descendants runs on
--   fuel: each of the n nodes is expanded once and puts at most n children on the stack. Sweep is
--   `sweep_orphan_scratch` on the list of the scratch directories; what a process does meanwhile is not
--   modelled, and a seed that is no JSON object or has fields of other types is not a value of the model.
-- - Domain: src/ancestree/domain/rules.py, src/ancestree/domain/fingerprint.py, and in Metadata
--   src/ancestree/domain/metadata.py with `add_meta` of src/ancestree/domain/node.py.
-- - Util: `to_jsonable` of src/ancestree/util.py on a data type of Python values.
-- - Store: src/ancestree/store.py: the policy, the parents, the creation and reuse of nodes, queries,
--   searches and pruning.
-- - Web: src/ancestree/web/graph.py: the levels of the nodes and the skeleton of the drawn graph.
-- - Tests: the theorems at concrete inputs.
--
-- Bytes are natural numbers in lists, and a bit mask of k bits is a remainder by 2^k. Times are
-- numbers of ticks. A set is a list with `contains`, a dict a list of entries under distinct keys.
-- A JSON value is its canonical text.
--
-- Not modelled: the read cache, threads and forks, a COMMIT that fails, a
-- checkpoint or a vacuum that fails behind a compaction, the rest of the web explorer,
-- the export, the command line, provenance, and file I/O.
pub mod Cdc
pub mod ChunkStore
pub mod Connection
pub mod Database
pub mod Domain
pub mod Exec
pub mod External
pub mod Ingest
pub mod Kahn
pub mod Lineage
pub mod Maintenance
pub mod MetadataStore
pub mod Prelude
pub mod Schema
pub mod Store
pub mod Tests
pub mod Util
pub mod Web
