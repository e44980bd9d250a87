-- ===== src/ChunkStore.antt =====
-- src/ancestree/db/chunk_store.py: the chunk pool and the artifact recipes; with the features and
-- the delta codec of src/ancestree/ingest/cdc.py.
pub mod Features
pub mod Read
pub mod Write
pub mod Pool
pub mod Put
pub mod Artifact
pub mod Recipes
pub mod File
