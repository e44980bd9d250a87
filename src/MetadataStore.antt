-- ===== src/MetadataStore.antt =====
-- src/ancestree/db/metadata_store.py: nodes, their parent edges and their metadata.
pub mod Write
pub mod Read
pub mod Batches
pub mod Find
pub mod Envelopes
pub mod RoundTrip
pub mod Removal
