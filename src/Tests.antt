-- ===== src/Tests.antt =====
-- The theorems at concrete inputs, and runs of the definitions.
mod Sample
mod Chunks
mod Graph
mod Pruning
mod Searches
mod Entries
mod Prints
mod Sweeps
mod Layouts
mod Nodes
mod Policies
