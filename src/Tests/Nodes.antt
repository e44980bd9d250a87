-- ===== src/Tests/Nodes.antt =====
-- Reads, transactions, ingest and pruning of nodes.
use ancestree.Prelude.{
  ◌⊎◌, ◌≤◌, Error, Result, not, ◌&&◌, ◌||◌, String, text_discrete, ◌≡◌, ◌≢◌, refl, true, false,
  none, some, [], ◌∷◌, contains, if◌then◌else◌, ok, err, sqlite_integrity, any, all, find?,
}
use ancestree.Cdc.{large_file_threshold}
use ancestree.Database.{Database, empty}
use ancestree.Connection.{
  Connection, Block, statement, sequence, attempt, nested, write, execute, enter, leave,
  note_failure, after,
}
use ancestree.Connection.Atomic.{outcome, committed, write-committed}
use ancestree.MetadataStore.Write.{
  NodeRecord, exists, has_edge, insert_node, insert_edge, edge_rows, entry_rows, add_node, remove,
}
use ancestree.MetadataStore.Read.{node_row as find_row, get, lookup, get_many, metadata_for}
use ancestree.MetadataStore.Batches.{get_many-get}
use ancestree.MetadataStore.RoundTrip.{add_node-get}
use ancestree.MetadataStore.Removal.{without, remove-get}
use ancestree.ChunkStore.Artifact.{has_artifact}
use ancestree.Exec.{for_each}
use ancestree.Connection.Transaction.{transaction}
use ancestree.Ingest.{
  Files, IngestResult, total_size, with_size, checkpoint_bytes, ingest_statements, ingest_node,
}
use ancestree.Ingest.Whole.{HasFiles, ingest_node-HasFiles, ingest_node-rollback}
use ancestree.Maintenance.Prune.Deleted.{delete-left}
use ancestree.Maintenance.Prune.{delete}
use ancestree.Tests.Sample.{
  world, world-IsLawful, node_row, one_node, one_node-IsSound, one_node-IsOwned,
}
use ancestree.Tests.Graph.{join}

get_many-get_example :
    lookup (get_many join ("c" ∷ "b" ∷ [])) "c"
    ≡ (if contains ("c" ∷ "b" ∷ []) "c" then get join "c" else none)
unfolding find_row find? text_discrete
get_many-get_example = get_many-get join ("c" ∷ "b" ∷ []) "c" (refl, (refl, (refl, tt)))

-- A node is inserted, a nested block raises, and the exception is swallowed.
abbrev swallowed : Block
swallowed =
    sequence (statement (insert_node (node_row "m")))
      (attempt (nested (statement (insert_node (node_row "m")))))

abbrev idle : Connection
idle = record { tables = one_node; begun = empty; depth = 0; failed = false }

write-committed_example :
    ((write (execute swallowed) idle).1.tables ≡ committed (outcome swallowed one_node) one_node)
    × ((write (execute swallowed) idle).1.depth ≡ 0)
write-committed_example = write-committed swallowed idle refl

swallowed_rolls_back : (write (execute swallowed) idle).1.tables ≡ one_node
unfolding write execute insert_node exists any text_discrete enter leave note_failure after
swallowed_rolls_back = refl

abbrev child : NodeRecord
child = record { row = node_row "m"; parent_id = "n" ∷ [] }

abbrev two_files : Files
two_files = ("a.csv", 4 ∷ 5 ∷ []) ∷ ("b.csv", 4 ∷ []) ∷ []

child_goes_in :
    add_node (with_size child (total_size two_files)) [] one_node
    ≡ (ok tt, (add_node (with_size child (total_size two_files)) [] one_node).1)
unfolding add_node with_size total_size insert_node insert_edge edge_rows entry_rows for_each exists
    has_edge any text_discrete
child_goes_in = refl

add_node-get_example :
    (get (add_node (with_size child (total_size two_files)) [] one_node).1 "m"
      ≡ some (with_size child (total_size two_files)))
    × (metadata_for (add_node (with_size child (total_size two_files)) [] one_node).1 "m" ≡ [])
    × ((j : String)
        → ◌≢◌ {A = String} j "m"
        → (get (add_node (with_size child (total_size two_files)) [] one_node).1 j ≡ get one_node j)
          × (metadata_for (add_node (with_size child (total_size two_files)) [] one_node).1 j
              ≡ metadata_for one_node j))
unfolding all with_size
add_node-get_example =
    add_node-get (with_size child (total_size two_files)) [] one_node
      (add_node (with_size child (total_size two_files)) [] one_node).1 (refl, refl) child_goes_in

remove-get_example :
    (get (remove "a" join).1 "a" ≡ none)
    × (metadata_for (remove "a" join).1 "a" ≡ [])
    × ((j : String)
        → ◌≢◌ {A = String} j "a"
        → (get (remove "a" join).1 j ≡ without "a" (get join j))
          × (metadata_for (remove "a" join).1 j ≡ metadata_for join j))
remove-get_example = remove-get "a" join

ingest_node-HasFiles_example :
    (result : IngestResult) × (db' : Database) × ((ingest_node world true large_file_threshold child
          [] two_files one_node
        ≡ (ok result, db'))
      ⊎ ((e : Error) × (checkpoint_bytes ≤ total_size two_files)
          × (world.checkpoint db' ≡ err e)
          × (ingest_node world true large_file_threshold child [] two_files one_node
              ≡ (err e, db'))))
    × HasFiles world world-IsLawful one_node db' "m" two_files
unfolding has_artifact any text_discrete
ingest_node-HasFiles_example =
    ingest_node-HasFiles world world-IsLawful true large_file_threshold child [] two_files one_node
      (add_node (with_size child (total_size two_files)) [] one_node).1 one_node-IsSound
      one_node-IsOwned child_goes_in ((refl, tt), (tt, tt)) (refl, (refl, tt))

abbrev parent_again : NodeRecord
parent_again = record { row = node_row "n"; parent_id = [] }

again_fails :
    (ingest_node world true large_file_threshold parent_again [] two_files one_node).0
    ≡ err sqlite_integrity
unfolding ingest_node ingest_statements transaction enter leave note_failure add_node with_size
    insert_node exists any text_discrete
again_fails = refl

abbrev again : Result IngestResult × Database
again = ingest_node world true large_file_threshold parent_again [] two_files one_node

ingest_node-rollback_example :
    (again.1 ≡ one_node)
    ⊎ ((checkpoint_bytes ≤ total_size two_files)
        × (world.checkpoint again.1 ≡ err sqlite_integrity)
        × (result : IngestResult) × (ingest_statements world true large_file_threshold parent_again
              [] two_files one_node
            ≡ (ok result, again.1)))
ingest_node-rollback_example =
    ingest_node-rollback world true large_file_threshold parent_again [] two_files one_node
      sqlite_integrity again_fails

delete-left_example :
    ((id : String)
      → exists (delete ("b" ∷ []) join) id ≡ (exists join id && not (contains ("b" ∷ []) id)))
    × ((c p : String)
        → has_edge (delete ("b" ∷ []) join).edge c p
          ≡ (has_edge join.edge c p && not (contains ("b" ∷ []) c || contains ("b" ∷ []) p)))
delete-left_example = delete-left ("b" ∷ []) join
