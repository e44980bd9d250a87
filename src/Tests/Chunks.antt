-- ===== src/Tests/Chunks.antt =====
-- Chunking, storing and compacting.
use mathlib.Core.List.{flatten, Memᴰ}
use mathlib.Core.List.Memᴰ
use mathlib.Core.Bool.{false≢true}
use ancestree.Prelude.{
  Bool, false, ◌==◌, ℕ, String, ◌↔◌, ap, sym, ◌∙◌, inl, inr, Option, none, some, ◌+◌, ◌≤◌, ◌<◌, ◌⊎◌,
  arith, ◌≡◌, refl, true, [], ◌∷◌, length, ok, any, text_discrete,
}
use ancestree.Cdc.Bounds.{next_cut_bounds}
use ancestree.Cdc.{min_size, max_size, chunk_bytes, next_cut, content_cuts, large_file_threshold}
use ancestree.Cdc.Scan.{next_cut_wide, next_cut-narrow}
use ancestree.Cdc.Pieces.{HasSizes, chunk_bytes-flatten, chunk_bytes-HasSizes}
use ancestree.Cdc.Shift.{content_cuts_resync}
use ancestree.Database.{Database, ChunkRow, empty}
use ancestree.ChunkStore.Put.{HasStored, put_chunk-HasStored}
use ancestree.ChunkStore.Write.{put_chunk}
use ancestree.ChunkStore.Artifact.{artifact_bytes, has_artifact}
use ancestree.ChunkStore.File.{store_file, HasFile, store_file-HasFile}
use ancestree.Maintenance.Compact.{compact_chunks, artifact_bytes-compact_chunks}
use ancestree.Maintenance.Compact.Once.{IsFlat, IsUsed, compact_chunks_once}
use ancestree.Tests.Sample.{world, world-IsLawful, one_node, one_node-IsSound, one_node-IsOwned}

chunk_bytes-flatten_example :
    flatten (chunk_bytes (λ b. b) (1 ∷ 2 ∷ 3 ∷ []) large_file_threshold) ≡ 1 ∷ 2 ∷ 3 ∷ []
chunk_bytes-flatten_example = chunk_bytes-flatten (λ b. b) (1 ∷ 2 ∷ 3 ∷ []) large_file_threshold

chunk_bytes-HasSizes_example : HasSizes min_size (chunk_bytes (λ b. b) (1 ∷ 2 ∷ 3 ∷ []) 2)
chunk_bytes-HasSizes_example = chunk_bytes-HasSizes (λ b. b) (1 ∷ 2 ∷ 3 ∷ []) 2

next_cut-narrow_example :
    next_cut (λ b. b) (1 ∷ 2 ∷ 3 ∷ []) 0 3 ≡ next_cut_wide (λ b. b) (1 ∷ 2 ∷ 3 ∷ []) 0 3
next_cut-narrow_example = next_cut-narrow (λ b. b) (1 ∷ 2 ∷ 3 ∷ []) 0 3

content_cuts_resync_example :
    content_cuts (λ b. b) 5 (1 ∷ 2 ∷ 7 ∷ 8 ∷ []) 2 4 ≡ content_cuts (λ b. b) 5 (3 ∷ 7 ∷ 8 ∷ []) 1 3
content_cuts_resync_example = content_cuts_resync (λ b. b) (1 ∷ 2 ∷ []) (3 ∷ []) (7 ∷ 8 ∷ []) 5

put_chunk-HasStored_example :
    (db' : Database) × (put_chunk world true (4 ∷ 5 ∷ []) one_node
      ≡ (ok (world.sha256 (4 ∷ 5 ∷ [])), db'))
    × HasStored world one_node db' (4 ∷ 5 ∷ [])
put_chunk-HasStored_example =
    put_chunk-HasStored world world-IsLawful true one_node (4 ∷ 5 ∷ []) one_node-IsSound

store_file-HasFile_example :
    (db' : Database) × (store_file world true large_file_threshold "n" "raw.csv"
        (4 ∷ 5 ∷ [])
        one_node
      ≡ (ok (world.sha256 (4 ∷ 5 ∷ [])), db'))
    × HasFile world world-IsLawful one_node db' "n" "raw.csv" (4 ∷ 5 ∷ [])
unfolding any text_discrete has_artifact
store_file-HasFile_example =
    store_file-HasFile world world-IsLawful true large_file_threshold "n" "raw.csv" (4 ∷ 5 ∷ [])
      one_node one_node-IsSound one_node-IsOwned refl refl

artifact_bytes-compact_chunks_example :
    artifact_bytes world (compact_chunks one_node).1 "n" "raw.csv"
    ≡ artifact_bytes world one_node "n" "raw.csv"
artifact_bytes-compact_chunks_example = artifact_bytes-compact_chunks world one_node "n" "raw.csv"

-- A delta in use, its base, and a chunk that nothing refers to.
abbrev chunk_of : String → ℕ → Option String → ChunkRow
chunk_of digest kind base = record {
  digest = digest;
  kind = kind;
  base_digest = base;
  blob = [];
  length = 0;
  created_epoch = 0;
}

abbrev pool : Database
pool = record empty {
  chunk = chunk_of "base" 0 none ∷ chunk_of "delta" 1 (some "base") ∷ chunk_of "old" 0 none ∷ [];
  artifact_chunk = record { node_id = "n"; relpath = "a"; ordinal = 0; digest = "delta" } ∷ [];
}

mem_pool :
    (c : ChunkRow) → Memᴰ c pool.chunk → (c.base_digest ≡ none) ⊎ (c.base_digest ≡ some "base")
mem_pool c m = elim (Memᴰ.cases_cons m) [
  | inl e ↦ inl (ap (λ (r : ChunkRow). r.base_digest) e)
  | inr m ↦ elim (Memᴰ.cases_cons m) [
    | inl e ↦ inr (ap (λ (r : ChunkRow). r.base_digest) e)
    | inr m ↦ elim (Memᴰ.cases_cons m) [
      | inl e ↦ inl (ap (λ (r : ChunkRow). r.base_digest) e)
      | inr m ↦ absurd (Memᴰ.not-nil m)
    ]
  ]
]

abbrev is_delta : Option String → Bool
is_delta none = false
is_delta (some s) = s == "delta"

mem_pool-is_delta : (c : ChunkRow) → Memᴰ c pool.chunk → is_delta c.base_digest ≡ false
unfolding text_discrete
mem_pool-is_delta c m = elim (mem_pool c m) [ inl e ↦ ap is_delta e | inr e ↦ ap is_delta e ]

pool-IsFlat : IsFlat pool.chunk
unfolding text_discrete
pool-IsFlat c r mc mr based = elim (Memᴰ.cases_cons mr) [
  | inl e ↦ ap (λ (r : ChunkRow). r.base_digest) e
  | inr m ↦ elim (Memᴰ.cases_cons m) [
    | inl e ↦
        let delta : is_delta (some r.digest) ≡ true =
          ap (λ (r : ChunkRow). is_delta (some r.digest)) e in
        absurd (false≢true (sym (mem_pool-is_delta c mc) ∙ ap is_delta based ∙ delta))
    | inr m ↦ elim (Memᴰ.cases_cons m) [
      | inl e ↦ ap (λ (r : ChunkRow). r.base_digest) e
      | inr m ↦ absurd (Memᴰ.not-nil m)
    ]
  ]
]

compact_chunks_once_example :
    (removed : ℕ) × (after : Database) × (compact_chunks pool ≡ (ok removed, after))
    × ((c : ChunkRow) → Memᴰ c after.chunk ↔ (Memᴰ c pool.chunk × IsUsed pool c.digest))
    × (removed + length after.chunk ≡ length pool.chunk)
    × (compact_chunks after ≡ (ok 0, after))
compact_chunks_once_example = compact_chunks_once pool pool-IsFlat

next_cut_bounds_example :
    (0 < next_cut (λ b. b) (5 ∷ []) 0 1)
    × (next_cut (λ b. b) (5 ∷ []) 0 1 ≤ 1)
    × (next_cut (λ b. b) (5 ∷ []) 0 1 ≤ 0 + max_size)
    × ((next_cut (λ b. b) (5 ∷ []) 0 1 ≡ 1) ⊎ (0 + min_size < next_cut (λ b. b) (5 ∷ []) 0 1))
next_cut_bounds_example = next_cut_bounds (λ b. b) (5 ∷ []) 0 1 (omega arith)
