-- ===== src/Maintenance/Compact.antt =====
-- `compact_chunks` of src/ancestree/maintenance.py, the DELETE and its count. The checkpoint and
-- the vacuum behind it change no table; a failure of theirs is not modelled.
pub mod Once
use mathlib.Core.List.{Memᴰ}
use mathlib.Core.List.Memᴰ
use ancestree.Prelude.{
  inl, inr, ok, err, sqlite_integrity, if◌then◌else◌, Bool-cases, ap, mem-filter, mem-sort_by, ℕ,
  ◌+◌, String, text_discrete, ◌==◌, ◌≡◌, refl, ◌∙◌, Bool, true, false, not, ◌&&◌, ◌||◌, Option,
  none, some, List, [], ◌∷◌, filter, any, find?, length, arith, Option-cases,
}
use ancestree.Database.{Database, ChunkRow, RecipeRow}
use ancestree.External.{External}
use ancestree.Exec.{Exec}
use ancestree.ChunkStore.Read.{
  chunk_row, decode_row, decode_base, decode_against, decode_chunk, get_chunk,
}
use ancestree.ChunkStore.Artifact.{by_ordinal, recipe_rows, recipe, read_chunks, artifact_bytes}

-- `SELECT digest FROM artifact_chunk`
unfoldable pub in_recipe : List RecipeRow → String → Bool
in_recipe recipes digest = any (λ r. r.digest == digest) recipes

-- `SELECT base_digest FROM chunk WHERE base_digest IS NOT NULL AND digest IN (...)`
abbrev refers : List RecipeRow → String → ChunkRow → Bool
refers recipes digest c = elim c.base_digest [
  | none ↦ false
  | some b ↦ (b == digest) && in_recipe recipes c.digest
]

unfoldable pub is_live_base : List RecipeRow → List ChunkRow → String → Bool
is_live_base recipes pool digest = any (refers recipes digest) pool

unfoldable pub is_live : Database → String → Bool
is_live db digest =
    in_recipe db.artifact_chunk digest || is_live_base db.artifact_chunk db.chunk digest

-- `base_digest REFERENCES chunk(digest)`, looked at when the DELETE is through: whether a row that stays
-- has a row that goes for its base. A row that a recipe refers to never goes.
abbrev pub is_based_on : String → ChunkRow → Bool
is_based_on digest c = elim c.base_digest [ none ↦ false | some b ↦ b == digest ]

unfoldable pub loses_base : (String → Bool) → List ChunkRow → Bool
loses_base keep pool =
    any (λ r. not (keep r.digest) && any (λ c. keep c.digest && is_based_on r.digest c) pool) pool

-- The rows that stay. A feature row cascades with its chunk.
abbrev pub kept_db : Database → Database
kept_db db = record db {
  chunk = filter (λ c. is_live db c.digest) db.chunk;
  chunk_feature = filter (λ f. is_live db f.digest) db.chunk_feature;
}

-- `rowcount` is the number of the rows that went; a DELETE that breaks the foreign key is rolled back.
unfoldable pub compact_chunks : Exec ℕ
compact_chunks db =
    if loses_base (is_live db) db.chunk
    then (err sqlite_integrity, db)
    else (ok (length (filter (λ c. not (is_live db c.digest)) db.chunk)), kept_db db)

module _ (keep : String → Bool) (d : String) (kept : keep d ≡ true) where
  chunk_row-filter :
      (pool : List ChunkRow) → chunk_row (filter (λ c. keep c.digest) pool) d ≡ chunk_row pool d
  unfolding chunk_row find? filter
  chunk_row-filter [] = refl
  chunk_row-filter (c ∷ pool) = elim (text_discrete c.digest d) [
    | yes same ↦ let e : keep c.digest ≡ true = rw same kept in ground arith
    | no differ ↦ ground (arith, chunk_row-filter pool)
  ]

live_base_of_row :
    (recipes : List RecipeRow) (pool : List ChunkRow) (d b : String) (r : ChunkRow)
    → chunk_row pool d ≡ some r
    → r.base_digest ≡ some b
    → in_recipe recipes d ≡ true
    → is_live_base recipes pool b ≡ true
unfolding chunk_row find? is_live_base any
live_base_of_row recipes [] d b r h e l = cc
live_base_of_row recipes (c ∷ pool) d b r h e l = elim (text_discrete c.digest d) [
  | yes same ↦ ground arith
  | no differ ↦ ground (arith, live_base_of_row recipes pool d b r)
]

in_recipe_of_mem :
    (recipes : List RecipeRow) (r : RecipeRow) → Memᴰ r recipes → in_recipe recipes r.digest ≡ true
unfolding in_recipe any
in_recipe_of_mem [] r m = absurd (Memᴰ.not-nil m)
in_recipe_of_mem (s ∷ recipes) r m = elim (Memᴰ.cases_cons m) [
  | inl here ↦ ground arith
  | inr there ↦ ground (arith, in_recipe_of_mem recipes r there)
]

module _ (x : External) (db : Database) where
  abbrev compacted : Database
  compacted = kept_db db

  decode_base_kept :
      (d : String)
      → is_live db d ≡ true
      → decode_base x compacted.chunk d ≡ decode_base x db.chunk d
  unfolding decode_base
  decode_base_kept d live = rw (chunk_row-filter (is_live db) d live db.chunk, decode_base)

  decode_against_kept :
      (base : Option String) (blob : List ℕ)
      → ((b : String) → base ≡ some b → is_live db b ≡ true)
      → decode_against x compacted.chunk base blob ≡ decode_against x db.chunk base blob
  unfolding decode_against
  decode_against_kept none blob live = refl
  decode_against_kept (some b) blob live = rw (decode_base_kept b (live b refl))

  decode_chunk_kept :
      (d : String)
      → in_recipe db.artifact_chunk d ≡ true
      → decode_chunk x compacted.chunk d ≡ decode_chunk x db.chunk d
  unfolding decode_chunk
  decode_chunk_kept d used =
      let live : is_live db d ≡ true = unfold is_live in rw used in
      let same = chunk_row-filter (is_live db) d live db.chunk in
      elim (Option-cases (chunk_row db.chunk d)) [
        | inl e ↦ rw (same ∙ e, decode_chunk) (rw (e, decode_chunk))
        | inr (r, e) ↦
            rw (same ∙ e, decode_chunk)
              (rw (e, decode_chunk)
                (ap (decode_row x r) (
                  decode_against_kept r.base_digest r.blob (λ b based.
                    unfold is_live in
                    ground
                      (arith, live_base_of_row db.artifact_chunk db.chunk d b r e based used)))))
      ]

  get_chunk_kept :
      (d : String)
      → in_recipe db.artifact_chunk d ≡ true
      → get_chunk x compacted.chunk d ≡ get_chunk x db.chunk d
  unfolding get_chunk
  get_chunk_kept d used = rw (decode_chunk_kept d used)

  read_chunks_kept :
      (ds : List String)
      → ((d : String) → Memᴰ d ds → in_recipe db.artifact_chunk d ≡ true)
      → read_chunks x compacted.chunk ds ≡ read_chunks x db.chunk ds
  unfolding read_chunks
  read_chunks_kept [] used = refl
  read_chunks_kept (d ∷ ds) used =
      rw (get_chunk_kept d (used d (Memᴰ.head refl)))
        (rw (read_chunks_kept ds (λ c m. used c (Memᴰ.tail m))))

  recipe_used :
      (n p d : String)
      → Memᴰ d (recipe db.artifact_chunk n p)
      → in_recipe db.artifact_chunk d ≡ true
  unfolding recipe recipe_rows
  recipe_used n p d m =
      let (r, from, e) = Memᴰ.of_map (λ (r : RecipeRow). r.digest) _ m in
      rw (← e) (
        in_recipe_of_mem db.artifact_chunk r
          (mem-filter _ r db.artifact_chunk (mem-sort_by by_ordinal r _ from)).0)

  artifact_bytes_kept : (n p : String) → artifact_bytes x compacted n p ≡ artifact_bytes x db n p
  unfolding artifact_bytes
  artifact_bytes_kept n p =
      ground (arith, read_chunks_kept (recipe db.artifact_chunk n p) (recipe_used n p))

  -- Compaction changes no read: every artifact, and every failure to read one, is as before,
  -- whatever the state of the store, a base that only a delta in use needs included.
  pub artifact_bytes-compact_chunks :
      (n p : String) → artifact_bytes x (compact_chunks db).1 n p ≡ artifact_bytes x db n p
  unfolding compact_chunks
  artifact_bytes-compact_chunks n p = elim (Bool-cases (loses_base (is_live db) db.chunk)) [
    | inl e ↦ rw e refl
    | inr e ↦ rw e (artifact_bytes_kept n p)
  ]
