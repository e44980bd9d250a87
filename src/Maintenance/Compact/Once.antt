-- ===== src/Maintenance/Compact/Once.antt =====
-- One compaction is enough, and what it leaves is what is in use.
use mathlib.Core.List.{Memᴰ}
use ancestree.Prelude.{
  ℕ, ◌+◌, String, ◌==◌, ◌≡◌, ◌↔◌, refl, ap, ap₂, sym, ◌∙◌, Bool, true, false, not, ◌&&◌, none, some,
  List, [], ◌∷◌, filter, any, any-mem, mem-any, mem-filter, filter-mem, length, arith, Option-cases,
  Bool-cases, inl, inr, ok,
}
use ancestree.Database.{Database, ChunkRow, RecipeRow}
use ancestree.Maintenance.Compact.{
  in_recipe, refers, is_live_base, is_live, is_based_on, loses_base, kept_db, compact_chunks,
}

-- A base is never itself a delta.
abbrev pub IsFlat : List ChunkRow → Type 0
IsFlat pool =
    (c r : ChunkRow)
    → Memᴰ c pool
    → Memᴰ r pool
    → c.base_digest ≡ some r.digest
    → r.base_digest ≡ none

-- What a chunk is needed for: a recipe, or a chunk of a recipe that is a delta against it.
pub data IsUsed (db : Database) (digest : String) : Type 0 where
  by_recipe : (r : RecipeRow) → Memᴰ r db.artifact_chunk → r.digest ≡ digest → IsUsed db digest
  by_delta :
      (c : ChunkRow) (r : RecipeRow)
      → Memᴰ c db.chunk
      → c.base_digest ≡ some digest
      → Memᴰ r db.artifact_chunk
      → r.digest ≡ c.digest
      → IsUsed db digest

in_recipe-mem :
    (recipes : List RecipeRow) (d : String)
    → in_recipe recipes d ≡ true
    → (r : RecipeRow) × Memᴰ r recipes × (r.digest ≡ d)
unfolding in_recipe
in_recipe-mem recipes d h =
    let (r, m, e) = any-mem (λ (r : RecipeRow). r.digest == d) recipes h in (r, m, ground arith)

mem-in_recipe :
    (recipes : List RecipeRow) (r : RecipeRow) (d : String)
    → Memᴰ r recipes
    → r.digest ≡ d
    → in_recipe recipes d ≡ true
unfolding in_recipe
mem-in_recipe recipes r d m e =
    mem-any (λ (r : RecipeRow). r.digest == d) r recipes m (ground arith)

refers-base :
    (recipes : List RecipeRow) (d : String) (c : ChunkRow)
    → refers recipes d c ≡ true
    → (c.base_digest ≡ some d) × (in_recipe recipes c.digest ≡ true)
refers-base recipes d c h = elim (Option-cases c.base_digest) [
  | inl e ↦ let h' = rw e at h in cc
  | inr (b, e) ↦
      let h' : ((b == d) && in_recipe recipes c.digest) ≡ true = rw e at h in
      let same : b ≡ d = ground arith in (e ∙ ap some same, ground arith)
]

refers_of :
    (recipes : List RecipeRow) (d : String) (c : ChunkRow)
    → c.base_digest ≡ some d
    → in_recipe recipes c.digest ≡ true
    → refers recipes d c ≡ true
refers_of recipes d c e h = rw e (ground arith)

is_based_on-base : (d : String) (c : ChunkRow) → is_based_on d c ≡ true → c.base_digest ≡ some d
is_based_on-base d c h = elim (Option-cases c.base_digest) [
  | inl e ↦ let h' = rw e at h in cc
  | inr (b, e) ↦ let h' : (b == d) ≡ true = rw e at h in e ∙ ap some (ground arith)
]

and-both : (a b : Bool) → (a && b) ≡ true → (a ≡ true) × (b ≡ true)
and-both true b h = (refl, h)
and-both false b h = cc

module _ (db : Database) where
  is_live_iff : (d : String) → (is_live db d ≡ true) ↔ IsUsed db d
  unfolding is_live is_live_base
  is_live_iff d = (
    λ h. elim (Bool-cases (in_recipe db.artifact_chunk d)) [
      | inl e ↦ let (r, m, q) = in_recipe-mem db.artifact_chunk d e in by_recipe r m q
      | inr e ↦
          let (c, m, q) = any-mem (refers db.artifact_chunk d) db.chunk (rw e at h) in
          let (based, used) = refers-base db.artifact_chunk d c q in
          let (r, n, f) = in_recipe-mem db.artifact_chunk c.digest used in by_delta c r m based n f
    ],
    elim [
      | by_recipe r m q ↦ rw (mem-in_recipe db.artifact_chunk r d m q) refl
      | by_delta c r m based n f ↦
          let base : any (refers db.artifact_chunk d) db.chunk ≡ true =
            mem-any (refers db.artifact_chunk d) c db.chunk m (
              refers_of db.artifact_chunk d c based
                (mem-in_recipe db.artifact_chunk r c.digest n f)) in
          ground arith
    ],
  )

  -- What is used stays used once the rest is gone.
  IsUsed-kept_db : (d : String) → IsUsed db d → IsUsed (kept_db db) d
  IsUsed-kept_db d (by_recipe r m q) = by_recipe r m q
  IsUsed-kept_db d (by_delta c r m based n f) =
      by_delta c r
        (filter-mem (λ c. is_live db c.digest) c db.chunk m
          ((is_live_iff c.digest).1 (by_recipe r n f)))
        based n f

  -- Where no base is a delta, the DELETE leaves no row without its base.
  IsUsed-base :
      (c r : ChunkRow)
      → IsFlat db.chunk
      → Memᴰ c db.chunk
      → Memᴰ r db.chunk
      → c.base_digest ≡ some r.digest
      → IsUsed db c.digest
      → IsUsed db r.digest
  IsUsed-base c r flat mc mr based (by_recipe q m e) = by_delta c q mc based m e
  IsUsed-base c r flat mc mr based (by_delta delta q m base n e) =
      let plain : c.base_digest ≡ none = flat delta c m mc base in
      absurd (let no : none ≡ some r.digest = sym plain ∙ based in cc)

loses_base-false :
    (keep : String → Bool) (pool : List ChunkRow)
    → ((c r : ChunkRow)
        → Memᴰ c pool
        → Memᴰ r pool
        → c.base_digest ≡ some r.digest
        → keep c.digest ≡ true
        → keep r.digest ≡ true)
    → loses_base keep pool ≡ false
unfolding loses_base
loses_base-false keep pool h = elim (Bool-cases (loses_base keep pool)) [
  | inr e ↦ e
  | inl e ↦
      let (r, mr, q) = any-mem _ pool e in
      let (goes, based) = and-both (not (keep r.digest)) _ q in
      let (c, mc, q') = any-mem _ pool based in
      let (stays, base) = and-both (keep c.digest) (is_based_on r.digest c) q' in
      let kept = h c r mc mr (is_based_on-base r.digest c base) stays in
      absurd (let no : not true ≡ true = ap not (sym kept) ∙ goes in cc)
]

filter_again {ℓ} :
    {A : Type ℓ} (p q : A → Bool) (xs : List A)
    → ((a : A) → p a ≡ true → q a ≡ true)
    → filter q (filter p xs) ≡ filter p xs
unfolding filter
filter_again p q [] h = refl
filter_again p q (x ∷ xs) h = ground (arith, h x, filter_again p q xs h)

filter-none {ℓ} :
    {A : Type ℓ} (p q : A → Bool) (xs : List A)
    → ((a : A) → p a ≡ true → q a ≡ false)
    → filter q (filter p xs) ≡ []
unfolding filter
filter-none p q [] h = refl
filter-none p q (x ∷ xs) h = ground (arith, h x, filter-none p q xs h)

length-partition {ℓ} :
    {A : Type ℓ} (p : A → Bool) (xs : List A)
    → length (filter (λ a. not (p a)) xs) + length (filter p xs) ≡ length xs
unfolding filter
length-partition p [] = omega arith
length-partition p (x ∷ xs) = ground (arith, length-partition p xs)

still_live : (db : Database) (d : String) → is_live db d ≡ true → is_live (kept_db db) d ≡ true
still_live db d h = (is_live_iff (kept_db db) d).1 (IsUsed-kept_db db d ((is_live_iff db d).0 h))

kept_again : (db : Database) → kept_db (kept_db db) ≡ kept_db db
kept_again db =
    ap₂ (λ chunks features. record db { chunk = chunks; chunk_feature = features })
      (filter_again _ _ db.chunk (λ c live. still_live db c.digest live))
      (filter_again _ _ db.chunk_feature (λ f live. still_live db f.digest live))

compact_chunks-succeeds :
    (db : Database)
    → loses_base (is_live db) db.chunk ≡ false
    → compact_chunks db
      ≡ (ok (length (filter (λ c. not (is_live db c.digest)) db.chunk)), kept_db db)
unfolding compact_chunks
compact_chunks-succeeds db h = rw h refl

compact_chunks_again : (db : Database) → compact_chunks (kept_db db) ≡ (ok 0, kept_db db)
compact_chunks_again db =
    let live : (c : ChunkRow) → Memᴰ c (kept_db db).chunk → is_live (kept_db db) c.digest ≡ true =
      λ c m. still_live db c.digest (mem-filter (λ c. is_live db c.digest) c db.chunk m).1 in
    compact_chunks-succeeds (kept_db db)
      (loses_base-false (is_live (kept_db db)) (kept_db db).chunk (λ c r mc mr based l. live r mr))
    ∙ ap₂ (λ n after. (ok n, after))
        (ap length (
          filter-none _ (λ (c : ChunkRow). not (is_live (kept_db db) c.digest)) db.chunk
            (λ c l. ap not (still_live db c.digest l))))
        (kept_again db)

-- Where no base is itself a delta, a compaction goes through. It leaves exactly the chunks that a recipe
-- uses or that a chunk of a recipe is a delta against; the number it returns and the rows it leaves make
-- up the rows before; and a second compaction removes nothing.
pub compact_chunks_once :
    (db : Database)
    → IsFlat db.chunk
    → (removed : ℕ) × (after : Database) × (compact_chunks db ≡ (ok removed, after))
      × ((c : ChunkRow) → Memᴰ c after.chunk ↔ (Memᴰ c db.chunk × IsUsed db c.digest))
      × (removed + length after.chunk ≡ length db.chunk)
      × (compact_chunks after ≡ (ok 0, after))
compact_chunks_once db flat =
    let keeps : ChunkRow → Bool = λ c. is_live db c.digest in
    (
      length (filter (λ c. not (keeps c)) db.chunk),
      kept_db db,
      compact_chunks-succeeds db (
          loses_base-false (is_live db) db.chunk (λ c r mc mr based l.
            (is_live_iff db r.digest).1
              (IsUsed-base db c r flat mc mr based ((is_live_iff db c.digest).0 l)))),
      λ c. (
        λ m. let (old, l) = mem-filter keeps c db.chunk m in (old, (is_live_iff db c.digest).0 l),
        λ (m, used). filter-mem keeps c db.chunk m ((is_live_iff db c.digest).1 used),
      ),
      length-partition keeps db.chunk,
      compact_chunks_again db,
    )
