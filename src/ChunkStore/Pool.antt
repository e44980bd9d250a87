-- ===== src/ChunkStore/Pool.antt =====
-- The chunk table as it grows: what is readable stays readable, with the same bytes.
use mathlib.Core.List.{Memᴰ}
use mathlib.Core.List.Memᴰ
use ancestree.Prelude.{
  String, ◌==◌, ◌=?◌, ◌≡◌, refl, ◌∙◌, inl, inr, ◌||◌, true, false, Option, none, some, List, [],
  ◌∷◌, ◌++◌, find?, any, find?-append_hit, find?-append_miss, find?-true, any-false_of_find?,
  any-true-find?, any-append, arith, Bool-cases, Option-cases, Result, ok, >>=-eq-ok,
}
use ancestree.Cdc.{Bytes}
use ancestree.Database.{ChunkRow}
use ancestree.External.{External}
use ancestree.ChunkStore.Read.{
  chunk_row, decode_row, decode_base, decode_against, decode_delta, decode_chunk, get_chunk,
  kind_delta,
}
use ancestree.ChunkStore.Write.{has_chunk}

-- The primary key: no two rows have one digest.
abbrev pub IsKeyed : List ChunkRow → Type 0
IsKeyed [] = Unit
IsKeyed (c ∷ cs) = (has_chunk cs c.digest ≡ false) × IsKeyed cs

pub chunk_row-digest :
    (pool : List ChunkRow) (d : String) (r : ChunkRow) → chunk_row pool d ≡ some r → r.digest ≡ d
unfolding chunk_row
chunk_row-digest pool d r h = ground (arith, find?-true (λ c. c.digest == d) pool r)

pub chunk_row-append_hit :
    (pool more : List ChunkRow) (d : String) (r : ChunkRow)
    → chunk_row pool d ≡ some r
    → chunk_row (pool ++ more) d ≡ some r
unfolding chunk_row
chunk_row-append_hit pool more d r h = find?-append_hit (λ c. c.digest == d) pool more r h

pub chunk_row_new :
    (pool : List ChunkRow) (row : ChunkRow)
    → has_chunk pool row.digest ≡ false
    → chunk_row (pool ++ row ∷ []) row.digest ≡ some row
unfolding chunk_row has_chunk find?
chunk_row_new pool row h =
    find?-append_miss (λ c. c.digest == row.digest) pool (row ∷ [])
      (any-false_of_find? (λ c. c.digest == row.digest) pool h)
    ∙ ground arith

pub chunk_row_present :
    (pool : List ChunkRow) (d : String)
    → has_chunk pool d ≡ true
    → (r : ChunkRow) × (chunk_row pool d ≡ some r)
unfolding chunk_row has_chunk
chunk_row_present pool d h = any-true-find? (λ c. c.digest == d) pool h

pub has_chunk_of_row :
    (pool : List ChunkRow) (d : String) (r : ChunkRow)
    → chunk_row pool d ≡ some r
    → has_chunk pool d ≡ true
unfolding chunk_row has_chunk
has_chunk_of_row pool d r h = elim (Bool-cases (any (λ c. c.digest == d) pool)) [
  | inl e ↦ e
  | inr e ↦ cc (h, any-false_of_find? (λ c. c.digest == d) pool e)
]

pub has_chunk-append :
    (pool : List ChunkRow) (row : ChunkRow) (d : String)
    → has_chunk (pool ++ row ∷ []) d ≡ (has_chunk pool d || (row.digest == d))
unfolding has_chunk any
has_chunk-append pool row d = any-append (λ c. c.digest == d) pool (row ∷ []) ∙ ground arith

pub IsKeyed-append :
    (pool : List ChunkRow) (row : ChunkRow)
    → IsKeyed pool
    → has_chunk pool row.digest ≡ false
    → IsKeyed (pool ++ row ∷ [])
unfolding has_chunk any
IsKeyed-append [] row k h = (refl, tt)
IsKeyed-append (c ∷ cs) row k h = (
  ground (arith, has_chunk-append cs row c.digest, k.0),
  IsKeyed-append cs row k.1 (ground arith),
)

-- The key leads back to a row that is in the table.
pub chunk_row_of_mem :
    (pool : List ChunkRow) (c : ChunkRow)
    → IsKeyed pool
    → Memᴰ c pool
    → chunk_row pool c.digest ≡ some c
unfolding chunk_row has_chunk any find?
chunk_row_of_mem [] c k m = absurd (Memᴰ.not-nil m)
chunk_row_of_mem (b ∷ pool) c k m = elim (Memᴰ.cases_cons m) [
  | inl here ↦ ground arith
  | inr there ↦
      let ih = chunk_row_of_mem pool c k.1 there in
      let known = has_chunk_of_row pool c.digest c ih in ground arith
]

module _ (x : External) (pool : List ChunkRow) where
  -- A decoded row says what the delta branch gave, if it was taken.
  decode_row_mono :
      (row : ChunkRow) (delta delta' : Result Bytes) (b : Bytes)
      → ((c : Bytes) → delta ≡ ok c → delta' ≡ ok c)
      → decode_row x row delta ≡ ok b
      → decode_row x row delta' ≡ ok b
  unfolding decode_row
  decode_row_mono row delta delta' b keep h = ground (arith, keep b)

  module _ (more : List ChunkRow) where
    pub decode_base-append :
        (d : String) (b : Bytes)
        → decode_base x pool d ≡ ok b
        → decode_base x (pool ++ more) d ≡ ok b
    unfolding decode_base
    decode_base-append d b h = elim (Option-cases (chunk_row pool d)) [
      | inl e ↦ cc (rw (e, decode_base) at h)
      | inr (r, e) ↦ ground (arith, chunk_row-append_hit pool more d r)
    ]

    pub decode_against-append :
        (base : Option String) (blob b : Bytes)
        → decode_against x pool base blob ≡ ok b
        → decode_against x (pool ++ more) base blob ≡ ok b
    unfolding decode_against
    decode_against-append none blob b h = h
    decode_against-append (some d) blob b h =
        let (base, e, rest) = >>=-eq-ok (decode_base x pool d) _ h in
        rw (decode_base-append d base e) rest

    decode_chunk-append :
        (d : String) (b : Bytes)
        → decode_chunk x pool d ≡ ok b
        → decode_chunk x (pool ++ more) d ≡ ok b
    unfolding decode_chunk
    decode_chunk-append d b h = elim (Option-cases (chunk_row pool d)) [
      | inl e ↦ cc (rw (e, decode_chunk) at h)
      | inr (r, e) ↦
          let old = decode_delta x pool r in
          let new = decode_delta x (pool ++ more) r in
          rw (chunk_row-append_hit pool more d r e, decode_chunk)
            (decode_row_mono r old new b (λ c. decode_against-append r.base_digest r.blob c)
              (rw (e, decode_chunk) at h))
    ]

    -- What could be read still gives the same bytes after rows were added.
    pub get_chunk-append :
        (d : String) (b : Bytes) → get_chunk x pool d ≡ ok b → get_chunk x (pool ++ more) d ≡ ok b
    unfolding get_chunk
    get_chunk-append d b h =
        let (c, e, rest) = >>=-eq-ok (decode_chunk x pool d) _ h in
        rw (decode_chunk-append d c e) rest

  -- A read that succeeds has the digest it was asked for.
  pub get_chunk-sha256 : (d : String) (b : Bytes) → get_chunk x pool d ≡ ok b → x.sha256 b ≡ d
  unfolding get_chunk
  get_chunk-sha256 d b h = let (c, e, rest) = >>=-eq-ok (decode_chunk x pool d) _ h in ground arith

  -- The row of a new chunk is read back by its own encoding.
  pub get_chunk_new :
      (row : ChunkRow) (b : Bytes)
      → has_chunk pool row.digest ≡ false
      → decode_row x row (decode_delta x (pool ++ row ∷ []) row) ≡ ok b
      → x.sha256 b ≡ row.digest
      → get_chunk x (pool ++ row ∷ []) row.digest ≡ ok b
  unfolding get_chunk decode_chunk
  get_chunk_new row b fresh decoded same =
      rw (chunk_row_new pool row fresh, decode_chunk) (rw decoded (ground arith))

  -- The base of a delta is read without the delta branch: a chunk that is no delta reads alike.
  pub decode_base_of_get_chunk :
      (r : ChunkRow) (b : Bytes)
      → chunk_row pool r.digest ≡ some r
      → (r.kind =? kind_delta) ≡ false
      → get_chunk x pool r.digest ≡ ok b
      → decode_base x pool r.digest ≡ ok b
  unfolding get_chunk decode_chunk decode_base decode_row
  decode_base_of_get_chunk r b found kind h = ground arith

  pub has_chunk_of_get_chunk :
      (d : String) (b : Bytes) → get_chunk x pool d ≡ ok b → has_chunk pool d ≡ true
  unfolding get_chunk decode_chunk
  has_chunk_of_get_chunk d b h = elim (Option-cases (chunk_row pool d)) [
    | inl e ↦ cc (rw (e, decode_chunk) at h)
    | inr (r, e) ↦ has_chunk_of_row pool d r e
  ]
