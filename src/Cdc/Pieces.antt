-- ===== src/Cdc/Pieces.antt =====
-- The chunks of `chunk_bytes`: together they are the data, and each has an admissible size.
use mathlib.Core.List.{flatten}
use native.Mathlib.Decide.{dec_lt}
use ancestree.Prelude.{
  ℕ, zero, suc, ◌+◌, ◌-◌, ◌≤◌, ◌<◌, ◌≡◌, refl, sym, ap, ◌∙◌, ◌≢◌, ⊎_elim, lt→ltb, le→ltb, arith,
  List, [], ◌∷◌, ◌++◌, length, drop, min, leb, inl, inr, Bool-cases, length-take, length-drop,
  take-append-drop, drop-drop, drop_of_length-le,
}
use ancestree.Cdc.{
  Bytes, min_size, max_size, slice, next_cut, content_cuts, fixed_cuts, chunk_bytes,
}
use ancestree.Cdc.Bounds.{next_cut_bounds}

slice-append-drop :
    (data' : Bytes) (a b : ℕ) → a ≤ b → slice data' a b ++ drop b data' ≡ drop a data'
slice-append-drop data' a b h =
    let e : a + (b - a) ≡ b = omega arith in
    ap (λ d. slice data' a b ++ d) (sym (drop-drop (b - a) a data' ∙ ap (λ k. drop k data') e))
    ∙ take-append-drop (b - a) (drop a data')

length-slice :
    (data' : Bytes) (a b : ℕ) → a ≤ b → b ≤ length data' → length (slice data' a b) ≡ b - a
length-slice data' a b h k = omega (arith, length-take (b - a) (drop a data'), length-drop a data')

-- Every chunk but the last has more than `least` bytes, and all have from one to `max_size`.
abbrev pub HasSizes : ℕ → List Bytes → Type 0
HasSizes least [] = Unit
HasSizes least (c ∷ []) = (0 < length c) × (length c ≤ max_size)
HasSizes least (c ∷ d ∷ cs) = (least < length c) × (length c ≤ max_size) × HasSizes least (d ∷ cs)

HasSizes-cons :
    (least : ℕ) (c : Bytes) (cs : List Bytes)
    → 0 < length c
    → length c ≤ max_size
    → (cs ≢ [] → least < length c)
    → HasSizes least cs
    → HasSizes least (c ∷ cs)
HasSizes-cons least c [] pos top low h = (pos, top)
HasSizes-cons least c (d ∷ cs) pos top low h = (low (λ e. cc), top, h)

module _ (gear : ℕ → ℕ) (data' : Bytes) where
  content_cuts-flatten :
      (fuel start : ℕ)
      → length data' - start ≤ fuel
      → flatten (content_cuts gear fuel data' start (length data')) ≡ drop start data'
  unfolding content_cuts flatten
  content_cuts-flatten zero start h = sym (drop_of_length-le start data' (omega arith))
  content_cuts-flatten (suc fuel) start h = elim (dec_lt start (length data')) [
    | yes p ↦
        let b = next_cut_bounds gear data' start (length data') p in
        rw (lt→ltb _ _ p) (
          ap (λ d. slice data' start (next_cut gear data' start (length data')) ++ d)
            (content_cuts-flatten fuel (next_cut gear data' start (length data')) (omega arith))
          ∙ slice-append-drop data' start (next_cut gear data' start (length data')) (omega arith))
    | no p ↦
        rw (le→ltb start (length data') (omega arith))
          (sym (drop_of_length-le start data' (omega arith)))
  ]

  content_cuts_done :
      (fuel start : ℕ)
      → length data' ≤ start
      → content_cuts gear fuel data' start (length data') ≡ []
  unfolding content_cuts
  content_cuts_done zero start h = refl
  content_cuts_done (suc fuel) start h = rw (le→ltb start (length data') h)

  content_cuts-HasSizes :
      (fuel start : ℕ) → HasSizes min_size (content_cuts gear fuel data' start (length data'))
  unfolding content_cuts
  content_cuts-HasSizes zero start = tt
  content_cuts-HasSizes (suc fuel) start = elim (dec_lt start (length data')) [
    | yes p ↦
        let end = next_cut gear data' start (length data') in
        let b = next_cut_bounds gear data' start (length data') p in
        let l = length-slice data' start end (omega arith) (omega arith) in
        rw (lt→ltb _ _ p) (
          HasSizes-cons min_size (slice data' start end) _ (omega arith) (omega arith)
            (λ more.
              ⊎_elim (λ e. absurd (more (content_cuts_done fuel end (omega arith))))
                (λ low. omega arith) b.3)
            (content_cuts-HasSizes fuel end))
    | no p ↦ rw (le→ltb start (length data') (omega arith)) tt
  ]

-- A slice whose end may lie behind the data.
module _ (data' : Bytes) where
  length-slice_past : (a b : ℕ) → length (slice data' a b) ≡ min (b - a) (length data' - a)
  length-slice_past a b = omega (arith, length-take (b - a) (drop a data'), length-drop a data')

  fixed_cuts-flatten :
      (fuel start : ℕ)
      → length data' - start ≤ fuel
      → flatten (fixed_cuts fuel data' start) ≡ drop start data'
  unfolding fixed_cuts flatten
  fixed_cuts-flatten zero start h = sym (drop_of_length-le start data' (omega arith))
  fixed_cuts-flatten (suc fuel) start h = elim (dec_lt start (length data')) [
    | yes p ↦ rw (lt→ltb _ _ p) (
        ap (λ d. slice data' start (start + max_size) ++ d)
          (fixed_cuts-flatten fuel (start + max_size) (omega arith))
        ∙ slice-append-drop data' start (start + max_size) (omega arith))
    | no p ↦
        rw (le→ltb start (length data') (omega arith))
          (sym (drop_of_length-le start data' (omega arith)))
  ]

  fixed_cuts_done : (fuel start : ℕ) → length data' ≤ start → fixed_cuts fuel data' start ≡ []
  unfolding fixed_cuts
  fixed_cuts_done zero start h = refl
  fixed_cuts_done (suc fuel) start h = rw (le→ltb start (length data') h)

  fixed_cuts-HasSizes : (fuel start : ℕ) → HasSizes min_size (fixed_cuts fuel data' start)
  unfolding fixed_cuts
  fixed_cuts-HasSizes zero start = tt
  fixed_cuts-HasSizes (suc fuel) start = elim (dec_lt start (length data')) [
    | yes p ↦
        let l = length-slice_past start (start + max_size) in
        rw (lt→ltb _ _ p) (
          HasSizes-cons min_size (slice data' start (start + max_size)) _ (omega arith)
            (omega arith)
            (λ more. elim (dec_lt (start + max_size) (length data')) [
              | yes q ↦ omega arith
              | no q ↦ absurd (more (fixed_cuts_done fuel (start + max_size) (omega arith)))
            ])
            (fixed_cuts-HasSizes fuel (start + max_size)))
    | no p ↦ rw (le→ltb start (length data') (omega arith)) tt
  ]

-- In both modes, whatever the Gear table and the threshold, the chunks put together in order are
-- the data.
pub chunk_bytes-flatten :
    (gear : ℕ → ℕ) (data' : Bytes) (threshold : ℕ)
    → flatten (chunk_bytes gear data' threshold) ≡ data'
unfolding chunk_bytes drop
chunk_bytes-flatten gear data' threshold = elim (Bool-cases (leb threshold (length data'))) [
  | inl large ↦ rw large (fixed_cuts-flatten data' (length data') 0 (omega arith))
  | inr small ↦ rw small (content_cuts-flatten gear data' (length data') 0 (omega arith))
]

-- In both modes no chunk is empty or has more than MAX_SIZE bytes, and every chunk but the last
-- has more than MIN_SIZE bytes.
pub chunk_bytes-HasSizes :
    (gear : ℕ → ℕ) (data' : Bytes) (threshold : ℕ)
    → HasSizes min_size (chunk_bytes gear data' threshold)
unfolding chunk_bytes
chunk_bytes-HasSizes gear data' threshold = elim (Bool-cases (leb threshold (length data'))) [
  | inl large ↦ rw large (fixed_cuts-HasSizes data' (length data') 0)
  | inr small ↦ rw small (content_cuts-HasSizes gear data' (length data') 0)
]
