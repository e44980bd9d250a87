-- ===== src/Cdc.antt =====
-- src/ancestree/ingest/cdc.py, sections 1 and 3: the content-defined chunker and the delta codec.
-- The Gear table is drawn from Python's `random`, so it is a parameter; a bit mask 2^k - 1 is
-- written `% 2 ^ k`. A generator of chunks is the list of what it yields.
pub mod Scan
pub mod Bounds
pub mod Pieces
pub mod Shift
use ancestree.Prelude.{
  ℕ, zero, suc, ◌+◌, ◌-◌, ◌*◌, ◌%◌, ◌^◌, min, List, [], ◌∷◌, length, take, drop, leb, ltb, ◌=?◌,
  if◌then◌else◌, Bool,
}

abbrev pub Bytes : Type 0
Bytes = List ℕ

abbrev pub min_size : ℕ
min_size = 8 * 1024

abbrev pub avg_size : ℕ
avg_size = 16 * 1024

abbrev pub max_size : ℕ
max_size = 256 * 1024

-- `(AVG_SIZE).bit_length() - 1`
abbrev pub bits : ℕ
bits = 14

abbrev pub mask_s : ℕ → ℕ
mask_s x = x % 2 ^ (bits + 2)

abbrev pub mask_l : ℕ → ℕ
mask_l x = x % 2 ^ (bits - 2)

abbrev pub large_file_threshold : ℕ
large_file_threshold = 64 * 1024 * 1024

-- `data[a:b]`
abbrev pub slice : Bytes → ℕ → ℕ → Bytes
slice data' a b = take (b - a) (drop a data')

-- How a loop over a slice ends: at a cut, with the bytes walked, or with the last fingerprint.
pub data Walk : Type 0 where
  cut : ℕ → Walk
  through : ℕ → Walk

-- `for offset, byte in enumerate(...)`: `next` updates the fingerprint, `stop` is the test.
unfoldable pub walk : (ℕ → ℕ → ℕ) → (ℕ → Bool) → List ℕ → ℕ → ℕ → Walk
walk next stop [] offset fingerprint = through fingerprint
walk next stop (byte ∷ bytes) offset fingerprint =
    let fp = next fingerprint byte in
    let rest = walk next stop bytes (offset + 1) fp in if stop fp then cut (offset + 1) else rest

-- `range(0, len(data), MAX_SIZE)`, on fuel.
unfoldable pub fixed_cuts : ℕ → Bytes → ℕ → List Bytes
fixed_cuts zero data' start = []
fixed_cuts (suc fuel) data' start =
    let rest = fixed_cuts fuel data' (start + max_size) in
    if ltb start (length data') then slice data' start (start + max_size) ∷ rest else []

abbrev pub is_boundary_s : ℕ → Bool
is_boundary_s fingerprint = fingerprint =? 0

abbrev pub is_boundary_l : ℕ → Bool
is_boundary_l fingerprint = mask_l fingerprint =? 0

module _ (gear : ℕ → ℕ) where
  -- `_GEAR_NARROW`
  abbrev pub gear_narrow : ℕ → ℕ
  gear_narrow byte = mask_s (gear byte)

  -- `((fingerprint << 1) + gear[byte]) & mask_s`
  abbrev pub roll : ℕ → ℕ → ℕ
  roll fingerprint byte = mask_s (fingerprint * 2 + gear_narrow byte)

  -- The second loop, from `normal` on, and the cut at `hard` behind it.
  unfoldable pub late_cut : Bytes → ℕ → ℕ → ℕ → ℕ
  late_cut data' normal hard fingerprint =
      elim (walk roll is_boundary_l (slice data' normal hard) 0 fingerprint) [
        | cut offset ↦ normal + offset
        | through _ ↦ hard
      ]

  unfoldable pub next_cut : Bytes → ℕ → ℕ → ℕ
  next_cut data' start n =
      let normal = min (start + avg_size) n in
      let hard = min (start + max_size) n in
      let base = start + min_size in
      if leb (n - start) min_size
      then n
      else elim (walk roll is_boundary_s (slice data' base normal) 0 0) [
        | cut offset ↦ base + offset
        | through fingerprint ↦ late_cut data' normal hard fingerprint
      ]

  -- `while start < n`, on fuel.
  unfoldable pub content_cuts : ℕ → Bytes → ℕ → ℕ → List Bytes
  content_cuts zero data' start n = []
  content_cuts (suc fuel) data' start n =
      let end = next_cut data' start n in
      let rest = content_cuts fuel data' end n in
      if ltb start n then slice data' start end ∷ rest else []

  -- Every round of either loop takes at least one byte, so the length of the data is enough fuel.
  unfoldable pub chunk_bytes : Bytes → ℕ → List Bytes
  chunk_bytes data' threshold =
      if leb threshold (length data')
      then fixed_cuts (length data') data' 0
      else content_cuts (length data') data' 0 (length data')
