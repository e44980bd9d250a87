-- ===== src/Cdc/Scan.antt =====
-- The boundary tests of `_next_cut` against the 64-bit Gear hash that they narrow.
use ancestree.Prelude.{
  ℕ, ◌+◌, ◌*◌, ◌%◌, ◌^◌, ◌≤◌, ◌<◌, ◌≡◌, refl, List, [], ◌∷◌, length, arith, Bool, ◌=?◌, ◌-◌, min,
  leb, if◌then◌else◌,
}
use ancestree.Cdc.{
  Bytes, min_size, avg_size, max_size, slice, next_cut, late_cut, Walk, cut, through, walk, mask_s,
  mask_l, roll, is_boundary_s, is_boundary_l,
}

-- A cut lies behind at least one byte and within the bytes walked.
pub walk_bounds :
    (next : ℕ → ℕ → ℕ) (stop : ℕ → Bool) (bytes : List ℕ) (offset fp k : ℕ)
    → walk next stop bytes offset fp ≡ cut k
    → (offset < k) × (k ≤ offset + length bytes)
unfolding walk
walk_bounds next stop [] offset fp k h = cc
walk_bounds next stop (b ∷ bytes) offset fp k h =
    ground (arith, walk_bounds next stop bytes (offset + 1) (next fp b) k)

-- The rolling hash of FastCDC on 64 bits, with the masks put on only to test.
abbrev pub roll_wide : (ℕ → ℕ) → ℕ → ℕ → ℕ
roll_wide gear fp byte = (fp * 2 + gear byte) % 2 ^ 64

abbrev pub wide_s : ℕ → Bool
wide_s fp = mask_s fp =? 0

abbrev pub wide_l : ℕ → Bool
wide_l fp = mask_l fp =? 0

narrow_step :
    (gear : ℕ → ℕ) (fp byte : ℕ) → roll gear (mask_s fp) byte ≡ mask_s (roll_wide gear fp byte)
narrow_step gear fp byte = omega arith

narrow_l : (fp : ℕ) → mask_l (mask_s fp) ≡ mask_l fp
narrow_l fp = omega arith

-- Where the wide walk ends, as the narrow walk shows it.
abbrev pub narrowed : Walk → Walk
narrowed (cut k) = cut k
narrowed (through fp) = through (mask_s fp)

pub walk-narrow_s :
    (gear : ℕ → ℕ) (bytes : List ℕ) (offset fp : ℕ)
    → walk (roll gear) is_boundary_s bytes offset (mask_s fp)
      ≡ narrowed (walk (roll_wide gear) wide_s bytes offset fp)
unfolding walk
walk-narrow_s gear [] offset fp = refl
walk-narrow_s gear (b ∷ bytes) offset fp =
    ground
      (arith, narrow_step gear fp b, walk-narrow_s gear bytes (offset + 1) (roll_wide gear fp b))

pub walk-narrow_l :
    (gear : ℕ → ℕ) (bytes : List ℕ) (offset fp : ℕ)
    → walk (roll gear) is_boundary_l bytes offset (mask_s fp)
      ≡ narrowed (walk (roll_wide gear) wide_l bytes offset fp)
unfolding walk
walk-narrow_l gear [] offset fp = refl
walk-narrow_l gear (b ∷ bytes) offset fp = ground (
  arith,
  narrow_step gear fp b,
  narrow_l (roll_wide gear fp b),
  walk-narrow_l gear bytes (offset + 1) (roll_wide gear fp b),
)

-- FastCDC's cut point computed on the full 64-bit fingerprint.
module _ (gear : ℕ → ℕ) (data' : Bytes) where
  late_cut_wide : ℕ → ℕ → ℕ → ℕ
  late_cut_wide normal hard fp =
      elim (walk (roll_wide gear) wide_l (slice data' normal hard) 0 fp) [
        | cut offset ↦ normal + offset
        | through _ ↦ hard
      ]

  pub next_cut_wide : ℕ → ℕ → ℕ
  next_cut_wide start n =
      let normal = min (start + avg_size) n in
      let hard = min (start + max_size) n in
      let base = start + min_size in
      if leb (n - start) min_size
      then n
      else elim (walk (roll_wide gear) wide_s (slice data' base normal) 0 0) [
        | cut offset ↦ base + offset
        | through fp ↦ late_cut_wide normal hard fp
      ]

  late_cut-narrow :
      (normal hard fp : ℕ)
      → late_cut gear data' normal hard (mask_s fp) ≡ late_cut_wide normal hard fp
  unfolding late_cut late_cut_wide
  late_cut-narrow normal hard fp = ground (arith, walk-narrow_l gear (slice data' normal hard) 0 fp)

  -- Keeping only the sixteen bits that the masks read moves no boundary: the cut computed on the
  -- narrowed Gear table is the cut of the 64-bit hash, for every table, data and range.
  pub next_cut-narrow : (start n : ℕ) → next_cut gear data' start n ≡ next_cut_wide start n
  unfolding next_cut next_cut_wide
  next_cut-narrow start n = grind (
    arith,
    walk-narrow_s gear (slice data' (start + min_size) (min (start + avg_size) n)) 0 0,
    late_cut-narrow (min (start + avg_size) n) (min (start + max_size) n),
  )
