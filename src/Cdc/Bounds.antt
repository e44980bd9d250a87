-- ===== src/Cdc/Bounds.antt =====
-- Where `_next_cut` may cut.
use ancestree.Prelude.{ℕ, ◌+◌, ◌-◌, ◌≤◌, ◌<◌, ◌≡◌, ◌⊎◌, arith, min, length, drop, length-take}
use ancestree.Cdc.{
  Bytes, min_size, avg_size, max_size, slice, roll, is_boundary_s, is_boundary_l, late_cut,
  next_cut,
}
use ancestree.Cdc.Scan.{walk_bounds}

pub length-slice-le : (data' : Bytes) (a b : ℕ) → length (slice data' a b) ≤ b - a
length-slice-le data' a b = omega (arith, length-take (b - a) (drop a data'))

module _ (gear : ℕ → ℕ) (data' : Bytes) where
  late_cut_bounds :
      (normal hard fp : ℕ)
      → normal ≤ hard
      → (normal ≤ late_cut gear data' normal hard fp) × (late_cut gear data' normal hard fp ≤ hard)
  unfolding late_cut
  late_cut_bounds normal hard fp h = grind (
    arith,
    walk_bounds (roll gear) is_boundary_l (slice data' normal hard) 0 fp,
    length-slice-le data' normal hard,
  )

  -- From a start before the end, the cut lies behind the start and not behind the end, the chunk
  -- has at most MAX_SIZE bytes, and it has more than MIN_SIZE bytes unless it takes all that is left.
  pub next_cut_bounds :
      (start n : ℕ)
      → start < n
      → (start < next_cut gear data' start n)
        × (next_cut gear data' start n ≤ n)
        × (next_cut gear data' start n ≤ start + max_size)
        × ((next_cut gear data' start n ≡ n) ⊎ (start + min_size < next_cut gear data' start n))
  unfolding next_cut
  next_cut_bounds start n h = grind (
    arith,
    walk_bounds (roll gear) is_boundary_s
        (slice data' (start + min_size) (min (start + avg_size) n)) 0 0,
    length-slice-le data' (start + min_size) (min (start + avg_size) n),
    late_cut_bounds (min (start + avg_size) n) (min (start + max_size) n),
  )
