-- ===== src/Cdc/Shift.antt =====
-- Chunk boundaries depend on content alone: the same bytes behind a boundary are cut alike,
-- whatever stands before it.
use ancestree.Prelude.{
  ℕ, zero, suc, ◌+◌, ◌-◌, ◌≡◌, refl, ap, ◌∙◌, sym, arith, min, ◌++◌, length, length-append, drop,
  take, drop-append, ltb,
}
use ancestree.Cdc.{Bytes, min_size, avg_size, max_size, slice, late_cut, next_cut, content_cuts}

module _ (gear : ℕ → ℕ) (p q : Bytes) where
  slice_shift :
      (a b a' b' : ℕ) → a' ≡ length p + a → b' ≡ length p + b → slice (p ++ q) a' b' ≡ slice q a b
  slice_shift a b a' b' ea eb =
      let d : drop a' (p ++ q) ≡ drop a q = ap (λ k. drop k (p ++ q)) ea ∙ drop-append p q a in
      let e : b' - a' ≡ b - a = omega arith in
      ap (λ k. take k (drop a' (p ++ q))) e ∙ ap (take (b - a)) d

  late_cut_shift :
      (a b a' b' fp : ℕ)
      → a' ≡ length p + a
      → b' ≡ length p + b
      → late_cut gear (p ++ q) a' b' fp ≡ length p + late_cut gear q a b fp
  unfolding late_cut
  late_cut_shift a b a' b' fp ea eb = ground (arith, slice_shift a b a' b' ea eb)

  next_cut_shift :
      (start n start' n' : ℕ)
      → start' ≡ length p + start
      → n' ≡ length p + n
      → next_cut gear (p ++ q) start' n' ≡ length p + next_cut gear q start n
  unfolding next_cut
  next_cut_shift start n start' n' es en =
      let normal : min (start' + avg_size) n' ≡ length p + min (start + avg_size) n = omega arith in
      let hard : min (start' + max_size) n' ≡ length p + min (start + max_size) n = omega arith in
      let base : start' + min_size ≡ length p + (start + min_size) = omega arith in
      let left : n' - start' ≡ n - start = omega arith in
      let early = slice_shift (start + min_size) (min (start + avg_size) n) _ _ base normal in
      grind (
        arith,
        early,
        left,
        late_cut_shift (min (start + avg_size) n) (min (start + max_size) n)
            (min (start' + avg_size) n') (min (start' + max_size) n'),
      )

  content_cuts_shift :
      (fuel start n start' n' : ℕ)
      → start' ≡ length p + start
      → n' ≡ length p + n
      → content_cuts gear fuel (p ++ q) start' n' ≡ content_cuts gear fuel q start n
  unfolding content_cuts
  content_cuts_shift zero start n start' n' es en = refl
  content_cuts_shift (suc fuel) start n start' n' es en =
      let end' = next_cut_shift start n start' n' es en in
      let e : ltb start' n' ≡ ltb start n = ground arith in
      ground (
        arith,
        slice_shift start (next_cut gear q start n) start' (next_cut gear (p ++ q) start' n') es
            end',
        content_cuts_shift fuel (next_cut gear q start n) n (next_cut gear (p ++ q) start' n') n'
            end' en,
      )

-- If two files end in the same bytes and each has a boundary where these begin, the cuts from
-- there on give the same chunks: an edit moves no boundary behind the next one that it leaves.
pub content_cuts_resync :
    (gear : ℕ → ℕ) (before before' rest : Bytes) (fuel : ℕ)
    → content_cuts gear fuel (before ++ rest) (length before) (length (before ++ rest))
      ≡ content_cuts gear fuel (before' ++ rest) (length before') (length (before' ++ rest))
content_cuts_resync gear before before' rest fuel =
    content_cuts_shift gear before rest fuel 0 (length rest) _ _ (omega arith)
      (length-append before rest)
    ∙ sym (
        content_cuts_shift gear before' rest fuel 0 (length rest) _ _ (omega arith)
          (length-append before' rest))
