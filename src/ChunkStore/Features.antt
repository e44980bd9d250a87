-- ===== src/ChunkStore/Features.antt =====
-- Sections 2 and 3 of src/ancestree/ingest/cdc.py: similarity features and the delta codec.
use ancestree.Prelude.{
  ℕ, zero, suc, ◌+◌, ◌-◌, ◌*◌, ◌%◌, ◌/◌, ◌^◌, min, Bool, Option, List, [], ◌∷◌, map, length, take,
  drop, leb, ltb, if◌then◌else◌,
}
use ancestree.Cdc.{Bytes, slice}
use ancestree.External.{External}

abbrev pub sample_stride : ℕ
sample_stride = 64

abbrev pub sample_width : ℕ
sample_width = 8

abbrev pub feature_multipliers : List ℕ
feature_multipliers =
    0x9E3779B97F4A7C15 ∷ 0xBF58476D1CE4E5B9 ∷ 0x94D049BB133111EB ∷ 0xD6E8FEB86659FD93 ∷ []

-- `int.from_bytes(..., "little")`
unfoldable pub from_bytes : Bytes → ℕ
from_bytes [] = 0
from_bytes (b ∷ bs) = b + 256 * from_bytes bs

-- The big-endian fallback of `_samples`: `range(0, len - width + 1, stride)`, on fuel.
unfoldable pub sample_loop : ℕ → Bytes → ℕ → List ℕ
sample_loop zero data' i = []
sample_loop (suc fuel) data' i =
    let rest = sample_loop fuel data' (i + sample_stride) in
    if leb (i + sample_width) (length data')
    then from_bytes (slice data' i (i + sample_width)) ∷ rest
    else []

-- `memoryview(...).cast("Q")` on a little-endian machine: the whole 8-byte words.
unfoldable pub cast_words : ℕ → Bytes → List ℕ
cast_words zero data' = []
cast_words (suc words) data' =
    from_bytes (take sample_width data') ∷ cast_words words (drop sample_width data')

-- `words[::step + 1]`: takes one word and skips `step`; `skip` words are still to be skipped.
unfoldable pub every : ℕ → ℕ → List ℕ → List ℕ
every step skip [] = []
every step zero (w ∷ ws) = w ∷ every step step ws
every step (suc skip) (w ∷ ws) = every step skip ws

-- The little-endian branch of `_samples`.
unfoldable pub samples_cast : Bytes → List ℕ
samples_cast data' =
    every (sample_stride / sample_width - 1) 0 (cast_words (length data' / sample_width) data')

unfoldable pub samples : Bool → Bytes → List ℕ
samples little_endian data' =
    if little_endian then samples_cast data' else sample_loop (length data') data' 0

-- `min([...])` of a list that is not empty.
unfoldable pub minimum : ℕ → List ℕ → ℕ
minimum least [] = least
minimum least (n ∷ ns) = minimum (min least n) ns

unfoldable pub min_hash : List ℕ → ℕ → ℕ
min_hash [] multiplier = 0
min_hash (s ∷ ss) multiplier =
    minimum (s * multiplier % 2 ^ 64) (map (λ sample. sample * multiplier % 2 ^ 64) ss) % 2 ^ 63

-- `super_features` at its default count, all four multipliers.
unfoldable pub super_features : Bool → Bytes → List ℕ
super_features little_endian data' =
    if ltb (length data') sample_width
    then []
    else map (min_hash (samples little_endian data')) feature_multipliers

abbrev pub zdict_max : ℕ
zdict_max = 32 * 1024 - 512

module _ (x : External) where
  unfoldable pub delta_encode : Bytes → Bytes → Bytes
  delta_encode base target = x.zdict_compress (take zdict_max base) target

  -- `none` where zlib raises.
  unfoldable pub delta_decode : Bytes → Bytes → Option Bytes
  delta_decode base blob = x.zdict_decompress (take zdict_max base) blob
