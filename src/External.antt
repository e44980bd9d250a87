-- ===== src/External.antt =====
-- What the code calls and does not implement: hashlib, zlib, the random Gear table, the clock and the
-- checkpoint of SQLite.
use ancestree.Prelude.{ℕ, String, ◌≡◌, Option, some, Bool, Result}
use ancestree.Cdc.{Bytes}
use ancestree.Database.{Database}

-- `time db` is what `time.time()` reads when the store stands at `db`, and `checkpoint db` what
-- `PRAGMA wal_checkpoint(TRUNCATE)` does there: it returns or raises, and changes no table.
pub record External : Type 0 where
  pub sha256 : Bytes → String
  pub compress : Bytes → Bytes
  pub decompress : Bytes → Option Bytes
  pub zdict_compress : Bytes → Bytes → Bytes
  pub zdict_decompress : Bytes → Bytes → Option Bytes
  pub gear : ℕ → ℕ
  pub little_endian : Bool
  pub time : Database → ℕ
  pub checkpoint : Database → Result (Unit {0})

-- zlib inflates what it deflated, with the same preset dictionary where one was used; and, as the
-- store relies on it throughout, SHA-256 is taken to have no collision.
pub record IsLawful (x : External) : Type 0 where
  pub inflate : (d : Bytes) → x.decompress (x.compress d) ≡ some d
  pub inflate_zdict : (z d : Bytes) → x.zdict_decompress z (x.zdict_compress z d) ≡ some d
  pub no_collision : (a b : Bytes) → x.sha256 a ≡ x.sha256 b → a ≡ b
