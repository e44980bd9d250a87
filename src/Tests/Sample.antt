-- ===== src/Tests/Sample.antt =====
-- A concrete outside world that meets the laws, and small stores.
use Prim.Native.String.{String}
use text.Mathlib.TextLemmas.{cons≢nil, head-eq_of_cons-eq, tail-eq_of_cons-eq}
use ancestree.Prelude.{
  ok, ℕ, zero, suc, ◌≡◌, refl, sym, ap, ap₂, [], ◌∷◌, Option, some, none, true, arith, ◌≢◌, any,
  filter,
}
use ancestree.Cdc.{Bytes}
use ancestree.Database.{Database, NodeRow, empty}
use ancestree.External.{External, IsLawful}
use Prim.Native.Char.{code}
use ancestree.ChunkStore.Write.{has_chunk}
use ancestree.ChunkStore.Artifact.{recipe_rows}
use ancestree.ChunkStore.Put.{IsSound}
use ancestree.ChunkStore.File.{IsOwned}

-- A digest that spells its bytes out in strokes.
pub strokes : ℕ → String → String
strokes zero s = String.◌∷◌ "b" s
strokes (suc n) s = String.◌∷◌ "a" (strokes n s)

pub spell : Bytes → String
spell [] = ""
spell (b ∷ bs) = strokes b (spell bs)

strokes-injective : (m n : ℕ) (s t : String) → strokes m s ≡ strokes n t → (m ≡ n) × (s ≡ t)
unfolding strokes
strokes-injective zero zero s t e = (refl, tail-eq_of_cons-eq e)
strokes-injective zero (suc n) s t e =
    let differ : code "b" ≡ code "a" = ap code (head-eq_of_cons-eq e) in absurd (omega arith)
strokes-injective (suc m) zero s t e =
    let differ : code "a" ≡ code "b" = ap code (head-eq_of_cons-eq e) in absurd (omega arith)
strokes-injective (suc m) (suc n) s t e =
    let (p, q) = strokes-injective m n s t (tail-eq_of_cons-eq e) in (ap suc p, q)

strokes-ne-nil : (m : ℕ) (s : String) → strokes m s ≢ ""
unfolding strokes
strokes-ne-nil zero s e = cons≢nil e
strokes-ne-nil (suc m) s e = cons≢nil e

spell-injective : (a b : Bytes) → spell a ≡ spell b → a ≡ b
unfolding spell
spell-injective [] [] e = refl
spell-injective [] (y ∷ b) e = absurd (strokes-ne-nil y (spell b) (sym e))
spell-injective (x ∷ a) [] e = absurd (strokes-ne-nil x (spell a) e)
spell-injective (x ∷ a) (y ∷ b) e =
    let (p, q) = strokes-injective x y (spell a) (spell b) e in ap₂ ◌∷◌ p (spell-injective a b q)

pub unpack : Bytes → Option Bytes
unpack [] = none
unpack (b ∷ bs) = some bs

-- The digest spells the bytes out, and compression puts a byte before them.
abbrev pub world : External
world = record {
  sha256 = spell;
  compress = λ d. 0 ∷ d;
  decompress = unpack;
  zdict_compress = λ z d. d;
  zdict_decompress = λ z d. some d;
  gear = λ b. b;
  little_endian = true;
  time = λ db. 0;
  checkpoint = λ db. ok tt;
}

pub world-IsLawful : IsLawful world
unfolding unpack
world-IsLawful = record {
  inflate = λ d. refl;
  inflate_zdict = λ z d. refl;
  no_collision = spell-injective;
}

abbrev pub node_row : String → NodeRow
node_row id = record {
  node_id = id;
  step_type = "clean";
  generation = 0;
  created_utc = "2026-01-01T00:00:00+00:00";
  created_epoch = 0;
  healthy = true;
  duration = none;
  size_bytes = 0;
  content_hash = none;
  prov_user = none;
  prov_python = none;
  prov_platform = none;
  prov_git_commit = none;
  prov_git_branch = none;
  prov_git_dirty = none;
}

-- One node and nothing stored.
abbrev pub one_node : Database
one_node = record empty { node = node_row "n" ∷ [] }

pub one_node-IsSound : IsSound world one_node
unfolding has_chunk any
one_node-IsSound = record { keyed = tt; readable = λ d h. cc }

pub one_node-IsOwned : IsOwned one_node
unfolding recipe_rows filter
one_node-IsOwned = record { orphan = λ n p h. refl }
