-- ===== src/Prelude/Text.antt =====
-- Equality of texts as a decision and as a test, and membership in lists of texts.
use Prim.Native.String.{String}
use mathlib.Core.Path.{◌≡◌, refl, sym, ◌∙◌}
use mathlib.Core.List.{List, [], ◌∷◌, ◌++◌, Memᴰ}
use mathlib.Core.List.Memᴰ
use native.Mathlib.Omega.{arith}
use mathlib.Core.Logic.{inl, inr, ite}
use mathlib.Core.Bool.{Bool, true, false, ◌||◌, false≢true}
use text.Mathlib.Text.{◌==◌ as str_eq}
use text.Mathlib.TextEquality.{eq_iff}
use ancestree.Prelude.Tests.{Bool-cases, if◌then◌else◌}

unfoldable pub text_discrete : Discrete String
text_discrete s t = elim (Bool-cases (str_eq s t)) [
  | inl e ↦ yes ((eq_iff s t).0 e)
  | inr e ↦ no (λ p. false≢true (sym e ∙ (eq_iff s t).1 p))
]

infix 50 ◌==◌
abbrev pub ◌==◌ : String → String → Bool
s == t = ite (text_discrete s t) true false

-- `in` on a list or a set of texts.
unfoldable pub contains : List String → String → Bool
contains [] a = false
contains (x ∷ xs) a = let rest = contains xs a in if x == a then true else rest

-- `set.discard`
unfoldable pub discard : List String → String → List String
discard [] a = []
discard (x ∷ xs) a = let rest = discard xs a in if x == a then rest else x ∷ rest

pub contains-append :
    (xs ys : List String) (a : String) → contains (xs ++ ys) a ≡ (contains xs a || contains ys a)
unfolding contains
contains-append [] ys a = refl
contains-append (x ∷ xs) ys a = ground (arith, contains-append xs ys a)

pub contains-discard :
    (xs : List String) (a b : String)
    → contains (discard xs a) b ≡ (if a == b then false else contains xs b)
unfolding contains discard
contains-discard [] a b = ground arith
contains-discard (x ∷ xs) a b = ground (arith, contains-discard xs a b)

pub contains_of_mem : (xs : List String) (a : String) → Memᴰ a xs → contains xs a ≡ true
unfolding contains
contains_of_mem [] a m = absurd (Memᴰ.not-nil m)
contains_of_mem (x ∷ xs) a m = elim (Memᴰ.cases_cons m) [
  | inl here ↦ ground arith
  | inr there ↦ ground (arith, contains_of_mem xs a there)
]

pub mem_of_contains : (xs : List String) (a : String) → contains xs a ≡ true → Memᴰ a xs
unfolding contains
mem_of_contains [] a h = cc
mem_of_contains (x ∷ xs) a h = elim (text_discrete x a) [
  | yes same ↦ Memᴰ.head (sym same)
  | no differ ↦ Memᴰ.tail (mem_of_contains xs a (ground arith))
]
