-- ===== src/Prelude/Sets.antt =====
-- Lists of texts as sets: what `filter` and `reverse` contain, and lists that hold no text twice.
use Prim.Native.String.{String}
use mathlib.Core.Path.{◌≡◌, refl, ap, sym, subst, ◌∙◌}
use mathlib.Core.Bool.{Bool, false, ◌&&◌}
use mathlib.Core.List.{List, [], ◌∷◌, ◌++◌, map, reverse, reverse-cons}
use native.Mathlib.Omega.{arith}
use ancestree.Prelude.Tests.{Bool-cases}
use ancestree.Prelude.Lists.{filter, any, length, length-append}
use ancestree.Prelude.Text.{text_discrete, ◌==◌, contains, contains-append}
use mathlib.Core.Logic.{inl, inr}

pub contains-reverse : (xs : List String) (a : String) → contains (reverse xs) a ≡ contains xs a
unfolding contains
contains-reverse [] a = refl
contains-reverse (x ∷ xs) a =
    ap (λ l. contains l a) (reverse-cons x xs)
    ∙ ground (arith, contains-append (reverse xs) (x ∷ []) a, contains-reverse xs a)

pub contains-filter :
    (f : String → Bool) (xs : List String) (a : String)
    → contains (filter f xs) a ≡ (contains xs a && f a)
unfolding contains filter
contains-filter f [] a = refl
contains-filter f (x ∷ xs) a = elim (text_discrete x a) [
  | yes e ↦ let same : f x ≡ f a = ap f e in ground (arith, contains-filter f xs a)
  | no e ↦ ground (arith, contains-filter f xs a)
]

-- No text twice.
abbrev pub IsDistinct : List String → Type 0
IsDistinct [] = Unit
IsDistinct (x ∷ xs) = (contains xs x ≡ false) × IsDistinct xs

pub IsDistinct-filter :
    (f : String → Bool) (xs : List String) → IsDistinct xs → IsDistinct (filter f xs)
unfolding filter
IsDistinct-filter f [] d = tt
IsDistinct-filter f (x ∷ xs) d = elim (Bool-cases (f x)) [
  | inl e ↦ rw e (contains-filter f xs x ∙ ground (arith, d.0), IsDistinct-filter f xs d.1)
  | inr e ↦ rw e (IsDistinct-filter f xs d.1)
]

pub IsDistinct-concat :
    (xs : List String) (x : String)
    → IsDistinct xs
    → contains xs x ≡ false
    → IsDistinct (xs ++ x ∷ [])
unfolding contains
IsDistinct-concat [] x d new = (refl, tt)
IsDistinct-concat (y ∷ xs) x d new =
    (ground (arith, d.0, contains-append xs (x ∷ []) y), IsDistinct-concat xs x d.1 (ground arith))

pub IsDistinct-reverse : (xs : List String) → IsDistinct xs → IsDistinct (reverse xs)
IsDistinct-reverse [] d = tt
IsDistinct-reverse (x ∷ xs) d =
    subst IsDistinct (sym (reverse-cons x xs))
      (IsDistinct-concat (reverse xs) x (IsDistinct-reverse xs d.1) (contains-reverse xs x ∙ d.0))

pub contains-map {ℓ} :
    {A : Type ℓ} (f : A → String) (xs : List A) (a : String)
    → contains (map f xs) a ≡ any (λ x. f x == a) xs
unfolding contains any
contains-map f [] a = refl
contains-map f (x ∷ xs) a = ground (arith, contains-map f xs a)

pub length-reverse {ℓ} : {A : Type ℓ} (xs : List A) → length (reverse xs) ≡ length xs
length-reverse [] = refl
length-reverse (x ∷ xs) =
    ap length (reverse-cons x xs)
    ∙ omega (arith, length-append (reverse xs) (x ∷ []), length-reverse xs)
