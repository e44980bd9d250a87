-- ===== src/Prelude/Canonical.antt =====
-- Sorting forgets the order: two lists of the same elements sort alike, where the order is
-- antisymmetric on the elements.
use Prim.Native.Char.{code}
use Prim.Native.String.{String, [] as nil, ◌∷◌ as cons}
use text.Mathlib.TextEquality.{Char-path}
use mathlib.Core.Path.{◌≡◌, refl, ap₂, sym, subst, ◌∙◌}
use mathlib.Core.Bool.{Bool, true}
use mathlib.Core.List.{List, [], ◌∷◌}
use mathlib.Core.List.{Permᴰ}
use mathlib.Core.Logic.{inl, inr}
use native.Mathlib.Omega.{arith}
use ancestree.Prelude.Tests.{Bool-cases}
use ancestree.Prelude.Lists.{All}
use ancestree.Prelude.Sorting.{insert_by, sort_by, text_leb}
use ancestree.Prelude.Order.{
  IsOrdering, text_leb-cons, text_leb-cons-nil, text_leb_total, text_leb_trans,
}

pub text_leb_antisymm : (s t : String) → text_leb s t ≡ true → text_leb t s ≡ true → s ≡ t
text_leb_antisymm nil nil h k = refl
text_leb_antisymm nil (cons d t) h k = absurd (ground (arith, text_leb-cons-nil d t))
text_leb_antisymm (cons c s) nil h k = absurd (ground (arith, text_leb-cons-nil c s))
text_leb_antisymm (cons c s) (cons d t) h k =
    let same : code c ≡ code d = ground (arith, text_leb-cons c d s t, text_leb-cons d c t s) in
    ap₂ cons (Char-path c d same) (
      text_leb_antisymm s t (ground (arith, text_leb-cons c d s t))
        (ground (arith, text_leb-cons d c t s)))

pub text_leb-IsOrdering : IsOrdering text_leb
text_leb-IsOrdering = record { total = text_leb_total; transitive = text_leb_trans }

module _ {ℓ} {A : Type ℓ} (before : A → A → Bool) (order : IsOrdering before) (P : A → Type 0)
    (agree : (a b : A) → P a → P b → before a b ≡ true → before b a ≡ true → a ≡ b) where
  All-Permᴰ : {xs ys : List A} → Permᴰ xs ys → All P xs → All P ys
  All-Permᴰ Permᴰ.nil h = tt
  All-Permᴰ (Permᴰ.cons e p) h = (subst P e h.0, All-Permᴰ p h.1)
  All-Permᴰ (Permᴰ.swap e f) h = (subst P f h.1.0, (subst P e h.0, h.1.1))
  All-Permᴰ (Permᴰ.trans p q) h = All-Permᴰ q (All-Permᴰ p h)

  insert_by_swap :
      (a b : A) (xs : List A)
      → P a
      → P b
      → insert_by before a (insert_by before b xs) ≡ insert_by before b (insert_by before a xs)
  unfolding insert_by
  insert_by_swap a b [] h k = elim (Bool-cases (before a b)) [
    | inl e ↦ elim (Bool-cases (before b a)) [
      | inl f ↦
          ap₂ (λ x y. insert_by before x (y ∷ [])) (agree a b h k e f) (sym (agree a b h k e f))
      | inr f ↦ ground arith
    ]
    | inr e ↦ ground (arith, order.total a b)
  ]
  insert_by_swap a b (c ∷ xs) h k = elim (Bool-cases (before a b)) [
    | inl e ↦ elim (Bool-cases (before b a)) [
      | inl f ↦
          ap₂ (λ x y. insert_by before x (insert_by before y (c ∷ xs))) (agree a b h k e f)
            (sym (agree a b h k e f))
      | inr f ↦ ground (arith, order.transitive a b c, insert_by_swap a b xs h k)
    ]
    | inr e ↦ ground (arith, order.total a b, order.transitive b a c, insert_by_swap a b xs h k)
  ]

  pub sort_by-Permᴰ :
      {xs ys : List A} → Permᴰ xs ys → All P xs → sort_by before xs ≡ sort_by before ys
  unfolding sort_by
  sort_by-Permᴰ Permᴰ.nil h = refl
  sort_by-Permᴰ (Permᴰ.cons e p) h = ap₂ (insert_by before) e (sort_by-Permᴰ p h.1)
  sort_by-Permᴰ (Permᴰ.swap {a} {b} {a'} {b'} {l} e f) h =
      insert_by_swap a b (sort_by before l) h.0 h.1.0
      ∙ ap₂ (λ x y. insert_by before x (insert_by before y (sort_by before l))) f e
  sort_by-Permᴰ (Permᴰ.trans p q) h = sort_by-Permᴰ p h ∙ sort_by-Permᴰ q (All-Permᴰ p h)
