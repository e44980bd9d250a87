-- ===== src/Prelude/Sorting.antt =====
-- `ORDER BY` and `sorted`: a stable insertion sort under a Boolean order, and the order of texts.
use Prim.Native.Nat.{suc, Ordering}
use Prim.Native.String.{String, compare}
use mathlib.Core.Path.{◌≡◌, refl, ap, ◌∙◌}
use mathlib.Core.Bool.{Bool, true, false, ◌||◌}
use mathlib.Core.List.{List, [], ◌∷◌, Memᴰ}
use mathlib.Core.List.Memᴰ
use mathlib.Core.Logic.{inl, inr, ⊎_elim}
use native.Mathlib.Omega.{arith}
use ancestree.Prelude.Lists.{length, any}
use ancestree.Prelude.Tests.{if◌then◌else◌, Bool-cases}

-- The order of UTF-8 bytes, which is that of code points.
unfoldable pub text_leb : String → String → Bool
text_leb s t = elim (compare s t) [ Ordering.gt ↦ false | _ ↦ true ]

module _ {ℓ} {A : Type ℓ} (before : A → A → Bool) where
  -- Behind every element that is to stand before `a`, or is equal to it.
  unfoldable pub insert_by : A → List A → List A
  insert_by a [] = a ∷ []
  insert_by a (b ∷ bs) = let rest = insert_by a bs in if before a b then a ∷ b ∷ bs else b ∷ rest

  unfoldable pub sort_by : List A → List A
  unfolding insert_by
  sort_by [] = []
  sort_by (a ∷ as') = insert_by a (sort_by as')

  abbrev pub IsAscending : List A → Type 0
  IsAscending [] = Unit
  IsAscending (a ∷ []) = Unit
  IsAscending (a ∷ b ∷ bs) = (before a b ≡ true) × IsAscending (b ∷ bs)

  insert_by_first : (a : A) (bs : List A) → IsAscending (a ∷ bs) → insert_by a bs ≡ a ∷ bs
  unfolding insert_by
  insert_by_first a [] h = refl
  insert_by_first a (b ∷ bs) h = λ i. if h.0 i then a ∷ b ∷ bs else b ∷ insert_by a bs

  pub sort_by_sorted : (as' : List A) → IsAscending as' → sort_by as' ≡ as'
  unfolding sort_by
  sort_by_sorted [] h = refl
  sort_by_sorted (a ∷ []) h = refl
  sort_by_sorted (a ∷ b ∷ bs) h =
      ap (insert_by a) (sort_by_sorted (b ∷ bs) h.1) ∙ insert_by_first a (b ∷ bs) h

  insert_by-mem : (a c : A) (bs : List A) → Memᴰ c (insert_by a bs) → Memᴰ c (a ∷ bs)
  unfolding insert_by
  insert_by-mem a c [] m = m
  insert_by-mem a c (b ∷ bs) m = elim (Bool-cases (before a b)) [
    | inl e ↦ rw e at m
    | inr e ↦
        ⊎_elim (λ here. Memᴰ.tail (Memᴰ.head here))
          (λ there.
            ⊎_elim (λ p. Memᴰ.head p) (λ q. Memᴰ.tail (Memᴰ.tail q))
              (Memᴰ.cases_cons (insert_by-mem a c bs there)))
          (Memᴰ.cases_cons (rw e at m))
  ]

  -- Sorting adds no element.
  pub mem-sort_by : (c : A) (as' : List A) → Memᴰ c (sort_by as') → Memᴰ c as'
  unfolding sort_by
  mem-sort_by c [] m = m
  mem-sort_by c (a ∷ as') m =
      ⊎_elim (λ here. Memᴰ.head here) (λ there. Memᴰ.tail (mem-sort_by c as' there))
        (Memᴰ.cases_cons (insert_by-mem a c (sort_by as') m))

  mem-insert_by : (a c : A) (bs : List A) → Memᴰ c (a ∷ bs) → Memᴰ c (insert_by a bs)
  unfolding insert_by
  mem-insert_by a c [] m = m
  mem-insert_by a c (b ∷ bs) m = elim (Bool-cases (before a b)) [
    | inl e ↦ rw e m
    | inr e ↦ rw e (
        ⊎_elim (λ here. Memᴰ.tail (mem-insert_by a c bs (Memᴰ.head here)))
          (λ there.
            ⊎_elim (λ p. Memᴰ.head p) (λ q. Memᴰ.tail (mem-insert_by a c bs (Memᴰ.tail q)))
              (Memᴰ.cases_cons there))
          (Memᴰ.cases_cons m))
  ]

  -- Sorting loses no element.
  pub sort_by-mem : (c : A) (as' : List A) → Memᴰ c as' → Memᴰ c (sort_by as')
  unfolding sort_by
  sort_by-mem c [] m = m
  sort_by-mem c (a ∷ as') m = mem-insert_by a c (sort_by as') (
      ⊎_elim (λ here. Memᴰ.head here) (λ there. Memᴰ.tail (sort_by-mem c as' there))
        (Memᴰ.cases_cons m))

module _ {ℓ} {A : Type ℓ} (before : A → A → Bool) where
  any-insert_by :
      (p : A → Bool) (a : A) (bs : List A) → any p (insert_by before a bs) ≡ (p a || any p bs)
  unfolding insert_by any
  any-insert_by p a [] = ground arith
  any-insert_by p a (b ∷ bs) = ground (arith, any-insert_by p a bs)

  pub any-sort_by : (p : A → Bool) (as' : List A) → any p (sort_by before as') ≡ any p as'
  unfolding sort_by any
  any-sort_by p [] = refl
  any-sort_by p (a ∷ as') =
      any-insert_by p a (sort_by before as') ∙ ground (arith, any-sort_by p as')

  length-insert_by : (a : A) (bs : List A) → length (insert_by before a bs) ≡ suc (length bs)
  unfolding insert_by
  length-insert_by a [] = refl
  length-insert_by a (b ∷ bs) = ground (arith, length-insert_by a bs)

  pub length-sort_by : (as' : List A) → length (sort_by before as') ≡ length as'
  unfolding sort_by
  length-sort_by [] = refl
  length-sort_by (a ∷ as') =
      omega (arith, length-insert_by a (sort_by before as'), length-sort_by as')
