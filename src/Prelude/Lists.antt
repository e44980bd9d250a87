-- ===== src/Prelude/Lists.antt =====
-- Lists measured and cut by native numbers, under the library's names, and Boolean selection.
use Prim.Native.Nat.{ℕ, zero, suc, ◌+◌, ◌-◌, ◌≤◌, min}
use mathlib.Core.Path.{◌∙◌, sym, ◌≡◌, refl, ap}
use mathlib.Core.Bool.{Bool, true, false, ◌||◌, ◌&&◌}
use mathlib.Core.Logic.{inl, inr, ⊎_elim}
use mathlib.Core.Option.{Option, none, some}
use mathlib.Core.List.{List, [], ◌∷◌, ◌++◌, map, Memᴰ}
use mathlib.Core.List.Memᴰ
use native.Mathlib.Omega.{arith}
use ancestree.Prelude.Tests.{if◌then◌else◌, Bool-cases}

module _ {ℓ} {A : Type ℓ} where
  abbrev pub length : List A → ℕ
  length [] = 0
  length (x ∷ xs) = suc (length xs)

  unfoldable pub take : ℕ → List A → List A
  take zero xs = []
  take (suc n) [] = []
  take (suc n) (x ∷ xs) = x ∷ take n xs

  unfoldable pub drop : ℕ → List A → List A
  drop zero xs = xs
  drop (suc n) [] = []
  drop (suc n) (x ∷ xs) = drop n xs

  -- The rows that pass a test, in order: `WHERE`.
  unfoldable pub filter : (A → Bool) → List A → List A
  filter p [] = []
  filter p (x ∷ xs) = let rest = filter p xs in if p x then x ∷ rest else rest

  -- The first row that passes a test: `fetchone` of a query with no order.
  unfoldable pub find? : (A → Bool) → List A → Option A
  find? p [] = none
  find? p (x ∷ xs) = let rest = find? p xs in if p x then some x else rest

  unfoldable pub any : (A → Bool) → List A → Bool
  any p [] = false
  any p (x ∷ xs) = let rest = any p xs in if p x then true else rest

  unfoldable pub all : (A → Bool) → List A → Bool
  all p [] = true
  all p (x ∷ xs) = let rest = all p xs in if p x then rest else false

  abbrev pub All {κ} : (A → Type κ) → List A → Type κ
  All P [] = Unit
  All P (x ∷ xs) = P x × All P xs

  pub length-append : (xs ys : List A) → length (xs ++ ys) ≡ length xs + length ys
  length-append [] ys = omega arith
  length-append (x ∷ xs) ys = omega (arith, length-append xs ys)

  pub length-take : (n : ℕ) (xs : List A) → length (take n xs) ≡ min n (length xs)
  unfolding take
  length-take zero xs = omega arith
  length-take (suc n) [] = omega arith
  length-take (suc n) (x ∷ xs) = omega (arith, length-take n xs)

  pub length-drop : (n : ℕ) (xs : List A) → length (drop n xs) ≡ length xs - n
  unfolding drop
  length-drop zero xs = omega arith
  length-drop (suc n) [] = omega arith
  length-drop (suc n) (x ∷ xs) = omega (arith, length-drop n xs)

  pub take-append-drop : (n : ℕ) (xs : List A) → take n xs ++ drop n xs ≡ xs
  unfolding take drop
  take-append-drop zero xs = refl
  take-append-drop (suc n) [] = refl
  take-append-drop (suc n) (x ∷ xs) = ap (◌∷◌ x) (take-append-drop n xs)

  pub drop-drop : (m n : ℕ) (xs : List A) → drop m (drop n xs) ≡ drop (n + m) xs
  unfolding drop
  drop-drop m zero xs = ap (λ k. drop k xs) (omega arith)
  drop-drop zero (suc n) [] = let e : suc n + zero ≡ suc (n + zero) = omega arith in rw e
  drop-drop (suc m) (suc n) [] = let e : suc n + suc m ≡ suc (n + suc m) = omega arith in rw e
  drop-drop m (suc n) (x ∷ xs) =
      let e : suc n + m ≡ suc (n + m) = omega arith in rw e (drop-drop m n xs)

  pub drop_of_length-le : (n : ℕ) (xs : List A) → length xs ≤ n → drop n xs ≡ []
  unfolding drop
  drop_of_length-le zero [] h = refl
  drop_of_length-le zero (x ∷ xs) h = absurd (omega arith)
  drop_of_length-le (suc n) [] h = refl
  drop_of_length-le (suc n) (x ∷ xs) h = drop_of_length-le n xs (omega arith)

  -- Past a prefix only what follows it is left.
  pub drop-append : (xs ys : List A) (k : ℕ) → drop (length xs + k) (xs ++ ys) ≡ drop k ys
  unfolding drop
  drop-append [] ys k = ap (λ j. drop j ys) (omega arith)
  drop-append (x ∷ xs) ys k =
      let e : suc (length xs) + k ≡ suc (length xs + k) = omega arith in rw e (drop-append xs ys k)

module _ {ℓ} {A : Type ℓ} (p : A → Bool) where
  pub find?-append_hit :
      (xs ys : List A) (a : A) → find? p xs ≡ some a → find? p (xs ++ ys) ≡ some a
  unfolding find?
  find?-append_hit [] ys a h = cc
  find?-append_hit (x ∷ xs) ys a h = ground (arith, find?-append_hit xs ys a)

  pub find?-append_miss : (xs ys : List A) → find? p xs ≡ none → find? p (xs ++ ys) ≡ find? p ys
  unfolding find?
  find?-append_miss [] ys h = refl
  find?-append_miss (x ∷ xs) ys h = ground (arith, find?-append_miss xs ys)

  pub find?-true : (xs : List A) (a : A) → find? p xs ≡ some a → p a ≡ true
  unfolding find?
  find?-true [] a h = cc
  find?-true (x ∷ xs) a h = ground (arith, find?-true xs a)

  pub any-false_of_find? : (xs : List A) → any p xs ≡ false → find? p xs ≡ none
  unfolding find? any
  any-false_of_find? [] h = refl
  any-false_of_find? (x ∷ xs) h = ground (arith, any-false_of_find? xs)

  pub any-true-find? : (xs : List A) → any p xs ≡ true → (a : A) × (find? p xs ≡ some a)
  unfolding find? any
  any-true-find? [] h = cc
  any-true-find? (x ∷ xs) h = elim (Bool-cases (p x)) [
    | inl e ↦ (x, rw e)
    | inr e ↦ rw e (any-true-find? xs (rw e at h))
  ]

  pub any-mem : (xs : List A) → any p xs ≡ true → (a : A) × Memᴰ a xs × (p a ≡ true)
  unfolding any
  any-mem [] h = cc
  any-mem (x ∷ xs) h = elim (Bool-cases (p x)) [
    | inl e ↦ (x, Memᴰ.head refl, e)
    | inr e ↦ let (a, m, q) = any-mem xs (rw e at h) in (a, Memᴰ.tail m, q)
  ]

  pub mem-any : (a : A) (xs : List A) → Memᴰ a xs → p a ≡ true → any p xs ≡ true
  unfolding any
  mem-any a [] m h = absurd (Memᴰ.not-nil m)
  mem-any a (x ∷ xs) m h = elim (Memᴰ.cases_cons m) [
    | inl here ↦ rw (ap p (sym here) ∙ h) refl
    | inr there ↦ elim (Bool-cases (p x)) [
      | inl e ↦ rw e refl
      | inr e ↦ rw e (mem-any a xs there h)
    ]
  ]

  pub any-append : (xs ys : List A) → any p (xs ++ ys) ≡ (any p xs || any p ys)
  unfolding any
  any-append [] ys = refl
  any-append (x ∷ xs) ys = ground (arith, any-append xs ys)

  pub mem-filter : (a : A) (xs : List A) → Memᴰ a (filter p xs) → Memᴰ a xs × (p a ≡ true)
  unfolding filter
  mem-filter a [] m = absurd (Memᴰ.not-nil m)
  mem-filter a (x ∷ xs) m = elim (Bool-cases (p x)) [
    | inl e ↦
        ⊎_elim (λ here. (Memᴰ.head here, rw here e))
          (λ there. (Memᴰ.tail (mem-filter a xs there).0, (mem-filter a xs there).1))
          (Memᴰ.cases_cons (rw e at m))
    | inr e ↦ let (m', q) = mem-filter a xs (rw e at m) in (Memᴰ.tail m', q)
  ]

  pub filter-mem : (a : A) (xs : List A) → Memᴰ a xs → p a ≡ true → Memᴰ a (filter p xs)
  unfolding filter
  filter-mem a [] m h = absurd (Memᴰ.not-nil m)
  filter-mem a (x ∷ xs) m h = elim (Bool-cases (p x)) [
    | inl e ↦ rw e (
        ⊎_elim (λ here. Memᴰ.head here) (λ there. Memᴰ.tail (filter-mem a xs there h))
          (Memᴰ.cases_cons m))
    | inr e ↦
        rw e
          (⊎_elim (λ here. cc (ap p here)) (λ there. filter-mem a xs there h) (Memᴰ.cases_cons m))
  ]

  pub any-filter : (q : A → Bool) (xs : List A) → any q (filter p xs) ≡ any (λ x. p x && q x) xs
  unfolding any filter
  any-filter q [] = refl
  any-filter q (x ∷ xs) = ground (arith, any-filter q xs)

  pub length-filter-le : (xs : List A) → length (filter p xs) ≤ length xs
  unfolding filter
  length-filter-le [] = omega arith
  length-filter-le (x ∷ xs) = ground (arith, length-filter-le xs)

pub length-map {ℓ κ} :
    {A : Type ℓ} {B : Type κ} (f : A → B) (xs : List A) → length (map f xs) ≡ length xs
length-map f [] = refl
length-map f (x ∷ xs) = omega (arith, length-map f xs)

pub filter-filter {ℓ} :
    {A : Type ℓ} (p q : A → Bool) (xs : List A)
    → filter q (filter p xs) ≡ filter (λ x. p x && q x) xs
unfolding filter
filter-filter p q [] = refl
filter-filter p q (x ∷ xs) = ground (arith, filter-filter p q xs)

pub filter-ext {ℓ} :
    {A : Type ℓ} (p q : A → Bool)
    → ((x : A) → p x ≡ q x)
    → (xs : List A) → filter p xs ≡ filter q xs
unfolding filter
filter-ext p q h [] = refl
filter-ext p q h (x ∷ xs) = ground (arith, h x, filter-ext p q h xs)
