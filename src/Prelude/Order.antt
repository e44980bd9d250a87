-- ===== src/Prelude/Order.antt =====
-- The order of texts is total and transitive, and a sort under such an order commutes with a filter.
use Prim.Native.Nat.{ℕ, Ordering, compare as compare_ℕ}
use Prim.Native.Char.{Char, code}
use Prim.Native.String.compare
use Prim.Native.String.{String, [] as nil, ◌∷◌ as cons, compare, then as first_of}
use mathlib.Core.Path.{◌≡◌, refl, ap, ap₂, sym, ◌∙◌}
use mathlib.Core.Bool.{Bool, true, false, ◌||◌, ◌&&◌}
use mathlib.Core.List.{List, [], ◌∷◌}
use mathlib.Core.Logic.{inl, inr}
use native.Mathlib.Omega.{arith}
use ancestree.Prelude.Tests.{if◌then◌else◌, Bool-cases, ltb, ◌=?◌}
use ancestree.Prelude.Lists.{filter, All}
use ancestree.Prelude.Sorting.{insert_by, sort_by, text_leb}

abbrev not_gt : Ordering → Bool
not_gt Ordering.gt = false
not_gt Ordering.lt = true
not_gt Ordering.eq = true

abbrev is_lt : Ordering → Bool
is_lt Ordering.lt = true
is_lt Ordering.eq = false
is_lt Ordering.gt = false

abbrev is_eq : Ordering → Bool
is_eq Ordering.eq = true
is_eq Ordering.lt = false
is_eq Ordering.gt = false

not_gt-then : (o p : Ordering) → not_gt (first_of o p) ≡ (is_lt o || (is_eq o && not_gt p))
not_gt-then Ordering.lt p = refl
not_gt-then Ordering.eq p = refl
not_gt-then Ordering.gt p = refl

elim-not_gt : (o : Ordering) → elim o [ Ordering.gt ↦ false | _ ↦ true ] ≡ not_gt o
elim-not_gt Ordering.lt = refl
elim-not_gt Ordering.eq = refl
elim-not_gt Ordering.gt = refl

text_leb-not_gt : (s t : String) → text_leb s t ≡ not_gt (compare s t)
unfolding text_leb
text_leb-not_gt s t = elim-not_gt (compare s t)

is_lt-ltb : (o : Ordering) → is_lt o ≡ elim o [ Ordering.lt ↦ true | _ ↦ false ]
is_lt-ltb Ordering.lt = refl
is_lt-ltb Ordering.eq = refl
is_lt-ltb Ordering.gt = refl

is_eq-eqb : (o : Ordering) → is_eq o ≡ elim o [ Ordering.eq ↦ true | _ ↦ false ]
is_eq-eqb Ordering.lt = refl
is_eq-eqb Ordering.eq = refl
is_eq-eqb Ordering.gt = refl

not_gt-then_code :
    (a b : ℕ) (p : Ordering)
    → not_gt (first_of (compare_ℕ a b) p) ≡ (ltb a b || ((a =? b) && not_gt p))
not_gt-then_code a b p =
    not_gt-then (compare_ℕ a b) p
    ∙ ap₂ (λ l e. l || (e && not_gt p)) (is_lt-ltb (compare_ℕ a b)) (is_eq-eqb (compare_ℕ a b))

pub text_leb-cons :
    (c d : Char) (s t : String)
    → text_leb (cons c s) (cons d t)
      ≡ (ltb (code c) (code d) || ((code c =? code d) && text_leb s t))
text_leb-cons c d s t =
    text_leb-not_gt (cons c s) (cons d t)
    ∙ ap not_gt (compare.cons-cons c d s t)
    ∙ not_gt-then_code (code c) (code d) (compare s t)
    ∙ ap (λ b. ltb (code c) (code d) || ((code c =? code d) && b)) (sym (text_leb-not_gt s t))

text_leb-nil : (t : String) → text_leb nil t ≡ true
text_leb-nil nil = text_leb-not_gt nil nil ∙ ap not_gt compare.nil-nil
text_leb-nil (cons d t) = text_leb-not_gt nil (cons d t) ∙ ap not_gt (compare.nil-cons d t)

pub text_leb-cons-nil : (c : Char) (s : String) → text_leb (cons c s) nil ≡ false
text_leb-cons-nil c s = text_leb-not_gt (cons c s) nil ∙ ap not_gt (compare.cons-nil c s)

pub text_leb_total : (s t : String) → (text_leb s t || text_leb t s) ≡ true
text_leb_total nil t = ground (arith, text_leb-nil t)
text_leb_total (cons c s) nil = ground (arith, text_leb-nil (cons c s))
text_leb_total (cons c s) (cons d t) =
    ground (arith, text_leb-cons c d s t, text_leb-cons d c t s, text_leb_total s t)

pub text_leb_trans :
    (s t u : String) → text_leb s t ≡ true → text_leb t u ≡ true → text_leb s u ≡ true
text_leb_trans nil t u h k = text_leb-nil u
text_leb_trans (cons c s) nil u h k = absurd (ground (arith, text_leb-cons-nil c s))
text_leb_trans (cons c s) (cons d t) nil h k = absurd (ground (arith, text_leb-cons-nil d t))
text_leb_trans (cons c s) (cons d t) (cons e u) h k = ground (
  arith,
  text_leb-cons c d s t,
  text_leb-cons d e t u,
  text_leb-cons c e s u,
  text_leb_trans s t u,
)

-- A total and transitive order.
pub record IsOrdering {ℓ} {A : Type ℓ} (before : A → A → Bool) : Type ℓ where
  pub total : (a b : A) → (before a b || before b a) ≡ true
  pub transitive : (a b c : A) → before a b ≡ true → before b c ≡ true → before a c ≡ true

module _ {ℓ} {A : Type ℓ} (before : A → A → Bool) where
  abbrev IsSorted : List A → Type 0
  IsSorted [] = Unit
  IsSorted (a ∷ as') = All (λ b. before a b ≡ true) as' × IsSorted as'

  All-filter : (P : A → Type 0) (p : A → Bool) (as' : List A) → All P as' → All P (filter p as')
  unfolding filter
  All-filter _ p [] h = tt
  All-filter _ p (a ∷ as') h = elim (Bool-cases (p a)) [
    | inl e ↦ rw e (h.0, All-filter _ p as' h.1)
    | inr e ↦ rw e (All-filter _ p as' h.1)
  ]

  All-map : {P Q : A → Type 0} → ((a : A) → P a → Q a) → (as' : List A) → All P as' → All Q as'
  All-map f [] h = tt
  All-map f (a ∷ as') h = (f a h.0, All-map f as' h.1)

  All-insert_by :
      (P : A → Type 0) (a : A) (bs : List A) → P a → All P bs → All P (insert_by before a bs)
  unfolding insert_by
  All-insert_by _ a [] h k = (h, tt)
  All-insert_by _ a (b ∷ bs) h k = elim (Bool-cases (before a b)) [
    | inl e ↦ rw e (h, k)
    | inr e ↦ rw e (k.0, All-insert_by _ a bs h k.1)
  ]

  insert_by_least :
      (a : A) (bs : List A) → All (λ b. before a b ≡ true) bs → insert_by before a bs ≡ a ∷ bs
  unfolding insert_by
  insert_by_least a [] h = refl
  insert_by_least a (b ∷ bs) h = rw h.0

  module _ (order : IsOrdering before) where
    insert_by-IsSorted : (a : A) (bs : List A) → IsSorted bs → IsSorted (insert_by before a bs)
    unfolding insert_by
    insert_by-IsSorted a [] k = (tt, tt)
    insert_by-IsSorted a (b ∷ bs) k = elim (Bool-cases (before a b)) [
      | inl e ↦ rw e ((e, All-map (λ c h. order.transitive a b c e h) bs k.0), k)
      | inr e ↦
          rw e (
            All-insert_by _ a bs (ground (arith, order.total a b)) k.0,
            insert_by-IsSorted a bs k.1,
          )
    ]

    sort_by-IsSorted : (as' : List A) → IsSorted (sort_by before as')
    unfolding sort_by
    sort_by-IsSorted [] = tt
    sort_by-IsSorted (a ∷ as') = insert_by-IsSorted a (sort_by before as') (sort_by-IsSorted as')

    filter-insert_by :
        (p : A → Bool) (a : A) (bs : List A)
        → IsSorted bs
        → filter p (insert_by before a bs)
          ≡ (if p a then insert_by before a (filter p bs) else filter p bs)
    unfolding insert_by filter
    filter-insert_by p a [] k = ground arith
    filter-insert_by p a (b ∷ bs) k = elim (Bool-cases (before a b)) [
      | inl e ↦
          let least : insert_by before a (filter p (b ∷ bs)) ≡ a ∷ filter p (b ∷ bs) =
            insert_by_least a (filter p (b ∷ bs))
              (All-filter _ p (b ∷ bs) (e, All-map (λ c h. order.transitive a b c e h) bs k.0)) in
          rw e (ap (λ r. if p a then r else filter p (b ∷ bs)) (sym least))
      | inr e ↦ ground (arith, filter-insert_by p a bs k.1)
    ]

    -- What passes a test comes in the same order, whether tested before the sort or behind it.
    pub filter-sort_by :
        (p : A → Bool) (as' : List A)
        → filter p (sort_by before as') ≡ sort_by before (filter p as')
    unfolding sort_by filter
    filter-sort_by p [] = refl
    filter-sort_by p (a ∷ as') =
        filter-insert_by p a (sort_by before as') (sort_by-IsSorted as') ∙ elim (Bool-cases (p a)) [
          | inl e ↦ rw e (ap (insert_by before a) (filter-sort_by p as'))
          | inr e ↦ rw e (filter-sort_by p as')
        ]

pub All-passed {ℓ} :
    {A : Type ℓ} (p : A → Bool) (as' : List A) → All (λ a. p a ≡ true) (filter p as')
unfolding filter
All-passed p [] = tt
All-passed p (a ∷ as') = elim (Bool-cases (p a)) [
  | inl e ↦ rw e (e, All-passed p as')
  | inr e ↦ rw e (All-passed p as')
]

module _ {ℓ} {A : Type ℓ} (f g : A → A → Bool) (P : A → Type 0)
    (agree : (a b : A) → P a → P b → f a b ≡ g a b) where
  insert_by-agree : (a : A) (bs : List A) → P a → All P bs → insert_by f a bs ≡ insert_by g a bs
  unfolding insert_by
  insert_by-agree a [] h k = refl
  insert_by-agree a (b ∷ bs) h k = ground (arith, agree a b h k.0, insert_by-agree a bs h k.1)

  All-sort_by : (as' : List A) → All P as' → All P (sort_by g as')
  unfolding sort_by
  All-sort_by [] h = tt
  All-sort_by (a ∷ as') h = All-insert_by g _ a (sort_by g as') h.0 (All-sort_by as' h.1)

  -- Two orders that agree on the elements sort them alike.
  pub sort_by-agree : (as' : List A) → All P as' → sort_by f as' ≡ sort_by g as'
  unfolding sort_by
  sort_by-agree [] h = refl
  sort_by-agree (a ∷ as') h =
      ap (insert_by f a) (sort_by-agree as' h.1)
      ∙ insert_by-agree a (sort_by g as') h.0 (All-sort_by as' h.1)
