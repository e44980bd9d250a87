-- ===== src/Domain/Rules.antt =====
-- src/ancestree/domain/rules.py
use mathlib.Core.List.{Memᴰ}
use mathlib.Core.List.Memᴰ
use ancestree.Prelude.{
  ℕ, ◌+◌, ◌≤◌, ◌<◌, max, ltb, leb, subst, String, ◌==◌, ◌≡◌, refl, ap, sym, ◌↔◌, inl, inr, Bool,
  true, false, Option, none, some, List, [], ◌∷◌, contains, if◌then◌else◌, Result, ok, err,
  invalid_transition, value_error, arith, Bool-cases, All,
}

abbrev pub max_step_type_len : ℕ
max_step_type_len = 100

-- What Python's str answers: `not s.strip()`, `len(s)` and `s.isprintable()`.
pub record Unicode : Type 0 where
  pub is_blank : String → Bool
  pub len : String → ℕ
  pub isprintable : String → Bool

unfoldable pub validate_step_type : Unicode → String → Result (Unit {0})
validate_step_type u step_type =
    if u.is_blank step_type
    then err value_error
    else if ltb max_step_type_len (u.len step_type)
    then err value_error
    else if u.isprintable step_type
    then ok tt
    else err value_error

-- `RuleEngine`: None among the allowed parents stands for a root.
pub record RuleEngine : Type 0 where
  pub rules : List (String × List (Option String))
  pub gen_triggers : List String

unfoldable pub allowed_for :
    List (String × List (Option String)) → String → Option (List (Option String))
allowed_for [] step_type = none
allowed_for ((key, value) ∷ rules) step_type =
    let rest = allowed_for rules step_type in if key == step_type then some value else rest

abbrev pub same_type : Option String → Option String → Bool
same_type none none = true
same_type none (some t) = false
same_type (some s) none = false
same_type (some s) (some t) = s == t

-- `parent_type in allowed`
unfoldable pub is_allowed : List (Option String) → Option String → Bool
is_allowed [] t = false
is_allowed (a ∷ allowed) t = let rest = is_allowed allowed t in if same_type a t then true else rest

unfoldable pub check_parents : List (Option String) → List (Option String) → Result (Unit {0})
check_parents allowed [] = ok tt
check_parents allowed (t ∷ ts) =
    let rest = check_parents allowed ts in
    if is_allowed allowed t then rest else err invalid_transition

-- `list(parent_step_types) or [None]`
abbrev pub or_root : List (Option String) → List (Option String)
or_root [] = none ∷ []
or_root (t ∷ ts) = t ∷ ts

unfoldable pub validate : RuleEngine → String → List (Option String) → Result (Unit {0})
validate engine step_type parent_step_types = elim (allowed_for engine.rules step_type) [
  | none ↦ ok tt
  | some allowed ↦ check_parents allowed (or_root parent_step_types)
]

unfoldable pub max_generation : List ℕ → ℕ
max_generation [] = 0
max_generation (g ∷ gs) = max g (max_generation gs)

unfoldable pub generation_for : RuleEngine → String → List ℕ → ℕ
generation_for engine step_type [] = 0
generation_for engine step_type (g ∷ gs) =
    let base = max_generation (g ∷ gs) in
    if contains engine.gen_triggers step_type then base + 1 else base

same_type-eq : (a t : Option String) → same_type a t ≡ true → a ≡ t
same_type-eq none none h = refl
same_type-eq none (some t) h = cc
same_type-eq (some s) none h = cc
same_type-eq (some s) (some t) h = ap some (ground arith)

same_type_refl : (a : Option String) → same_type a a ≡ true
same_type_refl none = refl
same_type_refl (some s) = ground arith

is_allowed_iff :
    (allowed : List (Option String)) (t : Option String)
    → (is_allowed allowed t ≡ true) ↔ Memᴰ t allowed
unfolding is_allowed
is_allowed_iff [] t = (λ h. cc, λ m. absurd (Memᴰ.not-nil m))
is_allowed_iff (a ∷ allowed) t = (
  λ h. elim (Bool-cases (same_type a t)) [
    | inl e ↦ Memᴰ.head (sym (same_type-eq a t e))
    | inr e ↦ Memᴰ.tail ((is_allowed_iff allowed t).0 (rw e at h))
  ],
  λ m. elim (Memᴰ.cases_cons m) [
    | inl here ↦ rw (here, same_type_refl a) refl
    | inr there ↦ elim (Bool-cases (same_type a t)) [
      | inl e ↦ rw e refl
      | inr e ↦ rw e ((is_allowed_iff allowed t).1 there)
    ]
  ],
)

check_parents_iff :
    (allowed ts : List (Option String))
    → (check_parents allowed ts ≡ ok tt) ↔ All (λ t. Memᴰ t allowed) ts
unfolding check_parents
check_parents_iff allowed [] = (λ h. tt, λ h. refl)
check_parents_iff allowed (t ∷ ts) = elim (Bool-cases (is_allowed allowed t)) [
  | inl e ↦ rw e (
    λ h. ((is_allowed_iff allowed t).0 e, (check_parents_iff allowed ts).0 h),
    λ h. (check_parents_iff allowed ts).1 h.1,
  )
  | inr e ↦ rw e (λ h. cc, λ h. absurd (let one = (is_allowed_iff allowed t).1 h.0 in cc))
]

-- A step type that has a rule passes validation exactly when the type of every parent is among those
-- that its rule allows and, for a node without parents, when the rule allows roots, that is None.
pub validate_iff :
    (engine : RuleEngine) (step_type : String) (allowed ts : List (Option String))
    → allowed_for engine.rules step_type ≡ some allowed
    → (validate engine step_type ts ≡ ok tt)
      ↔ (All (λ t. Memᴰ t allowed) ts × (ts ≡ [] → Memᴰ none allowed))
unfolding validate
validate_iff engine step_type allowed [] h =
    let (sound, complete) = check_parents_iff allowed (none ∷ []) in
    rw (validate, h) ((λ g. (tt, λ _. (sound g).0)), (λ (_, root). complete (root refl, tt)))
validate_iff engine step_type allowed (t ∷ ts) h =
    let (sound, complete) = check_parents_iff allowed (t ∷ ts) in
    rw (validate, h) ((λ g. (sound g, λ e. cc)), (λ (members, _). complete members))

max_generation-bound : (gs : List ℕ) (g : ℕ) → Memᴰ g gs → g ≤ max_generation gs
unfolding max_generation
max_generation-bound [] g m = absurd (Memᴰ.not-nil m)
max_generation-bound (x ∷ gs) g m = elim (Memᴰ.cases_cons m) [
  | inl here ↦ omega (arith, here)
  | inr there ↦ omega (arith, max_generation-bound gs g there)
]

max_generation-mem : (g : ℕ) (gs : List ℕ) → Memᴰ (max_generation (g ∷ gs)) (g ∷ gs)
unfolding max_generation
max_generation-mem g [] = Memᴰ.head (omega arith)
max_generation-mem g (x ∷ gs) = elim (Bool-cases (leb (max_generation (x ∷ gs)) g)) [
  | inl e ↦ Memᴰ.head (ground arith)
  | inr e ↦
      let same : max_generation (x ∷ gs) ≡ max g (max_generation (x ∷ gs)) = ground arith in
      subst (λ k. Memᴰ k (g ∷ x ∷ gs)) same (Memᴰ.tail (max_generation-mem x gs))
]

-- A node is never of an earlier generation than any of its parents; it is of a later one than all of
-- them when its step type triggers one, and otherwise it is of the generation of one of its parents.
pub generation_for-bounds :
    (engine : RuleEngine) (step_type : String) (g : ℕ) (gs : List ℕ)
    → ((p : ℕ) → Memᴰ p (g ∷ gs) → p ≤ generation_for engine step_type (g ∷ gs))
      × (contains engine.gen_triggers step_type ≡ true
          → (p : ℕ) → Memᴰ p (g ∷ gs)
          → p < generation_for engine step_type (g ∷ gs))
      × (contains engine.gen_triggers step_type ≡ false
          → Memᴰ (generation_for engine step_type (g ∷ gs)) (g ∷ gs))
unfolding generation_for
generation_for-bounds engine step_type g gs = (
  λ p m. let bound = max_generation-bound (g ∷ gs) p m in ground arith,
  λ e p m. let bound = max_generation-bound (g ∷ gs) p m in rw e (omega arith),
  λ e. rw e (max_generation-mem g gs),
)
