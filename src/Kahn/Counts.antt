-- ===== src/Kahn/Counts.antt =====
-- How often a text stands in a list, and how many parents are still to come.
use ancestree.Prelude.{
  ℕ, ◌+◌, ◌≤◌, String, text_discrete, ◌==◌, ◌=?◌, ◌≡◌, refl, ap, true, false, List, [], ◌∷◌, ◌++◌,
  contains, length, if◌then◌else◌, arith, Bool-cases, inl, inr,
}

unfoldable pub count : List String → String → ℕ
count [] a = 0
count (x ∷ xs) a = (if x == a then 1 else 0) + count xs a

pub count-append : (xs ys : List String) (a : String) → count (xs ++ ys) a ≡ count xs a + count ys a
unfolding count
count-append [] ys a = omega arith
count-append (x ∷ xs) ys a = ground (arith, count-append xs ys a)

pub count_absent : (xs : List String) (a : String) → contains xs a ≡ false → count xs a ≡ 0
unfolding count contains
count_absent [] a h = refl
count_absent (x ∷ xs) a h = ground (arith, count_absent xs a)

pub count_present : (xs : List String) (a : String) → contains xs a ≡ true → 1 ≤ count xs a
unfolding count contains
count_present [] a h = cc
count_present (x ∷ xs) a h = ground (arith, count_present xs a)

-- The parents of a list that are not emitted yet.
unfoldable pub pending : List String → List String → ℕ
pending emitted [] = 0
pending emitted (p ∷ ps) = (if contains emitted p then 0 else 1) + pending emitted ps

pub pending-cons :
    (emitted : List String) (n : String) (ps : List String)
    → contains emitted n ≡ false
    → pending (n ∷ emitted) ps + count ps n ≡ pending emitted ps
unfolding pending count contains
pending-cons emitted n [] new = refl
pending-cons emitted n (p ∷ ps) new = elim (text_discrete n p) [
  | yes e ↦
      let same : contains emitted n ≡ contains emitted p = ap (contains emitted) e in
      ground (arith, pending-cons emitted n ps new)
  | no e ↦ ground (arith, pending-cons emitted n ps new)
]

-- Parents none of which is pending are emitted.
pub pending-zero :
    (emitted ps : List String) (p : String)
    → pending emitted ps ≡ 0
    → contains ps p ≡ true
    → contains emitted p ≡ true
unfolding pending contains
pending-zero emitted [] p h m = cc
pending-zero emitted (q ∷ ps) p h m = elim (text_discrete q p) [
  | yes e ↦
      let same : contains emitted q ≡ contains emitted p = ap (contains emitted) e in ground arith
  | no e ↦ ground (arith, pending-zero emitted ps p)
]

pub pending_length : (ps : List String) → pending [] ps ≡ length ps
unfolding pending contains
pending_length [] = refl
pending_length (p ∷ ps) = omega (arith, pending_length ps)

-- Where some are pending, here is one.
pub pending-some :
    (emitted ps : List String)
    → (pending emitted ps =? 0) ≡ false
    → (p : String) × (contains ps p ≡ true) × (contains emitted p ≡ false)
unfolding pending contains
pending-some emitted [] h = cc
pending-some emitted (q ∷ ps) h = elim (Bool-cases (contains emitted q)) [
  | inr e ↦ (q, ground arith, e)
  | inl e ↦ let (p, m, new) = pending-some emitted ps (ground arith) in (p, ground arith, new)
]

-- Only what is emitted counts, in whatever order.
pub pending-ext :
    (e e' ps : List String)
    → ((p : String) → contains e p ≡ contains e' p)
    → pending e ps ≡ pending e' ps
unfolding pending
pending-ext e e' [] h = refl
pending-ext e e' (p ∷ ps) h = ground (arith, h p, pending-ext e e' ps h)
