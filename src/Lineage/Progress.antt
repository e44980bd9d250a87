-- ===== src/Lineage/Progress.antt =====
-- The walk ends: each round takes a frame off the stack or opens a node, and no node is opened
-- twice.
use ancestree.Prelude.{
  ℕ, suc, ◌+◌, ◌≤◌, ◌<◌, String, text_discrete, ◌≡◌, refl, ap, inl, inr, Bool, true, false, ◌||◌,
  List, [], ◌∷◌, contains, contains-discard, discard, length, arith, Bool-cases, if◌then◌else◌, ok,
}
use ancestree.Lineage.{Frame, Walker, push_parents, visit, opening_cost}

module _ (parents : String → List String) where
  -- What opening the node and its parents costs.
  abbrev cost : String → ℕ
  cost x = 1 + length (parents x)

  -- The cost of all nodes that are not opened yet.
  pub fresh : List String → List String → List String → ℕ
  fresh done on_stack [] = 0
  fresh done on_stack (u ∷ us) =
      (if contains done u || contains on_stack u then 0 else cost u) + fresh done on_stack us

  fresh-le :
      (done open' done' open'' us : List String)
      → ((u : String)
          → (contains done u || contains open' u) ≡ true
          → (contains done' u || contains open'' u) ≡ true)
      → fresh done' open'' us ≤ fresh done open' us
  unfolding fresh
  fresh-le done open' done' open'' [] more = omega arith
  fresh-le done open' done' open'' (u ∷ us) more =
      ground (arith, more u, fresh-le done open' done' open'' us more)

  fresh_opened :
      (done on_stack us : List String) (x : String)
      → (contains done x || contains on_stack x) ≡ false
      → contains us x ≡ true
      → fresh done (x ∷ on_stack) us + cost x ≤ fresh done on_stack us
  unfolding fresh contains
  fresh_opened done on_stack [] x new c = cc
  fresh_opened done on_stack (u ∷ us) x new c = elim (text_discrete u x) [
    | yes e ↦
        let rest = fresh-le done on_stack done (x ∷ on_stack) us (λ v h. ground arith) in
        let same : cost u ≡ cost x = ap cost e in ground arith
    | no e ↦ ground (arith, fresh_opened done on_stack us x new)
  ]

  length-push :
      (done ps : List String) (st : List Frame)
      → length (push_parents done ps st) ≤ length ps + length st
  unfolding push_parents
  length-push done [] st = omega arith
  length-push done (p ∷ ps) st = elim (Bool-cases (contains done p)) [
    | inl d ↦ rw d (omega (arith, length-push done ps st))
    | inr d ↦ rw d (omega (arith, length-push done ps ((p, false) ∷ st)))
  ]

  module _ (universe : List String) where
    abbrev pub work : Walker → ℕ
    work w = length w.stack + fresh w.done w.on_stack universe

    pub visit-work :
        (w w' : Walker) (x : String) (b : Bool) (rest : List Frame)
        → contains universe x ≡ true
        → visit parents w x b rest ≡ ok w'
        → work w' < suc (length rest) + fresh w.done w.on_stack universe
    unfolding visit contains
    visit-work w w' x b rest c e = ground (
      arith,
      fresh_opened w.done w.on_stack universe x,
      length-push w.done (parents x) ((x, true) ∷ rest),
      fresh-le w.done w.on_stack (x ∷ w.done) (discard w.on_stack x) universe
          (λ u h. ground (arith, contains-discard w.on_stack x u)),
    )

  -- Before the walk everything is still to be opened.
  pub fresh_all : (us : List String) → fresh [] [] us ≡ opening_cost parents us
  unfolding fresh contains opening_cost
  fresh_all [] = refl
  fresh_all (u ∷ us) = ap (λ n. cost u + n) (fresh_all us)
