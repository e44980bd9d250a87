-- ===== src/Lineage/Topological.antt =====
-- Lists in which every node stands once and behind all of its parents.
use mathlib.Core.List.{Memᴰ}
use ancestree.Prelude.{
  String, ◌≡◌, true, false, ◌||◌, List, [], ◌∷◌, ◌++◌, contains, arith, text_discrete, subst, sym,
}

module _ (parents : String → List String) where
  -- `seen` stands before the list.
  abbrev pub IsTopological : List String → List String → Type 0
  IsTopological seen [] = Unit
  IsTopological seen (x ∷ xs) =
      (contains seen x ≡ false)
      × ((p : String) → Memᴰ p (parents x) → contains seen p ≡ true)
      × IsTopological (x ∷ seen) xs

  -- The ancestors of a node, itself among them.
  pub data Ancestor (node : String) : String → Type 0 where
    itself : Ancestor node node
    parent_of : {a p : String} → Ancestor node a → Memᴰ p (parents a) → Ancestor node p

  pub IsTopological-concat :
      (seen xs : List String) (x : String)
      → IsTopological seen xs
      → (contains seen x || contains xs x) ≡ false
      → ((p : String) → Memᴰ p (parents x) → (contains seen p || contains xs p) ≡ true)
      → IsTopological seen (xs ++ x ∷ [])
  unfolding contains
  IsTopological-concat seen [] x t new ready = (ground arith, λ p m. ground (arith, ready p m), tt)
  IsTopological-concat seen (y ∷ xs) x t new ready = (
    t.0,
    t.1,
    IsTopological-concat (y ∷ seen) xs x t.2 (ground arith) (λ p m. ground (arith, ready p m)),
  )

  -- Such a list contains the parents of what it contains, but for those before it.
  pub closed_of_IsTopological :
      (seen xs : List String) (a p : String)
      → IsTopological seen xs
      → contains xs a ≡ true
      → Memᴰ p (parents a)
      → (contains seen p || contains xs p) ≡ true
  unfolding contains
  closed_of_IsTopological seen [] a p t c m = cc
  closed_of_IsTopological seen (x ∷ xs) a p t c m = elim (text_discrete x a) [
    | yes same ↦ ground (arith, t.1 p (subst (λ b. Memᴰ p (parents b)) (sym same) m))
    | no differ ↦ ground (arith, closed_of_IsTopological (x ∷ seen) xs a p t.2 (ground arith) m)
  ]

  -- A list with a node and no one before it contains all of the node's ancestors.
  pub contains_ancestors :
      (xs : List String) {node a : String}
      → IsTopological [] xs
      → contains xs node ≡ true
      → Ancestor node a
      → contains xs a ≡ true
  unfolding contains
  contains_ancestors xs t c itself = c
  contains_ancestors xs t c (parent_of {a} {p} up m) =
      closed_of_IsTopological [] xs a p t (contains_ancestors xs t c up) m
