-- ===== src/Maintenance/Prune/Region.antt =====
-- The edges inside a region, counted from the parents' side and from the children's.
use ancestree.Prelude.{
  String, text_discrete, ◌==◌, ◌≡◌, refl, ap, sym, ◌∙◌, Bool, true, ◌&&◌, List, [], ◌∷◌, map,
  filter, contains, contains-filter, IsDistinct, if◌then◌else◌, arith,
}
use ancestree.Database.{Database}
use ancestree.Kahn.Counts.{count, count-append}
use ancestree.Maintenance.Prune.{all_parents, region_parents, children_in_region}

count-repeat :
    (child : String) (ps : List String) (nid c : String)
    → count (map (λ _. child) (filter (λ p. p == nid) ps)) c
      ≡ (if child == c then count ps nid else 0)
unfolding count filter
count-repeat child [] nid c = ground arith
count-repeat child (p ∷ ps) nid c = elim (text_discrete p nid) [
  | yes e ↦ ground (arith, count-repeat child ps nid c)
  | no e ↦ ground (arith, count-repeat child ps nid c)
]

count-filter :
    (f : String → Bool) (ps : List String) (a : String)
    → f a ≡ true
    → count (filter f ps) a ≡ count ps a
unfolding count filter
count-filter f [] a h = refl
count-filter f (p ∷ ps) a h = elim (text_discrete p a) [
  | yes e ↦ let same : f p ≡ f a = ap f e in ground (arith, count-filter f ps a)
  | no e ↦ ground (arith, count-filter f ps a)
]

module _ (db : Database) where
  count-children :
      (region : List String) (p c : String)
      → IsDistinct region
      → count (children_in_region db region p) c
        ≡ (if contains region c then count (all_parents db c) p else 0)
  unfolding children_in_region contains count
  count-children [] p c d = refl
  count-children (child ∷ region) p c d =
      count-append (map (λ _. child) (filter (λ q. q == p) (all_parents db child)))
        (children_in_region db region p) c
      ∙ elim (text_discrete child c) [
        | yes e ↦
            let same : count (all_parents db child) p ≡ count (all_parents db c) p =
              ap (λ k. count (all_parents db k) p) e in
            let gone : contains region child ≡ contains region c = ap (contains region) e in
            ground (
              arith,
              count-repeat child (all_parents db child) p c,
              count-children region p c d.1,
              d.0,
            )
        | no e ↦
            ground
              (arith, count-repeat child (all_parents db child) p c, count-children region p c d.1)
      ]

  pub children_in_region-agree :
      (region : List String)
      → IsDistinct region
      → (p c : String) → contains region p ≡ true
      → count (children_in_region db region p) c
        ≡ (if contains region c then count (region_parents db region c) p else 0)
  unfolding region_parents
  children_in_region-agree region d p c m =
      count-children region p c d
      ∙ ap (λ k. if contains region c then k else 0)
          (sym (count-filter (contains region) (all_parents db c) p m))

  pub contains-region_parents :
      (region : List String) (c p : String)
      → contains (region_parents db region c) p
        ≡ (contains (all_parents db c) p && contains region p)
  unfolding region_parents
  contains-region_parents region c p = contains-filter (contains region) (all_parents db c) p
