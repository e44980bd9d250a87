-- ===== src/Web/Graph/Longest.antt =====
-- The dicts that `assign_levels` builds from the edges, and the levels it ends with.
use mathlib.Core.List.{reverse}
use ancestree.Prelude.{
  ℕ, ◌<◌, String, text_discrete, ◌==◌, ◌=?◌, ◌≡◌, refl, ap, sym, ◌∙◌, Bool, true, false, ◌||◌, ◌&&◌,
  List, [], ◌∷◌, filter, contains, contains-append, length, IsDistinct, IsDistinct-concat,
  if◌then◌else◌, arith, Bool-cases, inl, inr,
}
use ancestree.Kahn.{sorted}
use ancestree.Kahn.Counts.{count, count_absent}
use ancestree.Kahn.Order.{gather, contains-gather, sorted-IsOrder, sorted_all}
use ancestree.Web.Graph.{
  Edge, children, parents, add_key, add_ids, add_edges, known_ids, assign_levels,
}
use ancestree.Web.Graph.Levels.{
  above, above_emitted, above_emitted-all, raise_along, level_loop-raise_along, Inv, Inv-along,
}

count-children :
    (edges : List Edge) (p c : String) → count (children edges p) c ≡ count (parents edges c) p
unfolding children parents count filter
count-children [] p c = refl
count-children ((a, b) ∷ edges) p c = elim (text_discrete a p) [
  | yes e ↦ elim (text_discrete b c) [
    | yes f ↦ ground (arith, count-children edges p c)
    | no f ↦ ground (arith, count-children edges p c)
  ]
  | no e ↦ elim (text_discrete b c) [
    | yes f ↦ ground (arith, count-children edges p c)
    | no f ↦ ground (arith, count-children edges p c)
  ]
]

abbrev touches : List Edge → String → Bool
touches [] x = false
touches ((p, c) ∷ edges) x = (p == x) || (c == x) || touches edges x

contains-add_key :
    (keys : List String) (k x : String)
    → contains (add_key keys k) x ≡ (contains keys x || (k == x))
unfolding add_key contains
contains-add_key keys k x = elim (Bool-cases (contains keys k)) [
  | inl e ↦ rw e (elim (text_discrete k x) [
    | yes q ↦ let same : contains keys k ≡ contains keys x = ap (contains keys) q in ground arith
    | no q ↦ ground arith
  ])
  | inr e ↦ rw e (contains-append keys (k ∷ []) x ∙ ground arith)
]

IsDistinct-add_key :
    (keys : List String) (k : String) → IsDistinct keys → IsDistinct (add_key keys k)
unfolding add_key
IsDistinct-add_key keys k d = elim (Bool-cases (contains keys k)) [
  | inl e ↦ rw e d
  | inr e ↦ rw e (IsDistinct-concat keys k d e)
]

contains-add_edges :
    (edges : List Edge) (keys : List String) (x : String)
    → contains (add_edges keys edges) x ≡ (contains keys x || touches edges x)
unfolding add_edges
contains-add_edges [] keys x = ground arith
contains-add_edges ((p, c) ∷ edges) keys x =
    contains-add_edges edges (add_key (add_key keys c) p) x
    ∙ ground (arith, contains-add_key (add_key keys c) p x, contains-add_key keys c x)

IsDistinct-add_ids : (ids keys : List String) → IsDistinct keys → IsDistinct (add_ids keys ids)
unfolding add_ids
IsDistinct-add_ids [] keys d = d
IsDistinct-add_ids (i ∷ ids) keys d =
    IsDistinct-add_ids ids (add_key keys i) (IsDistinct-add_key keys i d)

IsDistinct-add_edges :
    (edges : List Edge) (keys : List String) → IsDistinct keys → IsDistinct (add_edges keys edges)
unfolding add_edges
IsDistinct-add_edges [] keys d = d
IsDistinct-add_edges ((p, c) ∷ edges) keys d =
    IsDistinct-add_edges edges (add_key (add_key keys c) p)
      (IsDistinct-add_key (add_key keys c) p (IsDistinct-add_key keys c d))

touches-parents :
    (edges : List Edge) (c p : String)
    → contains (parents edges c) p ≡ true
    → (touches edges c && touches edges p) ≡ true
unfolding parents contains filter
touches-parents [] c p h = cc
touches-parents ((a, b) ∷ edges) c p h = ground (arith, touches-parents edges c p)

module _ (node_ids : List String) (edges : List Edge) where
  abbrev ids : List String
  ids = known_ids node_ids edges

  ids-IsDistinct : IsDistinct ids
  unfolding known_ids
  ids-IsDistinct =
      IsDistinct-add_edges edges (add_ids [] node_ids) (IsDistinct-add_ids node_ids [] tt)

  contains-ids : (x : String) → touches edges x ≡ true → contains ids x ≡ true
  unfolding known_ids
  contains-ids x h = contains-add_edges edges (add_ids [] node_ids) x ∙ ground arith

  parents-inside : (c p : String) → contains (parents edges c) p ≡ true → contains ids p ≡ true
  parents-inside c p h = contains-ids p (ground (arith, touches-parents edges c p h))

  agree :
      (p c : String)
      → contains ids p ≡ true
      → count (children edges p) c ≡ (if contains ids c then count (parents edges c) p else 0)
  agree p c m = count-children edges p c ∙ elim (Bool-cases (contains ids c)) [
    | inl e ↦ rw e refl
    | inr e ↦ rw e (elim (Bool-cases (contains (parents edges c) p)) [
      | inl f ↦ let there = contains-ids c (ground (arith, touches-parents edges c p f)) in cc
      | inr f ↦ count_absent (parents edges c) p f
    ])
  ]

  abbrev order : List String
  order = sorted ids (children edges) (parents edges)

  levels-along :
      (c : String)
      → assign_levels node_ids edges c
        ≡ raise_along (children edges) (parents edges) ids agree order (λ _. 0) c
  unfolding assign_levels sorted
  levels-along c =
      level_loop-raise_along (children edges) (parents edges) ids agree (length ids)
        (reverse (filter (λ n. length (parents edges n) =? 0) ids)) (λ n. length (parents edges n))
        (λ _. 0) c

  above-ext :
      (f g : String → ℕ) → ((p : String) → f p ≡ g p) → (ps : List String) → above f ps ≡ above g ps
  unfolding above
  above-ext f g h [] = refl
  above-ext f g h (p ∷ ps) = ground (arith, h p, above-ext f g h ps)

  none_emitted : (ps : List String) → above_emitted [] (λ _. 0) ps ≡ 0
  unfolding above_emitted contains
  none_emitted [] = refl
  none_emitted (p ∷ ps) = ground (arith, none_emitted ps)

  Inv-end :
      Inv
        (children edges)
        (parents edges)
        ids
        agree
        (gather order [])
        (raise_along (children edges) (parents edges) ids agree order (λ _. 0))
  unfolding contains
  Inv-end =
      Inv-along (children edges) (parents edges) ids agree order [] (λ _. 0)
        (record {
          level_is = λ c m. sym (none_emitted (parents edges c));
          settled = λ c h. cc;
          inside = λ c h. cc;
        })
        (sorted-IsOrder ids (children edges) (parents edges) ids-IsDistinct agree)

  -- On a graph without cycles (some rank falls from every node to its parents) the level of a node is one
  -- more than the highest level of its parents, and 0 where it has none: the length of the longest path
  -- to it from a root. This holds for each id of the list and for each end of an edge.
  pub assign_levels-above :
      (rank : String → ℕ)
      → ((c p : String) → contains (parents edges c) p ≡ true → rank p < rank c)
      → (c : String) → contains (known_ids node_ids edges) c ≡ true
      → assign_levels node_ids edges c ≡ above (assign_levels node_ids edges) (parents edges c)
  unfolding contains
  assign_levels-above rank falls c m =
      let final = raise_along (children edges) (parents edges) ids agree order (λ _. 0) in
      let whole : (p : String)
          → contains (parents edges c) p ≡ true
          → contains (gather order []) p ≡ true =
        λ p h. ground (
          arith,
          contains-gather order [] p,
          sorted_all ids (children edges) (parents edges) ids-IsDistinct agree rank parents-inside
              falls p (parents-inside c p h),
        ) in
      levels-along c
      ∙ Inv-end.level_is c m
      ∙ above_emitted-all (gather order []) final (parents edges c) whole
      ∙ above-ext final (assign_levels node_ids edges) (λ p. sym (levels-along p)) (parents edges c)
