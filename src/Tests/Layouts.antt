-- ===== src/Tests/Layouts.antt =====
-- The levels of a small graph.
use ancestree.Prelude.{
  ◌<◌, String, text_discrete, ◌≡◌, refl, ap, subst, true, List, [], ◌∷◌, filter, contains, arith,
}
use ancestree.Web.Graph.{Edge, parents, add_key, add_ids, add_edges, known_ids, assign_levels}
use ancestree.Web.Graph.Levels.{above}
use ancestree.Web.Graph.Longest.{assign_levels-above}
use ancestree.Tests.Graph.{depth}

abbrev arrows : List Edge
arrows = ("a", "b") ∷ ("a", "c") ∷ ("b", "c") ∷ []

arrows_rank : (c p : String) → contains (parents arrows c) p ≡ true → depth p < depth c
unfolding parents filter contains text_discrete
arrows_rank c p h = elim (text_discrete "b" c) [
  | yes e ↦
      subst (λ n. depth p < depth n) e (ground (arith, ap (λ n. contains (parents arrows n) p) e))
  | no b ↦ elim (text_discrete "c" c) [
    | yes e ↦
        subst (λ n. depth p < depth n) e (ground (arith, ap (λ n. contains (parents arrows n) p) e))
    | no d ↦ absurd (ground (arith, h))
  ]
]

assign_levels-above_example :
    assign_levels ("c" ∷ "a" ∷ []) arrows "c"
    ≡ above (assign_levels ("c" ∷ "a" ∷ []) arrows) (parents arrows "c")
unfolding known_ids add_ids add_edges add_key contains text_discrete
assign_levels-above_example = assign_levels-above ("c" ∷ "a" ∷ []) arrows depth arrows_rank "c" refl
