-- ===== src/Tests/Graph.antt =====
-- The walks over the graph of nodes.
use mathlib.Core.List.{Memᴰ}
use mathlib.Core.List.Memᴰ
use ancestree.Prelude.{
  ℕ, ◌<◌, String, text_discrete, ◌==◌, ◌≡◌, refl, ⊎_elim, true, some, List, [], ◌∷◌, any, contains,
  arith, if◌then◌else◌, ok,
}
use ancestree.Database.{Database, EdgeRow, empty}
use ancestree.Lineage.{lineage, parents_in}
use ancestree.Lineage.Topological.{IsTopological, Ancestor}
use ancestree.Lineage.Order.{lineage-IsTopological}
use ancestree.Tests.Sample.{node_row}

-- A join: c has the parents a and b, and b has the parent a.
abbrev pub join : Database
join = record empty {
  node = node_row "a" ∷ node_row "b" ∷ node_row "c" ∷ [];
  edge =
      record { child_id = "b"; parent_id = "a"; ordinal = 0 }
      ∷ record { child_id = "c"; parent_id = "a"; ordinal = 0 }
      ∷ record { child_id = "c"; parent_id = "b"; ordinal = 1 }
      ∷ [];
}

abbrev pub depth : String → ℕ
depth n = if n == "a" then 0 else if n == "b" then 1 else 2

pub join_falls : (e : EdgeRow) → Memᴰ e join.edge → depth e.parent_id < depth e.child_id
unfolding text_discrete
join_falls e m =
    ⊎_elim (λ h. rw h (omega arith))
      (λ m'.
        ⊎_elim (λ h. rw h (omega arith))
          (λ m''.
            ⊎_elim (λ h. rw h (omega arith)) (λ none_left. absurd (Memᴰ.not-nil none_left))
              (Memᴰ.cases_cons m''))
          (Memᴰ.cases_cons m'))
      (Memᴰ.cases_cons m)

lineage-IsTopological_example :
    (order : List String) × (lineage join "c" ≡ some (ok order))
    × IsTopological (parents_in join.edge) [] order
    × ((a : String) → contains order a ≡ true → Ancestor (parents_in join.edge) "c" a)
    × ((a : String) → Ancestor (parents_in join.edge) "c" a → contains order a ≡ true)
unfolding any text_discrete
lineage-IsTopological_example = lineage-IsTopological join "c" depth join_falls refl
