-- ===== src/Tests/Pruning.antt =====
-- A node and its descendants are pruned.
use mathlib.Core.List.{[], ◌∷◌}
use ancestree.Prelude.{text_discrete, ◌≡◌, refl, any, true}
use ancestree.MetadataStore.Write.{exists}
use ancestree.MetadataStore.Read.{node_row as find_row}
use ancestree.Maintenance.Prune.{affected_from, walk_bound, affected}
use ancestree.Maintenance.Prune.Descendants.{IsRegion, affected-IsRegion}
use ancestree.Maintenance.Prune.Doomed.{Doomed}
use ancestree.Tests.Graph.{join}

a_known : exists join "a" ≡ true
unfolding exists any text_discrete
a_known = refl

affected-IsRegion_example :
    ((affected_from join (walk_bound join) ("a" ∷ []) []).0 ≡ [])
    × IsRegion join "a" (affected join "a")
affected-IsRegion_example = affected-IsRegion join "a" a_known
