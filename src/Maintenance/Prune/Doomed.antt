-- ===== src/Maintenance/Prune/Doomed.antt =====
-- `Pruner.plan` against what its docstring says: the nodes to delete, and their order.
use ancestree.Prelude.{String, ◌==◌, ◌≡◌, Bool, true, ◌||◌, List, [], all, contains}
use ancestree.Database.{Database}
use ancestree.MetadataStore.Write.{exists}
use ancestree.Kahn.Order.{IsOrder}
use ancestree.Maintenance.Prune.{
  affected, all_parents, region_parents, children_in_region, topological, doom,
}
use ancestree.Maintenance.Prune.Descendants.{Descendant}

-- The target is doomed, and so is a descendant once all of its parents are.
pub data Doomed (db : Database) (target : String) : String → Type 0 where
  chosen : Doomed db target target
  orphaned :
      {n : String}
      → Descendant db target n
      → ((p : String) → contains (all_parents db n) p ≡ true → Doomed db target p)
      → Doomed db target n

module _ (db : Database) (region : List String) where
  abbrev Order : List String → List String → Type 0
  Order = IsOrder region (children_in_region db region) (region_parents db region)

  module _ (target : String) where
    abbrev verdict : List String → String → Bool
    verdict doomed n = (n == target) || all (contains doomed) (all_parents db n)

module _ (db : Database) (target : String) (known : exists db target ≡ true) where
  abbrev region : List String
  region = affected db target

  abbrev topo : List String
  topo = topological db region

  abbrev gone : List String
  gone = doom db target topo []
