-- ===== src/Maintenance/Prune/Spares.antt =====
-- What a surviving parent means for a plan of `Pruner`.
use ancestree.Prelude.{
  String, ◌≡◌, true, ◌||◌, List, [], ◌∷◌, ◌++◌, all, contains, contains-append, arith, ◌⊎◌,
}
use ancestree.Database.{Database}
use ancestree.Maintenance.Prune.{all_parents, doom}

module _ (db : Database) (node_id : String) where
  -- Everything doomed but the target has only doomed parents.
  abbrev IsClosed : List String → Type 0
  IsClosed doomed =
      (n : String)
      → contains doomed n ≡ true
      → (n ≡ node_id) ⊎ (all (contains doomed) (all_parents db n) ≡ true)

  pub doom-from :
      (topo doomed : List String) (n : String)
      → contains (doom db node_id topo doomed) n ≡ true
      → (contains doomed n || contains topo n) ≡ true
  unfolding doom contains
  doom-from [] doomed n h = ground arith
  doom-from (nid ∷ topo) doomed n h = ground (
    arith,
    doom-from topo (doomed ++ nid ∷ []) n,
    doom-from topo doomed n,
    contains-append doomed (nid ∷ []) n,
  )
