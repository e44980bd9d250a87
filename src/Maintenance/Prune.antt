-- ===== src/Maintenance/Prune.antt =====
-- `Pruner` of src/ancestree/maintenance.py. A set is a list with `contains`, walked in the order of its
-- insertion, and a dict that is filled for every id of the region a function of the id.
pub mod Spares
pub mod Deleted
pub mod Region
pub mod Descendants
pub mod Doomed
use mathlib.Core.List.{Memᴰ, reverse}
use mathlib.Core.List.Memᴰ
use ancestree.Prelude.{
  ℕ, zero, suc, ◌+◌, ◌*◌, ◌-◌, String, text_discrete, ◌==◌, ◌=?◌, ◌≡◌, refl, ◌∙◌, ap, sym, Bool,
  true, false, not, ◌&&◌, ◌||◌, List, [], ◌∷◌, ◌++◌, filter, all, length, take, drop, map, contains,
  if◌then◌else◌, arith, inl, inr, ◌≢◌, Option, none, some, mem-filter, filter-mem, contains_of_mem,
  mem_of_contains, Bool-cases, ok, ◌⊎◌, ⊎_elim,
}
use ancestree.Database.{Database}
use ancestree.Kahn.{sorted}
use ancestree.Exec.{Exec, pure, ◌>>◌}
use ancestree.MetadataStore.Write.{exists}
use ancestree.MetadataStore.Read.{get, children}

-- `stack.pop()` takes the end of a Python list; the stack here has its top first, so that what
-- `extend` puts on comes in reverse.
-- `while stack`, on fuel: what is left on the stack, and `affected`.
unfoldable pub affected_from : Database → ℕ → List String → List String → List String × List String
affected_from db zero stack affected = (stack, affected)
affected_from db (suc fuel) [] affected = ([], affected)
affected_from db (suc fuel) (current ∷ stack) affected =
    let skip = affected_from db fuel stack affected in
    let go =
      affected_from db fuel (reverse (children db current) ++ stack) (affected ++ current ∷ []) in
    if contains affected current then skip else go

-- Each of the n nodes is expanded once, and puts at most n children on the stack.
abbrev pub walk_bound : Database → ℕ
walk_bound db = suc (length db.node * length db.node + length db.node)

unfoldable pub affected : Database → String → List String
affected db node_id = (affected_from db (walk_bound db) (node_id ∷ []) []).1

-- `list(record.parent_id) if record else []`
unfoldable pub all_parents : Database → String → List String
all_parents db nid = elim (get db nid) [ none ↦ [] | some r ↦ r.parent_id ]

-- The p of `sum(1 for p in all_parents[nid] if p in affected)`; their number is `indegree[nid]`.
unfoldable pub region_parents : Database → List String → String → List String
region_parents db region nid = filter (contains region) (all_parents db nid)

-- `children_in_region[nid]`: a child once for each of its edges, in the region's order.
unfoldable pub children_in_region : Database → List String → String → List String
children_in_region db [] nid = []
children_in_region db (child ∷ region) nid =
    map (λ _. child) (filter (λ p. p == nid) (all_parents db child))
    ++ children_in_region db region nid

-- `ready.pop()` takes the end of the list, so the roots stand in reverse on the stack.
unfoldable pub topological : Database → List String → List String
topological db region = sorted region (children_in_region db region) (region_parents db region)

-- `for nid in topo: if nid == node_id or all(p in doomed for p in all_parents[nid]): doomed.add(nid)`
unfoldable pub doom : Database → String → List String → List String → List String
doom db node_id [] doomed = doomed
doom db node_id (nid ∷ topo) doomed =
    let go = doom db node_id topo (doomed ++ nid ∷ []) in
    let spare = doom db node_id topo doomed in
    if (nid == node_id) || all (contains doomed) (all_parents db nid) then go else spare

unfoldable pub plan : Database → String → List String
plan db node_id =
    let topo = topological db (affected db node_id) in
    if exists db node_id then filter (contains (doom db node_id topo [])) (reverse topo) else []

-- `DELETE FROM node WHERE node_id IN (...)` with its cascades.
unfoldable pub delete_rows : List String → Database → Database
delete_rows batch db = record db {
  node = filter (λ n. not (contains batch n.node_id)) db.node;
  edge = filter (λ e. not (contains batch e.child_id) && not (contains batch e.parent_id)) db.edge;
  metadata = filter (λ m. not (contains batch m.owner)) db.metadata;
  artifact = filter (λ a. not (contains batch a.node_id)) db.artifact;
  artifact_chunk = filter (λ r. not (contains batch r.node_id)) db.artifact_chunk;
}

abbrev pub batch_size : ℕ
batch_size = 500

-- `for start in range(0, len(node_ids), 500)`, on fuel; every slice takes at least one id.
unfoldable pub delete_batches : ℕ → List String → Database → Database
delete_batches zero node_ids db = db
delete_batches (suc fuel) [] db = db
delete_batches (suc fuel) (i ∷ node_ids) db =
    delete_batches fuel (drop batch_size (i ∷ node_ids))
      (delete_rows (take batch_size (i ∷ node_ids)) db)

unfoldable pub delete : List String → Database → Database
delete node_ids = delete_batches (length node_ids) node_ids
