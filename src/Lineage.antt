-- ===== src/Lineage.antt =====
-- `MetadataStore.lineage` of src/ancestree/db/metadata_store.py: the walk over the ancestry.
pub mod Topological
pub mod Invariant
pub mod Progress
pub mod Ancestry
pub mod Order
use ancestree.Prelude.{
  ℕ, zero, suc, ◌+◌, String, ◌==◌, Bool, true, false, Option, none, some, List, [], ◌∷◌, ◌++◌, map,
  filter, any, contains, discard, length, if◌then◌else◌, Result, ok, err, integrity_error,
  node_not_found, leb, text_leb, sort_by,
}
use ancestree.Database.{Database, EdgeRow}

-- A node to visit, and whether its parents have been pushed.
abbrev pub Frame : Type 0
Frame = String × Bool

-- The variables of the loop; the top of the stack is the head of the list.
pub record Walker : Type 0 where
  pub order : List String
  pub done : List String
  pub on_stack : List String
  pub stack : List Frame

-- `for parent_id in ...: if parent_id not in done: stack.append((parent_id, False))`
unfoldable pub push_parents : List String → List String → List Frame → List Frame
push_parents done [] stack = stack
push_parents done (p ∷ ps) stack =
    push_parents done ps (if contains done p then stack else (p, false) ∷ stack)

module _ (parents : String → List String) where
  -- The loop body for the popped `current`; `rest` is the stack behind it.
  unfoldable pub visit : Walker → String → Bool → List Frame → Result Walker
  visit w current expanded rest =
      if contains w.done current
      then ok (record w { stack = rest })
      else if expanded
      then ok (record {
        order = w.order ++ current ∷ [];
        done = current ∷ w.done;
        on_stack = discard w.on_stack current;
        stack = rest;
      })
      else if contains w.on_stack current
      then err integrity_error
      else ok (record w {
        on_stack = current ∷ w.on_stack;
        stack = push_parents w.done (parents current) ((current, true) ∷ rest);
      })

  -- `while stack`, on fuel: `none` means that it ran out.
  unfoldable pub walk : ℕ → Walker → Option (Result (List String))
  walk zero w = elim w.stack [ [] ↦ some (ok w.order) | _ ∷ _ ↦ none ]
  walk (suc fuel) w = elim w.stack [
    | [] ↦ some (ok w.order)
    | frame ∷ rest ↦ elim (visit w frame.0 frame.1 rest) [
      | err e ↦ some (err e)
      | ok w' ↦ walk fuel w'
    ]
  ]

abbrev pub start : String → Walker
start node_id = record { order = []; done = []; on_stack = []; stack = (node_id, false) ∷ [] }

-- The parents that a list of edge rows gives a child, in the order of the rows.
unfoldable pub parents_in : List EdgeRow → String → List String
parents_in rows child = map (λ e. e.parent_id) (filter (λ e. e.child_id == child) rows)

-- A bound on the pushes: every node of the list once, and its parents.
unfoldable pub opening_cost : (String → List String) → List String → ℕ
opening_cost parents [] = 0
opening_cost parents (u ∷ us) = 1 + length (parents u) + opening_cost parents us

abbrev by_child : EdgeRow → EdgeRow → Bool
by_child a b =
    if a.child_id == b.child_id then leb a.ordinal b.ordinal else text_leb a.child_id b.child_id

-- `WITH RECURSIVE ancestry(id) AS (SELECT ? UNION SELECT e.parent_id FROM edge e JOIN ancestry a ON
-- e.child_id = a.id)`: SQLite takes one row after another from a queue and adds what the recursive
-- SELECT makes of it; a row that UNION has had is dropped. Every edge adds at most one row.
unfoldable pub ancestry_from : List EdgeRow → ℕ → List String → List String → List String
ancestry_from edges zero queue found = found
ancestry_from edges (suc fuel) [] found = found
ancestry_from edges (suc fuel) (id ∷ queue) found =
    let drop = ancestry_from edges fuel queue found in
    let add = ancestry_from edges fuel (queue ++ parents_in edges id) (found ++ id ∷ []) in
    if contains found id then drop else add

unfoldable pub ancestry : List EdgeRow → String → List String
ancestry edges node_id = ancestry_from edges (suc (length edges)) (node_id ∷ []) []

-- `SELECT child_id, parent_id ... WHERE child_id IN (SELECT id FROM ancestry) ORDER BY child_id, ordinal`
unfoldable pub ancestry_rows : Database → String → List EdgeRow
unfolding by_child
ancestry_rows db node_id =
    sort_by by_child (filter (λ e. contains (ancestry db.edge node_id) e.child_id) db.edge)

-- The dictionary `parents`, read by `parents.get(current, [])`.
abbrev pub parents_dict : Database → String → String → List String
parents_dict db node_id = parents_in (ancestry_rows db node_id)

-- Every node that the walk can meet.
abbrev pub universe : Database → String → List String
universe db node_id = node_id ∷ map (λ (e : EdgeRow). e.parent_id) (ancestry_rows db node_id)

unfoldable pub lineage : Database → String → Option (Result (List String))
lineage db node_id =
    if any (λ n. n.node_id == node_id) db.node
    then walk (parents_dict db node_id)
        (1 + opening_cost (parents_dict db node_id) (universe db node_id)) (start node_id)
    else some (err node_not_found)
