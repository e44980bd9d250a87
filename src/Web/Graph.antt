-- ===== src/Web/Graph.antt =====
-- The layout skeleton of src/ancestree/web/graph.py: `assign_levels` and `build_graph`.
pub mod Levels
pub mod Longest
use Prim.Native.String
use mathlib.Core.List.{reverse, flatten}
use ancestree.Prelude.{
  ℕ, zero, suc, ◌+◌, max, String, ◌==◌, ◌=?◌, Bool, List, [], ◌∷◌, ◌++◌, map, filter, contains,
  length, if◌then◌else◌, Result, ok, ◌>>=◌,
}
use ancestree.Database.{Database}
use ancestree.Kahn.{release}
use ancestree.MetadataStore.Write.{NodeRecord}
use ancestree.MetadataStore.Find.{Driver}
use ancestree.Store.Search.{find_nodes}

-- An edge as (parent, child).
abbrev pub Edge : Type 0
Edge = String × String

-- `children[p]`, and the parents on whose number `indegree[c]` stands.
unfoldable pub children : List Edge → String → List String
children edges p = map (λ e. e.1) (filter (λ e. e.0 == p) edges)

unfoldable pub parents : List Edge → String → List String
parents edges c = map (λ e. e.0) (filter (λ e. e.1 == c) edges)

-- A key of a dict that is set or counted up.
unfoldable pub add_key : List String → String → List String
add_key keys key = if contains keys key then keys else keys ++ key ∷ []

unfoldable pub add_ids : List String → List String → List String
add_ids keys [] = keys
add_ids keys (id ∷ ids) = add_ids (add_key keys id) ids

unfoldable pub add_edges : List String → List Edge → List String
add_edges keys [] = keys
add_edges keys ((parent, child) ∷ edges) = add_edges (add_key (add_key keys child) parent) edges

-- The keys of `indegree`, in the order of their insertion.
unfoldable pub known_ids : List String → List Edge → List String
known_ids node_ids edges = add_edges (add_ids [] node_ids) edges

-- `for child in children.get(current, []): level[child] = max(level[child], level[current] + 1)`
unfoldable pub raise_children : String → List String → (String → ℕ) → String → ℕ
raise_children current [] level = level
raise_children current (child ∷ cs) level =
    let level' : String → ℕ =
      λ n. if child == n then max (level child) (level current + 1) else level n in
    raise_children current cs level'

-- `while ready`, on fuel: each id gets ready once.
unfoldable pub level_loop :
    (String → List String) → ℕ → List String → (String → ℕ) → (String → ℕ) → String → ℕ
level_loop below zero ready degree level = level
level_loop below (suc fuel) [] degree level = level
level_loop below (suc fuel) (current ∷ ready) degree level =
    let (degree', ready') = release (below current) degree ready in
    level_loop below fuel ready' degree' (raise_children current (below current) level)

unfoldable pub assign_levels : List String → List Edge → String → ℕ
assign_levels node_ids edges =
    let indegree : String → ℕ = λ c. length (parents edges c) in
    let ids = known_ids node_ids edges in
    level_loop (children edges) (length ids) (reverse (filter (λ c. indegree c =? 0) ids)) indegree
      (λ _. 0)

pub record GraphNode : Type 0 where
  pub id : String
  pub label : String
  pub group : String
  pub level : ℕ
  pub healthy : Bool

pub record Graph : Type 0 where
  pub nodes : List GraphNode
  pub edges : List Edge

unfoldable pub edges_of : List NodeRecord → List Edge
edges_of [] = []
edges_of (r ∷ records) = map (λ p. (p, r.row.node_id)) r.parent_id ++ edges_of records

unfoldable pub graph_of : List NodeRecord → Graph
graph_of records =
    let edges = edges_of records in
    let levels = assign_levels (map (λ r. r.row.node_id) records) edges in
    record {
      nodes =
          map
            (λ r. record {
              id = r.row.node_id;
              label = String.◌++◌ r.row.step_type (String.◌++◌ "\n" r.row.node_id);
              group = r.row.step_type;
              level = levels r.row.node_id;
              healthy = r.row.healthy;
            })
            records;
      edges = edges;
    }

unfoldable pub build_graph : Driver → Database → Result Graph
build_graph driver db = find_nodes driver db [] >>= λ records. ok (graph_of records)
