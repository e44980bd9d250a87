-- ===== src/Kahn.antt =====
-- Kahn's algorithm, the loop that `Pruner.plan` in src/ancestree/maintenance.py runs: nodes whose last
-- parent has been emitted get ready. The top of the stack is the head of the list.
pub mod Counts
pub mod Release
pub mod Order
use mathlib.Core.List.{reverse}
use ancestree.Prelude.{
  length, filter, ℕ, zero, suc, ◌-◌, String, ◌==◌, ◌=?◌, List, [], ◌∷◌, if◌then◌else◌,
}

-- `for child in children_in_region[nid]: indegree[child] -= 1; if indegree[child] == 0: ...`. A child
-- stands there once for each of its parents in the region, so no count goes below zero.
unfoldable pub release : List String → (String → ℕ) → List String → (String → ℕ) × List String
release [] degree ready = (degree, ready)
release (child ∷ children) degree ready =
    let degree' : String → ℕ = λ n. if child == n then degree n - 1 else degree n in
    release children degree' (if degree' child =? 0 then child ∷ ready else ready)

-- `while ready`, on fuel.
unfoldable pub kahn : (String → List String) → ℕ → List String → (String → ℕ) → List String
kahn children zero ready degree = []
kahn children (suc fuel) [] degree = []
kahn children (suc fuel) (nid ∷ ready) degree =
    let (degree', ready') = release (children nid) degree ready in
    nid ∷ kahn children fuel ready' degree'

-- `indegree = {...}; ready = [nid for ... if degree == 0]`, and the loop. Each node gets ready once.
unfoldable pub sorted : List String → (String → List String) → (String → List String) → List String
sorted region children parents =
    kahn children (length region) (reverse (filter (λ nid. length (parents nid) =? 0) region))
      (λ nid. length (parents nid))
