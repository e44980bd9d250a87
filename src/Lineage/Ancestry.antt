-- ===== src/Lineage/Ancestry.antt =====
-- The recursive query of `lineage` ends with a set that is closed under parents.
use mathlib.Core.List.{Memᴰ}
use mathlib.Core.List.Memᴰ
use ancestree.Prelude.{
  ℕ, zero, suc, ◌+◌, ◌≤◌, String, text_discrete, ◌==◌, ◌≡◌, ap, sym, ◌∙◌, true, false, not, ◌||◌,
  List, [], ◌∷◌, ◌++◌, filter, filter-mem, contains, contains-append, contains_of_mem, length,
  length-filter-le, length-append, Bool-cases, inl, inr, arith,
}
use ancestree.Database.{EdgeRow}
use ancestree.Lineage.{parents_in, ancestry_from, ancestry}

-- The edges that have added no row yet.
waiting : List EdgeRow → List String → ℕ
waiting edges found = length (filter (λ e. not (contains found e.child_id)) edges)

waiting-concat :
    (edges : List EdgeRow) (found : List String) (id : String)
    → contains found id ≡ false
    → waiting edges (found ++ id ∷ []) + length (parents_in edges id) ≡ waiting edges found
unfolding waiting parents_in filter contains
waiting-concat [] found id h = omega arith
waiting-concat (e ∷ edges) found id h =
    let now = contains-append found (id ∷ []) e.child_id in
    elim (text_discrete e.child_id id) [
      | yes q ↦
          let fresh : contains found e.child_id ≡ false = ap (contains found) q ∙ h in
          let same : (id == e.child_id) ≡ true = ground (arith, sym q) in
          ground (arith, waiting-concat edges found id h)
      | no q ↦ ground (arith, λ (r : id ≡ e.child_id). q (sym r), waiting-concat edges found id h)
    ]

module _ (edges : List EdgeRow) (node_id : String) where
  -- The node is in the set, and so is each parent of a child that is.
  pub record IsClosed (found : List String) : Type 0 where
    pub initial : contains found node_id ≡ true
    pub recursive :
        (e : EdgeRow)
        → Memᴰ e edges
        → contains found e.child_id ≡ true
        → contains found e.parent_id ≡ true

  record Inv (queue found : List String) : Type 0 where
    initial : (contains found node_id || contains queue node_id) ≡ true
    recursive :
        (e : EdgeRow)
        → Memᴰ e edges
        → contains found e.child_id ≡ true
        → (contains found e.parent_id || contains queue e.parent_id) ≡ true

  Inv-IsClosed : (found : List String) → Inv [] found → IsClosed found
  unfolding contains
  Inv-IsClosed found k = record {
    initial = ground (arith, k.initial);
    recursive = λ e m h. ground (arith, k.recursive e m h);
  }

  module _ (id : String) (queue found : List String) (k : Inv (id ∷ queue) found) where
    Inv-drop : contains found id ≡ true → Inv queue found
    unfolding contains
    Inv-drop h =
        let same : (c : String) → id ≡ c → contains found c ≡ true =
          λ c q. ap (contains found) (sym q) ∙ h in
        record {
          initial = elim (text_discrete id node_id) [
            | yes q ↦ ground (arith, same node_id q)
            | no q ↦ ground (arith, k.initial)
          ];
          recursive = λ e m c. elim (text_discrete id e.parent_id) [
            | yes q ↦ ground (arith, same e.parent_id q)
            | no q ↦ ground (arith, k.recursive e m c)
          ];
        }

    found_now : (c : String) → contains (found ++ id ∷ []) c ≡ (contains found c || (id == c))
    unfolding contains
    found_now c = contains-append found (id ∷ []) c ∙ ground arith

    parent_added :
        (e : EdgeRow)
        → Memᴰ e edges
        → id ≡ e.child_id
        → contains (parents_in edges id) e.parent_id ≡ true
    unfolding parents_in
    parent_added e m q = contains_of_mem (parents_in edges id) e.parent_id (
        Memᴰ.map (λ (r : EdgeRow). r.parent_id)
          (filter-mem (λ (r : EdgeRow). r.child_id == id) e edges m (ground (arith, sym q))))

    Inv-add : Inv (queue ++ parents_in edges id) (found ++ id ∷ [])
    unfolding contains
    Inv-add = record {
      initial = ground (
        arith,
        k.initial,
        found_now node_id,
        contains-append queue (parents_in edges id) node_id,
      );
      recursive = λ e m c.
          let now = found_now e.parent_id in
          let next = contains-append queue (parents_in edges id) e.parent_id in
          elim (text_discrete id e.child_id) [
            | yes q ↦ let added = parent_added e m q in ground arith
            | no q ↦
                let old : contains found e.child_id ≡ true = ground (arith, found_now e.child_id) in
                ground (arith, k.recursive e m old)
          ];
    }

  ancestry_from-IsClosed :
      (fuel : ℕ) (queue found : List String)
      → Inv queue found
      → length queue + waiting edges found ≤ fuel
      → IsClosed (ancestry_from edges fuel queue found)
  unfolding ancestry_from
  ancestry_from-IsClosed zero [] found k h = Inv-IsClosed found k
  ancestry_from-IsClosed zero (id ∷ queue) found k h = absurd (omega (arith, h))
  ancestry_from-IsClosed (suc fuel) [] found k h = Inv-IsClosed found k
  ancestry_from-IsClosed (suc fuel) (id ∷ queue) found k h = elim (Bool-cases (contains found id)) [
    | inl e ↦
        rw e
          (ancestry_from-IsClosed fuel queue found (Inv-drop id queue found k e) (omega (arith, h)))
    | inr e ↦ rw e (
        ancestry_from-IsClosed fuel (queue ++ parents_in edges id) (found ++ id ∷ [])
          (Inv-add id queue found k)
          (omega
            (arith, h, length-append queue (parents_in edges id), waiting-concat edges found id e)))
  ]

  all_waiting : waiting edges [] ≤ length edges
  unfolding waiting contains
  all_waiting = length-filter-le (λ (e : EdgeRow). true) edges

  -- Each edge is followed once, so that one round more than there are edges is enough.
  pub ancestry-IsClosed : IsClosed (ancestry edges node_id)
  unfolding ancestry contains
  ancestry-IsClosed =
      ancestry_from-IsClosed (suc (length edges)) (node_id ∷ []) []
        (record { initial = ground arith; recursive = λ e m h. cc }) (omega (arith, all_waiting))
