-- ===== src/Lineage/Order.antt =====
-- `lineage` returns the ancestors, each once and behind all of its parents.
use mathlib.Core.List.{Memᴰ}
use mathlib.Core.List.Memᴰ
use ancestree.Prelude.{
  ℕ, zero, suc, ◌+◌, ◌≤◌, ◌<◌, String, ◌==◌, ◌≡◌, refl, sym, ◌∙◌, ap, subst, subst₂, inl, inr,
  ⊎_elim, true, some, List, [], ◌∷◌, map, mem-filter, filter-mem, mem-sort_by, sort_by-mem, any,
  contains, contains_of_mem, mem_of_contains, length, arith, List-cases, ok,
}
use ancestree.Database.{Database, EdgeRow}
use ancestree.Lineage.{
  Walker, walk, start, parents_in, opening_cost, by_child, ancestry, ancestry_rows, parents_dict,
  universe, lineage,
}
use ancestree.Lineage.Topological.{IsTopological, contains_ancestors, Ancestor, itself, parent_of}
use ancestree.Lineage.Invariant.{Inv, Inv-start, visit-Inv}
use ancestree.Lineage.Ancestry.{ancestry-IsClosed}
use ancestree.Lineage.Progress.{work, fresh_all, visit-work}

module _ (parents : String → List String) (rank : String → ℕ)
    (lower : (c p : String) → Memᴰ p (parents c) → rank p < rank c) (root : String)
    (us : List String)
    (covers : (a : String) → Ancestor parents root a → contains us a ≡ true) where
  record IsLineage (order : List String) : Type 0 where
    topological : IsTopological parents [] order
    rooted : contains order root ≡ true
    found : (a : String) → contains order a ≡ true → Ancestor parents root a

  IsLineage-of_Inv : (w : Walker) → w.stack ≡ [] → Inv parents rank root w → IsLineage w.order
  IsLineage-of_Inv w e h = record {
    topological = h.topological;
    rooted =
        ⊎_elim (λ d. sym (h.same root) ∙ d)
          (λ (b, m). absurd (Memᴰ.not-nil (subst (Memᴰ (root, b)) e m))) h.rooted;
    found = h.found;
  }

  walk-IsLineage :
      (fuel : ℕ) (w : Walker)
      → Inv parents rank root w
      → work parents us w ≤ fuel
      → (order : List String) × (walk parents fuel w ≡ some (ok order)) × IsLineage order
  unfolding walk
  walk-IsLineage zero w h n = elim (List-cases w.stack) [
    | inl e ↦ (w.order, ground arith, IsLineage-of_Inv w e h)
    | inr (f, rest, e) ↦ absurd (omega (arith, ap length e))
  ]
  walk-IsLineage (suc fuel) w h n = elim (List-cases w.stack) [
    | inl e ↦ (w.order, ground arith, IsLineage-of_Inv w e h)
    | inr ((x, b), rest, e) ↦
        let h' = subst (Inv parents rank root) (λ i. record w { stack = e i }) h in
        let (w', v, k) = visit-Inv parents rank root lower w x b rest h' in
        let less = visit-work parents us w w' x b rest (covers x h'.upward.0) v in
        let (order, r, l) = walk-IsLineage fuel w' k (omega (arith, ap length e)) in
        (order, ground arith, l)
  ]

-- The lists of edge rows that a dictionary is built from.
mem-parents_in :
    (rows : List EdgeRow) (c p : String)
    → Memᴰ p (parents_in rows c)
    → (e : EdgeRow) × Memᴰ e rows × (e.child_id ≡ c) × (e.parent_id ≡ p)
unfolding parents_in
mem-parents_in rows c p m =
    let (e, f, q) = Memᴰ.of_map (λ (e : EdgeRow). e.parent_id) _ m in
    let (r, t) = mem-filter _ e rows f in (e, r, ground arith, q)

parents_in-mem :
    (rows : List EdgeRow) (e : EdgeRow)
    → Memᴰ e rows
    → Memᴰ e.parent_id (parents_in rows e.child_id)
unfolding parents_in
parents_in-mem rows e m =
    Memᴰ.map (λ (r : EdgeRow). r.parent_id) (filter-mem _ e rows m (ground arith))

IsTopological_mono :
    (f g : String → List String) (seen xs : List String)
    → ((c p : String) → contains xs c ≡ true → Memᴰ p (g c) → Memᴰ p (f c))
    → IsTopological f seen xs
    → IsTopological g seen xs
IsTopological_mono f g seen [] k t = tt
IsTopological_mono f g seen (x ∷ xs) k t = (
  t.0,
  λ p m. t.1 p (k x p (contains_of_mem (x ∷ xs) x (Memᴰ.head refl)) m),
  IsTopological_mono f g (x ∷ seen) xs
      (λ c p h. k c p (contains_of_mem (x ∷ xs) c (Memᴰ.tail (mem_of_contains xs c h)))) t.2,
)

Ancestor-mono :
    (f g : String → List String) {n a : String}
    → ((c p : String) → Memᴰ p (f c) → Memᴰ p (g c))
    → Ancestor f n a
    → Ancestor g n a
Ancestor-mono f g k itself = itself
Ancestor-mono f g k (parent_of {a} {p} up m) = parent_of (Ancestor-mono f g k up) (k a p m)

module _ (db : Database) (node_id : String) where
  abbrev dict : String → List String
  dict = parents_dict db node_id

  dict_row :
      (c p : String)
      → Memᴰ p (dict c)
      → (e : EdgeRow) × Memᴰ e db.edge
        × (e.child_id ≡ c)
        × (e.parent_id ≡ p)
        × (contains (ancestry db.edge node_id) c ≡ true)
  unfolding ancestry_rows
  dict_row c p m =
      let (e, r, ec, ep) = mem-parents_in _ c p m in
      let (in_table, in_closure) = mem-filter _ e db.edge (mem-sort_by by_child e _ r) in
      (e, in_table, ec, ep, rw (← ec) in_closure)

  row_dict :
      (e : EdgeRow)
      → Memᴰ e db.edge
      → contains (ancestry db.edge node_id) e.child_id ≡ true
      → Memᴰ e.parent_id (dict e.child_id)
  unfolding ancestry_rows
  row_dict e m c = parents_in-mem _ e (sort_by-mem by_child e _ (filter-mem _ e db.edge m c))

  in_closure : {a : String} → Ancestor dict node_id a → contains (ancestry db.edge node_id) a ≡ true
  in_closure itself = (ancestry-IsClosed db.edge node_id).initial
  in_closure (parent_of {a} {p} up m) =
      let (e, r, ec, ep, c) = dict_row a p m in
      subst (λ b. contains (ancestry db.edge node_id) b ≡ true) ep
        ((ancestry-IsClosed db.edge node_id).recursive e r (rw ec c))

  universe_covers : {a : String} → Ancestor dict node_id a → contains (universe db node_id) a ≡ true
  universe_covers itself = contains_of_mem _ node_id (Memᴰ.head refl)
  universe_covers (parent_of {a} {p} up m) =
      let (e, r, ec, ep) = mem-parents_in _ a p m in
      contains_of_mem _ p (
        Memᴰ.tail (
          subst (λ b. Memᴰ b (map (λ (e : EdgeRow). e.parent_id) (ancestry_rows db node_id))) ep
            (Memᴰ.map (λ (e : EdgeRow). e.parent_id) r)))

-- On a store whose edges lead from a child to a parent of lower rank (so they make no cycle),
-- `lineage` of a node that exists ends, reports no cycle, and returns a list in which the node and
-- each of its ancestors stands exactly once, nothing else stands, and every node stands behind
-- all of its parents.
pub lineage-IsTopological :
    (db : Database) (node_id : String) (rank : String → ℕ)
    → ((e : EdgeRow) → Memᴰ e db.edge → rank e.parent_id < rank e.child_id)
    → any (λ n. n.node_id == node_id) db.node ≡ true
    → (order : List String) × (lineage db node_id ≡ some (ok order))
      × IsTopological (parents_in db.edge) [] order
      × ((a : String) → contains order a ≡ true → Ancestor (parents_in db.edge) node_id a)
      × ((a : String) → Ancestor (parents_in db.edge) node_id a → contains order a ≡ true)
unfolding lineage
lineage-IsTopological db node_id rank falls known =
    let f = dict db node_id in
    let g = parents_in db.edge in
    let lower : (c p : String) → Memᴰ p (f c) → rank p < rank c = λ c p m.
      let (e, r, ec, ep, _) = dict_row db node_id c p m in
      let less = falls e r in
      let same : rank e.child_id ≡ rank c = ap rank ec in
      let same' : rank e.parent_id ≡ rank p = ap rank ep in omega arith in
    let (order, ends, l) =
      walk-IsLineage f rank lower node_id (universe db node_id)
        (λ a up. universe_covers db node_id up) (1 + opening_cost f (universe db node_id))
        (start node_id) (Inv-start f rank node_id)
        (omega (arith, fresh_all f (universe db node_id))) in
    let down : (c p : String) → contains order c ≡ true → Memᴰ p (g c) → Memᴰ p (f c) = λ c p h m.
      let (e, r, ec, ep) = mem-parents_in db.edge c p m in
      let closed = in_closure db node_id (l.found c h) in
      subst₂ (λ a b. Memᴰ a (f b)) ep ec (row_dict db node_id e r (rw ec closed)) in
    let sorted = IsTopological_mono f g [] order down l.topological in
    (
      order,
      rw known ends,
      sorted,
      λ a h. Ancestor-mono f g (up_to db node_id) (l.found a h),
      λ a up. contains_ancestors g order sorted l.rooted up,
    )
  where
    up_to : (at : Database) (n c p : String) → Memᴰ p (dict at n c) → Memᴰ p (parents_in at.edge c)
    up_to at n c p m =
        let (e, r, ec, ep, _) = dict_row at n c p m in
        subst₂ (λ a b. Memᴰ a (parents_in at.edge b)) ep ec (parents_in-mem at.edge e r)
