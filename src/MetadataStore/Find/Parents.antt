-- ===== src/MetadataStore/Find/Parents.antt =====
-- The parents that one query gathers for all nodes are those that `get` gives each node.
use ancestree.Prelude.{
  String, text_discrete, ◌==◌, ◌≡◌, ap, sym, ◌∙◌, true, text_leb, text_leb_total, text_leb_trans,
  IsOrdering, filter-sort_by, sort_by-agree, All-passed, ap₂, sort_by, filter, List, [], ◌∷◌, ◌++◌,
  map, append-nil, append_assoc, arith,
}
use ancestree.Database.{Database, EdgeRow}
use ancestree.MetadataStore.Read.{Dict, lookup, insert, edge_order, parents_of}
use ancestree.MetadataStore.Batches.{lookup-insert}
use ancestree.MetadataStore.Find.{by_child, or_none, add_parents, parent_lists}

by_child-IsOrdering : IsOrdering by_child
by_child-IsOrdering = record {
  total = λ a b. ground (arith, text_leb_total a.child_id b.child_id);
  transitive = λ a b c h k. ground (
    arith,
    text_leb_trans a.child_id b.child_id c.child_id,
    text_leb_trans b.child_id c.child_id a.child_id,
    text_leb_trans c.child_id a.child_id b.child_id,
  );
}

lookup-add_parents :
    (rows : List EdgeRow) (d : Dict (List String)) (c : String)
    → or_none (lookup (add_parents rows d) c)
      ≡ or_none (lookup d c) ++ map (λ e. e.parent_id) (filter (λ e. e.child_id == c) rows)
unfolding add_parents filter
lookup-add_parents [] d c = sym (append-nil (or_none (lookup d c)))
lookup-add_parents (e ∷ rows) d c =
    let old = or_none (lookup d e.child_id) ++ e.parent_id ∷ [] in
    lookup-add_parents rows (insert e.child_id old d) c
    ∙ ap
        (λ o.
          or_none o
          ++ map (λ (r : EdgeRow). r.parent_id) (filter (λ (r : EdgeRow). r.child_id == c) rows))
        (lookup-insert e.child_id old d c)
    ∙ elim (text_discrete e.child_id c) [
      | yes q ↦
          let same : or_none (lookup d e.child_id) ≡ or_none (lookup d c) =
            ap (λ i. or_none (lookup d i)) q in
          ground (
            arith,
            append_assoc (or_none (lookup d e.child_id)) (e.parent_id ∷ []) (
                map (λ (r : EdgeRow). r.parent_id)
                  (filter (λ (r : EdgeRow). r.child_id == c) rows)),
          )
      | no q ↦ ground arith
    ]

-- Rows of one child are in the order of their ordinals.
sort_by-one_child :
    (edges : List EdgeRow) (c : String)
    → sort_by by_child (filter (λ e. e.child_id == c) edges)
      ≡ sort_by edge_order (filter (λ e. e.child_id == c) edges)
sort_by-one_child edges c =
    sort_by-agree by_child edge_order (λ e. (e.child_id == c) ≡ true)
      (λ a b h k. elim (text_discrete a.child_id b.child_id) [
        | yes q ↦
            let same : text_leb a.child_id b.child_id ≡ text_leb b.child_id a.child_id =
              ap₂ text_leb q (sym q) in
            ground (arith, text_leb_total a.child_id b.child_id)
        | no q ↦ absurd (ground arith)
      ])
      (filter (λ e. e.child_id == c) edges) (All-passed (λ e. e.child_id == c) edges)

pub parent_lists-parents_of :
    (db : Database) (c : String) → or_none (lookup (parent_lists db) c) ≡ parents_of db.edge c
unfolding parent_lists parents_of lookup
parent_lists-parents_of db c =
    lookup-add_parents (sort_by by_child db.edge) [] c
    ∙ ap (map (λ (e : EdgeRow). e.parent_id)) (
        filter-sort_by by_child by_child-IsOrdering (λ (e : EdgeRow). e.child_id == c) db.edge
        ∙ sort_by-one_child db.edge c)
