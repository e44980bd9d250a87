-- ===== src/MetadataStore/Find/Answer.antt =====
-- What `find` answers, against the nodes that match every filter.
use ancestree.Prelude.{
  String, ◌≡◌, refl, ap, ap₂, sym, ◌∙◌, Bool, true, ◌&&◌, Option, none, some, List, [], ◌∷◌, map,
  filter, all, sort_by, filter-filter, filter-ext, filter-sort_by, IsOrdering, text_leb_total,
  text_leb_trans, IsDistinct, ok, arith,
}
use ancestree.Database.{Database, NodeRow}
use ancestree.MetadataStore.Read.{by_age}
use ancestree.MetadataStore.Find.{
  Argument, Driver, Stages, Condition, holds, select, stored, evaluate, matched, Predicate, Warning,
  no_stages, same_parents, narrow, find, same_texts,
}
use ancestree.MetadataStore.Find.Parents.{parent_lists-parents_of}
use ancestree.MetadataStore.Find.Entries.{HasKeys, lookup-meta_values}
use ancestree.MetadataStore.Find.Accepts.{
  supported, column_test, entry_accepts, predicate_accepts, accepts, value_of, passes,
}
use ancestree.MetadataStore.Find.Staging.{keys, parents_fit, stages_fit, classify-Staged}
use ancestree.MetadataStore.Find.Conditions.{Stated, statement-Stated}

by_age-IsOrdering : IsOrdering by_age
by_age-IsOrdering = record {
  total = λ a b. ground (arith, text_leb_total a.node_id b.node_id);
  transitive = λ a b c h k. ground (arith, text_leb_trans a.node_id b.node_id c.node_id);
}

module _ (driver : Driver) (db : Database) where
  module _ (unique : HasKeys db.metadata) where
    stored-value_of : (n : NodeRow) (key : String) → stored db n key ≡ value_of driver db n key
    unfolding stored value_of
    stored-value_of n key =
        rw (parent_lists-parents_of db n.node_id, lookup-meta_values n.node_id key db unique) refl

    evaluate-all :
        (ps : List (String × Predicate)) (n : NodeRow)
        → (evaluate (stored db n) ps).0 ≡ all (predicate_accepts driver db n) ps
    unfolding evaluate all
    evaluate-all [] n = refl
    evaluate-all ((key, p) ∷ ps) n =
        ground (arith, ap (λ c. passes (p c)) (stored-value_of n key), evaluate-all ps n)

    matched-filter :
        (ps : List (String × Predicate)) (rows : List NodeRow)
        → (matched db ps rows).0
          ≡ map (λ n. n.node_id) (filter (λ n. all (predicate_accepts driver db n) ps) rows)
    unfolding matched filter
    matched-filter ps [] = refl
    matched-filter ps (n ∷ rows) = ground (arith, evaluate-all ps n, matched-filter ps rows)

    no_predicates : (rows : List NodeRow) → filter (λ _. true) rows ≡ rows
    unfolding filter
    no_predicates [] = refl
    no_predicates (n ∷ rows) = ap (◌∷◌ n) (no_predicates rows)

    narrow-stage :
        (ps : List (String × Predicate)) (rows : List NodeRow)
        → (elim ps as (λ _. List String × List Warning) [
          | [] ↦ (map (λ n. n.node_id) rows, [])
          | p ∷ rest ↦ matched db (p ∷ rest) rows
        ]).0
          ≡ map (λ n. n.node_id) (filter (λ n. all (predicate_accepts driver db n) ps) rows)
    unfolding all
    narrow-stage [] rows = ap (map (λ n. n.node_id)) (sym (no_predicates rows))
    narrow-stage (p ∷ ps) rows = matched-filter (p ∷ ps) rows

    same_parents-fit :
        (wanted : Option (List String)) (n : NodeRow)
        → same_parents db wanted n ≡ parents_fit driver db n wanted
    same_parents-fit none n = refl
    same_parents-fit (some ids) n =
        ap (λ ps. same_texts ps ids) (parent_lists-parents_of db n.node_id)

    candidates-filter :
        (s : Stages) (cs : List Condition) (tests : NodeRow → Bool)
        → Stated driver db tests cs
        → filter (same_parents db s.parent_eq) (select driver db cs)
          ≡ filter (λ n. tests n && parents_fit driver db n s.parent_eq) (sort_by by_age db.node)
    unfolding select
    candidates-filter s cs tests k =
        ap (filter (same_parents db s.parent_eq)) (
          sym (
            filter-sort_by by_age by_age-IsOrdering (λ n. all (λ c. holds driver db c n) cs)
              db.node))
        ∙ filter-filter (λ n. all (λ c. holds driver db c n) cs) (same_parents db s.parent_eq)
            (sort_by by_age db.node)
        ∙ filter-ext _ _ (λ n. ap₂ (λ a b. a && b) (k.meets n) (same_parents-fit s.parent_eq n))
            (sort_by by_age db.node)

    narrow-filter :
        (s : Stages) (cs : List Condition)
        → Stated driver db
            (λ n.
              all (column_test driver db n) s.column_eq
              && all (entry_accepts driver db n) s.metadata_eq)
            cs
        → (narrow driver db s cs).0
          ≡ map (λ n. n.node_id) (filter (stages_fit driver db s) (sort_by by_age db.node))
    unfolding narrow
    narrow-filter s cs k =
        narrow-stage s.predicates (filter (same_parents db s.parent_eq) (select driver db cs))
        ∙ ap
            (λ rows.
              map (λ n. n.node_id)
                (filter (λ n. all (predicate_accepts driver db n) s.predicates) rows))
            (candidates-filter s cs _ k)
        ∙ ap (map (λ n. n.node_id)) (
            filter-filter _ _ (sort_by by_age db.node)
            ∙ filter-ext _ _ (λ n. ground arith) (sort_by by_age db.node))

  -- A search whose values the driver takes ends with an answer: the ids of exactly those nodes that match
  -- every filter, each judged by itself from what `get` and `metadata_for` say of the node, oldest first. The
  -- filters are under distinct keys, as those of a call are, and no two rows of the metadata have the same
  -- node and key.
  pub find-accepts :
      (filters : List (String × Argument))
      → HasKeys db.metadata
      → IsDistinct (keys filters)
      → all (supported driver) filters ≡ true
      → (found : List String × List Warning) × (find driver db filters ≡ ok found)
        × (found.0
            ≡ map
                (λ n. n.node_id)
                (sort_by by_age (filter (λ n. all (accepts driver db n) filters) db.node)))
  unfolding find all
  find-accepts filters unique distinct takes =
      let (s, k) = classify-Staged driver db filters no_stages takes distinct refl in
      let (cs, q, stated) = statement-Stated driver db unique s (k.fine (ground arith)) in
      (
        narrow driver db s cs,
        rw (k.classified, q) refl,
        narrow-filter unique s cs stated
            ∙ ap (map (λ n. n.node_id)) (
                filter-ext _ _ (λ n. k.fits n ∙ ground arith) (sort_by by_age db.node)
                ∙ filter-sort_by by_age by_age-IsOrdering (λ n. all (accepts driver db n) filters)
                    db.node),
      )
