-- ===== src/ChunkStore/Recipes.antt =====
-- The recipe of an artifact: what `add_artifact` inserts is what a read selects.
use ancestree.Prelude.{
  ◌=?◌, ◌≤◌, Bool-cases, inl, inr, ℕ, ◌+◌, String, ◌==◌, ◌≡◌, refl, ◌∙◌, ap, Bool, true, false,
  ◌&&◌, List, [], ◌∷◌, ◌++◌, map, filter, any, any-append, All, arith, find?, find?-append_hit,
  find?-append_miss, any-false_of_find?, some, none, sort_by_sorted, IsAscending, append-nil,
  append_assoc, Result, ok,
}
use ancestree.Database.{Database, ArtifactRow, RecipeRow}
use ancestree.Exec.{for_each}
use ancestree.ChunkStore.Write.{has_chunk}
use ancestree.ChunkStore.Artifact.{
  artifact_row, has_artifact, recipe_rows, by_ordinal, recipe, has_recipe, insert_recipe, enumerate,
}

pub filter-append {ℓ} :
    {A : Type ℓ} (p : A → Bool) (xs ys : List A) → filter p (xs ++ ys) ≡ filter p xs ++ filter p ys
unfolding filter
filter-append p [] ys = refl
filter-append p (x ∷ xs) ys = ground (arith, filter-append p xs ys)

pub recipe_rows-append :
    (rows more : List RecipeRow) (n p : String)
    → recipe_rows (rows ++ more) n p ≡ recipe_rows rows n p ++ recipe_rows more n p
unfolding recipe_rows
recipe_rows-append rows more n p = filter-append _ rows more

module _ (n p : String) where
  pub recipe_rows-enumerate_self :
      (k : ℕ) (ds : List String) → recipe_rows (enumerate n p k ds) n p ≡ enumerate n p k ds
  unfolding recipe_rows enumerate filter
  recipe_rows-enumerate_self k [] = refl
  recipe_rows-enumerate_self k (d ∷ ds) = ground (arith, recipe_rows-enumerate_self (k + 1) ds)

  pub recipe_rows-enumerate_other :
      (n' p' : String) (k : ℕ) (ds : List String)
      → ((n == n') && (p == p')) ≡ false
      → recipe_rows (enumerate n p k ds) n' p' ≡ []
  unfolding recipe_rows enumerate filter
  recipe_rows-enumerate_other n' p' k [] h = refl
  recipe_rows-enumerate_other n' p' k (d ∷ ds) h =
      rw h (recipe_rows-enumerate_other n' p' (k + 1) ds h)

  digests-enumerate :
      (k : ℕ) (ds : List String) → map (λ (r : RecipeRow). r.digest) (enumerate n p k ds) ≡ ds
  unfolding enumerate
  digests-enumerate k [] = refl
  digests-enumerate k (d ∷ ds) = ap (◌∷◌ d) (digests-enumerate (k + 1) ds)

  enumerate-IsAscending : (k : ℕ) (ds : List String) → IsAscending by_ordinal (enumerate n p k ds)
  unfolding enumerate
  enumerate-IsAscending k [] = tt
  enumerate-IsAscending k (d ∷ []) = tt
  enumerate-IsAscending k (d ∷ d' ∷ ds) = (ground arith, enumerate-IsAscending (k + 1) (d' ∷ ds))

  -- An artifact without recipe rows before has exactly the inserted recipe.
  pub recipe-enumerate :
      (rows : List RecipeRow) (ds : List String)
      → recipe_rows rows n p ≡ []
      → recipe (rows ++ enumerate n p 0 ds) n p ≡ ds
  unfolding recipe
  recipe-enumerate rows ds h = rw recipe_rows-append (
      rw h (
        rw recipe_rows-enumerate_self (
          rw (sort_by_sorted by_ordinal (enumerate n p 0 ds) (enumerate-IsAscending 0 ds))
            (digests-enumerate 0 ds))))

  pub has_recipe-none :
      (rows : List RecipeRow) (j : ℕ) → recipe_rows rows n p ≡ [] → has_recipe rows n p j ≡ false
  unfolding recipe_rows has_recipe filter any
  has_recipe-none [] j h = refl
  has_recipe-none (r ∷ rows) j h = elim (Bool-cases ((r.node_id == n) && (r.relpath == p))) [
    | inl e ↦ absurd (let no = rw e at h in cc)
    | inr e ↦ rw e (has_recipe-none rows j (rw e at h))
  ]

  has_recipe-concat :
      (rows : List RecipeRow) (d : String) (k j : ℕ)
      → k + 1 ≤ j
      → has_recipe rows n p j ≡ false
      → has_recipe (rows ++ record { node_id = n; relpath = p; ordinal = k; digest = d } ∷ []) n p j
        ≡ false
  unfolding has_recipe any
  has_recipe-concat rows d k j less h =
      any-append (λ (r : RecipeRow). (r.node_id == n) && (r.relpath == p) && (r.ordinal =? j)) rows
        (record { node_id = n; relpath = p; ordinal = k; digest = d } ∷ [])
      ∙ ground (arith, h)

  pub insert_recipes :
      (k : ℕ) (ds : List String) (db : Database)
      → All (λ d. has_chunk db.chunk d ≡ true) ds
      → has_artifact db.artifact n p ≡ true
      → ((j : ℕ) → k ≤ j → has_recipe db.artifact_chunk n p j ≡ false)
      → for_each insert_recipe (enumerate n p k ds) db
        ≡ (ok tt, record db { artifact_chunk = db.artifact_chunk ++ enumerate n p k ds })
  unfolding for_each insert_recipe enumerate
  insert_recipes k [] db h a free = rw append-nil
  insert_recipes k (d ∷ ds) db h a free =
      let row : RecipeRow = record { node_id = n; relpath = p; ordinal = k; digest = d } in
      rw (free k (omega arith), h.0, a)
        (insert_recipes (k + 1) ds (record db { artifact_chunk = db.artifact_chunk ++ row ∷ [] })
            h.1 a
            (λ j less.
              has_recipe-concat db.artifact_chunk d k j less (free j (omega (arith, less))))
          ∙ ap {B = Result (Unit {0}) × Database} (λ l. (ok tt, record db { artifact_chunk = l }))
              (append_assoc db.artifact_chunk (row ∷ []) (enumerate n p (k + 1) ds)))

pub artifact_row-append_hit :
    (rows more : List ArtifactRow) (n p : String) (a : ArtifactRow)
    → artifact_row rows n p ≡ some a
    → artifact_row (rows ++ more) n p ≡ some a
unfolding artifact_row
artifact_row-append_hit rows more n p a h = find?-append_hit _ rows more a h

pub artifact_row_new :
    (rows : List ArtifactRow) (row : ArtifactRow)
    → has_artifact rows row.node_id row.relpath ≡ false
    → artifact_row (rows ++ row ∷ []) row.node_id row.relpath ≡ some row
unfolding artifact_row has_artifact find?
artifact_row_new rows row h =
    find?-append_miss _ rows (row ∷ []) (any-false_of_find? _ rows h) ∙ ground arith

pub has_artifact_new :
    (rows : List ArtifactRow) (row : ArtifactRow)
    → has_artifact (rows ++ row ∷ []) row.node_id row.relpath ≡ true
unfolding has_artifact any
has_artifact_new rows row = any-append _ rows (row ∷ []) ∙ ground arith

pub has_artifact-append_false :
    (rows : List ArtifactRow) (row : ArtifactRow) (n p : String)
    → has_artifact (rows ++ row ∷ []) n p ≡ false
    → (has_artifact rows n p ≡ false) × (((row.node_id == n) && (row.relpath == p)) ≡ false)
unfolding has_artifact any
has_artifact-append_false rows row n p h =
    let e =
      any-append (λ (a : ArtifactRow). (a.node_id == n) && (a.relpath == p)) rows (row ∷ []) in
    (ground arith, ground arith)

artifact_row_absent :
    (rows : List ArtifactRow) (n p : String)
    → has_artifact rows n p ≡ false
    → artifact_row rows n p ≡ none
unfolding has_artifact artifact_row
artifact_row_absent rows n p h = any-false_of_find? _ rows h

-- An artifact that is there has another key than one that is not.
pub other_key :
    (rows : List ArtifactRow) (n p n' p' : String) (a : ArtifactRow)
    → has_artifact rows n p ≡ false
    → artifact_row rows n' p' ≡ some a
    → ((n == n') && (p == p')) ≡ false
other_key rows n p n' p' a h e = ground (arith, artifact_row_absent rows n p h)

pub recipe_kept :
    (rows : List RecipeRow) (n p n' p' : String) (ds : List String)
    → ((n == n') && (p == p')) ≡ false
    → recipe (rows ++ enumerate n p 0 ds) n' p' ≡ recipe rows n' p'
unfolding recipe
recipe_kept rows n p n' p' ds h =
    rw recipe_rows-append (rw (recipe_rows-enumerate_other n p n' p' 0 ds h) (rw append-nil))
