-- ===== src/Maintenance/Sweep/Evidence.antt =====
-- An adoption that fails costs nothing.
use ancestree.Prelude.{
  ◌⊎◌, ◌≤◌, inl, inr, ⊎_elim, String, text_discrete, ◌≡◌, refl, ap, ◌∙◌, Bool, List, [], ◌∷◌, find?,
  Result, ok, err, Error, arith,
}
use ancestree.Cdc.{Bytes, large_file_threshold}
use ancestree.Database.{Database}
use ancestree.External.{External}
use ancestree.Ingest.{Files, IngestResult, total_size, checkpoint_bytes, ingest_node}
use ancestree.Ingest.Whole.{ingest_node-rollback}
use ancestree.Maintenance.Sweep.{
  Seed, SeedFile, Entry, System, entry_at, new_seed, seed_again, files_at, adopted_record, Swept,
  settle_adoption, adopt,
}

module _ (system : System) where
  files_at-seed_again :
      (m : String) (seed : SeedFile) (es : List Entry)
      → files_at system (entry_at (seed_again system m seed es) m) ≡ files_at system (entry_at es m)
  unfolding entry_at seed_again find?
  files_at-seed_again m seed [] = ground arith
  files_at-seed_again m seed (f ∷ es) = elim (text_discrete f.name m) [
    | yes q ↦ ground arith
    | no q ↦ ground (arith, files_at-seed_again m seed es)
  ]

  settle_adoption_err :
      (m : String) (entries : List Entry) (adopted : List String)
      (r : Result IngestResult × Database) (e : Error)
      → r.0 ≡ err e
      → settle_adoption system m entries adopted r
        ≡ record { entries = entries; tables = r.1; adopted = adopted }
  settle_adoption_err m entries adopted (ok _, db) e h = cc
  settle_adoption_err m entries adopted (err _, db) e h = refl

  -- Where the ingest of an orphaned directory with files raises, nothing counts as adopted, and the files
  -- are where they were. No table has changed, unless the files are large and what raised is the
  -- checkpoint behind the COMMIT.
  pub adopt-err :
      (x : External) (delta : Bool) (m : String) (s : Seed) (w : Swept) (f : String × Bytes)
      (fs : Files) (e : Error)
      → files_at system (entry_at w.entries m) ≡ f ∷ fs
      → (ingest_node x delta large_file_threshold
          (adopted_record system m s)
          []
          (f ∷ fs)
          w.tables).0
        ≡ err e
      → (((adopt system x delta m s w).tables ≡ w.tables)
          ⊎ ((checkpoint_bytes ≤ total_size (f ∷ fs))
              × (x.checkpoint (adopt system x delta m s w).tables ≡ err e)))
        × ((adopt system x delta m s w).adopted ≡ w.adopted)
        × (files_at system (entry_at (adopt system x delta m s w).entries m) ≡ f ∷ fs)
  unfolding adopt
  adopt-err x delta m s w f fs e here fails =
      let entries = seed_again system m (new_seed system m s) w.entries in
      let tried =
        ingest_node x delta large_file_threshold (adopted_record system m s) [] (f ∷ fs) w.tables in
      let kept : files_at system (entry_at entries m) ≡ f ∷ fs =
        files_at-seed_again m (new_seed system m s) w.entries ∙ here in
      let after : adopt system x delta m s w
          ≡ record { entries = entries; tables = tried.1; adopted = w.adopted } =
        rw (adopt, kept) (settle_adoption_err m entries w.adopted tried e fails) in
      (
        ⊎_elim (λ same. inl (ap (λ (v : Swept). v.tables) after ∙ same))
            (λ (large, raised, result, stored).
              inr (large, ap (λ (v : Swept). x.checkpoint v.tables) after ∙ raised))
            (ingest_node-rollback x delta large_file_threshold (adopted_record system m s) []
              (f ∷ fs) w.tables e fails),
        ap (λ (v : Swept). v.adopted) after,
        ap (λ (v : Swept). files_at system (entry_at v.entries m)) after ∙ kept,
      )
