-- ===== src/ChunkStore/File.antt =====
-- Storing one file as an artifact, the loop body of `ingest_node` in
-- src/ancestree/ingest/packing.py, and reading it back.
use mathlib.Core.List.{flatten}
use ancestree.Prelude.{
  ℕ, String, ◌≡◌, refl, ◌∙◌, ap, append-nil, inl, inr, Bool, true, false, some, List, [], ◌∷◌, ◌++◌,
  map, length, All, arith, Option-cases, ok, >>=-eq-ok,
}
use ancestree.Cdc.{Bytes, chunk_bytes}
use ancestree.Cdc.Pieces.{chunk_bytes-flatten}
use ancestree.Database.{Database, ArtifactRow}
use ancestree.External.{External, IsLawful}
use ancestree.Exec.{Exec, pure, ◌>>=◌}
use ancestree.ChunkStore.Read.{get_chunk}
use ancestree.ChunkStore.Write.{has_chunk, put_chunks}
use ancestree.ChunkStore.Pool.{has_chunk_of_get_chunk}
use ancestree.ChunkStore.Put.{IsSound, OnlyPool, OnlyPool-set, OnlyPool-trans, put_chunk-HasStored}
use ancestree.ChunkStore.Artifact.{
  has_node, artifact_row, has_artifact, recipe_rows, recipe, insert_artifact, add_artifact,
  enumerate, read_chunks, verified, artifact_bytes,
}
use ancestree.ChunkStore.Recipes.{
  recipe_rows-append, recipe_rows-enumerate_other, recipe-enumerate, has_recipe-none,
  insert_recipes, artifact_row-append_hit, artifact_row_new, has_artifact_new,
  has_artifact-append_false, other_key, recipe_kept,
}

-- `data = path.read_bytes(); digest = ...; chunk_digests = [...]; add_artifact(...)`
unfoldable pub store_file : External → Bool → ℕ → String → String → Bytes → Exec String
store_file x delta threshold node_id relpath data' = do
  chunk_digests ← put_chunks x delta (chunk_bytes x.gear data' threshold)
  (λ db.
      (add_artifact node_id relpath (length data') (x.sha256 data') chunk_digests >>= λ _.
      pure (x.sha256 data'))
        db)

-- The foreign key from recipes to artifacts.
pub record IsOwned (db : Database) : Type 0 where
  pub orphan :
      (n p : String) → has_artifact db.artifact n p ≡ false → recipe_rows db.artifact_chunk n p ≡ []

module _ (x : External) (law : IsLawful x) where
  -- What `put_chunks` leaves behind.
  record HasStoredAll (db db' : Database) (pieces : List Bytes) : Type 0 where
    sound : IsSound x db'
    kept : (d : String) (b : Bytes) → get_chunk x db.chunk d ≡ ok b → get_chunk x db'.chunk d ≡ ok b
    stored : All (λ b. get_chunk x db'.chunk (x.sha256 b) ≡ ok b) pieces
    frame : OnlyPool db db'

  put_chunks-HasStoredAll :
      (delta : Bool) (pieces : List Bytes) (db : Database)
      → IsSound x db
      → (db' : Database) × (put_chunks x delta pieces db ≡ (ok (map x.sha256 pieces), db'))
        × HasStoredAll db db' pieces
  unfolding put_chunks
  put_chunks-HasStoredAll delta [] db s = (
    db,
    refl,
    record {
      sound = s;
      kept = λ d b e. e;
      stored = tt;
      frame = OnlyPool-set db db.chunk db.chunk_feature;
    },
  )
  put_chunks-HasStoredAll delta (b ∷ pieces) db s =
      let (mid, e, one) = put_chunk-HasStored x law delta db b s in
      let (db', f, rest) = put_chunks-HasStoredAll delta pieces mid one.sound in
      (
        db',
        rw e (rw f),
        record {
          sound = rest.sound;
          kept = λ d c h. rest.kept d c (one.kept d c h);
          stored = (rest.kept (x.sha256 b) b one.stored, rest.stored);
          frame = OnlyPool-trans one.frame rest.frame;
        },
      )

  read_chunks-flatten :
      (db : Database) (pieces : List Bytes)
      → All (λ b. get_chunk x db.chunk (x.sha256 b) ≡ ok b) pieces
      → read_chunks x db.chunk (map x.sha256 pieces) ≡ ok (flatten pieces)
  unfolding read_chunks flatten
  read_chunks-flatten db [] h = refl
  read_chunks-flatten db (b ∷ pieces) h = rw h.0 (rw (read_chunks-flatten db pieces h.1))

  has_chunks :
      (db : Database) (pieces : List Bytes)
      → All (λ b. get_chunk x db.chunk (x.sha256 b) ≡ ok b) pieces
      → All (λ d. has_chunk db.chunk d ≡ true) (map x.sha256 pieces)
  has_chunks db [] h = tt
  has_chunks db (b ∷ pieces) h =
      (has_chunk_of_get_chunk x db.chunk (x.sha256 b) b h.0, has_chunks db pieces h.1)

  read_chunks_kept :
      (db db' : Database)
      → ((d : String) (b : Bytes) → get_chunk x db.chunk d ≡ ok b → get_chunk x db'.chunk d ≡ ok b)
      → (ds : List String) (b : Bytes) → read_chunks x db.chunk ds ≡ ok b
      → read_chunks x db'.chunk ds ≡ ok b
  unfolding read_chunks
  read_chunks_kept db db' keep [] b h = h
  read_chunks_kept db db' keep (d ∷ ds) b h =
      let (head, e, rest) = >>=-eq-ok (get_chunk x db.chunk d) _ h in
      let (tail, f, last) = >>=-eq-ok (read_chunks x db.chunk ds) _ rest in
      rw (keep d head e) (rw (read_chunks_kept db db' keep ds tail f) last)

  -- The database after `store_file`.
  abbrev after_file : ℕ → String → String → Bytes → Database → Database
  after_file threshold n p data' mid = record mid {
    artifact =
        mid.artifact
        ++ record { node_id = n; relpath = p; size = length data'; sha256 = x.sha256 data' } ∷ [];
    artifact_chunk =
        mid.artifact_chunk ++ enumerate n p 0 (map x.sha256 (chunk_bytes x.gear data' threshold));
  }

  -- What a stored file leaves behind.
  pub record HasFile (db db' : Database) (n p : String) (data' : Bytes) : Type 0 where
    pub sound : IsSound x db'
    pub owned : IsOwned db'
    pub read : artifact_bytes x db' n p ≡ ok data'
    pub kept :
        (n' p' : String) (b : Bytes)
        → artifact_bytes x db n' p' ≡ ok b
        → artifact_bytes x db' n' p' ≡ ok b
    pub artifact :
        db'.artifact
        ≡ db.artifact
          ++ record { node_id = n; relpath = p; size = length data'; sha256 = x.sha256 data' } ∷ []
    pub node : db'.node ≡ db.node
    pub edge : db'.edge ≡ db.edge
    pub metadata : db'.metadata ≡ db.metadata

  add_artifact-eq :
      (threshold : ℕ) (n p : String) (data' : Bytes) (mid : Database)
      → has_node mid.node n ≡ true
      → has_artifact mid.artifact n p ≡ false
      → recipe_rows mid.artifact_chunk n p ≡ []
      → All (λ d. has_chunk mid.chunk d ≡ true) (map x.sha256 (chunk_bytes x.gear data' threshold))
      → add_artifact n p
          (length data')
          (x.sha256 data')
          (map x.sha256 (chunk_bytes x.gear data' threshold))
          mid
        ≡ (ok tt, after_file threshold n p data' mid)
  unfolding add_artifact insert_artifact
  add_artifact-eq threshold n p data' mid known fresh bare chunks =
      let row : ArtifactRow = record {
        node_id = n;
        relpath = p;
        size = length data';
        sha256 = x.sha256 data';
      } in
      rw (fresh, known)
        (insert_recipes n p 0 (map x.sha256 (chunk_bytes x.gear data' threshold))
          (record mid { artifact = mid.artifact ++ row ∷ [] }) chunks
          (has_artifact_new mid.artifact row)
          (λ j _. has_recipe-none n p mid.artifact_chunk j bare))

  artifact_bytes_of :
      (db : Database) (n p : String) (a : ArtifactRow) (b : Bytes)
      → artifact_row db.artifact n p ≡ some a
      → read_chunks x db.chunk (recipe db.artifact_chunk n p) ≡ ok b
      → x.sha256 b ≡ a.sha256
      → artifact_bytes x db n p ≡ ok b
  unfolding artifact_bytes verified
  artifact_bytes_of db n p a b row read same = rw (row, artifact_bytes) (rw read (ground arith))

  artifact_bytes_kept :
      (db db' : Database) (n p n' p' : String) (ds : List String) (row : ArtifactRow) (b : Bytes)
      → ((d : String) (c : Bytes) → get_chunk x db.chunk d ≡ ok c → get_chunk x db'.chunk d ≡ ok c)
      → db'.artifact ≡ db.artifact ++ row ∷ []
      → db'.artifact_chunk ≡ db.artifact_chunk ++ enumerate n p 0 ds
      → has_artifact db.artifact n p ≡ false
      → artifact_bytes x db n' p' ≡ ok b
      → artifact_bytes x db' n' p' ≡ ok b
  unfolding artifact_bytes
  artifact_bytes_kept db db' n p n' p' ds row b keep ea er fresh h =
      elim (Option-cases (artifact_row db.artifact n' p')) [
        | inl e ↦ cc (rw (e, artifact_bytes) at h)
        | inr (a, e) ↦
            let h' = rw (e, artifact_bytes) at h in
            let (c, read, check) =
              >>=-eq-ok (read_chunks x db.chunk (recipe db.artifact_chunk n' p')) _ h' in
            rw (ea, artifact_bytes)
              (rw (artifact_row-append_hit db.artifact (row ∷ []) n' p' a e, artifact_bytes)
                (rw
                  (
                    er,
                    recipe_kept db.artifact_chunk n p n' p' ds
                        (other_key db.artifact n p n' p' a fresh e),
                  )
                  (rw (read_chunks_kept db db' keep _ c read) check)))
      ]

  -- On a sound store, a file stored under a node that exists, at a path that the node does not
  -- have yet, is read back byte for byte: nothing is raised, the digest of the file is returned,
  -- every artifact that could be read before reads the same, and the node, edge and metadata tables
  -- are as they were. This holds for every threshold and either delta policy.
  pub store_file-HasFile :
      (delta : Bool) (threshold : ℕ) (n p : String) (data' : Bytes) (db : Database)
      → IsSound x db
      → IsOwned db
      → has_node db.node n ≡ true
      → has_artifact db.artifact n p ≡ false
      → (db' : Database) × (store_file x delta threshold n p data' db ≡ (ok (x.sha256 data'), db'))
        × HasFile db db' n p data'
  unfolding store_file
  store_file-HasFile delta threshold n p data' db s own known fresh =
      let pieces = chunk_bytes x.gear data' threshold in
      let row : ArtifactRow = record {
        node_id = n;
        relpath = p;
        size = length data';
        sha256 = x.sha256 data';
      } in
      let (mid, e, h) = put_chunks-HasStoredAll delta pieces db s in
      let fresh' : has_artifact mid.artifact n p ≡ false = rw h.frame.artifact fresh in
      let f =
        add_artifact-eq threshold n p data' mid (rw h.frame.node known) fresh'
          (rw h.frame.artifact_chunk (own.orphan n p fresh)) (has_chunks mid pieces h.stored) in
      let whole =
        read_chunks-flatten mid pieces h.stored
        ∙ ap ok (chunk_bytes-flatten x.gear data' threshold) in
      (
        after_file threshold n p data' mid,
        rw e (rw f),
        record {
          sound = record { keyed = h.sound.keyed; readable = h.sound.readable };
          owned = record {
            orphan = λ n' p' absent.
                let (old, differ) = has_artifact-append_false mid.artifact _ n' p' absent in
                rw recipe_rows-append (
                  rw (recipe_rows-enumerate_other n p n' p' 0 (map x.sha256 pieces) differ) (
                    rw append-nil
                      (rw h.frame.artifact_chunk (own.orphan n' p' (rw h.frame.artifact at old)))));
          };
          read =
              artifact_bytes_of (after_file threshold n p data' mid) n p row data'
                (artifact_row_new mid.artifact row fresh')
                (rw
                  (recipe-enumerate n p mid.artifact_chunk (map x.sha256 pieces)
                    (rw h.frame.artifact_chunk (own.orphan n p fresh)))
                  whole)
                refl;
          kept = λ n' p' b.
              artifact_bytes_kept db (after_file threshold n p data' mid) n p n' p'
                (map x.sha256 pieces) row b h.kept (ap (λ l. l ++ row ∷ []) h.frame.artifact)
                (ap (λ l. l ++ enumerate n p 0 (map x.sha256 pieces)) h.frame.artifact_chunk) fresh;
          artifact = ap (λ l. l ++ row ∷ []) h.frame.artifact;
          node = h.frame.node;
          edge = h.frame.edge;
          metadata = h.frame.metadata;
        },
      )
