-- ===== src/Ingest/Whole.antt =====
-- A node's ingest is all or nothing, and what it stores can be read back.
use ancestree.Prelude.{
  ◌⊎◌, ◌≤◌, leb, ℕ, String, ◌==◌, ◌≡◌, refl, ap, ◌∙◌, Bool, true, false, ◌&&◌, List, [], ◌∷◌, ◌++◌,
  length, any, any-append, All, Result, ok, err, Error, arith, inl, inr, Bool-cases,
}
use ancestree.Cdc.{Bytes}
use ancestree.Database.{Database, ArtifactRow, MetadataRow}
use ancestree.External.{External, IsLawful}
use ancestree.Connection.Transaction.{transaction-ok, transaction-err}
use ancestree.MetadataStore.Write.{NodeRecord, add_node}
use ancestree.ChunkStore.Artifact.{has_node, has_artifact, artifact_bytes}
use ancestree.ChunkStore.Put.{IsSound}
use ancestree.ChunkStore.File.{store_file-HasFile, IsOwned}
use ancestree.Ingest.{
  Files, IngestResult, total_size, with_size, store_files, checkpoint_bytes, checkpoint_large,
  ingest_statements, ingest_node,
}
use ancestree.Ingest.Added.{add_node-AddsNode}

-- No relative path comes twice.
abbrev pub AreDistinct : Files → Type 0
AreDistinct [] = Unit
AreDistinct (f ∷ files) = All (λ g. (f.0 == g.0) ≡ false) files × AreDistinct files

abbrev pub AreFresh : Database → String → Files → Type 0
AreFresh db n files = All (λ f. has_artifact db.artifact n f.0 ≡ false) files

AreFresh-append :
    (db db' : Database) (row : ArtifactRow) (n : String) (files : Files)
    → db'.artifact ≡ db.artifact ++ row ∷ []
    → All (λ g. (row.relpath == g.0) ≡ false) files
    → AreFresh db n files
    → AreFresh db' n files
unfolding has_artifact any
AreFresh-append db db' row n [] e differ fresh = tt
AreFresh-append db db' row n (f ∷ files) e differ fresh = (
  rw e (
      any-append (λ a. (a.node_id == n) && (a.relpath == f.0)) db.artifact (row ∷ [])
      ∙ ground (arith, fresh.0, differ.0)),
  AreFresh-append db db' row n files e differ.1 fresh.1,
)

AreFresh-same :
    (db db' : Database) (n : String) (files : Files)
    → db'.artifact ≡ db.artifact
    → AreFresh db n files
    → AreFresh db' n files
AreFresh-same db db' n [] e fresh = tt
AreFresh-same db db' n (f ∷ files) e fresh = (rw e fresh.0, AreFresh-same db db' n files e fresh.1)

artifact_bytes-same :
    (x : External) (db db' : Database) (n p : String)
    → db'.chunk ≡ db.chunk
    → db'.artifact ≡ db.artifact
    → db'.artifact_chunk ≡ db.artifact_chunk
    → artifact_bytes x db' n p ≡ artifact_bytes x db n p
unfolding artifact_bytes
artifact_bytes-same x db db' n p c a r = rw (c, a, r) refl

err-eq {ℓ κ} :
    {A : Type ℓ} {B : Type κ} {f e : Error}
    → ◌≡◌ {A = Result A} (err f) (err e)
    → ◌≡◌ {A = Result B} (err f) (err e)
err-eq {f} {e} same = ap err (ap (λ r. elim r as (λ _. Error) [ ok a ↦ f | err g ↦ g ]) same)

outcome_cases {ℓ} :
    {A : Type ℓ} (p : Result A × Database)
    → ((a : A) × (db : Database) × (p ≡ (ok a, db)))
      ⊎ ((e : Error) × (db : Database) × (p ≡ (err e, db)))
outcome_cases (ok a, db) = inl (a, db, refl)
outcome_cases (err e, db) = inr (e, db, refl)

checkpoint_large_cases :
    (x : External) (total : ℕ) (db : Database)
    → (checkpoint_large x total db ≡ (ok tt, db))
      ⊎ ((e : Error) × (checkpoint_bytes ≤ total)
          × (x.checkpoint db ≡ err e)
          × (checkpoint_large x total db ≡ (err e, db)))
unfolding checkpoint_large
checkpoint_large_cases x total db = elim (Bool-cases (leb checkpoint_bytes total)) [
  | inr small ↦ inl (rw small refl)
  | inl large ↦ elim (outcome_cases (x.checkpoint db, db)) [
    | inl (u, d, q) ↦ inl (rw large (ap (λ (p : Result (Unit {0}) × Database). (p.0, db)) q))
    | inr (e, d, q) ↦
        let raised : x.checkpoint db ≡ err e = ap (λ (p : Result (Unit {0}) × Database). p.0) q in
        inr (e, ground (arith, large), raised, rw large (ap (λ r. (r, db)) raised))
  ]
]

module _ (x : External) (law : IsLawful x) where
  -- What the files of a node are once stored.
  pub record HasFiles (db db' : Database) (n : String) (files : Files) : Type 0 where
    pub sound : IsSound x db'
    pub owned : IsOwned db'
    pub read : All (λ f. artifact_bytes x db' n f.0 ≡ ok f.1) files
    pub kept :
        (n' p' : String) (b : Bytes)
        → artifact_bytes x db n' p' ≡ ok b
        → artifact_bytes x db' n' p' ≡ ok b

  store_files-HasFiles :
      (delta : Bool) (threshold : ℕ) (n : String) (files : Files) (db : Database)
      → IsSound x db
      → IsOwned db
      → has_node db.node n ≡ true
      → AreDistinct files
      → AreFresh db n files
      → (digests : List (String × String)) × (db' : Database) × (store_files x delta threshold n
            files db
          ≡ (ok digests, db'))
        × HasFiles db db' n files
  unfolding store_files
  store_files-HasFiles delta threshold n [] db s own known distinct fresh =
      ([], db, refl, record { sound = s; owned = own; read = tt; kept = λ n' p' b h. h })
  store_files-HasFiles delta threshold n ((p, data') ∷ files) db s own known distinct fresh =
      let (mid, e, h) = store_file-HasFile x law delta threshold n p data' db s own known fresh.0 in
      let row : ArtifactRow = record {
        node_id = n;
        relpath = p;
        size = length data';
        sha256 = x.sha256 data';
      } in
      let (digests, db', e', h') =
        store_files-HasFiles delta threshold n files mid h.sound h.owned (rw h.node known)
          distinct.1 (AreFresh-append db mid row n files h.artifact distinct.0 fresh.1) in
      (
        (p, x.sha256 data') ∷ digests,
        db',
        rw e (rw e' refl),
        record {
          sound = h'.sound;
          owned = h'.owned;
          read = (h'.kept n p data' h.read, h'.read);
          kept = λ n' p' b q. h'.kept n' p' b (h.kept n' p' b q);
        },
      )

  ingest_statements-HasFiles :
      (delta : Bool) (threshold : ℕ) (r : NodeRecord) (metadata : List MetadataRow) (files : Files)
      (db added : Database)
      → IsSound x db
      → IsOwned db
      → add_node (with_size r (total_size files)) metadata db ≡ (ok tt, added)
      → AreDistinct files
      → AreFresh db r.row.node_id files
      → (result : IngestResult) × (db' : Database) × (ingest_statements x delta threshold r metadata
            files db
          ≡ (ok result, db'))
        × HasFiles db db' r.row.node_id files
  unfolding ingest_statements with_size
  ingest_statements-HasFiles delta threshold r metadata files db added s own e distinct fresh =
      let a = add_node-AddsNode (with_size r (total_size files)) metadata db added e in
      let (digests, db', e', h) =
        store_files-HasFiles delta threshold r.row.node_id files added
          (record { keyed = rw a.chunk s.keyed; readable = rw a.chunk s.readable })
          (record { orphan = rw (a.artifact, a.artifact_chunk) own.orphan }) a.here distinct
          (AreFresh-same db added r.row.node_id files a.artifact fresh) in
      (
        record { final = with_size r (total_size files); artifact_sha256s = digests },
        db',
        rw e (rw e' refl),
        record {
          sound = h.sound;
          owned = h.owned;
          read = h.read;
          kept = λ n' p' b q.
              h.kept n' p' b
                (artifact_bytes-same x db added n' p' a.chunk a.artifact a.artifact_chunk ∙ q);
        },
      )

  -- When the statements of `add_node` go through, in a store that is sound, for a node without
  -- artifacts and files of distinct paths, the whole ingest is stored: every file of the node then reads
  -- back as the bytes that were written, and every artifact that could be read before reads the same.
  -- The ingest returns, unless it is large and SQLite raises in the checkpoint behind the COMMIT.
  pub ingest_node-HasFiles :
      (delta : Bool) (threshold : ℕ) (r : NodeRecord) (metadata : List MetadataRow) (files : Files)
      (db added : Database)
      → IsSound x db
      → IsOwned db
      → add_node (with_size r (total_size files)) metadata db ≡ (ok tt, added)
      → AreDistinct files
      → AreFresh db r.row.node_id files
      → (result : IngestResult) × (db' : Database) × ((ingest_node x delta threshold r metadata
              files db
            ≡ (ok result, db'))
          ⊎ ((e : Error) × (checkpoint_bytes ≤ total_size files)
              × (x.checkpoint db' ≡ err e)
              × (ingest_node x delta threshold r metadata files db ≡ (err e, db'))))
        × HasFiles db db' r.row.node_id files
  unfolding ingest_node
  ingest_node-HasFiles delta threshold r metadata files db added s own e distinct fresh =
      let (result, db', stored, h) =
        ingest_statements-HasFiles delta threshold r metadata files db added s own e distinct
          fresh in
      let kept =
        transaction-ok (ingest_statements x delta threshold r metadata files) db db' result
          stored in
      (
        result,
        db',
        elim (checkpoint_large_cases x (total_size files) db') [
          | inl c ↦ inl (rw kept (rw c refl))
          | inr (f, large, raised, c) ↦ inr (f, large, raised, rw kept (rw c refl))
        ],
        h,
      )

-- An ingest that raises leaves every table as it was, with one exception: where it is large and the
-- checkpoint behind the COMMIT is what raised, every statement of the transaction has gone through and the
-- tables are what they made.
pub ingest_node-rollback :
    (x : External) (delta : Bool) (threshold : ℕ) (r : NodeRecord) (metadata : List MetadataRow)
    (files : Files) (db : Database) (e : Error)
    → (ingest_node x delta threshold r metadata files db).0 ≡ err e
    → ((ingest_node x delta threshold r metadata files db).1 ≡ db)
      ⊎ ((checkpoint_bytes ≤ total_size files)
          × (x.checkpoint (ingest_node x delta threshold r metadata files db).1 ≡ err e)
          × (result : IngestResult) × (ingest_statements x delta threshold r metadata files db
              ≡ (ok result, (ingest_node x delta threshold r metadata files db).1)))
unfolding ingest_node
ingest_node-rollback x delta threshold r metadata files db e h =
    let body = ingest_statements x delta threshold r metadata files in
    elim (outcome_cases (body db)) [
      | inr (f, d, q) ↦ inl (rw (transaction-err body db d f q) refl)
      | inl (result, d, q) ↦
          let kept = transaction-ok body db d result q in
          elim (checkpoint_large_cases x (total_size files) d) [
            | inl c ↦ let h' = rw (kept, c) at h in cc
            | inr (f, large, raised, c) ↦
                let same : ◌≡◌ {A = Result IngestResult} (err f) (err e) = rw (kept, c) at h in
                inr (large, rw (kept, c) (raised ∙ err-eq same), result, rw (kept, c) q)
          ]
    ]
