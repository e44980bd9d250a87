-- ===== src/ChunkStore/Put.antt =====
-- `put_chunk`: what it stores can be read back, and nothing that was stored is lost.
use mathlib.Core.List.{Memᴰ}
use ancestree.Prelude.{
  ℕ, min, ◌*◌, String, ◌=?◌, ◌≡◌, refl, sym, ◌∙◌, ap, ◌⊎◌, inl, inr, ⊎_elim, Bool, true, false,
  ◌&&◌, Option, none, some, List, [], ◌∷◌, ◌++◌, length, take, mem-filter, arith, Bool-cases,
  Option-cases, ltb, leb, ok,
}
use ancestree.Cdc.{Bytes}
use ancestree.Database.{Database, ChunkRow, FeatureRow}
use ancestree.External.{External, IsLawful}
use ancestree.Exec.{for_each}
use ancestree.ChunkStore.Features.{zdict_max, delta_encode, delta_decode, super_features}
use ancestree.ChunkStore.Read.{
  decode_row, decode_base, decode_against, decode_delta, get_chunk, chunk_row, kind_raw, kind_delta,
  kind_stored,
}
use ancestree.ChunkStore.Write.{
  delta_min_size, has_chunk, base_present, comes_before, add_chunk, insert_row, nearest, shared,
  candidates, find_base, has_feature, insert_feature, store_features, insert_chunk, insert_raw,
  try_base, try_delta, put_similar, put_chunk,
}
use ancestree.ChunkStore.Pool.{
  IsKeyed, IsKeyed-append, chunk_row_of_mem, has_chunk_of_row, has_chunk_of_get_chunk,
  has_chunk-append, get_chunk-append, decode_base-append, get_chunk-sha256, get_chunk_new,
  decode_base_of_get_chunk,
}

-- Every chunk of the pool can be read, and no digest stands twice.
pub record IsSound (x : External) (db : Database) : Type 0 where
  pub keyed : IsKeyed db.chunk
  pub readable :
      (d : String) → has_chunk db.chunk d ≡ true → (b : Bytes) × (get_chunk x db.chunk d ≡ ok b)

-- Only the chunk and feature tables may differ.
pub record OnlyPool (db db' : Database) : Type 0 where
  pub config : db'.config ≡ db.config
  pub node : db'.node ≡ db.node
  pub edge : db'.edge ≡ db.edge
  pub metadata : db'.metadata ≡ db.metadata
  pub artifact : db'.artifact ≡ db.artifact
  pub artifact_chunk : db'.artifact_chunk ≡ db.artifact_chunk

-- What a write of `data'` leaves behind.
pub record HasStored (x : External) (db db' : Database) (data' : Bytes) : Type 0 where
  pub sound : IsSound x db'
  pub kept :
      (d : String) (b : Bytes) → get_chunk x db.chunk d ≡ ok b → get_chunk x db'.chunk d ≡ ok b
  pub stored : get_chunk x db'.chunk (x.sha256 data') ≡ ok data'
  pub frame : OnlyPool db db'

pub OnlyPool-set :
    (db : Database) (pool : List ChunkRow) (index : List FeatureRow)
    → OnlyPool db (record db { chunk = pool; chunk_feature = index })
OnlyPool-set db pool index = record {
  config = refl;
  node = refl;
  edge = refl;
  metadata = refl;
  artifact = refl;
  artifact_chunk = refl;
}

pub OnlyPool-trans : {a b c : Database} → OnlyPool a b → OnlyPool b c → OnlyPool a c
OnlyPool-trans p q = record {
  config = q.config ∙ p.config;
  node = q.node ∙ p.node;
  edge = q.edge ∙ p.edge;
  metadata = q.metadata ∙ p.metadata;
  artifact = q.artifact ∙ p.artifact;
  artifact_chunk = q.artifact_chunk ∙ p.artifact_chunk;
}

nearest-mem :
    (count : String → ℕ) (best : Option ChunkRow) (cs : List ChunkRow) (b : ChunkRow)
    → nearest count best cs ≡ some b
    → (best ≡ some b) ⊎ Memᴰ b cs
unfolding nearest
nearest-mem count best [] b h = inl h
nearest-mem count none (c ∷ cs) b h = elim (nearest-mem count (some c) cs b h) [
  | inl e ↦ inr (Memᴰ.head (ground arith))
  | inr m ↦ inr (Memᴰ.tail m)
]
nearest-mem count (some a) (c ∷ cs) b h = elim (Bool-cases (comes_before count c a)) [
  | inl first ↦
      ⊎_elim (λ e. inr (Memᴰ.head (ground arith))) (λ m. inr (Memᴰ.tail m))
        (nearest-mem count (some c) cs b (rw first at h))
  | inr last ↦
      ⊎_elim (λ e. inl e) (λ m. inr (Memᴰ.tail m)) (nearest-mem count (some a) cs b (rw last at h))
]

-- A base is the key of a row of the pool that is no delta.
find_base-row :
    (fs : List ℕ) (db : Database) (d : String)
    → IsKeyed db.chunk
    → find_base fs db ≡ some d
    → (r : ChunkRow) × (r.digest ≡ d)
      × (chunk_row db.chunk r.digest ≡ some r)
      × ((r.kind =? kind_delta) ≡ false)
unfolding find_base candidates
find_base-row [] db d k h = cc
find_base-row (f ∷ fs) db d k h =
    elim (Option-cases (nearest (shared db.chunk_feature (f ∷ fs)) none (candidates db (f ∷ fs)))) [
      | inl e ↦ cc (rw (e, find_base) at h)
      | inr (r, e) ↦
          let (m, shares) =
            mem-filter _ r db.chunk (
              ⊎_elim (λ none_yet. cc) (λ m. m) (nearest-mem _ none (candidates db (f ∷ fs)) r e)) in
          (r, ground arith, chunk_row_of_mem db.chunk r k m, ground arith)
    ]

module _ (x : External) (law : IsLawful x) where
  -- A row that decodes to `data'` is added.
  add_chunk-HasStored :
      (db : Database) (row : ChunkRow) (data' : Bytes)
      → IsSound x db
      → has_chunk db.chunk row.digest ≡ false
      → row.digest ≡ x.sha256 data'
      → decode_row x row (decode_delta x (db.chunk ++ row ∷ []) row) ≡ ok data'
      → HasStored x db (add_chunk row db) data'
  add_chunk-HasStored db row data' s fresh same decoded =
      let new = get_chunk_new x db.chunk row data' fresh decoded (sym same) in
      record {
        sound = record {
          keyed = IsKeyed-append db.chunk row s.keyed fresh;
          readable = λ d h. elim (Bool-cases (has_chunk db.chunk d)) [
            | inl old ↦
                let (b, e) = s.readable d old in (b, get_chunk-append x db.chunk (row ∷ []) d b e)
            | inr no_old ↦
                let e : row.digest ≡ d = ground (arith, has_chunk-append db.chunk row d) in
                (data', rw (← e) new)
          ];
        };
        kept = λ d b e. get_chunk-append x db.chunk (row ∷ []) d b e;
        stored = rw (← same) new;
        frame = OnlyPool-set db _ _;
      }

  insert_row_new :
      (row : ChunkRow) (db : Database)
      → has_chunk db.chunk row.digest ≡ false
      → base_present db.chunk row.base_digest ≡ true
      → insert_row row db ≡ (ok tt, add_chunk row db)
  unfolding insert_row
  insert_row_new row db fresh present = rw (fresh, present)

  insert_raw-HasStored :
      (db : Database) (data' : Bytes)
      → IsSound x db
      → has_chunk db.chunk (x.sha256 data') ≡ false
      → (db' : Database) × (insert_raw x (x.sha256 data') data' (x.compress data') db
          ≡ (ok tt, db'))
        × HasStored x db db' data'
  unfolding insert_raw insert_chunk base_present
  insert_raw-HasStored db data' s fresh =
      let row_of : ℕ → Bytes → ChunkRow = λ k blob. record {
        digest = x.sha256 data';
        kind = k;
        base_digest = none;
        blob = blob;
        length = length data';
        created_epoch = x.time db;
      } in
      elim (Bool-cases (ltb (length (x.compress data')) (length data'))) [
        | inl smaller ↦ (
          add_chunk (row_of kind_raw (x.compress data')) db,
          rw smaller (insert_row_new (row_of kind_raw (x.compress data')) db fresh refl),
          add_chunk-HasStored db (row_of kind_raw (x.compress data')) data' s fresh refl
              (unfold decode_row in rw (law.inflate data')),
        )
        | inr larger ↦ (
          add_chunk (row_of kind_stored data') db,
          rw larger (insert_row_new (row_of kind_stored data') db fresh refl),
          add_chunk-HasStored db (row_of kind_stored data') data' s fresh refl
              (unfold decode_row in refl),
        )
      ]

  store_features_keeps :
      (digest : String) (features : List ℕ) (db : Database)
      → has_chunk db.chunk digest ≡ true
      → (index : List FeatureRow) × (store_features digest features db
          ≡ (ok tt, record db { chunk_feature = index }))
  unfolding store_features for_each insert_feature
  store_features_keeps digest [] db h = (db.chunk_feature, refl)
  store_features_keeps digest (f ∷ fs) db h =
      elim (Bool-cases (has_feature db.chunk_feature digest f)) [
        | inl old ↦ let (index, e) = store_features_keeps digest fs db h in (index, rw old e)
        | inr new ↦
            let (index, e) =
              store_features_keeps digest fs
                (record db {
                  chunk_feature = db.chunk_feature ++ record { feature = f; digest = digest } ∷ [];
                })
                h in
            (index, rw (new, h) e)
      ]

  -- A delta against a base that reads as `base` is decoded to what was encoded.
  delta_decodes :
      (pool more : List ChunkRow) (d : String) (base data' : Bytes)
      → decode_base x pool d ≡ ok base
      → x.sha256 base ≡ d
      → decode_against x (pool ++ more) (some d) (delta_encode x base data') ≡ ok data'
  unfolding decode_against delta_encode delta_decode
  delta_decodes pool more d base data' e same =
      rw (decode_base-append x pool more d base e)
        (rw (law.inflate_zdict (take zdict_max base) data') (ground arith))

  try_delta-HasStored :
      (db : Database) (data' packed : Bytes) (fs : List ℕ)
      → IsSound x db
      → has_chunk db.chunk (x.sha256 data') ≡ false
      → (try_delta x (x.sha256 data') data' packed fs db ≡ (ok false, db))
        ⊎ ((db' : Database) × (try_delta x (x.sha256 data') data' packed fs db ≡ (ok true, db'))
            × HasStored x db db' data')
  try_delta-HasStored db data' packed fs s fresh = elim (Option-cases (find_base fs db)) [
    | inl e ↦ inl (unfold try_delta try_base in rw e)
    | inr (d, e) ↦
        let (r, key, row, kind) = find_base-row fs db d s.keyed e in
        let known = has_chunk_of_row db.chunk d r (rw key at row) in
        let (base, read) = s.readable d known in
        let decoded : decode_base x db.chunk d ≡ ok base =
          rw key at (decode_base_of_get_chunk x db.chunk r base row kind (rw (← key) at read)) in
        let blob = delta_encode x base data' in
        let new : ChunkRow = record {
          digest = x.sha256 data';
          kind = kind_delta;
          base_digest = some d;
          blob = blob;
          length = length data';
          created_epoch = x.time db;
        } in
        elim (Bool-cases (leb (min (length packed) (length data') * 4) (length blob * 5))) [
          | inl poor ↦ inl (unfold try_delta try_base in rw e (rw read (rw poor)))
          | inr good ↦ inr (
            add_chunk new db,
            unfold try_delta try_base insert_chunk in
                rw e (
                  rw read
                    (rw good (rw (insert_row_new new db fresh (unfold base_present in known))))),
            add_chunk-HasStored db new data' s fresh refl (
                unfold decode_row in
                delta_decodes db.chunk (new ∷ []) d base data' decoded
                  (get_chunk-sha256 x db.chunk d base read)),
          )
        ]
  ]

  put_similar-HasStored :
      (db : Database) (data' : Bytes)
      → IsSound x db
      → has_chunk db.chunk (x.sha256 data') ≡ false
      → (db' : Database) × (put_similar x (x.sha256 data') data' db ≡ (ok tt, db'))
        × HasStored x db db' data'
  put_similar-HasStored db data' s fresh =
      let fs = super_features x.little_endian data' in
      elim (try_delta-HasStored db data' (x.compress data') fs s fresh) [
        | inr (db', e, h) ↦ (db', unfold put_similar in rw e, h)
        | inl e ↦
            let (mid, raw, h) = insert_raw-HasStored db data' s fresh in
            let known = has_chunk_of_get_chunk x mid.chunk (x.sha256 data') data' h.stored in
            let (index, f) = store_features_keeps (x.sha256 data') fs mid known in
            (
              record mid { chunk_feature = index },
              unfold put_similar in rw e (rw raw (rw f)),
              record {
                sound = record { keyed = h.sound.keyed; readable = h.sound.readable };
                kept = h.kept;
                stored = h.stored;
                frame = OnlyPool-trans h.frame (OnlyPool-set mid mid.chunk index);
              },
            )
      ]

  -- On a sound store a chunk is always stored: `put_chunk` raises nothing and returns the chunk's
  -- digest; the store stays sound, the digest reads back as the chunk, every chunk that could be
  -- read still gives the same bytes, and no table but chunk and chunk_feature changes. This holds
  -- for either delta policy, on the exact, the delta, the zlib and the verbatim path.
  pub put_chunk-HasStored :
      (delta : Bool) (db : Database) (data' : Bytes)
      → IsSound x db
      → (db' : Database) × (put_chunk x delta data' db ≡ (ok (x.sha256 data'), db'))
        × HasStored x db db' data'
  put_chunk-HasStored delta db data' s = elim (Bool-cases (has_chunk db.chunk (x.sha256 data'))) [
    | inl old ↦
        let (b, e) = s.readable (x.sha256 data') old in
        let same = law.no_collision b data' (get_chunk-sha256 x db.chunk (x.sha256 data') b e) in
        (
          db,
          unfold put_chunk in rw old,
          record {
            sound = s;
            kept = λ d c h. h;
            stored = e ∙ ap ok same;
            frame = OnlyPool-set db db.chunk db.chunk_feature;
          },
        )
    | inr fresh ↦ elim (Bool-cases (delta && leb delta_min_size (length data'))) [
      | inl large ↦
          let (db', e, h) = put_similar-HasStored db data' s fresh in
          (db', unfold put_chunk in rw fresh (rw large (rw e)), h)
      | inr small ↦
          let (db', e, h) = insert_raw-HasStored db data' s fresh in
          (db', unfold put_chunk in rw fresh (rw small (rw e)), h)
    ]
  ]
