-- ===== src/Schema.antt =====
-- `ensure_schema` of src/ancestree/db/schema.py on what it reads and writes of a file: the names of the
-- user tables and the version stamp. The columns, keys and foreign keys of the tables are in the
-- statements that write them. A negative stamp, which the code refuses like an older one, has no
-- counterpart here.
use ancestree.Prelude.{
  ℕ, String, text_discrete, ◌≡◌, ◌↔◌, ◌⊎◌, inl, inr, refl, ap, sym, ◌∙◌, true, List, [], ◌∷◌, ◌++◌,
  all, contains, ltb, ◌=?◌, if◌then◌else◌, Result, ok, err, schema_error, sqlite_operational, arith,
}

abbrev pub schema_version : ℕ
schema_version = 1

abbrev pub table_names : List String
table_names =
    "config" ∷ "node" ∷ "edge" ∷ "metadata" ∷ "chunk" ∷ "chunk_feature" ∷ "artifact"
    ∷ "artifact_chunk" ∷ []

-- `CREATE TABLE name`, and `CREATE INDEX name ON table`.
pub data Ddl : Type 0 where
  create_table : String → Ddl
  create_index : String → String → Ddl

-- The statements of `SCHEMA_SQL` in their order.
abbrev pub schema_sql : List Ddl
schema_sql =
    create_table "config"
    ∷ create_table "node"
    ∷ create_index "idx_node_step" "node"
    ∷ create_index "idx_node_hash" "node"
    ∷ create_index "idx_node_gen" "node"
    ∷ create_table "edge"
    ∷ create_index "idx_edge_parent" "edge"
    ∷ create_table "metadata"
    ∷ create_index "idx_meta_key" "metadata"
    ∷ create_index "idx_meta_num" "metadata"
    ∷ create_table "chunk"
    ∷ create_table "chunk_feature"
    ∷ create_index "idx_feature" "chunk_feature"
    ∷ create_table "artifact"
    ∷ create_table "artifact_chunk"
    ∷ create_index "idx_ac_digest" "artifact_chunk"
    ∷ []

pub record File : Type 0 where
  pub tables : List String
  pub user_version : ℕ

-- `BEGIN; ...; COMMIT`: a table that is there already and an index on one that is not are refused.
unfoldable pub execute_script : List Ddl → List String → Result (List String)
execute_script [] tables = ok tables
execute_script (create_table name ∷ script) tables =
    let rest = execute_script script (tables ++ name ∷ []) in
    if contains tables name then err sqlite_operational else rest
execute_script (create_index _ table ∷ script) tables =
    let rest = execute_script script tables in
    if contains tables table then rest else err sqlite_operational

-- The checks of a file that has tables: `missing = TABLES - existing` comes last.
unfoldable pub verify : File → Result (Unit {0})
verify file =
    if file.user_version =? 0
    then err schema_error
    else if ltb schema_version file.user_version
    then err schema_error
    else if ltb file.user_version schema_version
    then err schema_error
    else if all (contains file.tables) table_names
    then ok tt
    else err schema_error

-- What a script that went through leaves, with its stamp; one that did not leaves the file.
abbrev created : File → Result (List String) → Result (Unit {0}) × File
created file (ok tables) = (ok tt, record { tables = tables; user_version = schema_version })
created file (err e) = (err e, file)

abbrev ensured : File → List String → Result (Unit {0}) × File
ensured file [] = created file (execute_script schema_sql [])
ensured file (_ ∷ _) = (verify file, file)

unfoldable pub ensure_schema : File → Result (Unit {0}) × File
ensure_schema file = ensured file file.tables

-- The script goes through, and what it leaves passes the checks of the next opening.
fresh_opened :
    (file : File)
    → (made : File) × (ensured file [] ≡ (ok tt, made)) × (ensure_schema made ≡ (ok tt, made))
unfolding execute_script ensure_schema verify all contains text_discrete
fresh_opened file = (
  record {
    tables =
        "config" ∷ "node" ∷ "edge" ∷ "metadata" ∷ "chunk" ∷ "chunk_feature" ∷ "artifact"
        ∷ "artifact_chunk" ∷ [];
    user_version = 1;
  },
  refl,
  refl,
)

all-contains_iff :
    (xs ys : List String)
    → (all (contains xs) ys ≡ true) ↔ ((t : String) → contains ys t ≡ true → contains xs t ≡ true)
unfolding all contains
all-contains_iff xs [] = (λ h t m. cc, λ h. refl)
all-contains_iff xs (y ∷ ys) = (
  λ h t m. elim (text_discrete y t) [
    | yes e ↦ ap (contains xs) (sym e) ∙ ground arith
    | no e ↦ (all-contains_iff xs ys).0 (ground arith) t (ground arith)
  ],
  λ h.
      let here : contains xs y ≡ true = h y (ground arith) in
      let rest : all (contains xs) ys ≡ true =
        (all-contains_iff xs ys).1 (λ t m. h t (ground arith)) in
      ground arith,
)

-- What it takes for a file that has tables to be one of this version.
abbrev pub IsComplete : File → Type 0
IsComplete file =
    (file.user_version ≡ 1)
    × ((t : String) → contains table_names t ≡ true → contains file.tables t ≡ true)

verify_iff : (file : File) → (verify file ≡ ok tt) ↔ IsComplete file
unfolding verify
verify_iff file =
    let (sound, complete) = all-contains_iff file.tables table_names in
    (
      λ h. (ground (arith, h), sound (ground (arith, h))),
      λ (stamped, found). let every = complete found in ground (arith, stamped, every),
    )

ensured_iff :
    (file : File) (tables : List String)
    → file.tables ≡ tables
    → ((ensured file tables).0 ≡ ok tt) ↔ ((file.tables ≡ []) ⊎ IsComplete file)
ensured_iff file [] h =
    let (made, opened, _) = fresh_opened file in (λ g. inl h, λ g. ap (λ r. r.0) opened)
ensured_iff file (t ∷ ts) h = (
  λ g. inr ((verify_iff file).0 g),
  elim [
    | inl none ↦ absurd (let no : t ∷ ts ≡ [] = sym h ∙ none in cc)
    | inr found ↦ (verify_iff file).1 found
  ],
)

ensured-again :
    (file : File) (tables : List String)
    → file.tables ≡ tables
    → (ensured file tables).0 ≡ ok tt
    → ensure_schema (ensured file tables).1 ≡ (ok tt, (ensured file tables).1)
unfolding ensure_schema
ensured-again file [] h g =
    let (made, opened, again) = fresh_opened file in
    ap (λ (r : Result (Unit {0}) × File). ensure_schema r.1) opened
    ∙ again
    ∙ ap (λ (r : Result (Unit {0}) × File). (ok tt, r.1)) (sym opened)
ensured-again file (t ∷ ts) h g = ap (ensured file) h ∙ ap (λ r. (r, file)) g

-- A file is opened exactly when it has no tables, or has the version's stamp and every table of the schema.
-- Once it has been opened, opening it again succeeds and changes nothing: what the script creates passes
-- the checks.
pub ensure_schema-again :
    (file : File)
    → (((ensure_schema file).0 ≡ ok tt) ↔ ((file.tables ≡ []) ⊎ IsComplete file))
      × ((ensure_schema file).0 ≡ ok tt
          → ensure_schema (ensure_schema file).1 ≡ (ok tt, (ensure_schema file).1))
unfolding ensure_schema
ensure_schema-again file = (ensured_iff file file.tables refl, ensured-again file file.tables refl)
