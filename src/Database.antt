-- ===== src/Database.antt =====
-- src/ancestree/db/schema.py: the tables of one store, a list of rows to a table, in the order of
-- insertion. A REAL time is a number of clock ticks, `duration_seconds` is in milliseconds (the code
-- rounds it to three digits), and a REAL number of the user's is the code of that number, of which
-- only equality is used. NaN has no code: SQLite stores it as NULL, so that a NaN in an entry stands
-- here as none.
use ancestree.Prelude.{ℕ, String, Bool, Option, none, List, []}

-- The node table's columns.
pub record NodeRow : Type 0 where
  pub node_id : String
  pub step_type : String
  pub generation : ℕ
  pub created_utc : String
  pub created_epoch : ℕ
  pub healthy : Bool
  pub duration : Option ℕ
  pub size_bytes : ℕ
  pub content_hash : Option String
  pub prov_user : Option String
  pub prov_python : Option String
  pub prov_platform : Option String
  pub prov_git_commit : Option String
  pub prov_git_branch : Option String
  pub prov_git_dirty : Option Bool

pub record EdgeRow : Type 0 where
  pub child_id : String
  pub parent_id : String
  pub ordinal : ℕ

-- `MetadataRow`: one entry of a node as persisted, its value in canonical JSON.
pub record MetadataRow : Type 0 where
  pub key : String
  pub value_json : String
  pub data_type : String
  pub group : Option String
  pub searchable : Bool
  pub num_value : Option ℕ

-- A row of the metadata table.
pub record EntryRow : Type 0 where
  pub owner : String
  pub entry : MetadataRow

pub record ChunkRow : Type 0 where
  pub digest : String
  pub kind : ℕ
  pub base_digest : Option String
  pub blob : List ℕ
  pub length : ℕ
  pub created_epoch : ℕ

pub record FeatureRow : Type 0 where
  pub feature : ℕ
  pub digest : String

pub record ArtifactRow : Type 0 where
  pub node_id : String
  pub relpath : String
  pub size : ℕ
  pub sha256 : String

pub record RecipeRow : Type 0 where
  pub node_id : String
  pub relpath : String
  pub ordinal : ℕ
  pub digest : String

-- The `policy` entry of the config table.
pub record Policy : Type 0 where
  pub rules : List (String × List (Option String))
  pub gen_triggers : List String
  pub reuse_identical : Bool
  pub delta : Bool

pub record Database : Type 0 where
  pub config : Option Policy
  pub node : List NodeRow
  pub edge : List EdgeRow
  pub metadata : List EntryRow
  pub chunk : List ChunkRow
  pub chunk_feature : List FeatureRow
  pub artifact : List ArtifactRow
  pub artifact_chunk : List RecipeRow

-- What `ensure_schema` leaves in a fresh file.
abbrev pub empty : Database
empty = record {
  config = none;
  node = [];
  edge = [];
  metadata = [];
  chunk = [];
  chunk_feature = [];
  artifact = [];
  artifact_chunk = [];
}
