-- ===== src/Store/Create.antt =====
-- The creation of nodes in src/ancestree/store.py: `create_node`, `_finalize` and
-- `_reuse_identical_node`. The block of the `with` statement is what it leaves behind: the files of
-- the workspace, the entries of the handle, and what it raised.
pub mod Reuse
use ancestree.Prelude.{
  ℕ, zero, suc, String, ◌==◌, ◌≡◌, refl, ◌∙◌, ap, Bool, true, false, not, ◌&&◌, ◌||◌, Option, none,
  some, List, [], ◌∷◌, map, all, length, Result, ok, err, Error, ◌>>=◌, ◌>>◌, if◌then◌else◌,
  Option-cases, Bool-cases, inl, inr,
}
use ancestree.Cdc.{large_file_threshold}
use ancestree.Database.{Database, NodeRow, MetadataRow, Policy}
use ancestree.External.{External}
use ancestree.Exec.{Exec}
use ancestree.Domain.Rules.{
  Unicode, RuleEngine, validate_step_type, validate, generation_for, same_type,
}
use ancestree.Domain.Fingerprint.{Envelope, ContentSummary, summary_of, digest}
use ancestree.MetadataStore.Write.{NodeRecord, exists}
use ancestree.MetadataStore.Read.{Dict, lookup, get, metadata_for, find_by_hash}
use ancestree.ChunkStore.Artifact.{artifact_manifest}
use ancestree.Ingest.{Files, IngestResult, ingest_node}
use ancestree.Store.Config.{same_list, same_bool}
use ancestree.Store.Parents.{resolve_parents}

-- `RecordingNode`, its entries as `metadata_row` encodes them.
pub record Handle : Type 0 where
  pub node_id : String
  pub step_type : String
  pub generation : ℕ
  pub parent_id : List String
  pub entries : List MetadataRow

-- `capture()` and the wall clock of one finalization.
pub record Moment : Type 0 where
  pub created_utc : String
  pub created_epoch : ℕ
  pub user : Option String
  pub python_version : Option String
  pub platform : Option String
  pub git_commit : Option String
  pub git_branch : Option String
  pub git_dirty : Option Bool

abbrev pub envelope : MetadataRow → Envelope
envelope m = record {
  value = m.value_json;
  data_type = m.data_type;
  group = m.group;
  searchable = m.searchable;
}

abbrev pub same_envelope : Envelope → Envelope → Bool
same_envelope a b =
    (a.value == b.value)
    && (a.data_type == b.data_type)
    && same_type a.group b.group
    && same_bool a.searchable b.searchable

abbrev pub same_value {ℓ} : {V : Type ℓ} → (V → V → Bool) → Option V → V → Bool
same_value same none v = false
same_value same (some u) v = same u v

-- Equality of dicts with distinct keys, the order of the entries aside.
unfoldable pub same_dict {ℓ} : {V : Type ℓ} → (V → V → Bool) → Dict V → Dict V → Bool
same_dict same d e =
    all (λ q. same_value same (lookup d q.0) q.1) e
    && all (λ q. same_value same (lookup e q.0) q.1) d

unfoldable pub same_summary : ContentSummary → ContentSummary → Bool
same_summary s t =
    (s.step_type == t.step_type)
    && same_list (λ a b. a == b) s.parent_id t.parent_id
    && same_dict same_envelope s.metadata t.metadata
    && same_dict (λ a b. a == b) s.artifact_sha256s t.artifact_sha256s

-- The summary of a persisted node.
unfoldable pub stored_summary : Database → NodeRecord → ContentSummary
stored_summary db r =
    summary_of r.row.step_type r.parent_id
      (map (λ q. (q.0, envelope q.1)) (metadata_for db r.row.node_id))
      (map (λ a. (a.relpath, a.sha256)) (artifact_manifest db r.row.node_id))

-- The handle rebound to an identical node, if there is one.
unfoldable pub reuse_identical_node :
    (ContentSummary → String) → Database → Handle → ContentSummary → Option Handle
reuse_identical_node dumps_sha256 db handle summary =
    elim (find_by_hash db (digest dumps_sha256 summary)) [
      | none ↦ none
      | some candidate_id ↦ elim (get db candidate_id) [
        | none ↦ none
        | some r ↦
            if same_summary (stored_summary db r) summary
            then some (record {
              node_id = r.row.node_id;
              step_type = r.row.step_type;
              generation = r.row.generation;
              parent_id = r.parent_id;
              entries = handle.entries;
            })
            else none
      ]
    ]

abbrev pub engine_of : Policy → RuleEngine
engine_of policy = record { rules = policy.rules; gen_triggers = policy.gen_triggers }

module _ (x : External) (dumps_sha256 : ContentSummary → String) (policy : Policy) where
  unfoldable pub workspace_summary : Handle → Files → ContentSummary
  workspace_summary handle files =
      summary_of handle.step_type handle.parent_id (map (λ m. (m.key, envelope m)) handle.entries)
        (map (λ f. (f.0, x.sha256 f.1)) files)

  unfoldable pub record_of : Moment → Handle → Bool → ℕ → Option String → NodeRecord
  record_of moment handle healthy duration content_hash = record {
    row = record {
      node_id = handle.node_id;
      step_type = handle.step_type;
      generation = handle.generation;
      created_utc = moment.created_utc;
      created_epoch = moment.created_epoch;
      healthy = healthy;
      duration = some duration;
      size_bytes = 0;
      content_hash = content_hash;
      prov_user = moment.user;
      prov_python = moment.python_version;
      prov_platform = moment.platform;
      prov_git_commit = moment.git_commit;
      prov_git_branch = moment.git_branch;
      prov_git_dirty = moment.git_dirty;
    };
    parent_id = handle.parent_id;
  }

  -- The result of `_finalize` and the handle as it leaves it.
  abbrev pub Finalized : Type 0
  Finalized = Result (Bool × Handle) × Database

  abbrev ingested : Handle → Result IngestResult × Database → Finalized
  ingested handle (ok _, db) = (ok (true, handle), db)
  ingested handle (err e, db) = (err e, db)

  unfoldable pub persist : Moment → Handle → Files → Bool → ℕ → Option String → Database → Finalized
  persist moment handle files healthy duration content_hash db = ingested handle (
      ingest_node x policy.delta large_file_threshold
        (record_of moment handle healthy duration content_hash) handle.entries files db)

  -- A clean completion: fingerprinted, and bound to an identical node where the policy is to reuse.
  unfoldable pub finalize_healthy : Moment → Handle → Files → ℕ → Database → Finalized
  finalize_healthy moment handle files duration db =
      let summary = workspace_summary handle files in
      let fresh =
        persist moment handle files true duration (some (digest dumps_sha256 summary)) db in
      if policy.reuse_identical
      then elim (reuse_identical_node dumps_sha256 db handle summary) [
        | none ↦ fresh
        | some rebound ↦ (ok (true, rebound), db)
      ]
      else fresh

  abbrev pub is_untouched : Handle → Files → Bool
  is_untouched handle [] = elim handle.entries [ [] ↦ true | _ ∷ _ ↦ false ]
  is_untouched handle (f ∷ files) = false

  unfoldable pub finalize : Moment → Handle → Files → Bool → ℕ → Database → Finalized
  finalize moment handle files healthy duration db =
      if is_untouched handle files
      then (ok (false, handle), db)
      else if healthy
      then finalize_healthy moment handle files duration db
      else persist moment handle files false duration none db

  unfoldable pub discard_unless_ok : Error → Finalized → Finalized
  discard_unless_ok raised (ok _, db) = (err raised, db)
  discard_unless_ok raised (err e, db) = (err e, db)

  -- The block as it ends: what it raised, if anything, is raised again behind the finalization.
  unfoldable pub run_block : Moment → Handle → Files → Option Error → ℕ → Database → Finalized
  run_block moment handle files none duration db = finalize moment handle files true duration db
  run_block moment handle files (some raised) duration db =
      discard_unless_ok raised (finalize moment handle files false duration db)

-- What stands before the block: the handle of a node that the rules admit.
unfoldable pub prepare :
    Unicode → Policy → Database → String → List (Option String) → String → Result Handle
prepare u policy db step_type parent node_id = do
  validate_step_type u step_type
  parents ← resolve_parents db parent
  validate (engine_of policy) step_type (map (λ p. some p.row.step_type) parents)
  ok (record {
    node_id = node_id;
    step_type = step_type;
    generation = generation_for (engine_of policy) step_type (map (λ p. p.row.generation) parents);
    parent_id = map (λ p. p.row.node_id) parents;
    entries = [];
  })

-- `while exists(node_id) or scratch(node_id): node_id = uuid4().hex[:8]`, on fuel: the id after
-- `fuel` taken ones is given as it is.
unfoldable pub fresh_id : Database → (String → Bool) → (ℕ → String) → ℕ → ℕ → String
fresh_id db has_scratch uuid zero n = uuid n
fresh_id db has_scratch uuid (suc fuel) n =
    let next = fresh_id db has_scratch uuid fuel (suc n) in
    if exists db (uuid n) || has_scratch (uuid n) then next else uuid n
