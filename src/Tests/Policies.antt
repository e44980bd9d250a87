-- ===== src/Tests/Policies.antt =====
-- The policy, the rules, the parents and the reuse of nodes.
use mathlib.Core.List.{Memᴰ}
use ancestree.Prelude.{
  ◌⊎◌, ℕ, ◌≤◌, ◌<◌, String, text_discrete, ◌≡◌, ◌↔◌, refl, true, false, Option, some, none, List,
  [], ◌∷◌, All, contains, ok, find?, all, filter, sort_by, arith, subst,
}
use ancestree.Database.{Database, empty}
use ancestree.Domain.Rules.{
  RuleEngine, allowed_for, validate, generation_for, validate_iff, generation_for-bounds,
}
use ancestree.MetadataStore.Write.{NodeRecord}
use ancestree.MetadataStore.Read.{
  get, node_row as node_at, record_from_row, parents_of, lookup, find_by_hash, metadata_for,
}
use ancestree.Schema.{File, IsComplete, ensure_schema, ensure_schema-again}
use ancestree.Store.Parents.{
  resolve_parents, resolve_from, is_item, Resolved, resolve_parents-Resolved, resolve_parents-known,
}
use ancestree.Store.Config.{same_list, Supplied, load_or_create_config, load_or_create_config-fixed}
use ancestree.ChunkStore.Artifact.{artifact_manifest}
use ancestree.Domain.Fingerprint.{ContentSummary, summary_of, digest}
use ancestree.Store.Create.{Handle, reuse_identical_node, same_summary, same_dict, stored_summary}
use ancestree.Store.Create.Reuse.{reuse_identical_node-same}
use ancestree.Tests.Sample.{node_row, one_node}

abbrev engine : RuleEngine
engine = record { rules = ("clean", some "ingest" ∷ none ∷ []) ∷ []; gen_triggers = "clean" ∷ [] }

validate_iff_example : (validate engine "clean" [] ≡ ok tt) ↔ (
    All {A = Option String} (λ t. Memᴰ t (some "ingest" ∷ none ∷ [])) []
    × (◌≡◌ {A = List (Option String)} [] []
        → Memᴰ {A = Option String} none (some "ingest" ∷ none ∷ [])))
unfolding allowed_for text_discrete
validate_iff_example = validate_iff engine "clean" (some "ingest" ∷ none ∷ []) [] refl

generation_for-bounds_example :
    ((p : ℕ) → Memᴰ p (1 ∷ 3 ∷ []) → p ≤ generation_for engine "clean" (1 ∷ 3 ∷ []))
    × (contains engine.gen_triggers "clean" ≡ true
        → (p : ℕ) → Memᴰ p (1 ∷ 3 ∷ [])
        → p < generation_for engine "clean" (1 ∷ 3 ∷ []))
    × (contains engine.gen_triggers "clean" ≡ false
        → Memᴰ (generation_for engine "clean" (1 ∷ 3 ∷ [])) (1 ∷ 3 ∷ []))
generation_for-bounds_example = generation_for-bounds engine "clean" 1 (3 ∷ [])

abbrev with_rules : Supplied
with_rules = record {
  rules = some (("clean", some "ingest" ∷ []) ∷ []);
  gen_triggers = none;
  reuse_identical = some false;
  delta = none;
}

abbrev with_delta_off : Supplied
with_delta_off = record {
  rules = none;
  gen_triggers = none;
  reuse_identical = none;
  delta = some false;
}

load_or_create_config-fixed_example :
    ((load_or_create_config with_delta_off (load_or_create_config with_rules empty).1).0.0
      ≡ (load_or_create_config with_rules empty).0.0)
    × ((load_or_create_config with_delta_off (load_or_create_config with_rules empty).1).1
        ≡ (load_or_create_config with_rules empty).1)
load_or_create_config-fixed_example = load_or_create_config-fixed with_rules with_delta_off empty

-- One parent, given twice and with None.
abbrev twice : List (Option String)
twice = some "n" ∷ none ∷ some "n" ∷ []

abbrev parent : NodeRecord
parent = record { row = node_row "n"; parent_id = [] }

twice_known :
    (id : String) → is_item twice id ≡ true → (r : NodeRecord) × (get one_node id ≡ some r)
unfolding get node_at find? record_from_row parents_of filter sort_by text_discrete
twice_known id m = elim (text_discrete "n" id) [
  | yes e ↦ (parent, subst (λ i. get one_node i ≡ some parent) e refl)
  | no differ ↦ absurd (differ (ground arith))
]

resolve_parents-Resolved_example :
    (rs : List NodeRecord) × (resolve_parents one_node twice ≡ ok rs)
    × Resolved one_node (is_item twice) rs
resolve_parents-Resolved_example = resolve_parents-Resolved one_node twice twice_known

resolve_parents-known_example : (r : NodeRecord) × (get one_node "n" ≡ some r)
unfolding resolve_parents resolve_from get node_at find? record_from_row parents_of filter sort_by
    text_discrete contains
resolve_parents-known_example = resolve_parents-known one_node twice (parent ∷ []) "n" refl refl

-- The digest is a fixed text, so that every node with a hash collides.
abbrev always : ContentSummary → String
always s = "digest"

abbrev finished : Database
finished = record empty { node = record (node_row "n") { content_hash = some "digest" } ∷ [] }

abbrev handle : Handle
handle = record { node_id = "m"; step_type = "clean"; generation = 0; parent_id = []; entries = [] }

abbrev rebound : Handle
rebound = record handle { node_id = "n" }

abbrev summary : ContentSummary
summary = record { step_type = "clean"; parent_id = []; metadata = []; artifact_sha256s = [] }

is_rebound : reuse_identical_node always finished handle summary ≡ some rebound
unfolding reuse_identical_node find_by_hash find? digest get node_at record_from_row parents_of
    filter sort_by same_summary same_list same_dict all stored_summary summary_of metadata_for
    artifact_manifest text_discrete
is_rebound = refl

reuse_identical_node-same_example :
    (r : NodeRecord) × (get finished rebound.node_id ≡ some r)
    × ((stored_summary finished r).step_type ≡ summary.step_type)
    × ((stored_summary finished r).parent_id ≡ summary.parent_id)
    × ((relpath sha256 : String)
        → lookup summary.artifact_sha256s relpath ≡ some sha256
        → lookup (stored_summary finished r).artifact_sha256s relpath ≡ some sha256)
reuse_identical_node-same_example =
    reuse_identical_node-same always finished handle rebound summary is_rebound

-- A file that lost a table.
abbrev fresh : File
fresh = record { tables = []; user_version = 0 }

ensure_schema-again_example :
    (((ensure_schema fresh).0 ≡ ok tt) ↔ ((fresh.tables ≡ []) ⊎ IsComplete fresh))
    × ((ensure_schema fresh).0 ≡ ok tt
        → ensure_schema (ensure_schema fresh).1 ≡ (ok tt, (ensure_schema fresh).1))
ensure_schema-again_example = ensure_schema-again fresh
