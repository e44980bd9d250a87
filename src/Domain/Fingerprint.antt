-- ===== src/Domain/Fingerprint.antt =====
-- src/ancestree/domain/fingerprint.py. A dict of the summary is a list of its entries under distinct
-- keys, and a metadata value the text of its canonical JSON.
pub mod Unordered
use ancestree.Prelude.{String, Bool, Option, List, text_leb, sort_by}
use ancestree.MetadataStore.Read.{Dict}

pub record Envelope : Type 0 where
  pub value : String
  pub data_type : String
  pub group : Option String
  pub searchable : Bool

pub record ContentSummary : Type 0 where
  pub step_type : String
  pub parent_id : List String
  pub metadata : Dict Envelope
  pub artifact_sha256s : Dict String

-- `ContentSummary.of`
unfoldable pub summary_of : String → List String → Dict Envelope → Dict String → ContentSummary
summary_of step_type parent_id metadata artifact_sha256s = record {
  step_type = step_type;
  parent_id = sort_by text_leb parent_id;
  metadata = metadata;
  artifact_sha256s = artifact_sha256s;
}

-- The payload with the keys sorted; `dumps_sha256` is json.dumps and then SHA-256.
unfoldable pub digest : (ContentSummary → String) → ContentSummary → String
digest dumps_sha256 s = dumps_sha256 (record {
  step_type = s.step_type;
  parent_id = s.parent_id;
  metadata = sort_by (λ a b. text_leb a.0 b.0) s.metadata;
  artifact_sha256s = sort_by (λ a b. text_leb a.0 b.0) s.artifact_sha256s;
})
