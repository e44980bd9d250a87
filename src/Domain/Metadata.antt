-- ===== src/Domain/Metadata.antt =====
-- src/ancestree/domain/metadata.py, and `add_meta` of src/ancestree/domain/node.py.
pub mod Prepared
use text.Mathlib.Text.{starts_with}
use ancestree.Prelude.{
  String, ◌==◌, Bool, true, false, not, ◌&&◌, ◌||◌, Option, none, some, List, [], ◌∷◌, contains,
  if◌then◌else◌, Result, ok, err, value_error, type_error, ◌>>=◌,
}
use ancestree.MetadataStore.Read.{Dict, insert}
use ancestree.Util.{
  Value, str, mapping, sequence, path, frame, Items, Entries, end, field, text_key, null, boolean,
  integer, floating, temporal, collection, array, scalar, opaque, to_jsonable,
}

-- What Python does: `str.lower`, `str` of a value, and whether `json.dumps` takes a value.
pub record Python : Type 0 where
  pub lower : String → String
  pub text_of : Value → String
  pub dumps : Value → Bool

abbrev pub valid_data_types : List String
valid_data_types = "auto" ∷ "image" ∷ "link" ∷ "table" ∷ "json" ∷ "code" ∷ "text" ∷ []

abbrev pub reserved_keys : List String
reserved_keys =
    "node_id" ∷ "parent_id" ∷ "step_type" ∷ "generation" ∷ "healthy" ∷ "created_utc"
    ∷ "created_epoch_seconds" ∷ "duration_seconds" ∷ "size_bytes" ∷ "content_hash" ∷ []

abbrev pub image_suffixes : List String
image_suffixes = ".png" ∷ ".jpg" ∷ ".jpeg" ∷ ".gif" ∷ ".svg" ∷ ".webp" ∷ []

pub record PreparedEntry : Type 0 where
  pub key : String
  pub value : Value
  pub data_type : String
  pub group : Option String
  pub searchable : Bool

unfoldable pub is_url : String → Bool
is_url text = starts_with text "http://" || starts_with text "https://"

-- `is_pandas`, with the columns and the data of the split.
abbrev pub as_frame : Value → Option (Items × Items)
as_frame v = elim v [ frame columns rows ↦ some (columns, rows) | _ ↦ none ]

-- `isinstance(value, (dict, list))`
abbrev pub is_container : Value → Bool
is_container v = elim v [ mapping es ↦ true | sequence vs ↦ true | _ ↦ false ]

module _ (python : Python) where
  unfoldable pub infer_data_type : Value → String
  infer_data_type v = elim v [
    | frame columns rows ↦ "table"
    | mapping es ↦ "json"
    | sequence vs ↦ "json"
    | path text suffix ↦ if contains image_suffixes (python.lower suffix) then "image" else "link"
    | str text ↦ if is_url text then "link" else "text"
    | _ ↦ "text"
  ]

  -- The value and the searchability behind the stage for images and links.
  unfoldable pub as_reference : String → Value → Bool → Value × Bool
  as_reference data_type v searchable =
      if (data_type == "image") || (data_type == "link")
      then (str (python.text_of v), searchable && is_url (python.text_of v))
      else (v, searchable)

  unfoldable pub as_table : String → Value × Bool → Result (Value × Bool)
  as_table data_type (v, searchable) =
      let split : Result (Value × Bool) = elim (as_frame v) [
        | none ↦ err type_error
        | some (columns, rows) ↦ ok (
          mapping (
              field (text_key "columns") (sequence columns)
                (field (text_key "rows") (sequence rows) end)),
          false,
        )
      ] in
      if data_type == "table" then split else ok (v, searchable)

  unfoldable pub as_json : String → Value × Bool → Result (Value × Bool)
  as_json data_type (v, searchable) =
      if data_type == "json"
      then (if is_container v then ok (v, false) else err type_error)
      else ok (v, searchable)

  -- The check at the end, and whether the coercion was warned of.
  unfoldable pub finish :
      String → String → Option String → Value × Bool → Result (PreparedEntry × Bool)
  finish key data_type group (v, searchable) =
      let (value, coerced) = to_jsonable v in
      if python.dumps value
      then ok (
        record {
          key = key;
          value = value;
          data_type = data_type;
          group = group;
          searchable = searchable;
        },
        coerced,
      )
      else err type_error

  unfoldable pub prepare_entry :
      String → Value → Option String → String → Bool → Result (PreparedEntry × Bool)
  prepare_entry key v group data_type searchable =
      let kind = if data_type == "auto" then infer_data_type v else data_type in
      let coerced = as_table kind (as_reference kind v searchable) >>= λ table.
      as_json kind table >>= λ json. finish key kind group json in
      if contains reserved_keys key
      then err value_error
      else if contains valid_data_types data_type
      then coerced
      else err value_error

-- What the path library makes of a text: whether it is absolute, its posix form, and, resolved, its
-- posix form below the scratch directory, where it lies there.
pub record Paths : Type 0 where
  pub is_absolute : String → Bool
  pub as_posix : String → String
  pub below_scratch : String → Option String

module _ (python : Python) (paths : Paths) where
  unfoldable pub normalise_artifact_reference : PreparedEntry → PreparedEntry
  normalise_artifact_reference entry =
      let text = python.text_of entry.value in
      let posix : PreparedEntry = record entry { value = str (paths.as_posix text) } in
      let inside : PreparedEntry = elim (paths.below_scratch text) [
        | none ↦ posix
        | some relative ↦ record entry { value = str relative }
      ] in
      if not ((entry.data_type == "image") || (entry.data_type == "link"))
      then entry
      else if is_url text
      then entry
      else if paths.is_absolute text
      then inside
      else posix

  -- The entries of the handle, and whether there was a warning.
  unfoldable pub add_meta :
      String
      → Value
      → Option String
      → String
      → Bool
      → Dict PreparedEntry
      → Result (Dict PreparedEntry × Bool)
  add_meta key v group data_type searchable entries =
      prepare_entry python key v group data_type searchable >>= λ prepared.
      ok (insert key (normalise_artifact_reference prepared.0) entries, prepared.1)
