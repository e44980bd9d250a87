-- ===== src/Tests/Entries.antt =====
-- Values are coerced and entries prepared.
use ancestree.Prelude.{
  String, text_discrete, ◌≡◌, refl, true, false, some, contains, ok, List, [], ◌∷◌, map, filter,
  sort_by,
}
use ancestree.MetadataStore.Read.{by_age, lookup, metadata_for}
use ancestree.MetadataStore.Find.Entries.{passes_entry}
use ancestree.MetadataStore.Find.Accepts.{entry_test}
use ancestree.Util.{
  Value, integer, str, temporal, mapping, sequence, collection, array, scalar, done, item, end,
  field, other_key, text_key, convert, to_jsonable,
}
use ancestree.Util.Native.{native, has_key, recognised, to_jsonable-native, to_jsonable-same}
use ancestree.Domain.Metadata.{
  Python, PreparedEntry, infer_data_type, as_reference, as_table, as_json, finish, prepare_entry,
}
use ancestree.Domain.Metadata.Prepared.{IsPrepared, prepare_entry-IsPrepared, prepare_entry-find}
use ancestree.MetadataStore.Find.{Warning, number, find}
use ancestree.Tests.Searches.{sqlite, scored, scored-HasKeys}

-- A dict under a number, with a tuple that holds a time and a numpy array.
abbrev nested : Value
nested = mapping (
    field (other_key "1")
      (collection (
        item (temporal "2026-01-01")
          (item (array (sequence (item (scalar (integer 3)) done))) done)))
      end)

to_jsonable-native_example :
    (native (to_jsonable nested).0 ≡ true)
    × (to_jsonable (to_jsonable nested).0 ≡ ((to_jsonable nested).0, false))
unfolding recognised
to_jsonable-native_example = to_jsonable-native nested refl

abbrev plain : Value
plain =
    mapping (field (text_key "1") (sequence (item (str "2026-01-01") (item (integer 3) done))) end)

to_jsonable-same_example : to_jsonable plain ≡ (plain, false)
unfolding native has_key
to_jsonable-same_example = to_jsonable-same plain refl

abbrev text_of : Value → String
text_of v = elim v [ str s ↦ s | _ ↦ "" ]

abbrev python : Python
python = record { lower = λ s. s; text_of = text_of; dumps = native }

abbrev score : PreparedEntry
score = record {
  key = "score";
  value = integer 9;
  data_type = "text";
  group = some "General";
  searchable = true;
}

score_prepared :
    prepare_entry python "score" (scalar (integer 9)) (some "General") "auto" true
    ≡ ok (score, true)
unfolding prepare_entry infer_data_type as_reference as_table as_json finish convert native contains
    text_discrete
score_prepared = refl

prepare_entry-IsPrepared_example :
    IsPrepared python "score" (scalar (integer 9)) (some "General") "auto" true score
prepare_entry-IsPrepared_example =
    prepare_entry-IsPrepared python "score" (scalar (integer 9)) (some "General") "auto" true score
      true score_prepared

prepare_entry-find_example :
    (found : List String × List Warning) × (find sqlite scored (("score", number 9) ∷ [])
      ≡ ok found)
    × (found.0
        ≡ map
            (λ n. n.node_id)
            (sort_by by_age (
              filter
                (λ n.
                  passes_entry
                    (entry_test sqlite (number 9))
                    (lookup (metadata_for scored n.node_id) "score"))
                scored.node)))
unfolding text_discrete
prepare_entry-find_example =
    prepare_entry-find python "score" (scalar (integer 9)) (some "General") "auto" true score true
      sqlite scored (number 9) score_prepared refl refl scored-HasKeys
