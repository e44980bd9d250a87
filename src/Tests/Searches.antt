-- ===== src/Tests/Searches.antt =====
-- Searches by column, by entry, by predicate and by parents.
use ancestree.Prelude.{
  ℕ, String, text_discrete, ◌==◌, ◌=?◌, ◌≡◌, refl, Bool, true, false, Option, none, some, List, [],
  ◌∷◌, map, filter, all, any, contains, find?, sort_by, insert_by, text_leb, if◌then◌else◌, Result,
  ok, err, type_error, sqlite_programming,
}
use ancestree.Database.{Database, NodeRow, EntryRow, MetadataRow}
use ancestree.MetadataStore.Read.{
  node_row as find_row, Dict, lookup, by_age, metadata_for, parents_of,
}
use ancestree.MetadataStore.Write.{has_entry}
use ancestree.MetadataStore.Envelopes.{metadata_for_many, metadata_for_many-metadata_for}
use ancestree.MetadataStore.Find.{
  Cell, integer, str, parent_list, Argument, null, boolean, number, word, node_like, sequence,
  callable, Driver, Warning, column, find,
}
use ancestree.MetadataStore.Find.Entries.{HasKeys}
use ancestree.MetadataStore.Find.Accepts.{supported, accepts, column_test, value_of}
use ancestree.MetadataStore.Find.Answer.{find-accepts}
use ancestree.Store.Search.{Filters, find_nodes, record_of_row, find_nodes-accepts}
use ancestree.Tests.Graph.{join}

abbrev dumps : Argument → Result String
dumps null = ok "null"
dumps (boolean b) = ok (if b then "true" else "false")
dumps (number n) = ok "0"
dumps (word s) = ok s
dumps (node_like i) = err type_error
dumps (sequence is) = ok "[]"
dumps (callable p) = err type_error

abbrev bind : Argument → Result (Unit {0})
bind null = ok tt
bind (boolean b) = ok tt
bind (number n) = ok tt
bind (word s) = ok tt
bind (node_like i) = err sqlite_programming
bind (sequence is) = err sqlite_programming
bind (callable p) = err sqlite_programming

abbrev sql_equal : Cell → Argument → Bool
sql_equal (integer m) (number n) = m =? n
sql_equal (str s) (word t) = s == t
sql_equal c a = false

abbrev pub sqlite : Driver
sqlite = record { dumps = dumps; bind = bind; sql_equal = sql_equal }

abbrev entry : String → String → Option ℕ → EntryRow
entry owner value n = record {
  owner = owner;
  entry = record {
    key = "score";
    value_json = value;
    data_type = "text";
    group = none;
    searchable = true;
    num_value = n;
  };
}

abbrev pub scored : Database
scored = record join {
  metadata = entry "a" "9" (some 9) ∷ entry "c" "9" (some 9) ∷ entry "b" "3" (some 3) ∷ [];
}

abbrev has_two : Cell → Result Bool
has_two (parent_list (a ∷ b ∷ [])) = ok true
has_two c = ok false

abbrev filters : Filters
filters = ("step_type", word "clean") ∷ ("score", number 9) ∷ ("parent_id", callable has_two) ∷ []

pub scored-HasKeys : HasKeys scored.metadata
unfolding has_entry any text_discrete
scored-HasKeys = (refl, (refl, (refl, tt)))

filters-supported : all (supported sqlite) filters ≡ true
unfolding all supported text_discrete contains
filters-supported = refl

find-accepts_example :
    (found : List String × List Warning) × (find sqlite scored filters ≡ ok found)
    × (found.0
        ≡ map
            (λ n. n.node_id)
            (sort_by by_age (filter (λ n. all (accepts sqlite scored n) filters) scored.node)))
unfolding text_discrete contains
find-accepts_example =
    find-accepts sqlite scored filters scored-HasKeys (refl, (refl, (refl, tt))) filters-supported

finds_c :
    map
      (λ (n : NodeRow). n.node_id)
      (sort_by by_age (filter (λ n. all (accepts sqlite scored n) filters) scored.node))
    ≡ "c" ∷ []
unfolding sort_by insert_by filter all accepts text_discrete contains metadata_for parents_of lookup
    text_leb column_test column value_of
finds_c = refl

find_nodes-accepts_example :
    find_nodes sqlite scored filters
    ≡ ok (
        map
          (record_of_row scored)
          (sort_by by_age (filter (λ n. all (accepts sqlite scored n) filters) scored.node)))
unfolding text_discrete contains find_row find?
find_nodes-accepts_example =
    find_nodes-accepts sqlite scored filters (refl, (refl, (refl, tt))) scored-HasKeys
      (refl, (refl, (refl, tt))) filters-supported

metadata_for_many-metadata_for_example :
    (entries : Dict MetadataRow) × (lookup (metadata_for_many scored ("a" ∷ "c" ∷ [])) "c"
      ≡ some entries)
    × ((key : String) → lookup entries key ≡ lookup (metadata_for scored "c") key)
unfolding text_discrete contains
metadata_for_many-metadata_for_example =
    metadata_for_many-metadata_for scored ("a" ∷ "c" ∷ []) "c" scored-HasKeys refl
