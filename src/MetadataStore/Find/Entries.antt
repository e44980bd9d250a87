-- ===== src/MetadataStore/Find/Entries.antt =====
-- The metadata as the queries of `find` see it, and as `metadata_for` gives it for one node.
use ancestree.Prelude.{
  String, text_discrete, ◌==◌, ◌≡◌, refl, ap₂, sym, ◌∙◌, Bool, false, ◌&&◌, any, filter, List, [],
  ◌∷◌, map, Option, none, some, if◌then◌else◌, arith,
}
use ancestree.Database.{Database, EntryRow, MetadataRow}
use ancestree.MetadataStore.Write.{has_entry}
use ancestree.MetadataStore.Read.{Dict, lookup, metadata_for}
use ancestree.MetadataStore.Find.{meta_values}

-- The primary key of the metadata table.
abbrev pub HasKeys : List EntryRow → Type 0
HasKeys [] = Unit
HasKeys (m ∷ ms) = (has_entry ms m.owner m.entry.key ≡ false) × HasKeys ms

abbrev pub passes_entry : (MetadataRow → Bool) → Option MetadataRow → Bool
passes_entry test none = false
passes_entry test (some m) = m.searchable && test m

abbrev pub searchable_value : Option MetadataRow → Option String
searchable_value none = none
searchable_value (some m) = if m.searchable then some m.value_json else none

abbrev pub entries_of : String → List EntryRow → Dict MetadataRow
entries_of id rows = map (λ m. (m.entry.key, m.entry)) (filter (λ m. m.owner == id) rows)

abbrev values_under : String → List EntryRow → Dict String
values_under key rows =
    map (λ m. (m.owner, m.entry.value_json))
      (filter (λ m. (m.entry.key == key) && m.entry.searchable) rows)

module _ (test : MetadataRow → Bool) (id key : String) where
  abbrev hit : EntryRow → Bool
  hit m = (m.owner == id) && (m.entry.key == key) && m.entry.searchable && test m.entry

  any-hit_absent : (rows : List EntryRow) → has_entry rows id key ≡ false → any hit rows ≡ false
  unfolding any has_entry
  any-hit_absent [] h = refl
  any-hit_absent (m ∷ rows) h = ground (arith, any-hit_absent rows)

  any-hit_rows :
      (rows : List EntryRow)
      → HasKeys rows
      → any hit rows ≡ passes_entry test (lookup (entries_of id rows) key)
  unfolding any filter lookup
  any-hit_rows [] k = refl
  any-hit_rows (m ∷ rows) k = elim (text_discrete m.owner id) [
    | no o ↦ ground (arith, any-hit_rows rows k.1)
    | yes o ↦ elim (text_discrete m.entry.key key) [
      | no e ↦ ground (arith, any-hit_rows rows k.1)
      | yes e ↦
          let absent : has_entry rows id key ≡ false = ap₂ (has_entry rows) (sym o) (sym e) ∙ k.0 in
          ground (arith, any-hit_absent rows absent)
    ]
  ]

  -- A row of the node under the key that passes a test, by the query and by the node's own entries.
  pub any-hit :
      (db : Database)
      → HasKeys db.metadata
      → any hit db.metadata ≡ passes_entry test (lookup (metadata_for db id) key)
  unfolding metadata_for
  any-hit db k = any-hit_rows db.metadata k

module _ (id key : String) where
  values_absent :
      (rows : List EntryRow)
      → has_entry rows id key ≡ false
      → lookup (values_under key rows) id ≡ none
  unfolding filter lookup any has_entry
  values_absent [] h = refl
  values_absent (m ∷ rows) h = ground (arith, values_absent rows)

  lookup-values_under :
      (rows : List EntryRow)
      → HasKeys rows
      → lookup (values_under key rows) id ≡ searchable_value (lookup (entries_of id rows) key)
  unfolding filter lookup
  lookup-values_under [] k = refl
  lookup-values_under (m ∷ rows) k = elim (text_discrete m.owner id) [
    | no o ↦ ground (arith, lookup-values_under rows k.1)
    | yes o ↦ elim (text_discrete m.entry.key key) [
      | no e ↦ ground (arith, lookup-values_under rows k.1)
      | yes e ↦
          let absent : has_entry rows id key ≡ false = ap₂ (has_entry rows) (sym o) (sym e) ∙ k.0 in
          ground (arith, values_absent rows absent)
    ]
  ]

  pub lookup-meta_values :
      (db : Database)
      → HasKeys db.metadata
      → lookup (meta_values db key) id ≡ searchable_value (lookup (metadata_for db id) key)
  unfolding metadata_for meta_values
  lookup-meta_values db k = lookup-values_under db.metadata k
