-- ===== src/Domain/Metadata/Prepared.antt =====
-- What `prepare_entry` lets through.
use mathlib.Core.Bool.{false≢true}
use ancestree.Prelude.{
  ◌≢◌, Error, String, text_discrete, ◌==◌, ◌≡◌, refl, ap, sym, ◌∙◌, Bool, true, false, not, ◌&&◌,
  ◌||◌, Option, none, contains, if◌then◌else◌, Result, ok, err, ◌>>=◌, >>=-eq-ok, Bool-cases,
  Option-cases, inl, inr, arith, List, [], ◌∷◌, map, filter, filter-ext, sort_by, all,
}
use ancestree.Database.{Database}
use ancestree.Util.{
  Value, null, boolean, integer, floating, str, temporal, mapping, sequence, collection, array,
  scalar, path, frame, opaque, to_jsonable,
}
use ancestree.Domain.Metadata.{
  Python, PreparedEntry, valid_data_types, image_suffixes, reserved_keys, is_url, infer_data_type,
  as_reference, as_table, as_json, finish, prepare_entry, as_frame, is_container,
}
use ancestree.MetadataStore.Read.{by_age, lookup, metadata_for}
use ancestree.MetadataStore.Find.{Argument, Driver, Warning, node_columns, as_callable, find}
use ancestree.MetadataStore.Find.Entries.{HasKeys, passes_entry}
use ancestree.MetadataStore.Find.Accepts.{entry_test, entry_supported}
use ancestree.MetadataStore.Find.Staging.{accepts_entry, supported_entry}
use ancestree.MetadataStore.Find.Answer.{find-accepts}

ok-injective {ℓ} : {A : Type ℓ} {a b : A} → ◌≡◌ {A = Result A} (ok a) (ok b) → a ≡ b
ok-injective h = cc

err-ne-ok {ℓ} : {A : Type ℓ} {e : Error} {a : A} → ◌≢◌ {A = Result A} (err e) (ok a)
err-ne-ok h = cc

module _ (python : Python) (kind : String) where
  as_table-searchable :
      (v : Value) (b : Bool) (t : Value × Bool)
      → as_table python kind (v, b) ≡ ok t
      → t.1 ≡ true
      → (b ≡ true) × ((kind == "table") ≡ false)
  unfolding as_table
  as_table-searchable v b t h s = elim (Bool-cases (kind == "table")) [
    | inr e ↦ (ap (λ (q : Value × Bool). q.1) (ok-injective (rw (as_table, e) at h)) ∙ s, e)
    | inl e ↦ elim (Option-cases (as_frame v)) [
      | inl f ↦ absurd (err-ne-ok (rw (as_table, e, f) at h))
      | inr (split, f) ↦ absurd (
          false≢true (ap (λ (q : Value × Bool). q.1) (ok-injective (rw (as_table, e, f) at h)) ∙ s))
    ]
  ]

  as_json-searchable :
      (v : Value) (b : Bool) (t : Value × Bool)
      → as_json python kind (v, b) ≡ ok t
      → t.1 ≡ true
      → (b ≡ true) × ((kind == "json") ≡ false)
  unfolding as_json
  as_json-searchable v b t h s = elim (Bool-cases (kind == "json")) [
    | inr e ↦ (ap (λ (q : Value × Bool). q.1) (ok-injective (rw (as_json, e) at h)) ∙ s, e)
    | inl e ↦ elim (Bool-cases (is_container v)) [
      | inr f ↦ absurd (err-ne-ok (rw (as_json, e, f) at h))
      | inl f ↦
          absurd (
            false≢true
              (ap (λ (q : Value × Bool). q.1) (ok-injective (rw (as_json, e, f) at h)) ∙ s))
    ]
  ]

  as_reference-searchable :
      (v : Value) (b : Bool)
      → (as_reference python kind v b).1 ≡ true
      → (b && (not ((kind == "image") || (kind == "link")) || is_url (python.text_of v))) ≡ true
  unfolding as_reference
  as_reference-searchable v b h = ground (arith, h)

  finish-ok :
      (key : String) (group : Option String) (v : Value) (b : Bool) (entry : PreparedEntry)
      (coerced : Bool)
      → finish python key kind group (v, b) ≡ ok (entry, coerced)
      → (entry.key ≡ key)
        × (entry.data_type ≡ kind)
        × (entry.group ≡ group)
        × (entry.searchable ≡ b)
        × (python.dumps entry.value ≡ true)
  unfolding finish
  finish-ok key group v b entry coerced h = elim (Bool-cases (python.dumps (to_jsonable v).0)) [
    | inr e ↦ absurd (err-ne-ok (rw (finish, e) at h))
    | inl e ↦
        let same = ap (λ (q : PreparedEntry × Bool). q.0) (ok-injective (rw (finish, e) at h)) in
        (
          ap (λ q. q.key) (sym same),
          ap (λ q. q.data_type) (sym same),
          ap (λ q. q.group) (sym same),
          ap (λ q. q.searchable) (sym same),
          ap (λ q. python.dumps q.value) (sym same) ∙ e,
        )
  ]

  finish-of_stages :
      (key : String) (group : Option String) (v : Value) (b : Bool) (entry : PreparedEntry)
      (coerced : Bool)
      → (as_table python kind (as_reference python kind v b) >>= λ table.
          as_json python kind table >>= λ json. finish python key kind group json)
        ≡ ok (entry, coerced)
      → (entry.key ≡ key)
        × (entry.data_type ≡ kind)
        × (entry.group ≡ group)
        × (python.dumps entry.value ≡ true)
        × (entry.searchable ≡ true
            → (b
                && (not ((kind == "image") || (kind == "link")) || is_url (python.text_of v))
                && not (kind == "table")
                && not (kind == "json"))
              ≡ true)
  finish-of_stages key group v b entry coerced h =
      let (table, tabled, h') =
        >>=-eq-ok (as_table python kind (as_reference python kind v b)) _ h in
      let (json, jsoned, h2) = >>=-eq-ok (as_json python kind table) _ h' in
      let (k, d, g, s, t) = finish-ok key group json.0 json.1 entry coerced h2 in
      (
        k,
        d,
        g,
        t,
        λ found.
            let (sj, ej) = as_json-searchable table.0 table.1 json jsoned (sym s ∙ found) in
            let (st, et) =
              as_table-searchable (as_reference python kind v b).0 (as_reference python kind v b).1
                table tabled sj in
            ground (arith, as_reference-searchable v b st),
      )

module _ (python : Python) where
  -- A kind that is not "auto" any more.
  abbrev pub is_kind : String → Bool
  is_kind kind = contains valid_data_types kind && not (kind == "auto")

  is_kind-if :
      (b : Bool) (s t : String)
      → is_kind s ≡ true
      → is_kind t ≡ true
      → is_kind (if b then s else t) ≡ true
  is_kind-if true s t h k = h
  is_kind-if false s t h k = k

  infer_data_type-is_kind : (v : Value) → is_kind (infer_data_type python v) ≡ true
  unfolding infer_data_type contains text_discrete
  infer_data_type-is_kind null = refl
  infer_data_type-is_kind (boolean b) = refl
  infer_data_type-is_kind (integer n) = refl
  infer_data_type-is_kind (floating n) = refl
  infer_data_type-is_kind (temporal s) = refl
  infer_data_type-is_kind (mapping es) = refl
  infer_data_type-is_kind (sequence vs) = refl
  infer_data_type-is_kind (collection vs) = refl
  infer_data_type-is_kind (array v) = refl
  infer_data_type-is_kind (scalar v) = refl
  infer_data_type-is_kind (frame columns rows) = refl
  infer_data_type-is_kind opaque = refl
  infer_data_type-is_kind (str text) = is_kind-if (is_url text) "link" "text" refl refl
  infer_data_type-is_kind (path text suffix) =
      is_kind-if (contains image_suffixes (python.lower suffix)) "image" "link" refl refl

  -- The kind that an entry is prepared with.
  abbrev pub kind_of : String → Value → String
  kind_of data_type v = if data_type == "auto" then infer_data_type python v else data_type

  kind_of-is_kind :
      (data_type : String) (v : Value)
      → contains valid_data_types data_type ≡ true
      → is_kind (kind_of data_type v) ≡ true
  kind_of-is_kind data_type v h = elim (Bool-cases (data_type == "auto")) [
    | inl e ↦ rw e (infer_data_type-is_kind v)
    | inr e ↦ rw e (ground (arith, h))
  ]

  pub record IsPrepared (key : String) (v : Value) (group : Option String) (data_type : String)
      (searchable : Bool) (entry : PreparedEntry) : Type 0 where
    pub same_key : entry.key ≡ key
    pub same_group : entry.group ≡ group
    pub inferred : entry.data_type ≡ kind_of data_type v
    pub kind : is_kind entry.data_type ≡ true
    pub free : contains reserved_keys key ≡ false
    pub encodes : python.dumps entry.value ≡ true
    pub found :
        entry.searchable ≡ true
        → (searchable
            && (not ((kind_of data_type v == "image") || (kind_of data_type v == "link"))
                || is_url (python.text_of v))
            && not (kind_of data_type v == "table")
            && not (kind_of data_type v == "json"))
          ≡ true

  -- An entry that is let through has the key and the group it was given, a key that the store does not
  -- own, a kind that is valid and no longer "auto" (the one given, or the one inferred), and a value that
  -- can be serialised. It is searchable only where that was asked for, and never where it is a table,
  -- JSON, or a reference to a file.
  pub prepare_entry-IsPrepared :
      (key : String) (v : Value) (group : Option String) (data_type : String) (searchable : Bool)
      (entry : PreparedEntry) (coerced : Bool)
      → prepare_entry python key v group data_type searchable ≡ ok (entry, coerced)
      → IsPrepared key v group data_type searchable entry
  unfolding prepare_entry
  prepare_entry-IsPrepared key v group data_type searchable entry coerced h =
      elim (Bool-cases (contains reserved_keys key)) [
        | inl e ↦ absurd (err-ne-ok (rw (prepare_entry, e) at h))
        | inr e ↦ elim (Bool-cases (contains valid_data_types data_type)) [
          | inr f ↦ absurd (err-ne-ok (rw (prepare_entry, e, f) at h))
          | inl f ↦
              let (k, d, g, t, s) =
                finish-of_stages python (kind_of data_type v) key group v searchable entry coerced
                  (rw (prepare_entry, e, f) at h) in
              record {
                same_key = k;
                same_group = g;
                inferred = d;
                kind = ap is_kind d ∙ kind_of-is_kind data_type v f;
                free = e;
                encodes = t;
                found = s;
              }
        ]
      ]

columns_reserved :
    (key : String)
    → contains reserved_keys key ≡ false
    → ((key == "parent_id") ≡ false) × (contains node_columns key ≡ false)
unfolding contains
columns_reserved key h = (ground (arith, h), ground (arith, h))

-- A structural fact is never shadowed: where a key has been let through, a search for a value under that
-- key ends with the ids of exactly those nodes whose searchable metadata has the value there, oldest first,
-- whatever stands in the columns and the parents of a node. The value is no predicate and one that
-- the JSON library takes, and no two rows of the metadata have the same node and key.
pub prepare_entry-find :
    (python : Python) (key : String) (v : Value) (group : Option String) (data_type : String)
    (searchable : Bool) (entry : PreparedEntry) (coerced : Bool) (driver : Driver) (db : Database)
    (wanted : Argument)
    → prepare_entry python key v group data_type searchable ≡ ok (entry, coerced)
    → as_callable wanted ≡ none
    → entry_supported driver wanted ≡ true
    → HasKeys db.metadata
    → (found : List String × List Warning) × (find driver db ((key, wanted) ∷ []) ≡ ok found)
      × (found.0
          ≡ map
              (λ n. n.node_id)
              (sort_by by_age (
                filter
                  (λ n.
                    passes_entry
                      (entry_test driver wanted)
                      (lookup (metadata_for db n.node_id) key))
                  db.node)))
unfolding all contains
prepare_entry-find python key v group data_type searchable entry coerced driver db wanted h e takes
      unique =
    let prepared =
      prepare_entry-IsPrepared python key v group data_type searchable entry coerced h in
    let (no_parent, no_column) = columns_reserved key prepared.free in
    let fine = supported_entry driver key wanted e no_parent no_column ∙ takes in
    let (found, q, ids) =
      find-accepts driver db ((key, wanted) ∷ []) unique (refl, tt) (ground (arith, fine)) in
    (
      found,
      q,
      ids
          ∙ ap (λ rows. map (λ n. n.node_id) (sort_by by_age rows))
              (filter-ext _ _
                (λ n.
                  let one = accepts_entry driver db n key wanted e no_parent no_column in
                  ground (arith, one))
                db.node),
    )
