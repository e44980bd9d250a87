-- ===== src/Store/Create/Reuse.antt =====
-- What the reuse of an identical node promises.
use ancestree.Prelude.{
  String, text_discrete, ◌==◌, ◌≡◌, refl, ◌∙◌, ap, sym, Bool, true, false, ◌&&◌, Option, none, some,
  List, [], ◌∷◌, all, Option-cases, Bool-cases, inl, inr, arith,
}
use ancestree.Database.{Database}
use ancestree.Domain.Fingerprint.{ContentSummary, digest}
use ancestree.MetadataStore.Write.{NodeRecord}
use ancestree.MetadataStore.Read.{Dict, lookup, get, find_by_hash}
use ancestree.MetadataStore.Batches.{get-id}
use ancestree.Store.Config.{same_list}
use ancestree.Store.Create.{
  Handle, same_summary, same_dict, same_value, same_envelope, stored_summary, reuse_identical_node,
}

texts-eq : (xs ys : List String) → same_list (λ a b. a == b) xs ys ≡ true → xs ≡ ys
unfolding same_list
texts-eq [] [] h = refl
texts-eq [] (y ∷ ys) h = cc
texts-eq (x ∷ xs) [] h = cc
texts-eq (x ∷ xs) (y ∷ ys) h = ground (arith, texts-eq xs ys)

same_value-eq :
    (o : Option String) (v : String) → same_value (λ a b. a == b) o v ≡ true → o ≡ some v
same_value-eq none v h = cc
same_value-eq (some u) v h = ap some (ground arith)

-- The entries of one dict that another has to agree with.
all-lookup :
    (d e : Dict String) (k v : String)
    → all (λ q. same_value (λ a b. a == b) (lookup d q.0) q.1) e ≡ true
    → lookup e k ≡ some v
    → lookup d k ≡ some v
unfolding all lookup
all-lookup d [] k v h m = cc
all-lookup d ((j, w) ∷ e) k v h m = elim (text_discrete j k) [
  | yes q ↦
      let same : lookup d j ≡ lookup d k = ap (lookup d) q in
      ground (arith, same_value-eq (lookup d j) w)
  | no q ↦ ground (arith, all-lookup d e k v)
]

both : (a b : Bool) → (a && b) ≡ true → (a ≡ true) × (b ≡ true)
both true true h = (refl, refl)
both true false h = cc
both false b h = cc

summary-parts :
    (s t : ContentSummary)
    → same_summary s t ≡ true
    → (s.step_type ≡ t.step_type)
      × (s.parent_id ≡ t.parent_id)
      × ((k v : String)
          → lookup t.artifact_sha256s k ≡ some v
          → lookup s.artifact_sha256s k ≡ some v)
unfolding same_summary same_dict
summary-parts s t h =
    let type : Bool = s.step_type == t.step_type in
    let parents = same_list (λ a b. a == b) s.parent_id t.parent_id in
    let entries = same_dict same_envelope s.metadata t.metadata in
    let given =
      all (λ q. same_value (λ a b. a == b) (lookup s.artifact_sha256s q.0) q.1)
        t.artifact_sha256s in
    let back =
      all (λ q. same_value (λ a b. a == b) (lookup t.artifact_sha256s q.0) q.1)
        s.artifact_sha256s in
    let (abc, d) = both (type && parents && entries) (given && back) h in
    let (ab, c) = both (type && parents) entries abc in
    let (a, b) = both type parents ab in
    let (one, other) = both given back d in
    (
      ground arith,
      texts-eq s.parent_id t.parent_id b,
      λ k v. all-lookup s.artifact_sha256s t.artifact_sha256s k v one,
    )

-- A handle is rebound only onto a node that is in the store, with the step type and the sorted parents
-- of the new one, and with the same SHA-256 for every artifact of the new one, whatever the digest
-- that nominated it.
pub reuse_identical_node-same :
    (dumps_sha256 : ContentSummary → String) (db : Database) (handle rebound : Handle)
    (summary : ContentSummary)
    → reuse_identical_node dumps_sha256 db handle summary ≡ some rebound
    → (r : NodeRecord) × (get db rebound.node_id ≡ some r)
      × ((stored_summary db r).step_type ≡ summary.step_type)
      × ((stored_summary db r).parent_id ≡ summary.parent_id)
      × ((relpath sha256 : String)
          → lookup summary.artifact_sha256s relpath ≡ some sha256
          → lookup (stored_summary db r).artifact_sha256s relpath ≡ some sha256)
unfolding reuse_identical_node
reuse_identical_node-same dumps_sha256 db handle rebound summary h =
    elim (Option-cases (find_by_hash db (digest dumps_sha256 summary))) [
      | inl e ↦ let h' = rw (reuse_identical_node, e) at h in cc
      | inr (id, e) ↦ elim (Option-cases (get db id)) [
        | inl f ↦ let h' = rw (reuse_identical_node, e, f) at h in cc
        | inr (r, f) ↦ elim (Bool-cases (same_summary (stored_summary db r) summary)) [
          | inr g ↦ let h' = rw (reuse_identical_node, e, f, g) at h in cc
          | inl g ↦
              let h' = rw (reuse_identical_node, e, f, g) at h in
              let same : r.row.node_id ≡ rebound.node_id =
                ap (λ (o : Option Handle). elim o [ none ↦ r.row.node_id | some q ↦ q.node_id ])
                  h' in
              let found : get db rebound.node_id ≡ some r =
                ap (get db) (sym same ∙ get-id db id r f) ∙ f in
              let (p, q, k) = summary-parts (stored_summary db r) summary g in (r, found, p, q, k)
        ]
      ]
    ]
