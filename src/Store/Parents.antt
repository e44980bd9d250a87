-- ===== src/Store/Parents.antt =====
-- `_resolve_parents` of src/ancestree/store.py.
use ancestree.Prelude.{
  String, text_discrete, ◌==◌, ◌≡◌, refl, ◌∙◌, ap, sym, subst, Bool, true, false, ◌||◌, Option,
  none, some, List, [], ◌∷◌, ◌++◌, map, contains, Result, ok, err, value_error, if◌then◌else◌,
  Option-cases, inl, inr, Bool-cases, arith, All, contains-append,
}
use ancestree.Database.{Database}
use ancestree.MetadataStore.Write.{NodeRecord}
use ancestree.MetadataStore.Read.{get}
use ancestree.MetadataStore.Batches.{get-id}

-- The loop over the items; None is skipped. A node or a handle stands for its id.
unfoldable pub resolve_from :
    Database → List (Option String) → List String → List NodeRecord → Result (List NodeRecord)
resolve_from db [] seen records = ok records
resolve_from db (none ∷ items) seen records = resolve_from db items seen records
resolve_from db (some pid ∷ items) seen records =
    let again = resolve_from db items seen records in
    if contains seen pid then again else elim (get db pid) [
      | none ↦ err value_error
      | some r ↦ resolve_from db items (pid ∷ seen) (records ++ r ∷ [])
    ]

unfoldable pub resolve_parents : Database → List (Option String) → Result (List NodeRecord)
resolve_parents db items = resolve_from db items [] []

abbrev pub ids_of : List NodeRecord → List String
ids_of records = map (λ r. r.row.node_id) records

abbrev pub AreDistinct : List String → Type 0
AreDistinct [] = Unit
AreDistinct (i ∷ ids) = (contains ids i ≡ false) × AreDistinct ids

abbrev pub AreKnown : Database → List NodeRecord → Type 0
AreKnown db records = All (λ r. get db r.row.node_id ≡ some r) records

-- `None` apart, the items that come in a list.
abbrev pub is_item : List (Option String) → String → Bool
is_item [] id = false
is_item (none ∷ items) id = is_item items id
is_item (some i ∷ items) id = (i == id) || is_item items id

ids-append :
    (records : List NodeRecord) (r : NodeRecord)
    → ids_of (records ++ r ∷ []) ≡ ids_of records ++ r.row.node_id ∷ []
ids-append [] r = refl
ids-append (q ∷ records) r = ap (λ l. q.row.node_id ∷ l) (ids-append records r)

AreKnown-append :
    (db : Database) (records : List NodeRecord) (r : NodeRecord)
    → AreKnown db records
    → get db r.row.node_id ≡ some r
    → AreKnown db (records ++ r ∷ [])
AreKnown-append db [] r k h = (h, tt)
AreKnown-append db (q ∷ records) r k h = (k.0, AreKnown-append db records r k.1 h)

AreDistinct-append :
    (ids : List String) (i : String)
    → AreDistinct ids
    → contains ids i ≡ false
    → AreDistinct (ids ++ i ∷ [])
unfolding contains
AreDistinct-append [] i d h = (refl, tt)
AreDistinct-append (j ∷ ids) i d h = (
  ground (arith, d.0, contains-append ids (i ∷ []) j),
  AreDistinct-append ids i d.1 (ground arith),
)

-- What the loop returns from a point where `seen` are the ids of `records`.
abbrev pub Resolved : Database → (String → Bool) → List NodeRecord → Type 0
Resolved db wanted records =
    AreDistinct (ids_of records)
    × AreKnown db records
    × ((id : String) → contains (ids_of records) id ≡ wanted id)

resolve_from-Resolved :
    (db : Database) (items : List (Option String)) (seen : List String)
    (records rs : List NodeRecord)
    → AreDistinct (ids_of records)
    → AreKnown db records
    → ((id : String) → contains seen id ≡ contains (ids_of records) id)
    → resolve_from db items seen records ≡ ok rs
    → Resolved db (λ id. contains (ids_of records) id || is_item items id) rs
unfolding resolve_from contains
resolve_from-Resolved db [] seen records rs d k s h =
    let e : records ≡ rs =
      ap (λ (o : Result (List NodeRecord)). elim o [ ok q ↦ q | err _ ↦ records ]) h in
    subst
      (λ q.
        AreDistinct (ids_of q)
        × AreKnown db q
        × ((id : String) → contains (ids_of q) id ≡ (contains (ids_of records) id || false)))
      e (d, k, λ id. ground arith)
resolve_from-Resolved db (none ∷ items) seen records rs d k s h =
    resolve_from-Resolved db items seen records rs d k s h
resolve_from-Resolved db (some pid ∷ items) seen records rs d k s h =
    elim (Bool-cases (contains seen pid)) [
      | inl e ↦
          let (p, q, w) = resolve_from-Resolved db items seen records rs d k s (rw e at h) in
          (
            p,
            q,
            λ id. elim (text_discrete pid id) [
              | yes z ↦
                  let same : contains seen pid ≡ contains seen id = ap (contains seen) z in
                  ground (arith, w id, s id)
              | no z ↦ ground (arith, w id)
            ],
          )
      | inr e ↦ elim (Option-cases (get db pid)) [
        | inl f ↦ let h' = rw (e, f) at h in cc
        | inr (r, f) ↦
            let same : r.row.node_id ≡ pid = get-id db pid r f in
            let ids : ids_of (records ++ r ∷ []) ≡ ids_of records ++ pid ∷ [] =
              ids-append records r ∙ ap (λ i. ids_of records ++ i ∷ []) same in
            let listed : (id : String)
                → contains (ids_of (records ++ r ∷ [])) id
                  ≡ (contains (ids_of records) id || contains (pid ∷ []) id) =
              λ id. ap (λ l. contains l id) ids ∙ contains-append (ids_of records) (pid ∷ []) id in
            let (p, q, w) =
              resolve_from-Resolved db items (pid ∷ seen) (records ++ r ∷ []) rs
                (rw ids (AreDistinct-append (ids_of records) pid d (sym (s pid) ∙ e)))
                (AreKnown-append db records r k (ap (get db) same ∙ f))
                (λ id. sym (listed id ∙ ground (arith, s id))) (rw (e, f) at h) in
            (p, q, λ id. w id ∙ ap (λ b. b || is_item items id) (listed id) ∙ ground arith)
      ]
    ]

known_of :
    (db : Database) (records : List NodeRecord) (id : String)
    → AreKnown db records
    → contains (ids_of records) id ≡ true
    → (r : NodeRecord) × (get db id ≡ some r)
unfolding contains
known_of db [] id k m = cc
known_of db (r ∷ records) id k m = elim (text_discrete r.row.node_id id) [
  | yes e ↦ (r, sym (ap (get db) e) ∙ k.0)
  | no e ↦ known_of db records id k.1 (ground (arith, m))
]

resolve_from-returns :
    (db : Database) (items : List (Option String)) (seen : List String) (records : List NodeRecord)
    → ((id : String) → is_item items id ≡ true → (r : NodeRecord) × (get db id ≡ some r))
    → (rs : List NodeRecord) × (resolve_from db items seen records ≡ ok rs)
unfolding resolve_from
resolve_from-returns db [] seen records known = (records, refl)
resolve_from-returns db (none ∷ items) seen records known =
    resolve_from-returns db items seen records known
resolve_from-returns db (some pid ∷ items) seen records known =
    let rest : (id : String) → is_item items id ≡ true → (r : NodeRecord) × (get db id ≡ some r) =
      λ id m. known id (ground (arith, m)) in
    let (r, f) = known pid (ground arith) in
    elim (Bool-cases (contains seen pid)) [
      | inl e ↦ rw e (resolve_from-returns db items seen records rest)
      | inr e ↦ rw (e, f) (resolve_from-returns db items (pid ∷ seen) (records ++ r ∷ []) rest)
    ]

-- When every item, None aside, is the id of a node in the store, the parents are resolved: they are
-- distinct, each is what the store holds under its id, and their ids are exactly those of the items.
pub resolve_parents-Resolved :
    (db : Database) (items : List (Option String))
    → ((id : String) → is_item items id ≡ true → (r : NodeRecord) × (get db id ≡ some r))
    → (rs : List NodeRecord) × (resolve_parents db items ≡ ok rs) × Resolved db (is_item items) rs
unfolding resolve_parents contains
resolve_parents-Resolved db items known =
    let (rs, e) = resolve_from-returns db items [] [] known in
    (rs, e, resolve_from-Resolved db items [] [] rs tt tt (λ id. refl) e)

-- Conversely, when the parents are resolved, the store holds a node for every item, None aside.
pub resolve_parents-known :
    (db : Database) (items : List (Option String)) (rs : List NodeRecord) (id : String)
    → resolve_parents db items ≡ ok rs
    → is_item items id ≡ true
    → (r : NodeRecord) × (get db id ≡ some r)
unfolding resolve_parents contains
resolve_parents-known db items rs id h m =
    let (d, k, w) = resolve_from-Resolved db items [] [] rs tt tt (λ j. refl) h in
    known_of db rs id k (w id ∙ m)
