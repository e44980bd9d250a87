-- ===== src/Domain/Fingerprint/Unordered.antt =====
-- What the fingerprint does not depend on.
use mathlib.Core.List.{Memᴰ, Permᴰ}
use mathlib.Core.List.Memᴰ
use ancestree.Prelude.{
  String, text_discrete, ◌==◌, ◌≡◌, refl, ap, sym, ◌∙◌, Bool, List, [], ◌∷◌, map, contains,
  contains_of_mem, IsDistinct, All, sort_by, sort_by-Permᴰ, IsOrdering, text_leb, text_leb_antisymm,
  text_leb-IsOrdering, Option, some, if◌then◌else◌, inl, inr, arith,
}
use ancestree.Domain.Fingerprint.{Envelope, ContentSummary, summary_of, digest}
use ancestree.MetadataStore.Read.{Dict, lookup}

same_some {ℓ} : {A : Type ℓ} {a b : A} → ◌≡◌ {A = Option A} (some a) (some b) → a ≡ b
same_some h = cc

module _ {ℓ} {V : Type ℓ} where
  abbrev pub HasDistinctKeys : Dict V → Type 0
  HasDistinctKeys d = IsDistinct (map (λ q. q.0) d)

  lookup_of_mem :
      (d : Dict V) (q : String × V) → HasDistinctKeys d → Memᴰ q d → lookup d q.0 ≡ some q.1
  unfolding lookup
  lookup_of_mem [] q k m = absurd (Memᴰ.not-nil m)
  lookup_of_mem ((j, v) ∷ d) q k m = elim (Memᴰ.cases_cons m) [
    | inl here ↦
        ap (λ b. if b then some v else lookup d q.0) (ap (λ (r : String × V). j == r.0) here)
        ∙ ground (arith, sym here)
    | inr there ↦
        let listed =
          contains_of_mem (map (λ (r : String × V). r.0) d) q.0
            (Memᴰ.map (λ (r : String × V). r.0) there) in
        let found = lookup_of_mem d q k.1 there in
        elim (text_discrete j q.0) [
          | yes e ↦
              let same = ap (contains (map (λ (r : String × V). r.0) d)) e in
              absurd (ground (arith, k.0))
          | no e ↦ ground (arith, found)
        ]
  ]

abbrev pub by_key {ℓ} : {V : Type ℓ} → String × V → String × V → Bool
by_key a b = text_leb a.0 b.0

by_key-IsOrdering {ℓ} : {V : Type ℓ} → IsOrdering (by_key {V = V})
by_key-IsOrdering = record {
  total = λ a b. text_leb-IsOrdering.total a.0 b.0;
  transitive = λ a b c. text_leb-IsOrdering.transitive a.0 b.0 c.0;
}

module _ {V : Type 0} (d : Dict V) (distinct : HasDistinctKeys d) where
  all_mem : (e : Dict V) → ((q : String × V) → Memᴰ q e → Memᴰ q d) → All (λ q. Memᴰ q d) e
  all_mem [] h = tt
  all_mem (q ∷ e) h = (h q (Memᴰ.head refl), all_mem e (λ r m. h r (Memᴰ.tail m)))

  sort_by_key-Permᴰ : (e : Dict V) → Permᴰ d e → sort_by by_key d ≡ sort_by by_key e
  sort_by_key-Permᴰ e p =
      sort_by-Permᴰ by_key by_key-IsOrdering (λ q. Memᴰ q d)
        (λ a b m n h k.
          let key : a.0 ≡ b.0 = text_leb_antisymm a.0 b.0 h k in
          let value : a.1 ≡ b.1 = same_some (
            sym (lookup_of_mem d a distinct m)
            ∙ ap (lookup d) key
            ∙ lookup_of_mem d b distinct n) in
          λ i. (key i, value i))
        p (all_mem d (λ q m. m))

all_unit : (xs : List String) → All (λ _. Unit {0}) xs
all_unit [] = tt
all_unit (x ∷ xs) = (tt, all_unit xs)

-- Two nodes of the same step type whose parents, metadata entries and artifacts are the same but for
-- their order, under distinct keys each, have the same fingerprint.
pub digest-Permᴰ :
    (dumps_sha256 : ContentSummary → String) (step_type : String) (parents parents' : List String)
    (metadata metadata' : Dict Envelope) (artifacts artifacts' : Dict String)
    → Permᴰ parents parents'
    → HasDistinctKeys metadata
    → Permᴰ metadata metadata'
    → HasDistinctKeys artifacts
    → Permᴰ artifacts artifacts'
    → digest dumps_sha256 (summary_of step_type parents metadata artifacts)
      ≡ digest dumps_sha256 (summary_of step_type parents' metadata' artifacts')
unfolding digest summary_of
digest-Permᴰ dumps_sha256 step_type parents parents' metadata metadata' artifacts artifacts' p u q v
      r =
    let ps : sort_by text_leb parents ≡ sort_by text_leb parents' =
      sort_by-Permᴰ text_leb text_leb-IsOrdering (λ _. Unit {0})
        (λ a b _ _ h k. text_leb_antisymm a b h k) p (all_unit parents) in
    let ms = sort_by_key-Permᴰ metadata u metadata' q in
    let rs = sort_by_key-Permᴰ artifacts v artifacts' r in
    λ i.
      dumps_sha256 (record {
        step_type = step_type;
        parent_id = ps i;
        metadata = ms i;
        artifact_sha256s = rs i;
      })
