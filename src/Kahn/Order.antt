-- ===== src/Kahn/Order.antt =====
-- Every node that Kahn's algorithm emits stands behind its parents, and on a graph without cycles it
-- emits every node, with as many rounds as there are nodes.
use mathlib.Core.List.{reverse}
use ancestree.Prelude.{
  ℕ, zero, suc, ◌≤◌, ◌<◌, String, text_discrete, ◌=?◌, ◌≡◌, refl, ap, sym, ◌∙◌, true, false, ◌||◌,
  ◌&&◌, not, List, [], ◌∷◌, contains, IsDistinct, IsDistinct-filter, IsDistinct-reverse,
  contains-filter, contains-reverse, filter, length, if◌then◌else◌, arith, Bool-cases, inl, inr,
}
use ancestree.Kahn.{release, kahn, sorted}
use ancestree.Kahn.Counts.{
  count, count_present, pending, pending-cons, pending-zero, pending-some, pending_length,
}
use ancestree.Kahn.Release.{release-degree, release-ready}

-- The nodes of a list put before those emitted already.
unfoldable pub gather : List String → List String → List String
gather [] emitted = emitted
gather (n ∷ ns) emitted = gather ns (n ∷ emitted)

pub contains-gather :
    (ns emitted : List String) (c : String)
    → contains (gather ns emitted) c ≡ (contains ns c || contains emitted c)
unfolding gather contains
contains-gather [] emitted c = refl
contains-gather (n ∷ ns) emitted c = contains-gather ns (n ∷ emitted) c ∙ ground arith

module _ (region : List String) (children parents : String → List String) where
  -- Each node of the list is of the region, new, and has no parent pending.
  abbrev pub IsOrder : List String → List String → Type 0
  IsOrder emitted [] = Unit
  IsOrder emitted (n ∷ ns) =
      (contains region n ≡ true)
      × (contains emitted n ≡ false)
      × (pending emitted (parents n) ≡ 0)
      × IsOrder (n ∷ emitted) ns

  -- What is left of the region waits for a parent.
  abbrev pub IsStuck : List String → Type 0
  IsStuck emitted =
      (c : String)
      → contains region c ≡ true
      → pending emitted (parents c) ≡ 0
      → contains emitted c ≡ true

  record Inv (emitted ready : List String) (degree : String → ℕ) : Type 0 where
    degree_is : (c : String) → contains region c ≡ true → degree c ≡ pending emitted (parents c)
    settled : (c : String) → contains emitted c ≡ true → pending emitted (parents c) ≡ 0
    ready_is :
        (c : String)
        → contains ready c
          ≡ (contains region c && ((pending emitted (parents c) =? 0) && not (contains emitted c)))
    distinct : IsDistinct ready

  module _
      (agree : (p c : String)
        → contains region p ≡ true
        → count (children p) c ≡ (if contains region c then count (parents c) p else 0)) where
    Inv-step :
        (emitted ready : List String) (nid : String) (degree : String → ℕ)
        → Inv emitted (nid ∷ ready) degree
        → Inv
            (nid ∷ emitted)
            (release (children nid) degree ready).1
            (release (children nid) degree ready).0
    unfolding contains
    Inv-step emitted ready nid degree k =
        let known : contains region nid ≡ true = ground (arith, k.ready_is nid) in
        let new : contains emitted nid ≡ false = ground (arith, k.ready_is nid) in
        let none_left : pending emitted (parents nid) ≡ 0 = ground (arith, k.ready_is nid) in
        let fits : (c : String) → count (children nid) c ≤ degree c = λ c.
          ground
            (arith, agree nid c known, k.degree_is c, pending-cons emitted nid (parents c) new) in
        let zeros : (c : String) → contains ready c ≡ true → degree c ≡ 0 =
          λ c h. ground (arith, k.ready_is c, k.degree_is c) in
        let (d, listed) = release-ready (children nid) degree ready k.distinct.1 zeros fits in
        record {
          degree_is = λ c h.
              let now = pending-cons emitted nid (parents c) new in
              release-degree (children nid) degree ready c
              ∙ ground (arith, k.degree_is c, agree nid c known);
          settled = λ c h.
              let now = pending-cons emitted nid (parents c) new in
              elim (text_discrete nid c) [
                | yes e ↦
                    let same : pending emitted (parents nid) ≡ pending emitted (parents c) =
                      ap (λ n. pending emitted (parents n)) e in
                    ground arith
                | no e ↦ ground (arith, k.settled c)
              ];
          ready_is = λ c.
              let now = pending-cons emitted nid (parents c) new in
              listed c ∙ elim (text_discrete nid c) [
                | yes e ↦
                    let same : pending emitted (parents nid) ≡ pending emitted (parents c) =
                      ap (λ n. pending emitted (parents n)) e in
                    let gone : contains ready nid ≡ contains ready c = ap (contains ready) e in
                    ground (arith, k.distinct.0, agree nid c known)
                | no e ↦ ground (arith, k.ready_is c, k.degree_is c, k.settled c, agree nid c known)
              ];
          distinct = d;
        }

    kahn-IsOrder :
        (fuel : ℕ) (emitted ready : List String) (degree : String → ℕ)
        → Inv emitted ready degree
        → pending emitted region ≤ fuel
        → IsOrder emitted (kahn children fuel ready degree)
          × IsStuck (gather (kahn children fuel ready degree) emitted)
    unfolding kahn gather contains
    kahn-IsOrder zero emitted ready degree k h =
        (tt, λ c m q. pending-zero emitted region c (omega (arith, h)) m)
    kahn-IsOrder (suc fuel) emitted [] degree k h = (tt, λ c m q. ground (arith, k.ready_is c))
    kahn-IsOrder (suc fuel) emitted (nid ∷ ready) degree k h =
        let known : contains region nid ≡ true = ground (arith, k.ready_is nid) in
        let new : contains emitted nid ≡ false = ground (arith, k.ready_is nid) in
        let fewer = pending-cons emitted nid region new in
        let (order, stuck) =
          kahn-IsOrder fuel (nid ∷ emitted) (release (children nid) degree ready).1
            (release (children nid) degree ready).0 (Inv-step emitted ready nid degree k)
            (omega (arith, fewer, count_present region nid known)) in
        ((known, new, ground (arith, k.ready_is nid), order), stuck)

  -- Where some rank falls along the edges, nothing waits for ever.
  all_emitted :
      (rank : String → ℕ) (emitted : List String)
      → ((c p : String) → contains (parents c) p ≡ true → contains region p ≡ true)
      → ((c p : String) → contains (parents c) p ≡ true → rank p < rank c)
      → IsStuck emitted
      → (bound : ℕ) (c : String) → rank c < bound
      → contains region c ≡ true
      → contains emitted c ≡ true
  all_emitted rank emitted inside falls stuck zero c h m = absurd (omega (arith, h))
  all_emitted rank emitted inside falls stuck (suc bound) c h m =
      elim (Bool-cases (pending emitted (parents c) =? 0)) [
        | inl e ↦ stuck c m (ground arith)
        | inr e ↦
            let (p, q, new) = pending-some emitted (parents c) e in
            let old =
              all_emitted rank emitted inside falls stuck bound p (omega (arith, falls c p q, h))
                (inside c p q) in
            absurd (ground arith)
      ]

module _ (region : List String) (children parents : String → List String)
    (distinct : IsDistinct region)
    (agree : (p c : String)
      → contains region p ≡ true
      → count (children p) c ≡ (if contains region c then count (parents c) p else 0)) where
  Inv-start :
      Inv region children parents []
        (reverse (filter (λ nid. length (parents nid) =? 0) region))
        (λ nid. length (parents nid))
  unfolding contains
  Inv-start = record {
    degree_is = λ c h. sym (pending_length (parents c));
    settled = λ c h. cc;
    ready_is = λ c.
        contains-reverse (filter (λ nid. length (parents nid) =? 0) region) c
        ∙ contains-filter (λ nid. length (parents nid) =? 0) region c
        ∙ ground (arith, pending_length (parents c));
    distinct =
        IsDistinct-reverse (filter (λ nid. length (parents nid) =? 0) region)
          (IsDistinct-filter (λ nid. length (parents nid) =? 0) region distinct);
  }

  pub sorted-IsOrder : IsOrder region children parents [] (sorted region children parents)
  unfolding sorted
  sorted-IsOrder =
      (kahn-IsOrder region children parents agree (length region) []
        (reverse (filter (λ nid. length (parents nid) =? 0) region)) (λ nid. length (parents nid))
        Inv-start (omega (arith, pending_length region))).0

  pub sorted_all :
      (rank : String → ℕ)
      → ((c p : String) → contains (parents c) p ≡ true → contains region p ≡ true)
      → ((c p : String) → contains (parents c) p ≡ true → rank p < rank c)
      → (c : String) → contains region c ≡ true
      → contains (sorted region children parents) c ≡ true
  unfolding sorted contains
  sorted_all rank inside falls c m =
      let topo = sorted region children parents in
      let stuck =
        (kahn-IsOrder region children parents agree (length region) []
          (reverse (filter (λ nid. length (parents nid) =? 0) region)) (λ nid. length (parents nid))
          Inv-start (omega (arith, pending_length region))).1 in
      let out =
        all_emitted region children parents rank (gather topo []) inside falls stuck (suc (rank c))
          c (omega arith) m in
      ground (arith, contains-gather topo [] c)
