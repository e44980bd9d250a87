-- ===== src/Maintenance/Prune/Descendants.antt =====
-- The first step of `Pruner.plan` finds the target and all of its descendants.
use mathlib.Core.List.{reverse}
use ancestree.Prelude.{
  ℕ, zero, suc, ◌+◌, ◌*◌, ◌≤◌, String, text_discrete, ◌==◌, ◌≡◌, refl, ap, sym, subst, ◌∙◌, Bool,
  true, false, ◌||◌, ◌&&◌, List, [], ◌∷◌, ◌++◌, map, filter, any, any-filter, any-sort_by, length,
  length-map, length-sort_by, length-append, length-filter-le, contains, contains-append,
  contains-map, contains-reverse, length-reverse, sort_by, IsDistinct, IsDistinct-concat, arith,
  Bool-cases, inl, inr,
}
use native.Mathlib.Nat.{mul-le-mul_left, mul-suc}
use ancestree.Database.{Database, NodeRow, EdgeRow}
use ancestree.MetadataStore.Write.{exists, has_edge}
use ancestree.MetadataStore.Read.{by_age, children}
use ancestree.Kahn.Counts.{count, count_present, pending, pending-cons, pending-ext, pending_length}
use ancestree.Maintenance.Prune.{affected_from, affected, walk_bound}

any-at :
    (rows : List NodeRow) (f : String → Bool) (c : String)
    → any (λ (n : NodeRow). f n.node_id && (n.node_id == c)) rows
      ≡ (any (λ (n : NodeRow). n.node_id == c) rows && f c)
unfolding any
any-at [] f c = refl
any-at (n ∷ rows) f c = elim (text_discrete n.node_id c) [
  | yes e ↦ let same : f n.node_id ≡ f c = ap f e in ground (arith, any-at rows f c)
  | no e ↦ ground (arith, any-at rows f c)
]

module _ (db : Database) where
  -- The children of a node are the nodes with an edge to it.
  pub contains-children :
      (nid c : String) → contains (children db nid) c ≡ (exists db c && has_edge db.edge c nid)
  unfolding children exists has_edge
  contains-children nid c =
      let test : NodeRow → Bool =
        λ n. any (λ (e : EdgeRow). (e.child_id == n.node_id) && (e.parent_id == nid)) db.edge in
      contains-map (λ (n : NodeRow). n.node_id) (sort_by by_age (filter test db.node)) c
      ∙ any-sort_by by_age (λ (n : NodeRow). n.node_id == c) (filter test db.node)
      ∙ any-filter test (λ (n : NodeRow). n.node_id == c) db.node
      ∙ any-at db.node
          (λ i. any (λ (e : EdgeRow). (e.child_id == i) && (e.parent_id == nid)) db.edge) c

  length-children : (nid : String) → length (children db nid) ≤ length db.node
  unfolding children
  length-children nid =
      let test : NodeRow → Bool =
        λ n. any (λ (e : EdgeRow). (e.child_id == n.node_id) && (e.parent_id == nid)) db.edge in
      omega (
        arith,
        length-map (λ (n : NodeRow). n.node_id) (sort_by by_age (filter test db.node)),
        length-sort_by by_age (filter test db.node),
        length-filter-le test db.node,
      )

  module _ (target : String) where
    pub data Descendant : String → Type 0 where
      itself : Descendant target
      child_of : {a c : String} → Descendant a → contains (children db a) c ≡ true → Descendant c

    -- The descendants of the target, each once.
    pub record IsRegion (region : List String) : Type 0 where
      pub distinct : IsDistinct region
      pub here : contains region target ≡ true
      pub closed :
          (a c : String)
          → contains region a ≡ true
          → contains (children db a) c ≡ true
          → contains region c ≡ true
      pub sound : (a : String) → contains region a ≡ true → Descendant a

    abbrev ids : List String
    ids = map (λ n. n.node_id) db.node

    record Inv (stack seen : List String) : Type 0 where
      distinct : IsDistinct seen
      here : (contains seen target || contains stack target) ≡ true
      closed :
          (a c : String)
          → contains seen a ≡ true
          → contains (children db a) c ≡ true
          → (contains seen c || contains stack c) ≡ true
      seen_sound : (a : String) → contains seen a ≡ true → Descendant a
      stack_sound : (a : String) → contains stack a ≡ true → Descendant a
      stack_known : (a : String) → contains stack a ≡ true → exists db a ≡ true

    module _ (stack seen : List String) (a : String) (k : Inv (a ∷ stack) seen) where
      Inv-skip : contains seen a ≡ true → Inv stack seen
      unfolding contains
      Inv-skip e =
          let same : (c : String) → a ≡ c → contains seen c ≡ true =
            λ c q. ap (contains seen) (sym q) ∙ e in
          record {
            distinct = k.distinct;
            here = elim (text_discrete a target) [
              | yes q ↦ ground (arith, same target q)
              | no q ↦ ground (arith, k.here)
            ];
            closed = λ b c m d. elim (text_discrete a c) [
              | yes q ↦ ground (arith, same c q)
              | no q ↦ ground (arith, k.closed b c m d)
            ];
            seen_sound = k.seen_sound;
            stack_sound = λ c m. k.stack_sound c (ground arith);
            stack_known = λ c m. k.stack_known c (ground arith);
          }

      seen_now : (c : String) → contains (seen ++ a ∷ []) c ≡ (contains seen c || (a == c))
      unfolding contains
      seen_now c = contains-append seen (a ∷ []) c ∙ ground arith

      stack_now :
          (c : String)
          → contains (reverse (children db a) ++ stack) c
            ≡ (contains (children db a) c || contains stack c)
      stack_now c =
          contains-append (reverse (children db a)) stack c
          ∙ ap (λ b. b || contains stack c) (contains-reverse (children db a) c)

      Inv-open : contains seen a ≡ false → Inv (reverse (children db a) ++ stack) (seen ++ a ∷ [])
      unfolding contains
      Inv-open e = record {
        distinct = IsDistinct-concat seen a k.distinct e;
        here = ground (arith, k.here, seen_now target, stack_now target);
        closed = λ b c m d. elim (text_discrete a b) [
          | yes q ↦
              let child : contains (children db a) c ≡ true =
                ap (λ n. contains (children db n) c) q ∙ d in
              ground (arith, seen_now c, stack_now c)
          | no q ↦ ground (arith, seen_now b, seen_now c, stack_now c, k.closed b c)
        ];
        seen_sound = λ c m. elim (text_discrete a c) [
          | yes q ↦ subst Descendant q (k.stack_sound a (ground arith))
          | no q ↦ k.seen_sound c (ground (arith, seen_now c))
        ];
        stack_sound = λ c m. elim (Bool-cases (contains (children db a) c)) [
          | inl q ↦ child_of (k.stack_sound a (ground arith)) q
          | inr q ↦ k.stack_sound c (ground (arith, stack_now c))
        ];
        stack_known = λ c m. elim (Bool-cases (contains (children db a) c)) [
          | inl q ↦ ground (arith, contains-children c, contains-children a c)
          | inr q ↦ k.stack_known c (ground (arith, stack_now c))
        ];
      }

      opened_fuel :
          (fuel : ℕ)
          → contains seen a ≡ false
          → length (a ∷ stack) + length db.node * pending seen ids ≤ suc fuel
          → length (reverse (children db a) ++ stack)
              + length db.node * pending (seen ++ a ∷ []) ids
            ≤ fuel
      unfolding contains exists
      opened_fuel fuel e h =
          let n = length db.node in
          let left = pending (seen ++ a ∷ []) ids in
          let fewer : left + count ids a ≡ pending seen ids =
            ap (λ j. j + count ids a)
              (pending-ext (seen ++ a ∷ []) (a ∷ seen) ids (λ c. seen_now c ∙ ground arith))
            ∙ pending-cons seen a ids e in
          let listed : contains ids a ≡ true =
            contains-map (λ (r : NodeRow). r.node_id) db.node a ∙ k.stack_known a (ground arith) in
          let steps : n * suc left ≤ n * pending seen ids =
            mul-le-mul_left n (omega (arith, fewer, count_present ids a listed)) in
          omega (
            arith,
            h,
            steps,
            mul-suc n left,
            length-append (reverse (children db a)) stack,
            length-reverse (children db a),
            length-children a,
          )

    Inv-IsRegion : (seen : List String) → Inv [] seen → IsRegion seen
    unfolding contains
    Inv-IsRegion seen k = record {
      distinct = k.distinct;
      here = ground (arith, k.here);
      closed = λ a c m d. ground (arith, k.closed a c m d);
      sound = k.seen_sound;
    }

    affected_from-IsRegion :
        (fuel : ℕ) (stack seen : List String)
        → Inv stack seen
        → length stack + length db.node * pending seen ids ≤ fuel
        → ((affected_from db fuel stack seen).0 ≡ [])
          × IsRegion (affected_from db fuel stack seen).1
    unfolding affected_from
    affected_from-IsRegion zero [] seen k h = (refl, Inv-IsRegion seen k)
    affected_from-IsRegion zero (a ∷ stack) seen k h = absurd (omega (arith, h))
    affected_from-IsRegion (suc fuel) [] seen k h = (refl, Inv-IsRegion seen k)
    affected_from-IsRegion (suc fuel) (a ∷ stack) seen k h = elim (Bool-cases (contains seen a)) [
      | inl e ↦
          rw e
            (affected_from-IsRegion fuel stack seen (Inv-skip stack seen a k e) (omega (arith, h)))
      | inr e ↦ rw e (
          affected_from-IsRegion fuel (reverse (children db a) ++ stack) (seen ++ a ∷ [])
            (Inv-open stack seen a k e) (opened_fuel stack seen a k fuel e h))
    ]

    -- The walk from a node of the store stops by itself: within its bound on rounds the stack is empty.
    -- It has then found exactly the descendants of the node, the node itself among them, each once.
    pub affected-IsRegion :
        exists db target ≡ true
        → ((affected_from db (walk_bound db) (target ∷ []) []).0 ≡ [])
          × IsRegion (affected db target)
    unfolding affected contains
    affected-IsRegion known =
        affected_from-IsRegion (walk_bound db) (target ∷ []) []
          (record {
            distinct = tt;
            here = ground arith;
            closed = λ a c m d. cc;
            seen_sound = λ a m. absurd cc;
            stack_sound = λ a m. elim (text_discrete target a) [
              | yes q ↦ subst Descendant q itself
              | no q ↦ absurd (ground arith)
            ];
            stack_known = λ a m. elim (text_discrete target a) [
              | yes q ↦ ap (exists db) (sym q) ∙ known
              | no q ↦ absurd (ground arith)
            ];
          })
          (let all_ids : pending [] ids ≡ length db.node =
              pending_length ids ∙ length-map (λ (r : NodeRow). r.node_id) db.node in
            rw all_ids (omega arith))
