-- ===== src/Web/Graph/Levels.antt =====
-- `assign_levels` against the longest path from a root.
use ancestree.Prelude.{
  ℕ, zero, suc, ◌+◌, max, String, text_discrete, ◌==◌, ◌≡◌, refl, ap, sym, ◌∙◌, true, false, ◌||◌,
  List, [], ◌∷◌, contains, if◌then◌else◌, arith, Bool-cases, inl, inr,
}
use ancestree.Kahn.{release, kahn}
use ancestree.Kahn.Counts.{count, count_absent, count_present, pending, pending-cons, pending-zero}
use ancestree.Kahn.Order.{gather, IsOrder}
use ancestree.Web.Graph.{raise_children, level_loop}

-- One more than the highest level of the parents, none where there is no parent.
unfoldable pub above : (String → ℕ) → List String → ℕ
above level [] = 0
above level (p ∷ ps) = max (suc (level p)) (above level ps)

-- The same over the parents that have been emitted.
unfoldable pub above_emitted : List String → (String → ℕ) → List String → ℕ
above_emitted emitted level [] = 0
above_emitted emitted level (p ∷ ps) =
    max (if contains emitted p then suc (level p) else 0) (above_emitted emitted level ps)

raise_children-level :
    (current : String) (cs : List String) (level : String → ℕ) (c : String)
    → contains cs current ≡ false
    → raise_children current cs level c
      ≡ (if contains cs c then max (level c) (suc (level current)) else level c)
unfolding raise_children contains
raise_children-level current [] level c new = refl
raise_children-level current (x ∷ cs) level c new =
    let level' : String → ℕ = λ n. if x == n then max (level x) (level current + 1) else level n in
    raise_children-level current cs level' c (ground arith) ∙ elim (text_discrete x c) [
      | yes e ↦ let same : level x ≡ level c = ap level e in ground arith
      | no e ↦ ground arith
    ]

above_emitted-cons :
    (emitted : List String) (n : String) (level level' : String → ℕ) (ps : List String)
    → contains emitted n ≡ false
    → ((p : String) → (contains emitted p || (n == p)) ≡ true → level' p ≡ level p)
    → above_emitted (n ∷ emitted) level' ps
      ≡ max (above_emitted emitted level ps) (if contains ps n then suc (level n) else 0)
unfolding above_emitted contains
above_emitted-cons emitted n level level' [] new kept = omega arith
above_emitted-cons emitted n level level' (p ∷ ps) new kept = elim (text_discrete n p) [
  | yes e ↦
      let same : level n ≡ level p = ap level e in
      let gone : contains emitted n ≡ contains emitted p = ap (contains emitted) e in
      ground (arith, kept p, above_emitted-cons emitted n level level' ps new kept)
  | no e ↦ ground (arith, kept p, above_emitted-cons emitted n level level' ps new kept)
]

pub above_emitted-all :
    (emitted : List String) (level : String → ℕ) (ps : List String)
    → ((p : String) → contains ps p ≡ true → contains emitted p ≡ true)
    → above_emitted emitted level ps ≡ above level ps
unfolding above_emitted above contains
above_emitted-all emitted level [] h = refl
above_emitted-all emitted level (p ∷ ps) h =
    ground
      (arith, h p (ground arith), above_emitted-all emitted level ps (λ q m. h q (ground arith)))

module _ (below up : String → List String) (ids : List String)
    (agree : (p c : String)
      → contains ids p ≡ true
      → count (below p) c ≡ (if contains ids c then count (up c) p else 0)) where
  -- The levels along an order of the nodes.
  unfoldable pub raise_along : List String → (String → ℕ) → String → ℕ
  raise_along [] level = level
  raise_along (n ∷ ns) level = raise_along ns (raise_children n (below n) level)

  pub level_loop-raise_along :
      (fuel : ℕ) (ready : List String) (degree level : String → ℕ) (c : String)
      → level_loop below fuel ready degree level c
        ≡ raise_along (kahn below fuel ready degree) level c
  unfolding level_loop kahn raise_along
  level_loop-raise_along zero ready degree level c = refl
  level_loop-raise_along (suc fuel) [] degree level c = refl
  level_loop-raise_along (suc fuel) (n ∷ ready) degree level c =
      level_loop-raise_along fuel (release (below n) degree ready).1
        (release (below n) degree ready).0 (raise_children n (below n) level) c

  -- Levels are those above the parents emitted so far, and what has been emitted has all its parents.
  pub record Inv (emitted : List String) (level : String → ℕ) : Type 0 where
    pub level_is :
        (c : String) → contains ids c ≡ true → level c ≡ above_emitted emitted level (up c)
    pub settled : (c : String) → contains emitted c ≡ true → pending emitted (up c) ≡ 0
    pub inside : (c : String) → contains emitted c ≡ true → contains ids c ≡ true

  module _ (emitted : List String) (level : String → ℕ) (n : String) (k : Inv emitted level)
      (known : contains ids n ≡ true) (new : contains emitted n ≡ false)
      (none_left : pending emitted (up n) ≡ 0) where
    not_parent : (c : String) → pending emitted (up c) ≡ 0 → contains (up c) n ≡ false
    not_parent c none_left = elim (Bool-cases (contains (up c) n)) [
      | inl e ↦ let old = pending-zero emitted (up c) n none_left e in cc
      | inr e ↦ e
    ]

    contains-below : (c : String) → contains ids c ≡ true → contains (below n) c ≡ contains (up c) n
    contains-below c m =
        let same = agree n c known in
        elim (Bool-cases (contains (below n) c)) [
          | inl e ↦ elim (Bool-cases (contains (up c) n)) [
            | inl f ↦ e ∙ sym f
            | inr f ↦ absurd (ground (arith, count_present (below n) c e, count_absent (up c) n f))
          ]
          | inr e ↦ elim (Bool-cases (contains (up c) n)) [
            | inl f ↦ absurd (ground (arith, count_absent (below n) c e, count_present (up c) n f))
            | inr f ↦ e ∙ sym f
          ]
        ]

    abbrev raised : String → ℕ
    raised = raise_children n (below n) level

    raised-level :
        (c : String)
        → contains ids c ≡ true
        → raised c ≡ (if contains (up c) n then max (level c) (suc (level n)) else level c)
    raised-level c m =
        raise_children-level n (below n) level c (contains-below n known ∙ not_parent n none_left)
        ∙ ap (λ b. if b then max (level c) (suc (level n)) else level c) (contains-below c m)

    raised-kept : (p : String) → (contains emitted p || (n == p)) ≡ true → raised p ≡ level p
    raised-kept p h = elim (text_discrete n p) [
      | yes e ↦
          ap raised (sym e)
          ∙ raised-level n known
          ∙ ground (arith, not_parent n none_left)
          ∙ ap level e
      | no e ↦
          let old : contains emitted p ≡ true = ground (arith, h) in
          raised-level p (k.inside p old) ∙ ground (arith, not_parent p (k.settled p old))
    ]

    Inv-step : Inv (n ∷ emitted) raised
    unfolding contains
    Inv-step = record {
      level_is = λ c m.
          raised-level c m
          ∙ ground (
            arith,
            k.level_is c m,
            above_emitted-cons emitted n level raised (up c) new raised-kept,
          );
      settled = λ c h. elim (text_discrete n c) [
        | yes e ↦
            let same : pending emitted (up n) ≡ pending emitted (up c) =
              ap (λ m. pending emitted (up m)) e in
            ground (arith, pending-cons emitted n (up c) new)
        | no e ↦ ground (arith, pending-cons emitted n (up c) new, k.settled c)
      ];
      inside = λ c h. elim (text_discrete n c) [
        | yes e ↦ ap (contains ids) (sym e) ∙ known
        | no e ↦ k.inside c (ground arith)
      ];
    }

  pub Inv-along :
      (ns emitted : List String) (level : String → ℕ)
      → Inv emitted level
      → IsOrder ids below up emitted ns
      → Inv (gather ns emitted) (raise_along ns level)
  unfolding gather raise_along
  Inv-along [] emitted level k o = k
  Inv-along (n ∷ ns) emitted level k (known, new, none_left, rest) =
      Inv-along ns (n ∷ emitted) (raise_children n (below n) level)
        (Inv-step emitted level n k known new none_left) rest
