-- ===== src/Lineage/Invariant.antt =====
-- What one round of the walk keeps, where every parent has a lower rank than its child.
use mathlib.Core.List.{Memᴰ}
use mathlib.Core.List.Memᴰ
use ancestree.Prelude.{
  ℕ, ◌<◌, String, text_discrete, ◌≡◌, refl, sym, ap, subst, ◌⊎◌, inl, inr, ⊎_elim, Bool, true,
  false, List, [], ◌∷◌, ◌++◌, contains, contains-append, contains-discard, discard, arith,
  Bool-cases, ok, All,
}
use ancestree.Lineage.{Frame, Walker, push_parents, visit, start}
use ancestree.Lineage.Topological.{IsTopological, IsTopological-concat, Ancestor, itself, parent_of}

module _ (parents : String → List String) (rank : String → ℕ) where
  -- Every parent of an expanded frame is settled: `C` holds of it, or it stands above.
  abbrev pub Waiting : (String → Type 0) → List Frame → Type 0
  Waiting C [] = Unit
  Waiting C ((x, b) ∷ st) =
      (b ≡ true → (p : String) → Memᴰ p (parents x) → C p) × Waiting (λ p. C p ⊎ (p ≡ x)) st

  -- `r` is below the rank of every expanded frame.
  abbrev pub Below : ℕ → List Frame → Type 0
  Below r [] = Unit
  Below r ((y, b) ∷ st) = (b ≡ true → r < rank y) × Below r st

  abbrev pub IsRanked : List Frame → Type 0
  IsRanked [] = Unit
  IsRanked ((x, b) ∷ st) = Below (rank x) st × IsRanked st

  Waiting-mono :
      (C D : String → Type 0) (st : List Frame)
      → ((p : String) → C p → D p)
      → Waiting C st
      → Waiting D st
  Waiting-mono C D [] f w = tt
  Waiting-mono C D ((x, b) ∷ st) f w = (
    λ e p m. f p (w.0 e p m),
    Waiting-mono (λ p. C p ⊎ (p ≡ x)) (λ p. D p ⊎ (p ≡ x)) st (λ p. ⊎_elim (λ c. inl (f p c)) inr)
        w.1,
  )

  Below-mono : (r s : ℕ) (st : List Frame) → r < s → Below s st → Below r st
  Below-mono r s [] h b = tt
  Below-mono r s ((y, e) ∷ st) h b = (λ p. let q = b.0 p in omega arith, Below-mono r s st h b.1)

  Below-expanded :
      (r : ℕ) (x : String) (st : List Frame) → Below r st → Memᴰ (x, true) st → r < rank x
  Below-expanded r x [] b m = absurd (Memᴰ.not-nil m)
  Below-expanded r x ((y, e) ∷ st) b m = elim (Memᴰ.cases_cons m) [
    | inl here ↦
        let same : x ≡ y = ap (λ (f : Frame). f.0) here in
        rw same (b.0 (sym (ap (λ (f : Frame). f.1) here)))
    | inr there ↦ Below-expanded r x st b.1 there
  ]

  module _ (done : List String) where
    abbrev IsDone : String → Type 0
    IsDone p = contains done p ≡ true

    push-Waiting :
        (ps : List String) (st : List Frame)
        → Waiting (λ p. IsDone p ⊎ Memᴰ p ps) st
        → Waiting IsDone (push_parents done ps st)
    unfolding push_parents
    push-Waiting [] st w =
        Waiting-mono _ _ st (λ p. ⊎_elim (λ d. d) (λ m. absurd (Memᴰ.not-nil m))) w
    push-Waiting (q ∷ ps) st w = elim (Bool-cases (contains done q)) [
      | inl d ↦ rw d (
          push-Waiting ps st (
            Waiting-mono _ _ st
              (λ p. ⊎_elim inl (λ m. ⊎_elim (λ e. inl (rw e d)) inr (Memᴰ.cases_cons m))) w))
      | inr d ↦ rw d (
          push-Waiting ps ((q, false) ∷ st) (
            λ e. cc,
            Waiting-mono _ _ st
                (λ p.
                  ⊎_elim (λ c. inl (inl c))
                    (λ m. ⊎_elim inr (λ t. inl (inr t)) (Memᴰ.cases_cons m)))
                w,
          ))
    ]

    push-IsRanked :
        (ps : List String) (st : List Frame)
        → ((p : String) → Memᴰ p ps → Below (rank p) st)
        → IsRanked st
        → IsRanked (push_parents done ps st)
    unfolding push_parents
    push-IsRanked [] st low r = r
    push-IsRanked (q ∷ ps) st low r = elim (Bool-cases (contains done q)) [
      | inl d ↦ rw d (push-IsRanked ps st (λ p m. low p (Memᴰ.tail m)) r)
      | inr d ↦ rw d (
          push-IsRanked ps ((q, false) ∷ st) (λ p m. (λ e. cc, low p (Memᴰ.tail m)))
            (low q (Memᴰ.head refl), r))
    ]

    -- The stack grows by frames of parents alone.
    pub push-mem :
        (ps : List String) (st : List Frame) (f : Frame)
        → Memᴰ f st
        → Memᴰ f (push_parents done ps st)
    unfolding push_parents
    push-mem [] st f m = m
    push-mem (q ∷ ps) st f m = elim (Bool-cases (contains done q)) [
      | inl d ↦ rw d (push-mem ps st f m)
      | inr d ↦ rw d (push-mem ps ((q, false) ∷ st) f (Memᴰ.tail m))
    ]

    pub push-All :
        (P : String → Type 0) (ps : List String) (st : List Frame)
        → ((p : String) → Memᴰ p ps → P p)
        → All (λ (f : Frame). P f.0) st
        → All (λ (f : Frame). P f.0) (push_parents done ps st)
    unfolding push_parents
    push-All P [] st new a = a
    push-All P (q ∷ ps) st new a = elim (Bool-cases (contains done q)) [
      | inl d ↦ rw d (push-All P ps st (λ p m. new p (Memᴰ.tail m)) a)
      | inr d ↦
          rw d (
            push-All P ps ((q, false) ∷ st) (λ p m. new p (Memᴰ.tail m))
              (new q (Memᴰ.head refl), a))
    ]

  module _ (root : String) where
    pub record Inv (w : Walker) : Type 0 where
      pub topological : IsTopological parents [] w.order
      pub same : (a : String) → contains w.done a ≡ contains w.order a
      pub waiting : Waiting (λ p. contains w.done p ≡ true) w.stack
      pub ranked : IsRanked w.stack
      pub pending : (a : String) → contains w.on_stack a ≡ true → Memᴰ (a, true) w.stack
      pub open_nodes : (a : String) → contains w.on_stack a ≡ true → contains w.done a ≡ false
      pub rooted : (contains w.done root ≡ true) ⊎ ((b : Bool) × Memᴰ (root, b) w.stack)
      pub upward : All (λ (f : Frame). Ancestor parents root f.0) w.stack
      pub found : (a : String) → contains w.order a ≡ true → Ancestor parents root a

    pub Inv-start : Inv (start root)
    unfolding contains
    Inv-start = record {
      topological = tt;
      same = λ a. refl;
      waiting = (λ e. cc, tt);
      ranked = (tt, tt);
      pending = λ a h. cc;
      open_nodes = λ a h. cc;
      rooted = inr (false, Memᴰ.head refl);
      upward = (itself, tt);
      found = λ a h. cc;
    }

    -- The frame was done already.
    skip-Inv :
        (w : Walker) (x : String) (b : Bool) (rest : List Frame)
        → Inv (record w { stack = (x, b) ∷ rest })
        → contains w.done x ≡ true
        → Inv (record w { stack = rest })
    skip-Inv w x b rest h d = record {
      topological = h.topological;
      same = h.same;
      waiting = Waiting-mono _ _ rest (λ p. ⊎_elim (λ c. c) (λ e. rw e d)) h.waiting.1;
      ranked = h.ranked.1;
      pending = λ a o.
          ⊎_elim
            (λ here.
              let e : a ≡ x = ap (λ (f : Frame). f.0) here in
              let c = h.open_nodes a o in cc (e, c, d))
            (λ there. there) (Memᴰ.cases_cons (h.pending a o));
      open_nodes = h.open_nodes;
      rooted =
          ⊎_elim inl
            (λ (c, m).
              ⊎_elim (λ here. let e : root ≡ x = ap (λ (f : Frame). f.0) here in inl (rw e d))
                (λ there. inr (c, there)) (Memᴰ.cases_cons m))
            h.rooted;
      upward = h.upward.1;
      found = h.found;
    }

    -- The frame's parents are done: the node is emitted.
    emit-Inv :
        (w : Walker) (x : String) (rest : List Frame)
        → Inv (record w { stack = (x, true) ∷ rest })
        → contains w.done x ≡ false
        → Inv (record {
          order = w.order ++ x ∷ [];
          done = x ∷ w.done;
          on_stack = discard w.on_stack x;
          stack = rest;
        })
    unfolding contains
    emit-Inv w x rest h d = record {
      topological =
          IsTopological-concat parents [] w.order x h.topological (ground (arith, h.same x))
            (λ p m. ground (arith, h.same p, h.waiting.0 refl p m));
      same = λ a. ground (arith, h.same a, contains-append w.order (x ∷ []) a);
      waiting =
          Waiting-mono _ _ rest (λ p. ⊎_elim (λ c. ground arith) (λ e. ground arith)) h.waiting.1;
      ranked = h.ranked.1;
      pending = λ a o.
          ⊎_elim
            (λ here.
              let e : a ≡ x = ap (λ (f : Frame). f.0) here in
              ground (arith, contains-discard w.on_stack x a))
            (λ there. there)
            (Memᴰ.cases_cons (h.pending a (ground (arith, contains-discard w.on_stack x a))));
      open_nodes = λ a o. ground (arith, contains-discard w.on_stack x a, h.open_nodes a);
      rooted =
          ⊎_elim (λ c. inl (ground arith))
            (λ (c, m).
              ⊎_elim (λ here. let e : root ≡ x = ap (λ (f : Frame). f.0) here in inl (ground arith))
                (λ there. inr (c, there)) (Memᴰ.cases_cons m))
            h.rooted;
      upward = h.upward.1;
      found = λ a c. elim (text_discrete x a) [
        | yes e ↦ subst (Ancestor parents root) e h.upward.0
        | no e ↦ h.found a (ground (arith, contains-append w.order (x ∷ []) a))
      ];
    }

    module _ (lower : (c p : String) → Memᴰ p (parents c) → rank p < rank c) where
      -- The node's parents are pushed above it.
      expand-Inv :
          (w : Walker) (x : String) (rest : List Frame)
          → Inv (record w { stack = (x, false) ∷ rest })
          → contains w.done x ≡ false
          → Inv (record w {
            on_stack = x ∷ w.on_stack;
            stack = push_parents w.done (parents x) ((x, true) ∷ rest);
          })
      unfolding contains
      expand-Inv w x rest h d = record {
        topological = h.topological;
        same = h.same;
        waiting = push-Waiting w.done (parents x) ((x, true) ∷ rest) (
          λ e p m. inr m,
          Waiting-mono _ _ rest (λ p. ⊎_elim (λ c. inl (inl c)) inr) h.waiting.1,
        );
        ranked =
            push-IsRanked w.done (parents x) ((x, true) ∷ rest)
              (λ p m.
                (λ e. lower x p m, Below-mono (rank p) (rank x) rest (lower x p m) h.ranked.0))
              h.ranked;
        pending = λ a o. elim (text_discrete x a) [
          | yes e ↦
              push-mem w.done (parents x) ((x, true) ∷ rest) (a, true)
                (Memᴰ.head (ap (λ (s : String). (s, true)) (sym e)))
          | no e ↦
              push-mem w.done (parents x) ((x, true) ∷ rest) (a, true)
                (⊎_elim (λ here. absurd (e (sym (ap (λ (f : Frame). f.0) here)))) (λ m. Memᴰ.tail m)
                  (Memᴰ.cases_cons (h.pending a (ground arith))))
        ];
        open_nodes = λ a o. ground (arith, h.open_nodes a);
        rooted =
            ⊎_elim inl
              (λ (c, m).
                ⊎_elim
                  (λ here. inr (
                    true,
                    push-mem w.done (parents x) ((x, true) ∷ rest) (root, true)
                        (Memᴰ.head (ap (λ (f : Frame). (f.0, true)) here)),
                  ))
                  (λ there.
                    inr (
                      c,
                      push-mem w.done (parents x) ((x, true) ∷ rest) (root, c) (Memᴰ.tail there),
                    ))
                  (Memᴰ.cases_cons m))
              h.rooted;
        upward =
            push-All w.done (Ancestor parents root) (parents x) ((x, true) ∷ rest)
              (λ p m. parent_of h.upward.0 m) h.upward;
        found = h.found;
      }

      -- Where ranks fall from child to parent no cycle is reported.
      no_cycle :
          (w : Walker) (x : String) (rest : List Frame)
          → Inv (record w { stack = (x, false) ∷ rest })
          → contains w.on_stack x ≡ false
      no_cycle w x rest h = elim (Bool-cases (contains w.on_stack x)) [
        | inr e ↦ e
        | inl e ↦
            ⊎_elim (λ here. cc here)
              (λ there.
                let low = Below-expanded (rank x) x rest h.ranked.0 there in absurd (omega arith))
              (Memᴰ.cases_cons (h.pending x e))
      ]

      pub visit-Inv :
          (w : Walker) (x : String) (b : Bool) (rest : List Frame)
          → Inv (record w { stack = (x, b) ∷ rest })
          → (w' : Walker) × (visit parents w x b rest ≡ ok w') × Inv w'
      unfolding visit
      visit-Inv w x b rest h = elim (Bool-cases (contains w.done x)) [
        | inl d ↦ (record w { stack = rest }, rw d, skip-Inv w x b rest h d)
        | inr d ↦ opened b h d
      ]
        where
          opened :
              (b : Bool)
              → Inv (record w { stack = (x, b) ∷ rest })
              → contains w.done x ≡ false
              → (w' : Walker) × (visit parents w x b rest ≡ ok w') × Inv w'
          opened true h d = (_, rw d, emit-Inv w x rest h d)
          opened false h d = (_, rw d (rw (no_cycle w x rest h)), expand-Inv w x rest h d)
