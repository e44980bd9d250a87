-- ===== src/Maintenance/Sweep/Owned.antt =====
-- The sweep leaves the directories of live processes alone.
use text.Mathlib.Text.{starts_with}
use ancestree.Prelude.{
  ℕ, ◌⊎◌, String, text_discrete, ◌==◌, ◌≡◌, refl, ap, sym, subst, ◌∙◌, Bool, true, false, not,
  Option, none, some, List, [], ◌∷◌, map, sort_by, text_leb, if◌then◌else◌, Result, ok, err,
  Bool-cases, Option-cases, List-cases, inl, inr,
}
use ancestree.Cdc.{large_file_threshold}
use ancestree.Database.{Database}
use ancestree.External.{External}
use ancestree.MetadataStore.Write.{exists}
use ancestree.Ingest.{IngestResult, ingest_node}
use ancestree.Maintenance.Sweep.{
  returned, no_permission, unseeded, seeded, pid_alive, Seed, Entry, System, entry_at, rmtree,
  text_or, seed_of, owner_alive, staging_kept, new_seed, seed_again, files_at, adopted_record,
  Swept, settle_adoption, adopt, sweep_seeded, sweep_entry, sweep_names, sweep_orphan_scratch,
}
use ancestree.Maintenance.Sweep.Changes.{
  entry_at-seed_again, seed_in, seed_again-seed_in, node_in, NamesItself, ChangesAt,
  NamesItself-ChangesAt, rmtree-ChangesAt, same-ChangesAt, if-ChangesAt, some-injective, name_at,
}

module _ (system : System) where
  -- The process is there, though it may be another user's.
  abbrev pub IsRunning : ℕ → Type 0
  IsRunning pid = (system.kill pid ≡ returned) ⊎ (system.kill pid ≡ no_permission)

  -- What is not the sweep's to touch: what is no directory, a directory whose seed gives a process
  -- that is running, be it a node's or a staging directory, and a staging directory that is
  -- too young to have been seeded.
  pub data InUse : Entry → Type 0 where
    no_directory : {e : Entry} → e.is_dir ≡ false → InUse e
    owned :
        {e : Entry} (s : Seed) (pid : ℕ)
        → e.seed ≡ seeded s
        → s.pid ≡ some pid
        → IsRunning pid
        → InUse e
    being_made :
        {e : Entry}
        → starts_with e.name ".staging-" ≡ true
        → e.seed ≡ unseeded
        → e.recent ≡ true
        → InUse e

  -- The tests under which the loop body goes on to the next entry.
  abbrev goes_on : Entry → Bool
  goes_on e =
      if not e.is_dir
      then true
      else if starts_with e.name ".staging-"
      then staging_kept system e
      else elim (seed_of e.seed) [ none ↦ false | some s ↦ owner_alive system s.pid ]

  IsRunning-pid_alive : (pid : ℕ) → IsRunning pid → pid_alive (system.kill pid) ≡ true
  IsRunning-pid_alive pid = elim [ inl e ↦ rw e refl | inr e ↦ rw e refl ]

  InUse-goes_on : (e : Entry) → InUse e → goes_on e ≡ true
  InUse-goes_on e (no_directory h) = rw h refl
  InUse-goes_on e (owned s pid q p r) =
      let alive : owner_alive system s.pid ≡ true = rw p (IsRunning-pid_alive pid r) in
      elim (Bool-cases e.is_dir) [
        | inr d ↦ rw d refl
        | inl d ↦ elim (Bool-cases (starts_with e.name ".staging-")) [
          | inl t ↦ rw (d, t, q) alive
          | inr t ↦ rw (d, t, q) alive
        ]
      ]
  InUse-goes_on e (being_made t q r) = elim (Bool-cases e.is_dir) [
    | inl d ↦ rw (d, t, q) r
    | inr d ↦ rw d refl
  ]

module _ (system : System) where
  seed_again-ChangesAt :
      (m : String) (s : Seed) (es : List Entry)
      → ChangesAt m es (seed_again system m (new_seed system m s) es)
  unfolding new_seed
  seed_again-ChangesAt m s es = record {
    others = λ n d. entry_at-seed_again system m n (new_seed system m s) es d;
    named = λ e s' t h q.
        let same : some e.seed ≡ some (new_seed system m s) =
          sym (ap seed_in h) ∙ seed_again-seed_in system m (new_seed system m s) es in
        let id : s'.node_id ≡ some m =
          ap node_in (sym q)
          ∙ ap (λ o. elim o as (λ _. Option String) [ none ↦ none | some f ↦ node_in (seed_of f) ])
              same in
        ap (λ o. text_or o m) id
        ∙ elim (Bool-cases (m == "")) [ inl z ↦ rw z refl | inr z ↦ rw z refl ];
  }

  ChangesAt-trans :
      (m : String) (es mid es' : List Entry)
      → ChangesAt m es mid
      → ChangesAt m mid es'
      → ChangesAt m es es'
  ChangesAt-trans m es mid es' p q = record {
    others = λ n d. q.others n d ∙ p.others n d;
    named = q.named;
  }

  settle-ChangesAt :
      (m : String) (es entries : List Entry) (adopted : List String)
      (r : Result IngestResult × Database)
      → ChangesAt m es entries
      → ChangesAt m es (settle_adoption system m entries adopted r).entries
  settle-ChangesAt m es entries adopted (ok _, db) c =
      ChangesAt-trans m es entries (rmtree m entries) c (rmtree-ChangesAt m entries)
  settle-ChangesAt m es entries adopted (err _, db) c = c

  module _ (x : External) (delta : Bool) where
    adopt-ChangesAt :
        (m : String) (s : Seed) (w : Swept)
        → ChangesAt m w.entries (adopt system x delta m s w).entries
    unfolding adopt
    adopt-ChangesAt m s w =
        let entries = seed_again system m (new_seed system m s) w.entries in
        let c = seed_again-ChangesAt m s w.entries in
        elim (List-cases (files_at system (entry_at entries m))) [
          | inl e ↦
              rw (adopt, e)
                (ChangesAt-trans m w.entries entries (rmtree m entries) c
                  (rmtree-ChangesAt m entries))
          | inr (f, fs, e) ↦
              rw (adopt, e)
                (settle-ChangesAt m w.entries entries w.adopted
                  (ingest_node x delta large_file_threshold (adopted_record system m s) [] (f ∷ fs)
                    w.tables)
                  c)
        ]

    sweep_seeded-ChangesAt :
        (name : String) (s : Seed) (w : Swept)
        → NamesItself w.entries
        → text_or s.node_id name ≡ name
        → ChangesAt name w.entries (sweep_seeded system x delta name s w).entries
    unfolding sweep_seeded
    sweep_seeded-ChangesAt name s w k same =
        let taken : ChangesAt name w.entries
            (adopt system x delta (text_or s.node_id name) s w).entries =
          subst (λ i. ChangesAt name w.entries (adopt system x delta i s w).entries) (sym same)
            (adopt-ChangesAt name s w) in
        elim (Bool-cases (owner_alive system s.pid)) [
          | inl e ↦ rw e (same-ChangesAt name w.entries k)
          | inr e ↦ elim (Bool-cases (exists w.tables (text_or s.node_id name))) [
            | inl f ↦ rw (e, f) (rmtree-ChangesAt name w.entries)
            | inr f ↦ rw (e, f) taken
          ]
        ]

    sweep_entry-ChangesAt :
        (e : Entry) (w : Swept)
        → NamesItself w.entries
        → entry_at w.entries e.name ≡ some e
        → ChangesAt e.name w.entries (sweep_entry system x delta e w).entries
    unfolding sweep_entry
    sweep_entry-ChangesAt e w k here =
        let same = same-ChangesAt e.name w.entries k in
        let gone = rmtree-ChangesAt e.name w.entries in
        if-ChangesAt (not e.is_dir) e.name w.entries w _ same
          (elim (Bool-cases (starts_with e.name ".staging-")) [
            | inl t ↦ rw t (
                if-ChangesAt (staging_kept system e) e.name w.entries w
                  (record w { entries = rmtree e.name w.entries }) same gone)
            | inr t ↦ rw t (elim (Option-cases (seed_of e.seed)) [
              | inl q ↦ rw q gone
              | inr (s, q) ↦ rw q (sweep_seeded-ChangesAt e.name s w k (k e.name e s t here q))
            ])
          ])

    branches_kept :
        (dir staging kept : Bool) (seed : Option Seed) (w gone : Swept) (f : Seed → Swept)
        → ((s : Seed) → owner_alive system s.pid ≡ true → f s ≡ w)
        → (if not dir
            then true
            else if staging
            then kept
            else elim seed [ none ↦ false | some s ↦ owner_alive system s.pid ])
          ≡ true
        → (if not dir
            then w
            else if staging
            then (if kept then w else gone)
            else elim seed [ none ↦ gone | some s ↦ f s ])
          ≡ w
    branches_kept false staging kept seed w gone f keep h = refl
    branches_kept true true true seed w gone f keep h = refl
    branches_kept true true false seed w gone f keep h = cc
    branches_kept true false kept none w gone f keep h = cc
    branches_kept true false kept (some s) w gone f keep h = keep s h

    sweep_entry-InUse :
        (e : Entry) (w : Swept) → InUse system e → sweep_entry system x delta e w ≡ w
    unfolding sweep_entry sweep_seeded
    sweep_entry-InUse e w used =
        branches_kept e.is_dir (starts_with e.name ".staging-") (staging_kept system e)
          (seed_of e.seed) w (record w { entries = rmtree e.name w.entries })
          (λ s. sweep_seeded system x delta e.name s w) (λ s a. rw a refl)
          (InUse-goes_on system e used)

    sweep_names-kept :
        (names : List String) (w : Swept) (n : String) (e : Entry)
        → NamesItself w.entries
        → entry_at w.entries n ≡ some e
        → InUse system e
        → entry_at (sweep_names system x delta names w).entries n ≡ some e
    unfolding sweep_names
    sweep_names-kept [] w n e k h u = h
    sweep_names-kept (name ∷ names) w n e k h u = elim (Option-cases (entry_at w.entries name)) [
      | inl q ↦ rw (sweep_names, q) (sweep_names-kept names w n e k h u)
      | inr (d, q) ↦
          let named : d.name ≡ name = name_at w.entries name d q in
          let c : ChangesAt name w.entries (sweep_entry system x delta d w).entries =
            subst (λ i. ChangesAt i w.entries (sweep_entry system x delta d w).entries) named
              (sweep_entry-ChangesAt d w k (ap (entry_at w.entries) named ∙ q)) in
          let still : entry_at (sweep_entry system x delta d w).entries n ≡ some e =
            elim (text_discrete n name) [
              | yes f ↦
                  let same : some d ≡ some e = sym q ∙ ap (entry_at w.entries) (sym f) ∙ h in
                  let used : InUse system d = subst (InUse system) (sym (some-injective same)) u in
                  ap (λ (v : Swept). entry_at v.entries n) (sweep_entry-InUse d w used) ∙ h
              | no f ↦ c.others n f ∙ h
            ] in
          rw (sweep_names, q)
            (sweep_names-kept names (sweep_entry system x delta d w) n e
              (NamesItself-ChangesAt name w.entries (sweep_entry system x delta d w).entries k c)
              still u)
    ]

    -- A directory in use is as it was behind a sweep, whatever else is adopted or removed: its seed and its
    -- files stay. In use is what is no directory, what has the seed of a process that is running, staging or
    -- not, and a staging directory that is younger than the grace period and not seeded yet. Every seed names the
    -- directory that it lies in, staging directories apart.
    pub sweep_orphan_scratch-InUse :
        (entries : List Entry) (db : Database) (n : String) (e : Entry)
        → NamesItself entries
        → entry_at entries n ≡ some e
        → InUse system e
        → entry_at (sweep_orphan_scratch system x delta entries db).entries n ≡ some e
    unfolding sweep_orphan_scratch
    sweep_orphan_scratch-InUse entries db n e k h u =
        sweep_names-kept (sort_by text_leb (map (λ d. d.name) entries))
          (record { entries = entries; tables = db; adopted = [] }) n e k h u
