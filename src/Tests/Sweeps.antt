-- ===== src/Tests/Sweeps.antt =====
-- A sweep over the directory of a live process and that of a dead one.
use mathlib.Core.Bool.{false≢true}
use text.Mathlib.Text.{starts_with}
use ancestree.Prelude.{
  ◌⊎◌, ◌≤◌, inr, if◌then◌else◌, ℕ, String, text_discrete, ◌=?◌, ◌≡◌, refl, ap, sym, subst, ◌∙◌,
  true, false, Option, none, some, List, [], ◌∷◌, find?, any, sqlite_integrity, err, arith,
}
use ancestree.Cdc.{large_file_threshold}
use ancestree.Ingest.{with_size, total_size, checkpoint_bytes, ingest_statements, ingest_node}
use ancestree.Connection.{enter, leave, note_failure}
use ancestree.Connection.Transaction.{transaction}
use ancestree.MetadataStore.Write.{add_node, insert_node, exists}
use ancestree.Maintenance.Sweep.{
  no_permission, no_process, Seed, seeded, Entry, System, entry_at, text_or, seed_of, files_at,
  adopted_record, Swept, adopt, sweep_orphan_scratch,
}
use ancestree.Maintenance.Sweep.Changes.{NamesItself}
use ancestree.Maintenance.Sweep.Owned.{owned, sweep_orphan_scratch-InUse}
use ancestree.Maintenance.Sweep.Evidence.{adopt-err}
use ancestree.Tests.Sample.{world, one_node}

abbrev machine : System
machine = record {
  kill = λ pid. if pid =? 7 then no_permission else no_process;
  own_pid = 7;
  now = "2026-01-02";
  now_epoch = 5;
  timestamp = λ s. none;
}

abbrev seed_by : String → ℕ → Seed
seed_by id pid = record {
  node_id = some id;
  step_type = some "clean";
  parent_id = [];
  generation = 0;
  pid = some pid;
  started_utc = none;
}

abbrev named_dir : String → String → ℕ → Entry
named_dir name id pid = record {
  name = name;
  is_dir = true;
  seed = seeded (seed_by id pid);
  recent = false;
  files = ("a.csv", 4 ∷ []) ∷ [];
}

abbrev dir : String → ℕ → Entry
dir id pid = named_dir id id pid

-- The staging directory of a live process, whose seed names the node to come.
abbrev staged : Entry
staged = named_dir ".staging-1" "n" 7

abbrev scratch : List Entry
scratch = dir "k" 1 ∷ dir "m" 7 ∷ staged ∷ []

abbrev node_in : Option Seed → Option String
node_in none = none
node_in (some s) = s.node_id

abbrev name_of : Option Entry → Option String
name_of none = none
name_of (some e) = node_in (seed_of e.seed)

names_n :
    (n : String) (o : Option String)
    → starts_with n ".staging-" ≡ false
    → o ≡ name_of (entry_at scratch n)
    → ((e : Entry) × (entry_at scratch n ≡ some e))
    → text_or o n ≡ n
unfolding entry_at find? text_discrete
names_n n o t id (e, h) = elim (text_discrete "k" n) [
  | yes p ↦
      subst (λ i. o ≡ name_of (entry_at scratch i) → text_or o i ≡ i) p
        (λ q. ap (λ r. text_or r "k") q) id
  | no a ↦ elim (text_discrete "m" n) [
    | yes p ↦
        subst (λ i. o ≡ name_of (entry_at scratch i) → text_or o i ≡ i) p
          (λ q. ap (λ r. text_or r "m") q) id
    | no b ↦ elim (text_discrete ".staging-1" n) [
      | yes p ↦ absurd (false≢true (sym t ∙ ap (λ i. starts_with i ".staging-") (sym p)))
      | no c ↦ absurd (ground (arith, h))
    ]
  ]
]

scratch-NamesItself : NamesItself scratch
scratch-NamesItself n e s t h q =
    names_n n s.node_id t (ap node_in (sym q) ∙ ap name_of (sym h)) (e, h)

sweep_orphan_scratch-InUse_example :
    entry_at (sweep_orphan_scratch machine world true scratch one_node).entries ".staging-1"
    ≡ some staged
unfolding entry_at find? text_discrete
sweep_orphan_scratch-InUse_example =
    sweep_orphan_scratch-InUse machine world true scratch one_node ".staging-1" staged
      scratch-NamesItself refl (owned (seed_by "n" 7) 7 refl refl (inr refl))

abbrev orphan : Swept
orphan = record { entries = dir "n" 1 ∷ []; tables = one_node; adopted = [] }

adoption_fails :
    (ingest_node world true large_file_threshold
      (adopted_record machine "n" (seed_by "n" 1))
      []
      (("a.csv", 4 ∷ []) ∷ [])
      one_node).0
    ≡ err sqlite_integrity
unfolding ingest_node ingest_statements transaction enter leave note_failure add_node with_size
    insert_node exists any text_discrete adopted_record
adoption_fails = refl

adopt-err_example :
    (((adopt machine world true "n" (seed_by "n" 1) orphan).tables ≡ one_node)
      ⊎ ((checkpoint_bytes ≤ total_size (("a.csv", 4 ∷ []) ∷ []))
          × (world.checkpoint (adopt machine world true "n" (seed_by "n" 1) orphan).tables
              ≡ err sqlite_integrity)))
    × ((adopt machine world true "n" (seed_by "n" 1) orphan).adopted ≡ [])
    × (files_at machine (entry_at (adopt machine world true "n" (seed_by "n" 1) orphan).entries "n")
        ≡ ("a.csv", 4 ∷ []) ∷ [])
unfolding entry_at find? text_discrete
adopt-err_example =
    adopt-err machine world true "n" (seed_by "n" 1) orphan ("a.csv", 4 ∷ []) [] sqlite_integrity
      refl adoption_fails
