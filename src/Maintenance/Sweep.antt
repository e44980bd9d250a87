-- ===== src/Maintenance/Sweep.antt =====
-- `sweep_orphan_scratch` of src/ancestree/maintenance.py, with what `NodeWorkspace` of
-- src/ancestree/ingest/workspace.py does to the scratch directories.
pub mod Changes
pub mod Owned
pub mod Evidence
use text.Mathlib.Text.{starts_with}
use ancestree.Prelude.{
  ℕ, String, ◌==◌, Bool, true, false, not, Option, none, some, List, [], ◌∷◌, ◌++◌, map, filter,
  find?, sort_by, text_leb, if◌then◌else◌, Result, ok, err,
}
use ancestree.Cdc.{large_file_threshold}
use ancestree.Database.{Database}
use ancestree.External.{External}
use ancestree.MetadataStore.Write.{NodeRecord, exists}
use ancestree.Ingest.{Files, IngestResult, ingest_node}

-- The fields of a seed that are there and that the code reads.
pub record Seed : Type 0 where
  pub node_id : Option String
  pub step_type : Option String
  pub parent_id : List String
  pub generation : ℕ
  pub pid : Option ℕ
  pub started_utc : Option String

pub data SeedFile : Type 0 where
  unseeded unreadable : SeedFile
  seeded : Seed → SeedFile

-- An entry of `.scratch`: `recent` when it is younger than the grace period, `files` what
-- `NodeWorkspace.files` lists.
pub record Entry : Type 0 where
  pub name : String
  pub is_dir : Bool
  pub seed : SeedFile
  pub recent : Bool
  pub files : Files

-- What `os.kill(pid, 0)` does: it returns, or raises ProcessLookupError, PermissionError or another
-- OSError.
pub data Probe : Type 0 where
  returned no_process no_permission other_error : Probe

abbrev pub pid_alive : Probe → Bool
pid_alive returned = true
pid_alive no_process = false
pid_alive no_permission = true
pid_alive other_error = false

-- The probe of a process, the own process, the clock, and the epoch of an ISO time, where it is one.
pub record System : Type 0 where
  pub kill : ℕ → Probe
  pub own_pid : ℕ
  pub now : String
  pub now_epoch : ℕ
  pub timestamp : String → Option ℕ

unfoldable pub entry_at : List Entry → String → Option Entry
entry_at entries name = find? (λ e. e.name == name) entries

-- `shutil.rmtree`
unfoldable pub rmtree : String → List Entry → List Entry
rmtree name entries = filter (λ e. not (e.name == name)) entries

-- `x or y` of a text that may be missing.
abbrev pub text_or : Option String → String → String
text_or none other = other
text_or (some s) other = if s == "" then other else s

abbrev pub seed_of : SeedFile → Option Seed
seed_of unseeded = none
seed_of unreadable = none
seed_of (seeded s) = some s

-- The directories, the tables and the ids adopted so far.
pub record Swept : Type 0 where
  pub entries : List Entry
  pub tables : Database
  pub adopted : List String

module _ (system : System) where
  abbrev pub owner_alive : Option ℕ → Bool
  owner_alive none = false
  owner_alive (some pid) = pid_alive (system.kill pid)

  -- Whether `_reap_staging` leaves the directory alone.
  abbrev pub staging_kept : Entry → Bool
  staging_kept e = elim e.seed [
    | unseeded ↦ e.recent
    | unreadable ↦ false
    | seeded s ↦ owner_alive s.pid
  ]

  -- `NodeWorkspace(...)`: a directory that is there is seeded again, with its files; else there is a new one.
  unfoldable pub new_seed : String → Seed → SeedFile
  new_seed node_id s = seeded (record {
    node_id = some node_id;
    step_type = some (text_or s.step_type "unknown");
    parent_id = s.parent_id;
    generation = s.generation;
    pid = some system.own_pid;
    started_utc = some system.now;
  })

  unfoldable pub seed_again : String → SeedFile → List Entry → List Entry
  seed_again node_id seed [] =
      record { name = node_id; is_dir = true; seed = seed; recent = true; files = [] } ∷ []
  seed_again node_id seed (e ∷ entries) =
      let rest = seed_again node_id seed entries in
      if e.name == node_id then record e { seed = seed } ∷ entries else e ∷ rest

  abbrev pub files_at : Option Entry → Files
  files_at none = []
  files_at (some e) = e.files

  abbrev pub epoch_or : Option ℕ → String → String × ℕ
  epoch_or none started = (system.now, system.now_epoch)
  epoch_or (some epoch) started = (started, epoch)

  unfoldable pub adopted_record : String → Seed → NodeRecord
  adopted_record node_id s =
      let started = text_or s.started_utc "" in
      let (created_utc, epoch) = epoch_or (system.timestamp started) started in
      record {
        row = record {
          node_id = node_id;
          step_type = text_or s.step_type "unknown";
          generation = s.generation;
          created_utc = created_utc;
          created_epoch = epoch;
          healthy = false;
          duration = none;
          size_bytes = 0;
          content_hash = none;
          prov_user = none;
          prov_python = none;
          prov_platform = none;
          prov_git_commit = none;
          prov_git_branch = none;
          prov_git_dirty = none;
        };
        parent_id = s.parent_id;
      }

  abbrev pub settle_adoption :
      String → List Entry → List String → Result IngestResult × Database → Swept
  settle_adoption node_id entries adopted (ok _, db) = record {
    entries = rmtree node_id entries;
    tables = db;
    adopted = adopted ++ node_id ∷ [];
  }
  settle_adoption node_id entries adopted (err _, db) = record {
    entries = entries;
    tables = db;
    adopted = adopted;
  }

  module _ (x : External) (delta : Bool) where
    -- A seeded directory of a process that is gone and whose node is not in the store.
    unfoldable pub adopt : String → Seed → Swept → Swept
    adopt node_id s w =
        let entries = seed_again node_id (new_seed node_id s) w.entries in
        elim (files_at (entry_at entries node_id)) [
          | [] ↦ record w { entries = rmtree node_id entries }
          | f ∷ fs ↦ settle_adoption node_id entries w.adopted (
              ingest_node x delta large_file_threshold (adopted_record node_id s) [] (f ∷ fs)
                w.tables)
        ]

    unfoldable pub sweep_seeded : String → Seed → Swept → Swept
    sweep_seeded name s w =
        let node_id = text_or s.node_id name in
        let gone : Swept = record w { entries = rmtree name w.entries } in
        let taken = adopt node_id s w in
        if owner_alive s.pid then w else if exists w.tables node_id then gone else taken

    unfoldable pub sweep_entry : Entry → Swept → Swept
    sweep_entry e w =
        let gone : Swept = record w { entries = rmtree e.name w.entries } in
        let seeded_case : Swept = elim (seed_of e.seed) [
          | none ↦ gone
          | some s ↦ sweep_seeded e.name s w
        ] in
        if not e.is_dir
        then w
        else if starts_with e.name ".staging-"
        then (if staging_kept e then w else gone)
        else seeded_case

    -- `for entry in sorted(scratch_root.iterdir())`; an entry that has gone meanwhile is no directory.
    unfoldable pub sweep_names : List String → Swept → Swept
    sweep_names [] w = w
    sweep_names (name ∷ names) w =
        sweep_names names (elim (entry_at w.entries name) [ none ↦ w | some e ↦ sweep_entry e w ])

    unfoldable pub sweep_orphan_scratch : List Entry → Database → Swept
    sweep_orphan_scratch entries db =
        sweep_names (sort_by text_leb (map (λ e. e.name) entries))
          (record { entries = entries; tables = db; adopted = [] })
