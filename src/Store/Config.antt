-- ===== src/Store/Config.antt =====
-- `_load_or_create_config` of src/ancestree/store.py. What it warns of is a list beside the policy.
-- The arguments are the lists and dicts of the documented types, which JSON gives back as they were; a
-- tuple in place of a list is the list that comes back.
use ancestree.Prelude.{
  String, ◌==◌, ◌≡◌, refl, ap, Bool, true, false, not, ◌&&◌, Option, none, some, List, [], ◌∷◌,
  ◌++◌, if◌then◌else◌,
}
use ancestree.Database.{Database, Policy}
use ancestree.Domain.Rules.{same_type}

-- The arguments of the constructor, None where they are left out.
pub record Supplied : Type 0 where
  pub rules : Option (List (String × List (Option String)))
  pub gen_triggers : Option (List String)
  pub reuse_identical : Option Bool
  pub delta : Option Bool

pub data Warning : Type 0 where
  rules_differ gen_triggers_differ reuse_identical_differs delta_differs : Warning

unfoldable pub same_list {ℓ} : {A : Type ℓ} → (A → A → Bool) → List A → List A → Bool
same_list same [] [] = true
same_list same [] (y ∷ ys) = false
same_list same (x ∷ xs) [] = false
same_list same (x ∷ xs) (y ∷ ys) = same x y && same_list same xs ys

abbrev pub same_bool : Bool → Bool → Bool
same_bool true b = b
same_bool false b = not b

-- `rules or {}`
abbrev pub or_empty {ℓ} : {A : Type ℓ} → Option (List A) → List A
or_empty none = []
or_empty (some xs) = xs

-- `True if b is None else bool(b)`
abbrev pub or_true : Option Bool → Bool
or_true none = true
or_true (some b) = b

unfoldable pub new_policy : Supplied → Policy
new_policy s = record {
  rules = or_empty s.rules;
  gen_triggers = or_empty s.gen_triggers;
  reuse_identical = or_true s.reuse_identical;
  delta = or_true s.delta;
}

-- `if supplied and supplied != stored: warnings.warn(...)` for a list.
unfoldable pub warn_list {ℓ} :
    {A : Type ℓ} → (A → A → Bool) → Warning → Option (List A) → List A → List Warning
warn_list same w none stored = []
warn_list same w (some []) stored = []
warn_list same w (some (x ∷ xs)) stored = if same_list same (x ∷ xs) stored then [] else w ∷ []

unfoldable pub warn_flag : Warning → Option Bool → Bool → List Warning
warn_flag w none stored = []
warn_flag w (some b) stored = if same_bool b stored then [] else w ∷ []

-- The keys of a dict come in one order here; the code compares dicts without regard to it.
abbrev pub same_rule : String × List (Option String) → String × List (Option String) → Bool
same_rule (j, xs) (k, ys) = (j == k) && same_list same_type xs ys

abbrev load_from : Supplied → Database → Option Policy → (Policy × List Warning) × Database
load_from s db none = ((new_policy s, []), record db { config = some (new_policy s) })
load_from s db (some stored) = (
  (
    stored,
    warn_list same_rule rules_differ s.rules stored.rules
        ++ warn_list (λ a b. a == b) gen_triggers_differ s.gen_triggers stored.gen_triggers
        ++ warn_flag reuse_identical_differs s.reuse_identical stored.reuse_identical
        ++ warn_flag delta_differs s.delta stored.delta,
  ),
  db,
)

unfoldable pub load_or_create_config : Supplied → Database → (Policy × List Warning) × Database
load_or_create_config s db = load_from s db db.config

load_from-config :
    (s : Supplied) (db : Database) (config : Option Policy)
    → db.config ≡ config
    → (load_from s db config).1.config ≡ some (load_from s db config).0.0
load_from-config s db none e = refl
load_from-config s db (some stored) e = e

-- The policy is set by the first opening of a store: whatever a later opening supplies, it gets the
-- policy that the opening before it got, and it leaves the tables as they are.
pub load_or_create_config-fixed :
    (s t : Supplied) (db : Database)
    → ((load_or_create_config t (load_or_create_config s db).1).0.0
        ≡ (load_or_create_config s db).0.0)
      × ((load_or_create_config t (load_or_create_config s db).1).1
          ≡ (load_or_create_config s db).1)
unfolding load_or_create_config
load_or_create_config-fixed s t db =
    let opened = (load_from s db db.config).1 in
    let e = load_from-config s db db.config refl in
    (ap (λ c. (load_from t opened c).0.0) e, ap (λ c. (load_from t opened c).1) e)
