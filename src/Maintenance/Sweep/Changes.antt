-- ===== src/Maintenance/Sweep/Changes.antt =====
-- What an entry of the scratch directory is behind a step that touches one directory.
use text.Mathlib.Text.{starts_with}
use ancestree.Prelude.{
  String, text_discrete, ◌==◌, ◌≡◌, ◌≢◌, refl, ap, sym, subst, ◌∙◌, Bool, true, false, Option, none,
  some, List, [], ◌∷◌, filter, find?, find?-true, if◌then◌else◌, arith,
}
use ancestree.Maintenance.Sweep.{
  Seed, SeedFile, Entry, System, entry_at, rmtree, text_or, seed_of, seed_again, Swept,
}

entry_at-rmtree :
    (m n : String) (es : List Entry)
    → entry_at (rmtree m es) n ≡ (if m == n then none else entry_at es n)
unfolding entry_at rmtree find? filter
entry_at-rmtree m n [] = ground arith
entry_at-rmtree m n (e ∷ es) = elim (text_discrete e.name n) [
  | yes q ↦ elim (text_discrete e.name m) [
    | yes f ↦ ground (arith, entry_at-rmtree m n es, sym f ∙ q)
    | no f ↦ ground (arith, entry_at-rmtree m n es, λ (r : m ≡ n). f (q ∙ sym r))
  ]
  | no q ↦ ground (arith, entry_at-rmtree m n es)
]

pub entry_at-seed_again :
    (system : System) (m n : String) (seed : SeedFile) (es : List Entry)
    → n ≢ m
    → entry_at (seed_again system m seed es) n ≡ entry_at es n
unfolding entry_at seed_again find?
entry_at-seed_again system m n seed [] d = ground (arith, λ (r : m ≡ n). d (sym r))
entry_at-seed_again system m n seed (e ∷ es) d = elim (text_discrete e.name m) [
  | yes f ↦ ground (arith, λ (r : e.name ≡ n). d (sym r ∙ f))
  | no f ↦ ground (arith, entry_at-seed_again system m n seed es d)
]

abbrev pub seed_in : Option Entry → Option SeedFile
seed_in none = none
seed_in (some e) = some e.seed

pub seed_again-seed_in :
    (system : System) (m : String) (seed : SeedFile) (es : List Entry)
    → seed_in (entry_at (seed_again system m seed es) m) ≡ some seed
unfolding entry_at seed_again find?
seed_again-seed_in system m seed [] = ground arith
seed_again-seed_in system m seed (f ∷ es) = elim (text_discrete f.name m) [
  | yes q ↦ ground arith
  | no q ↦ ground (arith, seed_again-seed_in system m seed es)
]

abbrev pub node_in : Option Seed → Option String
node_in none = none
node_in (some s) = s.node_id

-- Every seed names the directory that it lies in, but for those of staging directories, which name
-- the node to come.
abbrev pub NamesItself : List Entry → Type 0
NamesItself es =
    (n : String) (e : Entry) (s : Seed)
    → starts_with n ".staging-" ≡ false
    → entry_at es n ≡ some e
    → seed_of e.seed ≡ some s
    → text_or s.node_id n ≡ n

-- Only the directory of one name has changed, and its seed, where it has one, names it.
pub record ChangesAt (m : String) (es es' : List Entry) : Type 0 where
  pub others : (n : String) → n ≢ m → entry_at es' n ≡ entry_at es n
  pub named :
      (e : Entry) (s : Seed)
      → starts_with m ".staging-" ≡ false
      → entry_at es' m ≡ some e
      → seed_of e.seed ≡ some s
      → text_or s.node_id m ≡ m

pub NamesItself-ChangesAt :
    (m : String) (es es' : List Entry) → NamesItself es → ChangesAt m es es' → NamesItself es'
NamesItself-ChangesAt m es es' k c n e s t h q = elim (text_discrete n m) [
  | yes f ↦
      subst (λ i. text_or s.node_id i ≡ i) (sym f)
        (c.named e s (ap (λ i. starts_with i ".staging-") (sym f) ∙ t)
          (ap (entry_at es') (sym f) ∙ h) q)
  | no f ↦ k n e s t (sym (c.others n f) ∙ h) q
]

pub rmtree-ChangesAt : (m : String) (es : List Entry) → ChangesAt m es (rmtree m es)
rmtree-ChangesAt m es = record {
  others = λ n d. entry_at-rmtree m n es ∙ ground (arith, λ (r : m ≡ n). d (sym r));
  named = λ e s t h q.
      let gone : entry_at (rmtree m es) m ≡ none = entry_at-rmtree m m es ∙ ground arith in cc;
}

pub same-ChangesAt : (m : String) (es : List Entry) → NamesItself es → ChangesAt m es es
same-ChangesAt m es k = record { others = λ n d. refl; named = λ e s t h q. k m e s t h q }

pub if-ChangesAt :
    (b : Bool) (m : String) (es : List Entry) (v w : Swept)
    → ChangesAt m es v.entries
    → ChangesAt m es w.entries
    → ChangesAt m es (if b then v else w).entries
if-ChangesAt true m es v w p q = p
if-ChangesAt false m es v w p q = q

pub some-injective {ℓ} : {A : Type ℓ} {a b : A} → ◌≡◌ {A = Option A} (some a) (some b) → a ≡ b
some-injective h = cc

pub name_at : (es : List Entry) (n : String) (e : Entry) → entry_at es n ≡ some e → e.name ≡ n
unfolding entry_at
name_at es n e h = elim (text_discrete e.name n) [
  | yes f ↦ f
  | no f ↦ let found = find?-true (λ (d : Entry). d.name == n) es e h in absurd (ground arith)
]
