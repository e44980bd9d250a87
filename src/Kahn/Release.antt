-- ===== src/Kahn/Release.antt =====
-- What the inner loop does to the degrees and to the nodes that are ready.
use ancestree.Prelude.{
  ℕ, ◌-◌, ◌≤◌, String, text_discrete, ◌==◌, ◌=?◌, ◌≡◌, ap, ◌∙◌, Bool, true, false, ◌||◌, ◌&&◌, List,
  [], ◌∷◌, contains, IsDistinct, ltb, if◌then◌else◌, arith,
}
use ancestree.Kahn.{release}
use ancestree.Kahn.Counts.{count}

module _ (x : String) (cs : List String) (degree : String → ℕ) where
  abbrev lowered : String → ℕ
  lowered n = if x == n then degree n - 1 else degree n

  abbrev pushed : List String → List String
  pushed ready = if lowered x =? 0 then x ∷ ready else ready

  pushed_if-IsDistinct :
      (b : Bool) (ready : List String)
      → contains ready x ≡ false
      → IsDistinct ready
      → IsDistinct (if b then x ∷ ready else ready)
  pushed_if-IsDistinct true ready new d = (new, d)
  pushed_if-IsDistinct false ready new d = d

  contains-pushed_if :
      (b : Bool) (ready : List String) (c : String)
      → contains (if b then x ∷ ready else ready) c ≡ (contains ready c || ((x == c) && b))
  unfolding contains
  contains-pushed_if true ready c = ground arith
  contains-pushed_if false ready c = ground arith

  pushed-zero :
      (ready : List String) (c : String)
      → ((n : String) → contains ready n ≡ true → degree n ≡ 0)
      → contains (pushed ready) c ≡ true
      → lowered c ≡ 0
  pushed-zero ready c z h =
      let listed = contains-pushed_if (lowered x =? 0) ready c in
      elim (text_discrete x c) [
        | yes e ↦ let same : lowered x ≡ lowered c = ap lowered e in ground (arith, z c)
        | no e ↦ ground (arith, z c)
      ]

  pushed-listed :
      (ready : List String) (c : String)
      → ((n : String) → contains ready n ≡ true → degree n ≡ 0)
      → ((n : String) → count (x ∷ cs) n ≤ degree n)
      → (contains (pushed ready) c || (ltb 0 (count cs c) && (lowered c =? count cs c)))
        ≡ (contains ready c || (ltb 0 (count (x ∷ cs) c) && (degree c =? count (x ∷ cs) c)))
  unfolding count
  pushed-listed ready c z fits =
      let listed = contains-pushed_if (lowered x =? 0) ready c in
      elim (text_discrete x c) [
        | yes e ↦ let same : lowered x ≡ lowered c = ap lowered e in ground (arith, z c, fits c)
        | no e ↦ ground (arith, z c, fits c)
      ]

pub release-degree :
    (cs : List String) (degree : String → ℕ) (ready : List String) (c : String)
    → (release cs degree ready).0 c ≡ degree c - count cs c
unfolding release count
release-degree [] degree ready c = omega arith
release-degree (x ∷ cs) degree ready c =
    release-degree cs (lowered x cs degree) (pushed x cs degree ready) c ∙ ground arith

-- Nodes get ready at the last of their edges, each once.
pub release-ready :
    (cs : List String) (degree : String → ℕ) (ready : List String)
    → IsDistinct ready
    → ((c : String) → contains ready c ≡ true → degree c ≡ 0)
    → ((c : String) → count cs c ≤ degree c)
    → IsDistinct (release cs degree ready).1
      × ((c : String)
          → contains (release cs degree ready).1 c
            ≡ (contains ready c || (ltb 0 (count cs c) && (degree c =? count cs c))))
unfolding release count
release-ready [] degree ready d z fits = (d, λ c. ground arith)
release-ready (x ∷ cs) degree ready d z fits =
    let low = lowered x cs degree in
    let b : Bool = low x =? 0 in
    let new : contains ready x ≡ false = ground (arith, z x, fits x) in
    let fewer : (c : String) → count cs c ≤ low c = λ c. ground (arith, fits c) in
    let (d', m) =
      release-ready cs low (pushed x cs degree ready)
        (pushed_if-IsDistinct x cs degree b ready new d)
        (λ c h. pushed-zero x cs degree ready c z h) fewer in
    (d', λ c. m c ∙ pushed-listed x cs degree ready c z fits)
