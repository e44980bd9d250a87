-- ===== src/Tests/Prints.antt =====
-- The fingerprint of reordered content.
use mathlib.Core.List.{Permᴰ}
use mathlib.Core.List.Permᴰ
use ancestree.Prelude.{String, text_discrete, ◌≡◌, refl, none, true, [], ◌∷◌, contains}
use ancestree.MetadataStore.Read.{Dict}
use ancestree.Domain.Fingerprint.{Envelope, ContentSummary, summary_of, digest}
use ancestree.Domain.Fingerprint.Unordered.{digest-Permᴰ}

abbrev files : Dict String
files = ("a.csv", "01") ∷ ("b.csv", "02") ∷ []

abbrev files_swapped : Dict String
files_swapped = ("b.csv", "02") ∷ ("a.csv", "01") ∷ []

abbrev note : Dict Envelope
note = ("note", record { value = "1"; data_type = "text"; group = none; searchable = true }) ∷ []

abbrev named : ContentSummary → String
named s = s.step_type

digest-Permᴰ_example :
    digest named (summary_of "clean" ("a" ∷ "b" ∷ []) note files)
    ≡ digest named (summary_of "clean" ("b" ∷ "a" ∷ []) note files_swapped)
unfolding contains text_discrete
digest-Permᴰ_example =
    digest-Permᴰ named "clean" ("a" ∷ "b" ∷ []) ("b" ∷ "a" ∷ []) note note files files_swapped
      (Permᴰ.swap refl refl) (refl, tt) (Permᴰ.refl note) (refl, (refl, tt)) (Permᴰ.swap refl refl)
