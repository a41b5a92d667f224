-- ===== src/Release/Examples.antt =====
-- The theorem on Release files at a concrete input.
use debswarm.Prelude.{◌≡◌, refl, none, [], ◌∷◌, GoString, codes}
use debswarm.Prelude.Assoc.{lookup}
use debswarm.Prelude.Strings.{to_lower}
use debswarm.Release.{Release, has_hash, parse, parsed}
use debswarm.Release.Lines.{unlines}
use debswarm.Release.RoundTrip.{Entry, release_lines, find_last, any_listed, parse-release_lines}

abbrev weak : Entry
weak = record { hash = codes "9f"; digits = codes "12"; path = codes "main/Packages" }

abbrev strong : Entry
strong = record { hash = codes "AB12"; digits = codes "12"; path = codes "main/Packages" }

parse-release_lines_example :
    (r : Release) × (parse (λ v. none) (unlines (release_lines (weak ∷ []) (strong ∷ [])))
      ≡ parsed r)
    × ((path : GoString) → lookup path r.sha256 ≡ find_last path (strong ∷ []))
    × ((hex : GoString) → has_hash hex r ≡ any_listed (to_lower hex) (strong ∷ []))
parse-release_lines_example =
    parse-release_lines (λ v. none) (weak ∷ []) (strong ∷ [])
      (((λ e. cc, refl), (λ e. cc, refl), (λ e. cc, refl)), tt)
      (((λ e. cc, refl), (λ e. cc, refl), (λ e. cc, refl)), tt) (λ e. cc) refl
