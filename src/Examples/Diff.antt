-- ===== src/Examples/Diff.antt =====
-- Two versions of three lines.
use isms_portal.Base.{String, ◌≡◌, refl, some, List, [], ◌∷◌, str_eq}
use isms_portal.Diff.{Changes, diff_lines}
use isms_portal.Diff.Compare.{told_added, told_removed, unless_in, occurrences, diff_lines_reports}

abbrev earlier : List String
earlier = "Scope" ∷ "Roles" ∷ "End" ∷ []

abbrev later : List String
later = "Scope" ∷ "Duties" ∷ "Duties" ∷ "End" ∷ []

diff_lines_reports_example :
    (c : Changes) × (diff_lines earlier later ≡ some c)
    × (told_added "Duties" c ≡ unless_in earlier "Duties" (occurrences "Duties" later))
    × (told_removed "Duties" c ≡ unless_in later "Duties" (occurrences "Duties" earlier))
diff_lines_reports_example = diff_lines_reports earlier later "Duties"

-- The changed line stands in a pair, the line that is there twice once more alone.
duties_added :
    diff_lines earlier later
    ≡ some (record { added = "Duties" ∷ []; removed = []; modified = ("Roles", "Duties") ∷ [] })
unfolding diff_lines str_eq
duties_added = refl
