-- ===== src/Diff.antt =====
-- The comparison of two versions of a document by lines: apps/api/src/document-diff.ts, from the
-- paragraphs of the two files on.
pub mod Compare
use isms_portal.Base.{
  ℕ, zero, suc, ◌+◌, ◌%◌, ◌^◌, ◌<◌, min, max, String, not, Option, none, some, List, [], ◌∷◌, ◌++◌,
  map, leb, str_eq, if◌then◌else◌, length, filter, take, drop, includes, unique,
}

pub record Changes : Type 0 where
  pub added : List String
  pub removed : List String
  pub modified : List (String × String)

-- `normalize` behind the replacement of the white space: `squeeze` is `replace(/\s+/g, " ")` and
-- `trim`, and `size` the number of UTF-16 units of a string.
unfoldable pub normalize : (String → String) → (String → ℕ) → List String → List String
normalize squeeze size values =
    take 500 (unique (filter (λ v. leb 2 (size v)) (map squeeze values)))

-- An element of an array of 16-bit numbers keeps a sum modulo 2 ^ 16.
abbrev pub u16 : ℕ → ℕ
u16 n = n % 2 ^ 16

abbrev pub entry : List ℕ → ℕ
entry [] = 0
entry (n ∷ ns) = n

abbrev pub next_row : List ℕ → List ℕ
next_row [] = []
next_row (n ∷ ns) = ns

-- The row of `common` for one line of `before`: `below` is the row of the line behind it.
unfoldable pub common_row : String → List String → List ℕ → List ℕ
common_row x [] below = 0 ∷ []
common_row x (y ∷ ys) below =
    let row = common_row x ys (next_row below) in
    (if str_eq x y then u16 (entry (next_row below) + 1) else max (entry below) (entry row)) ∷ row

abbrev zeros : List String → List ℕ
zeros [] = 0 ∷ []
zeros (y ∷ ys) = 0 ∷ zeros ys

-- The table `common`, from row `i` on, each row from column `j` on.
unfoldable pub common : List String → List String → List (List ℕ)
unfolding common_row
common [] ys = zeros ys ∷ []
common (x ∷ xs) ys =
    let below = common xs ys in common_row x ys (elim below [ [] ↦ [] | row ∷ rows ↦ row ]) ∷ below

abbrev pub first_row : List (List ℕ) → List ℕ
first_row [] = []
first_row (row ∷ rows) = row

abbrev pub rows_below : List (List ℕ) → List (List ℕ)
rows_below [] = []
rows_below (row ∷ rows) = rows

-- `for (let k = 0; k < pairs; k++) result.modified.push(...)`
abbrev pub pair_up : List String → List String → List (String × String)
pair_up [] ys = []
pair_up (x ∷ xs) [] = []
pair_up (x ∷ xs) (y ∷ ys) = (x, y) ∷ pair_up xs ys

abbrev pub no_changes : Changes
no_changes = record { added = []; removed = []; modified = [] }

-- `flush`, without the reset of the two runs.
unfoldable pub flush : List String → List String → List String → List String → Changes → Changes
flush before after removed_run added_run result =
    let removed = filter (λ line. not (includes after line)) removed_run in
    let added = filter (λ line. not (includes before line)) added_run in
    let pairs = min (length removed) (length added) in
    record {
      modified = result.modified ++ pair_up removed added;
      removed = result.removed ++ drop pairs removed;
      added = result.added ++ drop pairs added;
    }

-- The `while` loop, with the rests of the two lists and of the table for the two indices; every
-- round takes a line from one of the lists, or from both.
unfoldable pub walk :
    ℕ
    → List String
    → List String
    → List String
    → List String
    → List (List ℕ)
    → ℕ
    → List String
    → List String
    → Changes
    → Option Changes
unfolding flush
walk zero before after xs ys rows j removed_run added_run result = none
walk (suc fuel) before after [] [] rows j removed_run added_run result =
    some (flush before after removed_run added_run result)
walk (suc fuel) before after [] (y ∷ ys) rows j removed_run added_run result =
    walk fuel before after [] ys rows (j + 1) removed_run (added_run ++ y ∷ []) result
walk (suc fuel) before after (x ∷ xs) [] rows j removed_run added_run result =
    walk fuel before after xs [] (rows_below rows) j (removed_run ++ x ∷ []) added_run result
walk (suc fuel) before after (x ∷ xs) (y ∷ ys) rows j removed_run added_run result =
    let both =
      walk fuel before after xs ys (rows_below rows) (j + 1) [] []
        (flush before after removed_run added_run result) in
    let right =
      walk fuel before after (x ∷ xs) ys rows (j + 1) removed_run (added_run ++ y ∷ []) result in
    let down =
      walk fuel before after xs (y ∷ ys) (rows_below rows) j (removed_run ++ x ∷ []) added_run
        result in
    if str_eq x y
    then both
    else if leb (entry (drop j (first_row (rows_below rows))))
        (entry (drop (j + 1) (first_row rows)))
    then right
    else down

abbrev pub enough : List String → List String → ℕ
enough before after = suc (length before + length after)

-- `diffLines`
unfoldable pub diff_lines : List String → List String → Option Changes
unfolding walk common
diff_lines before after =
    walk (enough before after) before after before after (common before after) 0 [] [] no_changes

-- The `details` of `compareDocumentVersions`.
unfoldable pub compare_versions : List String → List String → Option Changes
unfolding diff_lines
compare_versions before after = elim (diff_lines before after) [
  | none ↦ none
  | some c ↦ some (record {
    added = take 100 (Changes.added c);
    removed = take 100 (Changes.removed c);
    modified = take 100 (Changes.modified c);
  })
]
