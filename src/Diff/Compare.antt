-- ===== src/Diff/Compare.antt =====
-- What `diffLines` reports of each line.
use isms_portal.Base.{
  ℕ, zero, suc, ◌+◌, ◌<◌, min, String, ◌≡◌, refl, inl, inr, true, not, Option, some, List, [], ◌∷◌,
  ◌++◌, arith, leb, str_eq, if◌then◌else◌, Bool-cases, str_eq_iff, str_eq_self, length, filter,
  drop, includes, All,
}
use isms_portal.Diff.{
  Changes, pair_up, flush, walk, diff_lines, common, enough, no_changes, rows_below, first_row,
  entry,
}

abbrev pub occurrences : String → List String → ℕ
occurrences l [] = 0
occurrences l (x ∷ xs) = (if str_eq x l then 1 else 0) + occurrences l xs

abbrev firsts : List (String × String) → List String
firsts [] = []
firsts ((x, y) ∷ ps) = x ∷ firsts ps

abbrev seconds : List (String × String) → List String
seconds [] = []
seconds ((x, y) ∷ ps) = y ∷ seconds ps

-- How often a line is reported as new, or as gone, alone or in a pair.
abbrev pub told_added : String → Changes → ℕ
told_added l c = occurrences l c.added + occurrences l (seconds c.modified)

abbrev pub told_removed : String → Changes → ℕ
told_removed l c = occurrences l c.removed + occurrences l (firsts c.modified)

-- The number, for a line that the other version has not.
abbrev pub unless_in : List String → String → ℕ → ℕ
unless_in other l n = if includes other l then 0 else n

occurrences-append :
    (l : String) (xs ys : List String)
    → occurrences l (xs ++ ys) ≡ occurrences l xs + occurrences l ys
occurrences-append l [] ys = omega arith
occurrences-append l (x ∷ xs) ys = ground (arith, occurrences-append l xs ys)

firsts-append :
    (l : String) (ps qs : List (String × String))
    → occurrences l (firsts (ps ++ qs)) ≡ occurrences l (firsts ps) + occurrences l (firsts qs)
firsts-append l [] qs = omega arith
firsts-append l ((x, y) ∷ ps) qs = ground (arith, firsts-append l ps qs)

seconds-append :
    (l : String) (ps qs : List (String × String))
    → occurrences l (seconds (ps ++ qs)) ≡ occurrences l (seconds ps) + occurrences l (seconds qs)
seconds-append l [] qs = omega arith
seconds-append l ((x, y) ∷ ps) qs = ground (arith, seconds-append l ps qs)

min-suc : (a b : ℕ) → min (suc a) (suc b) ≡ suc (min a b)
min-suc a b = omega arith

pairs_removed :
    (l : String) (xs ys : List String)
    → occurrences l (drop (min (length xs) (length ys)) xs) + occurrences l (firsts (pair_up xs ys))
      ≡ occurrences l xs
pairs_removed l [] ys =
    let none_left : min 0 (length ys) ≡ 0 = omega arith in rw none_left (omega arith)
pairs_removed l (x ∷ xs) [] =
    let none_left : min (suc (length xs)) 0 ≡ 0 = omega arith in rw none_left (omega arith)
pairs_removed l (x ∷ xs) (y ∷ ys) =
    rw (min-suc (length xs) (length ys)) (omega (arith, pairs_removed l xs ys))

pairs_added :
    (l : String) (xs ys : List String)
    → occurrences l (drop (min (length xs) (length ys)) ys)
        + occurrences l (seconds (pair_up xs ys))
      ≡ occurrences l ys
pairs_added l [] ys =
    let none_left : min 0 (length ys) ≡ 0 = omega arith in rw none_left (omega arith)
pairs_added l (x ∷ xs) [] =
    let none_left : min (suc (length xs)) 0 ≡ 0 = omega arith in rw none_left (omega arith)
pairs_added l (x ∷ xs) (y ∷ ys) =
    rw (min-suc (length xs) (length ys)) (omega (arith, pairs_added l xs ys))

occurrences-filter :
    (other : List String) (l : String) (xs : List String)
    → occurrences l (filter (λ x. not (includes other x)) xs) ≡ unless_in other l (occurrences l xs)
occurrences-filter other l [] = ground arith
occurrences-filter other l (x ∷ xs) = elim (Bool-cases (str_eq x l)) [
  | inl same ↦
      let e : x ≡ l = (str_eq_iff x l).0 same in
      rw (e, str_eq_self) ground (arith, occurrences-filter other l xs)
  | inr apart ↦ ground (arith, occurrences-filter other l xs)
]

unless_in-add :
    (other : List String) (l : String) (a b : ℕ)
    → unless_in other l (a + b) ≡ unless_in other l a + unless_in other l b
unless_in-add other l a b = ground arith

-- `flush` reports the runs.
flush_added :
    (before after removed_run added_run : List String) (c : Changes) (l : String)
    → told_added l (flush before after removed_run added_run c)
      ≡ told_added l c + unless_in before l (occurrences l added_run)
unfolding flush
flush_added before after removed_run added_run c l =
    let removed = filter (λ x. not (includes after x)) removed_run in
    let added = filter (λ x. not (includes before x)) added_run in
    omega (
      arith,
      occurrences-append l c.added (drop (min (length removed) (length added)) added),
      seconds-append l c.modified (pair_up removed added),
      pairs_added l removed added,
      occurrences-filter before l added_run,
    )

flush_removed :
    (before after removed_run added_run : List String) (c : Changes) (l : String)
    → told_removed l (flush before after removed_run added_run c)
      ≡ told_removed l c + unless_in after l (occurrences l removed_run)
unfolding flush
flush_removed before after removed_run added_run c l =
    let removed = filter (λ x. not (includes after x)) removed_run in
    let added = filter (λ x. not (includes before x)) added_run in
    omega (
      arith,
      occurrences-append l c.removed (drop (min (length removed) (length added)) removed),
      firsts-append l c.modified (pair_up removed added),
      pairs_removed l removed added,
      occurrences-filter after l removed_run,
    )

-- The lines ahead, reported after the lines of the runs.
abbrev Goal :
    List String
    → List String
    → List String
    → List String
    → List String
    → List String
    → Changes
    → String
    → Option Changes
    → Type 0
Goal before after xs ys removed_run added_run result l answer =
    (c : Changes) × (answer ≡ some c)
    × (told_added l c
        ≡ told_added l result + unless_in before l (occurrences l added_run + occurrences l ys))
    × (told_removed l c
        ≡ told_removed l result + unless_in after l (occurrences l removed_run + occurrences l xs))

includes_more :
    (x : String) (xs ys : List String)
    → All (λ y. includes xs y ≡ true) ys
    → All (λ y. includes (x ∷ xs) y ≡ true) ys
includes_more x xs [] h = tt
includes_more x xs (y ∷ ys) (h, hs) = (ground arith, includes_more x xs ys hs)

includes-All : (xs : List String) → All (λ x. includes xs x ≡ true) xs
includes-All [] = tt
includes-All (x ∷ xs) = (ground (arith, str_eq_self x), includes_more x xs xs (includes-All xs))

-- A line that is in the other version adds nothing.
same_line :
    (other : List String) (l y : String) (a b : ℕ)
    → includes other y ≡ true
    → unless_in other l (a + ((if str_eq y l then 1 else 0) + b))
      ≡ unless_in other l a + unless_in other l (0 + b)
same_line other l y a b h = elim (Bool-cases (str_eq y l)) [
  | inl same ↦
      let e : y ≡ l = (str_eq_iff y l).0 same in
      let known : includes other l ≡ true = rw (← e) h in ground (arith, known)
  | inr apart ↦ ground arith
]

step_added :
    (before after xs ys rr ar : List String) (y : String) (res : Changes) (l : String)
    (answer : Option Changes)
    → Goal before after xs ys rr (ar ++ y ∷ []) res l answer
    → Goal before after xs (y ∷ ys) rr ar res l answer
step_added before after xs ys rr ar y res l answer (c, e, told, gone) =
    (c, e, ground (arith, occurrences-append l ar (y ∷ [])), gone)

step_removed :
    (before after xs ys rr ar : List String) (x : String) (res : Changes) (l : String)
    (answer : Option Changes)
    → Goal before after xs ys (rr ++ x ∷ []) ar res l answer
    → Goal before after (x ∷ xs) ys rr ar res l answer
step_removed before after xs ys rr ar x res l answer (c, e, told, gone) =
    (c, e, told, ground (arith, occurrences-append l rr (x ∷ [])))

step_both :
    (before after xs ys rr ar : List String) (x y : String) (res : Changes) (l : String)
    (answer : Option Changes)
    → includes before y ≡ true
    → includes after x ≡ true
    → Goal before after xs ys [] [] (flush before after rr ar res) l answer
    → Goal before after (x ∷ xs) (y ∷ ys) rr ar res l answer
step_both before after xs ys rr ar x y res l answer hy hx (c, e, told, gone) = (
  c,
  e,
  omega (
    arith,
    flush_added before after rr ar res l,
    same_line before l y (occurrences l ar) (occurrences l ys) hy,
  ),
  omega (
    arith,
    flush_removed before after rr ar res l,
    same_line after l x (occurrences l rr) (occurrences l xs) hx,
  ),
)

walk_total :
    (fuel : ℕ) (before after xs ys : List String) (rows : List (List ℕ)) (j : ℕ)
    (removed_run added_run : List String) (result : Changes) (l : String)
    → length xs + length ys < fuel
    → All (λ x. includes before x ≡ true) xs
    → All (λ y. includes after y ≡ true) ys
    → Goal before after xs ys removed_run added_run result l
        (walk fuel before after xs ys rows j removed_run added_run result)
unfolding walk
walk_total zero before after xs ys rows j rr ar res l h kx ky = absurd (omega arith)
walk_total (suc fuel) before after [] [] rows j rr ar res l h kx ky = (
  flush before after rr ar res,
  refl,
  ground (arith, flush_added before after rr ar res l),
  ground (arith, flush_removed before after rr ar res l),
)
walk_total (suc fuel) before after [] (y ∷ ys) rows j rr ar res l h kx (ky, kys) =
    step_added before after [] ys rr ar y res l _
      (walk_total fuel before after [] ys rows (j + 1) rr (ar ++ y ∷ []) res l (omega arith) tt kys)
walk_total (suc fuel) before after (x ∷ xs) [] rows j rr ar res l h (kx, kxs) ky =
    step_removed before after xs [] rr ar x res l _ (
      walk_total fuel before after xs [] (rows_below rows) j (rr ++ x ∷ []) ar res l (omega arith)
        kxs tt)
walk_total (suc fuel) before after (x ∷ xs) (y ∷ ys) rows j rr ar res l h (kx, kxs) (ky, kys) =
    elim (Bool-cases (str_eq x y)) [
      | inl same ↦
          let e : x ≡ y = (str_eq_iff x y).0 same in
          rw same (
            step_both before after xs ys rr ar x y res l _ (rw (← e) kx) (rw e ky) (
              walk_total fuel before after xs ys (rows_below rows) (j + 1) [] []
                (flush before after rr ar res) l (omega arith) kxs kys))
      | inr apart ↦
          elim (Bool-cases (
            leb (entry (drop j (first_row (rows_below rows))))
              (entry (drop (j + 1) (first_row rows))))) [
                | inl right ↦
                    rw (apart, right)
                      (step_added before after (x ∷ xs) ys rr ar y res l _ (
                        walk_total fuel before after (x ∷ xs) ys rows (j + 1) rr (ar ++ y ∷ []) res
                          l (omega arith) (kx, kxs) kys))
                | inr down ↦
                    rw (apart, down)
                      (step_removed before after xs (y ∷ ys) rr ar x res l _ (
                        walk_total fuel before after xs (y ∷ ys) (rows_below rows) j (rr ++ x ∷ [])
                          ar res l (omega arith) kxs (ky, kys)))
              ]
    ]

-- The comparison ends. It reports a line as new, alone or in a pair, as often as it stands in the
-- later version if the earlier one has it not, and never if it has; and a line as gone as often as
-- it stands in the earlier version if the later one has it not, and never if it has.
pub diff_lines_reports :
    (before after : List String) (l : String)
    → (c : Changes) × (diff_lines before after ≡ some c)
      × (told_added l c ≡ unless_in before l (occurrences l after))
      × (told_removed l c ≡ unless_in after l (occurrences l before))
unfolding diff_lines
diff_lines_reports before after l =
    let (c, e, told, gone) =
      walk_total (enough before after) before after before after (common before after) 0 [] []
        no_changes l (omega arith) (includes-All before) (includes-All after) in
    (c, e, ground arith, ground arith)
