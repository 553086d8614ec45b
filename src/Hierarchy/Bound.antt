-- ===== src/Hierarchy/Bound.antt =====
-- The way up from a category has at most as many steps as there are categories, so that the loop of
-- `updateCategory` of apps/api/src/controllers.ts ends on its fuel.
use isms_portal.Base.{
  ℕ, zero, suc, ◌+◌, ◌≤◌, String, ◌≡◌, refl, inl, inr, Bool, true, false, not, ◌&&◌, Option, some,
  List, [], ◌∷◌, arith, str_eq, Bool-cases, Option-cases, str_eq_iff, length, any, count_where,
}
use isms_portal.Hierarchy.{CategoryRow}
use isms_portal.Hierarchy.Ends.{ends_in, ends_in_more, ends_in_later, count_strict}

count_le_length : (p : CategoryRow → Bool) (xs : List CategoryRow) → count_where p xs ≤ length xs
count_le_length p [] = ground arith
count_le_length p (x ∷ xs) = ground (arith, count_le_length p xs)

abbrev pub named : String → CategoryRow → Bool
named id c = str_eq c.id id

-- A row with the name passes a test that the name passes.
any-named :
    (q : String → Bool) (id : String) (xs : List CategoryRow)
    → any (named id) xs ≡ true
    → q id ≡ true
    → any (λ c. q (CategoryRow.id c)) xs ≡ true
any-named q id [] there h = absurd (ground arith)
any-named q id (x ∷ xs) there h = elim (Bool-cases (named id x)) [
  | inl t ↦ let same : x.id ≡ id = (str_eq_iff x.id id).0 t in rw (same, h) refl
  | inr t ↦ let rest = any-named q id xs (ground arith) h in ground arith
]

module _ (next : String → Option String) (rows : List CategoryRow)
    (closed : (x y : String) → next x ≡ some y → any (named y) rows ≡ true) where
  abbrev short : ℕ → CategoryRow → Bool
  short n c = ends_in next n (some c.id)

  wider : (n : ℕ) (c : CategoryRow) → short n c ≡ true → short (suc n) c ≡ true
  wider n c h = ends_in_more next n (some c.id) h

  grows :
      (n : ℕ) (y : String)
      → any (named y) rows ≡ true
      → ends_in next (suc n) (some y) ≡ true
      → ends_in next n (some y) ≡ false
      → count_where (short n) rows + 1 ≤ count_where (short (suc n)) rows
  grows n y there long not_yet = count_strict (short n) (short (suc n)) (wider n) rows (
      any-named (λ x. ends_in next (suc n) (some x) && not (ends_in next n (some x))) y rows there
        (ground arith))

  -- A way of exactly n + 1 steps goes through n categories with shorter ways.
  many_shorter :
      (n : ℕ) (x : String)
      → ends_in next (suc n) (some x) ≡ true
      → ends_in next n (some x) ≡ false
      → n ≤ count_where (short n) rows
  many_shorter zero x long not_yet = ground arith
  many_shorter (suc n) x long not_yet = elim (Option-cases (next x)) [
    | inl top ↦ let ended : ends_in next n (next x) ≡ true = rw top refl in absurd (ground arith)
    | inr (y, up) ↦
        let longer : ends_in next (suc n) (some y) ≡ true = rw up at long in
        let not_there : ends_in next n (some y) ≡ false = rw up at not_yet in
        let before = many_shorter n y longer not_there in
        let more = grows n y (closed x y up) longer not_there in ground arith
  ]

  -- The way up from a category of the list, if it ends, ends within the length of the list.
  pub ends_in-length :
      (n : ℕ) (x : String)
      → any (named x) rows ≡ true
      → ends_in next n (some x) ≡ true
      → ends_in next (length rows) (some x) ≡ true
  ends_in-length zero x there h = absurd (ground arith)
  ends_in-length (suc n) x there h = elim (Bool-cases (ends_in next n (some x))) [
    | inl t ↦ ends_in-length n x there t
    | inr t ↦
        let before = many_shorter n x h t in
        let more = grows n x there h t in
        let few = count_le_length (short (suc n)) rows in
        ends_in_later next (suc n) (length rows) (some x) (ground arith) h
  ]
