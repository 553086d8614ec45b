-- ===== src/Excel/Wildcard/Ends.antt =====
-- The fuel of the loop of the matcher.
use isms_portal.Base.{
  ℕ, zero, suc, ◌≤◌, ◌≡◌, refl, inl, inr, Bool, false, none, some, List, [], ◌∷◌, arith, ◌==◌,
  Bool-cases, length,
}
use isms_portal.Excel.Wildcard.{Token, literal, any_one, star, only_stars, Retry, run}

abbrev Fits : List Token → ℕ → Retry → Type 0
Fits ts b none = length ts ≤ b
Fits ts b (some (us, at)) = (length ts ≤ length us) × (length us ≤ b)

abbrev Left : Retry → ℕ → Type 0
Left none r = Unit
Left (some (us, at)) r = length at ≤ r

star_room : (b : ℕ) (ts : List Token) (back : Retry) → Fits (star ∷ ts) (suc b) back → length ts ≤ b
star_room b ts none f = omega arith
star_room b ts (some (us, at)) f = omega arith

one_room :
    (b : ℕ) (t : Token) (ts : List Token) (back : Retry) → Fits (t ∷ ts) b back → Fits ts b back
one_room b t ts none f = omega arith
one_room b t ts (some (us, at)) f = (omega arith, f.1)

-- The loop ends: the tokens behind the place of retry become fewer at each star, the text behind it
-- shorter at each retry, and the tokens left fewer else.
run_total :
    (b r : ℕ) (ts : List Token) (cs : List ℕ) (back : Retry)
    → Fits ts b back
    → Left back r
    → (fuel : ℕ) × (answer : Bool) × (run fuel ts cs back ≡ some answer)
unfolding run
run_total b r ts [] back f l = (1, only_stars ts, refl)
run_total b r [] (c ∷ cs) none f l = (1, false, refl)
run_total b r [] (c ∷ cs) (some (us, [])) f l = (2, only_stars us, refl)
run_total b zero [] (c ∷ cs) (some (us, d ∷ at)) f l = elim l [ ]
run_total b (suc r) [] (c ∷ cs) (some (us, d ∷ at)) f l =
    let (fuel, answer, e) = run_total b r us at (some (us, at)) (omega arith, f.1) (omega arith) in
    (suc fuel, answer, e)
run_total zero r (star ∷ ts) (c ∷ cs) none f l = absurd (omega arith)
run_total zero r (star ∷ ts) (c ∷ cs) (some (us, at)) f l = absurd (omega arith)
run_total (suc b) r (star ∷ ts) (c ∷ cs) back f l =
    let (fuel, answer, e) =
      run_total b (length (c ∷ cs)) ts (c ∷ cs) (some (ts, c ∷ cs))
        (omega arith, star_room b ts back f) (omega arith) in
    (suc fuel, answer, e)
run_total b r (any_one ∷ ts) (c ∷ cs) back f l =
    let (fuel, answer, e) = run_total b r ts cs back (one_room b any_one ts back f) l in
    (suc fuel, answer, e)
run_total b r (literal d ∷ ts) (c ∷ cs) none f l = elim (Bool-cases (d == c)) [
  | inl same ↦
      let (fuel, answer, e) = run_total b r ts cs none (omega arith) tt in
      (suc fuel, answer, ground arith)
  | inr other ↦ (1, false, ground arith)
]
run_total b r (literal d ∷ ts) (c ∷ cs) (some (us, [])) f l = elim (Bool-cases (d == c)) [
  | inl same ↦
      let (fuel, answer, e) = run_total b r ts cs (some (us, [])) (omega arith, f.1) l in
      (suc fuel, answer, ground arith)
  | inr other ↦ (2, only_stars us, ground arith)
]
run_total b zero (literal d ∷ ts) (c ∷ cs) (some (us, x ∷ at)) f l = elim l [ ]
run_total b (suc r) (literal d ∷ ts) (c ∷ cs) (some (us, x ∷ at)) f l = elim (Bool-cases (d == c)) [
  | inl same ↦
      let (fuel, answer, e) = run_total b (suc r) ts cs (some (us, x ∷ at)) (omega arith, f.1) l in
      (suc fuel, answer, ground arith)
  | inr other ↦
      let (fuel, answer, e) =
        run_total b r us at (some (us, at)) (omega arith, f.1) (omega arith) in
      (suc fuel, answer, ground arith)
]

-- From the start, with nothing to go back to, the loop gives its answer with some fuel.
pub run_answers :
    (ts : List Token) (cs : List ℕ)
    → (fuel : ℕ) × (answer : Bool) × (run fuel ts cs none ≡ some answer)
run_answers ts cs = run_total (length ts) 0 ts cs none (omega arith) tt
