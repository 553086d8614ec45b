-- ===== src/Excel/Wildcard/Correct.antt =====
-- The answer of `wildcard`.
use isms_portal.Base.{
  ℕ, ◌≤◌, ◌≡◌, refl, ◌∙◌, ◌↔◌, inl, inr, Bool, true, false, false≢true, ◌||◌, none, some, List,
  arith, ltb,
}
use isms_portal.Excel.Wildcard.{run, tokens, units, wildcard}
use isms_portal.Excel.Wildcard.Language.{Matches}
use isms_portal.Excel.Wildcard.Sound.{run_sound, Refuted, run_complete}
use isms_portal.Excel.Wildcard.Ends.{run_answers}

within :
    (p t : List ℕ)
    → units p ≤ 256
    → units t ≤ 4096
    → (ltb 256 (units p) || ltb 4096 (units t)) ≡ false
within p t hp ht = ground arith

-- Every answer of the loop, whatever the fuel, is the right one.
pub run_decides :
    (fuel : ℕ) (p t : List ℕ) (answer : Bool)
    → run fuel (tokens p) t none ≡ some answer
    → (answer ≡ true) ↔ Matches (tokens p) t
unfolding Refuted
run_decides fuel p t true h =
    (λ e. elim (run_sound fuel (tokens p) t none h) [ inl m ↦ m | inr m ↦ elim m [ ] ], λ m. refl)
run_decides fuel p t false h =
    (λ e. absurd (false≢true e), λ m. absurd ((run_complete fuel (tokens p) t none tt h).0 m))

wildcard_runs :
    (lower : List ℕ → List ℕ) (fuel : ℕ) (text pattern_text : List ℕ)
    → units pattern_text ≤ 256
    → units text ≤ 4096
    → wildcard lower fuel text pattern_text
      ≡ run fuel (tokens (lower pattern_text)) (lower text) none
unfolding wildcard
wildcard_runs lower fuel text pattern_text hp ht = rw (within pattern_text text hp ht) refl

-- For texts and patterns within the limits on their lengths, the matcher ends, and its answer is
-- "true" exactly when the text, in lower case, is in the language of the pattern in lower case.
pub wildcard_decides :
    (lower : List ℕ → List ℕ) (text pattern_text : List ℕ)
    → units pattern_text ≤ 256
    → units text ≤ 4096
    → (fuel : ℕ) × (answer : Bool) × (wildcard lower fuel text pattern_text ≡ some answer)
      × ((answer ≡ true) ↔ Matches (tokens (lower pattern_text)) (lower text))
wildcard_decides lower text pattern_text short_pattern short_text =
    let (fuel, answer, e) = run_answers (tokens (lower pattern_text)) (lower text) in
    (
      fuel,
      answer,
      wildcard_runs lower fuel text pattern_text short_pattern short_text ∙ e,
      run_decides fuel (lower pattern_text) (lower text) answer e,
    )
