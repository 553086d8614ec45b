-- ===== src/Examples/Excel.antt =====
-- The pattern `a*b?` on a text that needs a retry.
use isms_portal.Base.{ℕ, ◌≡◌, refl, ◌↔◌, Bool, true, some, List, [], ◌∷◌, arith}
use isms_portal.Excel.Wildcard.{tokens, wildcard}
use isms_portal.Excel.Wildcard.Language.{Matches}
use isms_portal.Excel.Wildcard.Correct.{wildcard_decides}

abbrev same_case : List ℕ → List ℕ
same_case cs = cs

abbrev filter_text : List ℕ
filter_text = b'a' ∷ b'*' ∷ b'b' ∷ b'?' ∷ []

abbrev cell_text : List ℕ
cell_text = b'a' ∷ b'b' ∷ b'c' ∷ b'b' ∷ b'd' ∷ []

cell_found : wildcard same_case 20 cell_text filter_text ≡ some true
unfolding wildcard
cell_found = refl

wildcard_decides_example :
    (fuel : ℕ) × (answer : Bool) × (wildcard same_case fuel cell_text filter_text ≡ some answer)
    × ((answer ≡ true) ↔ Matches (tokens filter_text) cell_text)
wildcard_decides_example =
    wildcard_decides same_case cell_text filter_text (omega arith) (omega arith)
