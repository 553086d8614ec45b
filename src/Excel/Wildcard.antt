-- ===== src/Excel/Wildcard.antt =====
-- `wildcard` of apps/web/app/excel-saved-filters.ts: the pattern language of the filters, with `*`
-- for any text, `?` for any character and `~` before a character that stands for itself. Texts
-- are the lists of the code points that `Array.from` gives, after `toLowerCase`.
pub mod Language
pub mod Sound
pub mod Ends
pub mod Correct
use isms_portal.Base.{
  ℕ, zero, suc, ◌+◌, Bool, true, false, not, ◌&&◌, ◌||◌, Option, none, some, List, [], ◌∷◌, ltb,
  ◌==◌, if◌then◌else◌, any,
}

pub data Token : Type 0 where
  literal : ℕ → Token
  any_one : Token
  star : Token

abbrev plain : ℕ → Token
plain c = if c == b'*' then star else if c == b'?' then any_one else literal c

-- The loop over the characters of the pattern.
unfoldable pub tokens : List ℕ → List Token
tokens [] = []
tokens (c ∷ []) = plain c ∷ []
tokens (c ∷ d ∷ cs) =
    let escaped = literal d ∷ tokens cs in
    let simple = plain c ∷ tokens (d ∷ cs) in if c == b'~' then escaped else simple

abbrev pub fits : Token → ℕ → Bool
fits (literal d) c = d == c
fits any_one c = true
fits star c = false

-- `while (tokens[j]?.type === "star") j++; return j === tokens.length`
abbrev pub only_stars : List Token → Bool
only_stars [] = true
only_stars (star ∷ ts) = only_stars ts
only_stars (t ∷ ts) = false

-- What `star`, `retry` and the two arrays determine: the tokens behind the last star met, and the
-- rest of the text from `retry` on.
abbrev pub Retry : Type 0
Retry = Option (List Token × List ℕ)

abbrev pub rest_of : List ℕ → List ℕ
rest_of [] = []
rest_of (c ∷ cs) = cs

-- The branch of the loop in which the token does not fit: `j = star + 1; i = ++retry`, or `false`.
abbrev pub go_back : (List Token → List ℕ → Retry → Option Bool) → Retry → Option Bool
go_back again none = some false
go_back again (some (ts, at)) = again ts (rest_of at) (some (ts, rest_of at))

-- The `while` loop. The indices `j` and `i` are the rests of the two arrays from there on; `none`
-- means that the fuel ran out.
unfoldable pub run : ℕ → List Token → List ℕ → Retry → Option Bool
run zero ts cs back = none
run (suc fuel) ts [] back = some (only_stars ts)
run (suc fuel) [] (c ∷ cs) back = go_back (run fuel) back
run (suc fuel) (star ∷ ts) (c ∷ cs) back = run fuel ts (c ∷ cs) (some (ts, c ∷ cs))
run (suc fuel) (any_one ∷ ts) (c ∷ cs) back = run fuel ts cs back
run (suc fuel) (literal d ∷ ts) (c ∷ cs) back = elim (d == c) [
  | true ↦ run fuel ts cs back
  | false ↦ go_back (run fuel) back
]

-- `length` of a JavaScript string: a code point beyond 0xffff takes two units.
abbrev pub units : List ℕ → ℕ
units [] = 0
units (c ∷ cs) = (if ltb c 65536 then 1 else 2) + units cs

abbrev pub same_text : List ℕ → List ℕ → Bool
same_text [] [] = true
same_text (a ∷ xs) (b ∷ ys) = a == b && same_text xs ys
same_text _ _ = false

-- `wildcard`, with `lower` for `toLowerCase` and fuel for the loop.
unfoldable pub wildcard : (List ℕ → List ℕ) → ℕ → List ℕ → List ℕ → Option Bool
unfolding run tokens
wildcard lower fuel text pattern_text =
    if ltb 256 (units pattern_text) || ltb 4096 (units text)
    then some (same_text (lower text) (lower pattern_text))
    else run fuel (tokens (lower pattern_text)) (lower text) none
