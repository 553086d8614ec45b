-- ===== src/Hierarchy/Ends.antt =====
-- The way up from a category, and the loop of `updateCategory` of apps/api/src/controllers.ts on it.
use isms_portal.Base.{
  ℕ, zero, suc, ◌+◌, ◌≤◌, String, ◌≡◌, refl, inl, inr, Bool, true, false, not, ◌&&◌, Option, none,
  some, List, [], ◌∷◌, arith, str_eq, Bool-cases, any, count_where,
}
use isms_portal.Hierarchy.{CategoryRow, hits}

-- Whether the way up from a category ends within so many steps.
abbrev pub ends_in : (String → Option String) → ℕ → Option String → Bool
ends_in next n none = true
ends_in next zero (some x) = false
ends_in next (suc n) (some x) = ends_in next n (next x)

pub ends_in_more :
    (next : String → Option String) (n : ℕ) (o : Option String)
    → ends_in next n o ≡ true
    → ends_in next (suc n) o ≡ true
ends_in_more next n none h = refl
ends_in_more next zero (some x) h = absurd (ground arith)
ends_in_more next (suc n) (some x) h = ends_in_more next n (next x) h

pub ends_in_later :
    (next : String → Option String) (n k : ℕ) (o : Option String)
    → n ≤ k
    → ends_in next n o ≡ true
    → ends_in next k o ≡ true
ends_in_later next n k none few h = refl
ends_in_later next zero k (some x) few h = absurd (ground arith)
ends_in_later next (suc n) zero (some x) few h = absurd (ground arith)
ends_in_later next (suc n) (suc k) (some x) few h = ends_in_later next n k (next x) (ground arith) h

-- Where the way ends, the loop does.
pub hits_ends :
    (next : String → Option String) (id : String) (n : ℕ) (o : Option String)
    → ends_in next n o ≡ true
    → (met : Bool) × (hits next id n o ≡ some met)
hits_ends next id n none h = (false, refl)
hits_ends next id zero (some x) h = absurd (ground arith)
hits_ends next id (suc n) (some x) h = elim (Bool-cases (str_eq x id)) [
  | inl t ↦ (true, rw t refl)
  | inr t ↦ let (met, e) = hits_ends next id n (next x) h in (met, rw t e)
]

-- Where the loop does not meet the category, each step of the way is another one.
pub hits_step :
    (next : String → Option String) (id x : String) (n : ℕ)
    → hits next id n (some x) ≡ some false
    → (str_eq x id ≡ false) × ((m : ℕ) × (n ≡ suc m) × (hits next id m (next x) ≡ some false))
hits_step next id x zero h = absurd (ground arith)
hits_step next id x (suc n) h = elim (Bool-cases (str_eq x id)) [
  | inl t ↦ absurd (ground arith)
  | inr t ↦ (t, (n, refl, ground (arith, t, h)))
]

module _ (p q : CategoryRow → Bool) (wider : (c : CategoryRow) → p c ≡ true → q c ≡ true) where
  count_mono : (xs : List CategoryRow) → count_where p xs ≤ count_where q xs
  count_mono [] = ground arith
  count_mono (x ∷ xs) = elim (Bool-cases (p x)) [
    | inl t ↦ let u = wider x t in ground (arith, count_mono xs)
    | inr t ↦ ground (arith, t, count_mono xs)
  ]

  pub count_strict :
      (xs : List CategoryRow)
      → any (λ c. q c && not (p c)) xs ≡ true
      → count_where p xs + 1 ≤ count_where q xs
  count_strict [] h = absurd (ground arith)
  count_strict (x ∷ xs) h = elim (Bool-cases (p x)) [
    | inl t ↦ let u = wider x t in let rest = count_strict xs (ground arith) in ground arith
    | inr t ↦ elim (Bool-cases (q x)) [
      | inl u ↦ let rest = count_mono xs in ground arith
      | inr u ↦ let rest = count_strict xs (ground arith) in ground arith
    ]
  ]
