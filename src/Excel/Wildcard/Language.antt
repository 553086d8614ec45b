-- ===== src/Excel/Wildcard/Language.antt =====
-- What a pattern means, and how the part of a text that a run of tokens has used lies in it.
use isms_portal.Base.{ℕ, ◌≤◌, ◌≡◌, refl, ◌≢◌, ◌↔◌, true, false≢true, List, [], ◌∷◌, arith, length}
use isms_portal.Excel.Wildcard.{Token, literal, any_one, star, fits, only_stars}

-- The texts of a pattern.
pub data Matches : List Token → List ℕ → Type 0 where
  done : Matches [] []
  one :
      {t : Token} {c : ℕ} {ts : List Token} {cs : List ℕ}
      → fits t c ≡ true
      → Matches ts cs
      → Matches (t ∷ ts) (c ∷ cs)
  skip : {ts : List Token} {cs : List ℕ} → Matches ts cs → Matches (star ∷ ts) cs
  eat :
      {c : ℕ} {ts : List Token} {cs : List ℕ}
      → Matches (star ∷ ts) cs
      → Matches (star ∷ ts) (c ∷ cs)

pub data Suffix (w : List ℕ) : List ℕ → Type 0 where
  whole : Suffix w w
  behind : {c : ℕ} {cs : List ℕ} → Suffix w cs → Suffix w (c ∷ cs)

-- `ts` and `cs` are what is left of `us` and `at` after as many tokens that fit as characters.
pub data Aligned (us : List Token) (at : List ℕ) : List Token → List ℕ → Type 0 where
  here : Aligned us at us at
  further :
      {t : Token} {c : ℕ} {ts : List Token} {cs : List ℕ}
      → fits t c ≡ true
      → Aligned us at (t ∷ ts) (c ∷ cs)
      → Aligned us at ts cs

pub eat_all :
    (ts : List Token) (w cs : List ℕ) → Suffix w cs → Matches (star ∷ ts) w → Matches (star ∷ ts) cs
eat_all ts w cs whole m = m
eat_all ts w cs (behind {cs = ds} s) m = eat (eat_all ts w ds s m)

-- A star leaves some end of the text to the tokens behind it.
pub behind_star :
    (ts : List Token) (cs : List ℕ)
    → Matches (star ∷ ts) cs
    → (w : List ℕ) × Suffix w cs × Matches ts w
behind_star ts cs (one f m) = absurd (false≢true f)
behind_star ts cs (skip m) = (cs, whole, m)
behind_star ts cs (eat {cs = ds} m) = let (w, s, k) = behind_star ts ds m in (w, behind s, k)

shorter : (c : ℕ) (v cs : List ℕ) → Suffix (c ∷ v) cs → Suffix v cs
shorter c v cs whole = behind whole
shorter c v cs (behind {cs = ds} s) = behind (shorter c v ds s)

pub one_inv :
    (t : Token) (c : ℕ) (ts : List Token) (w cs : List ℕ)
    → fits t c ≡ true
    → Matches (t ∷ ts) w
    → Suffix w (c ∷ cs)
    → (v : List ℕ) × Suffix v cs × Matches ts v
one_inv t c ts w cs f (one g m) whole = (cs, whole, m)
one_inv t e ts w cs f (one {c} {cs = v} g m) (behind s) = (v, shorter c v cs s, m)
one_inv t c ts w cs f (skip m) s = absurd (false≢true f)
one_inv t c ts w cs f (eat m) s = absurd (false≢true f)

-- What the older tokens match behind the place of a retry, the tokens left match behind here.
pub Aligned-later :
    (us : List Token) (at : List ℕ) (ts : List Token) (cs w : List ℕ)
    → Aligned us at ts cs
    → Suffix w at
    → Matches us w
    → (v : List ℕ) × Suffix v cs × Matches ts v
Aligned-later us at ts cs w here s m = (w, s, m)
Aligned-later us at ts cs w (further {t} {c} f a) s m =
    let (v, s', m') = Aligned-later us at (t ∷ ts) (c ∷ cs) w a s m in one_inv t c ts v cs f m' s'

pub only_stars_iff : (ts : List Token) → (only_stars ts ≡ true) ↔ Matches ts []
only_stars_iff [] = (λ h. done, λ m. refl)
only_stars_iff (star ∷ ts) =
    let (to, from) = only_stars_iff ts in (λ h. skip (to h), λ m. from (skipped ts m))
  where
    skipped : (us : List Token) → Matches (star ∷ us) [] → Matches us []
    skipped us (skip m) = m
only_stars_iff (any_one ∷ ts) = (λ h. cc, λ m. elim (nothing any_one ts (ground arith) m) [ ])
  where
    nothing : (t : Token) (us : List Token) → t ≢ star → Matches (t ∷ us) [] → ⊥
    nothing t us h (skip m) = h refl
only_stars_iff (literal d ∷ ts) = (λ h. cc, λ m. elim (nothing (literal d) ts (ground arith) m) [ ])
  where
    nothing : (t : Token) (us : List Token) → t ≢ star → Matches (t ∷ us) [] → ⊥
    nothing t us h (skip m) = h refl

pub length-Aligned :
    (us : List Token) (at : List ℕ) (ts : List Token) (cs : List ℕ)
    → Aligned us at ts cs
    → length ts ≤ length us
length-Aligned us at ts cs here = omega arith
length-Aligned us at ts cs (further {t} {c} f a) =
    omega (arith, length-Aligned us at (t ∷ ts) (c ∷ cs) a)
