-- ===== src/Excel/Wildcard/Sound.antt =====
-- What an answer of the greedy loop, with its one place of retry, says of the language.
use isms_portal.Base.{
  ℕ, zero, suc, ◌≡◌, refl, sym, ◌∙◌, ◌⊎◌, inl, inr, true, false, false≢true, none, some, List, [],
  ◌∷◌, arith, ◌==◌, Bool-cases,
}
use isms_portal.Excel.Wildcard.{Token, literal, any_one, star, fits, rest_of, Retry, run}
use isms_portal.Excel.Wildcard.Language.{
  Matches, one, skip, eat, Suffix, whole, behind, Aligned, here, further, eat_all, behind_star,
  Aligned-later, only_stars_iff,
}

-- What the place of a retry still allows.
abbrev pub Alt : Retry → Type 0
Alt none = ⊥
Alt (some (us, [])) = Matches us []
Alt (some (us, c ∷ at)) = Matches (star ∷ us) at

abbrev pub AlignedBack : Retry → List Token → List ℕ → Type 0
AlignedBack none ts cs = Unit
AlignedBack (some (us, at)) ts cs = Aligned us at ts cs

Alt-retry :
    (us : List Token) (at : List ℕ)
    → Matches us (rest_of at) ⊎ Alt (some (us, rest_of at))
    → Alt (some (us, at))
Alt-retry us [] (inl m) = m
Alt-retry us [] (inr m) = m
Alt-retry us (c ∷ at) (inl m) = skip m
Alt-retry us (c ∷ []) (inr m) = skip m
Alt-retry us (c ∷ d ∷ at) (inr m) = eat m

pub run_sound :
    (fuel : ℕ) (ts : List Token) (cs : List ℕ) (back : Retry)
    → run fuel ts cs back ≡ some true
    → Matches ts cs ⊎ Alt back
unfolding run
run_sound zero ts cs back h = cc
run_sound (suc fuel) ts [] back h = inl ((only_stars_iff ts).0 (ground arith))
run_sound (suc fuel) [] (c ∷ cs) none h = cc
run_sound (suc fuel) [] (c ∷ cs) (some (us, at)) h =
    inr (Alt-retry us at (run_sound fuel us (rest_of at) (some (us, rest_of at)) h))
run_sound (suc fuel) (star ∷ ts) (c ∷ cs) back h =
    elim (run_sound fuel ts (c ∷ cs) (some (ts, c ∷ cs)) h) [
      | inl m ↦ inl (skip m)
      | inr m ↦ inl (eat m)
    ]
run_sound (suc fuel) (any_one ∷ ts) (c ∷ cs) back h = elim (run_sound fuel ts cs back h) [
  | inl m ↦ inl (one refl m)
  | inr m ↦ inr m
]
run_sound (suc fuel) (literal d ∷ ts) (c ∷ cs) none h = elim (Bool-cases (d == c)) [
  | inl same ↦ elim (run_sound fuel ts cs none (ground arith)) [
    | inl m ↦ inl (one same m)
    | inr m ↦ inr m
  ]
  | inr other ↦ absurd (ground arith)
]
run_sound (suc fuel) (literal d ∷ ts) (c ∷ cs) (some (us, at)) h = elim (Bool-cases (d == c)) [
  | inl same ↦ elim (run_sound fuel ts cs (some (us, at)) (ground arith)) [
    | inl m ↦ inl (one same m)
    | inr m ↦ inr m
  ]
  | inr other ↦
      inr (Alt-retry us at (run_sound fuel us (rest_of at) (some (us, rest_of at)) (ground arith)))
]

Alt-later :
    (us : List Token) (at : List ℕ) (ts : List Token) (cs : List ℕ)
    → Aligned us at ts cs
    → Alt (some (us, at))
    → (v : List ℕ) × Suffix v cs × Matches ts v
Alt-later us [] ts cs a m = Aligned-later us [] ts cs [] a whole m
Alt-later us (c ∷ at) ts cs a m =
    let (w, s, k) = behind_star us at m in Aligned-later us (c ∷ at) ts cs w a (behind s) k

-- The ways in which a retry could still match, after it has failed.
none_retry :
    (us : List Token) (at : List ℕ)
    → ¬ (Matches us (rest_of at))
    → ¬ (Alt (some (us, rest_of at)))
    → ¬ (Alt (some (us, at)))
none_retry us [] no_match no_alt m = no_match m
none_retry us (c ∷ at) no_match no_alt (one f m) = absurd (false≢true f)
none_retry us (c ∷ at) no_match no_alt (skip m) = no_match m
none_retry us (c ∷ d ∷ at) no_match no_alt (eat m) = no_alt m

no_fit :
    (d c : ℕ) (ts : List Token) (cs : List ℕ)
    → (d == c) ≡ false
    → ¬ (Matches (literal d ∷ ts) (c ∷ cs))
no_fit d c ts cs h (one f m) = absurd (false≢true (sym h ∙ f))

one_rest :
    (t : Token) (c : ℕ) (ts : List Token) (cs : List ℕ)
    → fits t c ≡ true
    → Matches (t ∷ ts) (c ∷ cs)
    → Matches ts cs
one_rest t c ts cs f (one g m) = m
one_rest t c ts cs f (skip m) = absurd (false≢true f)
one_rest t c ts cs f (eat m) = absurd (false≢true f)

unfoldable pub Refuted : List Token → List ℕ → Retry → Type 0
Refuted ts cs back = ¬ (Matches ts cs) × ¬ (Alt back)

further_back :
    (t : Token) (c : ℕ) (ts : List Token) (cs : List ℕ) (back : Retry)
    → fits t c ≡ true
    → AlignedBack back (t ∷ ts) (c ∷ cs)
    → AlignedBack back ts cs
further_back t c ts cs none f a = tt
further_back t c ts cs (some (us, at)) f a = further f a

star-Alt :
    (ts : List Token) (c : ℕ) (cs : List ℕ) (back : Retry)
    → AlignedBack back (star ∷ ts) (c ∷ cs)
    → Alt back
    → Matches (star ∷ ts) (c ∷ cs)
star-Alt ts c cs none a m = elim m [ ]
star-Alt ts c cs (some (us, at)) a m =
    let (v, s, k) = Alt-later us at (star ∷ ts) (c ∷ cs) a m in eat_all ts v (c ∷ cs) s k

star-Refuted :
    (ts : List Token) (c : ℕ) (cs : List ℕ)
    → Refuted ts (c ∷ cs) (some (ts, c ∷ cs))
    → ¬ (Matches (star ∷ ts) (c ∷ cs))
unfolding Refuted
star-Refuted ts c cs (no_match, no_alt) (one f m) = absurd (false≢true f)
star-Refuted ts c cs (no_match, no_alt) (skip m) = no_match m
star-Refuted ts c cs (no_match, no_alt) (eat m) = no_alt m

end-Refuted :
    (ts : List Token) (back : Retry)
    → AlignedBack back ts []
    → ¬ (Matches ts [])
    → Refuted ts [] back
unfolding Refuted
end-Refuted ts none a h = (h, λ m. m)
end-Refuted ts (some (us, at)) a h = (h, λ m. h (nothing_left (Alt-later us at ts [] a m)))
  where
    nothing_left : ((v : List ℕ) × Suffix v [] × Matches ts v) → Matches ts []
    nothing_left (v, whole, k) = k

pub run_complete :
    (fuel : ℕ) (ts : List Token) (cs : List ℕ) (back : Retry)
    → AlignedBack back ts cs
    → run fuel ts cs back ≡ some false
    → Refuted ts cs back
unfolding run Refuted
run_complete zero ts cs back a h = absurd (ground arith)
run_complete (suc fuel) ts [] back a h =
    end-Refuted ts back a (λ m. let e = (only_stars_iff ts).1 m in absurd (ground arith))
run_complete (suc fuel) [] (c ∷ cs) none a h = ((λ m. elim m [ ]), λ m. m)
run_complete (suc fuel) [] (c ∷ cs) (some (us, at)) a h =
    let (no_match, no_alt) = run_complete fuel us (rest_of at) (some (us, rest_of at)) here h in
    ((λ m. elim m [ ]), none_retry us at no_match no_alt)
run_complete (suc fuel) (star ∷ ts) (c ∷ cs) back a h =
    let r = run_complete fuel ts (c ∷ cs) (some (ts, c ∷ cs)) here h in
    (star-Refuted ts c cs r, λ m. star-Refuted ts c cs r (star-Alt ts c cs back a m))
run_complete (suc fuel) (any_one ∷ ts) (c ∷ cs) back a h =
    let (no_match, no_alt) =
      run_complete fuel ts cs back (further_back any_one c ts cs back refl a) h in
    ((λ m. no_match (one_rest any_one c ts cs refl m)), no_alt)
run_complete (suc fuel) (literal d ∷ ts) (c ∷ cs) none a h = elim (Bool-cases (d == c)) [
  | inl same ↦
      let (no_match, no_alt) = run_complete fuel ts cs none tt (ground arith) in
      ((λ m. no_match (one_rest (literal d) c ts cs same m)), no_alt)
  | inr other ↦ (no_fit d c ts cs other, λ m. m)
]
run_complete (suc fuel) (literal d ∷ ts) (c ∷ cs) (some (us, at)) a h = elim (Bool-cases (d == c)) [
  | inl same ↦
      let (no_match, no_alt) =
        run_complete fuel ts cs (some (us, at)) (further same a) (ground arith) in
      ((λ m. no_match (one_rest (literal d) c ts cs same m)), no_alt)
  | inr other ↦
      let (no_match, no_alt) =
        run_complete fuel us (rest_of at) (some (us, rest_of at)) here (ground arith) in
      (no_fit d c ts cs other, none_retry us at no_match no_alt)
]
