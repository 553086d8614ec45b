-- ===== src/Audit/Chain/Pages.antt =====
-- The pages of the chain in `verifyAuditChain`, and the one pass over it.
use isms_portal.Base.{
  ℕ, zero, suc, ◌≤◌, ◌<◌, String, ◌≡◌, refl, sym, ap, ◌∙◌, inl, inr, Bool, some, List, [], ◌∷◌,
  arith, ltb, Bool-cases, length, take, drop, length-drop, List-cases,
}
use mathlib.Core.Path.{subst}
use isms_portal.Audit.Chain.{
  ChainedEvent, Progress, verify_event, verify_page, verify_pages, cursor_after, after,
}

-- The indices rise, all above a bound.
abbrev pub IsAscending : ℕ → List ChainedEvent → Type 0
IsAscending low [] = Unit
IsAscending low (e ∷ es) = (low < e.chain_index) × IsAscending e.chain_index es

IsAscending-weaken :
    (low low' : ℕ) (es : List ChainedEvent) → low' ≤ low → IsAscending low es → IsAscending low' es
IsAscending-weaken low low' [] h k = tt
IsAscending-weaken low low' (e ∷ es) h (k, ks) = (omega arith, ks)

pub after_all :
    (low c : ℕ) (es : List ChainedEvent) → c ≤ low → IsAscending low es → after c es ≡ es
after_all low c [] h k = refl
after_all low c (e ∷ es) h (k, ks) = ground (arith, after_all e.chain_index c es (omega arith) ks)

after-IsAscending :
    (low c : ℕ) (es : List ChainedEvent) → IsAscending low es → IsAscending c (after c es)
after-IsAscending low c [] k = tt
after-IsAscending low c (e ∷ es) (k, ks) = elim (Bool-cases (ltb c e.chain_index)) [
  | inl past ↦ rw (past, after_all e.chain_index c es (ground arith) ks) (ground arith, ks)
  | inr here ↦ rw here (after-IsAscending e.chain_index c es ks)
]

cursor-le :
    (low : ℕ) (n : ℕ) (es : List ChainedEvent)
    → IsAscending low es
    → low ≤ cursor_after low (take n es)
cursor-le low zero es k = omega arith
cursor-le low (suc n) [] k = omega arith
cursor-le low (suc n) (e ∷ es) (k, ks) = omega (arith, cursor-le e.chain_index n es ks)

after-after : (c d : ℕ) (es : List ChainedEvent) → c ≤ d → after d (after c es) ≡ after d es
after-after c d [] h = refl
after-after c d (e ∷ es) h = ground (arith, after-after c d es h)

-- What is left after a page is what stands behind it.
after-drop :
    (low n : ℕ) (es : List ChainedEvent)
    → IsAscending low es
    → after (cursor_after low (take n es)) es ≡ drop n es
after-drop low zero es k = after_all low low es (omega arith) k
after-drop low (suc n) [] k = refl
after-drop low (suc n) (e ∷ es) (k, ks) =
    ground (arith, after-drop e.chain_index n es ks, cursor-le e.chain_index n es ks)

module _ (digest : String → String) (iso : ℕ → String) (quote : String → String)
    (key_le id_le : String → String → Bool) where
  abbrev page : Progress → List ChainedEvent → Progress
  page = verify_page digest iso quote key_le id_le

  page-append :
      (p : Progress) (n : ℕ) (es : List ChainedEvent)
      → page (page p (take n es)) (drop n es) ≡ page p es
  unfolding verify_page
  page-append p zero es = refl
  page-append p (suc n) [] = refl
  page-append p (suc n) (e ∷ es) = page-append (verify_event digest iso quote key_le id_le p e) n es

  -- With more fuel than events left, reading by pages of any positive size gives what one pass
  -- over the events behind the cursor gives.
  pub verify_pages_lem :
      (fuel n low c : ℕ) (p : Progress) (chained : List ChainedEvent)
      → IsAscending low chained
      → length (after c chained) < fuel
      → verify_pages digest iso quote key_le id_le fuel (suc n) c p chained
        ≡ some (page p (after c chained))
  unfolding verify_pages
  verify_pages_lem zero n low c p chained k h = elim h [ ]
  verify_pages_lem (suc fuel) n low c p chained k h = elim (List-cases (after c chained)) [
    | inl done ↦ rw done
    | inr (x, xs, more) ↦
        let read = take (suc n) (x ∷ xs) in
        let c' = cursor_after c read in
        let asc = subst (IsAscending c) more (after-IsAscending low c chained k) in
        let left : after c' chained ≡ drop (suc n) (x ∷ xs) =
          sym (after-after c c' chained (cursor-le c (suc n) (x ∷ xs) asc))
          ∙ ap (after c') more
          ∙ after-drop c (suc n) (x ∷ xs) asc in
        let rest =
          verify_pages_lem fuel n low c' (page p read) chained k
            (omega (arith, ap length left, ap length more, length-drop n xs)) in
        let read_on =
          rest ∙ ap some (ap (page (page p read)) left ∙ page-append p (suc n) (x ∷ xs)) in
        rw more (ground arith)
  ]
