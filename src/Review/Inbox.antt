-- ===== src/Review/Inbox.antt =====
-- The flag "canDecide" of the list of reviews and the handler of the decision.
use isms_portal.Base.{
  ℕ, String, ◌≡◌, refl, sym, ap, ◌∙◌, ◌↔◌, ◌⊎◌, inl, inr, Bool, true, false, false≢true, ◌&&◌, some,
  List, [], ◌∷◌, map, Memᴰ, arith, leb, str_eq, Bool-cases, str_eq_iff, str_eq_self, filter, take,
  order_by, Distinct, mem-filter, mem-order_by, unique_of_mem, find_of_mem, mem-take,
}
use isms_portal.Review.{
  DocumentReview, ReviewStore, DecisionBody, Recorded, recorded, already_closed, failed,
  ReviewOutcome, forbidden, own_review, closes, find_review, conclude, is_allowed,
  record_review_decision, decide_review, can_decide, is_visible, list_reviews,
}

str_eq_sym : (a b : String) → str_eq a b ≡ str_eq b a
str_eq_sym a b = elim (Bool-cases (str_eq a b)) [
  | inl same ↦ rw ((str_eq_iff a b).0 same) refl
  | inr other ↦ elim (Bool-cases (str_eq b a)) [
    | inl back ↦
        absurd (false≢true (sym other ∙ (str_eq_iff a b).1 (sym ((str_eq_iff b a).0 back))))
    | inr apart ↦ other ∙ sym apart
  ]
]

mem-flagged :
    {A : Type 0} (q : A → Bool) (xs : List A) (a : A) (flag : Bool)
    → Memᴰ {A = A × Bool} (a, flag) (map (λ x. (x, q x)) xs)
    → Memᴰ a xs × (flag ≡ q a)
mem-flagged q [] a flag m = elim m [ ]
mem-flagged q (x ∷ xs) a flag (Memᴰ.head e) =
    let same : a ≡ x = ap (λ (y, b). y) e in (Memᴰ.head same, rw same (ap (λ (y, b). b) e))
mem-flagged q (x ∷ xs) a flag (Memᴰ.tail m) =
    let (n, e) = mem-flagged q xs a flag m in (Memᴰ.tail n, e)

-- The endings by which the handler refuses a user.
abbrev IsRefusal : ReviewOutcome → Type 0
IsRefusal o = (o ≡ forbidden) ⊎ (o ≡ own_review)

module _ (trim : String → String) (next_year : ℕ → ℕ) (lower : String → String) where
  conclude_goes_on :
      (user id : String) (body : DecisionBody) (r : DocumentReview) (x : ReviewStore × Recorded)
      → ¬ (IsRefusal (conclude trim next_year lower user id body r x).1)
  conclude_goes_on user id body r (s, recorded r' a) (inl e) = cc
  conclude_goes_on user id body r (s, recorded r' a) (inr e) = cc
  conclude_goes_on user id body r (s, already_closed) (inl e) = cc
  conclude_goes_on user id body r (s, already_closed) (inr e) = cc
  conclude_goes_on user id body r (s, failed) (inl e) = cc
  conclude_goes_on user id body r (s, failed) (inr e) = cc

  can_decide_iff :
      (now : ℕ) (user : String) (groups : List String) (id : String) (body : DecisionBody)
      (s : ReviewStore) (r : DocumentReview)
      → closes body.status ≡ true
      → find_review id s ≡ some r
      → (can_decide trim next_year lower user groups r ≡ false)
        ↔ IsRefusal (decide_review trim next_year lower now user groups id body s).1
  unfolding can_decide decide_review
  can_decide_iff now user groups id body s r final found =
      let turned = str_eq_sym (lower r.owner) (lower user) in
      let written = record_review_decision trim next_year now id r.document_id body user s in
      let goes_on = conclude_goes_on user id body r written in
      elim (Bool-cases (is_allowed trim next_year lower user groups body.status r)) [
        | inl may ↦ elim (Bool-cases (str_eq (lower user) (lower r.owner))) [
          | inl own ↦ (λ h. inr (ground arith), λ h. ground arith)
          | inr other ↦ (λ h. absurd (ground arith), λ h. absurd (goes_on (ground arith)))
        ]
        | inr may_not ↦ (λ h. inl (ground arith), λ h. ground arith)
      ]

  listed_row :
      (insensitive : String → String → Bool) (user : String) (groups : List String)
      (in_period : DocumentReview → Bool) (s : ReviewStore) (r : DocumentReview) (flag : Bool)
      → Memᴰ {A = DocumentReview × Bool}
          (r, flag)
          (list_reviews trim next_year lower insensitive user groups in_period s)
      → Memᴰ r s.reviews × (flag ≡ can_decide trim next_year lower user groups r)
  unfolding list_reviews
  listed_row insensitive user groups in_period s r flag m =
      let shown =
        filter (λ x. in_period x && is_visible trim next_year lower insensitive user groups x)
          s.reviews in
      let newest : DocumentReview → DocumentReview → Bool =
        λ a b. leb (DocumentReview.created_at b) a.created_at in
      let (n, e) =
        mem-flagged (can_decide trim next_year lower user groups) (take 200 (order_by newest shown))
          r flag m in
      let (k, _) = mem-filter _ s.reviews r (mem-order_by newest shown r (mem-take 200 _ r n)) in
      (k, e)

  -- For a row of the list of reviews that the user is shown, whatever its period, and a decision
  -- that closes the review, the row says that the user may not decide exactly when the handler
  -- refuses the user. Each identifier may occur once.
  pub can_decide_agrees :
      (insensitive : String → String → Bool) (in_period : DocumentReview → Bool) (now : ℕ)
      (user : String) (groups : List String) (body : DecisionBody) (s : ReviewStore)
      (r : DocumentReview) (flag : Bool)
      → Distinct (map DocumentReview.id s.reviews)
      → closes body.status ≡ true
      → Memᴰ {A = DocumentReview × Bool}
          (r, flag)
          (list_reviews trim next_year lower insensitive user groups in_period s)
      → (flag ≡ false)
        ↔ IsRefusal (decide_review trim next_year lower now user groups r.id body s).1
  can_decide_agrees insensitive in_period now user groups body s r flag distinct final m =
      let (n, e) = listed_row insensitive user groups in_period s r flag m in
      let found =
        find_of_mem (λ x. str_eq (DocumentReview.id x) r.id) s.reviews r n (str_eq_self r.id)
          (unique_of_mem DocumentReview.id s.reviews r distinct n) in
      rw e (can_decide_iff now user groups r.id body s r final found)
