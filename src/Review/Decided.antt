-- ===== src/Review/Decided.antt =====
-- What a decision leaves in the tables.
use isms_portal.Base.{
  ℕ, String, ◌≡◌, refl, sym, ap, ◌∙◌, inl, inr, Bool, true, false, some, List, arith, ◌==◌, str_eq,
  Bool-cases, Option-cases, is_none, update_where, count_where, All, All-update_where_if,
  All-trivial,
}
use mathlib.Core.Path.{subst}
use isms_portal.Review.{
  ReviewStatus, pending, in_review, approved, rejected, cancelled, DocumentReview, Document,
  ReviewStore, DecisionBody, Recorded, recorded, already_closed, failed, reviewed, is_open,
  is_rejected, is_archived, is_open_review, is_superseded, is_archivable, find_review, close_with,
  cancel_with, archive_document, reject_document, renew_version, after_close, commit,
  record_review_decision, conclude, is_allowed, decide_review,
}

rejected_not_open : (st : ReviewStatus) → is_rejected st ≡ true → is_open st ≡ false
rejected_not_open rejected h = refl
rejected_not_open pending h = cc
rejected_not_open in_review h = cc
rejected_not_open approved h = cc
rejected_not_open cancelled h = cc

-- A review of the document is closed.
abbrev pub IsClosedFor : String → DocumentReview → Type 0
IsClosedFor document_id r = str_eq r.document_id document_id ≡ true → is_open r.status ≡ false

-- The document, unless it is deleted, is archived.
abbrev pub IsArchivedFor : String → Document → Type 0
IsArchivedFor document_id d =
    str_eq d.id document_id ≡ true → is_none d.deleted_at ≡ true → is_archived d.status ≡ true

abbrev pub AllClosed : String → ReviewStore → Type 0
AllClosed document_id s =
    All (IsClosedFor document_id) s.reviews × All (IsArchivedFor document_id) s.documents

module _ (trim : String → String) (next_year : ℕ → ℕ) where
  own_closed :
      (now : ℕ) (actor id : String) (body : DecisionBody) (rs : List DocumentReview)
      → is_rejected body.status ≡ true
      → All
          (λ r. str_eq r.id id ≡ true → is_open r.status ≡ false)
          (update_where (is_open_review id) (close_with trim next_year now actor body) rs)
  own_closed now actor id body rs h =
      All-update_where_if (λ r. str_eq r.id id ≡ true → is_open r.status ≡ false) (λ r. Unit {0})
        (is_open_review id) (close_with trim next_year now actor body) rs
        (λ r u e same. rejected_not_open body.status h) (λ r u e same. ground arith)
        (All-trivial rs)

  rejection-AllClosed :
      (now : ℕ) (actor id document_id : String) (s : ReviewStore)
      → All (λ r. str_eq r.id id ≡ true → is_open r.status ≡ false) s.reviews
      → AllClosed document_id (reject_document trim next_year now actor document_id id s)
  rejection-AllClosed now actor id document_id s own = (
    All-update_where_if (IsClosedFor document_id)
        (λ r. str_eq r.id id ≡ true → is_open r.status ≡ false) (is_superseded document_id id)
        (cancel_with trim next_year now actor) s.reviews (λ r k e same. refl)
        (λ r k e same. elim (Bool-cases (str_eq r.id id)) [
          | inl this ↦ k this
          | inr other ↦ ground arith
        ])
        own,
    All-update_where_if (IsArchivedFor document_id) (λ d. Unit {0}) (is_archivable document_id)
        (archive_document trim next_year) s.documents (λ d u e same kept. refl)
        (λ d u e same kept. ground arith) (All-trivial s.documents),
  )

  -- The approval's branch touches neither table.
  renew_version-tables :
      (now : ℕ) (body : DecisionBody) (r : DocumentReview) (b : Bool) (s : ReviewStore)
      → let t = (renew_version trim next_year now body r b s).0 in
        (t.reviews ≡ s.reviews) × (t.documents ≡ s.documents)
  renew_version-tables now body r b s = (ground arith, ground arith)

  after_close-AllClosed :
      (now : ℕ) (actor id document_id : String) (body : DecisionBody) (s : ReviewStore)
      (r : DocumentReview) (b : Bool)
      → is_rejected body.status ≡ true
      → All (λ r. str_eq r.id id ≡ true → is_open r.status ≡ false) s.reviews
      → (after_close trim next_year now actor id document_id body s).1 ≡ recorded r b
      → AllClosed document_id (after_close trim next_year now actor id document_id body s).0
  after_close-AllClosed now actor id document_id body s r b h own e =
      elim (Option-cases (find_review id s)) [
        | inl missing ↦ absurd (ground arith)
        | inr (r₁, found) ↦
            let before = reject_document trim next_year now actor document_id id s in
            let was = count_where (is_archivable document_id) s.documents == 1 in
            let (same_reviews, same_documents) = renew_version-tables now body r₁ was before in
            let (closed, gone) = rejection-AllClosed now actor id document_id s own in
            let runs : after_close trim next_year now actor id document_id body s
                ≡ renew_version trim next_year now body r₁ was before =
              ground arith in
            rw runs (
              subst (All (IsClosedFor document_id)) (sym same_reviews) closed,
              subst (All (IsArchivedFor document_id)) (sym same_documents) gone,
            )
      ]

  commit-recorded :
      (s : ReviewStore) (x : ReviewStore × Recorded) (r : DocumentReview) (b : Bool)
      → (commit trim next_year s x).1 ≡ recorded r b
      → commit trim next_year s x ≡ x
  commit-recorded s (t, recorded r' b') r b e = refl
  commit-recorded s (t, already_closed) r b e = cc
  commit-recorded s (t, failed) r b e = cc

  record_rejection-AllClosed :
      (now : ℕ) (id document_id actor : String) (body : DecisionBody) (s : ReviewStore)
      (r : DocumentReview) (b : Bool)
      → is_rejected body.status ≡ true
      → (record_review_decision trim next_year now id document_id body actor s).1 ≡ recorded r b
      → AllClosed document_id
          (record_review_decision trim next_year now id document_id body actor s).0
  unfolding record_review_decision
  record_rejection-AllClosed now id document_id actor body s r b h e =
      elim (Bool-cases (count_where (is_open_review id) s.reviews == 1)) [
        | inr other ↦ absurd (ground arith)
        | inl single ↦
            let written : ReviewStore = record s {
              reviews =
                  update_where (is_open_review id) (close_with trim next_year now actor body)
                    s.reviews;
            } in
            let x = after_close trim next_year now actor id document_id body written in
            let done : (commit trim next_year s x).1 ≡ recorded r b = rw single at e in
            let same = commit-recorded s x r b done in
            rw (single, same)
              (after_close-AllClosed now actor id document_id body written r b h
                (own_closed now actor id body s.reviews h) (ap (λ y. y.1) (sym same) ∙ done))
      ]

  module _ (lower : String → String) where
    conclude-recorded :
        (user id : String) (body : DecisionBody) (r r' : DocumentReview)
        (x : ReviewStore × Recorded)
        → (conclude trim next_year lower user id body r x).1 ≡ reviewed r'
        → (b : Bool) × (x.1 ≡ recorded r' b)
          × ((conclude trim next_year lower user id body r x).0.reviews ≡ x.0.reviews)
          × ((conclude trim next_year lower user id body r x).0.documents ≡ x.0.documents)
    conclude-recorded user id body r r' (t, recorded r₁ b) e = (b, cc, refl, refl)
    conclude-recorded user id body r r' (t, already_closed) e = cc
    conclude-recorded user id body r r' (t, failed) e = cc

    -- A decision that goes through was allowed, and the user is not the owner of the review; the
    -- handler goes on to write it.
    pub decided_runs :
        (now : ℕ) (user : String) (groups : List String) (id : String) (body : DecisionBody)
        (s : ReviewStore) (r r' : DocumentReview)
        → find_review id s ≡ some r
        → (decide_review trim next_year lower now user groups id body s).1 ≡ reviewed r'
        → (is_allowed trim next_year lower user groups body.status r ≡ true)
          × (str_eq (lower user) (lower r.owner) ≡ false)
          × (decide_review trim next_year lower now user groups id body s
              ≡ conclude trim next_year lower user id body r
                  (record_review_decision trim next_year now id r.document_id body user s))
    unfolding decide_review
    decided_runs now user groups id body s r r' found done =
        (ground arith, ground arith, ground arith)

    -- After a rejection that goes through, no review of the document is open, and the document is
    -- archived unless it is deleted.
    pub rejection_closes :
        (now : ℕ) (user : String) (groups : List String) (id : String) (body : DecisionBody)
        (s : ReviewStore) (r r' : DocumentReview)
        → is_rejected body.status ≡ true
        → find_review id s ≡ some r
        → (decide_review trim next_year lower now user groups id body s).1 ≡ reviewed r'
        → AllClosed r.document_id (decide_review trim next_year lower now user groups id body s).0
    rejection_closes now user groups id body s r r' rejects found done =
        let x = record_review_decision trim next_year now id r.document_id body user s in
        let (allowed, other, runs) = decided_runs now user groups id body s r r' found done in
        let (b, was, same_reviews, same_documents) =
          conclude-recorded user id body r r' x (ap (λ y. y.1) (sym runs) ∙ done) in
        let (closed, gone) =
          record_rejection-AllClosed now id r.document_id user body s r' b rejects was in
        rw runs (
          subst (All (IsClosedFor r.document_id)) (sym same_reviews) closed,
          subst (All (IsArchivedFor r.document_id)) (sym same_documents) gone,
        )
