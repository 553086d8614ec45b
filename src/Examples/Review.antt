-- ===== src/Examples/Review.antt =====
-- A review that its approver rejects, and another one of the same document.
use isms_portal.Base.{
  ℕ, ◌+◌, String, ◌≡◌, refl, ◌↔◌, ◌⊎◌, true, false, none, some, List, [], ◌∷◌, Memᴰ, str_eq,
}
use isms_portal.Access.Roles.{is_admin_identity, is_moderator_identity}
use isms_portal.Review.{
  DocumentReview, Document, ReviewStore, DecisionBody, pending, in_review, rejected, published,
  record_review_decision, decide_review, can_decide, list_reviews, forbidden, own_review,
}
use isms_portal.Review.Inbox.{can_decide_agrees}
use isms_portal.Review.Decided.{AllClosed, rejection_closes}

abbrev same_text : String → String
same_text name = name

abbrev next_year : ℕ → ℕ
next_year t = t + 31536000000

abbrev annual : DocumentReview
annual = record {
  id = "r1";
  document_id = "d";
  version_id = some "v";
  owner = "ada";
  reviewer = "bob";
  approver = "eve";
  status = in_review;
  automatic_annual = true;
  automatic_publication = false;
  decision_comment = none;
  decided_by = none;
  decided_at = none;
  created_at = 1;
}

abbrev other : DocumentReview
other = record annual { id = "r2"; status = pending }

abbrev policy : Document
policy = record { id = "d"; status = published; deleted_at = none }

abbrev store : ReviewStore
store = record {
  reviews = annual ∷ other ∷ [];
  documents = policy ∷ [];
  versions = [];
  notifications = [];
  trail = [];
}

-- A review that is left to its approver.
abbrev by_name : DocumentReview
by_name = record annual { automatic_annual = false }

abbrev named_store : ReviewStore
named_store = record store { reviews = by_name ∷ [] }

abbrev rejection : DecisionBody
rejection = record { status = rejected; comment = "Outdated." }

abbrev moderators : List String
moderators = "ISMS-MODERATOR-MANAGE" ∷ []

can_decide_agrees_example : (false ≡ false) ↔ (
    ((decide_review same_text next_year same_text 9 "bob" moderators "r1" rejection named_store).1
      ≡ forbidden)
    ⊎ ((decide_review same_text next_year same_text 9 "bob" moderators "r1" rejection named_store).1
        ≡ own_review))
unfolding str_eq list_reviews can_decide is_admin_identity is_moderator_identity
can_decide_agrees_example =
    can_decide_agrees same_text next_year same_text (λ a b. str_eq a b) (λ r. true) 9 "bob"
      moderators rejection named_store by_name false (refl, tt) refl (Memᴰ.head refl)

rejection_closes_example :
    AllClosed "d"
      (decide_review same_text next_year same_text 9 "eve" moderators "r1" rejection store).0
unfolding str_eq decide_review record_review_decision is_admin_identity is_moderator_identity
rejection_closes_example =
    rejection_closes same_text next_year same_text 9 "eve" moderators "r1" rejection store annual
      (record annual {
        status = rejected;
        decision_comment = some "Outdated.";
        decided_by = some "eve";
        decided_at = some 9;
      })
      refl refl refl
