-- ===== src/Review.antt =====
-- The decisions on document reviews: apps/api/src/review-decision.ts and the class
-- ReviewInboxController of approvals.controller.ts.
pub mod Decided
pub mod Inbox
use isms_portal.Base.{
  ℕ, String, Bool, true, false, not, ◌&&◌, ◌||◌, Option, none, some, List, [], ◌∷◌, ◌++◌, map,
  UserNotification, AuditEntry, leb, ◌==◌, str_eq, if◌then◌else◌, is_none, truthy, filter, any,
  find, take, update_where, count_where, order_by, ◌+++◌, unique,
}
use isms_portal.Access.Roles.{is_admin_identity, is_moderator_identity}

pub data ReviewStatus : Type 0 where
  pending in_review approved rejected cancelled : ReviewStatus

pub data DocumentStatus : Type 0 where
  draft published archived quarantined : DocumentStatus

-- `DocumentReview`
pub record DocumentReview : Type 0 where
  pub id : String
  pub document_id : String
  pub version_id : Option String
  pub owner : String
  pub reviewer : String
  pub approver : String
  pub status : ReviewStatus
  pub automatic_annual : Bool
  pub automatic_publication : Bool
  pub decision_comment : Option String
  pub decided_by : Option String
  pub decided_at : Option ℕ
  pub created_at : ℕ

-- `Document`: the columns that the decision reads and writes.
pub record Document : Type 0 where
  pub id : String
  pub status : DocumentStatus
  pub deleted_at : Option ℕ

-- `DocumentVersion`: the columns of the annual review.
pub record ReviewedVersion : Type 0 where
  pub id : String
  pub annual_review_due_at : Option ℕ
  pub annual_review_notified_at : Option ℕ
  pub annual_review_reminder_at : Option ℕ
  pub annual_review_overdue_at : Option ℕ

pub record ReviewStore : Type 0 where
  pub reviews : List DocumentReview
  pub documents : List Document
  pub versions : List ReviewedVersion
  pub notifications : List UserNotification
  pub trail : List AuditEntry

-- `ReviewDecisionDto`, after its validation.
pub record DecisionBody : Type 0 where
  pub status : ReviewStatus
  pub comment : String

-- `status: { in: ["PENDING", "IN_REVIEW"] }`
abbrev pub is_open : ReviewStatus → Bool
is_open pending = true
is_open in_review = true
is_open _ = false

-- `body.status !== "IN_REVIEW"`
abbrev pub closes : ReviewStatus → Bool
closes in_review = false
closes _ = true

abbrev pub is_rejected : ReviewStatus → Bool
is_rejected rejected = true
is_rejected _ = false

abbrev pub is_approved : ReviewStatus → Bool
is_approved approved = true
is_approved _ = false

abbrev pub is_archived : DocumentStatus → Bool
is_archived archived = true
is_archived _ = false

abbrev pub status_name : ReviewStatus → String
status_name pending = "PENDING"
status_name in_review = "IN_REVIEW"
status_name approved = "APPROVED"
status_name rejected = "REJECTED"
status_name cancelled = "CANCELLED"

-- How `recordReviewDecision` ends. `failed` is the error of the database for a row that is not
-- there; it undoes the transaction.
pub data Recorded : Type 0 where
  recorded : DocumentReview → Bool → Recorded
  already_closed failed : Recorded

-- How `decide` ends.
pub data ReviewOutcome : Type 0 where
  reviewed : DocumentReview → ReviewOutcome
  not_found forbidden own_review conflict broken : ReviewOutcome

abbrev pub find_review : String → ReviewStore → Option DocumentReview
find_review id s = find (λ r. str_eq (DocumentReview.id r) id) s.reviews

abbrev pub is_open_review : String → DocumentReview → Bool
is_open_review id r = str_eq r.id id && is_open r.status

-- The other open reviews of a document.
abbrev pub is_superseded : String → String → DocumentReview → Bool
is_superseded document_id id r =
    str_eq r.document_id document_id && (not (str_eq r.id id) && is_open r.status)

-- `status: { not: "ARCHIVED" }, deletedAt: null`
abbrev pub is_archivable : String → Document → Bool
is_archivable document_id d =
    str_eq d.id document_id && (not (is_archived d.status) && is_none d.deleted_at)

-- `trim` is the method of strings, and `next_year` the same day of the next year.
module _ (trim : String → String) (next_year : ℕ → ℕ) where
  -- The first `updateMany`.
  abbrev pub close_with : ℕ → String → DecisionBody → DocumentReview → DocumentReview
  close_with now actor body r = record r {
    status = body.status;
    decision_comment = some (trim body.comment);
    decided_by = if closes body.status then some actor else none;
    decided_at = if closes body.status then some now else none;
  }

  -- The `updateMany` for the other reviews of a document that is rejected.
  abbrev pub cancel_with : ℕ → String → DocumentReview → DocumentReview
  cancel_with now actor r = record r {
    status = cancelled;
    decision_comment = some "Closed after document rejection";
    decided_by = some actor;
    decided_at = some now;
  }

  abbrev pub archive_document : Document → Document
  archive_document d = record d { status = archived }

  abbrev pub renew : ℕ → ReviewedVersion → ReviewedVersion
  renew now v = record v {
    annual_review_due_at = some (next_year now);
    annual_review_notified_at = none;
    annual_review_reminder_at = none;
    annual_review_overdue_at = none;
  }

  -- The branch for a rejection: the document and its other reviews.
  abbrev pub reject_document : ℕ → String → String → String → ReviewStore → ReviewStore
  reject_document now actor document_id id s = record s {
    documents = update_where (is_archivable document_id) archive_document s.documents;
    reviews = update_where (is_superseded document_id id) (cancel_with now actor) s.reviews;
  }

  -- The branch for an approval of an automatic review.
  abbrev pub renew_version :
      ℕ → DecisionBody → DocumentReview → Bool → ReviewStore → ReviewStore × Recorded
  renew_version now body r was_archived s =
      if is_approved body.status && (r.automatic_annual || r.automatic_publication)
      then elim (truthy r.version_id) [
        | none ↦ (s, recorded r was_archived)
        | some v ↦
            if any (λ x. str_eq (ReviewedVersion.id x) v) s.versions
            then (
              record s {
                versions =
                    update_where (λ x. str_eq (ReviewedVersion.id x) v) (renew now) s.versions;
              },
              recorded r was_archived,
            )
            else (s, failed)
      ]
      else (s, recorded r was_archived)

  -- What the transaction does behind its first write.
  abbrev pub after_close :
      ℕ → String → String → String → DecisionBody → ReviewStore → ReviewStore × Recorded
  after_close now actor id document_id body s = elim (find_review id s) [
    | none ↦ (s, failed)
    | some r ↦
        if is_rejected body.status
        then renew_version now body r (count_where (is_archivable document_id) s.documents == 1)
            (reject_document now actor document_id id s)
        else renew_version now body r false s
  ]

  abbrev pub commit : ReviewStore → ReviewStore × Recorded → ReviewStore × Recorded
  commit before (s, recorded r was_archived) = (s, recorded r was_archived)
  commit before (s, already_closed) = (before, already_closed)
  commit before (s, failed) = (before, failed)

  -- `recordReviewDecision`
  unfoldable pub record_review_decision :
      ℕ → String → String → DecisionBody → String → ReviewStore → ReviewStore × Recorded
  record_review_decision now id document_id body actor s =
      if count_where (is_open_review id) s.reviews == 1
      then commit s (
          after_close now actor id document_id body (record s {
            reviews = update_where (is_open_review id) (close_with now actor body) s.reviews;
          }))
      else (s, already_closed)

  module _ (lower : String → String) where
    -- `allowed`
    abbrev pub is_allowed : String → List String → ReviewStatus → DocumentReview → Bool
    is_allowed user groups status r =
        is_admin_identity groups
        || ((is_moderator_identity groups
              && (r.automatic_annual
                  || (r.automatic_publication || str_eq (lower r.approver) (lower user))))
            || (not (closes status) && str_eq (lower r.reviewer) (lower user)))

    abbrev notices : String → DecisionBody → DocumentReview → List UserNotification
    notices id body r =
        map
          (λ identity. record {
            identity = identity;
            title = "Document review decision";
            message = status_name body.status +++ ": " +++ trim body.comment;
            mandatory = is_rejected body.status;
            resource_type = "document-review";
            resource_id = id;
          })
          (unique (r.owner ∷ r.reviewer ∷ r.approver ∷ []))

    -- The notifications and the audit events of `decide`.
    abbrev pub announce :
        String → String → DecisionBody → DocumentReview → Bool → ReviewStore → ReviewStore
    announce user id body r was_archived s = record s {
      notifications =
          if closes body.status then notices id body r ++ s.notifications else s.notifications;
      trail =
          (if was_archived
            then record {
              actor = user;
              action = "document.archive";
              resource = "document:" +++ r.document_id;
              result = "success";
            }
              ∷ []
            else [])
          ++ record {
            actor = user;
            action = "document-review.decision";
            resource = "document-review:" +++ id;
            result = "success";
          }
            ∷ s.trail;
    }

    abbrev pub conclude :
        String
        → String
        → DecisionBody
        → DocumentReview
        → ReviewStore × Recorded
        → ReviewStore × ReviewOutcome
    conclude user id body r (s, recorded r' was_archived) =
        (announce user id body r was_archived s, reviewed r')
    conclude user id body r (s, already_closed) = (s, conflict)
    conclude user id body r (s, failed) = (s, broken)

    -- `ReviewInboxController.decide`
    unfoldable pub decide_review :
        ℕ → String → List String → String → DecisionBody → ReviewStore → ReviewStore × ReviewOutcome
    decide_review now user groups id body s = elim (find_review id s) [
      | none ↦ (s, not_found)
      | some r ↦
          if not (is_allowed user groups body.status r)
          then (s, forbidden)
          else if str_eq (lower user) (lower r.owner)
          then (s, own_review)
          else conclude user id body r (record_review_decision now id r.document_id body user s)
    ]

    -- `canDecide` of a row of the list.
    unfoldable pub can_decide : String → List String → DocumentReview → Bool
    can_decide user groups r =
        not (str_eq (lower r.owner) (lower user))
        && (is_admin_identity groups
            || (is_moderator_identity groups
                && (r.automatic_annual
                    || (r.automatic_publication || str_eq (lower r.approver) (lower user)))))

    abbrev takes_part : (String → String → Bool) → String → DocumentReview → Bool
    takes_part insensitive user r =
        insensitive r.owner user || (insensitive r.reviewer user || insensitive r.approver user)

    abbrev pub is_visible : (String → String → Bool) → String → List String → DocumentReview → Bool
    is_visible insensitive user groups r =
        if is_admin_identity groups
        then true
        else if is_moderator_identity groups
        then r.automatic_annual || (r.automatic_publication || takes_part insensitive user r)
        else takes_part insensitive user r

    -- `ReviewInboxController.list`, for the reviews of a period.
    unfoldable pub list_reviews :
        (String → String → Bool)
        → String
        → List String
        → (DocumentReview → Bool)
        → ReviewStore
        → List (DocumentReview × Bool)
    unfolding can_decide
    list_reviews insensitive user groups in_period s =
        map (λ r. (r, can_decide user groups r))
          (take 200 (
            order_by (λ a b. leb (DocumentReview.created_at b) a.created_at)
              (filter (λ r. in_period r && is_visible insensitive user groups r) s.reviews)))
