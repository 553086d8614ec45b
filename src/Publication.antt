-- ===== src/Publication.antt =====
-- The publication of a document: apps/api/src/document-types.ts, version-label.ts and
-- publication-review.ts. The metadata of a document is an association list without empty keys.
pub mod Major
pub mod Newest
use isms_portal.Base.{
  ℕ, ◌+◌, max, String, ◌⊎◌, inl, inr, Bool, true, false, not, ◌&&◌, Option, none, some, List, [],
  ◌∷◌, ◌++◌, map, AuditEntry, ltb, ◌==◌, str_eq, if◌then◌else◌, is_none, truthy, length, filter,
  find, update_where, count_where, lookup, insert, ◌+++◌, unique,
}
use isms_portal.Review.{DocumentReview, DocumentStatus, published, pending}

-- `DocumentType`
pub record DocumentType : Type 0 where
  pub id : String
  pub slug : String
  pub deleted_at : Option ℕ
  pub required_fields : List String
  pub reference_prefix : Option String
  pub next_number : ℕ

-- `DocumentVersion`: the columns of the label.
pub record Version : Type 0 where
  pub id : String
  pub document_id : String
  pub locale : String
  pub version : ℕ
  pub version_major : ℕ
  pub version_minor : ℕ

-- `Document`
pub record PublishedDocument : Type 0 where
  pub id : String
  pub status : DocumentStatus
  pub deleted_at : Option ℕ
  pub published_at : Option ℕ
  pub metadata : List (String × String)

pub record PublicationStore : Type 0 where
  pub types : List DocumentType
  pub documents : List PublishedDocument
  pub versions : List Version
  pub reviews : List DocumentReview
  pub trail : List AuditEntry

abbrev pub has_id : String → Version → Bool
has_id id v = str_eq v.id id

-- `reduce`: of two with the same number the earlier one stands.
abbrev pub latest_from : Version → List Version → Version
latest_from best [] = best
latest_from best (v ∷ vs) = latest_from (if ltb best.version v.version then v else best) vs

abbrev pub latest : List Version → Option Version
latest [] = none
latest (v ∷ vs) = some (latest_from v vs)

-- `Math.max(...versionMajor)`
abbrev pub max_major : List Version → ℕ
max_major [] = 0
max_major (v ∷ vs) = max v.version_major (max_major vs)

-- The `update` of `promoteLatestToMajor`.
abbrev pub promoted : ℕ → Version → Version
promoted major v = record v { version_major = major + 1; version_minor = 0 }

-- One round of the loop, over the versions of one locale as they were read.
unfoldable pub promote_locale : List Version → List Version → List Version
promote_locale locale_versions versions = elim (latest locale_versions) [
  | none ↦ versions
  | some l ↦
      if l.version_minor == 0
      then versions
      else update_where (has_id l.id) (promoted (max_major locale_versions)) versions
]

unfoldable pub promote_locales : List Version → List String → List Version → List Version
unfolding promote_locale
promote_locales read [] versions = versions
promote_locales read (locale ∷ locales) versions =
    promote_locales read locales
      (promote_locale (filter (λ v. str_eq (Version.locale v) locale) read) versions)

abbrev pub versions_of : String → List Version → List Version
versions_of document_id versions = filter (λ v. str_eq (Version.document_id v) document_id) versions

-- `promoteLatestToMajor`
unfoldable pub promote_latest_to_major : String → List Version → List Version
unfolding promote_locales
promote_latest_to_major document_id versions =
    let read = versions_of document_id versions in
    promote_locales read (unique (map Version.locale read)) versions

abbrev is_published : DocumentStatus → Bool
is_published published = true
is_published _ = false

-- How `publishWithReview` ends.
pub data Publication : Type 0 where
  done : Option String → Publication
  incomplete : List String → Publication
  already_published : Publication

-- `number` is `String(n).padStart(3, "0")`.
module _ (trim : String → String) (number : ℕ → String) where
  -- `metadata[field]?.trim()` after its truth test.
  abbrev pub field_of : List (String × String) → String → Option String
  field_of metadata field = elim (lookup field metadata) [
    | none ↦ none
    | some v ↦ truthy (some (trim v))
  ]

  -- `missingFields`
  abbrev pub missing_fields : DocumentType → List (String × String) → List String
  missing_fields t metadata = filter (λ f. is_none (field_of metadata f)) t.required_fields

  -- `findType`
  unfoldable pub find_type : List (String × String) → List DocumentType → Option DocumentType
  find_type metadata types = elim (field_of metadata "ged.documentType") [
    | none ↦ none
    | some slug ↦ find (λ t. str_eq (DocumentType.slug t) slug && is_none t.deleted_at) types
  ]

  abbrev next_number_of : DocumentType → DocumentType
  next_number_of t = record t { next_number = t.next_number + 1 }

  -- `applyDocumentType`: the types, and the metadata or the fields that are missing. The error
  -- undoes the transaction, and with it the new number.
  unfoldable pub apply_document_type :
      List (String × String)
      → List DocumentType
      → List DocumentType × (List String ⊎ List (String × String))
  unfolding find_type
  apply_document_type metadata types = elim (find_type metadata types) [
    | none ↦ (types, inr metadata)
    | some t ↦
        let numbers : Option String = elim (truthy t.reference_prefix) [
          | none ↦ none
          | some prefix ↦ if is_none (field_of metadata "ged.reference") then some prefix else none
        ] in
        let result : List (String × String) = elim numbers [
          | none ↦ metadata
          | some prefix ↦ insert "ged.reference" (prefix +++ "-" +++ number t.next_number) metadata
        ] in
        let after : List DocumentType = elim numbers [
          | none ↦ types
          | some prefix ↦ update_where (λ u. str_eq (DocumentType.id u) t.id) next_number_of types
        ] in
        if length (missing_fields t result) == 0
        then (after, inr result)
        else (types, inl (missing_fields t result))
  ]

  -- `assertDocumentTypeComplete`: the fields that are missing.
  unfoldable pub incomplete_fields : String → PublicationStore → List String
  unfolding find_type
  incomplete_fields document_id s =
      let metadata : List (String × String) =
        elim (find (λ d. str_eq (PublishedDocument.id d) document_id) s.documents) [
          | none ↦ []
          | some d ↦ d.metadata
        ] in
      elim (find_type metadata s.types) [ none ↦ [] | some t ↦ missing_fields t metadata ]

  abbrev pub is_publishable : String → PublishedDocument → Bool
  is_publishable document_id d =
      str_eq d.id document_id && (is_none d.deleted_at && not (is_published d.status))

  abbrev first_review : String → String → Option String → ℕ → DocumentReview
  first_review fresh document_id version_id at = record {
    id = fresh;
    document_id = document_id;
    version_id = version_id;
    owner = "ISMS scheduler";
    reviewer = "ISMS moderators";
    approver = "ISMS administrators";
    status = pending;
    automatic_annual = false;
    automatic_publication = true;
    decision_comment = none;
    decided_by = none;
    decided_at = none;
    created_at = at;
  }

  abbrev audit_of : String → String → String → AuditEntry
  audit_of user action resource = record {
    actor = user;
    action = action;
    resource = resource;
    result = "success";
  }

  -- `publishWithReview`; `audit` holds the user and the action, if the caller wants the events.
  unfoldable pub publish_with_review :
      String
      → String
      → Option String
      → Bool
      → ℕ
      → Option (String × String)
      → PublicationStore
      → PublicationStore × Publication
  unfolding incomplete_fields promote_latest_to_major
  publish_with_review fresh document_id version_id first_time at audit s =
      if not (length (incomplete_fields document_id s) == 0)
      then (s, incomplete (incomplete_fields document_id s))
      else if not (count_where (is_publishable document_id) s.documents == 1)
      then (s, already_published)
      else (
        record s {
          documents =
              update_where (is_publishable document_id)
                (λ d. record d { status = published; published_at = some at }) s.documents;
          versions = promote_latest_to_major document_id s.versions;
          reviews =
              if first_time
              then first_review fresh document_id version_id at ∷ s.reviews
              else s.reviews;
          trail = elim audit [
            | none ↦ s.trail
            | some (user, action) ↦
                (if first_time
                  then audit_of user "document-review.create" ("document-review:" +++ fresh) ∷ []
                  else [])
                ++ audit_of user action ("document:" +++ document_id) ∷ s.trail
          ];
        },
        done (if first_time then some fresh else none),
      )
