-- ===== src/Ged.antt =====
-- The work on one document: `visibleDocument`, the edit locks and the restored versions of
-- apps/api/src/ged.controller.ts. `lower` is `toLowerCase` and `insensitive` the comparison of the
-- database in the mode "insensitive", as in Access.
pub mod Locked
pub mod Excluded
pub mod Restored
pub mod Public
use isms_portal.Base.{
  ℕ, ◌+◌, ◌*◌, String, Bool, true, false, not, ◌&&◌, ◌||◌, Option, none, some, List, [], ◌∷◌,
  AuditEntry, ltb, leb, ◌==◌, str_eq, if◌then◌else◌, is_some, is_none, truthy, filter, find,
  update_where, count_where, order_by, ◌+++◌,
}
use isms_portal.Access.Roles.{Permission, read, edit, publish, archive, is_admin_identity}
use isms_portal.Access.Spaces.{Space, can}

-- `Document`: the columns that these handlers read and write.
pub record GedDocument : Type 0 where
  pub id : String
  pub space_id : String
  pub category_id : Option String
  pub is_published : Bool
  pub sensitive : Bool
  pub deleted_at : Option ℕ
  pub locked_by : Option String
  pub locked_at : Option ℕ
  pub lock_expires_at : Option ℕ

-- `DocumentVersion` with its `StoredFile`, the status of its last scan and its extracted text.
-- The text is there exactly where its content has the status DONE.
pub record GedVersion : Type 0 where
  pub id : String
  pub document_id : String
  pub locale : String
  pub version : ℕ
  pub version_major : ℕ
  pub version_minor : ℕ
  pub stored_file_id : String
  pub object_key : String
  pub purged_at : Option ℕ
  pub last_scan : Option String
  pub text : Option String
  pub change_summary : String

pub record GedStore : Type 0 where
  pub spaces : List Space
  pub documents : List GedDocument
  pub versions : List GedVersion
  pub trail : List AuditEntry

-- `LOCK_HOURS`, in milliseconds.
abbrev pub lock_time : ℕ
lock_time = 8 * 3600000

abbrev pub is_future : ℕ → Option ℕ → Bool
is_future now none = false
is_future now (some t) = ltb now t

abbrev pub is_past : ℕ → Option ℕ → Bool
is_past now none = false
is_past now (some t) = leb t now

abbrev pub is_user : String → Option String → Bool
is_user user none = false
is_user user (some name) = str_eq name user

-- `lockedByOther`; an empty name is no name.
unfoldable pub locked_by_other : ℕ → String → GedDocument → Bool
locked_by_other now user d = elim (truthy d.locked_by) [
  | none ↦ false
  | some name ↦ not (str_eq name user) && is_future now d.lock_expires_at
]

abbrev pub find_document : String → List GedDocument → Option GedDocument
find_document id documents = find (λ d. str_eq (GedDocument.id d) id) documents

-- Whether `assertNotLockedByOther` throws.
abbrev pub is_refused : ℕ → String → String → List GedDocument → Bool
is_refused now user id documents = elim (find_document id documents) [
  | none ↦ false
  | some d ↦ locked_by_other now user d
]

abbrev pub ged_entry : String → String → String → AuditEntry
ged_entry user action id = record {
  actor = user;
  action = action;
  resource = "document:" +++ id;
  result = "success";
}

-- How a handler ends.
pub data GedOutcome {ℓ} (A : Type ℓ) : Type ℓ where
  done : A → GedOutcome A
  not_found forbidden locked conflict : GedOutcome A

abbrev pub is_mine : ℕ → String → String → GedDocument → Bool
is_mine now user id d =
    str_eq d.id id
    && (is_none d.deleted_at
        && (is_none d.locked_by || (is_past now d.lock_expires_at || is_user user d.locked_by)))

abbrev pub take_lock : ℕ → String → GedDocument → GedDocument
take_lock now user d = record d {
  locked_by = some user;
  locked_at = some now;
  lock_expires_at = some (now + lock_time);
}

abbrev pub drop_lock : GedDocument → GedDocument
drop_lock d = record d { locked_by = none; locked_at = none; lock_expires_at = none }

-- The newest version of a document in a language.
abbrev pub is_in : String → String → GedVersion → Bool
is_in document_id locale v = str_eq v.document_id document_id && str_eq v.locale locale

abbrev pub newest : String → String → List GedVersion → Option GedVersion
newest document_id locale versions =
    elim (order_by (λ a b. leb (GedVersion.version b) (GedVersion.version a))
      (filter (is_in document_id locale) versions)) [ [] ↦ none | v ∷ (rest → ih) ↦ some v ]

abbrev pub is_clean : GedVersion → Bool
is_clean v =
    is_none v.purged_at && (elim v.last_scan [ none ↦ false | some status ↦ str_eq status "CLEAN" ])

abbrev pub number_of : Option GedVersion → ℕ
number_of none = 0
number_of (some v) = v.version

abbrev pub restored_from : String → String → Option GedVersion → GedVersion → GedVersion
restored_from fresh summary latest source = record source {
  id = fresh;
  version = number_of latest + 1;
  version_major = elim latest [ none ↦ 0 | some v ↦ v.version_major ];
  version_minor = (elim latest [ none ↦ 0 | some v ↦ v.version_minor ]) + 1;
  change_summary = summary;
}

-- The transaction of `restoreVersion`. `summary` is the text of the change.
abbrev pub add_restored :
    String → String → String → String → GedVersion → GedStore → GedStore × GedOutcome GedVersion
add_restored user id fresh summary source s =
    let latest = newest id source.locale s.versions in
    let created = restored_from fresh summary latest source in
    if is_some latest && number_of latest == source.version then (s, conflict) else (
      record s {
        versions = created ∷ s.versions;
        documents =
            update_where (λ d. str_eq (GedDocument.id d) id)
              (λ d. record d { is_published = false }) s.documents;
        trail = ged_entry user "document.version.restore" id ∷ s.trail;
      },
      done created,
    )

module _ (lower : String → String) (insensitive : String → String → Bool) where
  abbrev pub may : ℕ → List String → GedDocument → Permission → GedStore → Bool
  may now groups d p s = can lower insensitive now s.spaces groups d.space_id p (some d.category_id)

  -- `visibleDocument`
  unfoldable pub visible_document : ℕ → List String → String → GedStore → Option GedDocument
  visible_document now groups id s =
      elim (find (λ d. str_eq (GedDocument.id d) id && is_none d.deleted_at) s.documents) [
        | none ↦ none
        | some d ↦
            if (if d.is_published
              then may now groups d read s
              else may now groups d edit s
                || (may now groups d publish s || may now groups d archive s))
            then some d
            else none
      ]

  -- `requireEditable`
  unfoldable pub editable_document : ℕ → List String → String → GedStore → Option GedDocument
  unfolding visible_document
  editable_document now groups id s = elim (visible_document now groups id s) [
    | none ↦ none
    | some d ↦ if may now groups d edit s then some d else none
  ]

  abbrev pub lock_row : ℕ → String → String → GedStore → GedStore × GedOutcome ℕ
  lock_row now user id s =
      let taken : GedStore = record s {
        documents = update_where (is_mine now user id) (take_lock now user) s.documents;
      } in
      if not (count_where (is_mine now user id) s.documents == 1)
        && is_refused now user id taken.documents
      then (taken, locked)
      else (
        record taken { trail = ged_entry user "document.lock" id ∷ s.trail },
        done (now + lock_time),
      )

  -- `lock`: it ends with the time until which the lock holds.
  unfoldable pub lock : ℕ → String → List String → String → GedStore → GedStore × GedOutcome ℕ
  unfolding editable_document locked_by_other
  lock now user groups id s = elim (editable_document now groups id s) [
    | none ↦ (s, not_found)
    | some d ↦ lock_row now user id s
  ]

  -- `unlock`
  unfoldable pub unlock : ℕ → String → List String → String → GedStore → GedStore × GedOutcome Bool
  unfolding editable_document locked_by_other
  unlock now user groups id s = elim (editable_document now groups id s) [
    | none ↦ (s, not_found)
    | some d ↦
        if locked_by_other now user d && not (is_admin_identity groups) then (s, forbidden) else (
          record s {
            documents = update_where (λ x. str_eq (GedDocument.id x) id) drop_lock s.documents;
            trail = ged_entry user "document.unlock" id ∷ s.trail;
          },
          done true,
        )
  ]

  -- `restoreVersion`
  unfoldable pub restore_version :
      ℕ
      → String
      → List String
      → String
      → String
      → String
      → String
      → GedStore
      → GedStore × GedOutcome GedVersion
  unfolding editable_document locked_by_other
  restore_version now user groups id version_id fresh summary s =
      elim (editable_document now groups id s) [
        | none ↦ (s, not_found)
        | some d ↦
            if is_refused now user id s.documents
            then (s, locked)
            else elim (find (λ v. str_eq (GedVersion.id v) version_id && str_eq v.document_id id)
                s.versions) [
                  | none ↦ (s, not_found)
                  | some source ↦
                      if not (is_clean source)
                      then (s, conflict)
                      else add_restored user id fresh summary source s
                ]
      ]
