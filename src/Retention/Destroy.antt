-- ===== src/Retention/Destroy.antt =====
-- The worker's part of the destruction of documents: `flagDueRetentions` and
-- `executeApprovedDestructions` of apps/api/src/ged-worker.ts; the trash of
-- `DocumentAdminController` in controllers.ts.
use isms_portal.Base.{
  ℕ, suc, ◌+◌, String, Bool, true, false, not, ◌&&◌, Option, none, some, List, [], ◌∷◌, ◌++◌, map,
  ltb, leb, ◌==◌, str_eq, if◌then◌else◌, is_some, is_none, length, filter, any, find, take,
  update_where, count_where, includes, ◌+++◌, unique,
}
use isms_portal.Retention.{
  Destruction, due, approved, destroying, destroyed, Policy, RetainedDocument, FileVersion,
  StoredFile, RetentionStore, is_kept, is_approved, is_destroying, has_id, entry_of,
  RetentionOutcome, saved, not_found,
}

abbrev scheduler : String
scheduler = "ISMS scheduler"

-- `policy.document`
abbrev pub document_of : String → RetentionStore → Option RetainedDocument
document_of id s = find (λ d. str_eq (RetainedDocument.id d) id) s.documents

abbrev pub is_destroyed_document : String → RetentionStore → Bool
is_destroyed_document id s = elim (document_of id s) [
  | none ↦ false
  | some d ↦ is_some d.destroyed_at
]

abbrev pub has_ended : ℕ → Option ℕ → Bool
has_ended now none = false
has_ended now (some t) = leb t now

abbrev pub is_due : ℕ → RetentionStore → Policy → Bool
is_due now s p =
    not p.legal_hold
    && (is_kept p.status
        && (has_ended now p.retention_until && not (is_destroyed_document p.document_id s)))

abbrev pub with_status : ℕ → Destruction → Policy → Policy
with_status now status p = record p { status = status; updated_at = now }

abbrev pub flag_all : ℕ → List Policy → RetentionStore → RetentionStore
flag_all now [] s = s
flag_all now (p ∷ ps) s = flag_all now ps (record s {
  policies = update_where (has_id p.id) (with_status now due) s.policies;
  trail = entry_of scheduler "retention.due" ("retention-policy:" +++ p.id) ∷ s.trail;
})

-- `flagDueRetentions`
unfoldable pub flag_due : ℕ → RetentionStore → RetentionStore × ℕ
flag_due now s =
    let found = take 100 (filter (is_due now s) s.policies) in (flag_all now found s, length found)

-- The files of a version, the distributed one included.
abbrev pub file_ids : FileVersion → List String
file_ids v = elim v.distributed_file_id [
  | none ↦ v.stored_file_id ∷ []
  | some id ↦ v.stored_file_id ∷ id ∷ []
]

abbrev pub concat_ids : List FileVersion → List String
concat_ids [] = []
concat_ids (v ∷ vs) = file_ids v ++ concat_ids vs

abbrev pub files_of : List String → List StoredFile → List StoredFile
files_of [] files = []
files_of (id ∷ ids) files =
    let rest = files_of ids files in
    elim (find (λ f. str_eq (StoredFile.id f) id) files) [ none ↦ rest | some f ↦ f ∷ rest ]

-- `files`: the files of the document's versions, each once.
abbrev pub document_files : String → RetentionStore → List StoredFile
document_files id s =
    files_of (unique (concat_ids (filter (λ v. str_eq (FileVersion.document_id v) id) s.versions)))
      s.files

abbrev pub uses : List String → FileVersion → Bool
uses ids v = any (includes ids) (file_ids v)

-- `keep`: the files of the other documents' versions that use one of the files.
abbrev pub kept_ids : String → List StoredFile → List FileVersion → List String
kept_ids id files versions = concat_ids (
    filter (λ v. not (str_eq (FileVersion.document_id v) id) && uses (map StoredFile.id files) v)
      versions)

-- `removeObject` on each of the files; where it throws, the others stay.
abbrev pub remove_objects : (String → Bool) → List StoredFile → List String → List String × Bool
remove_objects removes [] objects = (objects, true)
remove_objects removes (f ∷ fs) objects = elim (removes f.object_key) [
  | true ↦ remove_objects removes fs (filter (λ key. not (str_eq key f.object_key)) objects)
  | false ↦ (objects, false)
]

abbrev pub purge : ℕ → StoredFile → StoredFile
purge now f = record f { purged_at = some now }

abbrev pub bury : ℕ → Option ℕ → RetainedDocument → RetainedDocument
bury now deleted_at d = record d {
  is_archived = true;
  deleted_at = elim deleted_at [ none ↦ some now | some t ↦ some t ];
  destroyed_at = some now;
  locked_by = none;
  lock_expires_at = none;
}

abbrev pub finish : ℕ → Policy → Policy
finish now p = record p { status = destroyed; destroyed_at = some now; updated_at = now }

abbrev pub is_other : String → String → Bool
is_other id x = not (str_eq x id)

-- The transaction that ends a destruction; `gone` are the files whose objects were removed.
abbrev pub bury_all : ℕ → List String → Option ℕ → Policy → RetentionStore → RetentionStore
bury_all now gone deleted_at p s = record s {
  files = update_where (λ f. includes gone (StoredFile.id f)) (purge now) s.files;
  contents = filter (is_other p.document_id) s.contents;
  comments = filter (is_other p.document_id) s.comments;
  subscriptions = filter (is_other p.document_id) s.subscriptions;
  links = filter (λ (a, b). is_other p.document_id a && is_other p.document_id b) s.links;
  documents =
      update_where (λ d. str_eq (RetainedDocument.id d) p.document_id) (bury now deleted_at)
        s.documents;
  policies = update_where (has_id p.id) (finish now) s.policies;
  trail = entry_of scheduler "document.destroyed" ("document:" +++ p.document_id) ∷ s.trail;
}

abbrev pub is_claimable : String → Policy → Bool
is_claimable id p = has_id id p && (is_approved p.status && not p.legal_hold)

-- How a policy of the loop ends: passed over, destroyed, or with an exception of the storage.
pub data Fate : Type 0 where
  skipped done thrown : Fate

abbrev pub to_remove : List String → StoredFile → Bool
to_remove keep f = not (includes keep f.id) && is_none f.purged_at

abbrev pub deleted_time : String → RetentionStore → Option ℕ
deleted_time id s = elim (document_of id s) [ none ↦ none | some d ↦ RetainedDocument.deleted_at d ]

abbrev pub claim : ℕ → Policy → RetentionStore → RetentionStore
claim now p s = record s {
  policies = update_where (is_claimable p.id) (with_status now destroying) s.policies;
}

abbrev pub is_stale : ℕ → Policy → Bool
is_stale now p = is_destroying p.status && ltb (p.updated_at + 1800000) now

-- A destruction that a crash interrupted is approved again after half an hour.
abbrev pub recover : ℕ → RetentionStore → RetentionStore
recover now s = record s {
  policies = update_where (is_stale now) (with_status now approved) s.policies;
}

abbrev pub is_ready : Policy → Bool
is_ready p = is_approved p.status && not p.legal_hold

module _ (removes : String → Bool) where
  -- What follows the claim. `read` is the store that the policies were read from.
  abbrev pub destroy_claimed : ℕ → RetentionStore → Policy → RetentionStore → RetentionStore × Fate
  destroy_claimed now read p s =
      let files = document_files p.document_id read in
      let keep = kept_ids p.document_id files s.versions in
      let (objects, all_removed) =
        remove_objects removes (filter (to_remove keep) files) s.objects in
      let t : RetentionStore = record s { objects = objects } in
      if all_removed
      then (
        bury_all now (map StoredFile.id (filter (λ f. not (includes keep f.id)) files))
            (deleted_time p.document_id read) p t,
        done,
      )
      else (t, thrown)

  -- The body of the loop.
  unfoldable pub destroy_one : ℕ → RetentionStore → Policy → RetentionStore → RetentionStore × Fate
  destroy_one now read p s =
      if count_where (is_claimable p.id) s.policies == 1
      then destroy_claimed now read p (claim now p s)
      else (s, skipped)

  -- The loop, with the number of documents destroyed, or none where the storage threw.
  abbrev pub destroy_all :
      ℕ → RetentionStore → List Policy → RetentionStore → ℕ → RetentionStore × Option ℕ
  destroy_all now read [] s n = (s, some n)
  destroy_all now read (p ∷ ps) s n =
      let (t, fate) = destroy_one now read p s in
      elim fate [
        | skipped ↦ destroy_all now read ps t n
        | done ↦ destroy_all now read ps t (suc n)
        | thrown ↦ (t, none)
      ]

  -- `executeApprovedDestructions`
  unfoldable pub execute_destructions : ℕ → RetentionStore → RetentionStore × Option ℕ
  unfolding destroy_one
  execute_destructions now s =
      let read = recover now s in
      destroy_all now read (take 10 (filter is_ready read.policies)) read 0

-- `restoreFromTrash`
unfoldable pub restore_from_trash :
    String → String → RetentionStore → RetentionStore × RetentionOutcome
restore_from_trash user id s =
    let in_trash : RetainedDocument → Bool =
      λ d. str_eq d.id id && (is_some d.deleted_at && is_none d.destroyed_at) in
    if count_where in_trash s.documents == 1
    then (
      record s {
        documents =
            update_where in_trash (λ d. record d { deleted_at = none; is_archived = true })
              s.documents;
        trail = entry_of user "document.trash.restore" ("document:" +++ id) ∷ s.trail;
      },
      saved,
    )
    else (s, not_found)
