-- ===== src/Examples/Ged.antt =====
-- Two moderators at one document, and a link to the outside with two downloads.
use isms_portal.Base.{
  ℕ, ◌+◌, ◌≤◌, ◌<◌, String, ◌≡◌, refl, ◌⊎◌, inl, Bool, true, false, ◌&&◌, none, some, List, [], ◌∷◌,
  Memᴰ, arith, str_eq, any,
}
use isms_portal.Access.Roles.{is_admin_identity, is_moderator_identity, moderator_can}
use isms_portal.Access.Spaces.{can}
use isms_portal.Ged.{
  GedDocument, GedVersion, GedStore, not_found, locked, locked_by_other, visible_document,
  editable_document, lock, unlock, restore_version, is_refused, is_clean,
}
use isms_portal.Ged.Excluded.{OthersStep, unlocks, here, next, lock_excludes}
use isms_portal.Ged.Restored.{restored_newest}
use isms_portal.Ged.Public.{
  ShareLink, PublicStore, served, missing, sharing_settings, download_shared, revoke_link,
}
use isms_portal.Ged.Public.Changes.{downloads}
use isms_portal.Ged.Public.Revoked.{here as at_once, revoked_for_good}
use isms_portal.Ged.Public.Counted.{start, serves, steps, served_within_limit}

abbrev same_text : String → String
same_text name = name

abbrev no_match : String → String → Bool
no_match a b = false

abbrev moderators : List String
moderators = "ISMS-MODERATOR-MANAGE" ∷ []

abbrev handbook : GedDocument
handbook = record {
  id = "d";
  space_id = "s";
  category_id = none;
  is_published = true;
  sensitive = false;
  deleted_at = none;
  locked_by = none;
  locked_at = none;
  lock_expires_at = none;
}

abbrev version_of : String → ℕ → GedVersion
version_of id number = record {
  id = id;
  document_id = "d";
  locale = "en";
  version = number;
  version_major = 1;
  version_minor = number;
  stored_file_id = id;
  object_key = "en/file.pdf";
  purged_at = none;
  last_scan = some "CLEAN";
  text = none;
  change_summary = "";
}

abbrev store : GedStore
store = record {
  spaces = [];
  documents = handbook ∷ [];
  versions = version_of "v2" 2 ∷ version_of "v1" 1 ∷ [];
  trail = [];
}

abbrev by_ada : GedStore
by_ada = (lock same_text no_match 5 "ada" moderators "d" store).0

abbrev tried : GedStore
tried = (unlock same_text no_match 6 "bob" moderators "d" by_ada).0

abbrev locked_handbook : GedDocument
locked_handbook = record handbook {
  locked_by = some "ada";
  locked_at = some 5;
  lock_expires_at = some 28800005;
}

there : Memᴰ locked_handbook tried.documents
unfolding lock unlock editable_document visible_document locked_by_other can is_admin_identity
    is_moderator_identity moderator_can str_eq
there = Memᴰ.head refl

attempt : OthersStep same_text no_match "ada" 28800005 by_ada tried
unfolding is_admin_identity str_eq
attempt = unlocks 6 "bob" moderators "d" refl refl refl

lock_excludes_example :
    (locked_handbook.locked_by ≡ some "ada")
    × (locked_handbook.lock_expires_at ≡ some 28800005)
    × (((lock same_text no_match 7 "bob" moderators "d" tried).1 ≡ not_found)
        ⊎ ((lock same_text no_match 7 "bob" moderators "d" tried).1 ≡ locked))
unfolding lock editable_document visible_document locked_by_other can is_admin_identity
    is_moderator_identity moderator_can str_eq
lock_excludes_example =
    lock_excludes same_text no_match 5 "ada" moderators "d" 28800005 store tried locked_handbook 7
      "bob" moderators (refl, tt) (inl refl, tt) refl refl (next here attempt) there refl refl refl

abbrev restored_version : GedVersion
restored_version = record (version_of "v1" 1) {
  id = "v3";
  version = 3;
  version_minor = 3;
  change_summary = "Back";
}

restored_newest_example :
    (is_refused 9 "ada" "d" store.documents ≡ false)
    × (2 < 3)
    × Memᴰ restored_version
        (restore_version same_text no_match 9 "ada" moderators "d" "v1" "v3" "Back"
          store).0.versions
    × ((source : GedVersion) × Memᴰ source store.versions
        × (source.document_id ≡ "d")
        × (is_clean source ≡ true)
        × (restored_version.document_id ≡ "d")
        × (restored_version.locale ≡ source.locale)
        × (restored_version.stored_file_id ≡ source.stored_file_id)
        × (restored_version.text ≡ source.text))
    × (any
          (λ d. str_eq (GedDocument.id d) "d" && d.is_published)
          (restore_version same_text no_match 9 "ada" moderators "d" "v1" "v3" "Back"
            store).0.documents
        ≡ false)
unfolding restore_version editable_document visible_document locked_by_other can is_admin_identity
    is_moderator_identity moderator_can str_eq
restored_newest_example =
    restored_newest same_text no_match 9 "ada" moderators "d" "v1" "v3" "Back" store
      restored_version (version_of "v2" 2) refl (Memᴰ.head refl) refl

abbrev pass : ShareLink
pass = record {
  id = "l";
  document_id = "d";
  version_id = "v2";
  token_hash = "secret";
  created_by = "ada";
  expires_at = 100;
  max_downloads = some 2;
  download_count = 1;
  last_access_at = none;
  revoked_at = none;
}

abbrev outside : PublicStore
outside = record {
  ged = store;
  links = pass ∷ [];
  sharing = some (record { enabled = true; max_days = none });
}

abbrev any_text : String → Bool
any_text s = true

abbrev no_text : String → Bool
no_text s = false

abbrev once : PublicStore
once = (download_shared same_text any_text no_text 10 "198.51.100.7" "secret" outside).0

abbrev twice : PublicStore
twice = (download_shared same_text any_text no_text 11 "198.51.100.7" "secret" once).0

sent_once :
    (download_shared same_text any_text no_text 10 "198.51.100.7" "secret" outside).1
    ≡ served "en/file.pdf"
unfolding download_shared sharing_settings str_eq
sent_once = refl

served_within_limit_example : 1 + 1 ≤ 2
unfolding str_eq
served_within_limit_example =
    served_within_limit same_text any_text no_text same_text no_match "secret" outside twice pass 2
      1 (refl, tt) (refl, tt) (Memᴰ.head refl) refl refl (omega arith)
      (steps (serves 10 "198.51.100.7" "en/file.pdf" start sent_once)
        (downloads 11 "198.51.100.7" "secret"))

abbrev closed : PublicStore
closed =
    (revoke_link same_text any_text no_text same_text no_match 12 "ada" moderators "d" "l"
      outside).0

revoked_for_good_example :
    (download_shared same_text any_text no_text 13 "198.51.100.7" "secret" closed).1 ≡ missing
unfolding revoke_link visible_document can is_admin_identity is_moderator_identity moderator_can
    str_eq
revoked_for_good_example =
    revoked_for_good same_text any_text no_text same_text no_match 12 13 "ada" "198.51.100.7"
      "secret" moderators "d" outside closed pass (refl, tt) (refl, tt) (Memᴰ.head refl) refl refl
      at_once
