-- ===== src/Ged/Public.antt =====
-- The links by which a document is shared with the outside: `share` and `revoke` of
-- `GedSignShareController`, and `PublicShareController`, of
-- apps/api/src/ged-sign-share.controller.ts, with `sharingSettings` of ged-settings.ts. `hash` is
-- SHA-256, and `is_token` and `is_mip` are the two regular expressions, for the tokens and for the
-- names of protected files; `token` is what `randomBytes` gives.
pub mod Changes
pub mod Counted
pub mod Revoked
use isms_portal.Base.{
  ℕ, ◌+◌, ◌*◌, min, max, String, Bool, true, false, not, ◌&&◌, ◌||◌, Option, none, some, List, ◌∷◌,
  ltb, ◌==◌, str_eq, if◌then◌else◌, is_none, all, find, update_where, count_where, ◌+++◌,
}
use isms_portal.Access.Roles.{edit, download}
use isms_portal.Ged.{
  GedDocument, GedVersion, GedStore, GedOutcome, done, not_found, forbidden, conflict, may,
  visible_document, is_clean, ged_entry, find_document,
}

-- What the application setting holds.
pub record StoredSharing : Type 0 where
  pub enabled : Bool
  pub max_days : Option ℕ

pub record SharingSettings : Type 0 where
  pub enabled : Bool
  pub max_days : ℕ

-- `Number(stored?.maxDays) || 30`
abbrev pub asked_days : Option StoredSharing → ℕ
asked_days none = 30
asked_days (some x) = elim x.max_days [ none ↦ 30 | some n ↦ if n == 0 then 30 else n ]

-- `sharingSettings`
unfoldable pub sharing_settings : Option StoredSharing → SharingSettings
sharing_settings stored = record {
  enabled = elim stored [ none ↦ false | some x ↦ StoredSharing.enabled x ];
  max_days = min 90 (max 1 (asked_days stored));
}

-- `ShareLink`
pub record ShareLink : Type 0 where
  pub id : String
  pub document_id : String
  pub version_id : String
  pub token_hash : String
  pub created_by : String
  pub expires_at : ℕ
  pub max_downloads : Option ℕ
  pub download_count : ℕ
  pub last_access_at : Option ℕ
  pub revoked_at : Option ℕ

-- The tables of the other handlers, with the links and the setting.
pub record PublicStore : Type 0 where
  pub ged : GedStore
  pub links : List ShareLink
  pub sharing : Option StoredSharing

-- `ShareDto`
pub record LinkBody : Type 0 where
  pub version_id : String
  pub expires_in_days : ℕ
  pub max_downloads : Option ℕ

pub data ShareOutcome : Type 0 where
  shared : ShareLink → ShareOutcome
  hidden disabled not_sharable too_long : ShareOutcome

abbrev pub find_link : String → List ShareLink → Option ShareLink
find_link token_hash links = find (λ l. str_eq (ShareLink.token_hash l) token_hash) links

abbrev pub below_limit : ShareLink → Bool
below_limit l = elim l.max_downloads [ none ↦ true | some n ↦ ltb l.download_count n ]

-- The rows of the `UPDATE` of `download`.
abbrev pub consumable : String → ShareLink → Bool
consumable id l = str_eq l.id id && (is_none l.revoked_at && below_limit l)

abbrev pub consume : ℕ → ShareLink → ShareLink
consume now l = record l { download_count = l.download_count + 1; last_access_at = some now }

abbrev pub live_link : String → String → ShareLink → Bool
live_link id document_id l =
    str_eq l.id id && (str_eq l.document_id document_id && is_none l.revoked_at)

abbrev pub end_link : ℕ → ShareLink → ShareLink
end_link now l = record l { revoked_at = some now }

-- How `download` answers: with a stream of a stored file, or not at all.
pub data Download : Type 0 where
  served : String → Download
  missing : Download

abbrev pub answer : Bool → Option GedVersion → Download
answer consumed none = missing
answer consumed (some v) = if consumed then served v.object_key else missing

module _ (hash : String → String) (is_token is_mip : String → Bool) where
  -- `cleanVersion`
  abbrev pub clean_version : String → String → GedStore → Option GedVersion
  clean_version document_id version_id s =
      elim (find (λ v. str_eq (GedVersion.id v) version_id && str_eq v.document_id document_id)
        s.versions) [ none ↦ none | some v ↦ if is_clean v then some v else none ]

  -- The conditions of `valid`.
  abbrev pub may_serve : ℕ → ShareLink → GedDocument → Option GedVersion → PublicStore → Bool
  may_serve now l d version s =
      (sharing_settings s.sharing).enabled
      && (is_none l.revoked_at
          && (ltb now l.expires_at
              && (d.is_published
                  && (is_none d.deleted_at
                      && (not d.sensitive && (elim version [
                        | none ↦ false
                        | some v ↦ is_clean v && not (is_mip v.object_key)
                      ]))))))

  -- What `download` does once the link and its document are found.
  abbrev pub download_found :
      ℕ → String → ShareLink → GedDocument → PublicStore → PublicStore × Download
  download_found now ip l d s =
      let version : Option GedVersion =
        find (λ v. str_eq (GedVersion.id v) l.version_id) s.ged.versions in
      let valid = may_serve now l d version s in
      let consumed = valid && count_where (consumable l.id) s.links == 1 in
      (
        record s {
          links = if valid then update_where (consumable l.id) (consume now) s.links else s.links;
          ged = record s.ged {
            trail =
                record {
                  actor = ip;
                  action = "document.share.download";
                  resource = "document:" +++ l.document_id;
                  result = if consumed then "success" else "denied";
                }
                ∷ s.ged.trail;
          };
        },
        answer consumed version,
      )

  -- A link always has a document.
  abbrev pub download_link : ℕ → String → ShareLink → PublicStore → PublicStore × Download
  download_link now ip l s = elim (find_document l.document_id s.ged.documents) [
    | none ↦ (s, missing)
    | some d ↦ download_found now ip l d s
  ]

  -- `download`
  unfoldable pub download_shared : ℕ → String → String → PublicStore → PublicStore × Download
  unfolding sharing_settings
  download_shared now ip token s =
      if not (is_token token) then (s, missing) else elim (find_link (hash token) s.links) [
        | none ↦ (s, missing)
        | some l ↦ download_link now ip l s
      ]

  abbrev pub new_link : ℕ → String → String → String → String → GedVersion → LinkBody → ShareLink
  new_link now fresh token user id v body = record {
    id = fresh;
    document_id = id;
    version_id = v.id;
    token_hash = hash token;
    created_by = user;
    expires_at = now + body.expires_in_days * 86400000;
    max_downloads = body.max_downloads;
    download_count = 0;
    last_access_at = none;
    revoked_at = none;
  }

  module _ (lower : String → String) (insensitive : String → String → Bool) where
    abbrev pub create_link :
        ℕ
        → String
        → String
        → String
        → String
        → GedVersion
        → LinkBody
        → PublicStore
        → PublicStore × ShareOutcome
    create_link now fresh token user id v body s =
        let l = new_link now fresh token user id v body in
        (
          record s {
            links = l ∷ s.links;
            ged = record s.ged { trail = ged_entry user "document.share.create" id ∷ s.ged.trail };
          },
          shared l,
        )

    -- `share`
    unfoldable pub share_link :
        ℕ
        → String
        → String
        → String
        → List String
        → String
        → LinkBody
        → PublicStore
        → PublicStore × ShareOutcome
    unfolding sharing_settings visible_document
    share_link now fresh token user groups id body s =
        elim (visible_document lower insensitive now groups id s.ged) [
          | none ↦ (s, hidden)
          | some d ↦
              if not (sharing_settings s.sharing).enabled
              then (s, disabled)
              else if not (may lower insensitive now groups d edit s.ged)
                  || not (may lower insensitive now groups d download s.ged)
              then (s, hidden)
              else if not d.is_published || d.sensitive
              then (s, not_sharable)
              else if ltb (sharing_settings s.sharing).max_days body.expires_in_days
              then (s, too_long)
              else elim (clean_version id body.version_id s.ged) [
                | none ↦ (s, not_sharable)
                | some v ↦
                    if is_mip v.object_key
                    then (s, not_sharable)
                    else create_link now fresh token user id v body s
              ]
        ]

    -- `revoke`
    unfoldable pub revoke_link :
        ℕ → String → List String → String → String → PublicStore → PublicStore × GedOutcome Bool
    unfolding visible_document
    revoke_link now user groups id share_id s =
        elim (visible_document lower insensitive now groups id s.ged) [
          | none ↦ (s, not_found)
          | some d ↦
              if not (may lower insensitive now groups d edit s.ged)
              then (s, not_found)
              else let t : PublicStore = record s {
                links = update_where (live_link share_id id) (end_link now) s.links;
              } in
                if count_where (live_link share_id id) s.links == 1
                then (
                  record t {
                    ged = record s.ged {
                      trail = ged_entry user "document.share.revoke" id ∷ s.ged.trail;
                    };
                  },
                  done true,
                )
                else (t, not_found)
        ]
