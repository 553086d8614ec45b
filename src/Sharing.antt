-- ===== src/Sharing.antt =====
-- The sharing of sensitive documents: apps/api/src/sensitive-sharing.ts. A handler reads the clock
-- once, as `now`; `mails` holds the addresses of the mails that were sent, and `delivers` says
-- whether `sendSensitiveMail` reports one as sent. The depositors, the reminders and the lists are
-- in modules of their own.
pub mod Depositors
pub mod Reminders
pub mod Lists
pub mod Expiry
pub mod Live
use isms_portal.Base.{
  ℕ, ◌+◌, ◌*◌, String, Bool, true, not, ◌&&◌, Option, none, some, List, ◌∷◌, AuditEntry, ltb, leb,
  str_eq, if◌then◌else◌, is_none, any, find, update_where, ◌+++◌,
}
use isms_portal.Access.Roles.{preview, is_admin_identity}
use isms_portal.Access.Spaces.{Space, can}

-- `SensitiveDepositor`
pub record Depositor : Type 0 where
  pub id : String
  pub identity : String
  pub display_name : Option String
  pub added_by : String
  pub revoked_at : Option ℕ

-- `SensitiveShare`
pub record Share : Type 0 where
  pub id : String
  pub document_id : String
  pub recipient : String
  pub created_by : String
  pub created_at : ℕ
  pub expires_at : Option ℕ
  pub revoked_at : Option ℕ
  pub reminder_sent_at : Option ℕ

-- `Document`: the columns that these handlers read.
pub record SensitiveDocument : Type 0 where
  pub id : String
  pub slug : String
  pub space_id : String
  pub category_id : Option String
  pub title : Option String
  pub deleted_at : Option ℕ
  pub sensitive : Bool
  pub published : Bool

pub record ShareStore : Type 0 where
  pub depositors : List Depositor
  pub shares : List Share
  pub documents : List SensitiveDocument
  pub spaces : List Space
  pub mails : List String
  pub trail : List AuditEntry

-- `shareDurations`
pub data Duration : Type 0 where
  hours_24 days_7 days_30 days_90 lifetime custom : Duration

-- `ShareDto`, its date as `new Date` reads it: `none` for a date that is missing or not finite.
pub record ShareBody : Type 0 where
  pub recipient : String
  pub duration : Duration
  pub expires_at : Option ℕ

abbrev pub day : ℕ
day = 86400000

abbrev pub max_custom_days : ℕ
max_custom_days = 365 * 5

abbrev pub reminder_window : ℕ
reminder_window = 2 * day

-- `resolveExpiry`: `none` for the `BadRequestException`, else the date or null.
unfoldable pub resolve_expiry : ℕ → Duration → Option ℕ → Option (Option ℕ)
resolve_expiry now lifetime date = some none
resolve_expiry now custom none = none
resolve_expiry now custom (some date) =
    if leb date now
    then none
    else if ltb (now + max_custom_days * day) date
    then none
    else some (some date)
resolve_expiry now hours_24 date = some (some (now + 1 * day))
resolve_expiry now days_7 date = some (some (now + 7 * day))
resolve_expiry now days_30 date = some (some (now + 30 * day))
resolve_expiry now days_90 date = some (some (now + 90 * day))

-- `expiresAt: null` or `expiresAt: { gt: now }`
abbrev pub in_time : ℕ → Option ℕ → Bool
in_time now none = true
in_time now (some t) = ltb now t

pub data ShareState : Type 0 where
  active expired revoked : ShareState

-- The `state` of `shareRow`.
unfoldable pub share_state : ℕ → Share → ShareState
share_state now s =
    if not (is_none s.revoked_at)
    then revoked
    else if in_time now s.expires_at
    then active
    else expired

-- How a handler ends.
pub data Outcome {ℓ} (A : Type ℓ) : Type ℓ where
  done : A → Outcome A
  forbidden not_found invalid_recipient own_access bad_expiry : Outcome A

-- The rows that the `updateMany` of `share` revokes.
abbrev pub is_live : String → String → Share → Bool
is_live document_id recipient s =
    str_eq s.document_id document_id && (str_eq s.recipient recipient && is_none s.revoked_at)

abbrev pub revoke_at : ℕ → Share → Share
revoke_at now s = record s { revoked_at = some now }

abbrev pub find_share : String → ShareStore → Option Share
find_share id s = find (λ x. str_eq (Share.id x) id) s.shares

abbrev pub audit_entry : String → String → String → AuditEntry
audit_entry user action resource = record {
  actor = user;
  action = action;
  resource = resource;
  result = "success";
}

-- Both handlers named `revoke`, behind the check of the caller.
unfoldable pub revoke_share : ℕ → String → String → ShareStore → ShareStore × Outcome Bool
revoke_share now user id s = elim (find_share id s) [
  | none ↦ (s, not_found)
  | some share ↦ (
    record s {
      shares =
          update_where (λ x. str_eq (Share.id x) share.id && is_none x.revoked_at) (revoke_at now)
            s.shares;
      trail =
          audit_entry user "sensitive.share.revoke" ("document:" +++ share.document_id) ∷ s.trail;
    },
    done true,
  )
]

-- `normalize` is `normalizeIdentity`: `trim` and `toLowerCase`.
module _ (normalize : String → String) where
  -- `activeShareWhere`
  abbrev pub active_where : ℕ → String → Share → Bool
  active_where now identity x =
      str_eq x.recipient (normalize identity) && (is_none x.revoked_at && in_time now x.expires_at)

  -- `isSensitiveDepositor`
  unfoldable pub is_sensitive_depositor : String → ShareStore → Bool
  is_sensitive_depositor identity s =
      any (λ d. str_eq (Depositor.identity d) (normalize identity) && is_none d.revoked_at)
        s.depositors

  -- `hasSensitiveShare`
  unfoldable pub has_sensitive_share : ℕ → String → String → ShareStore → Bool
  has_sensitive_share now document_id identity s =
      any (λ x. str_eq (Share.document_id x) document_id && active_where now identity x) s.shares

  -- `revoke` of `SensitiveController`.
  unfoldable pub revoke_own : ℕ → String → String → ShareStore → ShareStore × Outcome Bool
  unfolding is_sensitive_depositor revoke_share
  revoke_own now user id s =
      if not (is_sensitive_depositor user s) then (s, forbidden) else revoke_share now user id s

  module _ (lower : String → String) (insensitive : String → String → Bool)
      (has_space : String → Bool) (delivers : String → Bool) where
    -- `sharableDocument`
    unfoldable pub sharable_document :
        ℕ → String → List String → String → ShareStore → Outcome SensitiveDocument
    unfolding is_sensitive_depositor
    sharable_document now user groups id s =
        if not (is_sensitive_depositor user s)
        then forbidden
        else elim (find
            (λ d.
              str_eq (SensitiveDocument.id d) id
              && (is_none d.deleted_at && (d.sensitive && d.published)))
            s.documents) [
              | none ↦ not_found
              | some d ↦
                  if can lower insensitive now s.spaces groups d.space_id preview
                    (some d.category_id)
                  then done d
                  else not_found
            ]

    -- The transaction of `share`, and what follows it.
    abbrev pub create_share :
        ℕ → String → String → String → String → Option ℕ → ShareStore → ShareStore × Outcome Share
    create_share now fresh user document_id recipient expires_at s =
        let share : Share = record {
          id = fresh;
          document_id = document_id;
          recipient = recipient;
          created_by = user;
          created_at = now;
          expires_at = expires_at;
          revoked_at = none;
          reminder_sent_at = none;
        } in
        (
          record s {
            shares = share ∷ update_where (is_live document_id recipient) (revoke_at now) s.shares;
            mails = if delivers recipient then recipient ∷ s.mails else s.mails;
            trail =
                audit_entry user "sensitive.share.create" ("document:" +++ document_id) ∷ s.trail;
          },
          done share,
        )

    abbrev pub share_checked :
        ℕ → String → String → String → ShareBody → ShareStore → ShareStore × Outcome Share
    share_checked now fresh user id body s =
        if has_space (normalize body.recipient)
        then (s, invalid_recipient)
        else if str_eq (normalize body.recipient) (normalize user)
        then (s, own_access)
        else elim (resolve_expiry now body.duration body.expires_at) [
          | none ↦ (s, bad_expiry)
          | some expires_at ↦ create_share now fresh user id (normalize body.recipient) expires_at s
        ]

    -- What `share` does with the answer of `sharableDocument`.
    abbrev pub share_from :
        ℕ
        → String
        → String
        → String
        → ShareBody
        → ShareStore
        → Outcome SensitiveDocument
        → ShareStore × Outcome Share
    share_from now fresh user id body s (done d) = share_checked now fresh user id body s
    share_from now fresh user id body s forbidden = (s, forbidden)
    share_from now fresh user id body s not_found = (s, not_found)
    share_from now fresh user id body s invalid_recipient = (s, invalid_recipient)
    share_from now fresh user id body s own_access = (s, own_access)
    share_from now fresh user id body s bad_expiry = (s, bad_expiry)

    -- `share`
    unfoldable pub share :
        ℕ
        → String
        → String
        → List String
        → String
        → ShareBody
        → ShareStore
        → ShareStore × Outcome Share
    unfolding sharable_document resolve_expiry
    share now fresh user groups id body s =
        share_from now fresh user id body s (sharable_document now user groups id s)
