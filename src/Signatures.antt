-- ===== src/Signatures.antt =====
-- The decisions on signature requests: `decide` and `cancel` of
-- apps/api/src/ged-sign-share.controller.ts, from the checks of the feature, of the document's
-- visibility and of its version on. A request holds its entries; `evidence` is the hash that
-- `decide` computes.
pub mod Settled
use isms_portal.Base.{
  ℕ, String, Bool, true, false, not, ◌&&◌, Option, none, some, List, ◌∷◌, UserNotification,
  AuditEntry, ◌==◌, str_eq, if◌then◌else◌, find, update_where, count_where, ◌+++◌,
}
use isms_portal.Access.Roles.{is_admin_identity}

pub data EntryStatus : Type 0 where
  pending signed declined : EntryStatus

pub data RequestStatus : Type 0 where
  opened completed refused cancelled : RequestStatus

-- `SignatureEntry`
pub record Entry : Type 0 where
  pub id : String
  pub signer : String
  pub status : EntryStatus
  pub decided_at : Option ℕ
  pub comment : Option String
  pub evidence_hash : Option String

-- `SignatureRequest`, with its entries.
pub record Request : Type 0 where
  pub id : String
  pub document_id : String
  pub requested_by : String
  pub status : RequestStatus
  pub completed_at : Option ℕ
  pub entries : List Entry

pub record SignatureStore : Type 0 where
  pub requests : List Request
  pub notifications : List UserNotification
  pub trail : List AuditEntry

-- `SignatureDecisionDto`, the comment trimmed and absent when empty.
pub record SignatureBody : Type 0 where
  pub sign : Bool
  pub consent : Bool
  pub comment : Option String

pub data SignatureOutcome : Type 0 where
  settled : EntryStatus → SignatureOutcome
  withdrawn bad_request not_found forbidden conflict : SignatureOutcome

abbrev pub is_pending : EntryStatus → Bool
is_pending pending = true
is_pending _ = false

abbrev pub is_opened : RequestStatus → Bool
is_opened opened = true
is_opened _ = false

abbrev pub decision_status : Bool → EntryStatus
decision_status true = signed
decision_status false = declined

abbrev pub find_open : String → String → SignatureStore → Option Request
find_open id document_id s =
    find (λ r. str_eq (Request.id r) id && (str_eq r.document_id document_id && is_opened r.status))
      s.requests

abbrev pub is_mine : String → Entry → Bool
is_mine me e = str_eq e.signer me && is_pending e.status

-- The `where` of the update.
abbrev pub is_entry : String → Entry → Bool
is_entry id e = str_eq e.id id && is_pending e.status

abbrev pub settle_entry : ℕ → String → SignatureBody → Entry → Entry
settle_entry now evidence body e = record e {
  status = decision_status body.sign;
  decided_at = some now;
  comment = body.comment;
  evidence_hash = some evidence;
}

abbrev pub remaining : List Entry → ℕ
remaining entries = count_where (λ e. is_pending (Entry.status e)) entries

-- `requestStatus`
abbrev pub status_after : Bool → List Entry → RequestStatus
status_after sign entries =
    if not sign then refused else if remaining entries == 0 then completed else opened

-- The request after the transaction of `decide`.
unfoldable pub settle_request : ℕ → String → SignatureBody → String → Request → Request
settle_request now evidence body entry_id r =
    let entries = update_where (is_entry entry_id) (settle_entry now evidence body) r.entries in
    let status = status_after body.sign entries in
    record r {
      entries = entries;
      status = if is_opened status then r.status else status;
      completed_at = if is_opened status then r.completed_at else some now;
    }

abbrev pub same_request : Request → Request → Bool
same_request r q = str_eq q.id r.id

abbrev is_completed : RequestStatus → Bool
is_completed completed = true
is_completed _ = false

abbrev notice : String → String → SignatureBody → Request → RequestStatus → UserNotification
notice document_id me body r status = record {
  identity = r.requested_by;
  title = if is_completed status then "Signatures terminées" else "Signature refusée";
  message = me +++ " : " +++ (if body.sign then "signé" else "refusé");
  mandatory = false;
  resource_type = "document";
  resource_id = document_id;
}

abbrev write_decision :
    ℕ
    → String
    → String
    → String
    → SignatureBody
    → Request
    → Entry
    → SignatureStore
    → SignatureStore × SignatureOutcome
write_decision now evidence document_id me body r e s =
    let entries = update_where (is_entry e.id) (settle_entry now evidence body) r.entries in
    let status = status_after body.sign entries in
    if not (count_where (is_entry e.id) r.entries == 1) then (s, conflict) else (
      record s {
        requests = update_where (same_request r) (settle_request now evidence body e.id) s.requests;
        notifications =
            if is_opened status
            then s.notifications
            else notice document_id me body r status ∷ s.notifications;
        trail =
            record {
              actor = me;
              action =
                  if body.sign then "document.signature.sign" else "document.signature.decline";
              resource = "document:" +++ document_id;
              result = "success";
            }
            ∷ s.trail;
      },
      settled (decision_status body.sign),
    )

-- `decide`
unfoldable pub decide_signature :
    (String → String)
    → ℕ
    → String
    → String
    → String
    → String
    → SignatureBody
    → SignatureStore
    → SignatureStore × SignatureOutcome
unfolding settle_request
decide_signature lower now evidence user document_id id body s =
    if body.sign && not body.consent then (s, bad_request) else elim (find_open id document_id s) [
      | none ↦ (s, not_found)
      | some r ↦ elim (find (is_mine (lower user)) r.entries) [
        | none ↦ (s, not_found)
        | some e ↦ write_decision now evidence document_id (lower user) body r e s
      ]
    ]

abbrev pub cancel_request : ℕ → Request → Request
cancel_request now r = record r { status = cancelled; completed_at = some now }

-- `cancel`
unfoldable pub cancel_signatures :
    (String → String)
    → ℕ
    → String
    → List String
    → String
    → String
    → SignatureStore
    → SignatureStore × SignatureOutcome
cancel_signatures lower now user groups document_id id s = elim (find_open id document_id s) [
  | none ↦ (s, not_found)
  | some r ↦
      if not (str_eq (lower r.requested_by) (lower user)) && not (is_admin_identity groups)
      then (s, forbidden)
      else (
        record s {
          requests = update_where (same_request r) (cancel_request now) s.requests;
          trail =
              record {
                actor = user;
                action = "document.signature.cancel";
                resource = "document:" +++ document_id;
                result = "success";
              }
              ∷ s.trail;
        },
        withdrawn,
      )
]
