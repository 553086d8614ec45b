-- ===== src/Retention.antt =====
-- Retention and destruction of documents: `saveRetention` and `retentionDecision` of
-- apps/api/src/governance.controller.ts, `flagDueRetentions` and `executeApprovedDestructions` of
-- ged-worker.ts. The storage of the files is the list of the keys that it holds; `removes` says
-- whether it removes an object or throws.
pub mod Destroy
pub mod Signed
pub mod Decided
pub mod Saved
pub mod Flagged
pub mod Claimed
pub mod Run
pub mod Reached
pub mod Held
pub mod Worked
pub mod Loop
pub mod Extended
use isms_portal.Base.{
  ℕ, String, Bool, true, false, not, ◌&&◌, Option, none, some, List, ◌∷◌, AuditEntry, ltb, str_eq,
  if◌then◌else◌, is_none, any, find, update_where, ◌+++◌,
}
use isms_portal.Approval.{
  ApprovalStore, Target, retention_change, Requirement, granted, approval_required, require,
  execute,
}

-- `destructionStatus`
pub data Destruction : Type 0 where
  kept due requested approved rejected destroying destroyed : Destruction

-- `RetentionPolicy`
pub record Policy : Type 0 where
  pub id : String
  pub document_id : String
  pub retention_until : Option ℕ
  pub legal_hold : Bool
  pub reason : String
  pub status : Destruction
  pub requested_by : Option String
  pub requested_at : Option ℕ
  pub approved_by : Option String
  pub approved_at : Option ℕ
  pub destroyed_at : Option ℕ
  pub updated_at : ℕ

-- `Document`: the columns that these functions read and write.
pub record RetainedDocument : Type 0 where
  pub id : String
  pub is_archived : Bool
  pub deleted_at : Option ℕ
  pub destroyed_at : Option ℕ
  pub locked_by : Option String
  pub lock_expires_at : Option ℕ

-- `DocumentVersion`: the files of a version.
pub record FileVersion : Type 0 where
  pub id : String
  pub document_id : String
  pub stored_file_id : String
  pub distributed_file_id : Option String

-- `StoredFile`
pub record StoredFile : Type 0 where
  pub id : String
  pub object_key : String
  pub purged_at : Option ℕ

-- The rows that go with a document are held as the identifiers of their documents.
pub record RetentionStore : Type 0 where
  pub policies : List Policy
  pub documents : List RetainedDocument
  pub versions : List FileVersion
  pub files : List StoredFile
  pub objects : List String
  pub contents : List String
  pub comments : List String
  pub subscriptions : List String
  pub links : List (String × String)
  pub approvals : ApprovalStore
  pub trail : List AuditEntry

-- `RetentionPolicyDto`, its reason trimmed.
pub record RetentionBody : Type 0 where
  pub document_id : String
  pub retention_until : Option ℕ
  pub legal_hold : Bool
  pub reason : String

-- `RetentionDecisionDto`
pub data Action : Type 0 where
  request approve reject : Action

pub data RetentionOutcome : Type 0 where
  saved not_found bad_request on_hold already_approved not_ended none_pending same_person :
      RetentionOutcome
  needs_approval : String → RetentionOutcome

abbrev pub entry_of : String → String → String → AuditEntry
entry_of user action resource = record {
  actor = user;
  action = action;
  resource = resource;
  result = "success";
}

abbrev pub is_settled : Destruction → Bool
is_settled approved = true
is_settled destroying = true
is_settled destroyed = true
is_settled _ = false

abbrev pub is_requested : Destruction → Bool
is_requested requested = true
is_requested _ = false

abbrev pub is_kept : Destruction → Bool
is_kept kept = true
is_kept _ = false

abbrev pub is_approved : Destruction → Bool
is_approved approved = true
is_approved _ = false

abbrev pub is_destroying : Destruction → Bool
is_destroying destroying = true
is_destroying _ = false

abbrev pub has_id : String → Policy → Bool
has_id id p = str_eq p.id id

abbrev pub for_document : String → Policy → Bool
for_document id p = str_eq p.document_id id

abbrev pub find_policy : String → RetentionStore → Option Policy
find_policy id s = find (has_id id) s.policies

-- The `update` of the upsert.
abbrev pub rewrite_policy : ℕ → RetentionBody → Policy → Policy
rewrite_policy now body p =
    let q : Policy = record p {
      retention_until = body.retention_until;
      legal_hold = body.legal_hold;
      reason = body.reason;
      updated_at = now;
    } in
    if body.legal_hold
    then record q {
      status = kept;
      requested_by = none;
      requested_at = none;
      approved_by = none;
      approved_at = none;
    }
    else q

abbrev pub new_policy : ℕ → String → RetentionBody → Policy
new_policy now fresh body = record {
  id = fresh;
  document_id = body.document_id;
  retention_until = body.retention_until;
  legal_hold = body.legal_hold;
  reason = body.reason;
  status = kept;
  requested_by = none;
  requested_at = none;
  approved_by = none;
  approved_at = none;
  destroyed_at = none;
  updated_at = now;
}

-- `requireDocument`
abbrev pub is_there : String → RetentionStore → Bool
is_there id s = any (λ d. str_eq (RetainedDocument.id d) id && is_none d.deleted_at) s.documents

-- The identifier of the row that is written.
abbrev pub saved_id : String → String → RetentionStore → String
saved_id fresh document_id s = elim (find (for_document document_id) s.policies) [
  | none ↦ fresh
  | some p ↦ Policy.id p
]

-- The part of `saveRetention` behind the gate, whose answer is `approval`.
abbrev pub write_policy :
    ℕ → String → String → RetentionBody → Bool → String → RetentionStore → RetentionStore
write_policy now fresh user body known approval s = record s {
  policies =
      if known
      then update_where (for_document body.document_id) (rewrite_policy now body) s.policies
      else new_policy now fresh body ∷ s.policies;
  approvals = execute approval s.approvals;
  trail =
      entry_of user "retention-policy.save"
        ("retention-policy:" +++ saved_id fresh body.document_id s)
      ∷ s.trail;
}

-- What `saveRetention` does with the answer of the gate.
abbrev pub after_gate :
    ℕ
    → String
    → String
    → RetentionBody
    → RetentionStore
    → ApprovalStore × Requirement
    → RetentionStore × RetentionOutcome
after_gate now fresh user body s (a, approval_required id) =
    (record s { approvals = a }, needs_approval id)
after_gate now fresh user body s (a, granted id) =
    (write_policy now fresh user body true id (record s { approvals = a }), saved)

abbrev pub is_known : String → RetentionStore → Bool
is_known document_id s = any (for_document document_id) s.policies

module _ (lower : String → String) where
  abbrev pub change_target : RetentionBody → Target
  change_target body = record {
    operation = retention_change;
    target_type = "DOCUMENT";
    target_id = body.document_id;
  }

  -- `saveRetention`. `fresh` is the identifier of a new policy, and `fresh_approval` that of a new
  -- request for an approval.
  unfoldable pub save_retention :
      ℕ
      → String
      → String
      → Bool
      → String
      → RetentionBody
      → RetentionStore
      → RetentionStore × RetentionOutcome
  save_retention now fresh fresh_approval sent user body s =
      if not (is_there body.document_id s)
      then (s, not_found)
      else if not body.legal_hold && is_none body.retention_until
      then (s, bad_request)
      else if is_known body.document_id s
      then after_gate now fresh user body s
          (require lower now fresh_approval sent user (change_target body) body.reason s.approvals)
      else (write_policy now fresh user body false "" s, saved)

-- The three updates of `retentionDecision`.
abbrev pub request_destruction : ℕ → String → String → Policy → Policy
request_destruction now user reason p = record p {
  status = requested;
  requested_by = some user;
  requested_at = some now;
  reason = reason;
  approved_by = none;
  approved_at = none;
  updated_at = now;
}

abbrev pub sign_destruction : ℕ → String → Destruction → Policy → Policy
sign_destruction now user status p = record p {
  status = status;
  approved_by = some user;
  approved_at = some now;
  updated_at = now;
}

abbrev pub is_running : ℕ → Option ℕ → Bool
is_running now none = false
is_running now (some t) = ltb now t

abbrev pub is_name : Option String → String → Bool
is_name none user = false
is_name (some name) user = str_eq name user

abbrev pub update_policy :
    String
    → String
    → String
    → (Policy → Policy)
    → RetentionStore
    → RetentionStore × RetentionOutcome
update_policy user action id f s = (
  record s {
    policies = update_where (has_id id) f s.policies;
    trail = entry_of user action ("retention-policy:" +++ id) ∷ s.trail;
  },
  saved,
)

abbrev pub decide_action :
    ℕ → String → Action → String → Policy → RetentionStore → RetentionStore × RetentionOutcome
decide_action now user request reason p s =
    if is_settled p.status
    then (s, already_approved)
    else if is_running now p.retention_until
    then (s, not_ended)
    else update_policy user "retention-destruction.request" p.id
        (request_destruction now user reason) s
decide_action now user approve reason p s =
    if not (is_requested p.status)
    then (s, none_pending)
    else if is_name p.requested_by user
    then (s, same_person)
    else update_policy user "retention-destruction.approve" p.id
        (sign_destruction now user approved) s
decide_action now user reject reason p s =
    if not (is_requested p.status)
    then (s, none_pending)
    else update_policy user "retention-destruction.reject" p.id (sign_destruction now user rejected)
        s

-- `retentionDecision`
unfoldable pub retention_decision :
    ℕ → String → String → Action → String → RetentionStore → RetentionStore × RetentionOutcome
retention_decision now user id action reason s = elim (find_policy id s) [
  | none ↦ (s, not_found)
  | some p ↦ if p.legal_hold then (s, on_hold) else decide_action now user action reason p s
]
