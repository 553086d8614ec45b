-- ===== src/Approval.antt =====
-- The approval of sensitive operations by a second administrator:
-- apps/api/src/sensitive-approval.service.ts and `ApprovalsController` of approvals.controller.ts.
-- Handlers read the clock once, as `now`; `fresh` is the identifier that the database gives a new
-- row, and `sent` says whether the queue of mails takes the job.
pub mod Sound
pub mod FourEyes
use isms_portal.Base.{
  ℕ, ◌+◌, String, Bool, true, false, not, ◌&&◌, Option, none, some, List, [], ◌∷◌, ◌++◌, map,
  UserNotification, AuditEntry, ltb, leb, str_eq, if◌then◌else◌, filter, find, take, update_where,
  count_where, order_by, ◌+++◌, unique,
}
use isms_portal.Access.Roles.{is_admin_identity}

pub data Operation : Type 0 where
  permanent_delete broad_privilege retention_change sensitive_export : Operation

pub data ApprovalStatus : Type 0 where
  pending approved rejected executed : ApprovalStatus

abbrev pub operation_text : Operation → String
operation_text permanent_delete = "PERMANENT_DELETE"
operation_text broad_privilege = "BROAD_PRIVILEGE"
operation_text retention_change = "RETENTION_CHANGE"
operation_text sensitive_export = "SENSITIVE_EXPORT"

abbrev pub is_pending : ApprovalStatus → Bool
is_pending pending = true
is_pending _ = false

abbrev pub is_approved : ApprovalStatus → Bool
is_approved approved = true
is_approved _ = false

-- `SensitiveOperationApproval`
pub record Approval : Type 0 where
  pub id : String
  pub operation : Operation
  pub target_type : String
  pub target_id : String
  pub requested_by : String
  pub reason : String
  pub status : ApprovalStatus
  pub approved_by : Option String
  pub approved_at : Option ℕ
  pub created_at : ℕ

-- `AdminAccount`: the columns that the service reads.
pub record AdminAccount : Type 0 where
  pub username : String
  pub active : Bool
  pub is_admin_role : Bool
  pub valid_from : Option ℕ
  pub valid_until : Option ℕ

pub record ApprovalStore : Type 0 where
  pub approvals : List Approval
  pub accounts : List AdminAccount
  pub active_admin_groups : ℕ
  pub notifications : List UserNotification
  pub jobs : List String
  pub trail : List AuditEntry

-- What the caller of `require` has to approve.
pub record Target : Type 0 where
  pub operation : Operation
  pub target_type : String
  pub target_id : String

abbrev same_operation : Operation → Operation → Bool
same_operation permanent_delete permanent_delete = true
same_operation broad_privilege broad_privilege = true
same_operation retention_change retention_change = true
same_operation sensitive_export sensitive_export = true
same_operation _ _ = false

-- The columns that both queries of `require` compare.
abbrev pub is_request : Target → String → Approval → Bool
is_request t user a =
    same_operation a.operation t.operation
    && (str_eq a.target_type t.target_type
        && (str_eq a.target_id t.target_id && str_eq a.requested_by user))

-- `orderBy: { approvedAt: "desc" }`, where the database puts a missing time first.
abbrev approved_later : Approval → Approval → Bool
approved_later a b = elim a.approved_at [
  | none ↦ true
  | some t ↦ elim b.approved_at [ none ↦ false | some u ↦ leb u t ]
]

abbrev pub first {ℓ} : {A : Type ℓ} → List A → Option A
first [] = none
first (x ∷ xs) = some x

-- The two queries of `require`.
abbrev pub approved_request : Target → String → ApprovalStore → Option Approval
approved_request t user s = first (
    order_by approved_later (filter (λ a. is_request t user a && is_approved a.status) s.approvals))

abbrev pub pending_request : Target → String → ApprovalStore → Option Approval
pending_request t user s = find (λ a. is_request t user a && is_pending a.status) s.approvals

abbrev may_sign_in : ℕ → AdminAccount → Bool
may_sign_in now account =
    account.active
    && (account.is_admin_role
        && ((elim account.valid_from [ none ↦ true | some t ↦ leb t now ])
            && (elim account.valid_until [ none ↦ true | some t ↦ ltb now t ])))

abbrev is_broad : Operation → Bool
is_broad broad_privilege = true
is_broad _ = false

-- The exemption of `require`: no second administrator or administrator group exists.
abbrev pub is_alone : Target → ApprovalStore → Bool
is_alone t s =
    is_broad t.operation
    && leb (count_where AdminAccount.active s.accounts + s.active_admin_groups) 1

-- How `require` ends: with the identifier for `execute`, or with the `ConflictException`.
pub data Requirement : Type 0 where
  granted : String → Requirement
  approval_required : String → Requirement

-- How `decide` ends.
pub data Decision : Type 0 where
  decided : Approval → Decision
  forbidden bad_request not_found already_decided own_request : Decision

-- `body.status`, if it is one of the two that are accepted.
abbrev pub decision_of : Option String → Option ApprovalStatus
decision_of none = none
decision_of (some text) =
    if str_eq text "APPROVED"
    then some approved
    else if str_eq text "REJECTED"
    then some rejected
    else none

-- `findUnique({ where: { id } })`
abbrev pub find_approval : String → ApprovalStore → Option Approval
find_approval id s = find (λ a. str_eq (Approval.id a) id) s.approvals

-- `lower` is `toLowerCase`.
module _ (lower : String → String) where
  -- `notifyApprovers`
  unfoldable pub notify_approvers : ℕ → Bool → Approval → ApprovalStore → ApprovalStore
  notify_approvers now sent a s =
      let identities =
        filter (λ identity. not (str_eq (lower identity) (lower a.requested_by)))
          (unique (map AdminAccount.username (filter (may_sign_in now) s.accounts))) in
      record s {
        notifications =
            map
              (λ identity. record {
                identity = identity;
                title = "Approval required";
                message = a.requested_by +++ " requested approval.";
                mandatory = true;
                resource_type = "sensitive-approval";
                resource_id = a.id;
              })
              identities
            ++ s.notifications;
        jobs = if sent then ("approval-" +++ a.id) ∷ s.jobs else s.jobs;
      }

  abbrev create_request :
      ℕ → String → Bool → String → Target → String → ApprovalStore → ApprovalStore × Requirement
  create_request now fresh sent user t reason s =
      let a : Approval = record {
        id = fresh;
        operation = t.operation;
        target_type = t.target_type;
        target_id = t.target_id;
        requested_by = user;
        reason = reason;
        status = pending;
        approved_by = none;
        approved_at = none;
        created_at = now;
      } in
      (
        notify_approvers now sent a (record s { approvals = a ∷ s.approvals }),
        approval_required fresh,
      )

  -- `require`
  unfoldable pub require :
      ℕ → String → Bool → String → Target → String → ApprovalStore → ApprovalStore × Requirement
  unfolding notify_approvers
  require now fresh sent user t reason s =
      if is_alone t s then (s, granted "") else elim (approved_request t user s) [
        | some a ↦ (s, granted a.id)
        | none ↦ elim (pending_request t user s) [
          | some a ↦ (s, approval_required a.id)
          | none ↦ create_request now fresh sent user t reason s
        ]
      ]

  -- The `update` of `decide`.
  abbrev pub settle : ℕ → String → ApprovalStatus → Approval → Approval
  settle now user status a = record a {
    status = status;
    approved_by = some user;
    approved_at = some now;
  }

  abbrev status_text : ApprovalStatus → String
  status_text approved = "APPROVED"
  status_text _ = "REJECTED"

  -- The part of `decide` behind its checks.
  abbrev pub record_decision :
      ℕ → String → ApprovalStatus → Approval → ApprovalStore → ApprovalStore × Decision
  record_decision now user status a s = (
    record s {
      approvals =
          update_where (λ b. str_eq (Approval.id b) a.id && is_pending b.status)
            (settle now user status) s.approvals;
      notifications =
          record {
            identity = a.requested_by;
            title = "Demande d’approbation traitée";
            message =
                operation_text a.operation +++ " : " +++ status_text status +++ " par " +++ user;
            mandatory = true;
            resource_type = "sensitive-approval";
            resource_id = a.id;
          }
          ∷ s.notifications;
      trail =
          record {
            actor = user;
            action = "sensitive-approval.decision";
            resource = "sensitive-approval:" +++ a.id;
            result = "success";
          }
          ∷ s.trail;
    },
    decided (settle now user status a),
  )

  -- `decide`
  unfoldable pub decide :
      ℕ → String → List String → String → Option String → ApprovalStore → ApprovalStore × Decision
  decide now user groups id body_status s =
      if not (is_admin_identity groups) then (s, forbidden) else elim (decision_of body_status) [
        | none ↦ (s, bad_request)
        | some status ↦ elim (find_approval id s) [
          | none ↦ (s, not_found)
          | some a ↦
              if not (is_pending a.status)
              then (s, already_decided)
              else if str_eq (lower a.requested_by) (lower user)
              then (s, own_request)
              else record_decision now user status a s
        ]
      ]

-- `execute`; the empty identifier stands for the exemption.
unfoldable pub execute : String → ApprovalStore → ApprovalStore
execute id s = if str_eq id "" then s else record s {
  approvals =
      update_where (λ a. str_eq (Approval.id a) id) (λ a. record a { status = executed })
        s.approvals;
}

-- `list`: the requests of a period, and whether the caller may decide each.
unfoldable pub list_approvals :
    (String → String)
    → String
    → List String
    → (Approval → Bool)
    → ApprovalStore
    → List (Approval × Bool)
list_approvals lower user groups in_period s =
    if not (is_admin_identity groups)
    then []
    else map (λ a. (a, not (str_eq (lower a.requested_by) (lower user))))
        (take 300 (
          order_by (λ a b. leb (Approval.created_at b) a.created_at)
            (filter in_period s.approvals)))
