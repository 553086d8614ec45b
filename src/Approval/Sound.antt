-- ===== src/Approval/Sound.antt =====
-- An invariant of the requests under `require`, `decide` and `execute`.
use isms_portal.Base.{
  ℕ, String, ◌≡◌, refl, ◌⊎◌, inl, inr, Bool, true, false, ◌&&◌, Option, none, some, List, [], ◌∷◌,
  map, Memᴰ, arith, str_eq, Bool-cases, Option-cases, includes, All, Distinct, All-update_where₂,
  map-update_where, mem_of_find, mem-filter, mem-order_by, unique_of_mem, mem-update_where,
}
use isms_portal.Access.Roles.{is_admin_identity}
use mathlib.Core.Path.{subst}
use isms_portal.Approval.{
  ApprovalStatus, pending, approved, rejected, executed, is_pending, is_approved, Approval,
  ApprovalStore, Target, is_request, is_alone, granted, decision_of, find_approval, first, settle,
  approved_later, record_decision, approved_request, pending_request, require, decide, execute,
}

module _ (lower : String → String) where
  -- Undecided requests name no approver; the others name one who is not the requester.
  abbrev pub DecidedBy : ApprovalStatus → Approval → Type 0
  DecidedBy pending a = a.approved_by ≡ none
  DecidedBy _ a =
      (who : String) × (a.approved_by ≡ some who)
      × (str_eq (lower a.requested_by) (lower who) ≡ false)

  abbrev pub HasApprover : Approval → Type 0
  HasApprover a = DecidedBy a.status a

  pub record IsSound (s : ApprovalStore) : Type 0 where
    pub distinct : Distinct (map Approval.id s.approvals)
    pub signed : All HasApprover s.approvals

  mem_of_first : {A : Type 0} (xs : List A) (a : A) → first xs ≡ some a → Memᴰ a xs
  mem_of_first [] a h = absurd (ground arith)
  mem_of_first (x ∷ xs) a h = Memᴰ.head (ground arith)

  -- What a request is that lets its requester go ahead.
  pub granted_request :
      (now : ℕ) (fresh : String) (sent : Bool) (user : String) (t : Target) (reason id : String)
      (s : ApprovalStore)
      → (require lower now fresh sent user t reason s).1 ≡ granted id
      → ((require lower now fresh sent user t reason s).0 ≡ s)
        × ((is_alone t s ≡ true)
            ⊎ ((a : Approval) × Memᴰ a s.approvals
                × (a.id ≡ id)
                × (a.status ≡ approved)
                × (is_request t user a ≡ true)))
  unfolding require
  granted_request now fresh sent user t reason id s h = elim (Bool-cases (is_alone t s)) [
    | inl alone ↦ (ground arith, inl alone)
    | inr second ↦ elim (Option-cases (approved_request t user s)) [
      | inr (a, found) ↦
          let (m, fits) =
            mem-filter (λ a. is_request t user a && is_approved a.status) s.approvals a
              (mem-order_by approved_later _ a (mem_of_first _ a found)) in
          (ground arith, inr (a, m, ground arith, ground arith, ground arith))
      | inl nothing ↦ elim (Option-cases (pending_request t user s)) [
        | inr (a, found) ↦ absurd (ground arith)
        | inl fresh_one ↦ absurd (ground arith)
      ]
    ]
  ]

  -- The requirement leaves the decided requests alone, and adds at most an undecided one.
  pub require-IsSound :
      (now : ℕ) (fresh : String) (sent : Bool) (user : String) (t : Target) (reason : String)
      (s : ApprovalStore)
      → includes (map Approval.id s.approvals) fresh ≡ false
      → IsSound s
      → IsSound (require lower now fresh sent user t reason s).0
  unfolding require
  require-IsSound now fresh sent user t reason s new h = elim (Bool-cases (is_alone t s)) [
    | inl alone ↦ rw alone h
    | inr second ↦ elim (Option-cases (approved_request t user s)) [
      | inr (a, found) ↦ rw (second, found) h
      | inl nothing ↦ elim (Option-cases (pending_request t user s)) [
        | inr (a, found) ↦ rw (second, nothing, found) h
        | inl none_waiting ↦
            rw (second, nothing, none_waiting)
              (record { distinct = (new, h.distinct); signed = (refl, h.signed) })
      ]
    ]
  ]

  decision_of_status :
      (text : Option String) (status : ApprovalStatus)
      → decision_of text ≡ some status
      → (status ≡ approved) ⊎ (status ≡ rejected)
  decision_of_status none status h = absurd (ground arith)
  decision_of_status (some text) status h = ground arith

  -- What a decision is that is recorded; any other call of `decide` leaves everything as it was.
  pub decide_cases :
      (now : ℕ) (user : String) (groups : List String) (id : String) (text : Option String)
      (s : ApprovalStore)
      → ((decide lower now user groups id text s).0 ≡ s)
        ⊎ ((a : Approval) × (status : ApprovalStatus) × (decide lower now user groups id text s
              ≡ record_decision lower now user status a s)
            × (find_approval id s ≡ some a)
            × (a.status ≡ pending)
            × (decision_of text ≡ some status)
            × (str_eq (lower a.requested_by) (lower user) ≡ false)
            × (is_admin_identity groups ≡ true))
  unfolding decide
  decide_cases now user groups id text s = elim (Bool-cases (is_admin_identity groups)) [
    | inr plain ↦ inl (ground arith)
    | inl admin ↦ elim (Option-cases (decision_of text)) [
      | inl bad ↦ inl (rw (admin, bad))
      | inr (status, wanted) ↦ elim (Option-cases (find_approval id s)) [
        | inl missing ↦ inl (rw (admin, wanted, missing))
        | inr (a, found) ↦ elim (Bool-cases (is_pending a.status)) [
          | inr done ↦ inl (rw (admin, wanted, found, done))
          | inl waiting ↦ elim (Bool-cases (str_eq (lower a.requested_by) (lower user))) [
            | inl own ↦ inl (rw (admin, wanted, found, waiting, own))
            | inr other ↦ inr (
              a,
              status,
              rw (admin, wanted, found, waiting, other),
              found,
              ground arith,
              wanted,
              other,
              admin,
            )
          ]
        ]
      ]
    ]
  ]

  settled :
      (now : ℕ) (user : String) (status : ApprovalStatus) (a x : Approval)
      → (status ≡ approved) ⊎ (status ≡ rejected)
      → str_eq (lower a.requested_by) (lower user) ≡ false
      → x ≡ a
      → HasApprover (settle lower now user status x)
  settled now user pending a x h other same = absurd (ground arith)
  settled now user approved a x h other same = (user, refl, rw same other)
  settled now user rejected a x h other same = (user, refl, rw same other)
  settled now user executed a x h other same = absurd (ground arith)

  record_decision-IsSound :
      (now : ℕ) (user id : String) (status : ApprovalStatus) (a : Approval) (s : ApprovalStore)
      → find_approval id s ≡ some a
      → (status ≡ approved) ⊎ (status ≡ rejected)
      → str_eq (lower a.requested_by) (lower user) ≡ false
      → IsSound s
      → IsSound (record_decision lower now user status a s).0
  record_decision-IsSound now user id status a s found accepted other h = record {
    distinct =
        rw (map-update_where Approval.id _ (settle lower now user status) s.approvals (λ x. refl))
          h.distinct;
    signed =
        All-update_where₂ HasApprover (λ x. str_eq (Approval.id x) a.id ≡ true → x ≡ a)
          (λ b. str_eq (Approval.id b) a.id && is_pending b.status) (settle lower now user status)
          s.approvals
          (λ x only signed hit. settled now user status a x accepted other (only (ground arith)))
          (unique_of_mem Approval.id s.approvals a h.distinct (mem_of_find _ s.approvals a found))
          h.signed;
  }

  pub decide-IsSound :
      (now : ℕ) (user : String) (groups : List String) (id : String) (text : Option String)
      (s : ApprovalStore)
      → IsSound s
      → IsSound (decide lower now user groups id text s).0
  decide-IsSound now user groups id text s h = elim (decide_cases now user groups id text s) [
    | inl same ↦ rw same h
    | inr (a, status, same, found, waiting, wanted, other, admin) ↦ rw same (
        record_decision-IsSound now user id status a s found (decision_of_status text status wanted)
          other h)
  ]

  executed_signed :
      (x : Approval)
      → x.status ≡ approved
      → HasApprover x
      → HasApprover (record x { status = executed })
  executed_signed x h k = subst (λ st. DecidedBy st x) h k

  pub execute-IsSound :
      (a : Approval) (s : ApprovalStore)
      → Memᴰ a s.approvals
      → a.status ≡ approved
      → IsSound s
      → IsSound (execute a.id s)
  unfolding execute
  execute-IsSound a s m granted_one h = elim (Bool-cases (str_eq a.id "")) [
    | inl nameless ↦ rw nameless h
    | inr named ↦ rw named (record {
      distinct =
          rw
            (map-update_where Approval.id _ (λ x. record x { status = executed }) s.approvals
              (λ x. refl))
            h.distinct;
      signed =
          All-update_where₂ HasApprover (λ x. str_eq (Approval.id x) a.id ≡ true → x ≡ a)
            (λ b. str_eq (Approval.id b) a.id) (λ x. record x { status = executed }) s.approvals
            (λ x only signed hit. executed_signed x (rw (only hit) granted_one) signed)
            (unique_of_mem Approval.id s.approvals a h.distinct m) h.signed;
    })
  ]

  pub goes_ahead-IsSound :
      (now : ℕ) (fresh : String) (sent : Bool) (user : String) (t : Target) (reason id : String)
      (s : ApprovalStore)
      → (require lower now fresh sent user t reason s).1 ≡ granted id
      → is_alone t s ≡ false
      → IsSound s
      → IsSound (execute id s)
  goes_ahead-IsSound now fresh sent user t reason id s h second k =
      elim ((granted_request now fresh sent user t reason id s h).1) [
        | inl alone ↦ absurd (ground arith)
        | inr (a, m, named, status, fits) ↦ rw (← named) (execute-IsSound a s m status k)
      ]

  -- A request that is not pending is never touched by a decision.
  pub decide_final :
      (now : ℕ) (user : String) (groups : List String) (id : String) (text : Option String)
      (s : ApprovalStore) (b : Approval)
      → Memᴰ b s.approvals
      → is_pending b.status ≡ false
      → Memᴰ b (decide lower now user groups id text s).0.approvals
  decide_final now user groups id text s b m h = elim (decide_cases now user groups id text s) [
    | inl same ↦ rw same m
    | inr (a, status, same, found, waiting, wanted, other, admin) ↦
        rw same (mem-update_where _ (settle lower now user status) s.approvals b m (ground arith))
  ]
