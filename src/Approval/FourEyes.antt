-- ===== src/Approval/FourEyes.antt =====
-- The steps of sensitive approvals, and who decides: `require`, `decide` and `execute` together.
use isms_portal.Base.{
  ℕ, String, ◌≡◌, inl, inr, Bool, true, false, Option, some, List, [], map, Memᴰ, arith, str_eq,
  Bool-cases, str_eq_iff, str_eq_self, includes, All_of_mem,
}
use mathlib.Core.Path.{subst}
use isms_portal.Approval.{
  approved, Approval, ApprovalStore, Target, is_request, is_alone, granted, require, decide,
  execute,
}
use isms_portal.Approval.Sound.{
  HasApprover, IsSound, granted_request, require-IsSound, decide-IsSound, goes_ahead-IsSound,
  DecidedBy,
}

module _ (lower : String → String) where
  -- What the application does with requests: an operation asks for its approval under a new
  -- identifier, an administrator decides, and an operation that was granted is executed.
  pub data Step : ApprovalStore → ApprovalStore → Type 0 where
    asks :
        (now : ℕ) (fresh : String) (sent : Bool) (user : String) (t : Target) (reason : String)
        {s : ApprovalStore}
        → includes (map Approval.id s.approvals) fresh ≡ false
        → Step s (require lower now fresh sent user t reason s).0
    decides :
        (now : ℕ) (user : String) (groups : List String) (id : String) (text : Option String)
        {s : ApprovalStore}
        → Step s (decide lower now user groups id text s).0
    goes_ahead :
        (now : ℕ) (fresh : String) (sent : Bool) (user : String) (t : Target) (reason id : String)
        {s : ApprovalStore}
        → (require lower now fresh sent user t reason s).1 ≡ granted id
        → Step s (execute id s)

  pub data Reach (s : ApprovalStore) : ApprovalStore → Type 0 where
    here : Reach s s
    next : {t u : ApprovalStore} → Reach s t → Step t u → Reach s u

  alone-IsSound :
      (now : ℕ) (fresh : String) (sent : Bool) (user : String) (t : Target) (reason id : String)
      (s : ApprovalStore)
      → (require lower now fresh sent user t reason s).1 ≡ granted id
      → is_alone t s ≡ true
      → IsSound lower s
      → IsSound lower (execute id s)
  unfolding require execute
  alone-IsSound now fresh sent user t reason id s h alone k =
      let nameless : "" ≡ id = ground arith in rw (← nameless, str_eq_self) k

  Step-IsSound : {s t : ApprovalStore} → Step s t → IsSound lower s → IsSound lower t
  Step-IsSound (asks now fresh sent user t reason {s} new) h =
      require-IsSound lower now fresh sent user t reason s new h
  Step-IsSound (decides now user groups id text {s}) h =
      decide-IsSound lower now user groups id text s h
  Step-IsSound (goes_ahead now fresh sent user t reason id {s} g) h =
      elim (Bool-cases (is_alone t s)) [
        | inl alone ↦ alone-IsSound now fresh sent user t reason id s g alone h
        | inr second ↦ goes_ahead-IsSound lower now fresh sent user t reason id s g second h
      ]

  pub Reach-IsSound : {s t : ApprovalStore} → IsSound lower s → Reach s t → IsSound lower t
  Reach-IsSound h here = h
  Reach-IsSound h (next r st) = Step-IsSound st (Reach-IsSound h r)

  signed_by :
      (user : String) (t : Target) (a : Approval)
      → is_request t user a ≡ true
      → a.status ≡ approved
      → HasApprover lower a
      → (who : String) × (a.approved_by ≡ some who) × (str_eq (lower user) (lower who) ≡ false)
  signed_by user t a fits status signed =
      let (who, by, other) = subst (λ st. DecidedBy lower st a) status signed in
      let same : a.requested_by ≡ user = (str_eq_iff a.requested_by user).0 (ground arith) in
      (who, by, rw (← same) other)

  -- Along any sequence of requests, decisions and executions from a table without requests, each
  -- request under a new identifier: where `require` lets an operation go ahead, and the exemption
  -- for a single administrator does not apply, there is an approved request of this user for this
  -- very operation and target, and the one who approved it has another name than the user, the
  -- case of letters ignored.
  pub four_eyes :
      (s t : ApprovalStore) (now : ℕ) (fresh : String) (sent : Bool) (user : String)
      (target : Target) (reason id : String)
      → s.approvals ≡ []
      → Reach s t
      → (require lower now fresh sent user target reason t).1 ≡ granted id
      → is_alone target t ≡ false
      → (a : Approval) × Memᴰ a t.approvals
        × (a.id ≡ id)
        × (is_request target user a ≡ true)
        × ((who : String) × (a.approved_by ≡ some who) × (str_eq (lower user) (lower who) ≡ false))
  four_eyes s t now fresh sent user target reason id none_yet r g second =
      let empty : IsSound lower s = record { distinct = rw none_yet tt; signed = rw none_yet tt } in
      elim ((granted_request lower now fresh sent user target reason id t g).1) [
        | inl alone ↦ absurd (ground arith)
        | inr (a, m, named, status, fits) ↦
            let signed =
              All_of_mem (HasApprover lower) t.approvals a (Reach-IsSound empty r).signed m in
            (a, m, named, fits, signed_by user target a fits status signed)
      ]
