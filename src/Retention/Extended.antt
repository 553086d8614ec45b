-- ===== src/Retention/Extended.antt =====
-- A retention that is extended: `saveRetention` of apps/api/src/governance.controller.ts on a
-- document whose destruction is approved, and the run of `executeApprovedDestructions` after it.
use isms_portal.Base.{
  ℕ, ◌≤◌, String, ◌≡◌, refl, sym, ap, ◌∙◌, inl, inr, Bool, true, false, not, ◌&&◌, some, map, Memᴰ,
  arith, Bool-cases, is_none, str_eq_self, length, filter, update_where, All_of_mem, Distinct,
  map-update_where, mem-filter, unique_of_mem, mem-update_where, take-all, mem-kept, All-tabulate,
  mem-updated, any_of_mem,
}
use isms_portal.Approval.{ApprovalStore, Requirement, granted, approval_required, require}
use isms_portal.Retention.{
  Destruction, approved, destroying, is_destroying, has_id, Policy, RetentionStore, RetentionBody,
  saved, for_document, rewrite_policy, is_there, is_known, after_gate, change_target,
  save_retention, is_approved,
}
use isms_portal.Retention.Destroy.{is_ready, is_stale, recover, with_status, execute_destructions}
use isms_portal.Retention.Worked.{IsGone}
use isms_portal.Retention.Loop.{ready-Ends}
use mathlib.Core.Path.{subst}

saved_known :
    (lower : String → String) (now : ℕ) (fresh fresh_approval : String) (sent : Bool)
    (user : String) (body : RetentionBody) (s : RetentionStore)
    → is_known body.document_id s ≡ true
    → (save_retention lower now fresh fresh_approval sent user body s).1 ≡ saved
    → (save_retention lower now fresh fresh_approval sent user body s).0.policies
      ≡ update_where (for_document body.document_id) (rewrite_policy now body) s.policies
unfolding save_retention
saved_known lower now fresh fresh_approval sent user body s known done =
    elim (Bool-cases (is_there body.document_id s)) [
      | inr missing ↦ absurd (ground arith)
      | inl there ↦ elim (Bool-cases (not body.legal_hold && is_none body.retention_until)) [
        | inl endless ↦ absurd (ground arith)
        | inr dated ↦
            let answer =
              require lower now fresh_approval sent user (change_target lower body) body.reason
                s.approvals in
            let same : save_retention lower now fresh fresh_approval sent user body s
                ≡ after_gate now fresh user body s answer =
              rw (save_retention, there, dated, known) refl in
            rw same (gate answer (rw same at done))
      ]
    ]
  where
    gate :
        (answer : ApprovalStore × Requirement)
        → (after_gate now fresh user body s answer).1 ≡ saved
        → (after_gate now fresh user body s answer).0.policies
          ≡ update_where (for_document body.document_id) (rewrite_policy now body) s.policies
    gate (a, approval_required id) h = absurd (ground arith)
    gate (a, granted id) h = refl

rewritten_id : (now : ℕ) (body : RetentionBody) (p : Policy) → (rewrite_policy now body p).id ≡ p.id
rewritten_id now body p = elim (Bool-cases body.legal_hold) [
  | inl held ↦ rw held refl
  | inr loose ↦ rw loose refl
]

-- The policy is saved with its signatures, and is ready for the worker as before.
still_ready :
    (lower : String → String) (now : ℕ) (fresh fresh_approval : String) (sent : Bool)
    (user : String) (body : RetentionBody) (s : RetentionStore) (p : Policy)
    → Memᴰ p s.policies
    → p.document_id ≡ body.document_id
    → is_approved p.status ≡ true
    → body.legal_hold ≡ false
    → (save_retention lower now fresh fresh_approval sent user body s).1 ≡ saved
    → (q : Policy) × Memᴰ q
        (save_retention lower now fresh fresh_approval sent user body s).0.policies
      × (q.id ≡ p.id)
      × (q.document_id ≡ p.document_id)
      × (q.retention_until ≡ body.retention_until)
      × (q.requested_by ≡ p.requested_by)
      × (q.approved_by ≡ p.approved_by)
      × (is_ready q ≡ true)
still_ready lower now fresh fresh_approval sent user body s p m same status loose done =
    let mine : for_document body.document_id p ≡ true = rw (same, str_eq_self) refl in
    let after =
      saved_known lower now fresh fresh_approval sent user body s
        (any_of_mem (for_document body.document_id) s.policies p m mine) done in
    (
      rewrite_policy now body p,
      rw after (
          mem-updated (for_document body.document_id) (rewrite_policy now body) s.policies p m
            mine),
      rw loose refl,
      rw loose refl,
      rw loose refl,
      rw loose refl,
      rw loose refl,
      rw (loose, status) refl,
    )

approved_not_destroying : (st : Destruction) → is_approved st ≡ true → is_destroying st ≡ false
approved_not_destroying approved h = refl
approved_not_destroying destroying h = absurd (ground arith)
approved_not_destroying _ h = ground arith

-- How many policies a run finds, without its limit of ten.
abbrev pub ready_count : ℕ → RetentionStore → ℕ
ready_count now s = length (filter is_ready (recover now s).policies)

-- A run of the worker on a store with at most ten policies that are ready, where the storage
-- removes every object, destroys the document of each of them.
run_destroys :
    (removes : String → Bool) (now : ℕ) (s : RetentionStore) (q : Policy)
    → ((key : String) → removes key ≡ true)
    → Distinct (map Policy.id s.policies)
    → Memᴰ q s.policies
    → is_ready q ≡ true
    → ready_count now s ≤ 10
    → IsGone q.id q.document_id q.retention_until (execute_destructions removes now s).0
      × ((k : ℕ) × ((execute_destructions removes now s).1 ≡ some k))
unfolding execute_destructions
run_destroys removes now s q works distinct m ready few =
    let read = recover now s in
    let waiting : is_destroying q.status ≡ false =
      approved_not_destroying q.status (ground arith) in
    let fresh : is_stale now q ≡ false = rw waiting refl in
    let there = mem-update_where (is_stale now) (with_status now approved) s.policies q m fresh in
    let ids =
      map-update_where Policy.id (is_stale now) (with_status now approved) s.policies (λ x. refl) in
    let apart : Distinct (map Policy.id read.policies) = subst Distinct (sym ids) distinct in
    let taken = take-all 10 (filter is_ready read.policies) few in
    let only =
      All-tabulate (λ x. has_id q.id x ≡ true → x ≡ q) (filter is_ready read.policies)
        (λ x k.
          All_of_mem (λ y. has_id q.id y ≡ true → y ≡ q) read.policies x
            (unique_of_mem Policy.id read.policies q apart there)
            (mem-filter is_ready read.policies x k).0) in
    rw taken (
      ready-Ends removes works now read q (filter is_ready read.policies) read 0 ready apart there
        only (mem-kept is_ready read.policies q there ready))

-- Where the destruction of a document is approved and its retention is then saved without a legal
-- hold, with whatever new end, the next run of the worker destroys the document all the same: it
-- is marked as destroyed, its policy too, with the new end of the retention. Each identifier of a
-- policy may occur once, the storage removes every object, and at most ten policies are ready for
-- the run.
pub extended_destroyed :
    (lower : String → String) (now : ℕ) (fresh fresh_approval : String) (sent : Bool)
    (user : String) (body : RetentionBody) (s : RetentionStore) (p : Policy)
    (removes : String → Bool) (later : ℕ)
    → Distinct (map Policy.id s.policies)
    → Memᴰ p s.policies
    → p.document_id ≡ body.document_id
    → is_approved p.status ≡ true
    → body.legal_hold ≡ false
    → (save_retention lower now fresh fresh_approval sent user body s).1 ≡ saved
    → ((key : String) → removes key ≡ true)
    → ready_count later (save_retention lower now fresh fresh_approval sent user body s).0 ≤ 10
    → IsGone p.id p.document_id body.retention_until
        (execute_destructions removes later
          (save_retention lower now fresh fresh_approval sent user body s).0).0
extended_destroyed lower now fresh fresh_approval sent user body s p removes later distinct m same
      status loose done works few =
    let after = (save_retention lower now fresh fresh_approval sent user body s).0 in
    let mine : for_document body.document_id p ≡ true = rw (same, str_eq_self) refl in
    let rows =
      saved_known lower now fresh fresh_approval sent user body s
        (any_of_mem (for_document body.document_id) s.policies p m mine) done in
    let ids : map Policy.id after.policies ≡ map Policy.id s.policies =
      ap (map Policy.id) rows
      ∙ map-update_where Policy.id (for_document body.document_id) (rewrite_policy now body)
          s.policies (rewritten_id now body) in
    let (q, there, id, document, until, by, approver, ready) =
      still_ready lower now fresh fresh_approval sent user body s p m same status loose done in
    let gone =
      (run_destroys removes later after q works (subst Distinct (sym ids) distinct) there ready
        few).0 in
    rw (id, document, until) at gone
