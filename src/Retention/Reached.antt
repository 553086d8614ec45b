-- ===== src/Retention/Reached.antt =====
-- Retention over time: the operations of apps/api/src/governance.controller.ts, ged-worker.ts and
-- the trash of controllers.ts one after the other, and who signed for a document that is gone.
use isms_portal.Base.{
  ℕ, String, ◌≡◌, refl, inl, inr, Bool, true, false, none, some, List, [], ◌∷◌, map, Memᴰ, arith,
  str_eq, Bool-cases, is_some, str_eq_iff, any, includes, All, All_of_mem, All-mono, Distinct,
}
use isms_portal.Retention.{
  Policy, RetainedDocument, RetentionStore, RetentionBody, Action, save_retention,
  retention_decision, Destruction, destroyed, is_settled,
}
use isms_portal.Retention.Destroy.{flag_due, execute_destructions, restore_from_trash}
use isms_portal.Retention.Signed.{is_destroyed, AreTwo, IsOrderly, ends, IsBuried}
use isms_portal.Retention.Decided.{IsSafeStore, retention_decision-IsSafe}
use isms_portal.Retention.Saved.{save_retention-IsSafe}
use isms_portal.Retention.Flagged.{flag_due-IsSafe}
use isms_portal.Retention.Run.{execute_destructions-IsSafe, restore_from_trash-IsSafe}

module _ (lower : String → String) where
  -- A new policy has a new identifier; the storage may throw or not, each time anew.
  pub data Step : RetentionStore → RetentionStore → Type 0 where
    saves :
        (now : ℕ) (fresh fresh_approval : String) (sent : Bool) (user : String)
        (body : RetentionBody) {s : RetentionStore}
        → includes (map Policy.id s.policies) fresh ≡ false
        → Step s (save_retention lower now fresh fresh_approval sent user body s).0
    decides :
        (now : ℕ) (user id : String) (action : Action) (reason : String) {s : RetentionStore}
        → Step s (retention_decision now user id action reason s).0
    flags : (now : ℕ) {s : RetentionStore} → Step s (flag_due now s).0
    runs :
        (removes : String → Bool) (now : ℕ) {s : RetentionStore}
        → Step s (execute_destructions removes now s).0
    restores : (user id : String) {s : RetentionStore} → Step s (restore_from_trash user id s).0

  pub data Reach (s : RetentionStore) : RetentionStore → Type 0 where
    here : Reach s s
    next : {t u : RetentionStore} → Reach s t → Step t u → Reach s u

  Step-IsSafe : {s t : RetentionStore} → Step s t → IsSafeStore s → IsSafeStore t
  Step-IsSafe (saves now fresh fresh_approval sent user body {s} new) h =
      save_retention-IsSafe lower now fresh fresh_approval sent user body s new h
  Step-IsSafe (decides now user id action reason {s}) h =
      retention_decision-IsSafe now user id action reason s h
  Step-IsSafe (flags now {s}) h = flag_due-IsSafe now s h
  Step-IsSafe (runs removes now {s}) h = execute_destructions-IsSafe removes now s h
  Step-IsSafe (restores user id {s}) h = restore_from_trash-IsSafe user id s h

  Reach-IsSafe : {s t : RetentionStore} → IsSafeStore s → Reach s t → IsSafeStore t
  Reach-IsSafe h here = h
  Reach-IsSafe h (next r st) = Step-IsSafe st (Reach-IsSafe h r)

  abbrev pub IsAlive : RetainedDocument → Type 0
  IsAlive d = d.destroyed_at ≡ none

  fresh-IsSafe :
      (s : RetentionStore)
      → s.policies ≡ []
      → Distinct (map RetainedDocument.id s.documents)
      → All IsAlive s.documents
      → IsSafeStore s
  fresh-IsSafe s none_yet u alive = record {
    distinct_documents = u;
    distinct_policies = rw none_yet tt;
    orderly = rw none_yet tt;
    buried =
        All-mono IsAlive (IsBuried s.policies) s.documents (λ d a dead. absurd (ground arith))
          alive;
  }

  destroyed_settled : (st : Destruction) → is_destroyed st ≡ true → is_settled st ≡ true
  destroyed_settled destroyed h = refl
  destroyed_settled _ h = ground arith

  witness_of :
      (id : String) (policies : List Policy)
      → any (ends id) policies ≡ true
      → All IsOrderly policies
      → (p : Policy) × Memᴰ p policies × (p.document_id ≡ id) × AreTwo p
  witness_of id [] there h = absurd (ground arith)
  witness_of id (x ∷ xs) there (o, h) = elim (Bool-cases (ends id x)) [
    | inl t ↦
        let same : x.document_id ≡ id = (str_eq_iff x.document_id id).0 (ground arith) in
        (x, Memᴰ.head refl, same, o.signed (destroyed_settled x.status (ground arith)))
    | inr t ↦
        let (p, m, same, two) = witness_of id xs (ground arith) h in (p, Memᴰ.tail m, same, two)
  ]

  -- Start without a retention policy, with documents under distinct identifiers, none of them
  -- destroyed. After any sequence of saved policies (each new one under a new identifier),
  -- decisions, runs of both jobs of the worker, whatever the storage does, and restores from the
  -- trash: a document that was destroyed is still in the trash, and a policy for it carries the
  -- names of two administrators, of the one who asked for the destruction and of the one who
  -- approved it, which are not the same name.
  pub destroyed_by_two :
      (s t : RetentionStore) (d : RetainedDocument)
      → s.policies ≡ []
      → Distinct (map RetainedDocument.id s.documents)
      → All IsAlive s.documents
      → Reach s t
      → Memᴰ d t.documents
      → is_some d.destroyed_at ≡ true
      → (is_some d.deleted_at ≡ true)
        × ((p : Policy) × Memᴰ p t.policies
            × (p.document_id ≡ d.id)
            × ((a : String) × (b : String) × (p.requested_by ≡ some a)
                × (p.approved_by ≡ some b)
                × (str_eq a b ≡ false)))
  destroyed_by_two s t d none_yet u alive r m dead =
      let safe = Reach-IsSafe (fresh-IsSafe s none_yet u alive) r in
      let (gone, there) = All_of_mem (IsBuried t.policies) t.documents d safe.buried m dead in
      (gone, witness_of d.id t.policies there safe.orderly)
