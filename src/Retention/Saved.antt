-- ===== src/Retention/Saved.antt =====
-- `saveRetention` of apps/api/src/governance.controller.ts keeps the two signatures of a destruction.
use isms_portal.Base.{
  ℕ, String, ◌≡◌, refl, ◌⊎◌, inl, inr, Bool, true, false, not, ◌&&◌, ◌||◌, List, [], ◌∷◌, map,
  arith, str_eq, Bool-cases, is_some, is_none, str_eq_iff, str_eq_self, any, update_where, includes,
  All, All-mono, Distinct, All-trivial,
}
use isms_portal.Approval.{ApprovalStore, Requirement, granted, approval_required}
use isms_portal.Retention.{
  Policy, RetainedDocument, RetentionStore, RetentionBody, for_document, rewrite_policy, new_policy,
  after_gate, is_there, is_known, save_retention,
}
use isms_portal.Retention.Signed.{IsOrderly, ends, IsBuried, IsSafe, update_where-IsSafe}
use isms_portal.Retention.Decided.{IsSafeStore}

rewrite-IsOrderly :
    (now : ℕ) (body : RetentionBody) (x : Policy)
    → IsOrderly x
    → IsOrderly (rewrite_policy now body x)
rewrite-IsOrderly now body x o = elim (Bool-cases body.legal_hold) [
  | inl held ↦
      rw held (record { asked = λ e. absurd (ground arith); signed = λ e. absurd (ground arith) })
  | inr loose ↦ rw loose (record { asked = o.asked; signed = o.signed })
]

rewrite-id :
    (now : ℕ) (body : RetentionBody) (x : Policy) → Policy.id (rewrite_policy now body x) ≡ x.id
rewrite-id now body x = elim (Bool-cases body.legal_hold) [ inl t ↦ rw t refl | inr t ↦ rw t refl ]

abbrev at_document : String → RetainedDocument → Bool
at_document id d = str_eq (RetainedDocument.id d) id

-- A document that is there is not one of those that were destroyed.
buried_elsewhere :
    (id : String) (policies : List Policy) (ds : List RetainedDocument)
    → any (λ d. str_eq (RetainedDocument.id d) id && is_none d.deleted_at) ds ≡ true
    → Distinct (map RetainedDocument.id ds)
    → All (IsBuried policies) ds
    → All (λ d. is_some (RetainedDocument.destroyed_at d) ≡ true → str_eq d.id id ≡ false) ds
buried_elsewhere id policies [] there u h = tt
buried_elsewhere id policies (d ∷ ds) there (fresh, u) (b, bs) =
    elim (Bool-cases (at_document id d)) [
      | inr other ↦ ((λ dead. other), buried_elsewhere id policies ds (ground arith) u bs)
      | inl this ↦
          let same : d.id ≡ id = (str_eq_iff d.id id).0 this in
          let gone : All (λ x. at_document id x ≡ false) ds = elsewhere ds (rw same at fresh) in
          let alive : is_none d.deleted_at ≡ true = here ds (ground arith) gone in
          (
            (λ dead. let (deleted, left) = b dead in absurd (ground arith)),
            All-mono (λ x. at_document id x ≡ false)
                (λ x. is_some (RetainedDocument.destroyed_at x) ≡ true → str_eq x.id id ≡ false) ds
                (λ x k dead. k) gone,
          )
    ]
  where
    elsewhere :
        (xs : List RetainedDocument)
        → includes (map RetainedDocument.id xs) id ≡ false
        → All (λ x. at_document id x ≡ false) xs
    elsewhere [] k = tt
    elsewhere (x ∷ xs) k = (ground arith, elsewhere xs (ground arith))

    here :
        (xs : List RetainedDocument)
        → is_none d.deleted_at
            || any (λ x. at_document id x && is_none (RetainedDocument.deleted_at x)) xs
          ≡ true
        → All (λ x. at_document id x ≡ false) xs
        → is_none d.deleted_at ≡ true
    here [] k a = ground arith
    here (x ∷ xs) k (a, later) = here xs (ground arith) later

-- `saveRetention` leaves the policies, or rewrites that of a document that is there, or adds one.
save_cases :
    (lower : String → String) (now : ℕ) (fresh fresh_approval : String) (sent : Bool)
    (user : String) (body : RetentionBody) (s : RetentionStore)
    → let t : RetentionStore = (save_retention lower now fresh fresh_approval sent user body s).0 in
      (t.documents ≡ s.documents)
      × ((t.policies ≡ s.policies)
          ⊎ ((is_there body.document_id s ≡ true)
              × ((t.policies
                    ≡ update_where
                        (for_document body.document_id)
                        (rewrite_policy now body)
                        s.policies)
                  ⊎ (t.policies ≡ new_policy now fresh body ∷ s.policies))))
unfolding save_retention
save_cases lower now fresh fresh_approval sent user body s =
    elim (Bool-cases (is_there body.document_id s)) [
      | inr missing ↦ rw (save_retention, missing) (refl, inl refl)
      | inl there ↦ elim (Bool-cases (not body.legal_hold && is_none body.retention_until)) [
        | inl endless ↦ rw (save_retention, there, endless) (refl, inl refl)
        | inr dated ↦ elim (Bool-cases (is_known body.document_id s)) [
          | inr first ↦ rw (save_retention, there, dated, first) (refl, inr (refl, inr refl))
          | inl known ↦ rw (save_retention, there, dated, known) (gate _)
        ]
      ]
    ]
  where
    gate :
        (answer : ApprovalStore × Requirement)
        → let t : RetentionStore = (after_gate now fresh user body s answer).0 in
          (t.documents ≡ s.documents)
          × ((t.policies ≡ s.policies)
              ⊎ ((true ≡ true)
                  × ((t.policies
                        ≡ update_where
                            (for_document body.document_id)
                            (rewrite_policy now body)
                            s.policies)
                      ⊎ (t.policies ≡ new_policy now fresh body ∷ s.policies))))
    gate (a, approval_required id) = (refl, inl refl)
    gate (a, granted id) = (refl, inr (refl, inl refl))

two_documents : (a b c : String) → str_eq a b ≡ false → str_eq c b ≡ true → str_eq c a ≡ true → ⊥
two_documents a b c apart cb ca =
    let eb : c ≡ b = (str_eq_iff c b).0 cb in
    let ea : c ≡ a = (str_eq_iff c a).0 ca in let self = str_eq_self b in cc

pub save_retention-IsSafe :
    (lower : String → String) (now : ℕ) (fresh fresh_approval : String) (sent : Bool)
    (user : String) (body : RetentionBody) (s : RetentionStore)
    → includes (map Policy.id s.policies) fresh ≡ false
    → IsSafeStore s
    → IsSafeStore (save_retention lower now fresh fresh_approval sent user body s).0
save_retention-IsSafe lower now fresh fresh_approval sent user body s new h =
    let (docs, change) = save_cases lower now fresh fresh_approval sent user body s in
    elim change [
      | inl same ↦ rw (docs, same) h
      | inr (there, inl rewritten) ↦ rw (docs, rewritten) (rewritten-IsSafe there)
      | inr (there, inr added) ↦
          rw (docs, added)
            (record {
              distinct_documents = h.distinct_documents;
              distinct_policies = (new, h.distinct_policies);
              orderly = (
                record { asked = λ e. absurd (ground arith); signed = λ e. absurd (ground arith) },
                h.orderly,
              );
              buried =
                  All-mono (IsBuried s.policies) (IsBuried (new_policy now fresh body ∷ s.policies))
                    s.documents (λ d k dead. let (gone, left) = k dead in (gone, ground arith))
                    h.buried;
            })
    ]
  where
    rewritten-IsSafe :
        is_there body.document_id s ≡ true
        → IsSafe s.documents
            (update_where (for_document body.document_id) (rewrite_policy now body) s.policies)
    rewritten-IsSafe there =
        update_where-IsSafe s.documents s.policies (for_document body.document_id)
          (rewrite_policy now body) (rewrite-id now body)
          (All-mono (λ x. Unit {0}) _ s.policies (λ x u hit o. rewrite-IsOrderly now body x o)
            (All-trivial s.policies))
          (All-mono
            (λ d.
              is_some (RetainedDocument.destroyed_at d) ≡ true
              → str_eq d.id body.document_id ≡ false)
            _ s.documents (λ d k dead. kept_apart d (k dead))
            (buried_elsewhere body.document_id s.policies s.documents there h.distinct_documents
              h.buried))
          h
      where
        kept_apart :
            (d : RetainedDocument)
            → str_eq d.id body.document_id ≡ false
            → All
                (λ x.
                  for_document body.document_id x ≡ true
                  → ends d.id x ≡ true
                  → ends d.id (rewrite_policy now body x) ≡ true)
                s.policies
        kept_apart d apart =
            All-mono (λ x. Unit {0}) _ s.policies
              (λ x u hit e.
                absurd (two_documents d.id body.document_id x.document_id apart hit (ground arith)))
              (All-trivial s.policies)
