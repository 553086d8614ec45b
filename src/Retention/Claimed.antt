-- ===== src/Retention/Claimed.antt =====
-- The writes of `executeApprovedDestructions` of apps/api/src/ged-worker.ts keep the two signatures
-- of a destruction.
use isms_portal.Base.{
  ℕ, String, ◌≡◌, refl, inl, inr, Bool, true, false, Option, none, some, List, [], ◌∷◌, map, arith,
  str_eq, Bool-cases, is_some, str_eq_iff, str_eq_self, any, update_where, count_where, All,
  All-mono, Distinct, All-update_where, map-update_where, All-update_where_if, All-trivial,
  All-when_one,
}
use isms_portal.Retention.{
  Destruction, approved, destroying, destroyed, Policy, RetainedDocument, RetentionStore,
  is_settled, is_requested, is_approved, is_destroying, has_id,
}
use isms_portal.Retention.Destroy.{
  with_status, is_claimable, claim, bury, finish, is_stale, recover, is_ready,
}
use isms_portal.Retention.Signed.{
  is_destroyed, IsOrderly, ends, IsBuried, IsSafe, update_open-IsSafe,
}
use isms_portal.Retention.Decided.{IsSafeStore}

settled-IsOrderly :
    (now : ℕ) (st : Destruction) (x : Policy)
    → is_requested st ≡ false
    → is_settled x.status ≡ true
    → IsOrderly x
    → IsOrderly (with_status now st x)
settled-IsOrderly now st x quiet h o = record {
  asked = λ e. absurd (ground arith);
  signed = λ e. o.signed h;
}

approved_settled :
    (st : Destruction) → is_approved st ≡ true → (is_settled st ≡ true) × (is_destroyed st ≡ false)
approved_settled approved h = (refl, refl)
approved_settled destroyed h = absurd (ground arith)
approved_settled _ h = ground arith

destroying_settled :
    (st : Destruction)
    → is_destroying st ≡ true
    → (is_settled st ≡ true) × (is_destroyed st ≡ false)
destroying_settled destroying h = (refl, refl)
destroying_settled destroyed h = absurd (ground arith)
destroying_settled _ h = ground arith

pub recover-IsSafe : (now : ℕ) (s : RetentionStore) → IsSafeStore s → IsSafeStore (recover now s)
recover-IsSafe now s h =
    update_open-IsSafe s.documents s.policies (is_stale now) (with_status now approved) (λ x. refl)
      (All-mono (λ x. Unit {0}) _ s.policies
        (λ x u hit o.
          settled-IsOrderly now approved x refl ((destroying_settled x.status (ground arith)).0) o)
        (All-trivial s.policies))
      (All-mono (λ x. Unit {0}) _ s.policies
        (λ x u hit. (destroying_settled x.status (ground arith)).1) (All-trivial s.policies))
      h

pub claim-IsSafe :
    (now : ℕ) (p : Policy) (s : RetentionStore) → IsSafeStore s → IsSafeStore (claim now p s)
claim-IsSafe now p s h =
    update_open-IsSafe s.documents s.policies (is_claimable p.id) (with_status now destroying)
      (λ x. refl)
      (All-mono (λ x. Unit {0}) _ s.policies
        (λ x u hit o.
          settled-IsOrderly now destroying x refl ((approved_settled x.status (ground arith)).0) o)
        (All-trivial s.policies))
      (All-mono (λ x. Unit {0}) _ s.policies
        (λ x u hit. (approved_settled x.status (ground arith)).1) (All-trivial s.policies))
      h

-- Once a policy is claimed, it is being destroyed, and it is there.
abbrev AllClaimed : String → String → List Policy → Type 0
AllClaimed id document policies =
    All (λ x. has_id id x ≡ true → (is_destroying x.status ≡ true) × (x.document_id ≡ document))
      policies

both {ℓ κ} :
    {A : Type 0} (P : A → Type ℓ) (Q : A → Type κ) (xs : List A)
    → All P xs
    → All Q xs
    → All (λ x. P x × Q x) xs
both P Q [] h k = tt
both P Q (x ∷ xs) (h, hs) (k, ks) = ((h, k), both P Q xs hs ks)

pub claimed :
    (now : ℕ) (p : Policy) (policies : List Policy)
    → Distinct (map Policy.id policies)
    → count_where (is_claimable p.id) policies ≡ 1
    → All (λ x. has_id p.id x ≡ true → x.document_id ≡ p.document_id) policies
    → AllClaimed p.id p.document_id
        (update_where (is_claimable p.id) (with_status now destroying) policies)
claimed now p policies u one same =
    All-update_where_if
      (λ x.
        has_id p.id x ≡ true → (is_destroying x.status ≡ true) × (x.document_id ≡ p.document_id))
      (λ x.
        (has_id p.id x ≡ true → is_ready x ≡ true)
        × (has_id p.id x ≡ true → x.document_id ≡ p.document_id))
      (is_claimable p.id) (with_status now destroying) policies (λ x (k, d) hit e. (refl, d e))
      (λ x (k, d) miss e. let ready = k e in absurd (ground arith))
      (both _ _ policies (All-when_one Policy.id p.id is_ready policies u one) same)

pub claimed_there :
    (now : ℕ) (id : String) (policies : List Policy)
    → count_where (is_claimable id) policies ≡ 1
    → any (has_id id) (update_where (is_claimable id) (with_status now destroying) policies) ≡ true
claimed_there now id [] one = absurd (ground arith)
claimed_there now id (x ∷ xs) one = elim (Bool-cases (is_claimable id x)) [
  | inl t ↦ rw t (ground arith)
  | inr t ↦ rw t (ground (arith, claimed_there now id xs (ground arith)))
]

pub finished_there :
    (now : ℕ) (id document : String) (policies : List Policy)
    → AllClaimed id document policies
    → any (has_id id) policies ≡ true
    → any (ends document) (update_where (has_id id) (finish now) policies) ≡ true
finished_there now id document [] k there = there
finished_there now id document (x ∷ xs) (k, ks) there = elim (Bool-cases (has_id id x)) [
  | inl t ↦ let (st, same) = k t in rw (t, same, str_eq_self) refl
  | inr t ↦ rw t (ground (arith, finished_there now id document xs ks (ground arith)))
]

finish-IsOrderly :
    (now : ℕ) (x : Policy) → is_settled x.status ≡ true → IsOrderly x → IsOrderly (finish now x)
finish-IsOrderly now x h o = record { asked = λ e. absurd (ground arith); signed = λ e. o.signed h }

pub finish-IsSafe :
    (now : ℕ) (id document : String) (documents : List RetainedDocument) (policies : List Policy)
    → AllClaimed id document policies
    → IsSafe documents policies
    → IsSafe documents (update_where (has_id id) (finish now) policies)
finish-IsSafe now id document documents policies k h =
    update_open-IsSafe documents policies (has_id id) (finish now) (λ x. refl)
      (All-mono
        (λ x. has_id id x ≡ true → (is_destroying x.status ≡ true) × (x.document_id ≡ document)) _
        policies (λ x c hit o. finish-IsOrderly now x ((destroying_settled x.status (c hit).0).0) o)
        k)
      (All-mono
        (λ x. has_id id x ≡ true → (is_destroying x.status ≡ true) × (x.document_id ≡ document)) _
        policies (λ x c hit. (destroying_settled x.status (c hit).0).1) k)
      h

deleted_now :
    (now : ℕ) (o : Option ℕ)
    → is_some (elim o as (λ x. Option ℕ) [ none ↦ some now | some t ↦ some t ]) ≡ true
deleted_now now none = refl
deleted_now now (some t) = refl

pub bury-IsSafe :
    (now : ℕ) (id : String) (deleted_at : Option ℕ) (documents : List RetainedDocument)
    (policies : List Policy)
    → any (ends id) policies ≡ true
    → IsSafe documents policies
    → IsSafe
        (update_where (λ d. str_eq (RetainedDocument.id d) id) (bury now deleted_at) documents)
        policies
bury-IsSafe now id deleted_at documents policies there h = record {
  distinct_documents =
      rw
        (map-update_where RetainedDocument.id (λ d. str_eq (RetainedDocument.id d) id)
          (bury now deleted_at) documents (λ d. refl))
        h.distinct_documents;
  distinct_policies = h.distinct_policies;
  orderly = h.orderly;
  buried =
      All-update_where (IsBuried policies) (λ d. str_eq (RetainedDocument.id d) id)
        (bury now deleted_at) documents
        (λ d b hit dead.
          let same : d.id ≡ id = (str_eq_iff d.id id).0 hit in
          (deleted_now now deleted_at, rw same there))
        h.buried;
}

-- The rows with the policy's identifier are of the policy's document.
abbrev pub IsNamed : List Policy → Policy → Type 0
IsNamed policies p = All (λ x. has_id p.id x ≡ true → x.document_id ≡ p.document_id) policies

pub update_where-IsNamed :
    (q : Policy → Bool) (now : ℕ) (st : Destruction) (policies ps : List Policy)
    → All (IsNamed policies) ps
    → All (IsNamed (update_where q (with_status now st) policies)) ps
update_where-IsNamed q now st policies ps h =
    All-mono (IsNamed policies) (IsNamed (update_where q (with_status now st) policies)) ps
      (λ p k.
        All-update_where (λ x. has_id p.id x ≡ true → x.document_id ≡ p.document_id) q
          (with_status now st) policies (λ x same hit. same) k)
      h

pub finish-IsNamed :
    (q : Policy → Bool) (now : ℕ) (policies ps : List Policy)
    → All (IsNamed policies) ps
    → All (IsNamed (update_where q (finish now) policies)) ps
finish-IsNamed q now policies ps h =
    All-mono (IsNamed policies) (IsNamed (update_where q (finish now) policies)) ps
      (λ p k.
        All-update_where (λ x. has_id p.id x ≡ true → x.document_id ≡ p.document_id) q (finish now)
          policies (λ x same hit. same) k)
      h
