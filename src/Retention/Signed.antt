-- ===== src/Retention/Signed.antt =====
-- Destruction is signed by two: what every operation of a retention policy keeps, for
-- `saveRetention` and `retentionDecision` of apps/api/src/governance.controller.ts.
use isms_portal.Base.{
  String, ◌≡◌, inl, inr, Bool, true, false, ◌&&◌, some, List, [], ◌∷◌, map, arith, str_eq,
  Bool-cases, is_some, any, update_where, All, Distinct, All-update_where₂, map-update_where,
}
use isms_portal.Retention.{
  destroyed, Policy, RetainedDocument, Destruction, is_settled, is_requested, for_document,
}

abbrev pub is_destroyed : Destruction → Bool
is_destroyed destroyed = true
is_destroyed _ = false

-- Two administrators with different names stand on the policy.
abbrev pub AreTwo : Policy → Type 0
AreTwo p =
    (a : String) × (b : String) × (p.requested_by ≡ some a)
    × (p.approved_by ≡ some b)
    × (str_eq a b ≡ false)

pub record IsOrderly (p : Policy) : Type 0 where
  pub asked : is_requested p.status ≡ true → (a : String) × (p.requested_by ≡ some a)
  pub signed : is_settled p.status ≡ true → AreTwo p

abbrev pub ends : String → Policy → Bool
ends id p = for_document id p && is_destroyed p.status

abbrev pub IsBuried : List Policy → RetainedDocument → Type 0
IsBuried policies d =
    is_some d.destroyed_at ≡ true
    → (is_some d.deleted_at ≡ true) × (any (ends d.id) policies ≡ true)

pub record IsSafe (documents : List RetainedDocument) (policies : List Policy) : Type 0 where
  pub distinct_documents : Distinct (map RetainedDocument.id documents)
  pub distinct_policies : Distinct (map Policy.id policies)
  pub orderly : All IsOrderly policies
  pub buried : All (IsBuried policies) documents

any-update_where :
    (e q : Policy → Bool) (f : Policy → Policy) (xs : List Policy)
    → All (λ x. q x ≡ true → e x ≡ true → e (f x) ≡ true) xs
    → any e xs ≡ true
    → any e (update_where q f xs) ≡ true
any-update_where e q f [] h k = k
any-update_where e q f (x ∷ xs) (h, hs) k = elim (Bool-cases (e x)) [
  | inl here ↦ elim (Bool-cases (q x)) [ inl t ↦ rw (t, h t here) | inr t ↦ rw (t, here) ]
  | inr other ↦
      let rest = any-update_where e q f xs hs (ground arith) in
      elim (Bool-cases (q x)) [ inl t ↦ ground arith | inr t ↦ ground arith ]
]

-- An update of policies that keeps their identifiers, keeps each orderly, and leaves those of
-- destroyed documents destroyed.
pub update_where-IsSafe :
    (documents : List RetainedDocument) (policies : List Policy) (q : Policy → Bool)
    (f : Policy → Policy)
    → ((x : Policy) → Policy.id (f x) ≡ x.id)
    → All (λ x. q x ≡ true → IsOrderly x → IsOrderly (f x)) policies
    → All
        (λ d.
          is_some (RetainedDocument.destroyed_at d) ≡ true
          → All (λ x. q x ≡ true → ends d.id x ≡ true → ends d.id (f x) ≡ true) policies)
        documents
    → IsSafe documents policies
    → IsSafe documents (update_where q f policies)
update_where-IsSafe documents policies q f same tidy last h = record {
  distinct_documents = h.distinct_documents;
  distinct_policies = rw (map-update_where Policy.id q f policies same) h.distinct_policies;
  orderly =
      All-update_where₂ IsOrderly (λ x. q x ≡ true → IsOrderly x → IsOrderly (f x)) q f policies
        (λ x k o hit. k hit o) tidy h.orderly;
  buried = each documents last h.buried;
}
  where
    each :
        (ds : List RetainedDocument)
        → All
            (λ d.
              is_some (RetainedDocument.destroyed_at d) ≡ true
              → All (λ x. q x ≡ true → ends d.id x ≡ true → ends d.id (f x) ≡ true) policies)
            ds
        → All (IsBuried policies) ds
        → All (IsBuried (update_where q f policies)) ds
    each [] k b = tt
    each (d ∷ ds) (k, ks) (b, bs) = (
      λ dead.
          let (gone, left) = b dead in
          (gone, any-update_where (ends d.id) q f policies (k dead) left),
      each ds ks bs,
    )

-- Where the rows that change are not those of a destruction that is done.
pub update_open-IsSafe :
    (documents : List RetainedDocument) (policies : List Policy) (q : Policy → Bool)
    (f : Policy → Policy)
    → ((x : Policy) → Policy.id (f x) ≡ x.id)
    → All (λ x. q x ≡ true → IsOrderly x → IsOrderly (f x)) policies
    → All (λ x. q x ≡ true → is_destroyed x.status ≡ false) policies
    → IsSafe documents policies
    → IsSafe documents (update_where q f policies)
update_open-IsSafe documents policies q f same tidy still h =
    update_where-IsSafe documents policies q f same tidy (each documents) h
  where
    rows :
        (id : String) (xs : List Policy)
        → All (λ x. q x ≡ true → is_destroyed x.status ≡ false) xs
        → All (λ x. q x ≡ true → ends id x ≡ true → ends id (f x) ≡ true) xs
    rows id [] k = tt
    rows id (x ∷ xs) (k, ks) =
        ((λ hit e. let open_one = k hit in absurd (ground arith)), rows id xs ks)

    each :
        (ds : List RetainedDocument)
        → All
            (λ d.
              is_some (RetainedDocument.destroyed_at d) ≡ true
              → All (λ x. q x ≡ true → ends d.id x ≡ true → ends d.id (f x) ≡ true) policies)
            ds
    each [] = tt
    each (d ∷ ds) = ((λ dead. rows d.id policies still), each ds)
