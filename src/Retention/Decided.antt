-- ===== src/Retention/Decided.antt =====
-- `retentionDecision` of apps/api/src/governance.controller.ts keeps the two signatures of a
-- destruction.
use isms_portal.Base.{
  ℕ, String, ◌≡◌, refl, ◌⊎◌, inl, inr, true, false, some, arith, str_eq, Bool-cases, Option-cases,
  str_eq_iff, update_where, All, find_sound, All-mono, mem_of_find, unique_of_mem,
}
use isms_portal.Retention.{
  Destruction, kept, due, requested, approved, rejected, destroying, destroyed, Policy,
  RetentionStore, Action, request, approve, reject, is_requested, has_id, find_policy,
  request_destruction, sign_destruction, is_running, is_name, retention_decision, is_settled,
  decide_action, update_policy,
}
use isms_portal.Retention.Signed.{is_destroyed, IsOrderly, IsSafe, update_open-IsSafe}

abbrev pub IsSafeStore : RetentionStore → Type 0
IsSafeStore s = IsSafe s.documents s.policies

unsettled : (st : Destruction) → is_settled st ≡ false → is_destroyed st ≡ false
unsettled kept h = refl
unsettled due h = refl
unsettled requested h = refl
unsettled approved h = absurd (ground arith)
unsettled rejected h = refl
unsettled destroying h = refl
unsettled destroyed h = absurd (ground arith)

waiting_open : (st : Destruction) → is_requested st ≡ true → is_destroyed st ≡ false
waiting_open requested h = refl
waiting_open destroyed h = absurd (ground arith)
waiting_open _ h = ground arith

request-IsOrderly :
    (now : ℕ) (user reason : String) (x : Policy)
    → IsOrderly (request_destruction now user reason x)
request-IsOrderly now user reason x = record {
  asked = λ e. (user, refl);
  signed = λ e. absurd (ground arith);
}

reject-IsOrderly :
    (now : ℕ) (user : String) (x : Policy) → IsOrderly (sign_destruction now user rejected x)
reject-IsOrderly now user x = record {
  asked = λ e. absurd (ground arith);
  signed = λ e. absurd (ground arith);
}

approve-IsOrderly :
    (now : ℕ) (user : String) (p x : Policy)
    → x ≡ p
    → is_requested p.status ≡ true
    → is_name p.requested_by user ≡ false
    → IsOrderly x
    → IsOrderly (sign_destruction now user approved x)
approve-IsOrderly now user p x e waiting other o = record {
  asked = λ e. absurd (ground arith);
  signed = λ k.
      let (a, by) = o.asked (rw e waiting) in
      let by_p : p.requested_by ≡ some a = rw (← e) by in (a, user, by, refl, rw by_p at other);
}

module _ (s : RetentionStore) (p : Policy) (h : IsSafeStore s)
    (only : All (λ x. str_eq (Policy.id x) p.id ≡ true → x ≡ p) s.policies) where
  -- An update of the policy that was found.
  one-IsSafe :
      (f : Policy → Policy)
      → ((x : Policy) → Policy.id (f x) ≡ x.id)
      → ((x : Policy) → x ≡ p → IsOrderly x → IsOrderly (f x))
      → is_destroyed p.status ≡ false
      → IsSafe s.documents (update_where (has_id p.id) f s.policies)
  one-IsSafe f same tidy alive =
      update_open-IsSafe s.documents s.policies (has_id p.id) f same
        (All-mono (λ x. str_eq (Policy.id x) p.id ≡ true → x ≡ p)
          (λ x. has_id p.id x ≡ true → IsOrderly x → IsOrderly (f x)) s.policies
          (λ x k hit o. tidy x (k hit) o) only)
        (All-mono (λ x. str_eq (Policy.id x) p.id ≡ true → x ≡ p)
          (λ x. has_id p.id x ≡ true → is_destroyed x.status ≡ false) s.policies
          (λ x k hit. rw (k hit) alive) only)
        h

abbrev pub updated : String → String → String → (Policy → Policy) → RetentionStore → RetentionStore
updated user action id f s = (update_policy user action id f s).0

module _ (now : ℕ) (user reason : String) (p : Policy) (s : RetentionStore) where
  -- What a decision does: nothing, or one of three updates.
  decide_cases :
      (action : Action)
      → ((decide_action now user action reason p s).0 ≡ s)
        ⊎ ((word : String) × (f : Policy → Policy) × ((decide_action now user action reason p s).0
              ≡ updated user word p.id f s)
            × ((x : Policy) → Policy.id (f x) ≡ x.id)
            × ((x : Policy) → x ≡ p → IsOrderly x → IsOrderly (f x))
            × (is_destroyed p.status ≡ false))
  decide_cases request = elim (Bool-cases (is_settled p.status)) [
    | inl t ↦ inl (rw t refl)
    | inr t ↦ elim (Bool-cases (is_running now p.retention_until)) [
      | inl u ↦ inl (rw (t, u) refl)
      | inr u ↦ inr (
        "retention-destruction.request",
        request_destruction now user reason,
        rw (t, u) refl,
        λ x. refl,
        λ x e o. request-IsOrderly now user reason x,
        unsettled p.status t,
      )
    ]
  ]
  decide_cases approve = elim (Bool-cases (is_requested p.status)) [
    | inr t ↦ inl (rw t refl)
    | inl t ↦ elim (Bool-cases (is_name p.requested_by user)) [
      | inl u ↦ inl (rw (t, u) refl)
      | inr u ↦ inr (
        "retention-destruction.approve",
        sign_destruction now user approved,
        rw (t, u) refl,
        λ x. refl,
        λ x e o. approve-IsOrderly now user p x e t u o,
        waiting_open p.status t,
      )
    ]
  ]
  decide_cases reject = elim (Bool-cases (is_requested p.status)) [
    | inr t ↦ inl (rw t refl)
    | inl t ↦ inr (
      "retention-destruction.reject",
      sign_destruction now user rejected,
      rw t refl,
      λ x. refl,
      λ x e o. reject-IsOrderly now user x,
      waiting_open p.status t,
    )
  ]

decision_cases :
    (now : ℕ) (user id : String) (action : Action) (reason : String) (s : RetentionStore)
    → ((retention_decision now user id action reason s).0 ≡ s)
      ⊎ ((p : Policy) × (find_policy id s ≡ some p)
          × ((retention_decision now user id action reason s).0
              ≡ (decide_action now user action reason p s).0))
unfolding retention_decision
decision_cases now user id action reason s = elim (Option-cases (find_policy id s)) [
  | inl missing ↦ inl (rw (retention_decision, missing) refl)
  | inr (p, found) ↦ elim (Bool-cases p.legal_hold) [
    | inl held ↦ inl (rw (retention_decision, found, held) refl)
    | inr loose ↦ inr (p, found, rw (retention_decision, found, loose) refl)
  ]
]

pub retention_decision-IsSafe :
    (now : ℕ) (user id : String) (action : Action) (reason : String) (s : RetentionStore)
    → IsSafeStore s
    → IsSafeStore (retention_decision now user id action reason s).0
retention_decision-IsSafe now user id action reason s h =
    elim (decision_cases now user id action reason s) [
      | inl same ↦ rw same h
      | inr (p, found, same) ↦
          let named : p.id ≡ id = (str_eq_iff p.id id).0 (find_sound _ s.policies p found) in
          let only : All (λ x. str_eq (Policy.id x) p.id ≡ true → x ≡ p) s.policies =
            unique_of_mem Policy.id s.policies p h.distinct_policies
              (mem_of_find _ s.policies p found) in
          elim (decide_cases now user reason p s action) [
            | inl still ↦ rw (same, still) h
            | inr (word, f, changed, keys, tidy, alive) ↦
                rw (same, changed) (one-IsSafe s p h only f keys tidy alive)
          ]
    ]
