-- ===== src/Sharing/Live.antt =====
-- The shares that are not revoked, and what they allow.
use isms_portal.Base.{
  ℕ, ◌≤◌, String, ◌≡◌, refl, sym, ap, ◌∙◌, ◌≢◌, ◌⊎◌, inl, inr, Bool, false, ◌&&◌, Option, none,
  List, [], ◌∷◌, arith, str_eq, Bool-cases, Option-cases, str_eq_iff, str_eq_self, any,
  update_where, count_where,
}
use isms_portal.Sharing.{
  Share, ShareStore, ShareBody, Outcome, done, forbidden, not_found, invalid_recipient, own_access,
  bad_expiry, in_time, is_live, revoke_at, resolve_expiry, SensitiveDocument, create_share,
  share_from, sharable_document, share, has_sensitive_share, active_where,
}

live_after :
    (now : ℕ) (d r : String) (xs : List Share)
    → any (is_live d r) (update_where (is_live d r) (revoke_at now) xs) ≡ false
live_after now d r [] = refl
live_after now d r (x ∷ xs) = elim (Bool-cases (is_live d r x)) [
  | inl e ↦ ground (arith, live_after now d r xs)
  | inr e ↦ ground (arith, live_after now d r xs)
]

-- Revoking the shares of one pair adds none for any pair.
live_fewer :
    (now : ℕ) (d r d' r' : String) (xs : List Share)
    → count_where (is_live d' r') (update_where (is_live d r) (revoke_at now) xs)
      ≤ count_where (is_live d' r') xs
live_fewer now d r d' r' [] = omega arith
live_fewer now d r d' r' (x ∷ xs) = elim (Bool-cases (is_live d r x)) [
  | inl e ↦ ground (arith, live_fewer now d r d' r' xs)
  | inr e ↦ ground (arith, live_fewer now d r d' r' xs)
]

count_none : {A : Type 0} (p : A → Bool) (xs : List A) → any p xs ≡ false → count_where p xs ≡ 0
count_none p [] h = refl
count_none p (x ∷ xs) h = ground (arith, count_none p xs (ground arith))

module _ (normalize : String → String) where
  -- No share that allows anything is left of those that were revoked.
  shared_after :
      (now t : ℕ) (d who : String) (xs : List Share)
      → any
          (λ x. str_eq (Share.document_id x) d && active_where normalize t who x)
          (update_where (is_live d (normalize who)) (revoke_at now) xs)
        ≡ false
  shared_after now t d who [] = refl
  shared_after now t d who (x ∷ xs) = elim (Bool-cases (is_live d (normalize who) x)) [
    | inl e ↦ ground (arith, shared_after now t d who xs)
    | inr e ↦ ground (arith, shared_after now t d who xs)
  ]

  module _ (lower : String → String) (insensitive : String → String → Bool)
      (has_space : String → Bool) (delivers : String → Bool) where
    create_share_single :
        (now : ℕ) (fresh user id recipient : String) (expires_at : Option ℕ) (s : ShareStore)
        (d r : String)
        → count_where (is_live d r) s.shares ≤ 1
        → count_where
            (is_live d r)
            (create_share normalize lower insensitive has_space delivers now fresh user id recipient
              expires_at s).0.shares
          ≤ 1
    create_share_single now fresh user id recipient expires_at s d r h =
        elim (Bool-cases (str_eq id d && str_eq recipient r)) [
          | inl e ↦
              let same_d : id ≡ d = (str_eq_iff id d).0 (ground arith) in
              let same_r : recipient ≡ r = (str_eq_iff recipient r).0 (ground arith) in
              let none_left : count_where (is_live d r)
                    (update_where (is_live id recipient) (revoke_at now) s.shares)
                  ≡ 0 =
                rw (← same_d, ← same_r)
                  (count_none (is_live id recipient)
                    (update_where (is_live id recipient) (revoke_at now) s.shares)
                    (live_after now id recipient s.shares)) in
              ground (arith, none_left)
          | inr e ↦ ground (arith, live_fewer now id recipient d r s.shares)
        ]

    share_from_cases :
        (now : ℕ) (fresh user id : String) (body : ShareBody) (s : ShareStore)
        (o : Outcome SensitiveDocument)
        → let t =
            share_from normalize lower insensitive has_space delivers now fresh user id body s o in
          ((t.0 ≡ s) × ((x : Share) → t.1 ≢ done x))
          ⊎ ((expires_at : Option ℕ) × (t
                ≡ create_share normalize lower insensitive has_space delivers now fresh user id
                    (normalize body.recipient)
                    expires_at
                    s))
    share_from_cases now fresh user id body s (done d) =
        elim (Bool-cases (has_space (normalize body.recipient))) [
          | inl e ↦ inl (ground arith, λ x h. ground arith)
          | inr e ↦ elim (Bool-cases (str_eq (normalize body.recipient) (normalize user))) [
            | inl own ↦ inl (ground arith, λ x h. ground arith)
            | inr other ↦ elim (Option-cases (resolve_expiry now body.duration body.expires_at)) [
              | inl bad ↦ inl (ground arith, λ x h. ground arith)
              | inr (t, good) ↦ inr (t, ground arith)
            ]
          ]
        ]
    share_from_cases now fresh user id body s forbidden = inl (refl, λ x h. cc)
    share_from_cases now fresh user id body s not_found = inl (refl, λ x h. cc)
    share_from_cases now fresh user id body s invalid_recipient = inl (refl, λ x h. cc)
    share_from_cases now fresh user id body s own_access = inl (refl, λ x h. cc)
    share_from_cases now fresh user id body s bad_expiry = inl (refl, λ x h. cc)

    -- Sharing leaves at most one share that is not revoked to each person and document.
    pub share_single :
        (now : ℕ) (fresh user : String) (groups : List String) (id : String) (body : ShareBody)
        (s : ShareStore) (d r : String)
        → count_where (is_live d r) s.shares ≤ 1
        → count_where
            (is_live d r)
            (share normalize lower insensitive has_space delivers now fresh user groups id body
              s).0.shares
          ≤ 1
    unfolding share
    share_single now fresh user groups id body s d r h =
        elim (share_from_cases now fresh user id body s
          (sharable_document normalize lower insensitive has_space delivers now user groups id s)) [
            | inl (same, other) ↦ rw same h
            | inr (expires_at, same) ↦ rw same (
                create_share_single now fresh user id (normalize body.recipient) expires_at s d r h)
          ]

    created_until :
        (now t : ℕ) (fresh user id : String) (body : ShareBody) (expires_at : Option ℕ)
        (s : ShareStore) (x : Share)
        → (create_share normalize lower insensitive has_space delivers now fresh user id
            (normalize body.recipient)
            expires_at
            s).1
          ≡ done x
        → has_sensitive_share normalize t id body.recipient
            (create_share normalize lower insensitive has_space delivers now fresh user id
              (normalize body.recipient)
              expires_at
              s).0
          ≡ in_time t x.expires_at
    unfolding has_sensitive_share
    created_until now t fresh user id body expires_at s x e =
        let same : expires_at ≡ x.expires_at = ap end_of e in
        rw (← same, str_eq_self, shared_after now t id body.recipient s.shares)
          (ground (arith, str_eq_self (normalize body.recipient)))
      where
        end_of : Outcome Share → Option ℕ
        end_of (done x) = x.expires_at
        end_of _ = none

    -- After a share that goes through, the recipient has access to the document exactly as long as
    -- the new share says, whatever shares there were before.
    pub shared_until :
        (now t : ℕ) (fresh user : String) (groups : List String) (id : String) (body : ShareBody)
        (s : ShareStore) (x : Share)
        → (share normalize lower insensitive has_space delivers now fresh user groups id body s).1
          ≡ done x
        → has_sensitive_share normalize t id body.recipient
            (share normalize lower insensitive has_space delivers now fresh user groups id body s).0
          ≡ in_time t x.expires_at
    unfolding share
    shared_until now t fresh user groups id body s x e =
        elim (share_from_cases now fresh user id body s
          (sharable_document normalize lower insensitive has_space delivers now user groups id s)) [
            | inl (same, not_done) ↦ absurd (not_done x e)
            | inr (expires_at, same) ↦ rw same (
                created_until now t fresh user id body expires_at s x
                  (ap (λ y. y.1) (sym same) ∙ e))
          ]
