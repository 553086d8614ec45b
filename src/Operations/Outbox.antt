-- ===== src/Operations/Outbox.antt =====
-- What `dispatchOutbox` leaves in the outbox.
use isms_portal.Base.{
  ℕ, zero, suc, ◌≤◌, String, ◌≡◌, refl, ap, ◌∙◌, inl, inr, Bool, true, false, false≢true, ◌||◌,
  List, [], ◌∷◌, arith, Bool-cases, str_eq_self, length, filter, any, all, take, update_where,
  count_where, All, All-mono, insert_by, order_by,
}
use isms_portal.Operations.{
  OutboxEntry, is_due, comes_first, pending_entries, with_id, mark_queued, dispatch_each,
  dispatch_outbox,
}

module _ {A : Type 0} where
  any-insert_by :
      (le : A → A → Bool) (p : A → Bool) (x : A) (xs : List A)
      → any p (insert_by le x xs) ≡ (p x || any p xs)
  any-insert_by le p x [] = refl
  any-insert_by le p x (y ∷ ys) = ground (arith, any-insert_by le p x ys)

  any-order_by :
      (le : A → A → Bool) (p : A → Bool) (xs : List A) → any p (order_by le xs) ≡ any p xs
  any-order_by le p [] = refl
  any-order_by le p (x ∷ xs) =
      any-insert_by le p x (order_by le xs) ∙ ap (λ b. p x || b) (any-order_by le p xs)

  length-insert_by :
      (le : A → A → Bool) (x : A) (xs : List A) → length (insert_by le x xs) ≡ suc (length xs)
  length-insert_by le x [] = refl
  length-insert_by le x (y ∷ ys) = ground (arith, length-insert_by le x ys)

  length-order_by : (le : A → A → Bool) (xs : List A) → length (order_by le xs) ≡ length xs
  length-order_by le [] = refl
  length-order_by le (x ∷ xs) =
      length-insert_by le x (order_by le xs) ∙ ap suc (length-order_by le xs)

  take_all : (n : ℕ) (xs : List A) → length xs ≤ n → take n xs ≡ xs
  take_all zero [] h = refl
  take_all zero (x ∷ xs) h = absurd (omega arith)
  take_all (suc n) [] h = refl
  take_all (suc n) (x ∷ xs) h = ap (λ ys. x ∷ ys) (take_all n xs (omega arith))

  any_more :
      (q : A → Bool) (same : A → A → Bool) (x : A) (xs ys : List A)
      → All (λ r. q r ≡ true → any (same r) (filter q xs) ≡ true) ys
      → All (λ r. q r ≡ true → any (same r) (filter q (x ∷ xs)) ≡ true) ys
  any_more q same x xs [] h = tt
  any_more q same x xs (y ∷ ys) (h, hs) =
      ((λ due. let here = h due in ground arith), any_more q same x xs ys hs)

  any_self :
      (q : A → Bool) (same : A → A → Bool) (xs : List A)
      → ((x : A) → same x x ≡ true)
      → All (λ r. q r ≡ true → any (same r) (filter q xs) ≡ true) xs
  any_self q same [] h = tt
  any_self q same (x ∷ xs) h =
      ((λ due. ground (arith, h x)), any_more q same x xs xs (any_self q same xs h))

-- Every entry that is due is one of those to send.
abbrev IsCovered : ℕ → List OutboxEntry → OutboxEntry → Type 0
IsCovered now es r = is_due now r ≡ true → any (λ e. with_id e.id r) es ≡ true

IsCovered-next :
    (now : ℕ) (e : OutboxEntry) (es entries : List OutboxEntry)
    → All (IsCovered now (e ∷ es)) entries
    → All (IsCovered now es) (update_where (with_id e.id) (mark_queued now) entries)
IsCovered-next now e es [] h = tt
IsCovered-next now e es (r ∷ rs) (h, hs) = (
  elim (Bool-cases (with_id e.id r)) [
    | inl this ↦ rw this (λ due. absurd (false≢true due))
    | inr other ↦ rw other (λ due. let listed = h due in ground arith)
  ],
  IsCovered-next now e es rs hs,
)

dispatch_each_clears :
    (accepts : String → Bool) (now : ℕ) (es entries : List OutboxEntry)
    → ((id : String) → accepts id ≡ true)
    → All (IsCovered now es) entries
    → All (λ r. is_due now r ≡ false) (dispatch_each accepts now es entries).0
unfolding dispatch_each
dispatch_each_clears accepts now [] entries all h =
    All-mono (IsCovered now []) (λ r. is_due now r ≡ false) entries
      (λ r k. elim (Bool-cases (is_due now r)) [ inl e ↦ absurd (false≢true (k e)) | inr e ↦ e ]) h
dispatch_each_clears accepts now (e ∷ es) entries all h = rw (all e.id) (
    dispatch_each_clears accepts now es (update_where (with_id e.id) (mark_queued now) entries) all
      (IsCovered-next now e es entries h))

-- When the queue takes every job, and at most a hundred entries are due, none is due after a
-- dispatch at the same time.
pub dispatch_clears :
    (id_le : String → String → Bool) (accepts : String → Bool) (now : ℕ)
    (entries : List OutboxEntry)
    → ((id : String) → accepts id ≡ true)
    → count_where (is_due now) entries ≤ 100
    → All (λ r. is_due now r ≡ false) (dispatch_outbox id_le accepts now entries).0
unfolding dispatch_outbox
dispatch_clears id_le accepts now entries all few =
    let due = filter (is_due now) entries in
    let le = comes_first id_le in
    let everything : pending_entries id_le now entries ≡ order_by le due =
      take_all 100 (order_by le due) (omega (arith, length-order_by le due)) in
    dispatch_each_clears accepts now (pending_entries id_le now entries) entries all (
      All-mono (λ r. is_due now r ≡ true → any (λ e. with_id e.id r) due ≡ true)
        (IsCovered now (pending_entries id_le now entries)) entries
        (λ r k d. rw everything (any-order_by le (λ e. with_id e.id r) due ∙ k d))
        (any_self (is_due now) (λ r e. with_id e.id r) entries (λ r. str_eq_self r.id)))
