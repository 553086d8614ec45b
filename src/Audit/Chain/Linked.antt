-- ===== src/Audit/Chain/Linked.antt =====
-- What a linked chain of audit events is, for the verification and for the chaining.
use isms_portal.Base.{
  ℕ, ◌+◌, String, ◌≡◌, refl, sym, ◌≢◌, ◌↔◌, inl, inr, Bool, true, false, not, Option, none, some,
  List, [], ◌∷◌, ◌++◌, arith, str_eq, Option-cases, str_eq_iff, str_eq_of_ne,
}
use mathlib.Core.Path.{subst}
use isms_portal.Audit.Chain.{
  AuditEvent, ChainedEvent, Progress, Reason, link_mismatch, missing_events, content_altered,
  AuditStore, genesis_hash, get_last, or_text, note, opt_eq, link_breaks, last_index, last_hash,
  due_events, audit_event_hash, chain_from, chain_audit_events, verify_event, verify_page,
}

opt_eq_iff : (a b : Option String) → (opt_eq a b ≡ true) ↔ (a ≡ b)
opt_eq_iff none none = ground arith
opt_eq_iff none (some b) = ground arith
opt_eq_iff (some a) none = ground arith
opt_eq_iff (some a) (some b) = ground (arith, str_eq_iff a b)

note-nil :
    (bad : Bool) (i : ℕ) (r : Reason) (xs : List (ℕ × Reason))
    → (note bad i r xs ≡ []) ↔ ((xs ≡ []) × (bad ≡ false))
note-nil true i r [] = ground arith
note-nil true i r (x ∷ xs) = ground arith
note-nil false i r xs = ground arith

genesis_nonempty : str_eq genesis_hash "" ≡ false
unfolding str_eq
genesis_nonempty = refl

get_last-some : {A : Type 0} (x : A) (xs : List A) → (y : A) × (get_last (x ∷ xs) ≡ some y)
get_last-some x [] = (x, refl)
get_last-some x (y ∷ ys) = let (z, e) = get_last-some y ys in (z, ground arith)

nil_of_get_last : {A : Type 0} (xs : List A) → get_last xs ≡ none → xs ≡ []
nil_of_get_last [] h = refl
nil_of_get_last (x ∷ xs) h = let (y, e) = get_last-some x xs in ground arith

get_last-cons :
    {A : Type 0} (d x : A) (xs : List A) (e : A)
    → get_last (d ∷ x ∷ xs) ≡ some e
    → get_last (x ∷ xs) ≡ some e
get_last-cons d x xs e h = let (y, last) = get_last-some x xs in ground arith

module _ (digest : String → String) (iso : ℕ → String) (quote : String → String)
    (key_le id_le : String → String → Bool) where
  abbrev hash : String → AuditEvent → String
  hash = audit_event_hash digest iso quote key_le id_le

  abbrev page : Progress → List ChainedEvent → Progress
  page = verify_page digest iso quote key_le id_le

  -- The stored hash is that of the stored content and the stored previous hash.
  abbrev pub HoldsHash : ChainedEvent → Type 0
  HoldsHash e = e.chain_hash ≡ some (hash (or_text e.prev_hash genesis_hash) e.event)

  abbrev Follows : Option (ℕ × String) → ChainedEvent → Type 0
  Follows none e = Unit
  Follows (some (index, h)) e = (index + 1 ≡ e.chain_index) × (e.prev_hash ≡ some h)

  -- Every event holds its hash, and follows the one before it by index and by hash.
  abbrev pub IsLinked : Option (ℕ × String) → List ChainedEvent → Type 0
  IsLinked before [] = Unit
  IsLinked before (e ∷ es) =
      Follows before e × HoldsHash e × IsLinked (some (e.chain_index, or_text e.chain_hash "")) es

  link_breaks-nil :
      (before : Option (ℕ × String)) (e : ChainedEvent) (broken : List (ℕ × Reason))
      → (link_breaks before e.chain_index e.prev_hash broken ≡ [])
        ↔ ((broken ≡ []) × Follows before e)
  link_breaks-nil none e broken = ground arith
  link_breaks-nil (some (index, h)) e broken =
      let (to, from) = opt_eq_iff e.prev_hash (some h) in
      let (a, b) =
        note-nil (not (opt_eq e.prev_hash (some h))) e.chain_index link_mismatch broken in
      let (c, d) = note-nil true e.chain_index missing_events broken in
      (λ k. ground arith, λ k. ground arith)

  verify_event-nil :
      (p : Progress) (e : ChainedEvent)
      → ((verify_event digest iso quote key_le id_le p e).broken ≡ [])
        ↔ ((p.broken ≡ []) × Follows p.previous e × HoldsHash e)
  unfolding verify_event
  verify_event-nil p e =
      let expected = some (hash (or_text e.prev_hash genesis_hash) e.event) in
      let links = link_breaks p.previous e.chain_index e.prev_hash p.broken in
      let (to_links, from_links) =
        note-nil (not (opt_eq expected e.chain_hash)) e.chain_index content_altered links in
      let (to_parts, from_parts) = link_breaks-nil p.previous e p.broken in
      let (to_path, from_path) = opt_eq_iff expected e.chain_hash in
      (
        λ k.
            let (clean, same) = to_links k in
            let (before, follows) = to_parts clean in
            (before, follows, sym (to_path (ground arith))),
        λ (before, follows, own).
            from_links (from_parts (before, follows), ground (arith, from_path (sym own))),
      )

  -- The verification of a run of events notes nothing exactly when the run is linked.
  pub verify_page_iff :
      (p : Progress) (es : List ChainedEvent)
      → ((page p es).broken ≡ []) ↔ ((p.broken ≡ []) × IsLinked p.previous es)
  unfolding verify_page verify_event
  verify_page_iff p [] = (λ h. (h, tt), λ h. h.0)
  verify_page_iff p (e ∷ es) =
      let (to, from) = verify_page_iff (verify_event digest iso quote key_le id_le p e) es in
      let (to_parts, from_parts) = verify_event-nil p e in
      (
        λ h.
            let (clean, later) = to h in
            let (before, follows, own) = to_parts clean in (before, (follows, own, later)),
        λ (before, (follows, own, later)). from (from_parts (before, follows, own), later),
      )

  -- Index and hash of the last event of a run that starts behind `before`.
  abbrev end_of : Option (ℕ × String) → List ChainedEvent → Option (ℕ × String)
  end_of before [] = before
  end_of before (e ∷ es) = end_of (some (e.chain_index, or_text e.chain_hash "")) es

  IsLinked-append :
      (before : Option (ℕ × String)) (xs ys : List ChainedEvent)
      → IsLinked before xs
      → IsLinked (end_of before xs) ys
      → IsLinked before (xs ++ ys)
  IsLinked-append before [] ys h k = k
  IsLinked-append before (e ∷ xs) ys (f, own, h) k =
      (f, own, IsLinked-append (some (e.chain_index, or_text e.chain_hash "")) xs ys h k)

  -- A run stays linked when its oldest events are deleted.
  pub IsLinked-suffix :
      (before : Option (ℕ × String)) (xs ys : List ChainedEvent)
      → IsLinked before (xs ++ ys)
      → IsLinked none ys
  IsLinked-suffix before [] [] h = tt
  IsLinked-suffix before [] (e ∷ ys) (f, own, h) = (tt, own, h)
  IsLinked-suffix before (e ∷ xs) ys (f, own, h) =
      IsLinked-suffix (some (e.chain_index, or_text e.chain_hash "")) xs ys h

  module _ (nonempty : (text : String) → digest text ≢ "") where
    hash_nonempty : (previous : String) (e : AuditEvent) → str_eq (hash previous e) "" ≡ false
    unfolding audit_event_hash
    hash_nonempty previous e = str_eq_of_ne _ "" (nonempty _)

    chain_from-IsLinked :
        (index : ℕ) (previous : String) (es : List AuditEvent)
        → str_eq previous "" ≡ false
        → IsLinked
            (some (index, previous))
            (chain_from digest iso quote key_le id_le index previous es)
    unfolding chain_from
    chain_from-IsLinked index previous [] h = tt
    chain_from-IsLinked index previous (e ∷ es) h = (
      (refl, refl),
      rw h refl,
      rw (hash_nonempty previous e)
          (chain_from-IsLinked (index + 1) (hash previous e) es (hash_nonempty previous e)),
    )

    forget_before :
        (before : ℕ × String) (es : List ChainedEvent)
        → IsLinked (some before) es
        → IsLinked none es
    forget_before before [] h = tt
    forget_before before (e ∷ es) (f, own, h) = (tt, own, h)

    -- Where the next events are linked to: what `chainAuditEvents` reads from the last event.
    end_of_linked :
        (before : Option (ℕ × String)) (es : List ChainedEvent) (e : ChainedEvent)
        → IsLinked before es
        → get_last es ≡ some e
        → (end_of before es
            ≡ some (
              last_index digest iso quote key_le id_le (some e),
              last_hash digest iso quote key_le id_le (some e),
            ))
          × (str_eq (last_hash digest iso quote key_le id_le (some e)) "" ≡ false)
    end_of_linked before [] e h last = cc
    end_of_linked before (d ∷ []) e (f, own, h) last =
        let same : d ≡ e = ground arith in
        rw (← same) (
          ground (arith, own, hash_nonempty (or_text d.prev_hash genesis_hash) d.event),
          ground (arith, own, hash_nonempty (or_text d.prev_hash genesis_hash) d.event),
        )
    end_of_linked before (d ∷ x ∷ es) e (f, own, h) last =
        end_of_linked (some (d.chain_index, or_text d.chain_hash "")) (x ∷ es) e h
          (get_last-cons d x es e last)

    -- Chaining keeps the whole chain linked, whatever events are due.
    pub chain_audit_events-IsLinked :
        (now : ℕ) (s : AuditStore)
        → IsLinked none s.chained
        → IsLinked none (chain_audit_events digest iso quote key_le id_le now s).0.chained
    unfolding chain_audit_events
    chain_audit_events-IsLinked now s h = elim (Option-cases (get_last s.chained)) [
      | inl empty ↦
          let due = due_events digest iso quote key_le id_le now s in
          let new = chain_from digest iso quote key_le id_le 0 genesis_hash due in
          rw empty (
            IsLinked-append none s.chained new h (
              subst (λ xs. IsLinked (end_of none xs) new) (sym (nil_of_get_last s.chained empty))
                (forget_before (0, genesis_hash) new
                  (chain_from-IsLinked 0 genesis_hash due genesis_nonempty))))
      | inr (e, last) ↦
          let (there, nonempty_hash) = end_of_linked none s.chained e h last in
          rw last (
            IsLinked-append none s.chained _ h (rw there (chain_from-IsLinked _ _ _ nonempty_hash)))
    ]
