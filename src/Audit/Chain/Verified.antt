-- ===== src/Audit/Chain/Verified.antt =====
-- The answer of `verifyAuditChain`.
use isms_portal.Base.{
  ℕ, suc, ◌+◌, ◌≤◌, ◌<◌, String, ◌≡◌, refl, ap, ◌∙◌, ◌≢◌, ◌↔◌, Bool, true, Option, none, some, List,
  [], ◌∷◌, ◌++◌, arith, ◌==◌, length, filter, take, count_where, length-take, length-append,
  order_by,
}
use isms_portal.Audit.Chain.{
  AuditEvent, ChainedEvent, AuditStore, Progress, Verdict, start, mismatches, report,
  audit_event_hash, batch, get_last, cursor_after, last_index, last_hash, due_events, before_or_at,
  is_settled, verify_event, verify_page, verify_audit_chain, chain_audit_events, chain_from,
}
use isms_portal.Audit.Chain.Pages.{IsAscending, verify_pages_lem, after_all}
use isms_portal.Audit.Chain.Linked.{IsLinked, verify_page_iff, chain_audit_events-IsLinked}

nil_of_length : {A : Type 0} (xs : List A) → (length xs == 0) ≡ true → xs ≡ []
nil_of_length [] h = refl
nil_of_length (x ∷ xs) h = ground arith

IsAscending-append :
    (low : ℕ) (xs ys : List ChainedEvent)
    → IsAscending low xs
    → IsAscending (cursor_after low xs) ys
    → IsAscending low (xs ++ ys)
IsAscending-append low [] ys k l = l
IsAscending-append low (e ∷ xs) ys (k, ks) l = (k, IsAscending-append e.chain_index xs ys ks l)

index_or : ℕ → Option ChainedEvent → ℕ
index_or low none = low
index_or low (some e) = e.chain_index

last-cursor : (low : ℕ) (xs : List ChainedEvent) → index_or low (get_last xs) ≡ cursor_after low xs
unfolding index_or
last-cursor low [] = refl
last-cursor low (e ∷ xs) = ground (arith, last-cursor e.chain_index xs)

module _ (digest : String → String) (iso : ℕ → String) (quote : String → String)
    (key_le id_le : String → String → Bool) where
  -- The seals that the verification looks at and finds to differ from their event.
  abbrev pub differing : AuditStore → ℕ
  differing s = count_where (mismatches digest iso quote key_le id_le s.chained) (take 500 s.seals)

  one_pass :
      (fuel : ℕ) (s : AuditStore)
      → IsAscending 0 s.chained
      → length s.chained < fuel
      → verify_audit_chain digest iso quote key_le id_le fuel s
        ≡ some (
            report digest iso quote key_le id_le s
              (verify_page digest iso quote key_le id_le start s.chained))
  unfolding verify_audit_chain
  one_pass fuel s k h =
      let same = after_all 0 0 s.chained (omega arith) k in
      let read =
        verify_pages_lem digest iso quote key_le id_le fuel 4999 0 0 start s.chained k
          (omega (arith, ap length same)) in
      ground (arith, read, same)

  checked_count :
      (p : Progress) (es : List ChainedEvent)
      → (verify_page digest iso quote key_le id_le p es).checked ≡ p.checked + length es
  unfolding verify_page verify_event
  checked_count p [] = omega arith
  checked_count p (e ∷ es) =
      omega (arith, checked_count (verify_event digest iso quote key_le id_le p e) es)

  -- On a chain whose indices rise from 1 on, with more fuel than chained events, the verification
  -- ends. It has looked at every chained event, and its answer is "valid" exactly when each event
  -- holds the hash of its content and follows the one before it by index and by hash, and no seal
  -- among the newest five hundred differs from the event that it names.
  pub verify_audit_chain_iff :
      (fuel : ℕ) (s : AuditStore)
      → IsAscending 0 s.chained
      → length s.chained < fuel
      → (v : Verdict) × (verify_audit_chain digest iso quote key_le id_le fuel s ≡ some v)
        × (v.checked ≡ length s.chained)
        × ((v.valid ≡ true)
            ↔ (IsLinked digest iso quote key_le id_le none s.chained × (differing s ≡ 0)))
  verify_audit_chain_iff fuel s k h =
      let p = verify_page digest iso quote key_le id_le start s.chained in
      let (to, from) = verify_page_iff digest iso quote key_le id_le start s.chained in
      (
        report digest iso quote key_le id_le s p,
        one_pass fuel s k h,
        omega (arith, checked_count start s.chained),
        (
          λ valid. ((to (nil_of_length p.broken (ground arith))).1, ground arith),
          λ (linked, sealed). let clean = from (refl, linked) in ground arith,
        ),
      )

  last_index-cursor :
      (xs : List ChainedEvent)
      → last_index digest iso quote key_le id_le (get_last xs) ≡ cursor_after 0 xs
  unfolding index_or
  last_index-cursor xs = ground (arith, last-cursor 0 xs)

  chain_from-IsAscending :
      (index : ℕ) (previous : String) (es : List AuditEvent)
      → IsAscending index (chain_from digest iso quote key_le id_le index previous es)
  unfolding chain_from
  chain_from-IsAscending index previous [] = tt
  chain_from-IsAscending index previous (e ∷ es) = (
    omega arith,
    chain_from-IsAscending (index + 1) (audit_event_hash digest iso quote key_le id_le previous e)
        es,
  )

  length-chain_from :
      (index : ℕ) (previous : String) (es : List AuditEvent)
      → length (chain_from digest iso quote key_le id_le index previous es) ≡ length es
  unfolding chain_from
  length-chain_from index previous [] = refl
  length-chain_from index previous (e ∷ es) =
      ap suc (
        length-chain_from (index + 1) (audit_event_hash digest iso quote key_le id_le previous e)
          es)

  chain-IsAscending :
      (now : ℕ) (s : AuditStore)
      → IsAscending 0 s.chained
      → IsAscending 0 (chain_audit_events digest iso quote key_le id_le now s).0.chained
  unfolding chain_audit_events
  chain-IsAscending now s k =
      IsAscending-append 0 s.chained _ k
        (rw (← last_index-cursor s.chained) (chain_from-IsAscending _ _ _))

  chain-length :
      (now : ℕ) (s : AuditStore)
      → let (s', taken) = chain_audit_events digest iso quote key_le id_le now s in
        (length s'.chained ≡ length s.chained + taken) × (taken ≤ batch)
  unfolding chain_audit_events
  chain-length now s =
      let due = due_events digest iso quote key_le id_le now s in
      let last = get_last s.chained in
      let new =
        length-chain_from (last_index digest iso quote key_le id_le last)
          (last_hash digest iso quote key_le id_le last) due in
      (
        length-append s.chained _ ∙ ap (λ n. length s.chained + n) new,
        omega (
          arith,
          length-take batch (
              order_by (before_or_at digest iso quote key_le id_le)
                (filter (is_settled digest iso quote key_le id_le now) s.unchained)),
        ),
      )

  -- `chainAuditEvents`, at any time and with any events waiting, leads from a linked chain with
  -- rising indices to one in which the verification finds no broken event, and looks at the old
  -- events and those that were taken up. The digest must never be the empty text; fuel for the old
  -- events and one batch is enough.
  pub chained_verifies :
      (nonempty : (text : String) → digest text ≢ "") (fuel now : ℕ) (s : AuditStore)
      → IsLinked digest iso quote key_le id_le none s.chained
      → IsAscending 0 s.chained
      → length s.chained + batch < fuel
      → let (s', taken) = chain_audit_events digest iso quote key_le id_le now s in
        (v : Verdict) × (verify_audit_chain digest iso quote key_le id_le fuel s' ≡ some v)
        × (v.broken ≡ [])
        × (v.checked ≡ length s.chained + taken)
  chained_verifies nonempty fuel now s linked k h =
      let (s', taken) = chain_audit_events digest iso quote key_le id_le now s in
      let (longer, bounded) = chain-length now s in
      let p = verify_page digest iso quote key_le id_le start s'.chained in
      let (to, from) = verify_page_iff digest iso quote key_le id_le start s'.chained in
      let clean =
        from
          (refl, chain_audit_events-IsLinked digest iso quote key_le id_le nonempty now s linked) in
      (
        report digest iso quote key_le id_le s' p,
        one_pass fuel s' (chain-IsAscending now s k) (omega arith),
        rw clean refl,
        omega (arith, checked_count start s'.chained),
      )
