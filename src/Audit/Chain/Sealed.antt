-- ===== src/Audit/Chain/Sealed.antt =====
-- What `sealAuditChain` adds to the seals.
use isms_portal.Base.{
  ℕ, zero, suc, ◌-◌, ◌≤◌, ◌<◌, String, ◌≡◌, refl, ap, ◌∙◌, inl, inr, Bool, false, ◌||◌, Option,
  none, some, List, [], ◌∷◌, arith, ◌==◌, Bool-cases, Option-cases, str_eq_self, truthy, find, take,
  count_where,
}
use isms_portal.Audit.Chain.{
  ChainedEvent, AuditStore, AuditSeal, get_last, mismatches, keeps_waiting, head, sealed_index,
  seal_audit_chain,
}
use isms_portal.Audit.Chain.Pages.{IsAscending}
use isms_portal.Audit.Chain.Verified.{differing}

last_above :
    (low : ℕ) (xs : List ChainedEvent) (e : ChainedEvent)
    → IsAscending low xs
    → get_last xs ≡ some e
    → low < e.chain_index
last_above low [] e h k = cc
last_above low (x ∷ xs) e (h, hs) k = elim (Option-cases (get_last xs)) [
  | inl alone ↦ let same : x ≡ e = ground arith in rw (← same) h
  | inr (y, more) ↦
      let same : y ≡ e = ground arith in
      let above = last_above x.chain_index xs e hs (more ∙ ap some same) in omega arith
]

find_last :
    (low : ℕ) (xs : List ChainedEvent) (e : ChainedEvent)
    → IsAscending low xs
    → get_last xs ≡ some e
    → find (λ x. ChainedEvent.chain_index x == e.chain_index) xs ≡ some e
find_last low [] e h k = cc
find_last low (x ∷ xs) e (h, hs) k = elim (Option-cases (get_last xs)) [
  | inl alone ↦ let same : x ≡ e = ground arith in rw same (ground arith)
  | inr (y, more) ↦
      let same : y ≡ e = ground arith in
      let last : get_last xs ≡ some e = more ∙ ap some same in
      let above = last_above x.chain_index xs e hs last in
      let rest = find_last x.chain_index xs e hs last in ground arith
]

some_of_truthy : (o : Option String) (t : String) → truthy o ≡ some t → o ≡ some t
some_of_truthy none t h = cc
some_of_truthy (some u) t h = ground arith

count_take :
    (p : AuditSeal → Bool) (n : ℕ) (xs : List AuditSeal)
    → count_where p (take n xs) ≤ count_where p (take (suc n) xs)
count_take p zero xs = omega arith
count_take p (suc n) [] = omega arith
count_take p (suc n) (x ∷ xs) = ground (arith, count_take p n xs)

module _ (digest : String → String) (iso : ℕ → String) (quote : String → String)
    (key_le id_le : String → String → Bool) where
  new_agrees :
      (chained : List ChainedEvent) (seal : AuditSeal) (e : ChainedEvent) (hash : String)
      → IsAscending 0 chained
      → get_last chained ≡ some e
      → truthy e.chain_hash ≡ some hash
      → seal.last_chain_index ≡ e.chain_index
      → seal.chain_hash ≡ hash
      → mismatches digest iso quote key_le id_le chained seal ≡ false
  new_agrees chained seal e hash h last hashed same_index same_hash =
      let found : find (λ x. ChainedEvent.chain_index x == seal.last_chain_index) chained ≡ some e =
        rw same_index (find_last 0 chained e h last) in
      let held : e.chain_hash ≡ some seal.chain_hash =
        rw same_hash (some_of_truthy e.chain_hash hash hashed) in
      ground (arith, found, held, str_eq_self seal.chain_hash)

  -- On a chain with rising indices, `sealAuditChain` never adds to the seals that the verification
  -- finds to differ from their event.
  pub sealed_agrees :
      (interval now : ℕ) (s : AuditStore)
      → IsAscending 0 s.chained
      → differing digest iso quote key_le id_le
          (seal_audit_chain digest iso quote key_le id_le interval now s)
        ≤ differing digest iso quote key_le id_le s
  unfolding seal_audit_chain
  sealed_agrees interval now s h =
      let after = seal_audit_chain digest iso quote key_le id_le interval now s in
      elim (Option-cases (get_last s.chained)) [
        | inl nothing ↦ let same : after ≡ s = ground arith in rw same (omega arith)
        | inr (e, last) ↦ elim (Option-cases (truthy e.chain_hash)) [
          | inl unhashed ↦ let same : after ≡ s = ground arith in rw same (omega arith)
          | inr (hash, hashed) ↦
              elim (Bool-cases (
                e.chain_index == 0
                || keeps_waiting digest iso quote key_le id_le interval now e.chain_index
                    (head digest iso quote key_le id_le s.seals))) [
                      | inl waits ↦ let same : after ≡ s = ground arith in rw same (omega arith)
                      | inr due ↦
                          let seal : AuditSeal = record {
                            last_chain_index = e.chain_index;
                            chain_hash = hash;
                            event_count =
                                e.chain_index
                                - sealed_index digest iso quote key_le id_le
                                    (head digest iso quote key_le id_le s.seals);
                            created_at = now;
                          } in
                          let same : after ≡ record s { seals = seal ∷ s.seals } = ground arith in
                          let agreed = new_agrees s.chained seal e hash h last hashed refl refl in
                          rw same (
                            ground (
                              arith,
                              agreed,
                              count_take (mismatches digest iso quote key_le id_le s.chained) 499
                                  s.seals,
                            ))
                    ]
        ]
      ]
