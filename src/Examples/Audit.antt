-- ===== src/Examples/Audit.antt =====
-- Two events, and the chain that holds them.
use isms_portal.Base.{
  ℕ, ◌+◌, ◌≤◌, String, ◌≡◌, sym, ◌∙◌, ◌≢◌, ◌↔◌, inl, inr, Bool, true, false≢true, none, some, [],
  ◌∷◌, arith, str_eq, if◌then◌else◌, Bool-cases, str_eq_iff, length, ◌+++◌,
}
use isms_portal.Audit.Chain.Sealed.{sealed_agrees}
use isms_portal.Audit.Chain.{
  seal_audit_chain, AuditEvent, AuditStore, Verdict, chain_audit_events, chain_from, genesis_hash,
  verify_audit_chain,
}
use isms_portal.Audit.Chain.Linked.{IsLinked}
use isms_portal.Audit.Chain.Verified.{differing, verify_audit_chain_iff, chained_verifies}

abbrev digest : String → String
digest text = if str_eq text "" then "0" else text

digest_nonempty : (text : String) → digest text ≢ ""
unfolding str_eq
digest_nonempty text e = elim (Bool-cases (str_eq text "")) [
  | inl empty ↦
      let zero_text : "0" ≡ "" = rw empty at e in
      absurd (false≢true ((str_eq_iff "0" "").1 zero_text))
  | inr full ↦
      let no_text : text ≡ "" = rw full at e in
      absurd (false≢true (sym full ∙ (str_eq_iff text "").1 no_text))
]

abbrev iso : ℕ → String
iso t = "1970-01-01"

abbrev quote : String → String
quote text = "'" +++ text +++ "'"

abbrev earlier : String → String → Bool
earlier a b = str_eq a b

abbrev event : String → ℕ → AuditEvent
event id at = record {
  id = id;
  occurred_at = at;
  identity = "ada";
  ip_address = "::1";
  action = "login";
  resource = "session";
  result = "success";
  correlation_id = "c";
  details = none;
}

abbrev waiting : AuditStore
waiting = record { chained = []; unchained = event "b" 2 ∷ event "a" 1 ∷ []; seals = [] }

abbrev linked : AuditStore
unfolding chain_from
linked = record {
  chained =
      chain_from digest iso quote earlier earlier 0 genesis_hash (event "a" 1 ∷ event "b" 2 ∷ []);
  unchained = [];
  seals = [];
}

chained_verifies_example :
    let (s', taken) = chain_audit_events digest iso quote earlier earlier 900000 waiting in
    (v : Verdict) × (verify_audit_chain digest iso quote earlier earlier 2001 s' ≡ some v)
    × (v.broken ≡ [])
    × (v.checked ≡ 0 + taken)
chained_verifies_example =
    chained_verifies digest iso quote earlier earlier digest_nonempty 2001 900000 waiting tt tt
      (omega arith)

verify_audit_chain_iff_example :
    (v : Verdict) × (verify_audit_chain digest iso quote earlier earlier 3 linked ≡ some v)
    × (v.checked ≡ length linked.chained)
    × ((v.valid ≡ true) ↔ (
        IsLinked digest iso quote earlier earlier none linked.chained
        × (differing digest iso quote earlier earlier linked ≡ 0)))
unfolding chain_from
verify_audit_chain_iff_example =
    verify_audit_chain_iff digest iso quote earlier earlier 3 linked
      (omega arith, (omega arith, tt)) (omega arith)

sealed_agrees_example :
    differing digest iso quote earlier earlier
      (seal_audit_chain digest iso quote earlier earlier 60 900000 linked)
    ≤ differing digest iso quote earlier earlier linked
unfolding chain_from
sealed_agrees_example =
    sealed_agrees digest iso quote earlier earlier 60 900000 linked (omega arith, (omega arith, tt))
