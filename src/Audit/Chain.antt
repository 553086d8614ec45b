-- ===== src/Audit/Chain.antt =====
-- apps/api/src/audit-chain.ts. The table of audit events is held as two lists: the events with a
-- chain index, in the order of that index, and the events without one.
pub mod Pages
pub mod Linked
pub mod Verified
pub mod Sealed
use isms_portal.Base.{
  ℕ, zero, suc, ◌+◌, ◌-◌, ◌*◌, max, String, Bool, true, false, not, ◌&&◌, ◌||◌, Option, none, some,
  List, [], ◌∷◌, ◌++◌, ltb, leb, ◌==◌, str_eq, if◌then◌else◌, truthy, length, filter, any, find,
  take, count_where, order_by, ◌+++◌,
}
use isms_portal.Audit.Canonical.{Json, null, str, array_of, nullable, stable}

-- `AuditEvent`, without the three columns of the chain. Times are in milliseconds.
pub record AuditEvent : Type 0 where
  pub id : String
  pub occurred_at : ℕ
  pub identity : String
  pub ip_address : String
  pub action : String
  pub resource : String
  pub result : String
  pub correlation_id : String
  pub details : Option Json

-- A row whose `chainIndex` is set; the other two columns are nullable.
pub record ChainedEvent : Type 0 where
  pub event : AuditEvent
  pub chain_index : ℕ
  pub prev_hash : Option String
  pub chain_hash : Option String

-- `AuditSeal`
pub record AuditSeal : Type 0 where
  pub last_chain_index : ℕ
  pub chain_hash : String
  pub event_count : ℕ
  pub created_at : ℕ

pub record AuditStore : Type 0 where
  pub chained : List ChainedEvent
  pub unchained : List AuditEvent
  pub seals : List AuditSeal  -- newest first

abbrev pub genesis_hash : String
genesis_hash = "0000000000000000000000000000000000000000000000000000000000000000"

abbrev pub settle_ms : ℕ
settle_ms = 5 * 60000

abbrev pub batch : ℕ
batch = 2000

abbrev pub get_last {ℓ} : {A : Type ℓ} → List A → Option A
get_last [] = none
get_last (x ∷ xs) = elim (get_last xs) [ none ↦ some x | some y ↦ some y ]

-- `a ?? b` and `a || b` on nullable strings.
abbrev pub or_else : Option String → String → String
or_else none d = d
or_else (some s) d = s

abbrev pub or_text : Option String → String → String
or_text o d = or_else (truthy o) d

abbrev pub or_null : Option Json → Json
or_null none = null
or_null (some j) = j

pub data Reason : Type 0 where
  missing_events link_mismatch content_altered : Reason

-- The variables of the loop of `verifyAuditChain`.
pub record Progress : Type 0 where
  pub broken : List (ℕ × Reason)
  pub previous : Option (ℕ × String)
  pub checked : ℕ
  pub first_index : Option ℕ

abbrev pub start : Progress
start = record { broken = []; previous = none; checked = 0; first_index = none }

abbrev pub note : Bool → ℕ → Reason → List (ℕ × Reason) → List (ℕ × Reason)
note bad index reason broken = if bad then broken ++ (index, reason) ∷ [] else broken

abbrev pub opt_eq : Option String → Option String → Bool
opt_eq none none = true
opt_eq (some a) (some b) = str_eq a b
opt_eq _ _ = false

-- The first two tests of the loop: the place of the event, and its link to the one before.
abbrev pub link_breaks :
    Option (ℕ × String) → ℕ → Option String → List (ℕ × Reason) → List (ℕ × Reason)
link_breaks none index prev broken = broken
link_breaks (some (before, hash)) index prev broken =
    if before + 1 == index
    then note (not (opt_eq prev (some hash))) index link_mismatch broken
    else note true index missing_events broken

abbrev pub first_of : Option ℕ → ℕ → ℕ
first_of none index = index
first_of (some first) index = first

pub record Verdict : Type 0 where
  pub valid : Bool
  pub checked : ℕ
  pub pending : ℕ
  pub first_index : Option ℕ
  pub last_index : Option ℕ
  pub broken : List (ℕ × Reason)
  pub seal_count : ℕ
  pub mismatched : ℕ

abbrev pub index_of : Option (ℕ × String) → Option ℕ
index_of none = none
index_of (some (index, hash)) = some index

-- `cursor` after the events of a page.
abbrev pub cursor_after : ℕ → List ChainedEvent → ℕ
cursor_after cursor [] = cursor
cursor_after cursor (e ∷ es) = cursor_after e.chain_index es

abbrev pub after : ℕ → List ChainedEvent → List ChainedEvent
after cursor chained = filter (λ e. ltb cursor (ChainedEvent.chain_index e)) chained

-- `digest` is the hexadecimal SHA-256 of a text and `iso` is `toISOString`; `id_le` orders
-- identifiers as the database does.
module _ (digest : String → String) (iso : ℕ → String) (quote : String → String)
    (key_le id_le : String → String → Bool) where
  -- `auditEventHash`
  pub audit_event_hash : String → AuditEvent → String
  audit_event_hash previous e = digest (
      previous
      +++ stable quote key_le (
          array_of (
            str e.id
            ∷ str (iso e.occurred_at)
            ∷ str e.identity
            ∷ str e.ip_address
            ∷ str e.action
            ∷ str e.resource
            ∷ str e.result
            ∷ str e.correlation_id
            ∷ or_null e.details
            ∷ [])))

  -- The loop of `chainAuditEvents`, over the index and hash of the last event.
  unfoldable pub chain_from : ℕ → String → List AuditEvent → List ChainedEvent
  chain_from index previous [] = []
  chain_from index previous (e ∷ es) =
      record {
        event = e;
        chain_index = index + 1;
        prev_hash = some previous;
        chain_hash = some (audit_event_hash previous e);
      }
      ∷ chain_from (index + 1) (audit_event_hash previous e) es

  abbrev pub last_index : Option ChainedEvent → ℕ
  last_index none = 0
  last_index (some e) = e.chain_index

  abbrev pub last_hash : Option ChainedEvent → String
  last_hash none = genesis_hash
  last_hash (some e) = or_else e.chain_hash genesis_hash

  abbrev pub is_settled : ℕ → AuditEvent → Bool
  is_settled now e = ltb (e.occurred_at + settle_ms) now

  abbrev pub before_or_at : AuditEvent → AuditEvent → Bool
  before_or_at a b =
      ltb a.occurred_at b.occurred_at || (a.occurred_at == b.occurred_at && id_le a.id b.id)

  -- The events that one call takes up.
  abbrev pub due_events : ℕ → AuditStore → List AuditEvent
  due_events now s = take batch (order_by before_or_at (filter (is_settled now) s.unchained))

  abbrev pub is_listed : List AuditEvent → AuditEvent → Bool
  is_listed es e = any (λ d. str_eq (AuditEvent.id d) e.id) es

  -- `chainAuditEvents`: the new store, and the number of events that were chained.
  unfoldable pub chain_audit_events : ℕ → AuditStore → AuditStore × ℕ
  unfolding chain_from
  chain_audit_events now s =
      let last = get_last s.chained in
      let events = due_events now s in
      (
        record s {
          chained = s.chained ++ chain_from (last_index last) (last_hash last) events;
          unchained = filter (λ e. not (is_listed events e)) s.unchained;
        },
        length events,
      )

  -- One round of the loop of `verifyAuditChain`.
  unfoldable pub verify_event : Progress → ChainedEvent → Progress
  verify_event p e = record {
    broken =
        note
          (not (
            opt_eq (some (audit_event_hash (or_text e.prev_hash genesis_hash) e.event))
              e.chain_hash))
          e.chain_index content_altered (link_breaks p.previous e.chain_index e.prev_hash p.broken);
    previous = some (e.chain_index, or_text e.chain_hash "");
    checked = p.checked + 1;
    first_index = some (first_of p.first_index e.chain_index);
  }

  unfoldable pub verify_page : Progress → List ChainedEvent → Progress
  verify_page p [] = p
  verify_page p (e ∷ es) = verify_page (verify_event p e) es

  abbrev pub page_size : ℕ
  page_size = 5000

  -- The `for (;;)` over the pages; `none` means that the fuel ran out.
  unfoldable pub verify_pages : ℕ → ℕ → ℕ → Progress → List ChainedEvent → Option Progress
  unfolding verify_page
  verify_pages zero size cursor p chained = none
  verify_pages (suc fuel) size cursor p chained =
      let page = take size (after cursor chained) in
      let rest = verify_pages fuel size (cursor_after cursor page) (verify_page p page) chained in
      if length page == 0 then some p else rest

  abbrev pub mismatches : List ChainedEvent → AuditSeal → Bool
  mismatches chained seal =
      elim (find (λ e. ChainedEvent.chain_index e == seal.last_chain_index) chained) [
        | none ↦ false
        | some e ↦ not (opt_eq e.chain_hash (some seal.chain_hash))
      ]

  abbrev pub report : AuditStore → Progress → Verdict
  report s p =
      let seals = take 500 s.seals in
      let mismatched = count_where (mismatches s.chained) seals in
      record {
        valid = length p.broken == 0 && mismatched == 0;
        checked = p.checked;
        pending = length s.unchained;
        first_index = p.first_index;
        last_index = index_of p.previous;
        broken = take 20 p.broken;
        seal_count = length seals;
        mismatched = mismatched;
      }

  -- `verifyAuditChain`
  unfoldable pub verify_audit_chain : ℕ → AuditStore → Option Verdict
  unfolding verify_pages
  verify_audit_chain fuel s = elim (verify_pages fuel page_size 0 start s.chained) [
    | none ↦ none
    | some p ↦ some (report s p)
  ]

  abbrev pub head {ℓ} : {A : Type ℓ} → List A → Option A
  head [] = none
  head (x ∷ xs) = some x

  abbrev pub sealed_index : Option AuditSeal → ℕ
  sealed_index none = 0
  sealed_index (some seal) = seal.last_chain_index

  abbrev pub keeps_waiting : ℕ → ℕ → ℕ → Option AuditSeal → Bool
  keeps_waiting interval now index none = false
  keeps_waiting interval now index (some seal) =
      leb index seal.last_chain_index || ltb now (seal.created_at + max 5 interval * 60000)

  abbrev seal_event : ℕ → ℕ → AuditStore → ChainedEvent → AuditStore
  seal_event interval now s e = elim (truthy e.chain_hash) [
    | none ↦ s
    | some hash ↦
        if e.chain_index == 0 || keeps_waiting interval now e.chain_index (head s.seals)
        then s
        else record s {
          seals =
              record {
                last_chain_index = e.chain_index;
                chain_hash = hash;
                event_count = e.chain_index - sealed_index (head s.seals);
                created_at = now;
              }
              ∷ s.seals;
        }
  ]

  -- `sealAuditChain`, with the value of `AUDIT_SEAL_INTERVAL_MINUTES` as its first argument.
  unfoldable pub seal_audit_chain : ℕ → ℕ → AuditStore → AuditStore
  seal_audit_chain interval now s = elim (get_last s.chained) [
    | none ↦ s
    | some e ↦ seal_event interval now s e
  ]
