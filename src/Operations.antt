-- ===== src/Operations.antt =====
-- The work of the scheduler: apps/api/src/notification-outbox.ts, and the incidents of
-- health-alerts.ts and worker-health.ts.
pub mod Outbox
use isms_portal.Base.{
  ℕ, ◌+◌, ◌-◌, ◌*◌, ◌^◌, min, String, Bool, true, false, not, ◌&&◌, ◌||◌, Option, none, some, List,
  [], ◌∷◌, ◌++◌, map, ltb, leb, ◌==◌, str_eq, if◌then◌else◌, is_none, filter, any, take,
  update_where, includes, order_by, ◌+++◌,
}

-- `NotificationOutbox`: `payload` is the text of the job.
pub record OutboxEntry : Type 0 where
  pub id : String
  pub payload : String
  pub queued_at : Option ℕ
  pub next_attempt_at : ℕ
  pub attempts : ℕ

abbrev pub is_due : ℕ → OutboxEntry → Bool
is_due now e = is_none e.queued_at && leb e.next_attempt_at now

-- `orderBy: [{ nextAttemptAt: "asc" }, { id: "asc" }]`, with the order of identifiers given.
abbrev pub comes_first : (String → String → Bool) → OutboxEntry → OutboxEntry → Bool
comes_first id_le a b =
    ltb a.next_attempt_at b.next_attempt_at
    || (a.next_attempt_at == b.next_attempt_at && id_le a.id b.id)

abbrev pub pending_entries : (String → String → Bool) → ℕ → List OutboxEntry → List OutboxEntry
pending_entries id_le now entries =
    take 100 (order_by (comes_first id_le) (filter (is_due now) entries))

abbrev pub with_id : String → OutboxEntry → Bool
with_id id e = str_eq e.id id

abbrev pub mark_queued : ℕ → OutboxEntry → OutboxEntry
mark_queued now e = record e { queued_at = some now; attempts = e.attempts + 1 }

-- `delay`, in milliseconds.
unfoldable pub retry_delay : ℕ → ℕ
retry_delay attempts = min 3600000 (30000 * 2 ^ min attempts 7)

abbrev pub put_off : ℕ → ℕ → OutboxEntry → OutboxEntry
put_off now attempts e = record e {
  attempts = e.attempts + 1;
  next_attempt_at = now + retry_delay attempts;
}

-- The loop of `dispatchOutbox`: `accepts` says whether the queue takes a job, and the list is the
-- jobs that it took.
unfoldable pub dispatch_each :
    (String → Bool) → ℕ → List OutboxEntry → List OutboxEntry → List OutboxEntry × List String
unfolding retry_delay
dispatch_each accepts now [] entries = (entries, [])
dispatch_each accepts now (e ∷ es) entries =
    let (rest, jobs) =
      dispatch_each accepts now es (update_where (with_id e.id) (mark_queued now) entries) in
    if accepts e.id
    then (rest, e.id ∷ jobs)
    else (update_where (with_id e.id) (put_off now e.attempts) entries, [])

-- `dispatchOutbox`
unfoldable pub dispatch_outbox :
    (String → String → Bool)
    → (String → Bool)
    → ℕ
    → List OutboxEntry
    → List OutboxEntry × List String
unfolding dispatch_each
dispatch_outbox id_le accepts now entries =
    dispatch_each accepts now (pending_entries id_le now entries) entries

abbrev pub is_old : ℕ → OutboxEntry → Bool
is_old now e = elim e.queued_at [ none ↦ false | some t ↦ ltb (t + 30 * 86400000) now ]

abbrev pub listed : List OutboxEntry → OutboxEntry → Bool
listed es e = any (with_id e.id) es

-- The part of `maintainHistory` for the outbox.
unfoldable pub maintain_outbox : ℕ → List OutboxEntry → List OutboxEntry
maintain_outbox now entries =
    let old = take 1000 (filter (is_old now) entries) in filter (λ e. not (listed old e)) entries

-- `HealthSnapshot`; the numbers of the disk are those of the file system.
pub record Disk : Type 0 where
  pub available_bytes : ℕ
  pub total_bytes : ℕ

-- `healthIncidents`, with `le` for the order of `sort`.
unfoldable pub health_incidents :
    (String → String → Bool) → List (String × Bool) → Option Disk → List String
health_incidents le services disk =
    let down =
      order_by le (map (λ s. "Service unavailable: " +++ s.0) (filter (λ s. not (s.1)) services)) in
    let unknown =
      if includes down "Service unavailable: storageMetrics"
      then down
      else down ++ "Document storage capacity could not be checked." ∷ [] in
    elim disk [
      | none ↦ unknown
      | some d ↦
          if d.total_bytes == 0
          then unknown
          else if ltb (10 * d.available_bytes) d.total_bytes
          then down ++ "Document storage has less than 10% free space." ∷ []
          else down
    ]

-- `healthyWorker`, for an object with the three fields, each `none` if it has another type.
unfoldable pub healthy_worker : ℕ → Option ℕ → Option Bool → Option Bool → Bool
healthy_worker now (some at) (some true) (some true) = leb at now && ltb (now - at) 180000
healthy_worker now _ _ _ = false
