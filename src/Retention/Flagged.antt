-- ===== src/Retention/Flagged.antt =====
-- `flagDueRetentions` of apps/api/src/ged-worker.ts keeps the two signatures of a destruction.
use isms_portal.Base.{
  ℕ, String, ◌≡◌, refl, Bool, true, false, List, [], ◌∷◌, map, arith, filter, take, update_where,
  All, All-mono, Distinct, All-update_where, mem-filter, unique_of_mem, All-trivial, mem-take,
  All-tabulate,
}
use isms_portal.Retention.{
  Destruction, kept, due, destroyed, Policy, RetentionStore, is_kept, has_id,
}
use isms_portal.Retention.Destroy.{is_due, with_status, flag_all, flag_due}
use isms_portal.Retention.Signed.{is_destroyed, IsOrderly, update_open-IsSafe}
use isms_portal.Retention.Decided.{IsSafeStore}

-- The policies that a run read, each of which is the only one with its identifier.
pub read_unique :
    (n : ℕ) (q : Policy → Bool) (policies : List Policy)
    → Distinct (map Policy.id policies)
    → All
        (λ p. (q p ≡ true) × All (λ x. has_id p.id x ≡ true → x ≡ p) policies)
        (take n (filter q policies))
read_unique n q policies u = All-tabulate _ (take n (filter q policies)) (λ p m.
    let (inside, passes) = mem-filter q policies p (mem-take n (filter q policies) p m) in
    (passes, unique_of_mem Policy.id policies p u inside))

abbrev is_open : Destruction → Bool
is_open kept = true
is_open due = true
is_open _ = false

open-not_destroyed : (st : Destruction) → is_open st ≡ true → is_destroyed st ≡ false
open-not_destroyed kept h = refl
open-not_destroyed due h = refl
open-not_destroyed destroyed h = absurd (ground arith)
open-not_destroyed _ h = ground arith

kept_open : (st : Destruction) → is_kept st ≡ true → is_open st ≡ true
kept_open kept h = refl
kept_open _ h = ground arith

due-IsOrderly : (now : ℕ) (x : Policy) → IsOrderly (with_status now due x)
due-IsOrderly now x = record {
  asked = λ e. absurd (ground arith);
  signed = λ e. absurd (ground arith);
}

abbrev AllOpen : List Policy → Policy → Type 0
AllOpen policies p = All (λ x. has_id p.id x ≡ true → is_open x.status ≡ true) policies

still_open :
    (now : ℕ) (id : String) (policies : List Policy) (p : Policy)
    → AllOpen policies p
    → AllOpen (update_where (has_id id) (with_status now due) policies) p
still_open now id policies p h =
    All-update_where (λ x. has_id p.id x ≡ true → is_open x.status ≡ true) (has_id id)
      (with_status now due) policies (λ x k hit same. refl) h

flag_all-IsSafe :
    (now : ℕ) (ps : List Policy) (s : RetentionStore)
    → All (AllOpen s.policies) ps
    → IsSafeStore s
    → IsSafeStore (flag_all now ps s)
flag_all-IsSafe now [] s k h = h
flag_all-IsSafe now (p ∷ ps) s (k, ks) h =
    flag_all-IsSafe now ps _
      (All-mono (AllOpen s.policies)
        (AllOpen (update_where (has_id p.id) (with_status now due) s.policies)) ps
        (λ x c. still_open now p.id s.policies x c) ks)
      (update_open-IsSafe s.documents s.policies (has_id p.id) (with_status now due) (λ x. refl)
        (All-mono (λ x. Unit {0}) _ s.policies (λ x u hit o. due-IsOrderly now x)
          (All-trivial s.policies))
        (All-mono (λ x. has_id p.id x ≡ true → is_open x.status ≡ true) _ s.policies
          (λ x c hit. open-not_destroyed x.status (c hit)) k)
        h)

pub flag_due-IsSafe :
    (now : ℕ) (s : RetentionStore) → IsSafeStore s → IsSafeStore (flag_due now s).0
unfolding flag_due
flag_due-IsSafe now s h =
    flag_all-IsSafe now (take 100 (filter (is_due now s) s.policies)) s
      (All-mono _ (AllOpen s.policies) (take 100 (filter (is_due now s) s.policies))
        (λ p (passes, only).
          All-mono (λ x. has_id p.id x ≡ true → x ≡ p) _ s.policies
            (λ x same hit. rw (same hit) (kept_open p.status (ground arith))) only)
        (read_unique 100 (is_due now s) s.policies h.distinct_policies))
      h
