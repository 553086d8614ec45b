-- ===== src/Retention/Run.antt =====
-- `executeApprovedDestructions` of apps/api/src/ged-worker.ts and `restoreFromTrash` of
-- controllers.ts keep the two signatures of a destruction.
use isms_portal.Base.{
  ℕ, suc, String, ◌≡◌, refl, ap, ◌⊎◌, inl, inr, Bool, true, not, ◌&&◌, Option, none, List, [], ◌∷◌,
  map, arith, ◌==◌, str_eq, Bool-cases, is_some, is_none, filter, take, update_where, count_where,
  includes, All, All-mono, All-update_where, map-update_where,
}
use isms_portal.Retention.{destroying, Policy, RetainedDocument, RetentionStore, StoredFile, has_id}
use isms_portal.Retention.Destroy.{
  is_claimable, claim, destroy_claimed, destroy_one, destroy_all, execute_destructions, Fate,
  skipped, done, thrown, bury_all, recover, is_ready, restore_from_trash, document_files, kept_ids,
  remove_objects, to_remove, deleted_time,
}
use isms_portal.Retention.Signed.{IsBuried}
use isms_portal.Retention.Decided.{IsSafeStore}
use isms_portal.Retention.Flagged.{read_unique}
use isms_portal.Retention.Claimed.{
  recover-IsSafe, claim-IsSafe, claimed, claimed_there, finished_there, finish-IsSafe, bury-IsSafe,
  IsNamed, update_where-IsNamed, finish-IsNamed,
}

module _ (removes : String → Bool) where
  -- The two ends of a destruction that was claimed.
  claimed_cases :
      (now : ℕ) (read : RetentionStore) (p : Policy) (s : RetentionStore)
      → ((objects : List String) × (destroy_claimed removes now read p s
            ≡ (record s { objects = objects }, thrown)))
        ⊎ ((objects : List String) × (gone : List String) × (destroy_claimed removes now read p s
              ≡ (
                bury_all now gone
                    (deleted_time p.document_id read)
                    p
                    (record s { objects = objects }),
                done,
              )))
  claimed_cases now read p s =
      let files = document_files p.document_id read in
      let keep = kept_ids p.document_id files s.versions in
      let answer = remove_objects removes (filter (to_remove keep) files) s.objects in
      elim (Bool-cases answer.1) [
        | inl t ↦
            inr (
              answer.0,
              map StoredFile.id (filter (λ f. not (includes keep f.id)) files),
              rw t refl,
            )
        | inr t ↦ inl (answer.0, rw t refl)
      ]

  destroy_one-IsSafe :
      (now : ℕ) (read : RetentionStore) (p : Policy) (ps : List Policy) (s : RetentionStore)
      → All (IsNamed s.policies) (p ∷ ps)
      → IsSafeStore s
      → IsSafeStore (destroy_one removes now read p s).0
        × All (IsNamed (destroy_one removes now read p s).0.policies) ps
  unfolding destroy_one
  destroy_one-IsSafe now read p ps s (k, ks) h =
      elim (Bool-cases (count_where (is_claimable p.id) s.policies == 1)) [
        | inr t ↦
            let same : destroy_one removes now read p s ≡ (s, skipped) = rw (destroy_one, t) refl in
            rw same (h, ks)
        | inl t ↦
            let same : destroy_one removes now read p s
                ≡ destroy_claimed removes now read p (claim now p s) =
              rw (destroy_one, t) refl in
            let one : count_where (is_claimable p.id) s.policies ≡ 1 = ground arith in
            let safe = claim-IsSafe now p s h in
            let mine = claimed now p s.policies h.distinct_policies one k in
            let there =
              finished_there now p.id p.document_id _ mine
                (claimed_there now p.id s.policies one) in
            let named = update_where-IsNamed (is_claimable p.id) now destroying s.policies ps ks in
            elim (claimed_cases now read p (claim now p s)) [
              | inl (objects, e) ↦ rw (same, e) (safe, named)
              | inr (objects, gone, e) ↦
                  rw (same, e)
                    (
                      bury-IsSafe now p.document_id (deleted_time p.document_id read) s.documents _
                          there (finish-IsSafe now p.id p.document_id s.documents _ mine safe),
                      finish-IsNamed (has_id p.id) now _ ps named,
                    )
            ]
      ]

  destroy_all-IsSafe :
      (now : ℕ) (read : RetentionStore) (ps : List Policy) (s : RetentionStore) (n : ℕ)
      → All (IsNamed s.policies) ps
      → IsSafeStore s
      → IsSafeStore (destroy_all removes now read ps s n).0
  destroy_all-IsSafe now read [] s n k h = h
  destroy_all-IsSafe now read (p ∷ ps) s n k h =
      let (safe, named) = destroy_one-IsSafe now read p ps s k h in
      let t = (destroy_one removes now read p s).0 in
      go (destroy_one removes now read p s).1 t safe (destroy_all-IsSafe now read ps t n named safe)
        (destroy_all-IsSafe now read ps t (suc n) named safe)
    where
      go :
          (fate : Fate) (t : RetentionStore)
          → IsSafeStore t
          → IsSafeStore (destroy_all removes now read ps t n).0
          → IsSafeStore (destroy_all removes now read ps t (suc n)).0
          → IsSafeStore
              (elim fate as (λ x. RetentionStore × Option ℕ) [
                | skipped ↦ destroy_all removes now read ps t n
                | done ↦ destroy_all removes now read ps t (suc n)
                | thrown ↦ (t, none)
              ]).0
      go skipped t safe same next = same
      go done t safe same next = next
      go thrown t safe same next = safe

  pub execute_destructions-IsSafe :
      (now : ℕ) (s : RetentionStore)
      → IsSafeStore s
      → IsSafeStore (execute_destructions removes now s).0
  unfolding execute_destructions
  execute_destructions-IsSafe now s h =
      let read = recover now s in
      let safe = recover-IsSafe now s h in
      destroy_all-IsSafe now read (take 10 (filter is_ready read.policies)) read 0
        (All-mono _ (IsNamed read.policies) (take 10 (filter is_ready read.policies))
          (λ p (ready, only).
            All-mono (λ x. has_id p.id x ≡ true → x ≡ p)
              (λ x. has_id p.id x ≡ true → x.document_id ≡ p.document_id) read.policies
              (λ x same hit. ap Policy.document_id (same hit)) only)
          (read_unique 10 is_ready read.policies safe.distinct_policies))
        safe

restore_cases :
    (user id : String) (s : RetentionStore)
    → ((restore_from_trash user id s).0 ≡ s)
      ⊎ (((restore_from_trash user id s).0.policies ≡ s.policies)
          × ((restore_from_trash user id s).0.documents
              ≡ update_where
                  (λ d.
                    str_eq (RetainedDocument.id d) id
                    && (is_some d.deleted_at && is_none d.destroyed_at))
                  (λ d. record d { deleted_at = none; is_archived = true })
                  s.documents))
unfolding restore_from_trash
restore_cases user id s =
    elim (Bool-cases (
      count_where
        (λ d. str_eq (RetainedDocument.id d) id && (is_some d.deleted_at && is_none d.destroyed_at))
        s.documents
      == 1)) [
        | inl t ↦ inr (rw (restore_from_trash, t) (refl, refl))
        | inr t ↦ inl (rw (restore_from_trash, t) refl)
      ]

pub restore_from_trash-IsSafe :
    (user id : String) (s : RetentionStore)
    → IsSafeStore s
    → IsSafeStore (restore_from_trash user id s).0
restore_from_trash-IsSafe user id s h = elim (restore_cases user id s) [
  | inl same ↦ rw same h
  | inr (policies, documents) ↦
      rw (policies, documents)
        (record {
          distinct_documents =
              rw
                (map-update_where RetainedDocument.id _
                  (λ d. record d { deleted_at = none; is_archived = true }) s.documents (λ d. refl))
                h.distinct_documents;
          distinct_policies = h.distinct_policies;
          orderly = h.orderly;
          buried =
              All-update_where (IsBuried s.policies) _
                (λ d. record d { deleted_at = none; is_archived = true }) s.documents
                (λ d b hit dead. absurd (ground arith)) h.buried;
        })
]
