-- ===== src/Retention/Worked.antt =====
-- What `executeApprovedDestructions` of apps/api/src/ged-worker.ts does to a policy that it reads,
-- where the storage removes every object.
use mathlib.Core.Path.{subst}
use isms_portal.Base.{
  ℕ, String, ◌≡◌, refl, sym, ◌∙◌, ◌⊎◌, inl, inr, Bool, true, false, false≢true, not, Option, List,
  [], ◌∷◌, map, Memᴰ, arith, ◌==◌, str_eq, Bool-cases, is_some, str_eq_iff, str_eq_self, filter,
  update_where, count_where, includes, All, Distinct, All-update_where, map-update_where,
  mem-update_where, mem-updated,
}
use isms_portal.Retention.{
  destroying, destroyed, Policy, RetainedDocument, RetentionStore, StoredFile, has_id,
}
use isms_portal.Retention.Destroy.{
  with_status, is_claimable, claim, bury, finish, bury_all, is_ready, skipped, done, remove_objects,
  document_files, kept_ids, to_remove, deleted_time, destroy_one,
}

-- The policy and its document are destroyed, and the policy has this end of the retention.
abbrev pub IsGone : String → String → Option ℕ → RetentionStore → Type 0
IsGone id document until s =
    ((w : Policy) × Memᴰ w s.policies
      × (w.id ≡ id)
      × (w.status ≡ destroyed)
      × (w.retention_until ≡ until))
    × All (λ d. RetainedDocument.id d ≡ document → is_some d.destroyed_at ≡ true) s.documents

module _ (now : ℕ) (gone objects : List String) (deleted_at : Option ℕ) (p : Policy) where
  -- The store after a policy is claimed and its document destroyed.
  abbrev pub worked : RetentionStore → RetentionStore
  worked s = bury_all now gone deleted_at p (record (claim now p s) { objects = objects })

  pub worked-Distinct :
      (s : RetentionStore)
      → Distinct (map Policy.id s.policies)
      → Distinct (map Policy.id (worked s).policies)
  worked-Distinct s h =
      let claims =
        map-update_where Policy.id (is_claimable p.id) (with_status now destroying) s.policies
          (λ x. refl) in
      let ends =
        map-update_where Policy.id (has_id p.id) (finish now) (claim now p s).policies
          (λ x. refl) in
      subst Distinct (sym claims ∙ sym ends) h

  pub worked-leaves :
      (q : Policy) (s : RetentionStore)
      → str_eq q.id p.id ≡ false
      → Memᴰ q s.policies
      → Memᴰ q (worked s).policies
  worked-leaves q s other m =
      mem-update_where (has_id p.id) (finish now) (claim now p s).policies q
        (mem-update_where (is_claimable p.id) (with_status now destroying) s.policies q m
          (rw other refl))
        other

  buried-IsGone :
      (document : String) (ds : List RetainedDocument)
      → All (λ d. RetainedDocument.id d ≡ document → is_some d.destroyed_at ≡ true) ds
      → All
          (λ d. RetainedDocument.id d ≡ document → is_some d.destroyed_at ≡ true)
          (update_where
            (λ d. str_eq (RetainedDocument.id d) p.document_id)
            (bury now deleted_at)
            ds)
  buried-IsGone document ds h =
      All-update_where (λ d. RetainedDocument.id d ≡ document → is_some d.destroyed_at ≡ true)
        (λ d. str_eq (RetainedDocument.id d) p.document_id) (bury now deleted_at) ds
        (λ d k hit e. refl) h

  pub worked-IsGone :
      (id document : String) (until : Option ℕ) (s : RetentionStore)
      → IsGone id document until s
      → IsGone id document until (worked s)
  worked-IsGone id document until s ((w, m, same, status, dated), ds) =
      let held =
        mem-update_where (is_claimable p.id) (with_status now destroying) s.policies w m
          (unclaimable w status) in
      (
        elim (Bool-cases (has_id p.id w)) [
          | inl hit ↦ (
            finish now w,
            mem-updated (has_id p.id) (finish now) (claim now p s).policies w held hit,
            same,
            refl,
            dated,
          )
          | inr miss ↦ (
            w,
            mem-update_where (has_id p.id) (finish now) (claim now p s).policies w held miss,
            same,
            status,
            dated,
          )
        ],
        buried-IsGone document s.documents ds,
      )
    where
      unclaimable : (w : Policy) → w.status ≡ destroyed → is_claimable p.id w ≡ false
      unclaimable w e = rw e (ground arith)

  buried_documents :
      (ds : List RetainedDocument)
      → All
          (λ d. RetainedDocument.id d ≡ p.document_id → is_some d.destroyed_at ≡ true)
          (update_where
            (λ d. str_eq (RetainedDocument.id d) p.document_id)
            (bury now deleted_at)
            ds)
  buried_documents [] = tt
  buried_documents (d ∷ ds) = (
    elim (Bool-cases (str_eq d.id p.document_id)) [
      | inl hit ↦ rw hit (λ e. refl)
      | inr miss ↦ rw miss (λ e. absurd (false≢true (sym miss ∙ (str_eq_iff _ _).1 e)))
    ],
    buried_documents ds,
  )

  pub worked-ends :
      (s : RetentionStore)
      → Memᴰ p s.policies
      → is_ready p ≡ true
      → IsGone p.id p.document_id p.retention_until (worked s)
  worked-ends s m ready =
      let mine : has_id p.id p ≡ true = str_eq_self p.id in
      let hit : is_claimable p.id p ≡ true = ground arith in
      (
        (
          finish now (with_status now destroying p),
          mem-updated (has_id p.id) (finish now) (claim now p s).policies
              (with_status now destroying p)
              (mem-updated (is_claimable p.id) (with_status now destroying) s.policies p m hit)
              mine,
          refl,
          refl,
          refl,
        ),
        buried_documents s.documents,
      )

module _ (removes : String → Bool) (works : (key : String) → removes key ≡ true) where
  remove_objects-all :
      (fs : List StoredFile) (objects : List String) → (remove_objects removes fs objects).1 ≡ true
  remove_objects-all [] objects = refl
  remove_objects-all (f ∷ fs) objects =
      rw (remove_objects, works f.object_key)
        (remove_objects-all fs (filter (λ key. not (str_eq key f.object_key)) objects))

  -- The body of the loop passes a policy over, or destroys its document.
  pub one_cases :
      (now : ℕ) (read : RetentionStore) (p : Policy) (s : RetentionStore)
      → ((count_where (is_claimable p.id) s.policies == 1 ≡ false)
          × (destroy_one removes now read p s ≡ (s, skipped)))
        ⊎ ((gone : List String) × (objects : List String) × (destroy_one removes now read p s
              ≡ (worked now gone objects (deleted_time p.document_id read) p s, done)))
  unfolding destroy_one
  one_cases now read p s =
      let files = document_files p.document_id read in
      let claims = claim now p s in
      let keep = kept_ids p.document_id files claims.versions in
      let removed = remove_objects-all (filter (to_remove keep) files) claims.objects in
      elim (Bool-cases (count_where (is_claimable p.id) s.policies == 1)) [
        | inr t ↦ inl (t, rw (destroy_one, t) refl)
        | inl t ↦ inr (
          map StoredFile.id (filter (λ f. not (includes keep f.id)) files),
          (remove_objects removes (filter (to_remove keep) files) claims.objects).0,
          rw (destroy_one, t, removed) refl,
        )
      ]
