-- ===== src/Retention/Loop.antt =====
-- The loop of `executeApprovedDestructions` of apps/api/src/ged-worker.ts on a policy that it read,
-- where the storage removes every object.
use mathlib.Core.Path.{subst}
use isms_portal.Base.{
  ℕ, suc, String, ◌≡◌, refl, sym, ap, ◌∙◌, inl, inr, Bool, true, false, false≢true, Option, none,
  some, List, [], ◌∷◌, map, Memᴰ, ◌==◌, str_eq, Bool-cases, str_eq_iff, count_where, All, Distinct,
  single_mem,
}
use isms_portal.Retention.{Policy, RetentionStore, has_id}
use isms_portal.Retention.Destroy.{
  is_claimable, is_ready, deleted_time, Fate, skipped, done, thrown, destroy_one, destroy_all,
}
use isms_portal.Retention.Worked.{
  IsGone, worked, worked-Distinct, worked-leaves, worked-IsGone, worked-ends, one_cases,
}

module _ (removes : String → Bool) (works : (key : String) → removes key ≡ true) (now : ℕ)
    (read : RetentionStore) where
  -- The document is destroyed, and the loop came to its end.
  abbrev pub Ends : String → String → Option ℕ → RetentionStore × Option ℕ → Type 0
  Ends id document until (t, n) = IsGone id document until t × ((k : ℕ) × (n ≡ some k))

  abbrev go_on : List Policy → ℕ → RetentionStore × Fate → RetentionStore × Option ℕ
  go_on ps n (t, fate) = elim fate [
    | skipped ↦ destroy_all removes now read ps t n
    | done ↦ destroy_all removes now read ps t (suc n)
    | thrown ↦ (t, none)
  ]

  -- One round of the loop, by how its body ends.
  after_one :
      (p : Policy) (ps : List Policy) (s : RetentionStore) (n : ℕ) (x : RetentionStore × Fate)
      → destroy_one removes now read p s ≡ x
      → destroy_all removes now read (p ∷ ps) s n ≡ go_on ps n x
  after_one p ps s n x e = ap (go_on ps n) e

  gone-Ends :
      (id document : String) (until : Option ℕ) (ps : List Policy) (s : RetentionStore) (n : ℕ)
      → IsGone id document until s
      → Ends id document until (destroy_all removes now read ps s n)
  gone-Ends id document until [] s n h = (h, (n, refl))
  gone-Ends id document until (p ∷ ps) s n h = elim (one_cases removes works now read p s) [
    | inl (t, e) ↦
        subst (Ends id document until) (sym (after_one p ps s n _ e))
          (gone-Ends id document until ps s n h)
    | inr (gone, objects, e) ↦
        let at = deleted_time p.document_id read in
        subst (Ends id document until) (sym (after_one p ps s n _ e)) (
          gone-Ends id document until ps (worked now gone objects at p s) (suc n)
            (worked-IsGone now gone objects at p id document until s h))
  ]

  claimable_once :
      (q : Policy) (ps : List Policy)
      → Distinct (map Policy.id ps)
      → Memᴰ q ps
      → is_ready q ≡ true
      → count_where (is_claimable q.id) ps ≡ 1
  claimable_once q ps d m ready = single_mem Policy.id is_ready ps q d m ready

  pub ready-Ends :
      (q : Policy) (ps : List Policy) (s : RetentionStore) (n : ℕ)
      → is_ready q ≡ true
      → Distinct (map Policy.id s.policies)
      → Memᴰ q s.policies
      → All (λ x. has_id q.id x ≡ true → x ≡ q) ps
      → Memᴰ q ps
      → Ends q.id q.document_id q.retention_until (destroy_all removes now read ps s n)
  ready-Ends q [] s n ready d m only listed = elim listed [ ]
  ready-Ends q (p ∷ ps) s n ready d m (same, rest) listed = elim (Bool-cases (str_eq q.id p.id)) [
    | inl hit ↦
        let e : p ≡ q = same ((str_eq_iff _ _).1 (sym ((str_eq_iff _ _).0 hit))) in
        let once = claimable_once q s.policies d m ready in
        elim (one_cases removes works now read p s) [
          | inl (t, k) ↦ absurd (false≢true (sym (rw e at t) ∙ ap (λ c. c == 1) once))
          | inr (gone, objects, k) ↦
              let at = deleted_time p.document_id read in
              let ended =
                subst
                  (λ x.
                    IsGone x.id x.document_id x.retention_until (worked now gone objects at p s))
                  e (worked-ends now gone objects at p s (rw e m) (rw e ready)) in
              subst (Ends q.id q.document_id q.retention_until) (sym (after_one p ps s n _ k)) (
                gone-Ends q.id q.document_id q.retention_until ps (worked now gone objects at p s)
                  (suc n) ended)
        ]
    | inr other ↦
        let later = passed other listed in
        elim (one_cases removes works now read p s) [
          | inl (t, k) ↦
              subst (Ends q.id q.document_id q.retention_until) (sym (after_one p ps s n _ k))
                (ready-Ends q ps s n ready d m rest later)
          | inr (gone, objects, k) ↦
              let at = deleted_time p.document_id read in
              subst (Ends q.id q.document_id q.retention_until) (sym (after_one p ps s n _ k)) (
                ready-Ends q ps (worked now gone objects at p s) (suc n) ready
                  (worked-Distinct now gone objects at p s d)
                  (worked-leaves now gone objects at p q s other m) rest later)
        ]
  ]
    where
      passed : str_eq q.id p.id ≡ false → Memᴰ q (p ∷ ps) → Memᴰ q ps
      passed other (Memᴰ.head e) =
          absurd (false≢true (sym other ∙ (str_eq_iff _ _).1 (ap Policy.id e)))
      passed other (Memᴰ.tail k) = k
