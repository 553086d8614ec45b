-- ===== src/Retention/Held.antt =====
-- What a destruction of apps/api/src/ged-worker.ts leaves: the files that a version of another
-- document uses, for instance of a document on legal hold.
use isms_portal.Base.{
  ℕ, suc, String, ◌≡◌, refl, inl, inr, Bool, true, false, not, ◌&&◌, ◌||◌, Option, none, List, [],
  ◌∷◌, ◌++◌, map, Memᴰ, arith, ◌==◌, str_eq, Bool-cases, Option-cases, str_eq_iff, str_eq_self,
  filter, any, find, take, update_where, count_where, includes, All, All_of_mem, mem_of_find,
  mem-cons_cases, mem-filter, All-update_where_if, mem-take, All-tabulate,
}
use isms_portal.Retention.{
  Policy, RetentionStore, FileVersion, StoredFile, is_approved, is_destroying, approved,
  for_document,
}
use isms_portal.Retention.Destroy.{
  with_status, file_ids, concat_ids, files_of, document_files, uses, kept_ids, remove_objects,
  to_remove, Fate, skipped, done, thrown, claim, destroy_claimed, destroy_one, destroy_all,
  is_stale, recover, is_ready, execute_destructions, is_claimable,
}

includes-filter :
    (k x : String) (xs : List String)
    → str_eq k x ≡ false
    → includes xs x ≡ true
    → includes (filter (λ key. not (str_eq key k)) xs) x ≡ true
includes-filter k x [] other h = h
includes-filter k x (y ∷ ys) other h = elim (Bool-cases (str_eq y k)) [
  | inl t ↦
      let same : y ≡ k = (str_eq_iff y k).0 t in
      rw t (includes-filter k x ys other (rw (same, other) at h))
  | inr t ↦ rw t (ground (arith, includes-filter k x ys other))
]

includes-append :
    (x : String) (xs ys : List String) → includes xs x ≡ true → includes (xs ++ ys) x ≡ true
includes-append x [] ys h = absurd (ground arith)
includes-append x (y ∷ xs) ys h = ground (arith, includes-append x xs ys)

includes_after :
    (x : String) (xs ys : List String) → includes ys x ≡ true → includes (xs ++ ys) x ≡ true
includes_after x [] ys h = h
includes_after x (y ∷ xs) ys h = ground (arith, includes_after x xs ys h)

includes-concat :
    (q : FileVersion → Bool) (x : String) (v : FileVersion) (vs : List FileVersion)
    → Memᴰ v vs
    → q v ≡ true
    → includes (file_ids v) x ≡ true
    → includes (concat_ids (filter q vs)) x ≡ true
includes-concat q x v [] m t h = elim m [ ]
includes-concat q x v (w ∷ vs) (Memᴰ.head e) t h =
    rw (← e, t) (includes-append x (file_ids v) (concat_ids (filter q vs)) h)
includes-concat q x v (w ∷ vs) (Memᴰ.tail m) t h =
    let rest = includes-concat q x v vs m t h in
    elim (Bool-cases (q w)) [
      | inl u ↦ rw u (includes_after x (file_ids w) (concat_ids (filter q vs)) rest)
      | inr u ↦ rw u rest
    ]

mem-files_of :
    (ids : List String) (files : List StoredFile) (g : StoredFile)
    → Memᴰ g (files_of ids files)
    → Memᴰ g files
mem-files_of [] files g m = elim m [ ]
mem-files_of (id ∷ ids) files g m =
    elim (Option-cases (find (λ f. str_eq (StoredFile.id f) id) files)) [
      | inl t ↦
          let same : files_of (id ∷ ids) files ≡ files_of ids files = ground (arith, t) in
          mem-files_of ids files g (rw same at m)
      | inr (f, t) ↦
          let same : files_of (id ∷ ids) files ≡ f ∷ files_of ids files = ground (arith, t) in
          mem-cons_cases (Memᴰ g files) f g (files_of ids files) (rw same at m)
            (λ e. rw e (mem_of_find _ files f t)) (λ n. mem-files_of ids files g n)
    ]

any-includes :
    (x : String) (ids xs : List String)
    → includes ids x ≡ true
    → includes xs x ≡ true
    → any (includes ids) xs ≡ true
any-includes x ids [] h k = k
any-includes x ids (y ∷ ys) h k = elim (Bool-cases (str_eq y x)) [
  | inl t ↦ let same : y ≡ x = (str_eq_iff y x).0 t in rw (same, h) refl
  | inr t ↦ ground (arith, any-includes x ids ys h)
]

remove_objects-includes :
    (removes : String → Bool) (x : String) (fs : List StoredFile) (objects : List String)
    → All (λ f. str_eq (StoredFile.object_key f) x ≡ false) fs
    → includes objects x ≡ true
    → includes (remove_objects removes fs objects).0 x ≡ true
remove_objects-includes removes x [] objects h k = k
remove_objects-includes removes x (f ∷ fs) objects (h, hs) k =
    elim (Bool-cases (removes f.object_key)) [
      | inl t ↦
          let fewer : List String = filter (λ key. not (str_eq key f.object_key)) objects in
          let same : (remove_objects removes (f ∷ fs) objects).0
              ≡ (remove_objects removes fs fewer).0 =
            ground (arith, t) in
          rw same (
            remove_objects-includes removes x fs fewer hs
              (includes-filter f.object_key x objects h k))
      | inr t ↦
          let same : (remove_objects removes (f ∷ fs) objects).0 ≡ objects = ground (arith, t) in
          rw same k
    ]

includes_of_id :
    (f : StoredFile) (fs : List StoredFile)
    → Memᴰ f fs
    → includes (map StoredFile.id fs) f.id ≡ true
includes_of_id f [] m = elim m [ ]
includes_of_id f (g ∷ fs) (Memᴰ.head e) = rw (← e, str_eq_self) refl
includes_of_id f (g ∷ fs) (Memᴰ.tail m) = ground (arith, includes_of_id f fs m)

-- A policy that a run may carry out: approved, or left by a run that was interrupted.
abbrev pub can_run : Policy → Bool
can_run p = not p.legal_hold && (is_approved p.status || is_destroying p.status)

module _ (removes : String → Bool) (f : StoredFile) (v : FileVersion)
    (used : includes (file_ids v) f.id ≡ true) where
  abbrev OnlyKey : List StoredFile → Type 0
  OnlyKey files = All (λ g. str_eq (StoredFile.object_key g) f.object_key ≡ true → g ≡ f) files

  -- None of the objects that a destruction of another document removes is that of the file.
  spared :
      (p : Policy) (read : RetentionStore)
      → Memᴰ v read.versions
      → OnlyKey read.files
      → str_eq v.document_id p.document_id ≡ false
      → let files = document_files p.document_id read in
        All
          (λ g. str_eq (StoredFile.object_key g) f.object_key ≡ false)
          (filter (to_remove (kept_ids p.document_id files read.versions)) files)
  spared p read inside only other =
      let files = document_files p.document_id read in
      let keep = kept_ids p.document_id files read.versions in
      All-tabulate _ (filter (to_remove keep) files) (λ g m.
        let (among, passes) = mem-filter (to_remove keep) files g m in
        elim (Bool-cases (str_eq g.object_key f.object_key)) [
          | inr t ↦ t
          | inl t ↦
              let same : g ≡ f =
                All_of_mem (λ g. str_eq (StoredFile.object_key g) f.object_key ≡ true → g ≡ f)
                  read.files g only (mem-files_of _ read.files g among) t in
              let here : includes (map StoredFile.id files) f.id ≡ true =
                includes_of_id f files (rw same at among) in
              let stays : includes keep f.id ≡ true =
                includes-concat
                  (λ w.
                    not (str_eq (FileVersion.document_id w) p.document_id)
                    && uses (map StoredFile.id files) w)
                  f.id v read.versions inside
                  (rw other (any-includes f.id (map StoredFile.id files) (file_ids v) here used))
                  used in
              let passes_too : to_remove keep f ≡ true = rw (← same) passes in absurd (ground arith)
        ])

  -- What the loop does not touch.
  record IsKept (read s : RetentionStore) : Type 0 where
    versions : s.versions ≡ read.versions
    object : includes s.objects f.object_key ≡ true

  claimed_objects :
      (now : ℕ) (read : RetentionStore) (p : Policy) (s : RetentionStore)
      → let files = document_files p.document_id read in
        let left =
          (remove_objects removes
            (filter (to_remove (kept_ids p.document_id files s.versions)) files)
            s.objects).0 in
        ((destroy_claimed removes now read p s).0.versions ≡ s.versions)
        × ((destroy_claimed removes now read p s).0.objects ≡ left)
  claimed_objects now read p s =
      let files = document_files p.document_id read in
      elim (Bool-cases
        (remove_objects removes (filter (to_remove (kept_ids p.document_id files s.versions)) files)
          s.objects).1) [ inl t ↦ rw t (refl, refl) | inr t ↦ rw t (refl, refl) ]

  destroy_one-IsKept :
      (now : ℕ) (read : RetentionStore) (p : Policy) (s : RetentionStore)
      → Memᴰ v read.versions
      → OnlyKey read.files
      → str_eq v.document_id p.document_id ≡ false
      → IsKept read s
      → IsKept read (destroy_one removes now read p s).0
  unfolding destroy_one
  destroy_one-IsKept now read p s inside only other h =
      elim (Bool-cases (count_where (is_claimable p.id) s.policies == 1)) [
        | inr t ↦
            let same : destroy_one removes now read p s ≡ (s, skipped) = rw (destroy_one, t) refl in
            rw same h
        | inl t ↦
            let same : destroy_one removes now read p s
                ≡ destroy_claimed removes now read p (claim now p s) =
              rw (destroy_one, t) refl in
            let (versions, left) = claimed_objects now read p (claim now p s) in
            rw same (record {
              versions = rw versions h.versions;
              object =
                  rw (left, h.versions)
                    (remove_objects-includes removes f.object_key _ s.objects
                      (spared p read inside only other) h.object);
            })
      ]

  destroy_all-object :
      (now : ℕ) (read : RetentionStore) (ps : List Policy) (s : RetentionStore) (n : ℕ)
      → Memᴰ v read.versions
      → OnlyKey read.files
      → All (λ p. str_eq v.document_id (Policy.document_id p) ≡ false) ps
      → IsKept read s
      → includes (destroy_all removes now read ps s n).0.objects f.object_key ≡ true
  destroy_all-object now read [] s n inside only others h = h.object
  destroy_all-object now read (p ∷ ps) s n inside only (other, others) h =
      let t = (destroy_one removes now read p s).0 in
      let after = destroy_one-IsKept now read p s inside only other h in
      go (destroy_one removes now read p s).1 t after.object
        (destroy_all-object now read ps t n inside only others after)
        (destroy_all-object now read ps t (suc n) inside only others after)
    where
      go :
          (fate : Fate) (t : RetentionStore)
          → includes t.objects f.object_key ≡ true
          → includes (destroy_all removes now read ps t n).0.objects f.object_key ≡ true
          → includes (destroy_all removes now read ps t (suc n)).0.objects f.object_key ≡ true
          → includes
              (elim fate as (λ x. RetentionStore × Option ℕ) [
                | skipped ↦ destroy_all removes now read ps t n
                | done ↦ destroy_all removes now read ps t (suc n)
                | thrown ↦ (t, none)
              ]).0.objects
              f.object_key
            ≡ true
      go skipped t k same next = same
      go done t k same next = next
      go thrown t k same next = k

  not_ready :
      (now : ℕ) (document : String) (policies : List Policy)
      → All (λ x. for_document document x ≡ true → can_run x ≡ false) policies
      → All
          (λ x. for_document document x ≡ true → is_ready x ≡ false)
          (update_where (is_stale now) (with_status now approved) policies)
  not_ready now document policies h =
      All-update_where_if (λ x. for_document document x ≡ true → is_ready x ≡ false)
        (λ x. for_document document x ≡ true → can_run x ≡ false) (is_stale now)
        (with_status now approved) policies (λ x k hit e. let still = k e in ground arith)
        (λ x k miss e. let still = k e in ground arith) h

  -- A run of the worker does not remove the object of a file that some version of a document
  -- uses, if no policy of this document may run: each is on legal hold, or its destruction is
  -- neither approved nor under way. This holds whatever other documents share the file, and
  -- whatever the storage does, where no other file has the same object.
  pub shared_object :
      (now : ℕ) (s : RetentionStore)
      → Memᴰ v s.versions
      → All (λ g. str_eq (StoredFile.object_key g) f.object_key ≡ true → g ≡ f) s.files
      → All (λ x. for_document v.document_id x ≡ true → can_run x ≡ false) s.policies
      → includes s.objects f.object_key ≡ true
      → includes (execute_destructions removes now s).0.objects f.object_key ≡ true
  unfolding execute_destructions
  shared_object now s inside only safe here =
      let read = recover now s in
      let quiet = not_ready now v.document_id s.policies safe in
      destroy_all-object now read (take 10 (filter is_ready read.policies)) read 0 inside only
        (All-tabulate _ (take 10 (filter is_ready read.policies)) (λ p m.
          let (among, ready) =
            mem-filter is_ready read.policies p (mem-take 10 (filter is_ready read.policies) p m) in
          let still =
            All_of_mem (λ x. for_document v.document_id x ≡ true → is_ready x ≡ false) read.policies
              p quiet among in
          elim (Bool-cases (str_eq v.document_id p.document_id)) [
            | inr t ↦ t
            | inl t ↦
                let same : v.document_id ≡ p.document_id =
                  (str_eq_iff v.document_id p.document_id).0 t in
                let stuck = still (rw (same, str_eq_self) refl) in absurd (ground arith)
          ]))
        (record { versions = refl; object = here })
