-- ===== src/Ged/Excluded.antt =====
-- While a document is locked, the locks, unlocks and restored versions of others leave it locked:
-- apps/api/src/ged.controller.ts.
use isms_portal.Base.{
  ℕ, String, ◌≡◌, refl, ◌⊎◌, inl, inr, Bool, true, false, not, ◌&&◌, some, List, [], ◌∷◌, map, Memᴰ,
  arith, ltb, ◌==◌, str_eq, Bool-cases, Option-cases, is_some, is_none, str_eq_iff, find,
  update_where, count_where, All, find_sound, All_of_mem, All-mono, Distinct, All-update_where,
  mem_of_find,
}
use isms_portal.Access.Roles.{is_admin_identity}
use isms_portal.Ged.{
  GedDocument, GedStore, locked_by_other, find_document, is_refused, done, not_found, locked,
  is_mine, take_lock, drop_lock, editable_document, lock_row, lock, unlock, restore_version,
  GedVersion, is_clean, newest, number_of,
}
use isms_portal.Ged.Locked.{
  IsPaired, IsLockedBy, editable_there, lock_cases, lock_takes, update_where_none,
}

find_any :
    (id : String) (xs : List GedDocument) (d : GedDocument)
    → find (λ x. str_eq (GedDocument.id x) id && is_none x.deleted_at) xs ≡ some d
    → (e : GedDocument) × (find_document id xs ≡ some e)
find_any id [] d h = absurd (ground arith)
find_any id (x ∷ xs) d h = elim (Bool-cases (str_eq (GedDocument.id x) id)) [
  | inl t ↦ (x, rw t refl)
  | inr t ↦ let (e, k) = find_any id xs d (ground arith) in (e, rw t k)
]

count_where_none :
    (p : GedDocument → Bool) (xs : List GedDocument)
    → All (λ d. p d ≡ false) xs
    → count_where p xs ≡ 0
count_where_none p [] h = refl
count_where_none p (x ∷ xs) (h, hs) = ground (arith, count_where_none p xs hs)

module _ (lower : String → String) (insensitive : String → String → Bool) where
  -- What the others may try before the end of a lock of `user`: an administrator alone may take
  -- it away.
  pub data OthersStep (user : String) (end : ℕ) : GedStore → GedStore → Type 0 where
    locks :
        (now : ℕ) (other : String) (groups : List String) (id : String) {s : GedStore}
        → ltb now end ≡ true
        → str_eq user other ≡ false
        → OthersStep user end s (lock lower insensitive now other groups id s).0
    unlocks :
        (now : ℕ) (other : String) (groups : List String) (id : String) {s : GedStore}
        → ltb now end ≡ true
        → str_eq user other ≡ false
        → is_admin_identity groups ≡ false
        → OthersStep user end s (unlock lower insensitive now other groups id s).0
    restores :
        (now : ℕ) (other : String) (groups : List String) (id version_id fresh summary : String)
        {s : GedStore}
        → OthersStep user end s
            (restore_version lower insensitive now other groups id version_id fresh summary s).0

  pub data Others (user : String) (end : ℕ) (s : GedStore) : GedStore → Type 0 where
    here : Others user end s s
    next : {t u : GedStore} → Others user end s t → OthersStep user end t u → Others user end s u

  module _ (id user : String) (end : ℕ) (named : str_eq user "" ≡ false) where
    not_mine :
        (now : ℕ) (other at : String) (d : GedDocument)
        → ltb now end ≡ true
        → str_eq user other ≡ false
        → d.locked_by ≡ some user
        → d.lock_expires_at ≡ some end
        → is_mine now other at d ≡ false
    not_mine now other at d soon apart by ends = ground arith

    lock_row-keeps :
        (now : ℕ) (other at : String) (s : GedStore)
        → ltb now end ≡ true
        → str_eq user other ≡ false
        → All (IsLockedBy id user end) s.documents
        → All (IsLockedBy id user end) (lock_row lower insensitive now other at s).0.documents
    lock_row-keeps now other at s soon apart h =
        elim (Bool-cases (
          not (count_where (is_mine now other at) s.documents == 1)
          && is_refused now other at
              (update_where (is_mine now other at) (take_lock now other) s.documents))) [
                | inl t ↦ rw t rows
                | inr t ↦ rw t rows
              ]
      where
        rows :
            All
              (IsLockedBy id user end)
              (update_where (is_mine now other at) (take_lock now other) s.documents)
        rows =
            All-update_where (IsLockedBy id user end) (is_mine now other at) (take_lock now other)
              s.documents
              (λ d k hit e.
                let (by, ends) = k e in
                let miss = not_mine now other at d soon apart by ends in absurd (ground arith))
              h

    held_by_other :
        (now : ℕ) (other : String) (d : GedDocument)
        → ltb now end ≡ true
        → str_eq user other ≡ false
        → d.locked_by ≡ some user
        → d.lock_expires_at ≡ some end
        → locked_by_other now other d ≡ true
    unfolding locked_by_other
    held_by_other now other d soon apart by ends = ground (arith, named)

    unlock_cases :
        (now : ℕ) (other : String) (groups : List String) (at : String) (s : GedStore)
        → is_admin_identity groups ≡ false
        → ((unlock lower insensitive now other groups at s).0 ≡ s)
          ⊎ ((d : GedDocument) × (editable_document lower insensitive now groups at s ≡ some d)
              × (locked_by_other now other d ≡ false)
              × ((unlock lower insensitive now other groups at s).0.documents
                  ≡ update_where (λ x. str_eq (GedDocument.id x) at) drop_lock s.documents))
    unfolding unlock
    unlock_cases now other groups at s plain =
        elim (Option-cases (editable_document lower insensitive now groups at s)) [
          | inl t ↦ inl (rw (unlock, t) refl)
          | inr (d, t) ↦ elim (Bool-cases (locked_by_other now other d)) [
            | inl u ↦ inl (rw (unlock, t, u, plain) refl)
            | inr u ↦ inr (d, t, u, rw (unlock, t, u) refl)
          ]
        ]

    unlock-keeps :
        (now : ℕ) (other : String) (groups : List String) (at : String) (s : GedStore)
        → ltb now end ≡ true
        → str_eq user other ≡ false
        → is_admin_identity groups ≡ false
        → All (IsLockedBy id user end) s.documents
        → All (IsLockedBy id user end) (unlock lower insensitive now other groups at s).0.documents
    unlock-keeps now other groups at s soon apart plain h =
        elim (unlock_cases now other groups at s plain) [
          | inl same ↦ rw same h
          | inr (d, found, free, changed) ↦
              let there = editable_there lower insensitive now groups at s d found in
              let here : d.id ≡ at =
                (str_eq_iff d.id at).0 (ground (arith, find_sound _ s.documents d there)) in
              let mine =
                All_of_mem (IsLockedBy id user end) s.documents d h
                  (mem_of_find _ s.documents d there) in
              rw changed (
                All-update_where (IsLockedBy id user end) (λ x. str_eq (GedDocument.id x) at)
                  drop_lock s.documents
                  (λ x k hit e.
                    let same : x.id ≡ at = (str_eq_iff x.id at).0 hit in
                    let this : str_eq d.id id ≡ true = rw (here, ← same) e in
                    let (by, ends) = mine this in
                    let held = held_by_other now other d soon apart by ends in
                    absurd (ground arith))
                  h)
        ]

    restore_cases :
        (now : ℕ) (other : String) (groups : List String) (at version_id fresh summary : String)
        (s : GedStore)
        → ((restore_version lower insensitive now other groups at version_id fresh summary
              s).0.documents
            ≡ s.documents)
          ⊎ ((restore_version lower insensitive now other groups at version_id fresh summary
                s).0.documents
              ≡ update_where
                  (λ d. str_eq (GedDocument.id d) at)
                  (λ d. record d { is_published = false })
                  s.documents)
    unfolding restore_version
    restore_cases now other groups at version_id fresh summary s =
        elim (Option-cases (editable_document lower insensitive now groups at s)) [
          | inl t ↦ inl (rw (restore_version, t) refl)
          | inr (d, t) ↦ elim (Bool-cases (is_refused now other at s.documents)) [
            | inl u ↦ inl (rw (restore_version, t, u) refl)
            | inr u ↦
                elim (Option-cases (
                  find (λ v. str_eq (GedVersion.id v) version_id && str_eq v.document_id at)
                    s.versions)) [
                      | inl v ↦ inl (rw (restore_version, t, u, v) refl)
                      | inr (source, v) ↦ elim (Bool-cases (is_clean source)) [
                        | inr w ↦ inl (rw (restore_version, t, u, v, w) refl)
                        | inl w ↦
                            elim (Bool-cases (
                              is_some (newest at source.locale s.versions)
                              && number_of (newest at source.locale s.versions)
                                == source.version)) [
                                  | inl x ↦ inl (rw (restore_version, t, u, v, w, x) refl)
                                  | inr x ↦ inr (rw (restore_version, t, u, v, w, x) refl)
                                ]
                      ]
                    ]
          ]
        ]

    OthersStep-keeps :
        {s t : GedStore}
        → OthersStep user end s t
        → All (IsLockedBy id user end) s.documents
        → All (IsLockedBy id user end) t.documents
    OthersStep-keeps (locks now other groups at {s} soon apart) h =
        elim (lock_cases lower insensitive now other groups at s) [
          | inl same ↦ rw same h
          | inr (d, found, same) ↦ rw same (lock_row-keeps now other at s soon apart h)
        ]
    OthersStep-keeps (unlocks now other groups at {s} soon apart plain) h =
        unlock-keeps now other groups at s soon apart plain h
    OthersStep-keeps (restores now other groups at version_id fresh summary {s}) h =
        elim (restore_cases now other groups at version_id fresh summary s) [
          | inl same ↦ rw same h
          | inr changed ↦ rw changed (
              All-update_where (IsLockedBy id user end) (λ d. str_eq (GedDocument.id d) at)
                (λ d. record d { is_published = false }) s.documents (λ d k hit. k) h)
        ]

    Others-keeps :
        {s t : GedStore}
        → Others user end s t
        → All (IsLockedBy id user end) s.documents
        → All (IsLockedBy id user end) t.documents
    Others-keeps here h = h
    Others-keeps (next r st) h = OthersStep-keeps st (Others-keeps r h)

    refused_lock :
        (now : ℕ) (other : String) (groups : List String) (s : GedStore)
        → ltb now end ≡ true
        → str_eq user other ≡ false
        → All (IsLockedBy id user end) s.documents
        → ((lock lower insensitive now other groups id s).1 ≡ not_found)
          ⊎ ((lock lower insensitive now other groups id s).1 ≡ locked)
    refused_lock now other groups s soon apart h =
        elim (lock_cases lower insensitive now other groups id s) [
          | inl missing ↦ inl (rw missing refl)
          | inr (d, found, same) ↦
              let (e, there) =
                find_any id s.documents d
                  (editable_there lower insensitive now groups id s d found) in
              inr (rw same (row e there))
        ]
      where
        row :
            (e : GedDocument)
            → find_document id s.documents ≡ some e
            → (lock_row lower insensitive now other id s).1 ≡ locked
        row e there =
            let here = find_sound _ s.documents e there in
            let (by, ends) =
              All_of_mem (IsLockedBy id user end) s.documents e h
                (mem_of_find _ s.documents e there) here in
            let held = held_by_other now other e soon apart by ends in
            let nothing : count_where (is_mine now other id) s.documents ≡ 0 =
              count_where_none (is_mine now other id) s.documents (
                All-mono (IsLockedBy id user end) (λ d. is_mine now other id d ≡ false) s.documents
                  (λ d k. elim (Bool-cases (str_eq d.id id)) [
                    | inl t ↦
                        let (by_d, ends_d) = k t in not_mine now other id d soon apart by_d ends_d
                    | inr t ↦ rw t refl
                  ])
                  h) in
            let still =
              update_where_none (is_mine now other id) (take_lock now other) s.documents nothing in
            let refused : is_refused now other id s.documents ≡ true =
              ground (arith, there, held) in
            rw (nothing, still, refused) refl

  -- Where a user's request for the lock of a document succeeds, in a table where each identifier
  -- occurs once and each lock has a name and an end, the document stays locked by this user until
  -- the end that the request names: whatever locks, unlocks and restored versions others ask for
  -- before it, unless an administrator unlocks, the row keeps the user's name and this end, and
  -- every request of another for this lock is refused.
  pub lock_excludes :
      (now : ℕ) (user : String) (groups : List String) (id : String) (end : ℕ) (s t : GedStore)
      (d : GedDocument) (later : ℕ) (other : String) (others : List String)
      → Distinct (map GedDocument.id s.documents)
      → All IsPaired s.documents
      → str_eq user "" ≡ false
      → (lock lower insensitive now user groups id s).1 ≡ done end
      → Others user end (lock lower insensitive now user groups id s).0 t
      → Memᴰ d t.documents
      → str_eq d.id id ≡ true
      → ltb later end ≡ true
      → str_eq user other ≡ false
      → (d.locked_by ≡ some user)
        × (d.lock_expires_at ≡ some end)
        × (((lock lower insensitive later other others id t).1 ≡ not_found)
            ⊎ ((lock lower insensitive later other others id t).1 ≡ locked))
  lock_excludes now user groups id end s t d later other others u paired named ok r m this soon
        apart =
      let mine = lock_takes lower insensitive now user groups id end s u paired ok in
      let still = Others-keeps id user end named r mine in
      let (by, ends) = All_of_mem (IsLockedBy id user end) t.documents d still m this in
      (by, ends, refused_lock id user end named later other others t soon apart still)
