-- ===== src/Ged/Locked.antt =====
-- A lock on a document keeps others out: `lock` and `unlock` of apps/api/src/ged.controller.ts.
use isms_portal.Base.{
  ℕ, ◌+◌, ◌≤◌, String, ◌≡◌, refl, ap, ◌⊎◌, inl, inr, Bool, true, false, ◌&&◌, ◌||◌, none, some,
  List, [], ◌∷◌, map, Memᴰ, arith, ◌==◌, str_eq, Bool-cases, Option-cases, is_none, str_eq_iff,
  find, update_where, count_where, includes, All, find_sound, All_of_mem, Distinct, mem_of_find,
  unique_of_mem, All-update_where_if, find_of_mem, All-when_one,
}
use mathlib.Core.Path.{subst}
use isms_portal.Ged.{
  GedDocument, GedStore, is_past, is_user, locked_by_other, find_document, is_refused, done,
  not_found, locked, is_mine, ged_entry, take_lock, visible_document, editable_document, lock_row,
  lock, lock_time,
}

-- A lock has a name and an end.
abbrev pub IsPaired : GedDocument → Type 0
IsPaired d =
    (d.locked_by ≡ none)
    ⊎ ((w : String) × (e : ℕ) × (d.locked_by ≡ some w)
        × (str_eq w "" ≡ false)
        × (d.lock_expires_at ≡ some e))

abbrev pub IsLockedBy : String → String → ℕ → GedDocument → Type 0
IsLockedBy id user end d =
    str_eq d.id id ≡ true → (d.locked_by ≡ some user) × (d.lock_expires_at ≡ some end)

none_or_one : (n : ℕ) → n == 1 ≡ false → n ≤ 1 → n ≡ 0
none_or_one n other few = ground arith

pub update_where_none :
    (p : GedDocument → Bool) (f : GedDocument → GedDocument) (xs : List GedDocument)
    → count_where p xs ≡ 0
    → update_where p f xs ≡ xs
update_where_none p f [] h = refl
update_where_none p f (x ∷ xs) h = elim (Bool-cases (p x)) [
  | inl t ↦ absurd (ground arith)
  | inr t ↦ rw t (ap (λ ys. x ∷ ys) (update_where_none p f xs (ground arith)))
]

count_of_absent :
    (id : String) (q : GedDocument → Bool) (xs : List GedDocument)
    → includes (map GedDocument.id xs) id ≡ false
    → count_where (λ d. str_eq (GedDocument.id d) id && q d) xs ≡ 0
count_of_absent id q [] h = refl
count_of_absent id q (x ∷ xs) h = ground (arith, count_of_absent id q xs)

count_one :
    (id : String) (q : GedDocument → Bool) (xs : List GedDocument)
    → Distinct (map GedDocument.id xs)
    → count_where (λ d. str_eq (GedDocument.id d) id && q d) xs ≤ 1
count_one id q [] h = ground arith
count_one id q (x ∷ xs) (fresh, h) = elim (Bool-cases (str_eq (GedDocument.id x) id)) [
  | inr t ↦ ground (arith, count_one id q xs h)
  | inl t ↦
      let same : x.id ≡ id = (str_eq_iff x.id id).0 t in
      let none_more = count_of_absent id q xs (rw same at fresh) in ground arith
]

count_none :
    (p : GedDocument → Bool) (xs : List GedDocument) (d : GedDocument)
    → count_where p xs ≡ 0
    → Memᴰ d xs
    → p d ≡ false
count_none p [] d h m = elim m [ ]
count_none p (x ∷ xs) d h (Memᴰ.head e) = rw e (ground arith)
count_none p (x ∷ xs) d h (Memᴰ.tail m) = count_none p xs d (ground arith) m

module _ (lower : String → String) (insensitive : String → String → Bool) where
  visible_there :
      (now : ℕ) (groups : List String) (id : String) (s : GedStore) (d : GedDocument)
      → visible_document lower insensitive now groups id s ≡ some d
      → find (λ d. str_eq (GedDocument.id d) id && is_none d.deleted_at) s.documents ≡ some d
  unfolding visible_document
  visible_there now groups id s d h =
      elim (Option-cases
        (find (λ d. str_eq (GedDocument.id d) id && is_none d.deleted_at) s.documents)) [
          | inl t ↦ absurd (ground (arith, t))
          | inr (e, t) ↦ rw t (ground (arith, t))
        ]

  pub editable_there :
      (now : ℕ) (groups : List String) (id : String) (s : GedStore) (d : GedDocument)
      → editable_document lower insensitive now groups id s ≡ some d
      → find (λ d. str_eq (GedDocument.id d) id && is_none d.deleted_at) s.documents ≡ some d
  unfolding editable_document
  editable_there now groups id s d h =
      elim (Option-cases (visible_document lower insensitive now groups id s)) [
        | inl t ↦ absurd (ground (arith, t))
        | inr (e, t) ↦
            let same : e ≡ d = ground (arith, t) in rw (← same) (visible_there now groups id s e t)
      ]

  pub lock_cases :
      (now : ℕ) (user : String) (groups : List String) (id : String) (s : GedStore)
      → (lock lower insensitive now user groups id s ≡ (s, not_found))
        ⊎ ((d : GedDocument) × (editable_document lower insensitive now groups id s ≡ some d)
            × (lock lower insensitive now user groups id s
                ≡ lock_row lower insensitive now user id s))
  unfolding lock
  lock_cases now user groups id s =
      elim (Option-cases (editable_document lower insensitive now groups id s)) [
        | inl t ↦ inl (rw (lock, t) refl)
        | inr (d, t) ↦ inr (d, t, rw (lock, t) refl)
      ]

  refused_other :
      (now : ℕ) (user : String) (d : GedDocument)
      → IsPaired d
      → is_none d.locked_by || (is_past now d.lock_expires_at || is_user user d.locked_by) ≡ false
      → locked_by_other now user d ≡ true
  unfolding locked_by_other
  refused_other now user d (inl free) h = absurd (ground arith)
  refused_other now user d (inr (w, e, by, named, end)) h = ground arith

  -- A lock that succeeds is on the document.
  pub lock_takes :
      (now : ℕ) (user : String) (groups : List String) (id : String) (end : ℕ) (s : GedStore)
      → Distinct (map GedDocument.id s.documents)
      → All IsPaired s.documents
      → (lock lower insensitive now user groups id s).1 ≡ done end
      → All (IsLockedBy id user end) (lock lower insensitive now user groups id s).0.documents
  lock_takes now user groups id end s u paired h = elim (lock_cases now user groups id s) [
    | inl missing ↦ absurd (ground arith)
    | inr (d, found, same) ↦ rw same (row (editable_there now groups id s d found) (rw same at h))
  ]
    where
      taken :
          count_where (is_mine now user id) s.documents ≡ 1
          → All
              (IsLockedBy id user (now + lock_time))
              (update_where (is_mine now user id) (take_lock now user) s.documents)
      taken one =
          All-update_where_if (IsLockedBy id user (now + lock_time))
            (λ d.
              str_eq d.id id ≡ true
              → is_none d.deleted_at
                  && (is_none d.locked_by
                      || (is_past now d.lock_expires_at || is_user user d.locked_by))
                ≡ true)
            (is_mine now user id) (take_lock now user) s.documents (λ d k hit e. (refl, refl))
            (λ d k miss e. let ready = k e in absurd (ground arith))
            (All-when_one GedDocument.id id _ s.documents u one)

      row :
          {d : GedDocument}
          → find (λ d. str_eq (GedDocument.id d) id && is_none d.deleted_at) s.documents ≡ some d
          → (lock_row lower insensitive now user id s).1 ≡ done end
          → All (IsLockedBy id user end) (lock_row lower insensitive now user id s).0.documents
      row {d} found ok = elim (Bool-cases (count_where (is_mine now user id) s.documents == 1)) [
        | inl t ↦
            let same : lock_row lower insensitive now user id s ≡ (
              record s {
                documents = update_where (is_mine now user id) (take_lock now user) s.documents;
                trail = ged_entry user "document.lock" id ∷ s.trail;
              },
              done (now + lock_time),
            ) =
              rw t refl in
            let ends : now + lock_time ≡ end = ground (arith, rw same at ok) in
            rw (same, ← ends) (taken (ground arith))
        | inr t ↦
            let nothing : count_where (is_mine now user id) s.documents ≡ 0 =
              none_or_one _ t (count_one id _ s.documents u) in
            let m = mem_of_find _ s.documents d found in
            let passes = find_sound _ s.documents d found in
            let miss = count_none (is_mine now user id) s.documents d nothing m in
            let named : d.id ≡ id = (str_eq_iff d.id id).0 (ground arith) in
            let only : All (λ x. str_eq (GedDocument.id x) d.id ≡ true → x ≡ d) s.documents =
              unique_of_mem GedDocument.id s.documents d u m in
            let there : find_document id s.documents ≡ some d =
              find_of_mem _ s.documents d m (ground arith) (
                subst (λ k. All (λ x. str_eq (GedDocument.id x) k ≡ true → x ≡ d) s.documents) named
                  only) in
            let still =
              update_where_none (is_mine now user id) (take_lock now user) s.documents nothing in
            let other : locked_by_other now user d ≡ true =
              refused_other now user d (All_of_mem IsPaired s.documents d paired m)
                (ground arith) in
            let refused : is_refused now user id s.documents ≡ true =
              ground (arith, there, other) in
            let same : (lock_row lower insensitive now user id s).1 ≡ locked =
              rw (t, still, refused) refl in
            absurd (ground arith)
      ]
