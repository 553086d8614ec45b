-- ===== src/Ged/Restored.antt =====
-- A version that is restored becomes the newest one: `restoreVersion` of
-- apps/api/src/ged.controller.ts.
use isms_portal.Base.{
  ℕ, ◌+◌, ◌≤◌, ◌<◌, String, ◌≡◌, refl, sym, ap, ◌∙◌, inl, inr, Bool, true, false, ◌&&◌, Option,
  none, some, List, [], ◌∷◌, Memᴰ, arith, leb, ◌==◌, str_eq, Bool-cases, Option-cases, is_some,
  str_eq_iff, filter, any, find, update_where, All, find_sound, All_of_mem, All-mono, insert_by,
  order_by, mem_of_find, mem-cons_cases,
}
use isms_portal.Ged.{
  GedDocument, GedStore, GedVersion, is_refused, ged_entry, done, editable_document,
  restore_version, is_clean, newest, number_of, is_in, restored_from,
}

abbrev later_first : GedVersion → GedVersion → Bool
later_first a b = leb b.version a.version

-- No version of the list has a larger number.
abbrev IsBelow : ℕ → GedVersion → Type 0
IsBelow n v = v.version ≤ n

insert_by-IsBelow :
    (x : GedVersion) (xs : List GedVersion)
    → (n : ℕ) → x.version ≤ n
    → All (IsBelow n) xs
    → All (IsBelow n) (insert_by later_first x xs)
insert_by-IsBelow x [] n h k = (h, tt)
insert_by-IsBelow x (y ∷ ys) n h (k, ks) = elim (Bool-cases (later_first x y)) [
  | inl t ↦ rw t (h, (k, ks))
  | inr t ↦ rw t (k, insert_by-IsBelow x ys n h ks)
]

abbrev IsFirst : List GedVersion → Type 0
IsFirst [] = Unit
IsFirst (x ∷ xs) = All (IsBelow x.version) (x ∷ xs)

IsFirst-insert_by :
    (x : GedVersion) (xs : List GedVersion) → IsFirst xs → IsFirst (insert_by later_first x xs)
IsFirst-insert_by x [] h = (ground arith, tt)
IsFirst-insert_by x (y ∷ ys) (h, hs) = elim (Bool-cases (later_first x y)) [
  | inl t ↦ rw t (
    ground arith,
    (ground arith, All-mono (IsBelow y.version) (IsBelow x.version) ys (λ v k. ground arith) hs),
  )
  | inr t ↦ rw t (ground arith, insert_by-IsBelow x ys y.version (ground arith) hs)
]

IsFirst-order_by : (xs : List GedVersion) → IsFirst (order_by later_first xs)
IsFirst-order_by [] = tt
IsFirst-order_by (x ∷ xs) = IsFirst-insert_by x (order_by later_first xs) (IsFirst-order_by xs)

mem-insert :
    (x w : GedVersion) (xs : List GedVersion)
    → Memᴰ w (x ∷ xs)
    → Memᴰ w (insert_by later_first x xs)
mem-insert x w [] m = m
mem-insert x w (y ∷ ys) m = elim (Bool-cases (later_first x y)) [
  | inl t ↦ rw t m
  | inr t ↦ rw t (
      mem-cons_cases (Memᴰ w (y ∷ insert_by later_first x ys)) x w (y ∷ ys) m
        (λ e. Memᴰ.tail (mem-insert x w ys (Memᴰ.head e)))
        (λ n.
          mem-cons_cases (Memᴰ w (y ∷ insert_by later_first x ys)) y w ys n (λ e. Memᴰ.head e)
            (λ k. Memᴰ.tail (mem-insert x w ys (Memᴰ.tail k)))))
]

mem-order : (w : GedVersion) (xs : List GedVersion) → Memᴰ w xs → Memᴰ w (order_by later_first xs)
mem-order w [] m = m
mem-order w (x ∷ xs) m = mem-insert x w (order_by later_first xs) (
    mem-cons_cases (Memᴰ w (x ∷ order_by later_first xs)) x w xs m (λ e. Memᴰ.head e)
      (λ n. Memᴰ.tail (mem-order w xs n)))

mem-filter_of :
    (p : GedVersion → Bool) (w : GedVersion) (xs : List GedVersion)
    → Memᴰ w xs
    → p w ≡ true
    → Memᴰ w (filter p xs)
mem-filter_of p w [] m h = elim m [ ]
mem-filter_of p w (x ∷ xs) (Memᴰ.head e) h = rw (← e, h) (Memᴰ.head refl)
mem-filter_of p w (x ∷ xs) (Memᴰ.tail m) h = elim (Bool-cases (p x)) [
  | inl t ↦ rw t (Memᴰ.tail (mem-filter_of p w xs m h))
  | inr t ↦ rw t (mem-filter_of p w xs m h)
]

-- Every version in the language has a number of at most that of the newest.
below_newest :
    (id locale : String) (versions : List GedVersion) (w : GedVersion)
    → Memᴰ w versions
    → is_in id locale w ≡ true
    → w.version ≤ number_of (newest id locale versions)
below_newest id locale versions w m fits =
    first (order_by later_first (filter (is_in id locale) versions))
      (IsFirst-order_by (filter (is_in id locale) versions))
      (mem-order w (filter (is_in id locale) versions)
        (mem-filter_of (is_in id locale) w versions m fits))
  where
    first :
        (xs : List GedVersion)
        → IsFirst xs
        → Memᴰ w xs
        → w.version
          ≤ number_of (elim xs as (λ x. Option GedVersion) [ [] ↦ none | v ∷ (rest → ih) ↦ some v ])
    first [] h n = elim n [ ]
    first (x ∷ xs) h n = All_of_mem (IsBelow x.version) (x ∷ xs) w h n

none_published :
    (id : String) (ds : List GedDocument)
    → any
        (λ d. str_eq (GedDocument.id d) id && d.is_published)
        (update_where
          (λ d. str_eq (GedDocument.id d) id)
          (λ d. record d { is_published = false })
          ds)
      ≡ false
none_published id [] = refl
none_published id (d ∷ ds) = elim (Bool-cases (str_eq d.id id)) [
  | inl t ↦ rw (t, none_published id ds) (ground arith)
  | inr t ↦ rw (t, none_published id ds) (ground (arith, t))
]

module _ (lower : String → String) (insensitive : String → String → Bool) where
  restored_cases :
      (now : ℕ) (user : String) (groups : List String) (id version_id fresh summary : String)
      (s : GedStore) (created : GedVersion)
      → (restore_version lower insensitive now user groups id version_id fresh summary s).1
        ≡ done created
      → (source : GedVersion) × Memᴰ source s.versions
        × (source.document_id ≡ id)
        × (is_clean source ≡ true)
        × (is_refused now user id s.documents ≡ false)
        × (created ≡ restored_from fresh summary (newest id source.locale s.versions) source)
        × ((restore_version lower insensitive now user groups id version_id fresh summary
              s).0.versions
            ≡ created ∷ s.versions)
        × ((restore_version lower insensitive now user groups id version_id fresh summary
              s).0.documents
            ≡ update_where
                (λ d. str_eq (GedDocument.id d) id)
                (λ d. record d { is_published = false })
                s.documents)
  unfolding restore_version
  restored_cases now user groups id version_id fresh summary s created h =
      elim (Option-cases (editable_document lower insensitive now groups id s)) [
        | inl t ↦ absurd (ground arith)
        | inr (d, t) ↦ elim (Bool-cases (is_refused now user id s.documents)) [
          | inl u ↦ absurd (ground arith)
          | inr u ↦
              elim (Option-cases (
                find (λ v. str_eq (GedVersion.id v) version_id && str_eq v.document_id id)
                  s.versions)) [
                    | inl v ↦ absurd (ground arith)
                    | inr (source, v) ↦ elim (Bool-cases (is_clean source)) [
                      | inr w ↦ absurd (ground arith)
                      | inl w ↦
                          let latest : Option GedVersion = newest id source.locale s.versions in
                          elim (Bool-cases (is_some latest && number_of latest == source.version)) [
                            | inl x ↦ absurd (ground arith)
                            | inr x ↦
                                let made : GedVersion = restored_from fresh summary latest source in
                                let same : restore_version lower insensitive now user groups id
                                      version_id fresh summary s
                                    ≡ (
                                      record s {
                                        versions = made ∷ s.versions;
                                        documents =
                                            update_where (λ d. str_eq (GedDocument.id d) id)
                                              (λ d. record d { is_published = false }) s.documents;
                                        trail =
                                            ged_entry user "document.version.restore" id ∷ s.trail;
                                      },
                                      done made,
                                    ) =
                                  rw (restore_version, t, u, v, w, x) refl in
                                let e : made ≡ created = ground (arith, rw same at h) in
                                let both : str_eq source.id version_id
                                      && str_eq source.document_id id
                                    ≡ true =
                                  find_sound _ s.versions source v in
                                (
                                  source,
                                  mem_of_find _ s.versions source v,
                                  (str_eq_iff source.document_id id).0 (ground arith),
                                  w,
                                  u,
                                  sym e,
                                  rw (same, ← e) refl,
                                  rw same refl,
                                )
                          ]
                    ]
                  ]
        ]
      ]

  -- Where restoring a version succeeds, nobody else holds the lock of the document, and the new
  -- version holds the file and the text of a clean version of the same document in the same
  -- language; its number is larger than that of every version of the document in the language, so
  -- that it is the current one; and the document is no longer published.
  pub restored_newest :
      (now : ℕ) (user : String) (groups : List String) (id version_id fresh summary : String)
      (s : GedStore) (created w : GedVersion)
      → (restore_version lower insensitive now user groups id version_id fresh summary s).1
        ≡ done created
      → Memᴰ w s.versions
      → is_in id created.locale w ≡ true
      → (is_refused now user id s.documents ≡ false)
        × (w.version < created.version)
        × Memᴰ created
            (restore_version lower insensitive now user groups id version_id fresh summary
              s).0.versions
        × ((source : GedVersion) × Memᴰ source s.versions
            × (source.document_id ≡ id)
            × (is_clean source ≡ true)
            × (created.document_id ≡ id)
            × (created.locale ≡ source.locale)
            × (created.stored_file_id ≡ source.stored_file_id)
            × (created.text ≡ source.text))
        × (any
              (λ d. str_eq (GedDocument.id d) id && d.is_published)
              (restore_version lower insensitive now user groups id version_id fresh summary
                s).0.documents
            ≡ false)
  restored_newest now user groups id version_id fresh summary s created w ok m fits =
      let (source, inside, of, clean, free, made, versions, documents) =
        restored_cases now user groups id version_id fresh summary s created ok in
      let tongue : created.locale ≡ source.locale = ap GedVersion.locale made in
      let number : created.version ≡ number_of (newest id source.locale s.versions) + 1 =
        ap GedVersion.version made in
      let below = below_newest id source.locale s.versions w m (rw (← tongue) fits) in
      (
        free,
        ground arith,
        rw versions (Memᴰ.head refl),
        (
          source,
          inside,
          of,
          clean,
          ap GedVersion.document_id made ∙ of,
          tongue,
          ap GedVersion.stored_file_id made,
          ap GedVersion.text made,
        ),
        rw documents (none_published id s.documents),
      )
