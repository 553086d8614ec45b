-- ===== src/Publication/Major.antt =====
-- What the publication leaves of the newest version: `promoteLatestToMajor` of
-- apps/api/src/version-label.ts.
use isms_portal.Base.{
  ℕ, ◌+◌, String, ◌≡◌, refl, sym, ap, ◌∙◌, ◌⊎◌, inl, inr, true, false, false≢true, some, List, [],
  ◌∷◌, map, Memᴰ, arith, ◌==◌, str_eq, if◌then◌else◌, Bool-cases, Option-cases, str_eq_iff,
  str_eq_self, find, update_where, includes, All, All_of_mem, unique, Distinct, unique_of_mem,
  find-update_where, find_of_mem, mem-kept, All-tabulate,
}
use isms_portal.Publication.{
  Version, has_id, latest, promoted, max_major, promote_locale, promote_locales, versions_of,
  promote_latest_to_major,
}
use isms_portal.Publication.Newest.{
  of_locale, IsNewest, HasTopMajor, latest-mem, find-elsewhere, includes-unique, includes_mem,
  in_group, mem-group, latest_newest, max_major-le, le-max_major, same_if,
}

-- What the publication makes of the newest version: itself where it is a whole one, and else the
-- first one of the next major number.
abbrev pub released : ℕ → Version → Version
released top l =
    if l.version_minor == 0 then l else record l { version_major = top + 1; version_minor = 0 }

released_again :
    (top : ℕ) (l : Version)
    → l.version_minor == 0 ≡ false
    → promoted top (released top l) ≡ released top l
released_again top l draft = rw draft refl

released-id : (top : ℕ) (l : Version) → (released top l).id ≡ l.id
released-id top l = elim (Bool-cases (l.version_minor == 0)) [
  | inl whole ↦ rw whole refl
  | inr draft ↦ rw draft refl
]

-- The round of a language, on the newest version of it as it was read and as it is after a round.
promote_locale-own :
    (group vs : List Version) (l w : Version)
    → latest group ≡ some l
    → find (has_id l.id) vs ≡ some w
    → (w ≡ l) ⊎ (w ≡ released (max_major group) l)
    → find (has_id l.id) (promote_locale group vs) ≡ some (released (max_major group) l)
unfolding promote_locale
promote_locale-own group vs l w newest found which = elim (Bool-cases (l.version_minor == 0)) [
  | inl whole ↦
      let same : promote_locale group vs ≡ vs = ground arith in
      let as_is : w ≡ l = elim which [ inl e ↦ e | inr e ↦ e ∙ rw whole refl ] in
      rw (same, whole, found) (ap some as_is)
  | inr draft ↦
      let same : promote_locale group vs
          ≡ update_where (has_id l.id) (promoted (max_major group)) vs =
        ground arith in
      let mine : w.id ≡ l.id = elim which [
        | inl e ↦ ap Version.id e
        | inr e ↦ ap Version.id e ∙ rw draft refl
      ] in
      let next : promoted (max_major group) w ≡ released (max_major group) l = elim which [
        | inl e ↦ ap (promoted (max_major group)) e ∙ rw draft refl
        | inr e ↦ ap (promoted (max_major group)) e ∙ released_again (max_major group) l draft
      ] in
      rw same (
        find-update_where (has_id l.id) (has_id l.id) (promoted (max_major group)) vs w (λ x. refl)
          found (rw mine (str_eq_self l.id))
        ∙ ap some next)
]

promote_locale-other :
    (id : String) (group vs : List Version)
    → All (λ v. str_eq (Version.id v) id ≡ false) group
    → find (has_id id) (promote_locale group vs) ≡ find (has_id id) vs
unfolding promote_locale
promote_locale-other id group vs h = elim (Option-cases (latest group)) [
  | inl empty ↦ let same : promote_locale group vs ≡ vs = ground arith in ap (find (has_id id)) same
  | inr (l, found) ↦ elim (Bool-cases (l.version_minor == 0)) [
    | inl whole ↦
        let same : promote_locale group vs ≡ vs = ground arith in ap (find (has_id id)) same
    | inr draft ↦
        let same : promote_locale group vs
            ≡ update_where (has_id l.id) (promoted (max_major group)) vs =
          ground arith in
        ap (find (has_id id)) same
        ∙ find-elsewhere id l.id (max_major group) vs (
            All_of_mem (λ v. str_eq (Version.id v) id ≡ false) group l h (latest-mem group l found))
  ]
]

module _ (document_id : String) (vs : List Version) (l h : Version)
    (distinct : Distinct (map Version.id vs)) (newest : IsNewest document_id vs l)
    (highest : HasTopMajor document_id l.locale vs h) where
  abbrev read : List Version
  read = versions_of document_id vs

  own_group : latest (of_locale read l.locale) ≡ some l
  own_group =
      let (here, mine, others) = newest in
      latest_newest l (of_locale read l.locale)
        (All-tabulate _ (of_locale read l.locale) (λ v m.
          let (n, d, e) = in_group document_id l.locale vs v m in All_of_mem _ vs v others n d e))
        (mem-group document_id l.locale vs l here mine refl)

  own_major : max_major (of_locale read l.locale) ≡ h.version_major
  own_major =
      let (here, mine, same, others) = highest in
      let under = max_major-le h.version_major (of_locale read l.locale) (
        All-tabulate _ (of_locale read l.locale) (λ v m.
          let (n, d, e) = in_group document_id l.locale vs v m in
          All_of_mem _ vs v others n d e)) in
      let over =
        le-max_major h (of_locale read l.locale)
          (mem-group document_id l.locale vs h here mine same) in
      omega arith

  -- No version of another language has the identifier.
  other_group :
      (locale : String)
      → str_eq locale l.locale ≡ false
      → All (λ v. str_eq (Version.id v) l.id ≡ false) (of_locale read locale)
  other_group locale apart = All-tabulate _ (of_locale read locale) (λ v m.
      let (n, d, e) = in_group document_id locale vs v m in
      elim (Bool-cases (str_eq v.id l.id)) [
        | inr other ↦ other
        | inl same ↦
            let equal : v ≡ l =
              All_of_mem (λ x. str_eq (Version.id x) l.id ≡ true → x ≡ l) vs v
                (unique_of_mem Version.id vs l distinct newest.0) n same in
            absurd (
              false≢true
                (sym apart ∙ (str_eq_iff locale l.locale).1 (sym e ∙ ap Version.locale equal)))
      ])

  round :
      (locale : String) (now : List Version) (w : Version)
      → find (has_id l.id) now ≡ some w
      → (w ≡ l) ⊎ (w ≡ released h.version_major l)
      → find (has_id l.id) (promote_locale (of_locale read locale) now)
        ≡ some (if str_eq locale l.locale then released h.version_major l else w)
  round locale now w found which = elim (Bool-cases (str_eq locale l.locale)) [
    | inl same ↦
        let e : locale ≡ l.locale = (str_eq_iff locale l.locale).0 same in
        let done =
          promote_locale-own (of_locale read l.locale) now l w own_group found
            (rw own_major which) in
        rw (same, e) (done ∙ ap (λ n. some (released n l)) own_major)
    | inr other ↦
        rw other
          (promote_locale-other l.id (of_locale read locale) now (other_group locale other) ∙ found)
  ]

  rounds_keep :
      (locales : List String) (now : List Version)
      → find (has_id l.id) now ≡ some (released h.version_major l)
      → find (has_id l.id) (promote_locales read locales now) ≡ some (released h.version_major l)
  unfolding promote_locales
  rounds_keep [] now found = found
  rounds_keep (x ∷ xs) now found = rounds_keep xs (promote_locale (of_locale read x) now) (
      round x now (released h.version_major l) found (inr refl)
      ∙ ap some (same_if (str_eq x l.locale) (released h.version_major l)))

  rounds_reach :
      (locales : List String) (now : List Version)
      → find (has_id l.id) now ≡ some l
      → includes locales l.locale ≡ true
      → find (has_id l.id) (promote_locales read locales now) ≡ some (released h.version_major l)
  unfolding promote_locales
  rounds_reach [] now found k = absurd (false≢true k)
  rounds_reach (x ∷ xs) now found k =
      let this = round x now l found (inl refl) in
      elim (Bool-cases (str_eq x l.locale)) [
        | inl same ↦ rounds_keep xs (promote_locale (of_locale read x) now) (rw same at this)
        | inr other ↦
            rounds_reach xs (promote_locale (of_locale read x) now) (rw other at this)
              (ground arith)
      ]

  -- `promoteLatestToMajor` turns the version of the document with the largest number in its
  -- language into the first one of the next major number, one more than the largest that a
  -- version of the document in this language had, unless it is a whole one before: then it leaves
  -- it as it is. Each identifier may occur once, and no two versions of a language the number.
  pub promotes_latest :
      find (has_id l.id) (promote_latest_to_major document_id vs)
      ≡ some (released h.version_major l)
  unfolding promote_latest_to_major
  promotes_latest =
      let (here, mine, others) = newest in
      let inside : Memᴰ l read =
        mem-kept (λ x. str_eq (Version.document_id x) document_id) vs l here
          ((str_eq_iff _ _).1 mine) in
      rounds_reach (unique (map Version.locale read)) vs
        (find_of_mem (has_id l.id) vs l here (str_eq_self l.id)
          (unique_of_mem Version.id vs l distinct here))
        (includes-unique l.locale (map Version.locale read) ∙ includes_mem read l inside)
