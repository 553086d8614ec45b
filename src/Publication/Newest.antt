-- ===== src/Publication/Newest.antt =====
-- The versions of one language of a document, and the newest of them: the reads of
-- `promoteLatestToMajor` of apps/api/src/version-label.ts.
use isms_portal.Base.{
  ℕ, ◌≤◌, ◌<◌, String, ◌≡◌, refl, sym, ap, ◌⊎◌, inl, inr, Bool, true, false, not, some, List, [],
  ◌∷◌, map, Memᴰ, arith, ltb, str_eq, if◌then◌else◌, Bool-cases, str_eq_iff, str_eq_self, filter,
  find, update_where, includes, All, unique, mem-filter, mem-kept,
}
use isms_portal.Publication.{Version, has_id, latest_from, latest, promoted, max_major, versions_of}

latest_from-mem : (best : Version) (vs : List Version) → Memᴰ (latest_from best vs) (best ∷ vs)
latest_from-mem best [] = Memᴰ.head refl
latest_from-mem best (v ∷ vs) = elim (Bool-cases (ltb best.version v.version)) [
  | inl newer ↦ rw newer (Memᴰ.tail (latest_from-mem v vs))
  | inr older ↦ rw older (kept (latest_from-mem best vs))
]
  where
    kept : {l b w : Version} {ws : List Version} → Memᴰ l (b ∷ ws) → Memᴰ l (b ∷ w ∷ ws)
    kept (Memᴰ.head e) = Memᴰ.head e
    kept (Memᴰ.tail m) = Memᴰ.tail (Memᴰ.tail m)

pub latest-mem : (vs : List Version) (l : Version) → latest vs ≡ some l → Memᴰ l vs
latest-mem [] l h = cc
latest-mem (v ∷ vs) l h =
    let same : latest_from v vs ≡ l = ground arith in rw (← same) (latest_from-mem v vs)

includes-filter :
    (x k : String) (xs : List String)
    → str_eq x k ≡ false
    → includes (filter (λ y. not (str_eq y x)) xs) k ≡ includes xs k
includes-filter x k [] h = refl
includes-filter x k (y ∷ ys) h = elim (Bool-cases (str_eq y x)) [
  | inl same ↦
      let e : y ≡ x = (str_eq_iff y x).0 same in
      let other : str_eq y k ≡ false = rw e h in ground (arith, includes-filter x k ys h)
  | inr apart ↦ ground (arith, includes-filter x k ys h)
]

pub includes-unique : (k : String) (xs : List String) → includes (unique xs) k ≡ includes xs k
includes-unique k [] = refl
includes-unique k (x ∷ xs) = elim (Bool-cases (str_eq x k)) [
  | inl same ↦ ground arith
  | inr apart ↦ ground (arith, includes-filter x k (unique xs) apart, includes-unique k xs)
]

pub includes_mem :
    (vs : List Version) (v : Version) → Memᴰ v vs → includes (map Version.locale vs) v.locale ≡ true
includes_mem (w ∷ vs) v (Memᴰ.head e) = rw (e, str_eq_self)
includes_mem (w ∷ vs) v (Memᴰ.tail m) = ground (arith, includes_mem vs v m)
includes_mem [] v m = elim m [ ]

pub same_if : {A : Type 0} (b : Bool) (a : A) → (if b then a else a) ≡ a
same_if true a = refl
same_if false a = refl

pub find-elsewhere :
    (id other : String) (major : ℕ) (vs : List Version)
    → str_eq other id ≡ false
    → find (has_id id) (update_where (has_id other) (promoted major) vs) ≡ find (has_id id) vs
find-elsewhere id other major [] h = refl
find-elsewhere id other major (v ∷ vs) h = elim (Bool-cases (str_eq v.id other)) [
  | inl t ↦
      let e : v.id ≡ other = (str_eq_iff v.id other).0 t in
      let apart : str_eq v.id id ≡ false = rw e h in
      rw (t, apart) (find-elsewhere id other major vs h)
  | inr t ↦
      rw t (ap (λ o. if str_eq v.id id then some v else o) (find-elsewhere id other major vs h))
]

abbrev pub of_locale : List Version → String → List Version
of_locale read locale = filter (λ v. str_eq (Version.locale v) locale) read

-- The row is one of the document's versions in the language, and each other one has a smaller
-- number.
abbrev pub IsNewest : String → List Version → Version → Type 0
IsNewest document_id vs l =
    Memᴰ l vs
    × (l.document_id ≡ document_id)
    × All
        (λ v.
          Version.document_id v ≡ document_id
          → v.locale ≡ l.locale
          → (v ≡ l) ⊎ (v.version < l.version))
        vs

-- The row is one of the document's versions in the language, and none has a larger major number.
abbrev pub HasTopMajor : String → String → List Version → Version → Type 0
HasTopMajor document_id locale vs h =
    Memᴰ h vs
    × (h.document_id ≡ document_id)
    × (h.locale ≡ locale)
    × All
        (λ v.
          Version.document_id v ≡ document_id
          → v.locale ≡ locale
          → v.version_major ≤ h.version_major)
        vs

pub in_group :
    (document_id locale : String) (vs : List Version) (v : Version)
    → Memᴰ v (of_locale (versions_of document_id vs) locale)
    → Memᴰ v vs × (v.document_id ≡ document_id) × (v.locale ≡ locale)
in_group document_id locale vs v m =
    let (n, is_locale) =
      mem-filter (λ x. str_eq (Version.locale x) locale) (versions_of document_id vs) v m in
    let (k, is_document) = mem-filter (λ x. str_eq (Version.document_id x) document_id) vs v n in
    (k, (str_eq_iff _ _).0 is_document, (str_eq_iff _ _).0 is_locale)

pub mem-group :
    (document_id locale : String) (vs : List Version) (v : Version)
    → Memᴰ v vs
    → v.document_id ≡ document_id
    → v.locale ≡ locale
    → Memᴰ v (of_locale (versions_of document_id vs) locale)
mem-group document_id locale vs v m d e =
    mem-kept (λ x. str_eq (Version.locale x) locale) (versions_of document_id vs) v
      (mem-kept (λ x. str_eq (Version.document_id x) document_id) vs v m ((str_eq_iff _ _).1 d))
      ((str_eq_iff _ _).1 e)

latest_from-newest :
    (l best : Version) (vs : List Version)
    → All (λ v. (v ≡ l) ⊎ (v.version < l.version)) (best ∷ vs)
    → Memᴰ l (best ∷ vs)
    → latest_from best vs ≡ l
latest_from-newest l best [] h (Memᴰ.head e) = sym e
latest_from-newest l best [] h (Memᴰ.tail m) = elim m [ ]
latest_from-newest l best (v ∷ vs) (hb, (hv, hs)) m =
    elim (Bool-cases (ltb best.version v.version)) [
      | inl newer ↦ rw newer (latest_from-newest l v vs (hv, hs) (passed newer hv m))
      | inr older ↦ rw older (latest_from-newest l best vs (hb, hs) (kept older hb m))
    ]
  where
    passed :
        ltb best.version v.version ≡ true
        → (v ≡ l) ⊎ (v.version < l.version)
        → Memᴰ l (best ∷ v ∷ vs)
        → Memᴰ l (v ∷ vs)
    passed newer (inl e) (Memᴰ.head k) = Memᴰ.head (sym e)
    passed newer (inr e) (Memᴰ.head k) = let same = ap Version.version k in absurd (ground arith)
    passed newer q (Memᴰ.tail n) = n

    kept :
        ltb best.version v.version ≡ false
        → (best ≡ l) ⊎ (best.version < l.version)
        → Memᴰ l (best ∷ v ∷ vs)
        → Memᴰ l (best ∷ vs)
    kept older q (Memᴰ.head k) = Memᴰ.head k
    kept older (inl e) (Memᴰ.tail n) = Memᴰ.head (sym e)
    kept older (inr e) (Memᴰ.tail (Memᴰ.head k)) =
        let same = ap Version.version k in absurd (ground arith)
    kept older (inr e) (Memᴰ.tail (Memᴰ.tail n)) = Memᴰ.tail n

pub latest_newest :
    (l : Version) (vs : List Version)
    → All (λ v. (v ≡ l) ⊎ (v.version < l.version)) vs
    → Memᴰ l vs
    → latest vs ≡ some l
latest_newest l [] h m = elim m [ ]
latest_newest l (v ∷ vs) h m = ap some (latest_from-newest l v vs h m)

pub max_major-le :
    (top : ℕ) (vs : List Version) → All (λ v. v.version_major ≤ top) vs → max_major vs ≤ top
max_major-le top [] h = ground arith
max_major-le top (v ∷ vs) (h, hs) = let rest = max_major-le top vs hs in ground arith

pub le-max_major : (v : Version) (vs : List Version) → Memᴰ v vs → v.version_major ≤ max_major vs
le-max_major v (w ∷ ws) (Memᴰ.head e) = let same = ap Version.version_major e in ground arith
le-max_major v (w ∷ ws) (Memᴰ.tail m) = let rest = le-max_major v ws m in ground arith
le-max_major v [] m = elim m [ ]
