-- ===== src/Hierarchy/Updated.antt =====
-- `updateCategory` of apps/api/src/controllers.ts keeps the table of the categories a tree.
use isms_portal.Base.{
  ℕ, zero, suc, String, ◌≡◌, refl, sym, ap, ◌∙◌, inl, inr, Bool, true, false, false≢true, not, ◌&&◌,
  Option, none, some, List, [], ◌∷◌, Memᴰ, arith, str_eq, Bool-cases, Option-cases, is_none,
  str_eq_iff, str_eq_self, str_eq_of_ne, truthy, length, any, find, update_where, find_sound,
  All_of_mem, map-update_where, mem_of_find, mem-update_where, All-update_where_if,
  find-update_where, All-tabulate, mem-updated, any_of_mem, mem_of_any,
}
use mathlib.Core.Path.{subst}
use isms_portal.Hierarchy.{
  CategoryRow, CategoryBody, TreeOutcome, is_live, is_live_in, has_parent, parent_of_row, parent_in,
  hits, check_parent, write_category,
}
use isms_portal.Hierarchy.Ends.{ends_in}
use isms_portal.Hierarchy.Tree.{
  parent_of, IsPlaced, IsLocal, IsGrounded, IsTree, live_found, found_in,
}

abbrev pub has_name : String → CategoryRow → Bool
has_name id c = str_eq c.id id

-- A change of the row of one category leaves what is found of the others.
pub find_other :
    (id x : String) (f : CategoryRow → CategoryRow) (xs : List CategoryRow)
    → ((c : CategoryRow) → CategoryRow.id (f c) ≡ c.id)
    → str_eq x id ≡ false
    → find (is_live x) (update_where (has_name id) f xs) ≡ find (is_live x) xs
find_other id x f [] same apart = refl
find_other id x f (c ∷ xs) same apart = elim (Bool-cases (has_name id c)) [
  | inr t ↦ rw (t, find_other id x f xs same apart) refl
  | inl t ↦
      let here : c.id ≡ id = (str_eq_iff c.id id).0 t in
      let not_x : str_eq id x ≡ false =
        str_eq_of_ne id x (λ e. false≢true (sym apart ∙ rw e (str_eq_self x))) in
      let changed : is_live x (f c) ≡ false = rw (same c, here, not_x) refl in
      let before : is_live x c ≡ false = rw (here, not_x) refl in
      rw (t, changed, before) (find_other id x f xs same apart)
]

pub truthy_twice : (o : Option String) → truthy (truthy o) ≡ truthy o
truthy_twice none = refl
truthy_twice (some s) = elim (Bool-cases (str_eq s "")) [
  | inl t ↦ rw t refl
  | inr t ↦ rw (t, t) refl
]

truthy-some : (o : Option String) (p : String) → truthy o ≡ some p → o ≡ some p
truthy-some none p h = absurd (ground arith)
truthy-some (some s) p h = elim (Bool-cases (str_eq s "")) [
  | inl t ↦ absurd (ground arith)
  | inr t ↦ ground arith
]

pub is_parent : (c : CategoryRow) (p : String) → truthy c.parent_id ≡ some p → has_parent p c ≡ true
is_parent c p h = let raw = truthy-some c.parent_id p h in rw (raw, str_eq_self p) refl

no_find : (p : CategoryRow → Bool) (xs : List CategoryRow) → find p xs ≡ none → any p xs ≡ false
no_find p [] h = refl
no_find p (x ∷ xs) h = elim (Bool-cases (p x)) [
  | inl t ↦ absurd (ground arith)
  | inr t ↦ rw t (no_find p xs (ground arith))
]

-- What is known of a category that is live in a space.
IsPlaced-row :
    (space_id p : String) (categories : List CategoryRow)
    → IsTree categories
    → any (is_live_in space_id p) categories ≡ true
    → (c : CategoryRow) × (parent_in space_id categories p ≡ truthy c.parent_id)
      × (parent_of categories p ≡ truthy c.parent_id)
      × IsPlaced categories space_id (truthy c.parent_id)
IsPlaced-row space_id p categories h there =
    elim (Option-cases (find (is_live_in space_id p) categories)) [
      | inl t ↦ absurd (false≢true (sym (no_find (is_live_in space_id p) categories t) ∙ there))
      | inr (c, t) ↦
          let live = find_sound (is_live_in space_id p) categories c t in
          let at : c.space_id ≡ space_id = (str_eq_iff c.space_id space_id).0 (ground arith) in
          let placed =
            All_of_mem (IsLocal categories) categories c h.local
              (mem_of_find (is_live_in space_id p) categories c t) (ground arith) in
          (
            c,
            ap parent_of_row t,
            ap parent_of_row (found_in space_id p categories c h.ids t),
            subst (λ w. IsPlaced categories w (truthy c.parent_id)) at placed,
          )
    ]

module _ (normal : String → String) (is_slug : String → Bool) (id : String) (body : CategoryBody)
    (existing : CategoryRow) (categories : List CategoryRow) (h : IsTree categories)
    (found : find (is_live id) categories ≡ some existing) where
  abbrev written : List CategoryRow
  written = update_where (has_name id) (write_category normal is_slug body) categories

  same_parent : (x : String) → str_eq x id ≡ false → parent_of written x ≡ parent_of categories x
  same_parent x apart =
      rw (find_other id x (write_category normal is_slug body) categories (λ c. refl) apart) refl

  new_parent : parent_of written id ≡ truthy body.parent_id
  new_parent =
      let live = find_sound (is_live id) categories existing found in
      let row : find (is_live id) written ≡ some (write_category normal is_slug body existing) =
        find-update_where (is_live id) (has_name id) (write_category normal is_slug body) categories
          existing (λ c. refl) found (ground arith) in
      rw row (truthy_twice body.parent_id)

  -- A row that is live in a space is so afterwards, if it is not the one that is written, or that
  -- one stays in its space.
  still_placed :
      (space_id p : String)
      → any (is_live_in space_id p) categories ≡ true
      → (str_eq p id ≡ true → space_id ≡ body.space_id)
      → any (is_live_in space_id p) written ≡ true
  still_placed space_id p there stays =
      let (d, m, live) = mem_of_any (is_live_in space_id p) categories there in
      let named : d.id ≡ p = (str_eq_iff d.id p).0 (ground arith) in
      elim (Bool-cases (str_eq p id)) [
        | inr t ↦
            any_of_mem (is_live_in space_id p) written d
              (mem-update_where (has_name id) (write_category normal is_slug body) categories d m
                (rw (← named) at t))
              live
        | inl t ↦
            any_of_mem (is_live_in space_id p) written (write_category normal is_slug body d)
              (mem-updated (has_name id) (write_category normal is_slug body) categories d m
                (rw (← named) at t))
              (let here : str_eq body.space_id space_id ≡ true =
                  rw (stays t) (str_eq_self body.space_id) in
                ground arith)
      ]

  -- The loop that met no cycle shows that the way up from the new parent ends.
  climb :
      (n : ℕ) (p : String)
      → hits (parent_in body.space_id categories) id n (some p) ≡ some false
      → any (is_live_in body.space_id p) categories ≡ true
      → ends_in (parent_of written) n (some p) ≡ true
  climb zero p met there = absurd (ground arith)
  climb (suc n) p met there = elim (Bool-cases (str_eq p id)) [
    | inl t ↦ absurd (ground arith)
    | inr t ↦
        let (c, inside, outside, placed) = IsPlaced-row body.space_id p categories h there in
        let rest : hits (parent_in body.space_id categories) id n (truthy c.parent_id)
            ≡ some false =
          subst (λ o. hits (parent_in body.space_id categories) id n o ≡ some false) inside
            (ground (arith, t, met)) in
        let up : parent_of written p ≡ truthy c.parent_id = same_parent p t ∙ outside in
        subst (λ o. ends_in (parent_of written) n o ≡ true) (sym up)
          (elim (Option-cases (truthy c.parent_id)) [
            | inl top ↦ rw top refl
            | inr (q, e) ↦ rw e (climb n q (rw e at rest) (rw e at placed))
          ])
  ]

  -- The checks that let an update go on.
  module _ (checked : check_parent id (truthy body.parent_id) body.space_id categories ≡ none) where
    parent_fits :
        (o : Option String)
        → check_parent id o body.space_id categories ≡ none
        → (p : String) → o ≡ some p
        → (str_eq p id ≡ false)
          × (any (is_live_in body.space_id p) categories ≡ true)
          × (hits (parent_in body.space_id categories) id (length categories) (some p) ≡ some false)
    unfolding check_parent
    parent_fits none k p e = absurd (ground arith)
    parent_fits (some q) k p e =
        let same : q ≡ p = ground arith in
        subst
          (λ w.
            (str_eq w id ≡ false)
            × (any (is_live_in body.space_id w) categories ≡ true)
            × (hits (parent_in body.space_id categories) id (length categories) (some w)
                ≡ some false))
          same
          (elim (Bool-cases (str_eq q id)) [
            | inl t ↦ absurd (ground arith)
            | inr t ↦ elim (Bool-cases (any (is_live_in body.space_id q) categories)) [
              | inr u ↦ absurd (ground arith)
              | inl u ↦
                  elim (Option-cases
                    (hits (parent_in body.space_id categories) id (length categories) (some q))) [
                      | inl v ↦
                          let refusal : check_parent id (some q) body.space_id categories
                              ≡ some TreeOutcome.endless =
                            rw (check_parent, t, u, v) refl in
                          absurd (ground arith)
                      | inr (met, v) ↦ elim (Bool-cases met) [
                        | inl w ↦
                            let refusal : check_parent id (some q) body.space_id categories
                                ≡ some TreeOutcome.cycle =
                              rw (check_parent, t, u, v, w) refl in
                            absurd (ground arith)
                        | inr w ↦ (t, u, rw (v, w) refl)
                      ]
                    ]
            ]
          ])

    -- The way up from the category that is written ends.
    own_way : (n : ℕ) × (ends_in (parent_of written) n (some id) ≡ true)
    own_way = elim (Option-cases (truthy body.parent_id)) [
      | inl top ↦
          (1, subst (λ o. ends_in (parent_of written) 0 o ≡ true) (sym (new_parent ∙ top)) refl)
      | inr (p, e) ↦
          let (apart, there, met) = parent_fits (truthy body.parent_id) checked p e in
          (
            suc (length categories),
            subst (λ o. ends_in (parent_of written) (length categories) o ≡ true)
                (sym (new_parent ∙ e)) (climb (length categories) p met there),
          )
    ]

    ways :
        (n : ℕ) (o : Option String)
        → ends_in (parent_of categories) n o ≡ true
        → (m : ℕ) × (ends_in (parent_of written) m o ≡ true)
    ways n none e = (0, refl)
    ways zero (some x) e = absurd (ground arith)
    ways (suc n) (some x) e = elim (Bool-cases (str_eq x id)) [
      | inl t ↦
          let same : x ≡ id = (str_eq_iff x id).0 t in
          subst (λ y. (m : ℕ) × (ends_in (parent_of written) m (some y) ≡ true)) (sym same) own_way
      | inr t ↦
          let (m, k) = ways n (parent_of categories x) e in
          (suc m, subst (λ o. ends_in (parent_of written) m o ≡ true) (sym (same_parent x t)) k)
    ]

    written-IsGrounded : IsGrounded (parent_of written)
    written-IsGrounded x = let (n, e) = h.grounded x in ways n (some x) e

  module _
      (stay : not (str_eq existing.space_id body.space_id)
          && any (λ c. has_parent id c && is_none (CategoryRow.deleted_at c)) categories
        ≡ false) where
    child_stays :
        (c : CategoryRow) (p : String)
        → Memᴰ c categories
        → is_none c.deleted_at ≡ true
        → truthy c.parent_id ≡ some p
        → any (is_live_in c.space_id p) categories ≡ true
        → str_eq p id ≡ true
        → c.space_id ≡ body.space_id
    child_stays c p m live up there own =
        let same : p ≡ id = (str_eq_iff p id).0 own in
        let (d, n, inside) = mem_of_any (is_live_in c.space_id p) categories there in
        let live_p : is_live p d ≡ true = ground arith in
        let row : find (is_live id) categories ≡ some d =
          live_found id categories d h.ids n (subst (λ w. is_live w d ≡ true) same live_p) in
        let this : d ≡ existing = ground (arith, row, found) in
        let place : d.space_id ≡ c.space_id = (str_eq_iff d.space_id c.space_id).0 (ground arith) in
        let place_of : existing.space_id ≡ c.space_id =
          sym (ap CategoryRow.space_id this) ∙ place in
        elim (Bool-cases (str_eq existing.space_id body.space_id)) [
          | inl t ↦ sym place_of ∙ (str_eq_iff existing.space_id body.space_id).0 t
          | inr t ↦
              let child : has_parent id c ≡ true = is_parent c id (up ∙ ap some same) in
              let used =
                any_of_mem (λ c. has_parent id c && is_none (CategoryRow.deleted_at c)) categories c
                  m (ground arith) in
              absurd (ground arith)
        ]

    IsPlaced-after :
        (c : CategoryRow) (o : Option String)
        → Memᴰ c categories
        → is_none c.deleted_at ≡ true
        → truthy c.parent_id ≡ o
        → IsPlaced categories c.space_id o
        → IsPlaced written c.space_id o
    IsPlaced-after c none m live up k = tt
    IsPlaced-after c (some p) m live up k =
        still_placed c.space_id p k (child_stays c p m live up k)

    IsPlaced-new :
        check_parent id (truthy body.parent_id) body.space_id categories ≡ none
        → (o : Option String) → truthy body.parent_id ≡ o
        → IsPlaced written body.space_id o
    IsPlaced-new checked none e = tt
    IsPlaced-new checked (some p) e =
        let (apart, there, met) = parent_fits checked (truthy body.parent_id) checked p e in
        still_placed body.space_id p there (λ own. refl)

    pub written-IsTree :
        check_parent id (truthy body.parent_id) body.space_id categories ≡ none → IsTree written
    written-IsTree checked = record {
      ids =
          rw
            (map-update_where CategoryRow.id (has_name id) (write_category normal is_slug body)
              categories (λ c. refl))
            h.ids;
      local =
          All-update_where_if (IsLocal written) (λ c. Memᴰ c categories × IsLocal categories c)
            (has_name id) (write_category normal is_slug body) categories
            (λ c (m, k) hit live.
              IsPlaced-new checked (truthy (truthy body.parent_id))
                (sym (truthy_twice body.parent_id)))
            (λ c (m, k) miss live. IsPlaced-after c (truthy c.parent_id) m live refl (k live))
            (All-tabulate (λ c. Memᴰ c categories × IsLocal categories c) categories
              (λ c m. (m, All_of_mem (IsLocal categories) categories c h.local m)));
      grounded = written-IsGrounded checked;
    }
