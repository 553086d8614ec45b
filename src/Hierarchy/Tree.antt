-- ===== src/Hierarchy/Tree.antt =====
-- What the tables of categories of apps/api/src/controllers.ts are to be, and that the loop of
-- `updateCategory` ends on them.
use isms_portal.Base.{
  ℕ, zero, suc, String, ◌≡◌, refl, sym, ap, ◌≢◌, ◌⊎◌, inl, inr, Bool, true, not, ◌&&◌, Option, none,
  some, List, map, Memᴰ, arith, str_eq, Bool-cases, Option-cases, is_none, str_eq_iff, truthy,
  length, any, find, All, any_mono, find_sound, All_of_mem, All-mono, Distinct, mem_of_find,
  unique_of_mem, find_of_mem,
}
use mathlib.Core.Path.{subst}
use isms_portal.Hierarchy.{
  CategoryRow, TreeStore, CategoryBody, TreeOutcome, not_found, bad_slug, no_space, cycle, endless,
  is_live, is_live_in, parent_of_row, parent_in, has_space, check_parent, is_used, place_category,
  update_category,
}
use isms_portal.Hierarchy.Ends.{ends_in, hits_ends}
use isms_portal.Hierarchy.Bound.{ends_in-length, named}

-- The parent of a category, if this is not deleted.
abbrev pub parent_of : List CategoryRow → String → Option String
parent_of categories id = parent_of_row (find (is_live id) categories)

-- The parent, if there is one, is in the space, and not deleted.
abbrev pub IsPlaced : List CategoryRow → String → Option String → Type 0
IsPlaced categories space_id none = Unit
IsPlaced categories space_id (some p) = any (is_live_in space_id p) categories ≡ true

abbrev pub IsLocal : List CategoryRow → CategoryRow → Type 0
IsLocal categories c =
    is_none c.deleted_at ≡ true → IsPlaced categories c.space_id (truthy c.parent_id)

abbrev pub IsGrounded : (String → Option String) → Type 0
IsGrounded next = (x : String) → (n : ℕ) × (ends_in next n (some x) ≡ true)

-- Identifiers occur once; the parent of a category is in the same space; and the way up from every
-- category ends.
pub record IsTree (categories : List CategoryRow) : Type 0 where
  pub ids : Distinct (map CategoryRow.id categories)
  pub local : All (IsLocal categories) categories
  pub grounded : IsGrounded (parent_of categories)

pub live_found :
    (id : String) (categories : List CategoryRow) (c : CategoryRow)
    → Distinct (map CategoryRow.id categories)
    → Memᴰ c categories
    → is_live id c ≡ true
    → find (is_live id) categories ≡ some c
live_found id categories c u m live =
    let same : c.id ≡ id = (str_eq_iff c.id id).0 (ground arith) in
    find_of_mem (is_live id) categories c m live (
      All-mono (λ x. str_eq (CategoryRow.id x) c.id ≡ true → x ≡ c)
        (λ x. is_live id x ≡ true → x ≡ c) categories (λ x only e. only (rw same (ground arith)))
        (unique_of_mem CategoryRow.id categories c u m))

pub found_in :
    (space_id id : String) (categories : List CategoryRow) (c : CategoryRow)
    → Distinct (map CategoryRow.id categories)
    → find (is_live_in space_id id) categories ≡ some c
    → find (is_live id) categories ≡ some c
found_in space_id id categories c u h =
    let live = find_sound (is_live_in space_id id) categories c h in
    live_found id categories c u (mem_of_find (is_live_in space_id id) categories c h)
      (ground arith)

-- Within a space, the map of `updateCategory` gives the parent of a category or nothing.
pub parent_in_cases :
    (space_id id : String) (categories : List CategoryRow)
    → Distinct (map CategoryRow.id categories)
    → (parent_in space_id categories id ≡ none)
      ⊎ (parent_in space_id categories id ≡ parent_of categories id)
parent_in_cases space_id id categories u =
    elim (Option-cases (find (is_live_in space_id id) categories)) [
      | inl t ↦ inl (rw t refl)
      | inr (c, t) ↦ let found = found_in space_id id categories c u t in inr (rw (t, found) refl)
    ]

ends_in_space :
    (space_id : String) (categories : List CategoryRow) (n : ℕ) (o : Option String)
    → Distinct (map CategoryRow.id categories)
    → ends_in (parent_of categories) n o ≡ true
    → ends_in (parent_in space_id categories) n o ≡ true
ends_in_space space_id categories n none u h = refl
ends_in_space space_id categories zero (some x) u h = absurd (ground arith)
ends_in_space space_id categories (suc n) (some x) u h =
    elim (parent_in_cases space_id x categories u) [
      | inl top ↦ subst (λ o. ends_in (parent_in space_id categories) n o ≡ true) (sym top) refl
      | inr up ↦
          subst (λ o. ends_in (parent_in space_id categories) n o ≡ true) (sym up)
            (ends_in_space space_id categories n (parent_of categories x) u h)
    ]

placed_named :
    (space_id y : String) (categories : List CategoryRow) (o : Option String)
    → o ≡ some y
    → IsPlaced categories space_id o
    → any (named y) categories ≡ true
placed_named space_id y categories none e h = absurd (ground arith)
placed_named space_id y categories (some p) e h =
    let same : p ≡ y = ground arith in
    any_mono (is_live_in space_id y) (named y) categories (λ c k. ground arith) (rw same at h)

space_closed :
    (space_id : String) (categories : List CategoryRow)
    → IsTree categories
    → (x y : String) → parent_in space_id categories x ≡ some y
    → any (named y) categories ≡ true
space_closed space_id categories h x y up =
    elim (Option-cases (find (is_live_in space_id x) categories)) [
      | inl t ↦ absurd (ground arith)
      | inr (c, t) ↦
          let live = find_sound (is_live_in space_id x) categories c t in
          let placed =
            All_of_mem (IsLocal categories) categories c h.local
              (mem_of_find (is_live_in space_id x) categories c t) (ground arith) in
          let parent : truthy c.parent_id ≡ some y = rw t at up in
          placed_named c.space_id y categories (truthy c.parent_id) parent placed
    ]

-- On a tree, the loop of `updateCategory` ends.
pub check_parent_ends :
    (id : String) (parent : Option String) (space_id : String) (categories : List CategoryRow)
    → IsTree categories
    → check_parent id parent space_id categories ≢ some endless
unfolding check_parent
check_parent_ends id none space_id categories h = λ e. absurd (ground arith)
check_parent_ends id (some parent) space_id categories h = elim (Bool-cases (str_eq parent id)) [
  | inl t ↦ λ e. absurd (ground arith)
  | inr t ↦ elim (Bool-cases (any (is_live_in space_id parent) categories)) [
    | inr u ↦ λ e. absurd (ground arith)
    | inl u ↦
        let (n, ends) = h.grounded parent in
        let there : any (named parent) categories ≡ true =
          any_mono (is_live_in space_id parent) (named parent) categories (λ c k. ground arith) u in
        let within =
          ends_in-length (parent_in space_id categories) categories
            (space_closed space_id categories h) n parent there
            (ends_in_space space_id categories n (some parent) h.ids ends) in
        let (met, over) =
          hits_ends (parent_in space_id categories) id (length categories) (some parent) within in
        elim (Bool-cases met) [
          | inl k ↦
              let same : check_parent id (some parent) space_id categories ≡ some cycle =
                rw (check_parent, t, u, over, k) refl in
              λ e. absurd (ground arith)
          | inr k ↦
              let same : check_parent id (some parent) space_id categories ≡ none =
                rw (check_parent, t, u, over, k) refl in
              λ e. absurd (ground arith)
        ]
  ]
]

module _ (normal : String → String) (is_slug : String → Bool) where
  -- An update of a category, however it ends, does not fail to end: in a table whose identifiers
  -- occur once, with each parent in the space of its category and no cycle, the loop that looks
  -- for a cycle needs no more rounds than there are categories.
  pub update_category_ends :
      (user id : String) (body : CategoryBody) (s : TreeStore)
      → IsTree s.categories
      → (update_category normal is_slug user id body s).1 ≢ endless
  unfolding update_category
  update_category_ends user id body s h = elim (Option-cases (find (is_live id) s.categories)) [
    | inl t ↦
        let same : (update_category normal is_slug user id body s).1 ≡ not_found =
          rw (update_category, t) refl in
        λ e. absurd (ground arith)
    | inr (existing, t) ↦ elim (Bool-cases (is_slug (normal body.slug))) [
      | inr u ↦
          let same : (update_category normal is_slug user id body s).1 ≡ bad_slug =
            rw (update_category, t, u) refl in
          λ e. absurd (ground arith)
      | inl u ↦ elim (Bool-cases (has_space body.space_id s)) [
        | inr v ↦
            let same : (update_category normal is_slug user id body s).1 ≡ no_space =
              rw (update_category, t, u, v) refl in
            λ e. absurd (ground arith)
        | inl v ↦
            let same : update_category normal is_slug user id body s
                ≡ place_category normal is_slug user id body existing s
                    (check_parent id (truthy body.parent_id) body.space_id s.categories) =
              rw (update_category, t, u, v) refl in
            λ e.
              placed existing (check_parent id (truthy body.parent_id) body.space_id s.categories)
                (check_parent_ends id (truthy body.parent_id) body.space_id s.categories h)
                (rw same at e)
      ]
    ]
  ]
    where
      placed :
          (existing : CategoryRow) (o : Option TreeOutcome)
          → o ≢ some endless
          → (place_category normal is_slug user id body existing s o).1 ≡ endless
          → ⊥
      placed existing (some refusal) h e = h (ap some e)
      placed existing none h e =
          elim (Bool-cases (not (str_eq existing.space_id body.space_id) && is_used id s)) [
            | inl t ↦ absurd (ground arith)
            | inr t ↦ absurd (ground arith)
          ]
