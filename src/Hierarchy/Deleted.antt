-- ===== src/Hierarchy/Deleted.antt =====
-- `deleteCategory` of apps/api/src/controllers.ts keeps the table of the categories a tree.
use isms_portal.Base.{
  ℕ, zero, suc, String, ◌≡◌, refl, sym, ap, ◌∙◌, ◌≢◌, ◌⊎◌, inl, inr, Bool, true, false, false≢true,
  Option, none, some, List, [], ◌∷◌, arith, str_eq, if◌then◌else◌, Bool-cases, Option-cases,
  is_none, str_eq_iff, str_eq_of_ne, truthy, any, find, update_where, find_sound, All_of_mem,
  All-update_where, map-update_where, mem_of_find, mem-update_where, All-update_where_if,
  mem-updated, any_of_mem, mem_of_any,
}
use mathlib.Core.Path.{subst}
use isms_portal.Hierarchy.{CategoryRow, is_live, is_live_in, has_parent, parent_of_row}
use isms_portal.Hierarchy.Ends.{ends_in, ends_in_more}
use isms_portal.Hierarchy.Tree.{parent_of, IsPlaced, IsLocal, IsTree, live_found}
use isms_portal.Hierarchy.Updated.{has_name, find_other, is_parent}

abbrev pub hang : Option String → CategoryRow → CategoryRow
hang parent c = record c { parent_id = parent }

abbrev pub bury : ℕ → CategoryRow → CategoryRow
bury now c = record c { deleted_at = some now }

find_hung :
    (id x : String) (q : Option String) (xs : List CategoryRow) (c : CategoryRow)
    → find (is_live x) xs ≡ some c
    → find (is_live x) (update_where (has_parent id) (hang q) xs)
      ≡ some (if has_parent id c then hang q c else c)
find_hung id x q [] c h = absurd (ground arith)
find_hung id x q (y ∷ xs) c h = elim (Bool-cases (is_live x y)) [
  | inl t ↦
      let same : y ≡ c = ground (arith, t, h) in
      elim (Bool-cases (has_parent id y)) [
        | inl u ↦ rw (← same) (rw (u, t) refl)
        | inr u ↦ rw (← same) (rw (u, t) refl)
      ]
  | inr t ↦
      let rest = find_hung id x q xs c (ground (arith, t, h)) in
      elim (Bool-cases (has_parent id y)) [ inl u ↦ rw (u, t) rest | inr u ↦ rw (u, t) rest ]
]

find_hung_none :
    (id x : String) (q : Option String) (xs : List CategoryRow)
    → find (is_live x) xs ≡ none
    → find (is_live x) (update_where (has_parent id) (hang q) xs) ≡ none
find_hung_none id x q [] h = refl
find_hung_none id x q (y ∷ xs) h = elim (Bool-cases (is_live x y)) [
  | inl t ↦ absurd (ground (arith, t, h))
  | inr t ↦
      let rest = find_hung_none id x q xs (ground (arith, t, h)) in
      elim (Bool-cases (has_parent id y)) [ inl u ↦ rw (u, t) rest | inr u ↦ rw (u, t) rest ]
]

find_buried :
    (id : String) (now : ℕ) (xs : List CategoryRow)
    → find (is_live id) (update_where (has_name id) (bury now) xs) ≡ none
find_buried id now [] = refl
find_buried id now (y ∷ xs) = elim (Bool-cases (has_name id y)) [
  | inl t ↦ rw t (ground (arith, t, find_buried id now xs))
  | inr t ↦ rw t (ground (arith, t, find_buried id now xs))
]

parent_hung :
    (c : CategoryRow) (id : String)
    → has_parent id c ≡ true
    → str_eq id "" ≡ false
    → truthy c.parent_id ≡ some id
parent_hung c id h full = go c.parent_id h
  where
    go :
        (o : Option String)
        → (elim o as (λ x. Bool) [ none ↦ false | some p ↦ str_eq p id ]) ≡ true
        → truthy o ≡ some id
    go none k = absurd (ground arith)
    go (some p) k = let same : p ≡ id = (str_eq_iff p id).0 k in rw (same, full) refl

no_loop :
    (next : String → Option String) (id : String) (n : ℕ)
    → next id ≡ some id
    → ends_in next n (some id) ≡ true
    → ⊥
no_loop next id zero loop e = false≢true e
no_loop next id (suc n) loop e =
    no_loop next id n loop (subst (λ o. ends_in next n o ≡ true) loop e)

module _ (now : ℕ) (id : String) (existing : CategoryRow) (categories : List CategoryRow)
    (h : IsTree categories) (found : find (is_live id) categories ≡ some existing)
    (full : str_eq id "" ≡ false) where
  abbrev hung : List CategoryRow
  hung = update_where (has_parent id) (hang existing.parent_id) categories

  abbrev left : List CategoryRow
  left = update_where (has_name id) (bury now) hung

  own_parent_of : parent_of categories id ≡ truthy existing.parent_id
  own_parent_of = ap parent_of_row found

  gone : parent_of left id ≡ none
  gone = ap parent_of_row (find_buried id now hung)

  -- The parent of another category afterwards: the same, or that of the one that was deleted.
  parent_cases :
      (x : String)
      → str_eq x id ≡ false
      → (parent_of left x ≡ parent_of categories x)
        ⊎ ((parent_of categories x ≡ some id) × (parent_of left x ≡ parent_of categories id))
  parent_cases x apart =
      let other = find_other id x (bury now) hung (λ c. refl) apart in
      elim (Option-cases (find (is_live x) categories)) [
        | inl t ↦ inl (
            ap parent_of_row (other ∙ find_hung_none id x existing.parent_id categories t)
            ∙ sym (ap parent_of_row t))
        | inr (c, t) ↦
            let after =
              ap parent_of_row (other ∙ find_hung id x existing.parent_id categories c t) in
            elim (Bool-cases (has_parent id c)) [
              | inl u ↦
                  let moved : parent_of_row
                        (some (if has_parent id c then hang existing.parent_id c else c))
                      ≡ truthy existing.parent_id =
                    rw u refl in
                  inr (
                    ap parent_of_row t ∙ parent_hung c id u full,
                    after ∙ moved ∙ sym own_parent_of,
                  )
              | inr u ↦
                  let kept : parent_of_row
                        (some (if has_parent id c then hang existing.parent_id c else c))
                      ≡ truthy c.parent_id =
                    rw u refl in
                  inl (after ∙ kept ∙ sym (ap parent_of_row t))
            ]
      ]

  ways :
      (n : ℕ) (o : Option String)
      → ends_in (parent_of categories) n o ≡ true
      → ends_in (parent_of left) n o ≡ true
  ways n none e = refl
  ways zero (some x) e = absurd (ground arith)
  ways (suc zero) (some x) e = elim (Bool-cases (str_eq x id)) [
    | inl t ↦
        let same : x ≡ id = (str_eq_iff x id).0 t in
        subst (λ o. ends_in (parent_of left) 0 o ≡ true) (sym (ap (parent_of left) same ∙ gone))
          refl
    | inr t ↦ elim (parent_cases x t) [
      | inl same ↦
          subst (λ o. ends_in (parent_of left) 0 o ≡ true) (sym same)
            (ways zero (parent_of categories x) e)
      | inr (was, is) ↦
          absurd (false≢true (subst (λ o. ends_in (parent_of categories) 0 o ≡ true) was e))
    ]
  ]
  ways (suc (suc n)) (some x) e = elim (Bool-cases (str_eq x id)) [
    | inl t ↦
        let same : x ≡ id = (str_eq_iff x id).0 t in
        subst (λ o. ends_in (parent_of left) (suc n) o ≡ true)
          (sym (ap (parent_of left) same ∙ gone)) refl
    | inr t ↦ elim (parent_cases x t) [
      | inl same ↦
          subst (λ o. ends_in (parent_of left) (suc n) o ≡ true) (sym same)
            (ways (suc n) (parent_of categories x) e)
      | inr (was, is) ↦
          let before : ends_in (parent_of categories) n (parent_of categories id) ≡ true =
            subst (λ o. ends_in (parent_of categories) (suc n) o ≡ true) was e in
          subst (λ o. ends_in (parent_of left) (suc n) o ≡ true) (sym is)
            (ends_in_more (parent_of left) n (parent_of categories id)
              (ways n (parent_of categories id) before))
    ]
  ]

  not_own : parent_of categories id ≢ some id
  not_own = λ loop. let (n, e) = h.grounded id in no_loop (parent_of categories) id n loop e

  -- A row that is live in a space is so afterwards, if it is not the one that is deleted.
  still_placed :
      (space_id p : String)
      → any (is_live_in space_id p) categories ≡ true
      → str_eq p id ≡ false
      → any (is_live_in space_id p) left ≡ true
  still_placed space_id p there apart =
      let (d, m, live) = mem_of_any (is_live_in space_id p) categories there in
      let named : d.id ≡ p = (str_eq_iff d.id p).0 (ground arith) in
      let other : has_name id d ≡ false = rw (← named) at apart in
      elim (Bool-cases (has_parent id d)) [
        | inl t ↦
            any_of_mem (is_live_in space_id p) left (hang existing.parent_id d)
              (mem-update_where (has_name id) (bury now) hung (hang existing.parent_id d)
                (mem-updated (has_parent id) (hang existing.parent_id) categories d m t) other)
              live
        | inr t ↦
            any_of_mem (is_live_in space_id p) left d
              (mem-update_where (has_name id) (bury now) hung d
                (mem-update_where (has_parent id) (hang existing.parent_id) categories d m t) other)
              live
      ]

  IsPlaced-apart :
      (space_id : String) (o : Option String)
      → (o ≡ some id → ⊥)
      → IsPlaced categories space_id o
      → IsPlaced left space_id o
  IsPlaced-apart space_id none apart k = tt
  IsPlaced-apart space_id (some p) apart k =
      still_placed space_id p k (str_eq_of_ne p id (λ e. apart (ap some e)))

  -- A child of the deleted category is in its space.
  child_space :
      (c : CategoryRow)
      → IsLocal categories c
      → is_none c.deleted_at ≡ true
      → has_parent id c ≡ true
      → existing.space_id ≡ c.space_id
  child_space c k live child =
      let there : any (is_live_in c.space_id id) categories ≡ true =
        subst (λ o. IsPlaced categories c.space_id o) (parent_hung c id child full) (k live) in
      let (d, m, inside) = mem_of_any (is_live_in c.space_id id) categories there in
      let live_d : is_live id d ≡ true = ground arith in
      let row = live_found id categories d h.ids m live_d in
      let this : d ≡ existing = ground (arith, row, found) in
      let place : d.space_id ≡ c.space_id = (str_eq_iff d.space_id c.space_id).0 (ground arith) in
      sym (ap CategoryRow.space_id this) ∙ place

  IsLocal-hung :
      (c : CategoryRow)
      → IsLocal categories c
      → has_parent id c ≡ true
      → IsLocal left (hang existing.parent_id c)
  IsLocal-hung c k child live =
      let alive = find_sound (is_live id) categories existing found in
      let placed =
        All_of_mem (IsLocal categories) categories existing h.local
          (mem_of_find (is_live id) categories existing found) (ground arith) in
      IsPlaced-apart c.space_id (truthy existing.parent_id) (λ e. not_own (own_parent_of ∙ e))
        (subst (λ w. IsPlaced categories w (truthy existing.parent_id)) (child_space c k live child)
          placed)

  IsLocal-other :
      (c : CategoryRow) → IsLocal categories c → has_parent id c ≡ false → IsLocal left c
  IsLocal-other c k alone live =
      IsPlaced-apart c.space_id (truthy c.parent_id)
        (λ e. false≢true (sym alone ∙ is_parent c id e)) (k live)

  pub left-IsTree : IsTree left
  left-IsTree = record {
    ids =
        rw
          (
            map-update_where CategoryRow.id (has_name id) (bury now) hung (λ c. refl),
            map-update_where CategoryRow.id (has_parent id) (hang existing.parent_id) categories
                (λ c. refl),
          )
          h.ids;
    local =
        All-update_where (IsLocal left) (has_name id) (bury now) hung
          (λ c k hit live. absurd (ground arith))
          (All-update_where_if (IsLocal left) (IsLocal categories) (has_parent id)
            (hang existing.parent_id) categories (λ c k hit. IsLocal-hung c k hit)
            (λ c k miss. IsLocal-other c k miss) h.local);
    grounded = λ x. let (n, e) = h.grounded x in (n, ways n (some x) e);
  }
