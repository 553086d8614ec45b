-- ===== src/Hierarchy/Created.antt =====
-- `createCategory` of apps/api/src/controllers.ts keeps the table of the categories a tree.
use isms_portal.Base.{
  ℕ, zero, suc, String, ◌≡◌, refl, sym, ap, ◌∙◌, inl, inr, true, false, false≢true, Option, none,
  some, List, [], ◌∷◌, map, arith, str_eq, Bool-cases, Option-cases, is_none, str_eq_iff,
  str_eq_self, truthy, any, find, includes, any_mono, find_sound, All_of_mem, All-mono, mem_of_find,
}
use mathlib.Core.Path.{subst}
use isms_portal.Hierarchy.{CategoryRow, is_live, is_live_in, parent_of_row}
use isms_portal.Hierarchy.Ends.{ends_in}
use isms_portal.Hierarchy.Tree.{parent_of, IsPlaced, IsLocal, IsTree}
use isms_portal.Hierarchy.Updated.{has_name}

IsPlaced-wider :
    (new : CategoryRow) (categories : List CategoryRow) (space_id : String) (o : Option String)
    → IsPlaced categories space_id o
    → IsPlaced (new ∷ categories) space_id o
IsPlaced-wider new categories space_id none k = tt
IsPlaced-wider new categories space_id (some p) k = ground arith

absent_row :
    (x : String) (xs : List CategoryRow) → any (has_name x) xs ≡ false → find (is_live x) xs ≡ none
absent_row x [] h = refl
absent_row x (c ∷ xs) h = ground (arith, absent_row x xs)

includes-name :
    (x : String) (xs : List CategoryRow) → any (has_name x) xs ≡ includes (map CategoryRow.id xs) x
includes-name x [] = refl
includes-name x (c ∷ xs) = rw (includes-name x xs) refl

module _ (new : CategoryRow) (categories : List CategoryRow) (h : IsTree categories)
    (fresh : includes (map CategoryRow.id categories) new.id ≡ false)
    (fits : IsPlaced categories new.space_id (truthy new.parent_id)) where
  old_parent :
      (x : String)
      → str_eq new.id x ≡ false
      → parent_of (new ∷ categories) x ≡ parent_of categories x
  old_parent x apart = rw apart refl

  apart_from_new : (x : String) → any (has_name x) categories ≡ true → str_eq new.id x ≡ false
  apart_from_new x there = elim (Bool-cases (str_eq new.id x)) [
    | inr t ↦ t
    | inl t ↦
        let same : new.id ≡ x = (str_eq_iff new.id x).0 t in
        let seen : includes (map CategoryRow.id categories) x ≡ true =
          sym (includes-name x categories) ∙ there in
        absurd (false≢true (sym (rw same at fresh) ∙ seen))
  ]

  named_above :
      (space_id : String) (o : Option String) (y : String)
      → o ≡ some y
      → IsPlaced categories space_id o
      → any (has_name y) categories ≡ true
  named_above space_id none y e k = absurd (ground arith)
  named_above space_id (some p) y e k =
      let same : p ≡ y = ground arith in
      any_mono (is_live_in space_id y) (has_name y) categories (λ c l. ground arith)
        (subst (λ w. any (is_live_in space_id w) categories ≡ true) same k)

  parent_named :
      (x y : String) → parent_of categories x ≡ some y → any (has_name y) categories ≡ true
  parent_named x y up = elim (Option-cases (find (is_live x) categories)) [
    | inl t ↦ absurd (ground arith)
    | inr (c, t) ↦
        let live = find_sound (is_live x) categories c t in
        let placed =
          All_of_mem (IsLocal categories) categories c h.local
            (mem_of_find (is_live x) categories c t) (ground arith) in
        let parent : truthy c.parent_id ≡ some y = sym (ap parent_of_row t) ∙ up in
        named_above c.space_id (truthy c.parent_id) y parent placed
  ]

  old_ways :
      (n : ℕ) (x : String)
      → any (has_name x) categories ≡ true
      → ends_in (parent_of categories) n (some x) ≡ true
      → ends_in (parent_of (new ∷ categories)) n (some x) ≡ true
  old_ways zero x there e = absurd (ground arith)
  old_ways (suc n) x there e =
      let same = old_parent x (apart_from_new x there) in
      subst (λ o. ends_in (parent_of (new ∷ categories)) n o ≡ true) (sym same)
        (elim (Option-cases (parent_of categories x)) [
          | inl top ↦ subst (λ o. ends_in (parent_of (new ∷ categories)) n o ≡ true) (sym top) refl
          | inr (y, up) ↦
              subst (λ o. ends_in (parent_of (new ∷ categories)) n o ≡ true) (sym up)
                (old_ways n y (parent_named x y up)
                  (subst (λ o. ends_in (parent_of categories) n o ≡ true) up e))
        ])

  new_way :
      (o : Option String)
      → truthy new.parent_id ≡ o
      → is_none new.deleted_at ≡ true
      → (n : ℕ) × (ends_in (parent_of (new ∷ categories)) n (some new.id) ≡ true)
  new_way none e live =
      let top : parent_of (new ∷ categories) new.id ≡ none = rw (str_eq_self new.id, live) e in
      (1, subst (λ o. ends_in (parent_of (new ∷ categories)) 0 o ≡ true) (sym top) refl)
  new_way (some p) e live =
      let up : parent_of (new ∷ categories) new.id ≡ some p = rw (str_eq_self new.id, live) e in
      let (n, ends) = h.grounded p in
      let there = named_above new.space_id (truthy new.parent_id) p e fits in
      (
        suc n,
        subst (λ o. ends_in (parent_of (new ∷ categories)) n o ≡ true) (sym up)
            (old_ways n p there ends),
      )

  pub added-IsTree : is_none new.deleted_at ≡ true → IsTree (new ∷ categories)
  added-IsTree live = record {
    ids = (fresh, h.ids);
    local = (
      (λ k. IsPlaced-wider new categories new.space_id (truthy new.parent_id) fits),
      All-mono (IsLocal categories) (IsLocal (new ∷ categories)) categories
          (λ c k l. IsPlaced-wider new categories c.space_id (truthy c.parent_id) (k l)) h.local,
    );
    grounded = λ x. elim (Bool-cases (any (has_name x) categories)) [
      | inl t ↦ let (n, e) = h.grounded x in (n, old_ways n x t e)
      | inr t ↦ elim (Bool-cases (str_eq new.id x)) [
        | inl u ↦
            let same : new.id ≡ x = (str_eq_iff new.id x).0 u in
            subst (λ y. (n : ℕ) × (ends_in (parent_of (new ∷ categories)) n (some y) ≡ true)) same
              (new_way (truthy new.parent_id) refl live)
        | inr u ↦
            let top : parent_of (new ∷ categories) x ≡ none =
              old_parent x u ∙ ap parent_of_row (absent_row x categories t) in
            (1, subst (λ o. ends_in (parent_of (new ∷ categories)) 0 o ≡ true) (sym top) refl)
      ]
    ];
  }
