-- ===== src/Hierarchy/Kept.antt =====
-- The handlers for categories in apps/api/src/controllers.ts keep the tables a tree.
use isms_portal.Base.{
  ℕ, String, ◌≡◌, refl, sym, ◌≢◌, inl, inr, Bool, true, false, not, ◌&&◌, Option, none, some, List,
  [], map, arith, str_eq, Bool-cases, Option-cases, truthy, find, update_where, includes,
}
use mathlib.Core.Path.{subst}
use isms_portal.Hierarchy.{
  CategoryRow, TreeStore, CategoryBody, TreeOutcome, is_live, has_parent, has_space, check_parent,
  is_used, place_category, add_category, fits_parent, create_category, update_category,
  delete_category,
}
use isms_portal.Hierarchy.Tree.{IsPlaced, IsTree}
use isms_portal.Hierarchy.Updated.{has_name, truthy_twice, written-IsTree}
use isms_portal.Hierarchy.Tree.{update_category_ends}
use isms_portal.Hierarchy.Created.{added-IsTree}
use isms_portal.Hierarchy.Deleted.{hang, bury, left-IsTree}

-- An update keeps the table a tree, whatever it asks for.
update_category-IsTree :
    (normal : String → String) (is_slug : String → Bool) (user id : String) (body : CategoryBody)
    (s : TreeStore)
    → IsTree s.categories
    → IsTree (update_category normal is_slug user id body s).0.categories
unfolding update_category
update_category-IsTree normal is_slug user id body s h =
    elim (Option-cases (find (is_live id) s.categories)) [
      | inl t ↦
          let same : (update_category normal is_slug user id body s).0 ≡ s =
            rw (update_category, t) refl in
          rw same h
      | inr (existing, t) ↦ elim (Bool-cases (is_slug (normal body.slug))) [
        | inr u ↦
            let same : (update_category normal is_slug user id body s).0 ≡ s =
              rw (update_category, t, u) refl in
            rw same h
        | inl u ↦ elim (Bool-cases (has_space body.space_id s)) [
          | inr v ↦
              let same : (update_category normal is_slug user id body s).0 ≡ s =
                rw (update_category, t, u, v) refl in
              rw same h
          | inl v ↦
              let same : update_category normal is_slug user id body s
                  ≡ place_category normal is_slug user id body existing s
                      (check_parent id (truthy body.parent_id) body.space_id s.categories) =
                rw (update_category, t, u, v) refl in
              rw same (
                placed existing t
                  (check_parent id (truthy body.parent_id) body.space_id s.categories) refl)
        ]
      ]
    ]
  where
    placed :
        (existing : CategoryRow)
        → find (is_live id) s.categories ≡ some existing
        → (o : Option TreeOutcome)
        → check_parent id (truthy body.parent_id) body.space_id s.categories ≡ o
        → IsTree (place_category normal is_slug user id body existing s o).0.categories
    placed existing t (some refusal) checked = h
    placed existing t none checked =
        elim (Bool-cases (not (str_eq existing.space_id body.space_id) && is_used id s)) [
          | inl w ↦ rw w h
          | inr w ↦ rw w (
              written-IsTree normal is_slug id body existing s.categories h t (ground arith)
                checked)
        ]

fits-IsPlaced :
    (space_id : String) (categories : List CategoryRow) (o : Option String)
    → fits_parent space_id categories o ≡ true
    → IsPlaced categories space_id o
fits-IsPlaced space_id categories none h = tt
fits-IsPlaced space_id categories (some p) h = h

create_category-IsTree :
    (normal : String → String) (is_slug : String → Bool) (fresh user : String) (body : CategoryBody)
    (s : TreeStore)
    → includes (map CategoryRow.id s.categories) fresh ≡ false
    → IsTree s.categories
    → IsTree (create_category normal is_slug fresh user body s).0.categories
unfolding create_category
create_category-IsTree normal is_slug fresh user body s new h =
    elim (Bool-cases (is_slug (normal body.slug))) [
      | inr t ↦
          let same : (create_category normal is_slug fresh user body s).0 ≡ s =
            rw (create_category, t) refl in
          rw same h
      | inl t ↦ elim (Bool-cases (has_space body.space_id s)) [
        | inr u ↦
            let same : (create_category normal is_slug fresh user body s).0 ≡ s =
              rw (create_category, t, u) refl in
            rw same h
        | inl u ↦
            elim (Bool-cases (fits_parent body.space_id s.categories (truthy body.parent_id))) [
              | inr v ↦
                  let same : (create_category normal is_slug fresh user body s).0 ≡ s =
                    rw (create_category, t, u, v) refl in
                  rw same h
              | inl v ↦
                  let same : create_category normal is_slug fresh user body s
                      ≡ add_category normal is_slug fresh user body s =
                    rw (create_category, t, u, v) refl in
                  rw same (
                    added-IsTree _ s.categories h new
                      (subst (λ o. IsPlaced s.categories body.space_id o)
                        (sym (truthy_twice body.parent_id))
                        (fits-IsPlaced body.space_id s.categories (truthy body.parent_id) v))
                      refl)
            ]
      ]
    ]

delete_category-IsTree :
    (now : ℕ) (user id : String) (s : TreeStore)
    → str_eq id "" ≡ false
    → IsTree s.categories
    → IsTree (delete_category now user id s).0.categories
unfolding delete_category
delete_category-IsTree now user id s full h = elim (Option-cases (find (is_live id) s.categories)) [
  | inl t ↦
      let same : (delete_category now user id s).0 ≡ s = rw (delete_category, t) refl in rw same h
  | inr (existing, t) ↦
      let same : (delete_category now user id s).0.categories
          ≡ update_where (has_name id) (bury now)
              (update_where (has_parent id) (hang existing.parent_id) s.categories) =
        rw (delete_category, t) refl in
      rw same (left-IsTree now id existing s.categories h t full)
]

module _ (normal : String → String) (is_slug : String → Bool) where
  -- A new category has a new identifier; a request to delete one names one.
  pub data Step : TreeStore → TreeStore → Type 0 where
    creates :
        (fresh user : String) (body : CategoryBody) {s : TreeStore}
        → includes (map CategoryRow.id s.categories) fresh ≡ false
        → Step s (create_category normal is_slug fresh user body s).0
    updates :
        (user id : String) (body : CategoryBody) {s : TreeStore}
        → Step s (update_category normal is_slug user id body s).0
    deletes :
        (now : ℕ) (user id : String) {s : TreeStore}
        → str_eq id "" ≡ false
        → Step s (delete_category now user id s).0

  pub data Reach (s : TreeStore) : TreeStore → Type 0 where
    here : Reach s s
    next : {t u : TreeStore} → Reach s t → Step t u → Reach s u

  Step-IsTree : {s t : TreeStore} → Step s t → IsTree s.categories → IsTree t.categories
  Step-IsTree (creates fresh user body {s} new) h =
      create_category-IsTree normal is_slug fresh user body s new h
  Step-IsTree (updates user id body {s}) h = update_category-IsTree normal is_slug user id body s h
  Step-IsTree (deletes now user id {s} full) h = delete_category-IsTree now user id s full h

  Reach-IsTree : {s t : TreeStore} → Reach s t → IsTree s.categories → IsTree t.categories
  Reach-IsTree here h = h
  Reach-IsTree (next r st) h = Step-IsTree st (Reach-IsTree r h)

  empty-IsTree : (s : TreeStore) → s.categories ≡ [] → IsTree s.categories
  empty-IsTree s none_yet = rw none_yet (record { ids = tt; local = tt; grounded = λ x. (1, refl) })

  -- After any sequence of created, updated and deleted categories, from a table without one, each
  -- new one under a new identifier: identifiers occur once, the parent of each category that is
  -- not deleted is a category of the same space that is not deleted, and the way up from every
  -- category to its parents ends.
  pub stays-IsTree : (s t : TreeStore) → s.categories ≡ [] → Reach s t → IsTree t.categories
  stays-IsTree s t none_yet r = Reach-IsTree r (empty-IsTree s none_yet)

  -- There, the loop of an update that looks for a cycle ends, on as many rounds as there are
  -- categories, whatever the update asks for.
  pub update_always_ends :
      (s t : TreeStore) (user id : String) (body : CategoryBody)
      → s.categories ≡ []
      → Reach s t
      → (update_category normal is_slug user id body t).1 ≢ TreeOutcome.endless
  update_always_ends s t user id body none_yet r =
      update_category_ends normal is_slug user id body t (stays-IsTree s t none_yet r)
