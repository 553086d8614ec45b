-- ===== src/Access/Spaces/Root.antt =====
-- The two ways in which `can` decides on the root of a space: the count in the database for a
-- category that is `undefined`, and the computation over the loaded space for one that is `null`.
use isms_portal.Base.{
  ℕ, ◌≤◌, String, ◌≡◌, refl, sym, ap, ◌∙◌, ◌≢◌, inl, inr, Bool, true, false, ◌&&◌, Option, none,
  some, List, [], ◌∷◌, map, arith, ltb, ◌==◌, str_eq, Bool-cases, is_none, str_eq_of_ne, truthy,
  length, filter, any, find, count_where, All, any_congr, any_mono, holds_at, holds_at-found,
}
use isms_portal.Access.Roles.{Permission, is_admin_identity, is_moderator_identity, moderator_can}
use isms_portal.Access.Categories.{category_allowed}
use mathlib.Core.List.{map-map}
use isms_portal.Access.Spaces.{
  in_query, scope_for, is_permitted, permitted_spaces_for, scope_of, can, find_spaces,
  PermittedSpace, concerns, Group, AccessRule, Space, in_force, in_groups, named_in, owned_in_query,
  load, owner_named, acl_root_of, space_grants,
}

-- Every rule of the space that has a category has one with a non-empty identifier.
abbrev pub HasCategoryIds : Space → Type 0
HasCategoryIds s = All (λ r. AccessRule.category_id r ≢ some "") s.access_rules

is_none-truthy : (c : Option String) → c ≢ some "" → is_none (truthy c) ≡ is_none c
is_none-truthy none h = refl
is_none-truthy (some c) h = rw (str_eq_of_ne c "" (λ e. h (ap some e)))

pub any-length : {A : Type 0} (p : A → Bool) (xs : List A) → ltb 0 (length (filter p xs)) ≡ any p xs
any-length p [] = refl
any-length p (x ∷ xs) = ground (arith, any-length p xs)

module _ (lower : String → String) (insensitive : String → String → Bool)
    (agree : (a b : String) → insensitive a b ≡ str_eq (lower b) (lower a)) where
  pub named_in-in_groups :
      (groups : List String) (g : Group)
      → in_groups lower insensitive groups g ≡ (g.active && named_in lower insensitive groups g)
  named_in-in_groups groups g = ap (λ b. g.active && b) (any_congr _ _ groups (λ n. agree g.name n))

  module _ (now : ℕ) (groups : List String) (p : Permission) where
    rule_grants :
        (rules : List AccessRule)
        → All (λ r. AccessRule.category_id r ≢ some "") rules
        → any
            (λ r.
              is_none (AccessRule.category_id r)
              && in_groups lower insensitive groups r.group
              && r.grants p
              && in_force now r)
            rules
          ≡ any
              (λ r.
                is_none (truthy (AccessRule.category_id r))
                && named_in lower insensitive groups r.group
                && r.grants p)
              (filter (λ r. r.group.active && in_force now r) rules)
    rule_grants [] h = refl
    rule_grants (r ∷ rs) (h, hs) = ground (
      arith,
      rule_grants rs hs,
      named_in-in_groups groups r.group,
      is_none-truthy r.category_id h,
    )

    owner_agrees :
        (g : Option Group)
        → owner_named lower insensitive groups g ≡ owned_in_query lower insensitive groups g
    owner_agrees none = refl
    owner_agrees (some g) = sym (named_in-in_groups groups g)

    root_of_load :
        (s : Space)
        → is_admin_identity groups ≡ false
        → is_moderator_identity groups ≡ false
        → HasCategoryIds s
        → acl_root_of lower insensitive groups p (load lower insensitive now groups s)
          ≡ space_grants lower insensitive now groups p s
    unfolding acl_root_of moderator_can
    root_of_load s plain unmoderated h = ground (
      arith,
      rule_grants s.access_rules h,
      any-length (λ t. in_groups lower insensitive groups t.group && ltb now t.valid_until)
          s.temporary_access_grants,
      owner_agrees s.owner_group,
    )

    rules_concern :
        (rules : List AccessRule)
        → any
            (λ r.
              is_none (AccessRule.category_id r)
              && in_groups lower insensitive groups r.group
              && r.grants p
              && in_force now r)
            rules
          ≡ true
        → any (λ r. in_groups lower insensitive groups r.group && in_force now r) rules ≡ true
    rules_concern rules = any_mono _ _ rules (λ r h. ground arith)

    space_grants-concerns :
        (s : Space)
        → space_grants lower insensitive now groups p s ≡ true
        → concerns lower insensitive now groups s ≡ true
    space_grants-concerns s h = ground (arith, rules_concern s.access_rules)

    abbrev root_shown : PermittedSpace → Bool
    root_shown s = s.acl_root

    root_allowed :
        (s : Option PermittedSpace)
        → category_allowed (scope_of lower insensitive s) none ≡ holds_at root_shown s
    unfolding category_allowed
    root_allowed none = refl
    root_allowed (some s) = ground arith

    -- What the query and the loop do for one space that the identity is no manager of.
    one_space :
        (id : String) (s : Space)
        → is_admin_identity groups ≡ false
        → is_moderator_identity groups ≡ false
        → HasCategoryIds s
        → (in_query lower insensitive now groups (some id) s ≡ true
            → root_shown
                (scope_for lower insensitive groups p (load lower insensitive now groups s))
              ≡ (is_none s.deleted_at && space_grants lower insensitive now groups p s))
          × (str_eq s.id id ≡ true
              → in_query lower insensitive now groups (some id) s ≡ false
              → (is_none s.deleted_at && space_grants lower insensitive now groups p s) ≡ false)
    unfolding scope_for
    one_space id s plain unmoderated h = (
      λ k. ground (arith, root_of_load s plain unmoderated h),
      λ same k. ground (arith, space_grants-concerns s),
    )

    every_space :
        (id : String) (db : List Space)
        → is_admin_identity groups ≡ false
        → is_moderator_identity groups ≡ false
        → All HasCategoryIds db
        → All
            (λ s.
              (in_query lower insensitive now groups (some id) s ≡ true
                → root_shown
                    (scope_for lower insensitive groups p (load lower insensitive now groups s))
                  ≡ (is_none (Space.deleted_at s) && space_grants lower insensitive now groups p s))
              × (str_eq s.id id ≡ true
                  → in_query lower insensitive now groups (some id) s ≡ false
                  → (is_none s.deleted_at && space_grants lower insensitive now groups p s)
                    ≡ false))
            db
    every_space id [] plain unmoderated h = tt
    every_space id (s ∷ db) plain unmoderated (h, hs) =
        (one_space id s plain unmoderated h, every_space id db plain unmoderated hs)

    not_shown :
        (s : PermittedSpace) → is_permitted lower insensitive s ≡ false → root_shown s ≡ false
    not_shown s h = ground arith

    found_root :
        (id : String) (db : List Space)
        → is_admin_identity groups ≡ false
        → is_moderator_identity groups ≡ false
        → All HasCategoryIds db
        → count_where (λ s. str_eq (Space.id s) id) db ≤ 1
        → category_allowed
            (scope_of lower insensitive (
              find
                (λ s. str_eq (Space.id s.space) id)
                (filter (is_permitted lower insensitive) (
                  map
                    (scope_for lower insensitive groups p)
                    (find_spaces lower insensitive now groups (some id) db)))))
            none
          ≡ any
              (λ s.
                str_eq s.id id
                && (is_none s.deleted_at && space_grants lower insensitive now groups p s))
              db
    unfolding find_spaces scope_for
    found_root id db plain unmoderated ids unique =
        rw
          (map-map (scope_for lower insensitive groups p) (load lower insensitive now groups)
            (filter (in_query lower insensitive now groups (some id)) db))
          (root_allowed _
            ∙ holds_at-found
                (λ s. scope_for lower insensitive groups p (load lower insensitive now groups s))
                (λ s. str_eq s.id id) (λ s. str_eq s.space.id id)
                (in_query lower insensitive now groups (some id)) (is_permitted lower insensitive)
                root_shown
                (λ s. is_none s.deleted_at && space_grants lower insensitive now groups p s)
                (λ s. refl) not_shown db (every_space id db plain unmoderated ids) unique)

  -- For an identity that neither administers nor moderates, `can` gives the same answer for the
  -- root of a space (category `null`), which it computes from the loaded rules, as for the space
  -- with no category given, which it counts in the database. The database's comparison of names
  -- has to agree with the lower-case comparison of the code, no rule may have the empty string
  -- for a category, and the space's identifier may occur once.
  pub can_root_agrees :
      (now : ℕ) (db : List Space) (groups : List String) (id : String) (p : Permission)
      → is_admin_identity groups ≡ false
      → is_moderator_identity groups ≡ false
      → All HasCategoryIds db
      → count_where (λ s. str_eq (Space.id s) id) db ≤ 1
      → can lower insensitive now db groups id p (some none)
        ≡ can lower insensitive now db groups id p none
  unfolding can permitted_spaces_for
  can_root_agrees now db groups id p plain unmoderated ids unique =
      elim (Bool-cases (length groups == 0)) [
        | inl nobody ↦ ground arith
        | inr somebody ↦ ground (
          arith,
          found_root now groups p id db plain unmoderated ids unique,
          any-length
              (λ (s : Space).
                str_eq s.id id
                && (is_none s.deleted_at && space_grants lower insensitive now groups p s))
              db,
        )
      ]
