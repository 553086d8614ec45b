-- ===== src/Access/Spaces.antt =====
-- apps/api/src/authorization.service.ts: the spaces in which an identity holds a permission.
-- The database is the list of its spaces, in the order of their slugs, each with its rules, grants
-- and categories; a query is a filter by its `where`. `lower` is `toLowerCase`, and `insensitive`
-- the comparison of the database in the mode "insensitive".
pub mod Root
pub mod Download
use isms_portal.Base.{
  ℕ, String, Bool, true, false, not, ◌&&◌, ◌||◌, Option, none, some, List, [], ◌∷◌, map, ltb, leb,
  ◌==◌, str_eq, if◌then◌else◌, is_none, truthy, length, filter, any, find, count_where,
}
use isms_portal.Access.Roles.{
  Permission, show_menu, read, preview, download, is_admin_identity, is_moderator_identity,
  moderator_can,
}
use isms_portal.Access.Categories.{
  Category, CategoryRule, CategoryScope, category_allowed, resolve_categories,
}

-- A directory group, as the queries read it.
pub record Group : Type 0 where
  pub name : String
  pub active : Bool

-- `AccessRule`: `grants` holds the nine Boolean columns named for the permissions.
pub record AccessRule : Type 0 where
  pub category_id : Option String
  pub group : Group
  pub valid_from : Option ℕ
  pub valid_until : Option ℕ
  pub grants : Permission → Bool

-- `TemporaryAccessGrant`
pub record TemporaryGrant : Type 0 where
  pub group : Group
  pub valid_until : ℕ

-- `DocumentSpace`
pub record Space : Type 0 where
  pub id : String
  pub deleted_at : Option ℕ
  pub access_rules : List AccessRule
  pub temporary_access_grants : List TemporaryGrant
  pub owner_group : Option Group
  pub categories : List Category

-- A space in the result of `permittedSpacesFor`.
pub record PermittedSpace : Type 0 where
  pub space : Space
  pub acl_root : Bool
  pub acl_categories : List String

-- `temporaryGrantPermissions`
unfoldable pub is_temporary : Permission → Bool
is_temporary show_menu = true
is_temporary read = true
is_temporary Permission.search = true
is_temporary preview = true
is_temporary _ = false

abbrev pub is_download : Permission → Bool
is_download download = true
is_download _ = false

abbrev pub not_before : ℕ → Option ℕ → Bool
not_before now none = true
not_before now (some t) = leb t now

abbrev pub not_after : ℕ → Option ℕ → Bool
not_after now none = true
not_after now (some t) = ltb now t

-- The two conditions on `validFrom` and `validUntil`.
abbrev pub in_force : ℕ → AccessRule → Bool
in_force now rule = not_before now rule.valid_from && not_after now rule.valid_until

module _ (lower : String → String) (insensitive : String → String → Bool) where
  -- `groupFilter`
  abbrev pub in_groups : List String → Group → Bool
  in_groups groups g = g.active && any (λ n. insensitive g.name n) groups

  -- The comparison that the code makes itself.
  abbrev pub named_in : List String → Group → Bool
  named_in groups g = any (λ n. str_eq (lower n) (lower g.name)) groups

  abbrev pub owned_in_query : List String → Option Group → Bool
  owned_in_query groups none = false
  owned_in_query groups (some g) = in_groups groups g

  -- The condition on the space that is left out for administrators and moderators.
  abbrev pub concerns : ℕ → List String → Space → Bool
  concerns now groups s =
      any (λ r. in_groups groups r.group && in_force now r) s.access_rules
      || any (λ t. in_groups groups t.group && ltb now t.valid_until) s.temporary_access_grants
      || owned_in_query groups s.owner_group

  abbrev pub is_space : Option String → Space → Bool
  is_space none s = true
  is_space (some id) s = str_eq s.id id

  -- The rows that the `include` of the query adds to a space.
  abbrev pub loaded_rules : ℕ → Space → List AccessRule
  loaded_rules now s = filter (λ r. r.group.active && in_force now r) s.access_rules

  abbrev pub loaded_grants : ℕ → List String → Space → List TemporaryGrant
  loaded_grants now groups s =
      if is_admin_identity groups
      then s.temporary_access_grants
      else filter (λ t. in_groups groups t.group && ltb now t.valid_until) s.temporary_access_grants

  abbrev pub load : ℕ → List String → Space → Space
  load now groups s = record s {
    access_rules = loaded_rules now s;
    temporary_access_grants = loaded_grants now groups s;
    categories = filter (λ c. is_none (Category.deleted_at c)) s.categories;
  }

  -- The `where` of the query of `permittedSpacesFor`.
  abbrev pub in_query : ℕ → List String → Option String → Space → Bool
  in_query now groups space_id s =
      is_none s.deleted_at
      && is_space space_id s
      && (if not (is_admin_identity groups) && not (is_moderator_identity groups)
          then concerns now groups s
          else true)

  -- That query.
  unfoldable pub find_spaces : ℕ → List String → Option String → List Space → List Space
  find_spaces now groups space_id db =
      map (load now groups) (filter (in_query now groups space_id) db)

  abbrev pub owner_named : List String → Option Group → Bool
  owner_named groups none = false
  owner_named groups (some g) = g.active && named_in groups g

  -- The loop's `owner` for a loaded space.
  unfoldable pub is_owner : List String → Permission → Space → Bool
  is_owner groups p s = not (is_download p) && owner_named groups s.owner_group

  -- The loop's `aclRoot`.
  unfoldable pub acl_root_of : List String → Permission → Space → Bool
  unfolding is_owner
  acl_root_of groups p s =
      (is_admin_identity groups || moderator_can groups p)
      || is_owner groups p s
      || any (λ r. is_none (truthy r.category_id) && named_in groups r.group && r.grants p)
          s.access_rules
      || (is_temporary p && ltb 0 (length s.temporary_access_grants))

  -- The body of the inner `map`: a space as one permission sees it.
  unfoldable pub scope_for : List String → Permission → Space → PermittedSpace
  unfolding is_owner
  scope_for groups p s =
      let root = acl_root_of groups p s in
      record {
        space = record s { access_rules = filter (λ r. named_in groups r.group) s.access_rules };
        acl_root = root;
        acl_categories =
            if (is_admin_identity groups || moderator_can groups p) || is_owner groups p s
            then map Category.id s.categories
            else resolve_categories s.categories
                (map
                  (λ r. record {
                    category_id = AccessRule.category_id r;
                    allowed = named_in groups r.group && r.grants p;
                  })
                  s.access_rules)
                root;
      }

  abbrev pub is_permitted : PermittedSpace → Bool
  is_permitted s = s.acl_root || ltb 0 (length s.acl_categories)

  -- `permittedSpacesFor`: the list under each of the permissions asked for.
  unfoldable pub permitted_spaces_for :
      ℕ
      → List Space
      → List String
      → List Permission
      → Option String
      → List (Permission × List PermittedSpace)
  unfolding find_spaces scope_for acl_root_of
  permitted_spaces_for now db groups permissions space_id =
      if length groups == 0 || length permissions == 0
      then map (λ p. (p, [])) permissions
      else map
          (λ p. (
            p,
            filter is_permitted (map (scope_for groups p) (find_spaces now groups space_id db)),
          ))
          permissions

  abbrev pub scope_of : Option PermittedSpace → Option CategoryScope
  scope_of none = none
  scope_of (some s) = some (record {
    id = s.space.id;
    acl_root = some s.acl_root;
    acl_categories = some s.acl_categories;
  })

  abbrev pub first_list : List (Permission × List PermittedSpace) → List PermittedSpace
  first_list [] = []
  first_list ((p, found) ∷ rest) = found

  -- The space found for the identifier, under one permission.
  abbrev pub permitted_space :
      ℕ → List Space → List String → Permission → String → Option PermittedSpace
  permitted_space now db groups p space_id =
      find (λ s. str_eq (Space.id s.space) space_id)
        (first_list (permitted_spaces_for now db groups (p ∷ []) (some space_id)))

  -- The condition of the count in `can`, beside the identifier and the deletion.
  abbrev pub space_grants : ℕ → List String → Permission → Space → Bool
  space_grants now groups p s =
      let managing = is_admin_identity groups || is_moderator_identity groups in
      (not managing && not (is_download p) && owned_in_query groups s.owner_group)
      || any
          (λ r.
            is_none (AccessRule.category_id r)
            && in_groups groups r.group
            && r.grants p
            && in_force now r)
          s.access_rules
      || (not managing
          && is_temporary p
          && any (λ t. in_groups groups t.group && ltb now t.valid_until) s.temporary_access_grants)

  -- `can`: the last argument is absent for `undefined`, and holds `null` or an identifier else.
  unfoldable pub can :
      ℕ → List Space → List String → String → Permission → Option (Option String) → Bool
  unfolding permitted_spaces_for
  can now db groups space_id p category_id =
      if is_admin_identity groups || moderator_can groups p
      then true
      else if length groups == 0
      then false
      else elim category_id [
        | some c ↦ category_allowed (scope_of (permitted_space now db groups p space_id)) c
        | none ↦ ltb 0 (
            count_where
              (λ s. str_eq s.id space_id && (is_none s.deleted_at && space_grants now groups p s))
              db)
      ]
