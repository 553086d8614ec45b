-- ===== src/Access/Spaces/Download.antt =====
-- What it takes to download, and to do what goes beyond reading.
use isms_portal.Base.{
  ℕ, String, ◌≡◌, refl, sym, ◌∙◌, ◌⊎◌, inl, inr, Bool, true, false, ◌&&◌, Option, none, some, List,
  [], map, arith, ◌==◌, str_eq, Bool-cases, Option-cases, is_none, truthy, length, filter, any,
  find, includes, any-filter, any_mono, any-map, holds_at, cause_of_found,
}
use mathlib.Core.List.{map-map}
use isms_portal.Access.Roles.{is_admin_identity, is_moderator_identity, moderator_can, download}
use isms_portal.Access.Categories.{
  Category, CategoryRule, category_allowed, overrides_from, category_granted, resolve_categories,
}
use isms_portal.Access.Categories.Nearest.{Decides, root, own, up}
use isms_portal.Access.Categories.Rules.{is_for, verdict, granted_iff, ids_where}
use isms_portal.Access.Spaces.{
  AccessRule, Space, PermittedSpace, is_temporary, in_force, in_groups, named_in, load, find_spaces,
  in_query, acl_root_of, scope_for, is_permitted, permitted_spaces_for, scope_of, space_grants, can,
}
use isms_portal.Access.Spaces.Root.{named_in-in_groups, any-length}

any_allowed :
    (id : String) (rules : List CategoryRule)
    → any (λ r. is_for id r && CategoryRule.allowed r) rules ≡ true
    → any CategoryRule.allowed rules ≡ true
any_allowed id rules = any_mono _ _ rules (λ r h. ground arith)

Decides-cause :
    (nodes : List Category) (rules : List CategoryRule) (inherited : Bool) (n : ℕ)
    (cur : Option String) (b : Bool)
    → Decides nodes (λ id. verdict id rules) inherited n cur b
    → b ≡ true
    → (inherited ≡ true) ⊎ (any CategoryRule.allowed rules ≡ true)
Decides-cause nodes rules inherited n cur b root e = inl e
Decides-cause nodes rules inherited n cur b (own {id} p q) e =
    inr (ground (arith, any_allowed id rules))
Decides-cause nodes rules inherited n cur b (up {n = k} {c} p q d) e =
    Decides-cause nodes rules inherited k (truthy c.parent_id) b d e

-- A category is returned only where the space itself is granted or some rule allows.
pub resolve_cause :
    (categories : List Category) (rules : List CategoryRule) (inherited : Bool) (id : String)
    → includes (resolve_categories categories rules inherited) id ≡ true
    → (inherited ≡ true) ⊎ (any CategoryRule.allowed rules ≡ true)
unfolding resolve_categories category_granted
resolve_cause categories rules inherited id h =
    let granted = category_granted categories (overrides_from [] rules) inherited in
    let listed = ids_where granted id categories in
    let (n, d) = (granted_iff categories rules inherited (truthy (some id))).0 (ground arith) in
    Decides-cause categories rules inherited n (truthy (some id)) true d refl

module _ (lower : String → String) (insensitive : String → String → Bool)
    (agree : (a b : String) → insensitive a b ≡ str_eq (lower b) (lower a)) (now : ℕ)
    (groups : List String) where
  -- A rule in force, for an active group of the identity, that allows the download.
  abbrev pub allows_download : Space → Bool
  allows_download s =
      any
        (λ r.
          in_groups lower insensitive groups (AccessRule.group r)
          && (r.grants download && in_force now r))
        s.access_rules

  loaded_allow :
      (rules : List AccessRule) (q : AccessRule → Bool)
      → ((r : AccessRule)
          → q r ≡ true
          → (named_in lower insensitive groups r.group && r.grants download) ≡ true)
      → any q (filter (λ r. r.group.active && in_force now r) rules) ≡ true
      → any
          (λ r.
            in_groups lower insensitive groups (AccessRule.group r)
            && (r.grants download && in_force now r))
          rules
        ≡ true
  loaded_allow rules q h e =
      any_mono _ _ rules
        (λ r k. ground (arith, h r, named_in-in_groups lower insensitive agree groups r.group))
        (sym (any-filter _ q rules) ∙ e)

  module _ (plain : is_admin_identity groups ≡ false)
      (unmoderated : is_moderator_identity groups ≡ false) where
    root_cause :
        (s : Space)
        → acl_root_of lower insensitive groups download (load lower insensitive now groups s) ≡ true
        → allows_download s ≡ true
    unfolding acl_root_of moderator_can is_temporary
    root_cause s h =
        loaded_allow s.access_rules
          (λ r.
            is_none (truthy r.category_id)
            && named_in lower insensitive groups r.group
            && r.grants download)
          (λ r k. ground arith) (ground arith)

    -- The rules that the loop hands to `resolveCategories`.
    abbrev given : List AccessRule → List CategoryRule
    given = map (λ r. record {
      category_id = AccessRule.category_id r;
      allowed = named_in lower insensitive groups r.group && r.grants download;
    })

    category_cause :
        (s : Space) (c : Option String)
        → category_allowed
            (scope_of lower insensitive (
              some (
                scope_for lower insensitive groups download (load lower insensitive now groups s))))
            c
          ≡ true
        → allows_download s ≡ true
    unfolding category_allowed scope_for moderator_can
    category_cause s c h = elim (Option-cases (truthy c)) [
      | inl e ↦ root_cause s (ground arith)
      | inr (id, e) ↦
          let loaded = load lower insensitive now groups s in
          let root = acl_root_of lower insensitive groups download loaded in
          elim (resolve_cause loaded.categories (given loaded.access_rules) root id
            (ground arith)) [
              | inl r ↦ root_cause s r
              | inr r ↦
                  loaded_allow s.access_rules
                    (λ r. named_in lower insensitive groups r.group && r.grants download) (λ r k. k)
                    (sym (any-map _ CategoryRule.allowed loaded.access_rules) ∙ r)
            ]
    ]

    abbrev passes : Option String → PermittedSpace → Bool
    passes c s = category_allowed (scope_of lower insensitive (some s)) c

    found_passes :
        (c : Option String) (o : Option PermittedSpace)
        → category_allowed (scope_of lower insensitive o) c ≡ true
        → holds_at (passes c) o ≡ true
    unfolding category_allowed
    found_passes c none h = h
    found_passes c (some s) h = h

    found_of_can :
        (db : List Space) (id : String) (c : Option String)
        → can lower insensitive now db groups id download (some c) ≡ true
        → category_allowed
            (scope_of lower insensitive (
              find
                (λ s. str_eq (Space.id s.space) id)
                (filter (is_permitted lower insensitive) (
                  map (scope_for lower insensitive groups download) (
                    map
                      (load lower insensitive now groups)
                      (filter (in_query lower insensitive now groups (some id)) db))))))
            c
          ≡ true
    unfolding can find_spaces moderator_can
    found_of_can db id c h = elim (Bool-cases (length groups == 0)) [
      | inl nobody ↦ absurd (ground arith)
      | inr somebody ↦ ground arith
    ]

    counted_rule :
        (rules : List AccessRule)
        → any
            (λ r.
              is_none (AccessRule.category_id r)
              && in_groups lower insensitive groups r.group
              && r.grants download
              && in_force now r)
            rules
          ≡ true
        → any
            (λ r.
              in_groups lower insensitive groups (AccessRule.group r)
              && (r.grants download && in_force now r))
            rules
          ≡ true
    counted_rule rules = any_mono _ _ rules (λ r k. ground arith)

  -- An identity that neither administers nor moderates may download something of a space, its
  -- root or any of its categories, only if a rule of the space that is in force for one of the
  -- identity's active groups grants the download: neither the ownership of the space nor a
  -- temporary grant is enough. (The database and the code compare names alike.)
  pub download_needs_rule :
      (db : List Space) (id : String) (c : Option (Option String))
      → is_admin_identity groups ≡ false
      → is_moderator_identity groups ≡ false
      → can lower insensitive now db groups id download c ≡ true
      → any (λ s. str_eq s.id id && allows_download s) db ≡ true
  unfolding can permitted_spaces_for moderator_can is_temporary
  download_needs_rule db id none plain unmoderated h =
      any_mono
        (λ (s : Space).
          str_eq s.id id
          && (is_none s.deleted_at && space_grants lower insensitive now groups download s))
        (λ s. str_eq s.id id && allows_download s) db
        (λ s k. ground (arith, counted_rule plain unmoderated s.access_rules))
        (sym (
            any-length
              (λ (s : Space).
                str_eq s.id id
                && (is_none s.deleted_at && space_grants lower insensitive now groups download s))
              db)
          ∙ ground arith)
  download_needs_rule db id (some c) plain unmoderated h =
      cause_of_found
        (λ s. scope_for lower insensitive groups download (load lower insensitive now groups s))
        (λ s. str_eq s.space.id id) (λ s. str_eq s.id id)
        (in_query lower insensitive now groups (some id)) (is_permitted lower insensitive)
        (passes plain unmoderated c) allows_download (λ s. refl)
        (λ s kept k. category_cause plain unmoderated s c k) db
        (found_passes plain unmoderated c _ (
          rw
            (map-map (scope_for lower insensitive groups download)
              (load lower insensitive now groups)
              (filter (in_query lower insensitive now groups (some id)) db))
            at (found_of_can plain unmoderated db id c h)))
