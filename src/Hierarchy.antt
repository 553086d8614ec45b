-- ===== src/Hierarchy.antt =====
-- The tree of the categories of a space: `createCategory`, `updateCategory` and `deleteCategory` of
-- apps/api/src/controllers.ts. `normal` is `trim` and `toLowerCase`, and `is_slug` the regular
-- expression for slugs. The loop that looks for a cycle runs on fuel; `endless` is the ending of a
-- request whose loop does not end on it.
pub mod Ends
pub mod Bound
pub mod Tree
pub mod Updated
pub mod Created
pub mod Deleted
pub mod Kept
use isms_portal.Base.{
  ℕ, zero, suc, String, Bool, true, false, not, ◌&&◌, ◌||◌, Option, none, some, List, ◌∷◌,
  AuditEntry, str_eq, if◌then◌else◌, is_none, truthy, length, any, find, update_where, ◌+++◌,
}

-- `DocumentCategory`
pub record CategoryRow : Type 0 where
  pub id : String
  pub space_id : String
  pub parent_id : Option String
  pub slug : String
  pub name_fr : String
  pub name_en : String
  pub deleted_at : Option ℕ

-- `DocumentSpace`: the columns that these handlers read.
pub record SpaceRow : Type 0 where
  pub id : String
  pub deleted_at : Option ℕ

-- `Document`: the columns that these handlers read and write.
pub record FiledDocument : Type 0 where
  pub id : String
  pub category_id : Option String
  pub deleted_at : Option ℕ

pub record TreeStore : Type 0 where
  pub spaces : List SpaceRow
  pub categories : List CategoryRow
  pub documents : List FiledDocument
  pub trail : List AuditEntry

-- `CategoryDto`
pub record CategoryBody : Type 0 where
  pub space_id : String
  pub parent_id : Option String
  pub slug : String
  pub name_fr : String
  pub name_en : String

pub data TreeOutcome : Type 0 where
  saved not_found bad_slug no_space bad_parent own_parent cycle endless not_empty : TreeOutcome

abbrev pub is_live : String → CategoryRow → Bool
is_live id c = str_eq c.id id && is_none c.deleted_at

abbrev pub is_live_in : String → String → CategoryRow → Bool
is_live_in space_id id c = str_eq c.id id && (str_eq c.space_id space_id && is_none c.deleted_at)

abbrev pub has_parent : String → CategoryRow → Bool
has_parent id c = elim c.parent_id [ none ↦ false | some p ↦ str_eq p id ]

abbrev pub parent_of_row : Option CategoryRow → Option String
parent_of_row none = none
parent_of_row (some c) = truthy c.parent_id

-- `byId.get`, on the categories of a space that are not deleted; an empty identifier is none.
abbrev pub parent_in : String → List CategoryRow → String → Option String
parent_in space_id categories id = parent_of_row (find (is_live_in space_id id) categories)

-- The loop of `updateCategory`: whether it meets `id`, on its way up from a category; nothing when
-- the fuel runs out.
abbrev pub hits : (String → Option String) → String → ℕ → Option String → Option Bool
hits next id fuel none = some false
hits next id zero (some current) = none
hits next id (suc fuel) (some current) =
    let rest = hits next id fuel (next current) in if str_eq current id then some true else rest

abbrev pub tree_entry : String → String → String → AuditEntry
tree_entry user action id = record {
  actor = user;
  action = action;
  resource = "category:" +++ id;
  result = "success";
}

abbrev pub has_space : String → TreeStore → Bool
has_space id s = any (λ x. str_eq (SpaceRow.id x) id && is_none x.deleted_at) s.spaces

-- What the checks of `updateCategory` say of the new parent.
unfoldable pub check_parent :
    String → Option String → String → List CategoryRow → Option TreeOutcome
check_parent id none space_id categories = none
check_parent id (some parent) space_id categories =
    if str_eq parent id
    then some own_parent
    else if not (any (is_live_in space_id parent) categories)
    then some bad_parent
    else elim (hits (parent_in space_id categories) id (length categories) (some parent)) [
      | none ↦ some endless
      | some met ↦ if met then some cycle else none
    ]

abbrev pub is_filed : String → FiledDocument → Bool
is_filed id d = is_none d.deleted_at && (elim d.category_id [ none ↦ false | some c ↦ str_eq c id ])

-- Whether the category has documents or subcategories that are not deleted.
abbrev pub is_used : String → TreeStore → Bool
is_used id s =
    any (is_filed id) s.documents || any (λ c. has_parent id c && is_none c.deleted_at) s.categories

-- The check of `createCategory` on the parent, if there is one.
abbrev pub fits_parent : String → List CategoryRow → Option String → Bool
fits_parent space_id categories none = true
fits_parent space_id categories (some parent) = any (is_live_in space_id parent) categories

module _ (normal : String → String) (is_slug : String → Bool) where
  abbrev pub write_category : CategoryBody → CategoryRow → CategoryRow
  write_category body c = record c {
    space_id = body.space_id;
    parent_id = truthy body.parent_id;
    slug = normal body.slug;
    name_fr = body.name_fr;
    name_en = body.name_en;
  }

  abbrev pub add_category : String → String → CategoryBody → TreeStore → TreeStore × TreeOutcome
  add_category fresh user body s = (
    record s {
      categories =
          record {
            id = fresh;
            space_id = body.space_id;
            parent_id = truthy body.parent_id;
            slug = normal body.slug;
            name_fr = body.name_fr;
            name_en = body.name_en;
            deleted_at = none;
          }
          ∷ s.categories;
      trail = tree_entry user "category.create" fresh ∷ s.trail;
    },
    saved,
  )

  -- `createCategory`
  unfoldable pub create_category :
      String → String → CategoryBody → TreeStore → TreeStore × TreeOutcome
  create_category fresh user body s =
      if not (is_slug (normal body.slug))
      then (s, bad_slug)
      else if not (has_space body.space_id s)
      then (s, no_space)
      else if not (fits_parent body.space_id s.categories (truthy body.parent_id))
      then (s, bad_parent)
      else add_category fresh user body s

  -- The checks of `updateCategory` on the parent come before the one on a move to another space.
  abbrev pub place_category :
      String
      → String
      → CategoryBody
      → CategoryRow
      → TreeStore
      → Option TreeOutcome
      → TreeStore × TreeOutcome
  place_category user id body existing s (some refusal) = (s, refusal)
  place_category user id body existing s none =
      if not (str_eq existing.space_id body.space_id) && is_used id s then (s, not_empty) else (
        record s {
          categories =
              update_where (λ c. str_eq (CategoryRow.id c) id) (write_category body) s.categories;
          trail = tree_entry user "category.update" id ∷ s.trail;
        },
        saved,
      )

  -- `updateCategory`
  unfoldable pub update_category :
      String → String → CategoryBody → TreeStore → TreeStore × TreeOutcome
  unfolding check_parent
  update_category user id body s = elim (find (is_live id) s.categories) [
    | none ↦ (s, not_found)
    | some existing ↦
        if not (is_slug (normal body.slug))
        then (s, bad_slug)
        else if not (has_space body.space_id s)
        then (s, no_space)
        else place_category user id body existing s
            (check_parent id (truthy body.parent_id) body.space_id s.categories)
  ]

-- `deleteCategory`
unfoldable pub delete_category : ℕ → String → String → TreeStore → TreeStore × TreeOutcome
delete_category now user id s = elim (find (is_live id) s.categories) [
  | none ↦ (s, not_found)
  | some existing ↦ (
    record s {
      documents =
          update_where
            (λ d. elim (FiledDocument.category_id d) [ none ↦ false | some c ↦ str_eq c id ])
            (λ d. record d { category_id = none }) s.documents;
      categories =
          update_where (λ c. str_eq (CategoryRow.id c) id) (λ c. record c { deleted_at = some now })
            (update_where (has_parent id) (λ c. record c { parent_id = existing.parent_id })
              s.categories);
      trail = tree_entry user "category.archive" id ∷ s.trail;
    },
    saved,
  )
]
