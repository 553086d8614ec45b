-- ===== src/Access/Categories.antt =====
-- apps/api/src/category-permissions.ts: which categories of a space the rules grant.
pub mod Total
pub mod Nearest
pub mod Rules
use isms_portal.Base.{
  ℕ, zero, suc, String, Bool, true, false, ◌||◌, Option, none, some, List, [], ◌∷◌, map, str_eq,
  if◌then◌else◌, truthy, length, filter, includes, lookup, insert,
}

-- `DocumentCategory`: the columns that the decision reads.
pub record Category : Type 0 where
  pub id : String
  pub parent_id : Option String
  pub deleted_at : Option ℕ

-- One entry of the parameter `rules` of `resolveCategories`.
pub record CategoryRule : Type 0 where
  pub category_id : Option String
  pub allowed : Bool

-- `CategoryScope`: both optional fields may be absent.
pub record CategoryScope : Type 0 where
  pub id : String
  pub acl_root : Option Bool
  pub acl_categories : Option (List String)

abbrev is_true : Option Bool → Bool
is_true (some true) = true
is_true _ = false

abbrev allowed_in : Option (List String) → Option Bool → Option String → Bool
allowed_in none root category_id = true
allowed_in (some ids) root none = is_true root
allowed_in (some ids) root (some id) = includes ids id

-- `categoryAllowed`
unfoldable pub category_allowed : Option CategoryScope → Option String → Bool
category_allowed none category_id = false
category_allowed (some scope) category_id =
    allowed_in scope.acl_categories scope.acl_root (truthy category_id)

-- `nodes`, the map from the id of a category to it: of two entries of one id the later one stands.
abbrev pub node : String → List Category → Option Category
node id [] = none
node id (c ∷ cs) = elim (node id cs) [
  | some d ↦ some d
  | none ↦ if str_eq c.id id then some c else none
]

abbrev pub or_false : Option Bool → Bool
or_false none = false
or_false (some b) = b

abbrev override_with : List (String × Bool) → Bool → Option String → List (String × Bool)
override_with found allowed none = found
override_with found allowed (some id) = insert id (or_false (lookup id found) || allowed) found

-- The loop that fills `overrides`.
unfoldable pub overrides_from : List (String × Bool) → List CategoryRule → List (String × Bool)
overrides_from found [] = found
overrides_from found (rule ∷ rules) =
    overrides_from (override_with found rule.allowed (truthy rule.category_id)) rules

-- The walk of the filter from a category towards the root: `none` means that the fuel ran out.
-- `current` is the value of the variable after its truth test.
unfoldable pub climb :
    List Category → List (String × Bool) → Bool → ℕ → List String → Option String → Option Bool
climb nodes overrides inherited zero visited current = none
climb nodes overrides inherited (suc fuel) visited none = some inherited
climb nodes overrides inherited (suc fuel) visited (some id) = elim (node id nodes) [
  | none ↦ some false
  | some category ↦ elim (includes visited id) [
    | true ↦ some false
    | false ↦ elim (lookup id overrides) [
      | some allowed ↦ some allowed
      | none ↦ climb nodes overrides inherited fuel (id ∷ visited) (truthy category.parent_id)
    ]
  ]
]

-- One more round than there are categories: see `Total`.
abbrev pub fuel_for : List Category → ℕ
fuel_for categories = suc (suc (length categories))

-- The test of the filter for one category.
unfoldable pub category_granted : List Category → List (String × Bool) → Bool → String → Bool
unfolding climb
category_granted categories overrides inherited id =
    or_false (climb categories overrides inherited (fuel_for categories) [] (truthy (some id)))

-- `resolveCategories`
unfoldable pub resolve_categories : List Category → List CategoryRule → Bool → List String
unfolding overrides_from category_granted
resolve_categories categories rules inherited =
    map Category.id (
      filter (λ c. category_granted categories (overrides_from [] rules) inherited c.id) categories)
