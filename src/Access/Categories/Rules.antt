-- ===== src/Access/Categories/Rules.antt =====
-- The overrides that `resolveCategories` collects, and the categories that it returns.
use mathlib.Core.Path.{fun_ext, subst}
use isms_portal.Base.{
  ℕ, String, ◌≡◌, ap, ◌∙◌, ◌↔◌, Bool, true, false, ◌&&◌, ◌||◌, Option, none, some, List, [], ◌∷◌,
  map, Memᴰ, arith, str_eq, if◌then◌else◌, str_eq_iff, str_eq_self, truthy, filter, any, includes,
  lookup, lookup-insert,
}
use isms_portal.Access.Categories.{
  climb, fuel_for, Category, CategoryRule, or_false, override_with, overrides_from,
  category_granted, resolve_categories,
}
use isms_portal.Access.Categories.Nearest.{Decides, climb_iff}

-- Whether a rule is for the category: a missing or empty category is the space's own rule.
abbrev names_category : String → Option String → Bool
names_category id none = false
names_category id (some j) = str_eq j id

abbrev pub is_for : String → CategoryRule → Bool
is_for id rule = names_category id (truthy rule.category_id)

-- What the rules say of a category: nothing, or whether one of its rules allows.
abbrev pub verdict : String → List CategoryRule → Option Bool
verdict id rules =
    if any (is_for id) rules then some (any (λ r. is_for id r && r.allowed) rules) else none

abbrev merge : Option Bool → Option Bool → Option Bool
merge none later = later
merge (some b) none = some b
merge (some b) (some c) = some (b || c)

lookup-override_with :
    (id : String) (found : List (String × Bool)) (allowed : Bool) (category : Option String)
    → lookup id (override_with found allowed category)
      ≡ merge (lookup id found) (if names_category id category then some allowed else none)
lookup-override_with id found allowed none = ground arith
lookup-override_with id found allowed (some j) =
    ground (arith, lookup-insert j id (or_false (lookup j found) || allowed) found, str_eq_iff j id)

none_allowed :
    (id : String) (rules : List CategoryRule)
    → any (is_for id) rules ≡ false
    → any (λ r. is_for id r && r.allowed) rules ≡ false
none_allowed id [] h = ground arith
none_allowed id (rule ∷ rules) h = ground (arith, none_allowed id rules)

merge_step :
    (before : Option Bool) (named allowed later_named later_allowed : Bool)
    → (later_named ≡ false → later_allowed ≡ false)
    → merge
        (merge before (if named then some allowed else none))
        (if later_named then some later_allowed else none)
      ≡ merge before
          (if named || later_named then some ((named && allowed) || later_allowed) else none)
merge_step none named allowed later_named later_allowed h = ground arith
merge_step (some b) named allowed later_named later_allowed h = ground arith

lookup-overrides_from :
    (id : String) (found : List (String × Bool)) (rules : List CategoryRule)
    → lookup id (overrides_from found rules) ≡ merge (lookup id found) (verdict id rules)
unfolding overrides_from
lookup-overrides_from id found [] = ground arith
lookup-overrides_from id found (rule ∷ rules) =
    let category = truthy rule.category_id in
    lookup-overrides_from id (override_with found rule.allowed category) rules
    ∙ ap (λ o. merge o (verdict id rules)) (lookup-override_with id found rule.allowed category)
    ∙ merge_step (lookup id found) (is_for id rule) rule.allowed (any (is_for id) rules)
        (any (λ r. is_for id r && r.allowed) rules) (none_allowed id rules)

-- The map of overrides holds, for each category that some rule names, whether a rule for it allows.
pub lookup-overrides :
    (id : String) (rules : List CategoryRule)
    → lookup id (overrides_from [] rules) ≡ verdict id rules
lookup-overrides id rules = lookup-overrides_from id [] rules

pub ids_where :
    (q : String → Bool) (x : String) (cs : List Category)
    → includes (map Category.id (filter (λ c. q c.id) cs)) x
      ≡ (q x && includes (map Category.id cs) x)
ids_where q x [] = ground arith
ids_where q x (c ∷ cs) = ground (arith, str_eq_iff c.id x, ids_where q x cs)

includes_of_mem :
    (c : Category) (cs : List Category) → Memᴰ c cs → includes (map Category.id cs) c.id ≡ true
includes_of_mem c (d ∷ ds) (Memᴰ.head e) = rw (← e, str_eq_self)
includes_of_mem c (d ∷ ds) (Memᴰ.tail m) = ground (arith, includes_of_mem c ds m)
includes_of_mem c [] m = elim m [ ]

-- The walk with the collected overrides decides as the rules themselves say.
pub granted_iff :
    (categories : List Category) (rules : List CategoryRule) (inherited : Bool)
    (cur : Option String)
    → (or_false (climb categories (overrides_from [] rules) inherited (fuel_for categories) [] cur)
        ≡ true)
      ↔ ((n : ℕ) × Decides categories (λ id. verdict id rules) inherited n cur true)
granted_iff categories rules inherited cur =
    let same : (λ id. lookup id (overrides_from [] rules)) ≡ (λ id. verdict id rules) =
      fun_ext (λ id. lookup-overrides id rules) in
    subst
      (λ said.
        (or_false
            (climb categories (overrides_from [] rules) inherited (fuel_for categories) [] cur)
          ≡ true)
        ↔ ((n : ℕ) × Decides categories said inherited n cur true))
      same (climb_iff categories (overrides_from [] rules) inherited cur)

-- `resolveCategories` returns a category of the space exactly when the first category on its chain
-- of parents (itself first) that a rule names has a rule that allows, or when the chain ends at
-- the root with no such category and the space's own decision is positive. A chain that leaves the
-- given categories, or runs in a circle with no rule on it, gives nothing.
pub resolve_categories-nearest :
    (categories : List Category) (rules : List CategoryRule) (inherited : Bool) (c : Category)
    → Memᴰ c categories
    → (includes (resolve_categories categories rules inherited) c.id ≡ true) ↔ (
        (n : ℕ) × Decides categories (λ id. verdict id rules) inherited n (truthy (some c.id)) true)
unfolding resolve_categories category_granted
resolve_categories-nearest categories rules inherited c m =
    let granted = category_granted categories (overrides_from [] rules) inherited in
    let (to, from) = granted_iff categories rules inherited (truthy (some c.id)) in
    let here = includes_of_mem c categories m in
    let listed = ids_where granted c.id categories in
    (λ h. to (ground arith), λ d. let e = from d in ground arith)
