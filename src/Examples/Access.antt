-- ===== src/Examples/Access.antt =====
-- Categories, and a space with a rule, an owner group and two categories.
use isms_portal.Base.{
  ℕ, String, ◌≡◌, refl, ◌↔◌, Bool, true, false, ◌&&◌, none, some, [], ◌∷◌, Memᴰ, arith, str_eq,
  truthy, any, includes,
}
use isms_portal.Access.Roles.{read, is_admin_identity, is_moderator_identity, moderator_can}
use isms_portal.Access.Categories.{Category, CategoryRule, resolve_categories, overrides_from}
use isms_portal.Access.Categories.Nearest.{Decides}
use isms_portal.Access.Categories.Rules.{verdict, resolve_categories-nearest}
use isms_portal.Access.Spaces.{Group, Space, can}
use isms_portal.Access.Spaces.Root.{can_root_agrees}
use isms_portal.Access.Spaces.Download.{allows_download, download_needs_rule}

abbrev policies : Category
policies = record { id = "policies"; parent_id = none; deleted_at = none }

abbrev annexes : Category
annexes = record { id = "annexes"; parent_id = some "policies"; deleted_at = none }

abbrev for_policies : CategoryRule
for_policies = record { category_id = some "policies"; allowed = true }

resolve_categories-nearest_example :
    (includes (resolve_categories (policies ∷ annexes ∷ []) (for_policies ∷ []) false) "annexes"
      ≡ true)
    ↔ ((n : ℕ) × Decides
          (policies ∷ annexes ∷ [])
          (λ id. verdict id (for_policies ∷ []))
          false
          n
          (truthy (some "annexes"))
          true)
resolve_categories-nearest_example =
    resolve_categories-nearest (policies ∷ annexes ∷ []) (for_policies ∷ []) false annexes
      (Memᴰ.tail (Memᴰ.head refl))

-- The annexes have the rule of their parent.
annexes_granted :
    includes (resolve_categories (policies ∷ annexes ∷ []) (for_policies ∷ []) false) "annexes"
    ≡ true
unfolding resolve_categories overrides_from str_eq
annexes_granted = refl

abbrev same_case : String → String
same_case name = name

abbrev same_name : String → String → Bool
same_name a b = str_eq b a

abbrev auditors : Group
auditors = record { name = "AUDITORS"; active = true }

abbrev quality : Space
quality = record {
  id = "quality";
  deleted_at = none;
  access_rules =
      record {
        category_id = none;
        group = auditors;
        valid_from = none;
        valid_until = some 100;
        grants = λ p. true;
      }
      ∷ [];
  temporary_access_grants = [];
  owner_group = some auditors;
  categories = policies ∷ annexes ∷ [];
}

can_root_agrees_example :
    can same_case same_name 10 (quality ∷ []) ("AUDITORS" ∷ []) "quality" read (some none)
    ≡ can same_case same_name 10 (quality ∷ []) ("AUDITORS" ∷ []) "quality" read none
unfolding is_admin_identity is_moderator_identity str_eq
can_root_agrees_example =
    can_root_agrees same_case same_name (λ a b. refl) 10 (quality ∷ []) ("AUDITORS" ∷ []) "quality"
      read refl refl (((λ e. cc), tt), tt) (omega arith)

download_needs_rule_example :
    any
      (λ s.
        str_eq (Space.id s) "quality"
        && allows_download same_case same_name (λ a b. refl) 10 ("AUDITORS" ∷ []) s)
      (quality ∷ [])
    ≡ true
unfolding is_admin_identity is_moderator_identity str_eq can moderator_can
download_needs_rule_example =
    download_needs_rule same_case same_name (λ a b. refl) 10 ("AUDITORS" ∷ []) (quality ∷ [])
      "quality" none refl refl refl
