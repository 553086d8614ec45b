-- ===== src/Examples/Hierarchy.antt =====
-- Two categories, one under the other, and a request that would make a cycle.
use isms_portal.Base.{
  String, ◌≡◌, refl, ◌≢◌, Bool, true, false, Option, none, some, [], ◌∷◌, map, str_eq, includes,
}
use isms_portal.Hierarchy.{
  CategoryRow, TreeStore, CategoryBody, endless, cycle, create_category, update_category,
  check_parent,
}
use isms_portal.Hierarchy.Tree.{IsTree}
use isms_portal.Hierarchy.Kept.{
  Reach, here, next, creates, updates, stays-IsTree, update_always_ends,
}

abbrev same_text : String → String
same_text name = name

abbrev any_text : String → Bool
any_text s = true

abbrev start : TreeStore
start = record {
  spaces = record { id = "s"; deleted_at = none } ∷ [];
  categories = [];
  documents = [];
  trail = [];
}

abbrev under : Option String → CategoryBody
under parent = record {
  space_id = "s";
  parent_id = parent;
  slug = "policies";
  name_fr = "Politiques";
  name_en = "Policies";
}

abbrev one : TreeStore
one = (create_category same_text any_text "a" "ada" (under none) start).0

abbrev two : TreeStore
two = (create_category same_text any_text "b" "ada" (under (some "a")) one).0

abbrev three : TreeStore
three = (update_category same_text any_text "ada" "a" (under (some "b")) two).0

new_one : includes (map CategoryRow.id one.categories) "b" ≡ false
unfolding create_category str_eq
new_one = refl

story : Reach same_text any_text start three
story =
    next
      (next (next here (creates "a" "ada" (under none) refl))
        (creates "b" "ada" (under (some "a")) new_one))
      (updates "ada" "a" (under (some "b")))

-- The request is refused.
refused : (update_category same_text any_text "ada" "a" (under (some "b")) two).1 ≡ cycle
unfolding create_category update_category check_parent str_eq
refused = refl

stays-IsTree_example : IsTree three.categories
stays-IsTree_example = stays-IsTree same_text any_text start three refl story

update_always_ends_example :
    (update_category same_text any_text "ada" "b" (under (some "a")) three).1 ≢ endless
update_always_ends_example =
    update_always_ends same_text any_text start three "ada" "b" (under (some "a")) refl story
