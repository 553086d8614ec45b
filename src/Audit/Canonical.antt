-- ===== src/Audit/Canonical.antt =====
-- `stable` of apps/api/src/audit-chain.ts: the text of a value.
use isms_portal.Base.{
  String, Bool, Option, none, some, List, [], ◌∷◌, map, if◌then◌else◌, order_by, ◌+++◌, join,
}

-- A value as `JSON.parse` gives it. A number is the text that `JSON.stringify` prints for it.
mutual
  pub data Json : Type 0 where
    null : Json
    bool : Bool → Json
    num : String → Json
    str : String → Json
    arr : Items → Json
    obj : Fields → Json

  pub data Items : Type 0 where
    nil : Items
    cons : Json → Items → Items

  pub data Fields : Type 0 where
    end : Fields
    field : String → Json → Fields → Fields

abbrev items_of : List Json → Items
items_of [] = nil
items_of (v ∷ vs) = cons v (items_of vs)

abbrev pub array_of : List Json → Json
array_of vs = arr (items_of vs)

-- A nullable column.
abbrev pub nullable : Option String → Json
nullable none = null
nullable (some s) = str s

-- `quote` is `JSON.stringify` of a string, and `key_le` the order of `Array.prototype.sort`.
module _ (quote : String → String) (key_le : String → String → Bool) where
  abbrev entry_le : String × String → String × String → Bool
  entry_le a b = key_le a.0 b.0

  abbrev entry_text : String × String → String
  entry_text (key, text) = quote key +++ ":" +++ text

  unfoldable mutual
    pub stable : Json → String
    stable null = "null"
    stable (bool b) = if b then "true" else "false"
    stable (num n) = n
    stable (str s) = quote s
    stable (arr items) = "[" +++ join (stable_items items) +++ "]"
    stable (obj fields) =
        "{" +++ join (map entry_text (order_by entry_le (stable_fields fields))) +++ "}"

    pub stable_items : Items → List String
    stable_items nil = []
    stable_items (cons v vs) = stable v ∷ stable_items vs

    pub stable_fields : Fields → List (String × String)
    stable_fields end = []
    stable_fields (field key v fs) = (key, stable v) ∷ stable_fields fs
