-- ===== src/Scripts/Inventory/Loading.antt =====
-- `Inventory.load` and `Inventory.default` of Server/Plugins/Script/Entity/inventory.js. A TypeError is
-- `none`.
use text.Mathlib.Text
use starfall.Base.{
  ◌≡◌, refl, List, [], ◌∷◌, map, filter, Bool, true, false, not, ◌&&◌, Option, none, some,
  if◌then◌else◌, inl, inr, Bool-cases,
}
use starfall.Scripts.Json.{
  name, Json, undefined, null, boolean, string, array, object, Items, nil, cons, Fields, end, field,
  has, get, put,
}
use starfall.Scripts.Appearance.{own_property, read}

-- `types`: the one type that an item may have.
abbrev pub is_apparel_type : Json → Bool
is_apparel_type (string s) = Text.◌==◌ s "apparel"
is_apparel_type v = false

-- `new Items.Apparel(item)`
abbrev pub apparel : Json → Fields
apparel (object fs) = put (name "states") (object (field (name "equipped") (boolean false) end)) fs
apparel v = put (name "states") (object (field (name "equipped") (boolean false) end)) end

-- The class of an item's type: `findWhere` answers undefined for another type, which has no `class`.
abbrev pub class_of : Json → Option (Json → Fields)
class_of type = if is_apparel_type type then some apparel else none

abbrev pub add_item : Option (List Fields) → Fields → Option (List Fields)
add_item none i = none
add_item (some is) i = some (i ∷ is)

abbrev pub construct : Option (Json → Fields) → Json → Option (List Fields) → Option (List Fields)
construct none item rest = none
construct (some make) item rest = add_item rest (make item)

-- The function of the loop, for an item before others.
abbrev pub load_item : Json → Bool → Option (List Fields) → Option (List Fields)
load_item item false rest = rest
load_item item true rest = construct (class_of (read "type" item)) item rest

-- `load`, of the items of `default()`
unfoldable pub load : List Json → Option (List Fields)
load [] = some []
load (item ∷ items) =
    let rest = load items in
    elim (own_property "type" item) [ none ↦ none | some b ↦ load_item item b rest ]

abbrev pub list_of : Items → List Json
list_of nil = []
list_of (cons v vs) = v ∷ list_of vs

-- `default`, of the value that the file holds
unfoldable pub default_items : Json → List Json
default_items (array vs) = list_of vs
default_items v = []

abbrev pub is_nothing : Json → Bool
is_nothing undefined = true
is_nothing null = true
is_nothing v = false

abbrev pub is_typed : Json → Bool
is_typed (object fs) = has (name "type") fs
is_typed v = false

-- An item that `load` can read: not null, and of type apparel if it has a type.
abbrev pub loads : Json → Bool
loads item =
    not (is_nothing item) && (if is_typed item then is_apparel_type (read "type" item) else true)

abbrev pub all : (Json → Bool) → List Json → Bool
all p [] = true
all p (v ∷ vs) = let rest = all p vs in if p v then rest else false

-- `load` makes apparel of the items that have a type, in their order, and skips those that have none.
-- But one item that is null, or has another type than apparel, makes it throw.
pub load_lem :
    (items : List Json)
    → load items ≡ (if all loads items then some (map apparel (filter is_typed items)) else none)
unfolding load
load_lem [] = refl
load_lem (undefined ∷ items) = refl
load_lem (null ∷ items) = refl
load_lem (object fs ∷ items) = elim (Bool-cases (has (name "type") fs)) [
  | inl t ↦ elim (Bool-cases (is_apparel_type (get (name "type") fs))) [
    | inl a ↦ elim (Bool-cases (all loads items)) [
      | inl h ↦ rw (t, load_item, a, load_lem items, h) refl
      | inr h ↦ rw (t, load_item, a, load_lem items, h) refl
    ]
    | inr a ↦ rw (t, load_item, a) refl
  ]
  | inr t ↦ rw t (load_lem items)
]
load_lem (v ∷ items) = load_lem items
