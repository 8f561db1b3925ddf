-- ===== src/Web/Items.antt =====
-- The forms of Server/Plugins/Web/items.js for one message: the form that makes an item, and the one
-- that makes an item type. Both have the ids of Server/Plugins/Web/app/app.js, so that they share those
-- of the menu, of the Ok button and of the Cancel button; `find` gives the first element in the page.
pub mod Handlers
pub mod Counting
pub mod Showing
pub mod Choosing
pub mod Properties
pub mod Sequences
mod Tests
use Prim.Native.String.{String}
use package.text.Mathlib.Text
use starfall.Base.{
  ℕ, suc, ◌-◌, List, [], ◌∷◌, ◌++◌, map, Bool, true, false, Option, none, some, if◌then◌else◌, not,
}
use starfall.Scripts.Json.{Key, name, Json, string, object, Fields, end, field, get, put}

-- The handlers of clicks and changes.
pub data Handler : Type 0 where
  on_open on_close on_select on_ok on_cancel on_new : Handler
  on_add on_back on_create : Handler

-- The parts of a menu that depend on its form: the item form's select, with its options and its
-- value, and its list of properties; and the list of the item type form, if it is shown.
pub record Chooser : Type 0 where
  pub options : List String
  pub value : String

pub data Body : Type 0 where
  item_body : Option Chooser → Option (List Key) → Body
  type_body : List (String × String) → Bool → Body

-- A menu under the root, with the handlers of its elements.
pub record Menu : Type 0 where
  pub body : Body
  pub ok_button : List Handler
  pub cancel_button : List Handler
  pub new_button : List Handler
  pub add_button : List Handler
  pub select : List Handler

-- `Instance.Form` and `Types.Form`, the page below their root, and the requests that they sent.
pub record Forms : Type 0 where
  pub item_types : List Fields
  pub inputs : List Key
  pub prototype : Fields
  pub anchor : List Handler
  pub menus : List Menu
  pub selects : ℕ
  pub inserted : List Fields
  pub created : List Fields

-- The name of an item type, which is a text in what the server sends.
abbrev pub text_of : Json → String
text_of (string s) = s
text_of _ = ""

abbrev pub name_of : Fields → String
name_of fs = text_of (get (name "name") fs)

-- The keys of an object, for `for(var key in selection)`.
abbrev pub keys_of : Fields → List Key
keys_of end = []
keys_of (field k v fs) = k ∷ keys_of fs

-- `_.size(selection) > 0`
abbrev pub is_nonempty : Fields → Bool
is_nonempty end = false
is_nonempty (field k v fs) = true

-- `$("#"+ids.select).val()`: the value of the first select in the page.
unfoldable pub select_value : List Menu → Option String
select_value [] = none
select_value (m ∷ ms) =
    let rest = select_value ms in
    elim m.body [
      | item_body chooser list ↦ elim chooser [ none ↦ rest | some c ↦ some c.value ]
      | type_body list shown ↦ rest
    ]

-- The loop of `getSelection`: a later item type of the same name counts.
unfoldable pub last_named : String → Fields → List Fields → Fields
last_named value found [] = found
last_named value found (elem ∷ elems) =
    last_named value (if Text.◌==◌ (name_of elem) value then elem else found) elems

unfoldable pub get_selection : Forms → Fields
get_selection f = elim (select_value f.menus) [
  | none ↦ end
  | some v ↦ last_named v end f.item_types
]

-- `render`, of which the page's inputs and `selectedItemTypeInputs` have the keys.
abbrev pub render : Forms → Forms
render f = record f { inputs = keys_of (get_selection f) }

-- The menu of the template "template-object-item-select", with the first option chosen.
abbrev pub chooser_of : List Fields → Option Chooser
chooser_of [] = none
chooser_of (t ∷ ts) = some (record { options = map name_of (t ∷ ts); value = name_of t })

abbrev pub bare : Body → Menu
bare b = record {
  body = b;
  ok_button = [];
  cancel_button = [];
  new_button = [];
  add_button = [];
  select = [];
}

abbrev pub list_of : Fields → Option (List Key)
list_of selection = if is_nonempty selection then some (keys_of selection) else none

abbrev pub template : Forms → Menu
template f = bare (item_body (chooser_of f.item_types) (list_of (get_selection f)))

-- `$("#"+ids.menu).remove()`
abbrev pub remove_menu : List Menu → List Menu
remove_menu [] = []
remove_menu (m ∷ ms) = ms

-- `contentFunc`: the template is filled in before the old menu goes.
unfoldable pub content : Forms → Forms
content f =
    let rendered = if is_nonempty (get_selection f) then render f else f in
    record rendered { menus = remove_menu f.menus ++ (template f ∷ []) }

-- `Instance.Form.View.update`
unfoldable pub update : Forms → Forms
update f =
    let first = content f in if is_nonempty (get_selection first) then content first else first

-- A change of the first menu, whose elements come first of those with an id that every menu has; and of
-- the first menu that has an element.
abbrev pub on_first : (Menu → Menu) → List Menu → List Menu
on_first g [] = []
on_first g (m ∷ ms) = g m ∷ ms

abbrev pub is_item : Body → Bool
is_item (item_body chooser list) = true
is_item (type_body list shown) = false

abbrev pub is_type : Body → Bool
is_type b = not (is_item b)

abbrev pub has_select : Body → Bool
has_select (item_body (some c) list) = true
has_select _ = false

unfoldable pub on_body : (Body → Bool) → (Menu → Menu) → List Menu → List Menu
on_body has g [] = []
on_body has g (m ∷ ms) = let rest = on_body has g ms in if has m.body then g m ∷ ms else m ∷ rest

-- `registerOkButton`, `registerSelectChange`, `registerCancelButton`, `registerNewButton`
abbrev pub add_ok : Handler → Menu → Menu
add_ok h m = record m { ok_button = m.ok_button ++ (h ∷ []) }

abbrev pub add_select : Menu → Menu
add_select m = record m { select = m.select ++ (on_select ∷ []) }

abbrev pub only_cancel : Menu → Menu
only_cancel m = record m { cancel_button = on_cancel ∷ [] }

abbrev pub add_cancel : Handler → Menu → Menu
add_cancel h m = record m { cancel_button = m.cancel_button ++ (h ∷ []) }

abbrev pub add_new : Menu → Menu
add_new m = record m { new_button = m.new_button ++ (on_new ∷ []) }

abbrev pub add_add : Menu → Menu
add_add m = record m { add_button = m.add_button ++ (on_add ∷ []) }

unfoldable pub register : List Menu → List Menu
register ms =
    on_body is_item add_new
      (on_first only_cancel (on_body has_select add_select (on_first (add_ok on_ok) ms)))

-- `Instance.Form.Controls.reset`
unfoldable pub reset : Forms → Forms
reset f = let updated = update f in record updated { menus = register updated.menus }

-- `$("#"+this.parent.ids.propertyList).hide()` and `.show()`
abbrev pub shown_as : Bool → Menu → Menu
shown_as b m = record m {
  body = elim m.body [ item_body c l ↦ item_body c l | type_body rows shown ↦ type_body rows b ];
}

-- `Types.Form.Controls.reset` with `Types.Form.View.update`
unfoldable pub reset_types : Forms → Forms
reset_types f = record f {
  prototype = end;
  menus = on_first (add_ok on_create) (
      on_first (add_cancel on_back) (
        on_body is_type add_add
          (on_body is_type (shown_as false) (f.menus ++ (bare (type_body [] true) ∷ [])))));
}
