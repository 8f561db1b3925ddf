-- ===== src/Web/Items/Handlers.antt =====
-- The handlers of the forms of Server/Plugins/Web/items.js, and the events that call them.
use Prim.Native.Char.{Char, code}
use Prim.Native.String.{String}
use starfall.Base.{
  ◌==◌, suc, ◌-◌, List, [], ◌∷◌, ◌++◌, Bool, true, false, Option, none, some, if◌then◌else◌,
}
use starfall.Scripts.Json.{Key, name, Json, string, object, Fields, end, field, get, put}
use starfall.Web.Items.{
  Handler, on_open, on_close, on_select, on_ok, on_cancel, on_new, on_add, on_back, on_create, Body,
  item_body, type_body, Menu, Forms, keys_of, get_selection, render, remove_menu, is_item, is_type,
  on_body, has_select, reset, reset_types,
}

-- What the page's fields hold at a click: the item form's inputs, where there is one for the key; the
-- colors of the appearance, for `appearance.model.data()`; and the item type form's fields.
pub record Typed : Type 0 where
  pub value_of : Key → Json
  pub appearance : Json
  pub type_name : String
  pub property : String
  pub data_type : String

-- `ajaxSelectItemTypes`
abbrev pub ajax_select : Forms → Forms
ajax_select f = record f { selects = suc f.selects }

-- `onCloseClick` and `onOpenClick`
unfoldable pub close : Forms → Forms
close f = record f { menus = remove_menu f.menus; anchor = on_open ∷ [] }

unfoldable pub open_form : Forms → Forms
open_form f = reset (ajax_select (record f { anchor = on_close ∷ [] }))

-- The handler of `registerSelectChange`, which fills the list again if there is one.
abbrev pub refill : List Key → Menu → Menu
refill keys m = record m {
  body = elim m.body [
    | item_body c list ↦ item_body c (elim list [ none ↦ none | some ks ↦ some keys ])
    | type_body rows shown ↦ type_body rows shown
  ];
}

unfoldable pub select_change : Forms → Forms
select_change f = record (render f) {
  menus = on_body is_item (refill (keys_of (get_selection f))) f.menus;
}

-- The item of the Ok button.
unfoldable pub put_inputs : (Key → Json) → List Key → Fields → Fields
put_inputs v [] item = item
put_inputs v (k ∷ ks) item = put_inputs v ks (put k (v k) item)

abbrev pub item_start : Fields → Json → Fields
item_start selection appearance =
    put (name "data") appearance (put (name "type") (get (name "name") selection) end)

unfoldable pub item_of : Typed → Forms → Fields
item_of t f = put_inputs t.value_of f.inputs (item_start (get_selection f) t.appearance)

unfoldable pub ok_click : Typed → Forms → Forms
ok_click t f = close (record f { inserted = f.inserted ++ (item_of t f ∷ []) })

-- The handler of `registerNewButton`; `onTransition` is the other form's `reset`.
unfoldable pub new_click : Forms → Forms
new_click f = reset_types (record f { menus = remove_menu f.menus })

-- `onClose` of the item type form, as Server/Plugins/Web/app/app.js sets it.
unfoldable pub on_closed : Forms → Forms
on_closed f = reset (ajax_select f)

-- `toLowerCase`, on the letters A to Z; other letters are taken to be small.
abbrev pub lower_char : String → String → Char → Char
lower_char (String.◌∷◌ u us) (String.◌∷◌ l ls) c =
    let rest = lower_char us ls c in if code c == code u then l else rest
lower_char _ _ c = c

unfoldable pub to_lower_case : String → String
to_lower_case String.[] = ""
to_lower_case (String.◌∷◌ c s) =
    String.◌∷◌ (lower_char "ABCDEFGHIJKLMNOPQRSTUVWXYZ" "abcdefghijklmnopqrstuvwxyz" c)
      (to_lower_case s)

-- The handler of `registerAddPropertyButton`
abbrev pub is_empty : String → Bool
is_empty String.[] = true
is_empty (String.◌∷◌ c s) = false

abbrev pub add_row : String → String → Menu → Menu
add_row p d m = record m {
  body = elim m.body [
    | item_body c list ↦ item_body c list
    | type_body rows shown ↦ type_body (rows ++ ((p, d) ∷ [])) true
  ];
}

abbrev pub property_of : String → Json
property_of d = object (field (name "dataType") (string d) (field (name "value") (string "") end))

unfoldable pub add_click : Typed → Forms → Forms
add_click t f =
    let p = to_lower_case t.property in
    if is_empty p then f else record f {
      prototype = put (name p) (property_of t.data_type) f.prototype;
      menus = on_body is_type (add_row p t.data_type) f.menus;
    }

-- The handler of `registerCreateItemTypeButton`
unfoldable pub create_click : Typed → Forms → Forms
create_click t f =
    let prototype' = put (name "name") (string (to_lower_case t.type_name)) f.prototype in
    if is_empty t.type_name
    then f
    else on_closed (record f { prototype = prototype'; created = f.created ++ (prototype' ∷ []) })

unfoldable pub perform : Typed → Handler → Forms → Forms
perform t on_open f = open_form f
perform t on_close f = close f
perform t on_select f = select_change f
perform t on_ok f = ok_click t f
perform t on_cancel f = close f
perform t on_new f = new_click f
perform t on_add f = add_click t f
perform t on_back f = on_closed f
perform t on_create f = create_click t f

-- The handlers that an element has when its event comes, in their order.
unfoldable pub run : Typed → List Handler → Forms → Forms
run t [] f = f
run t (h ∷ hs) f = run t hs (perform t h f)

-- The handlers of the first element with an id.
abbrev pub of_first : (Menu → List Handler) → List Menu → List Handler
of_first g [] = []
of_first g (m ∷ ms) = g m

unfoldable pub of_body : (Body → Bool) → (Menu → List Handler) → List Menu → List Handler
of_body has g [] = []
of_body has g (m ∷ ms) = let rest = of_body has g ms in if has m.body then g m else rest

-- The user chooses an option.
abbrev pub choose : String → Menu → Menu
choose v m = record m {
  body = elim m.body [
    | item_body c list ↦
        item_body (elim c [ none ↦ none | some c' ↦ some (record c' { value = v }) ]) list
    | type_body rows shown ↦ type_body rows shown
  ];
}

-- `loadItemTypes`
abbrev pub load_item_types : Option (List Fields) → Forms → Forms
load_item_types none f = f
load_item_types (some ts) f = record f { item_types = ts }

pub data Event : Type 0 where
  anchor_clicked cancel_clicked new_clicked type_stored : Event
  ok_clicked add_clicked : Typed → Event
  chosen : String → Event
  types_replied : Option (List Fields) → Event

abbrev pub untyped : Typed
untyped = record {
  value_of = λ k. string "";
  appearance = string "";
  type_name = "";
  property = "";
  data_type = "";
}

-- What the page does on an event. A reply to a new item type asks for the item types again.
unfoldable pub handle : Event → Forms → Forms
handle anchor_clicked f = run untyped f.anchor f
handle cancel_clicked f = run untyped (of_first (λ m. m.cancel_button) f.menus) f
handle new_clicked f = run untyped (of_body is_item (λ m. m.new_button) f.menus) f
handle type_stored f = ajax_select f
handle (ok_clicked t) f = run t (of_first (λ m. m.ok_button) f.menus) f
handle (add_clicked t) f = run t (of_body is_type (λ m. m.add_button) f.menus) f
handle (chosen v) f =
    run untyped (of_body has_select (λ m. m.select) f.menus)
      (record f { menus = on_body has_select (choose v) f.menus })
handle (types_replied ts) f = reset (load_item_types ts (record f { selects = f.selects - 1 }))

-- The page when `registerAnchor` has run.
abbrev pub registered_anchor : Forms
registered_anchor = record {
  item_types = [];
  inputs = [];
  prototype = end;
  anchor = on_open ∷ [];
  menus = [];
  selects = 0;
  inserted = [];
  created = [];
}
