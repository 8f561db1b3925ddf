-- ===== src/World/Contents.antt =====
-- class Container, class OpenerController and `EntityGUI.OnContents` of
-- Client/Assets/Scenes/WorldScene/WorldScript.js: the items that an entity holds and the rows in which
-- they are drawn. Unity says which buttons are pressed in a frame.
pub mod Rows
pub mod Presses
pub mod Layout
mod Tests
use starfall.Base.{
  ℕ, zero, suc, ◌+◌, ◌*◌, ◌==◌, List, [], ◌∷◌, ◌++◌, Bool, true, false, if◌then◌else◌, Option, none,
  some,
}
use starfall.Network.Runtime.{Text, text, u32}

-- `Item.properties`: a text or an item under each key, in the order of the table's keys. An item has the
-- state "open" of its `OpenerController` and its own properties.
pub data Properties : Type 0 where
  end : Properties
  text_property : Text → Text → Properties → Properties
  item_property : Text → ℕ → Properties → Properties → Properties

pub record Item : Type 0 where
  pub open_state : ℕ
  pub properties : Properties

-- `ToggleOpen` and `IsOpen`
abbrev pub toggle_open : ℕ → ℕ
toggle_open o = if o == 0 then 1 else 0

abbrev pub is_open : ℕ → Bool
is_open o = o == 1

abbrev pub same_key : Text → Text → Bool
same_key [] [] = true
same_key (a ∷ s) (b ∷ t) = if a == b then same_key s t else false
same_key _ _ = false

-- `Name`
unfoldable pub name_of : Properties → Text
name_of end = text "Undefined"
name_of (text_property k v rest) =
    let other = name_of rest in if same_key k (text "name") then v else other
name_of (item_property k o ps rest) =
    let other = name_of rest in if same_key k (text "name") then text "Undefined" else other

-- What `labelFunc` and `buttonFunc` draw, one under the other from `idx` on.
pub data Row : Type 0 where
  label : Text → Row
  button : Text → Row

-- The properties after a frame, the rows, and the next index.
pub record Drawn : Type 0 where
  pub left : Properties
  pub rows : List Row
  pub next : ℕ

abbrev pub with_row : Row → (Properties → Properties) → Drawn → Drawn
with_row r f d = record { left = f d.left; rows = r ∷ d.rows; next = d.next }

abbrev pub closed : Properties → ℕ → Drawn
closed ps idx = record { left = ps; rows = []; next = idx }

abbrev pub press : Bool → ℕ → ℕ
press b o = if b then toggle_open o else o

-- `Item.ForEach`; a button is pressed if `pressed` says so of its index.
unfoldable pub for_each : (ℕ → Bool) → ℕ → Properties → Drawn
for_each pressed idx end = closed end idx
for_each pressed idx (text_property k v rest) =
    with_row (label (k ++ (text ":" ++ v))) (text_property k v) (for_each pressed (suc idx) rest)
for_each pressed idx (item_property k o ps rest) =
    let o' = press (pressed idx) o in
    let opened = for_each pressed (suc idx) ps in
    let inner = if is_open o' then opened else closed ps (suc idx) in
    let after = for_each pressed inner.next rest in
    record {
      left = item_property k o' inner.left after.left;
      rows = button (name_of ps) ∷ (inner.rows ++ after.rows);
      next = after.next;
    }

-- `Build`: each item has a name and an item "Test".
abbrev pub test_item : Properties
test_item = text_property (text "name") (text "Test") end

abbrev pub build_item : Text → Item
build_item n = record {
  open_state = 0;
  properties = text_property (text "name") n (item_property (text "test") 0 test_item end);
}

unfoldable pub build : List Text → List Item
build [] = []
build (n ∷ ns) = build_item n ∷ build ns

unfoldable pub new_container : List Item
unfolding build
new_container =
    build (text "Helmet" ∷ (text "Jacket" ∷ (text "Pants" ∷ (text "Gloves" ∷ (text "Boots" ∷ [])))))

-- One button of `OnContents`: the item's, at `y`, with the rows below it if the item is open.
pub record Entry : Type 0 where
  pub y : ℕ
  pub caption : Text
  pub group : Option (List Row)

pub record Contents : Type 0 where
  pub items : List Item
  pub entries : List Entry
  pub scroll_height : ℕ

abbrev pub element_height : ℕ
element_height = 20

abbrev pub draw_group : Bool → Drawn → Properties → Properties × Option (List Row)
draw_group true d ps = (d.left, some d.rows)
draw_group false d ps = (ps, none)

abbrev pub offset_after : ℕ → ℕ → ℕ
offset_after y_offset o = if is_open o then u32 (y_offset + (100 + element_height)) else y_offset

-- The loop of `OnContents` over the items from index `i` on, where `y` is the last one's.
unfoldable pub draw_items : (ℕ → Bool) → (ℕ → ℕ → Bool) → ℕ → ℕ → ℕ → List Item → Contents
draw_items pressed inside i y_offset y [] = record { items = []; entries = []; scroll_height = y }
draw_items pressed inside i y_offset y (it ∷ its) =
    let y' = u32 (i * element_height + y_offset) in
    let toggled = record it { open_state = press (pressed i) it.open_state } in
    let (ps, group) =
      draw_group (is_open toggled.open_state) (for_each (inside i) 0 it.properties) it.properties in
    let rest =
      draw_items pressed inside (suc i) (offset_after y_offset toggled.open_state) y' its in
    record {
      items = record toggled { properties = ps } ∷ rest.items;
      entries = record { y = y'; caption = name_of it.properties; group = group } ∷ rest.entries;
      scroll_height = rest.scroll_height;
    }

unfoldable pub on_contents : (ℕ → Bool) → (ℕ → ℕ → Bool) → List Item → Contents
on_contents pressed inside items = draw_items pressed inside 0 0 0 items
