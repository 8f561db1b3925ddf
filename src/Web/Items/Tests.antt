-- ===== src/Web/Items/Tests.antt =====
-- The item forms on a page with two item types, and the theorems about them there.
use starfall.Base.{◌≡◌, refl, List, [], ◌∷◌, ◌++◌, some, inl, inr, false, if◌then◌else◌, length}
use starfall.Scripts.Json.{Key, name, undefined, string, Fields, end, field, same_key, get}
use starfall.Web.Items.{
  on_open, Chooser, item_body, type_body, Forms, text_of, select_value, last_named, get_selection,
  content, update, on_body, register, reset, reset_types,
}
use starfall.Web.Items.Handlers.{
  Typed, untyped, to_lower_case, Event, close, open_form, new_click, perform, run, of_body,
  property_of, anchor_clicked, cancel_clicked, new_clicked, ok_clicked, chosen, types_replied,
  handle, registered_anchor,
}
use starfall.Web.Items.Counting.{IsSound, registered}
use starfall.Web.Items.Showing.{IsOneOf, IsShowing}
use starfall.Web.Items.Sequences.{events-IsSound, events-IsShowing}
use starfall.Web.Items.Properties.{item_entry, ok-item, described, handle_adds, create-described}

abbrev sword : Fields
sword = field (name "damage") (property_of "UInt32") (field (name "name") (string "sword") end)

abbrev shield : Fields
shield = field (name "name") (string "shield") end

abbrev types : List Fields
types = sword ∷ (shield ∷ [])

-- The form is open, with the types of the reply.
abbrev opened : Forms
opened = handle (types_replied (some types)) (handle anchor_clicked registered_anchor)

-- The form is opened, the types come, and the new form is opened.
abbrev steps : List Event
steps = anchor_clicked ∷ (types_replied (some types) ∷ (new_clicked ∷ []))

events-IsSound_example : IsSound (handle new_clicked opened)
events-IsSound_example = events-IsSound steps

shield-IsOneOf : IsOneOf "shield" opened.item_types
unfolding get handle reset update get_selection select_value content run perform open_form register
    on_body last_named
shield-IsOneOf = inr (inl refl)

events-IsShowing_example : IsShowing (handle (chosen "shield") opened)
events-IsShowing_example =
    events-IsShowing (anchor_clicked ∷ (types_replied (some types) ∷ (chosen "shield" ∷ [])))
      (tt, ((refl, (refl, tt)), (shield-IsOneOf, tt)))

opened-IsShowing : IsShowing opened
opened-IsShowing =
    events-IsShowing (anchor_clicked ∷ (types_replied (some types) ∷ []))
      (tt, ((refl, (refl, tt)), tt))

abbrev choice : Chooser
choice = record { options = "sword" ∷ ("shield" ∷ []); value = "sword" }

abbrev sword_keys : List Key
sword_keys = name "damage" ∷ (name "name" ∷ [])

opened-menus : opened.menus ≡ registered (item_body (some choice) (some sword_keys)) ∷ []
unfolding handle run perform open_form reset update content on_body register get_selection
    select_value last_named get
opened-menus = refl

-- A reply that comes after Cancel shows the form again, while the anchor would open it.
abbrev late : Forms
late =
    handle (types_replied (some types))
      (handle cancel_clicked (handle anchor_clicked registered_anchor))

late-menus : (length late.menus ≡ 1) × (late.anchor ≡ on_open ∷ [])
unfolding handle run perform open_form close reset update content on_body register get_selection
    select_value last_named get
late-menus = (refl, refl)

ok-item_example :
    (item : Fields) × ((handle (ok_clicked untyped) opened).inserted
      ≡ opened.inserted ++ (item ∷ []))
    × ((handle (ok_clicked untyped) opened).menus ≡ [])
    × ((k : Key) → get k item ≡ item_entry untyped (last_named "sword" end opened.item_types) k)
    × (text_of (get (name "name") (last_named "sword" end opened.item_types)) ≡ "sword")
ok-item_example = ok-item untyped opened choice (some sword_keys) opened-menus opened-IsShowing

abbrev weight : Typed
weight = record untyped { property = "Weight"; data_type = "UInt32" }

abbrev named_armor : Typed
named_armor = record untyped { type_name = "Armor" }

abbrev creating : Forms
creating = handle new_clicked opened

creating-menus : creating.menus ≡ registered (type_body [] false) ∷ []
unfolding handle run perform new_click reset_types open_form reset update content on_body of_body
    register get_selection select_value last_named get
creating-menus = refl

creating-prototype : creating.prototype ≡ end
unfolding handle run perform new_click reset_types open_form reset update content on_body of_body
    register get_selection select_value last_named get
creating-prototype = refl

abbrev created : Forms
created = handle (ok_clicked named_armor) (handle_adds (weight ∷ (untyped ∷ [])) creating)

lowered : (to_lower_case "Armor" ≡ "armor") × (to_lower_case "Weight 2" ≡ "weight 2")
unfolding to_lower_case
lowered = (refl, refl)

create-described_example :
    (p : Fields) × (created.created ≡ creating.created ++ (p ∷ []))
    × ((q : Key)
        → get q p ≡ (
            if same_key (name "name") q
            then string (to_lower_case "Armor")
            else described q (weight ∷ (untyped ∷ [])) undefined))
create-described_example =
    create-described (weight ∷ (untyped ∷ [])) named_armor creating [] false creating-menus
      creating-prototype refl
