-- ===== src/Scripts/Appearance.antt =====
-- Server/Plugins/Script/Entity/appearance.js: the names of the slots of an item or of a document. A
-- TypeError is `none`.
pub mod Slots
use Prim.Native.String.{String}
use starfall.Base.{List, [], ◌∷◌, Bool, true, false, Option, none, some, if◌then◌else◌}
use starfall.Scripts.Json.{Key, name, Json, undefined, null, object, Fields, has, get}
use starfall.Scripts.Mixins.{Underscore, each_object}
use starfall.Scripts.Xml.{Elements, xml_to_json}

-- `_.has(v, s)`, for a name that neither an array nor a text has
abbrev pub own_property : String → Json → Option Bool
own_property s undefined = none
own_property s null = none
own_property s (object fs) = some (has (name s) fs)
own_property s v = some false

-- `v[s]`, of a value that has the property
abbrev pub read : String → Json → Json
read s (object fs) = get (name s) fs
read s v = undefined

abbrev pub keep : Bool → Json → Option (List Json) → Option (List Json)
keep b v none = none
keep b v (some vs) = some (if b then v ∷ vs else vs)

-- The calls of the function that `slots.names` gives to `eachObject`.
unfoldable pub slot_names : List (Json × Key) → Option (List Json)
slot_names [] = some []
slot_names ((slot, k) ∷ calls) =
    let rest = slot_names calls in
    elim (own_property "name" slot) [ none ↦ none | some b ↦ keep b (read "name" slot) rest ]

-- `slots.names(obj)`
unfoldable pub names : Underscore → Json → Option (List Json)
names u obj = elim (own_property "slots" obj) [
  | none ↦ none
  | some b ↦ if b then slot_names (each_object u (read "slots" obj)) else some []
]

-- `slots.defaults()`, of the children of the document's root
unfoldable pub defaults : Underscore → Elements → Option (List Json)
defaults u cs =
    let obj = xml_to_json cs in
    elim (own_property "appearance" obj) [
      | none ↦ none
      | some b ↦ if b then names u (read "appearance" obj) else some []
    ]
