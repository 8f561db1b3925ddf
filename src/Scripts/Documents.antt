-- ===== src/Scripts/Documents.antt =====
-- Concrete documents and data, and the theorems on them at inputs that meet their hypotheses.
use Prim.Native.String.{String}
use starfall.Base.{◌≡◌, refl, List, [], ◌∷◌, map, filter, Option, none, some, if◌then◌else◌}
use starfall.Scripts.Json.{
  Key, index, name, Json, number, string, array, object, nil, cons, Fields, end, field, get, has,
  put, delete,
}
use starfall.Scripts.Mixins.{
  Underscore, is_index, is_object, each_object, each_field, array_to_object, indexed_fields,
  object_to_array, parses_int, array_of,
}
use starfall.Scripts.Mixins.RoundTrip.{singles, each_object-array_to_object}
use starfall.Scripts.Xml.{
  Elements, no_more, child, add_child, collect, recurse, to_object, xml_to_json,
}
use starfall.Scripts.Xml.Uniform.{uniform, value, each_object-to_object}
use starfall.Scripts.Appearance.{names, defaults, slot_names}
use starfall.Scripts.Inventory.Loading.{load, all, loads, apparel, is_typed, load_lem}

abbrev pub first_of : Json → Option (Json × Key)
first_of (object (field k v fs)) = some (v, k)
first_of (array (cons v vs)) = some (v, index 0)
first_of v = none

-- What `_.some` visits first.
abbrev pub underscore : Underscore
underscore = record { some_first = first_of; some_first-object = λ k v fs. refl }

abbrev named_slot : String → Fields × Elements
named_slot s = (field (name "name") (string s) end, no_more)

abbrev two_slots : List (Fields × Elements)
two_slots = named_slot "Head" ∷ (named_slot "Top" ∷ [])

each_object-to_object_example :
    each_object underscore (to_object end (uniform "slot" two_slots))
    ≡ map (λ p. (value p, name "slot")) two_slots
each_object-to_object_example =
    each_object-to_object underscore "slot" end two_slots tt (unfold parses_int in refl)

default_names :
    defaults underscore (
      child "appearance" end
        (child "styles" end no_more (child "slots" end (uniform "slot" two_slots) no_more))
        no_more)
    ≡ some (string "Head" ∷ (string "Top" ∷ []))
unfolding defaults names slot_names xml_to_json recurse add_child collect has get put delete
    each_object each_field is_index is_object parses_int
default_names = refl

abbrev parts : List (Json × Key)
parts = (object end, name "Helmet") ∷ ((object end, name "Visor") ∷ [])

each_object-array_to_object_example :
    each_object underscore (array_to_object (array (singles parts))) ≡ parts
each_object-array_to_object_example =
    each_object-array_to_object underscore parts
      (unfold is_object is_index parses_int in ((refl, refl), ((refl, refl), tt)))

-- `objectToArray` gives every entry the key `key`.
lost_keys :
    object_to_array underscore (array_to_object (array (singles parts)))
    ≡ array (
        cons
          (object (field (name "key") (object end) end))
          (cons (object (field (name "key") (object end) end)) nil))
unfolding array_of each_object array_to_object indexed_fields each_field is_index is_object
lost_keys = refl

-- Two children of one name before one of another: their object has the second of the two first.
mixed_names :
    each_object underscore (
      to_object end (
        child "a"
          (field (name "n") (number 1) end)
          no_more
          (child "a" (field (name "n") (number 2) end) no_more (child "b" end no_more no_more))))
    ≡ (object (field (name "n") (number 2) end), name "a")
      ∷ ((object (field (name "n") (number 1) end), name "a") ∷ ((object end, name "b") ∷ []))
unfolding recurse add_child collect has get put delete each_object each_field is_index is_object
    parses_int
mixed_names = refl

abbrev items : List Json
items = object (field (name "type") (string "weapon") end) ∷ []

load_lem_example :
    load items ≡ (if all loads items then some (map apparel (filter is_typed items)) else none)
load_lem_example = load_lem items

-- An item of another type stops the loading.
unknown_type : load items ≡ none
unfolding load has get
unknown_type = refl
