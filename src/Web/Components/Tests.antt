-- ===== src/Web/Components/Tests.antt =====
-- A concrete item for components.appearance.js: a helmet of one part with one material.
use Prim.Native.String.{String}
use package.text.Mathlib.Text
use starfall.Base.{length, ◌++◌, ℕ, ◌≡◌, refl, List, [], ◌∷◌, Bool, false, Option, none, some}
use starfall.Scripts.Json.{name, Json, string, object, Fields, end, field, get}
use starfall.Scripts.Mixins.{each_object, each_field, is_index, is_object, parses_int}
use starfall.Scripts.Documents.{underscore}
use starfall.Web.Components.{
  Part, fold_calls, add_color, add_material, add_part, add_mesh, add_slot, style_parts, add_style,
  model,
}
use starfall.Web.Components.Numbering.{IsBuilt, Counted, style_parts-Built}

abbrev eq : Json → Json → Bool
eq (string s) (string t) = Text.◌==◌ s t
eq v w = false

abbrev text_field : String → String → Fields → Fields
text_field k v fs = field (name k) (string v) fs

abbrev style : Json
style = object (
    text_field "name" "default"
      (field (name "color") (object (text_field "number" "0" (text_field "red" "255" end))) end))

abbrev item : Json
item = object (
    field (name "styles") (object (field (name "style") style end)) (
      field (name "slots")
        (object (
          field (name "slot")
            (object (
              field (name "mesh")
                (object (
                  field (name "part")
                    (object (
                      text_field "name" "Visor"
                        (field (name "material") (object (text_field "color" "0" end)) end)))
                    end))
                end))
            end))
        end))

abbrev parts_of : Option (ℕ × List Part) → List Part
parts_of none = []
parts_of (some (i, parts)) = parts

style_parts-Built_example :
    (new : List Part) × (parts_of (style_parts underscore eq item style []) ≡ [] ++ new)
    × (1 ≡ length new)
    × Counted (λ p. p.index) (IsBuilt underscore eq style) 0 new
style_parts-Built_example =
    style_parts-Built underscore eq item style [] 1
      (parts_of (style_parts underscore eq item style []))
      (unfold style_parts add_slot add_mesh add_part add_material add_color fold_calls each_object
          each_field is_index is_object parses_int get in
        refl)

abbrev numbers_of : Option (List Part) → List (Json × ℕ)
numbers_of none = []
numbers_of (some []) = []
numbers_of (some (p ∷ ps)) = (p.name, p.index) ∷ []

helmet_model : numbers_of (model underscore eq item) ≡ (string "Visor", 0) ∷ []
unfolding model add_style style_parts add_slot add_mesh add_part add_material add_color fold_calls
    each_object each_field is_index is_object parses_int get
helmet_model = refl
