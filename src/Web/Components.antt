-- ===== src/Web/Components.antt =====
-- `Model` of Server/Plugins/Web/app/components.appearance.js: the parts of an item with their colors. A
-- TypeError is `none`. The ids in the page are made of the numbers of a part and of its color.
pub mod Numbering
pub mod Styling
pub mod Styled
pub mod Referring
pub mod Sheets
pub mod Slots
mod Tests
mod DataTests
use Prim.Native.String.{String}
use starfall.Base.{
  ℕ, suc, List, [], ◌∷◌, ◌++◌, Bool, true, false, Option, none, some, if◌then◌else◌,
}
use starfall.Scripts.Json.{Key, name, Json, undefined, null, string, object, get}
use starfall.Scripts.Mixins.{Underscore, each_object}

pub record Color : Type 0 where
  pub material : Json
  pub number : Json
  pub red : Json
  pub green : Json
  pub blue : Json
  pub index : ℕ

pub record Part : Type 0 where
  pub name : Json
  pub style : Json
  pub part : Json
  pub mesh : Json
  pub slot : Json
  pub on : Bool
  pub index : ℕ
  pub colors : List Color

-- `v[s]`, for a name that neither an array nor a text has
abbrev pub prop : String → Json → Option Json
prop s undefined = none
prop s null = none
prop s (object fs) = some (get (name s) fs)
prop s v = some undefined

-- What follows a step runs on its value, and not after a TypeError.
abbrev pub chain : {A B : Type 0} → Option A → (A → Option B) → Option B
chain none k = none
chain (some a) k = k a

-- The calls of a function that `eachObject` makes, one after the other, until one throws.
unfoldable pub fold_calls : {A : Type 0} → (A → Json → Option A) → A → List (Json × Key) → Option A
fold_calls f a [] = some a
fold_calls f a ((v, k) ∷ calls) = chain (f a v) (λ a'. fold_calls f a' calls)

-- `v[s]`, of a value that has been read before
abbrev pub read : String → Json → Json
read s (object fs) = get (name s) fs
read s v = undefined

-- `eq` is JavaScript's `==`.
module _ (u : Underscore) (eq : Json → Json → Bool) where
  abbrev pub push_color : Json → Json → Json → ℕ × List Color → ℕ × List Color
  push_color material style_color n (j, colors) = (
    suc j,
    colors
        ++ (record {
          material = material;
          number = n;
          red = read "red" style_color;
          green = read "green" style_color;
          blue = read "blue" style_color;
          index = j;
        }
            ∷ []),
  )

  -- The function for a color of the style.
  unfoldable pub add_color : Json → ℕ × List Color → Json → Option (ℕ × List Color)
  add_color material s style_color = chain (prop "number" style_color) λ n.
      chain (prop "color" material)
        λ c. some (if eq n c then push_color material style_color n s else s)

  -- The function for a material of the part.
  unfoldable pub add_material : Json → ℕ × List Color → Json → Option (ℕ × List Color)
  add_material style s material = fold_calls (add_color material) s (each_object u style)

  abbrev pub new_part : Json → Json → Json → Json → Json → List Color → ℕ → Part
  new_part n style slot mesh part colors i = record {
    name = n;
    style = style;
    part = part;
    mesh = mesh;
    slot = slot;
    on = false;
    index = i;
    colors = colors;
  }

  abbrev pub push_part : (ℕ → Part) → ℕ × List Part → ℕ × List Part
  push_part p (i, parts) = (suc i, parts ++ (p i ∷ []))

  -- The function for a part of the mesh.
  unfoldable pub add_part : Json → Json → Json → ℕ × List Part → Json → Option (ℕ × List Part)
  add_part style slot mesh s part = chain (prop "name" part) λ n.
      chain (fold_calls (add_material style) (0, []) (each_object u part))
        λ (j, colors). some (push_part (new_part n style slot mesh part colors) s)

  -- The functions for a mesh and for a slot.
  unfoldable pub add_mesh : Json → Json → ℕ × List Part → Json → Option (ℕ × List Part)
  add_mesh style slot s mesh = fold_calls (add_part style slot mesh) s (each_object u mesh)

  unfoldable pub add_slot : Json → ℕ × List Part → Json → Option (ℕ × List Part)
  add_slot style s slot = fold_calls (add_mesh style slot) s (each_object u slot)

  -- What a style adds to the parts, if it is the default one.
  unfoldable pub style_parts : Json → Json → List Part → Option (ℕ × List Part)
  style_parts obj style parts =
      chain (prop "slots" obj) λ slots. fold_calls (add_slot style) (0, parts) (each_object u slots)

  -- The function for a style.
  unfoldable pub add_style : Json → List Part → Json → Option (List Part)
  add_style obj parts style = chain (prop "name" style) λ n.
      if eq n (string "default")
      then chain (style_parts obj style parts) (λ (i, ps). some ps)
      else some parts

  -- `Model(baseID, obj)`
  unfoldable pub model : Json → Option (List Part)
  model obj =
      chain (prop "styles" obj) λ styles. fold_calls (add_style obj) [] (each_object u styles)
