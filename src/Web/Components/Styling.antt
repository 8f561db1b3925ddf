-- ===== src/Web/Components/Styling.antt =====
-- `Model.data` of Server/Plugins/Web/app/components.appearance.js: the styles of an item and its materials,
-- which refer to them by numbers. A part stands by the materials that `eachObject` visits and by its JSON
-- text; what `arrayToObject` makes of the lists in the end is left out.
use Prim.Native.String.{String}
use text.Mathlib.Text
use starfall.Base.{ℕ, suc, List, [], ◌∷◌, ◌++◌, Bool, ◌&&◌, Option, none, some, if◌then◌else◌}

-- What the sliders of a color say, for `_.pick(..., "red", "green", "blue")`.
pub record Rgb : Type 0 where
  pub red : String
  pub green : String
  pub blue : String

-- A number of the style sheet: the text that a material came with, "-1", or `""+nextNumber`.
pub data Number : Type 0 where
  given : String → Number
  minus_one : Number
  nth : ℕ → Number

pub record Material : Type 0 where
  pub name : String
  pub color : Number

-- An element of `style`
pub record Entry : Type 0 where
  pub rgb : Rgb
  pub number : Number

-- A color of a part's component, by the name of its material, and a component.
pub record ColorComponent : Type 0 where
  pub material : String
  pub current : Rgb

pub record PartComponent : Type 0 where
  pub on : Bool
  pub part_text : String
  pub colors : List ColorComponent

pub record PartObject : Type 0 where
  pub text : String
  pub materials : List Material

pub record Sheet : Type 0 where
  pub style : List Entry
  pub next_number : ℕ

abbrev pub same_rgb : Rgb → Rgb → Bool
same_rgb a b = Text.◌==◌ a.red b.red && (Text.◌==◌ a.green b.green && Text.◌==◌ a.blue b.blue)

-- The loop over `style` stops at the first element of the same color.
unfoldable pub find_entry : Rgb → List Entry → Option Entry
find_entry c [] = none
find_entry c (e ∷ es) = let rest = find_entry c es in if same_rgb c e.rgb then some e else rest

-- The loop over the materials with a component's name.
abbrev pub recolor_one : String → Number → Material → Material
recolor_one n c m = if Text.◌==◌ n m.name then record m { color = c } else m

unfoldable pub recolor : String → Number → List Material → List Material
recolor n c [] = []
recolor n c (m ∷ ms) = recolor_one n c m ∷ recolor n c ms

-- `filter`: a color that `style` has gives its number to the materials, and is left out.
unfoldable pub reuse :
    List Entry → List ColorComponent → List Material → List ColorComponent × List Material
reuse style [] ms = ([], ms)
reuse style (c ∷ cs) ms = elim (find_entry c.current style) [
  | none ↦ let (kept, ms') = reuse style cs ms in (c ∷ kept, ms')
  | some e ↦ reuse style cs (recolor c.material e.number ms)
]

-- The loop of `map` over the materials: each of the name takes the next number, and the entry the last.
pub record Numbered : Type 0 where
  pub materials : List Material
  pub next_number : ℕ
  pub last : Number

unfoldable pub number_all : String → ℕ → Number → List Material → Numbered
number_all n next last [] = record { materials = []; next_number = next; last = last }
number_all n next last (m ∷ ms) =
    let same = Text.◌==◌ n m.name in
    let rest =
      number_all n (if same then suc next else next) (if same then nth next else last) ms in
    record rest { materials = (if same then record m { color = nth next } else m) ∷ rest.materials }

-- `map`: the entries of the other colors.
pub record Assigned : Type 0 where
  pub materials : List Material
  pub next_number : ℕ
  pub entries : List Entry

unfoldable pub assign : ℕ → List ColorComponent → List Material → Assigned
assign next [] ms = record { materials = ms; next_number = next; entries = [] }
assign next (c ∷ cs) ms =
    let n = number_all c.material next minus_one ms in
    let rest = assign n.next_number cs n.materials in
    record rest { entries = record { rgb = c.current; number = n.last } ∷ rest.entries }

-- What a component that is on, and whose part it is, does to the part and to the style sheet.
unfoldable pub data_part : List ColorComponent → List Material → Sheet → List Material × Sheet
data_part cs ms s =
    let (kept, ms') = reuse s.style cs ms in
    let a = assign s.next_number kept ms' in
    (a.materials, record { style = s.style ++ a.entries; next_number = a.next_number })

-- `_.every` over the components stops at the first that is on and has the part.
unfoldable pub find_component : String → List PartComponent → Option PartComponent
find_component t [] = none
find_component t (c ∷ cs) =
    let rest = find_component t cs in if c.on && Text.◌==◌ c.part_text t then some c else rest

-- The loop over the parts of a mesh, of a slot and of the model, which share one style sheet.
unfoldable pub data_parts : List PartComponent → List PartObject → Sheet → List PartObject × Sheet
data_parts comps [] s = ([], s)
data_parts comps (p ∷ ps) s = elim (find_component p.text comps) [
  | none ↦ data_parts comps ps s
  | some c ↦
      let (ms, s') = data_part c.colors p.materials s in
      let (rest, s'') = data_parts comps ps s' in (record p { materials = ms } ∷ rest, s'')
]

-- The meshes, and likewise the slots, that have a part left.
unfoldable pub data_meshes :
    List PartComponent
    → List (String × List PartObject)
    → Sheet
    → List (String × List PartObject) × Sheet
data_meshes comps [] s = ([], s)
data_meshes comps ((n, ps) ∷ meshes) s =
    let (ps', s') = data_parts comps ps s in
    let (rest, s'') = data_meshes comps meshes s' in
    (elim ps' [ [] ↦ rest | p ∷ more ↦ (n, p ∷ more) ∷ rest ], s'')

unfoldable pub data_slots :
    List PartComponent
    → List (String × List (String × List PartObject))
    → Sheet
    → List (String × List (String × List PartObject)) × Sheet
data_slots comps [] s = ([], s)
data_slots comps ((n, meshes) ∷ slots) s =
    let (meshes', s') = data_meshes comps meshes s in
    let (rest, s'') = data_slots comps slots s' in
    (elim meshes' [ [] ↦ rest | m ∷ more ↦ (n, m ∷ more) ∷ rest ], s'')
