-- ===== src/Web/Components/Slots.antt =====
-- The whole data of a model in `Model.data` of Server/Plugins/Web/app/components.appearance.js: the slots
-- with their meshes and parts, and the style sheet.
use Prim.Native.String.{String}
use starfall.Base.{List, [], ◌∷◌, All, All-map}
use starfall.Web.Components.Styling.{
  Entry, PartComponent, PartObject, Sheet, data_parts, data_meshes, data_slots,
}
use starfall.Web.Components.Styled.{components, material_names, Distinct}
use starfall.Web.Components.Sheets.{
  PartRefers, Grows, Grows-refl, Grows-trans, data_parts-Grows, Refers-Grows, data_parts-PartRefers,
}

abbrev pub Meshes : Type 0
Meshes = List (String × List PartObject)

abbrev pub Slots : Type 0
Slots = List (String × Meshes)

-- All parts of meshes, and of slots.
abbrev pub AllMeshes : (PartObject → Type 0) → Meshes → Type 0
AllMeshes P meshes = All (λ m. All P m.1) meshes

abbrev pub AllSlots : (PartObject → Type 0) → Slots → Type 0
AllSlots P slots = All (λ s. AllMeshes P s.1) slots

-- The different materials that a part has to have.
abbrev pub HasDistinct : PartObject → Type 0
HasDistinct p = Distinct (material_names p.materials)

PartRefers-Grows :
    (es fs : List Entry) (comps : List PartComponent) (p : PartObject)
    → Grows es fs
    → PartRefers es comps p
    → PartRefers fs comps p
PartRefers-Grows es fs comps p g h = λ c e. Refers-Grows es fs c p.materials g (h c e)

AllMeshes-Grows :
    (es fs : List Entry) (comps : List PartComponent) (meshes : Meshes)
    → Grows es fs
    → AllMeshes (PartRefers es comps) meshes
    → AllMeshes (PartRefers fs comps) meshes
AllMeshes-Grows es fs comps meshes g h =
    All-map (λ m k. All-map (λ p z. PartRefers-Grows es fs comps p g z) m.1 k) meshes h

-- An entry that is left out if it is empty.
leave_out {ℓ} :
    {A : Type ℓ} (P : A → Type 0) (n : String) (xs : List A) (rest : List (String × List A))
    → All P xs
    → All (λ m. All P m.1) rest
    → All (λ m. All P m.1) (elim xs [ [] ↦ rest | x ∷ more ↦ (n, x ∷ more) ∷ rest ])
leave_out P n [] rest h k = k
leave_out P n (x ∷ more) rest h k = (h, k)

data_meshes-Grows :
    (comps : List PartComponent) (meshes : Meshes) (s : Sheet)
    → Grows s.style (data_meshes comps meshes s).1.style
unfolding data_meshes
data_meshes-Grows comps [] s = Grows-refl s.style
data_meshes-Grows comps ((n, ps) ∷ meshes) s =
    let s' = (data_parts comps ps s).1 in
    Grows-trans s.style s'.style (data_meshes comps meshes s').1.style (data_parts-Grows comps ps s)
      (data_meshes-Grows comps meshes s')

data_slots-Grows :
    (comps : List PartComponent) (slots : Slots) (s : Sheet)
    → Grows s.style (data_slots comps slots s).1.style
unfolding data_slots
data_slots-Grows comps [] s = Grows-refl s.style
data_slots-Grows comps ((n, meshes) ∷ slots) s =
    let s' = (data_meshes comps meshes s).1 in
    Grows-trans s.style s'.style (data_slots comps slots s').1.style
      (data_meshes-Grows comps meshes s) (data_slots-Grows comps slots s')

data_meshes-PartRefers :
    (comps : List PartComponent) (meshes : Meshes) (s : Sheet)
    → All (λ c. Distinct (components c.colors)) comps
    → AllMeshes HasDistinct meshes
    → AllMeshes
        (PartRefers (data_meshes comps meshes s).1.style comps)
        (data_meshes comps meshes s).0
unfolding data_meshes
data_meshes-PartRefers comps [] s d h = tt
data_meshes-PartRefers comps ((n, ps) ∷ meshes) s d (h, hs) =
    let s' = (data_parts comps ps s).1 in
    let last = (data_meshes comps meshes s').1.style in
    leave_out (PartRefers last comps) n (data_parts comps ps s).0 (data_meshes comps meshes s').0
      (All-map (λ p z. PartRefers-Grows s'.style last comps p (data_meshes-Grows comps meshes s') z)
        (data_parts comps ps s).0 (data_parts-PartRefers comps ps s d h))
      (data_meshes-PartRefers comps meshes s' d hs)

-- If each component has colors of different materials, and the materials of each part are different, then
-- in the data of a model, over all its slots and meshes, every part that is left refers to the final style
-- sheet: a material for which the part's component has a color has the number of an entry with what that
-- color's sliders say.
pub data_slots-PartRefers :
    (comps : List PartComponent) (slots : Slots) (s : Sheet)
    → All (λ c. Distinct (components c.colors)) comps
    → AllSlots HasDistinct slots
    → AllSlots (PartRefers (data_slots comps slots s).1.style comps) (data_slots comps slots s).0
unfolding data_slots
data_slots-PartRefers comps [] s d h = tt
data_slots-PartRefers comps ((n, meshes) ∷ slots) s d (h, hs) =
    let s' = (data_meshes comps meshes s).1 in
    let last = (data_slots comps slots s').1.style in
    leave_out (λ m. All (PartRefers last comps) m.1) n (data_meshes comps meshes s).0
      (data_slots comps slots s').0
      (AllMeshes-Grows s'.style last comps (data_meshes comps meshes s).0
        (data_slots-Grows comps slots s') (data_meshes-PartRefers comps meshes s d h))
      (data_slots-PartRefers comps slots s' d hs)
