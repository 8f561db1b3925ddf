-- ===== src/Web/Components/DataTests.antt =====
-- The data of a helmet with two parts, and the theorem about it.
use Prim.Native.String.{String}
use text.Mathlib.TextEquality.{eq_iff}
use starfall.Base.{◌≡◌, ◌≢◌, refl, List, [], ◌∷◌, true, false}
use starfall.Web.Components.Styling.{
  Rgb, given, nth, Material, PartComponent, PartObject, Sheet, find_entry, recolor, reuse,
  number_all, assign, data_part, find_component, data_parts, data_meshes, data_slots,
}
use starfall.Web.Components.Sheets.{PartRefers}
use starfall.Web.Components.Slots.{Slots, AllSlots, data_slots-PartRefers}

abbrev red : Rgb
red = record { red = "255"; green = "0"; blue = "0" }

abbrev blue : Rgb
blue = record { red = "0"; green = "0"; blue = "255" }

abbrev material : String → Material
material n = record { name = n; color = given "7" }

abbrev visor : PartObject
visor = record { text = "visor"; materials = material "glass" ∷ (material "frame" ∷ []) }

abbrev crest : PartObject
crest = record { text = "crest"; materials = material "frame" ∷ [] }

abbrev visor_component : PartComponent
visor_component = record {
  on = true;
  part_text = "visor";
  colors =
      record { material = "glass"; current = blue }
      ∷ (record { material = "frame"; current = red } ∷ []);
}

abbrev crest_component : PartComponent
crest_component = record {
  on = true;
  part_text = "crest";
  colors = record { material = "frame"; current = red } ∷ [];
}

abbrev empty_sheet : Sheet
empty_sheet = record { style = []; next_number = 0 }

-- The crest takes the number that its color got for the visor.
shared_color :
    data_parts (visor_component ∷ (crest_component ∷ [])) (visor ∷ (crest ∷ [])) empty_sheet ≡ (
      record {
        text = "visor";
        materials =
            record { name = "glass"; color = nth 0 }
            ∷ (record { name = "frame"; color = nth 1 } ∷ []);
      }
          ∷ (record { text = "crest"; materials = record { name = "frame"; color = nth 1 } ∷ [] }
              ∷ []),
      record {
        style = record { rgb = blue; number = nth 0 } ∷ (record { rgb = red; number = nth 1 } ∷ []);
        next_number = 2;
      },
    )
unfolding data_parts find_component data_part reuse find_entry recolor assign number_all
shared_color = refl

-- A part that is off leaves its mesh and its slot empty, which are left out.
left_out :
    (data_slots
      (record crest_component { on = false } ∷ [])
      (("head", ("helmet", crest ∷ []) ∷ []) ∷ [])
      empty_sheet).0
    ≡ []
unfolding data_slots data_meshes data_parts find_component
left_out = refl

glass-ne-frame : ◌≢◌ {A = String} "glass" "frame"
glass-ne-frame e = let (_, same) = eq_iff "glass" "frame" in cc (same e)

-- The two parts stand in different slots.
abbrev slots : Slots
slots = ("head", ("helmet", visor ∷ []) ∷ []) ∷ (("top", ("crest", crest ∷ []) ∷ []) ∷ [])

abbrev both : List PartComponent
both = visor_component ∷ (crest_component ∷ [])

data_slots-PartRefers_example :
    AllSlots
      (PartRefers (data_slots both slots empty_sheet).1.style both)
      (data_slots both slots empty_sheet).0
data_slots-PartRefers_example =
    data_slots-PartRefers both slots empty_sheet (((glass-ne-frame, tt), (tt, tt)), ((tt, tt), tt))
      (((((glass-ne-frame, tt), (tt, tt)), tt), tt), ((((tt, tt), tt), tt), tt))
