-- ===== src/Editor.antt =====
-- Client/Assets/Scenes/EditCharacterScene/EditCharacterGuiScript.js: the parts of the character, the
-- buttons that choose their colors, and the colors of the materials on the mesh.
pub mod Choosing
pub mod Mesh
pub mod Saving
mod Tests
use Prim.Native.String.{String}
use starfall.Base.{
  ℕ, ◌==◌, ltb, List, [], ◌∷◌, ◌++◌, map, length, get_elem?, Bool, true, false, not, ◌&&◌, Option,
  none, some, if◌then◌else◌, ℤ, pos, negsuc, pos_part, ◌+ℤ◌, ◌-ℤ◌, ltb_ℤ,
}
use starfall.Base.Action.{
  Result, ok, fault, index_out_of_range, Action, pure, throw, gets, ◌>>=◌, ◌>>◌,
}
use starfall.Network.Runtime.{Text, text}

-- Class EditCharacterColor
pub record NamedColor (C : Type 0) : Type 0 where
  pub name : Text
  pub color : C

-- Class EditCharacterItem. The two materials that it makes are their colors, and `renderedMaterial` is
-- the number of a material of the mesh, or null.
pub record Item (C : Type 0) : Type 0 where
  pub name : Text
  pub replace_part : Text
  pub replace_material : Text
  pub material : C
  pub original : C
  pub rendered : Option ℕ
  pub selected : ℤ

-- A child of the player's object: its name and, if it has a mesh renderer, the shared materials with
-- their numbers and names.
pub record Child : Type 0 where
  pub name : Text
  pub materials : Option (List (ℕ × Text))

-- Which of the three buttons of a part are down in a frame.
pub record Buttons : Type 0 where
  pub back : Bool
  pub apply : Bool
  pub next : Bool

abbrev pub same_text : List ℕ → List ℕ → Bool
same_text [] [] = true
same_text (a ∷ s) (b ∷ t) = if a == b then same_text s t else false
same_text _ _ = false

-- `selectedColor == -1`
abbrev pub is_unset : ℤ → Bool
is_unset (pos n) = false
is_unset (negsuc n) = n == 0

module _ {C : Type 0} where
  -- `EditCharacterItem(n, rp, rm, m)`
  abbrev pub new_item : Text → Text → Text → C → Item C
  new_item n rp rm m = record {
    name = n;
    replace_part = rp;
    replace_material = rm;
    material = m;
    original = m;
    rendered = none;
    selected = pos 0;
  }

  -- `parts`, of the thirteen materials that the inspector gives, here by the names of the parts
  unfoldable pub new_parts : (Text → C) → List (Item C)
  new_parts m =
      let item : String → String → String → Item C =
        λ n rp rm. new_item (text n) (text rp) (text rm) (m (text n)) in
      item "Helmet" "Helmet" "MaterialHelmet"
      ∷ (item "Visor" "Helmet" "MaterialVisor"
          ∷ (item "Trim" "Helmet" "MaterialVisorEdge"
              ∷ (item "Body" "Body" "MaterialBody"
                  ∷ (item "Torso" "Torso" "MaterialTorso"
                      ∷ (item "Right Leg" "Right_Leg" "RightLegMaterial"
                          ∷ (item "Right Foot" "Right_Foot" "RightFootMaterial"
                              ∷ (item "Right Arm" "Right_Arm" "RightArmMainMaterial"
                                  ∷ (item "Right Hand" "Right_Hand" "RightHandMaterial"
                                      ∷ (item "Left Leg" "Left_Leg" "LeftLegMaterial"
                                          ∷ (item "Left Foot" "Left_Foot" "LeftFootMaterial"
                                              ∷ (item "Left Arm" "Left_Arm" "LeftArmMainMaterial"
                                                  ∷ (item "Left Hand" "Left_Hand" "LeftHandMaterial"
                                                      ∷ []))))))))))))

  -- The loop over the shared materials of a child that has the part's name.
  abbrev pub match_materials : List (ℕ × Text) → Item C → Item C
  match_materials [] i = i
  match_materials ((n, name) ∷ ms) i =
      match_materials ms
        (if same_text i.replace_material name then record i { rendered = some n } else i)

  abbrev pub match_renderer : Option (List (ℕ × Text)) → Item C → Item C
  match_renderer none i = i
  match_renderer (some ms) i = match_materials ms i

  -- The loops of `Start` over the children and the parts.
  unfoldable pub match_parts : List Child → List (Item C) → List (Item C)
  match_parts [] parts = parts
  match_parts (c ∷ cs) parts =
      match_parts cs (
        map (λ i. if same_text i.replace_part c.name then match_renderer c.materials i else i)
          parts)

  -- The colors of the materials on the mesh.
  abbrev pub paint : Option ℕ → C → (ℕ → C) → ℕ → C
  paint none c mesh n = mesh n
  paint (some m) c mesh n = if m == n then c else mesh n

  -- `ApplyMaterialColor`
  abbrev pub apply_color : C → Item C × (ℕ → C) → Item C × (ℕ → C)
  apply_color c (i, mesh) = (record i { material = c }, paint i.rendered c mesh)

  -- `OnDestroy`, with `ResetMaterial` of every part, less the end of the client
  unfoldable pub on_destroy : List (Item C) → (ℕ → C) → ℕ → C
  on_destroy [] mesh = mesh
  on_destroy (i ∷ parts) mesh = on_destroy parts (paint i.rendered i.original mesh)

  -- `colors[i]`
  abbrev pub color_at : List (NamedColor C) → ℤ → Option (NamedColor C)
  color_at colors (pos n) = get_elem? colors n
  color_at colors (negsuc n) = none

  abbrev pub press_back : Bool → Item C → Item C
  press_back b i =
      if b && ltb_ℤ (negsuc 0) (i.selected -ℤ pos 1)
      then record i { selected = i.selected -ℤ pos 1 }
      else i

  abbrev pub press_next : ℕ → Bool → Item C → Item C
  press_next n b i =
      if b && ltb_ℤ (i.selected +ℤ pos 1) (pos n)
      then record i { selected = i.selected +ℤ pos 1 }
      else i

  abbrev pub press_apply : Bool → NamedColor C → Item C × (ℕ → C) → Item C × (ℕ → C)
  press_apply b c (i, mesh) =
      if b && not (is_unset i.selected) then apply_color c.color (i, mesh) else (i, mesh)

  -- What the middle button, whose label is the color's name, and the right one do.
  abbrev pub choose :
      ℕ
      → Buttons
      → Option (NamedColor C)
      → Item C × (ℕ → C)
      → Result (Unit {0}) × (Item C × (ℕ → C))
  choose n b none s = (fault index_out_of_range, s)
  choose n b (some c) s =
      let (i, mesh) = press_apply b.apply c s in (ok tt, (press_next n b.next i, mesh))

  -- The body of the loop of `OnGUI`, for a part.
  unfoldable pub gui_part :
      List (NamedColor C) → Buttons → Item C × (ℕ → C) → Result (Unit {0}) × (Item C × (ℕ → C))
  gui_part colors b (i, mesh) =
      let back = press_back b.back i in
      if ltb 0 (length colors)
      then choose (length colors) b (color_at colors back.selected) (back, mesh)
      else (ok tt, (i, mesh))

  abbrev pub after_part :
      Result (Unit {0}) × (Item C × (ℕ → C))
      → List (Item C)
      → ((ℕ → C) → Result (Unit {0}) × (List (Item C) × (ℕ → C)))
      → Result (Unit {0}) × (List (Item C) × (ℕ → C))
  after_part (fault e, (i, mesh)) parts k = (fault e, (i ∷ parts, mesh))
  after_part (ok a, (i, mesh)) parts k = let (r, (is, mesh')) = k mesh in (r, (i ∷ is, mesh'))

  -- The loop of `OnGUI`, with the buttons of each part.
  unfoldable pub gui_parts :
      List (NamedColor C)
      → (Text → Buttons)
      → List (Item C)
      → (ℕ → C)
      → Result (Unit {0}) × (List (Item C) × (ℕ → C))
  gui_parts colors b [] mesh = (ok tt, ([], mesh))
  gui_parts colors b (i ∷ parts) mesh =
      after_part (gui_part colors (b i.name) (i, mesh)) parts (gui_parts colors b parts)
