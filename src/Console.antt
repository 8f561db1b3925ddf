-- ===== src/Console.antt =====
-- Client/Assets/Scenes/WorldScene/structures/House/ConsoleScript.js: a console on the wall of a house,
-- whose texture is drawn with the glyphs of a font. The float cursor only has whole values: it is a
-- pair of integers.
pub mod House
pub mod Bounds
mod Tests
use Prim.Native.String.{String}
use text.Mathlib.Text
use starfall.Base.{
  ℕ, ltb, List, [], ◌∷◌, ◌++◌, map, Bool, true, false, not, ◌&&◌, Option, none, some, if◌then◌else◌,
  ℤ, pos, negsuc, ◌+ℤ◌, ◌-ℤ◌, ◌*ℤ◌, ltb_ℤ,
}
use starfall.Base.Action.{index_out_of_range, xml_error, Action, pure, throw, modify, ◌>>◌}

-- Class FontCharacter, less its place in the font's texture.
pub record Glyph (C : Type 0) : Type 0 where
  pub width : ℤ
  pub height : ℤ
  pub xoffset : ℤ
  pub yoffset : ℤ
  pub xadvance : ℤ
  pub colors : List C

-- What the drawing takes from Unity: its colors, and `backgroundTexture.GetPixels`.
pub record Colors (C : Type 0) : Type 0 where
  pub same : C → C → Bool
  pub black : C
  pub red : C
  pub white : C
  pub green : C
  pub get_pixels : ℤ → ℤ → ℤ → ℤ → List C

-- A call of `texture.SetPixels`.
pub record Block (C : Type 0) : Type 0 where
  pub x : ℤ
  pub y : ℤ
  pub width : ℤ
  pub height : ℤ
  pub pixels : List C

-- `cursor`, and the calls since `LoadTexture` has put the background on the texture.
pub record Screen (C : Type 0) : Type 0 where
  pub cursor_x : ℤ
  pub cursor_y : ℤ
  pub blocks : List (Block C)

-- `windowWidth`, `windowHeight` and `lineHeight`
abbrev pub window_width : ℤ
window_width = pos 256

abbrev pub window_height : ℤ
window_height = pos 256

abbrev pub line_height : ℤ
line_height = pos 32

-- A node, with the nodes that follow it in its parent. Of the attributes, `name` is kept.
pub data Nodes : Type 0 where
  no_node : Nodes
  element : String → Option String → Nodes → Nodes → Nodes
  text_node : List ℕ → Nodes → Nodes
  other_node : Nodes → Nodes

abbrev pub has_nodes : Nodes → Bool
has_nodes no_node = false
has_nodes nodes = true

module _ {C : Type 0} (unity : Colors C) (font : ℕ → Option (Glyph C)) where
  -- `NewLine`
  unfoldable pub new_line : Screen C → Screen C
  new_line s = record s { cursor_x = pos 0; cursor_y = s.cursor_y -ℤ line_height }

  -- `colors`, which `Start` fills
  abbrev pub color_of : String → Option C
  color_of s =
      if Text.◌==◌ s "red"
      then some unity.red
      else if Text.◌==◌ s "white"
      then some unity.white
      else if Text.◌==◌ s "green"
      then some unity.green
      else none

  -- The color of the text in a node.
  abbrev pub foreground : String → Option String → Option C
  foreground parent none = none
  foreground parent (some s) = if Text.◌==◌ parent "color" then color_of s else none

  abbrev pub pixel : Option C → C → C → C
  pixel none c back = if unity.same c unity.black then back else c
  pixel (some fore) c back = if unity.same c unity.black then back else fore

  -- The loop over the colors of a glyph. `GetPixels` gives as many for the same size.
  abbrev pub tint : Option C → List C → List C → List C
  tint fore [] back = []
  tint fore (c ∷ cs) [] = c ∷ cs
  tint fore (c ∷ cs) (b ∷ back) = pixel fore c b ∷ tint fore cs back

  -- `Rect(0,0,texture.width,texture.height).Contains(Vector2(x,y))`
  abbrev pub contains : ℤ → ℤ → Bool
  contains x y =
      not (ltb_ℤ x (pos 0))
      && ltb_ℤ x window_width
      && not (ltb_ℤ y (pos 0))
      && ltb_ℤ y window_height

  -- `placeY`, from the place that the cursor gives
  abbrev pub place_y : Bool → ℤ → ℤ
  place_y heading y =
      if heading
      then window_height -ℤ line_height
      else if ltb_ℤ y (window_height -ℤ line_height)
      then y
      else window_height

  abbrev pub place_x : ℤ → ℤ
  place_x x = if ltb_ℤ x (pos 0) then pos 0 else x

  -- The glyph at its place, if that is in the window.
  unfoldable pub put_block : Option C → Glyph C → ℤ → ℤ → Screen C → Screen C
  put_block fore g x y s =
      if contains x y
      then record s {
        blocks =
            s.blocks
            ++ (record {
              x = x;
              y = y;
              width = g.width;
              height = g.height;
              pixels = tint fore g.colors (unity.get_pixels x y g.width g.height);
            }
                ∷ []);
      }
      else s

  -- The body of the loop of `ApplyToTexture`, for a character that the font has.
  unfoldable pub draw_glyph : ℤ → Option C → Bool → Glyph C → Screen C → Screen C
  draw_glyph line_offset fore heading g s =
      let wraps = not (ltb_ℤ (s.cursor_x +ℤ g.xoffset +ℤ g.width) window_width) in
      let s' = if wraps then new_line s else s in
      let y = s'.cursor_y +ℤ g.yoffset +ℤ line_offset *ℤ line_height in
      let drawn = put_block fore g (place_x (s'.cursor_x +ℤ g.xoffset)) (place_y heading y) s' in
      record drawn { cursor_x = drawn.cursor_x +ℤ g.xadvance }

  -- `fontCharacters[b]`, of an array of 127
  abbrev pub draw_char : ℤ → Option C → Bool → ℕ → Action (Screen C) (Unit {0})
  draw_char line_offset fore heading b =
      if ltb b 127
      then elim (font b) [
        | none ↦ pure tt
        | some g ↦ modify (draw_glyph line_offset fore heading g)
      ]
      else throw index_out_of_range

  -- `ApplyToTexture`, on the bytes of the text
  unfoldable pub apply_to_texture : ℤ → Option C → Bool → List ℕ → Action (Screen C) (Unit {0})
  apply_to_texture line_offset fore heading [] = pure tt
  apply_to_texture line_offset fore heading (b ∷ bs) =
      draw_char line_offset fore heading b >> apply_to_texture line_offset fore heading bs
