-- ===== src/Console/Tests.antt =====
-- A concrete console of ConsoleScript.js, and the theorems of Console at inputs that meet their
-- hypotheses.
use starfall.Base.{
  ℕ, ◌==◌, leb, ◌≡◌, refl, ap, subst, List, [], ◌∷◌, length, true, false, Option, none, some,
  if◌then◌else◌, pos, negsuc, ◌+ℤ◌, ◌-ℤ◌, ◌*ℤ◌, arith, inl, inr, Bool-cases,
}
use starfall.Base.Action.{fault, xml_error}
use starfall.Console.{
  Glyph, Colors, Nodes, no_node, element, text_node, new_line, put_block, draw_glyph,
  apply_to_texture,
}
use starfall.Console.Bounds.{Fits}
use starfall.Console.House.{
  House, document_text, Input, type_chars, recurse, load_document, load_console, update,
}
use starfall.Console.House.Drawing.{Shown, load_console-Shown}

-- Colors named by numbers, with black as 0.
abbrev colors : Colors ℕ
colors = record {
  same = λ a b. a == b;
  black = 0;
  red = 1;
  white = 2;
  green = 3;
  get_pixels = λ x y w h. 9 ∷ (9 ∷ []);
}

-- A glyph of two pixels, of which the first is black.
abbrev glyph : Glyph ℕ
glyph = record {
  width = pos 2;
  height = pos 1;
  xoffset = pos 1;
  yoffset = pos 0;
  xadvance = pos 4;
  colors = 0 ∷ (5 ∷ []);
}

abbrev font : ℕ → Option (Glyph ℕ)
font b = if b == b'a' then some glyph else none

glyph-Fits : Fits glyph
unfolding ◌+ℤ◌
glyph-Fits = (omega arith, omega arith)

abbrev value_of : Option (Glyph ℕ) → Glyph ℕ
value_of none = glyph
value_of (some g) = g

font-Fits : (c : ℕ) (g : Glyph ℕ) → font c ≡ some g → Fits g
font-Fits c g h = elim (Bool-cases (c == b'a')) [
  | inl e ↦
      let same : some glyph ≡ some g = subst (λ b. (if b then some glyph else none) ≡ some g) e h in
      subst Fits (ap value_of same) glyph-Fits
  | inr e ↦
      let other : none ≡ some g = subst (λ b. (if b then some glyph else none) ≡ some g) e h in
      absurd (cc)
]

-- A document with a green title and a block of text that a colored text follows.
abbrev document : Nodes
document =
    element "console" none
      (element "heading" none
        (element "color" (some "green") (text_node (b'a' ∷ []) no_node) no_node)
        (element "block" none
          (text_node (b'a' ∷ [])
            (element "color" (some "red") (text_node (b'a' ∷ []) no_node) no_node))
          no_node))
      no_node

abbrev load : List ℕ → Option Nodes
load xml =
    if leb (length xml) 19 then some (element "console" none no_node no_node) else some document

abbrev house : House ℕ
house = record {
  focused = true;
  line_offset = negsuc 0;
  buffer = b'a' ∷ [];
  screen = record { cursor_x = pos 0; cursor_y = pos 256; blocks = [] };
  camera_focused = false;
}

load_console-Shown_example :
    Shown
      (load (document_text true (b'a' ∷ [])))
      (load_console colors font load house).1.screen.blocks
load_console-Shown_example = load_console-Shown colors font load font-Fits house

-- The colored text behind the text of the block is not drawn.
text_ends :
    let (r, h) = load_console colors font load house in
    h.screen.blocks
    ≡ record { x = pos 1; y = pos 224; width = pos 2; height = pos 1; pixels = 9 ∷ (3 ∷ []) }
      ∷ (record { x = pos 1; y = pos 192; width = pos 2; height = pos 1; pixels = 9 ∷ (5 ∷ []) }
          ∷ [])
unfolding load_console load_document recurse apply_to_texture draw_glyph put_block new_line ◌+ℤ◌
    ◌-ℤ◌ ◌*ℤ◌
text_ends = refl

abbrev typing : Input
typing = record { up = false; down = false; typed = b'<' ∷ [] }

-- A parser that takes no text.
abbrev refuse : List ℕ → Option Nodes
refuse xml = none

-- The exception that a text with a `<` ends in, with the text kept.
update_throws :
    let (r, h) = update colors font refuse typing house in
    (r ≡ fault xml_error) × (h.buffer ≡ b'a' ∷ (b'<' ∷ []))
unfolding update load_console load_document type_chars
update_throws = (refl, refl)
