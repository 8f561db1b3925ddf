-- ===== src/Console/House.antt =====
-- The document of ConsoleScript.js, its loading, the typing and the focus. Unity's input of a frame is an
-- argument, and the XML parser of .NET a function that fails with an XmlException.
pub mod Typing
pub mod Drawing
use Prim.Native.String.{String}
use package.text.Mathlib.Text
use starfall.Base.{
  ℕ, ◌+◌, ◌==◌, ltb, List, [], ◌∷◌, ◌++◌, map, length, drop_last, Bool, true, false, not, ◌&&◌,
  ◌||◌, Option, none, some, if◌then◌else◌, ℤ, pos, negsuc, ◌+ℤ◌, ◌-ℤ◌,
}
use starfall.Base.Action.{Result, ok, fault, xml_error, Action, pure, throw, modify, ◌>>=◌, ◌>>◌}
use starfall.Network.Runtime.{ascii_byte, text}
use starfall.Console.{
  Glyph, Colors, Screen, window_height, Nodes, no_node, element, text_node, other_node, has_nodes,
  new_line, foreground, apply_to_texture,
}

-- The state of the script: `state`, `lineOffset`, `buffer` and the texture, and whether the controls of
-- the camera have the focus.
pub record House (C : Type 0) : Type 0 where
  pub focused : Bool
  pub line_offset : ℤ
  pub buffer : List ℕ
  pub screen : Screen C
  pub camera_focused : Bool

-- A frame's input: the arrow keys that go down, and `Input.inputString`.
pub record Input : Type 0 where
  pub up : Bool
  pub down : Bool
  pub typed : List ℕ

-- The loop of `Update` over the typed characters, of which backspace is 8 and the ends of a line are 10
-- and 13.
abbrev pub type_char : List ℕ → ℕ → List ℕ
type_char buffer c =
    if c == 8
    then (if ltb 0 (length buffer) then drop_last buffer else buffer)
    else if c == 10 || c == 13
    then buffer
    else buffer ++ (c ∷ [])

unfoldable pub type_chars : List ℕ → List ℕ → List ℕ
type_chars buffer [] = buffer
type_chars buffer (c ∷ cs) = type_chars (type_char buffer c) cs

-- `"<console><heading>..." + buffer + "</block></console>"`
abbrev pub document_text : Bool → List ℕ → List ℕ
document_text true buffer =
    text "<console><heading><color name='green'>ESC</color> | edit</heading><block>"
    ++ buffer
    ++ text "</block></console>"
document_text false buffer = text "<console></console>"

module _ {C : Type 0} (unity : Colors C) (font : ℕ → Option (Glyph C))
    (load_xml : List ℕ → Option Nodes) where
  -- `Recurse`, for a node and those that follow it. It goes on to the next node from an element only.
  unfoldable pub recurse : ℤ → String → Option String → Bool → Nodes → Action (Screen C) (Unit {0})
  recurse line_offset parent color heading no_node = pure tt
  recurse line_offset parent color heading (element tag attr children next) =
      let is_block = Text.◌==◌ tag "block" in
      let heading' =
        if is_block then false else if Text.◌==◌ tag "heading" then true else heading in
      modify (λ s. if is_block then new_line unity font s else s)
      >> recurse line_offset tag attr heading' children
      >> recurse line_offset parent color heading' next
  recurse line_offset parent color heading (text_node t next) =
      apply_to_texture unity font line_offset (foreground unity font parent color) heading
        (map ascii_byte t)
  recurse line_offset parent color heading (other_node next) = pure tt

  -- `LoadTexture`, and the cursor at the top
  abbrev pub cleared : Screen C
  cleared = record { cursor_x = pos 0; cursor_y = window_height; blocks = [] }

  -- `LoadConsole(xmlData)`
  unfoldable pub load_document : ℤ → List ℕ → Action (Screen C) (Unit {0})
  load_document line_offset xml = modify (λ s. cleared) >> elim (load_xml xml) [
    | none ↦ throw xml_error
    | some nodes ↦ recurse line_offset "" none false nodes
  ]

  abbrev pub on_screen : (r : Result (Unit {0}) × Screen C) → House C → Result (Unit {0}) × House C
  on_screen (r, s) h = (r, record h { screen = s })

  -- `LoadConsole()`
  unfoldable pub load_console : Action (House C) (Unit {0})
  load_console h =
      on_screen (load_document h.line_offset (document_text h.focused h.buffer) h.screen) h

  -- `OnControlsFocus`, with the message that it sends to the camera
  unfoldable pub on_controls_focus : Bool → Action (House C) (Unit {0})
  on_controls_focus b h =
      load_console
        (record h { focused = b; camera_focused = if b then false else h.camera_focused })

  -- `Update`
  unfoldable pub update : Input → Action (House C) (Unit {0})
  update input h =
      let above = record h { line_offset = h.line_offset -ℤ pos 1 } in
      let below = record h { line_offset = h.line_offset +ℤ pos 1 } in
      let edited = record h { buffer = type_chars h.buffer input.typed } in
      if not h.focused
      then (ok tt, h)
      else if input.up
      then load_console above
      else if input.down
      then load_console below
      else if ltb 0 (length input.typed)
      then load_console edited
      else (ok tt, edited)
