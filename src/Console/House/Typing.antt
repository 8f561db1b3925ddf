-- ===== src/Console/House/Typing.antt =====
-- What a frame of ConsoleScript.js does to the text that is typed.
use starfall.Base.{
  ℕ, zero, suc, ◌==◌, ltb, ◌≡◌, refl, ap, sym, ◌∙◌, List, [], ◌∷◌, ◌++◌, append-nil, append_assoc,
  length, length-append, replicate, drop_last-append, All, Bool, true, false, not, ◌&&◌, arith,
  Option, if◌then◌else◌, pos, ◌+ℤ◌, ◌-ℤ◌,
}
use starfall.Base.Action.{ok}
use starfall.Console.{Glyph, Colors, Nodes}
use starfall.Console.House.{House, Input, type_char, type_chars, load_console, update}

-- Neither backspace nor the end of a line.
abbrev pub IsPlain : ℕ → Type 0
IsPlain c = ((c == 8) ≡ false) × ((c == 10) ≡ false) × ((c == 13) ≡ false)

type_chars-append : (b cs ds : List ℕ) → type_chars b (cs ++ ds) ≡ type_chars (type_chars b cs) ds
unfolding type_chars
type_chars-append b [] ds = refl
type_chars-append b (c ∷ cs) ds = type_chars-append (type_char b c) cs ds

type_char-plain : (b : List ℕ) (c : ℕ) → IsPlain c → type_char b c ≡ b ++ (c ∷ [])
type_char-plain b c (h8, h10, h13) = rw (h8, h10, h13) refl

type_chars-plain : (b w : List ℕ) → All IsPlain w → type_chars b w ≡ b ++ w
unfolding type_chars
type_chars-plain b [] h = sym (append-nil b)
type_chars-plain b (c ∷ w) (h, hs) =
    ap (λ x. type_chars x w) (type_char-plain b c h)
    ∙ type_chars-plain (b ++ (c ∷ [])) w hs
    ∙ append_assoc b (c ∷ []) w

replicate-snoc : (n : ℕ) → replicate {A = ℕ} (suc n) 8 ≡ replicate n 8 ++ (8 ∷ [])
replicate-snoc zero = refl
replicate-snoc (suc n) = ap (λ x. 8 ∷ x) (replicate-snoc n)

backspace : (b : List ℕ) (c : ℕ) → type_char (b ++ (c ∷ [])) 8 ≡ b
backspace b c =
    let e : ltb 0 (length (b ++ (c ∷ []))) ≡ true = ground (arith, length-append b (c ∷ [])) in
    rw e (drop_last-append b c)

erase : (b w : List ℕ) → type_chars (b ++ w) (replicate (length w) 8) ≡ b
unfolding type_chars
erase b [] = append-nil b
erase b (c ∷ w) =
    ap (type_chars (b ++ (c ∷ w))) (replicate-snoc (length w))
    ∙ type_chars-append (b ++ (c ∷ w)) (replicate (length w) 8) (8 ∷ [])
    ∙ ap (λ x. type_char (type_chars x (replicate (length w) 8)) 8)
        (sym (append_assoc b (c ∷ []) w))
    ∙ ap (λ x. type_char x 8) (erase (b ++ (c ∷ [])) w)
    ∙ backspace b c

-- As many backspaces as characters that were typed give back the text of before, if no character is a
-- backspace or the end of a line.
pub type_chars-backspaces :
    (b w : List ℕ) → All IsPlain w → type_chars b (w ++ replicate (length w) 8) ≡ b
type_chars-backspaces b w h =
    type_chars-append b w (replicate (length w) 8)
    ∙ ap (λ x. type_chars x (replicate (length w) 8)) (type_chars-plain b w h)
    ∙ erase b w

module _ {C : Type 0} (unity : Colors C) (font : ℕ → Option (Glyph C))
    (load_xml : List ℕ → Option Nodes) where
  -- The branches of a frame, for any answers of its tests and any typed characters.
  frame_keeps :
      (f u d t : Bool) (typed : List ℕ) (h : House C)
      → let above = record h { line_offset = h.line_offset -ℤ pos 1 } in
        let below = record h { line_offset = h.line_offset +ℤ pos 1 } in
        let edited = record h { buffer = type_chars h.buffer typed } in
        let (r, h') =
          if not f
          then (ok tt, h)
          else if u
          then load_console unity font load_xml above
          else if d
          then load_console unity font load_xml below
          else if t
          then load_console unity font load_xml edited
          else (ok tt, edited) in
        (h'.buffer ≡ (if f && not u && not d then type_chars h.buffer typed else h.buffer))
        × (h'.line_offset ≡ (
            if not f
            then h.line_offset
            else if u
            then h.line_offset -ℤ pos 1
            else if d
            then h.line_offset +ℤ pos 1
            else h.line_offset))
        × (h'.focused ≡ h.focused)
        × (h'.camera_focused ≡ h.camera_focused)
  unfolding load_console
  frame_keeps false u d t typed h = (refl, refl, refl, refl)
  frame_keeps true true d t typed h = (refl, refl, refl, refl)
  frame_keeps true false true t typed h = (refl, refl, refl, refl)
  frame_keeps true false false true typed h = (refl, refl, refl, refl)
  frame_keeps true false false false typed h = (refl, refl, refl, refl)

  -- A frame edits the text by the typed characters if the console has the focus and no arrow key goes
  -- down, even if the document with the new text cannot be loaded; otherwise it keeps the text. It
  -- never changes the focus, and only an arrow key moves the lines, by one.
  pub update_lem :
      (input : Input) (h : House C)
      → let (r, h') = update unity font load_xml input h in
        (h'.buffer ≡ (
          if h.focused && not input.up && not input.down
          then type_chars h.buffer input.typed
          else h.buffer))
        × (h'.line_offset ≡ (
            if not h.focused
            then h.line_offset
            else if input.up
            then h.line_offset -ℤ pos 1
            else if input.down
            then h.line_offset +ℤ pos 1
            else h.line_offset))
        × (h'.focused ≡ h.focused)
        × (h'.camera_focused ≡ h.camera_focused)
  unfolding update
  update_lem input h =
      frame_keeps h.focused input.up input.down (ltb 0 (length input.typed)) input.typed h
