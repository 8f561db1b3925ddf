-- ===== src/World/Contents/Tests.antt =====
-- The container of a new entity over two frames, and the theorems of Contents at it.
use starfall.Base.{
  ℕ, ◌+◌, ◌*◌, ◌%◌, ◌^◌, ◌<◌, ◌==◌, ◌≡◌, refl, [], ◌∷◌, Bool, false, map, some, none, length, arith,
}
use starfall.Network.Runtime.{text}
use starfall.World.Contents.{
  Properties, label, button, Drawn, Entry, Contents, name_of, for_each, build, build_item,
  new_container, draw_items, on_contents,
}
use starfall.World.Contents.Rows.{changes, presses, shape, shown}
use starfall.World.Contents.Presses.{states, IsTurned, for_each-turns}
use starfall.World.Contents.Layout.{Spaced, last_y, on_contents-Spaced}

abbrev no_press : ℕ → Bool
no_press i = false

-- The first and the third item are opened, then nothing is pressed.
abbrev first_frame : Contents
first_frame = on_contents (λ i. i % 2 == 0) (λ i row. false) new_container

abbrev second_frame : Contents
second_frame = on_contents no_press (λ i row. row == 1) first_frame.items

heights : map (λ (e : Entry). e.y) first_frame.entries ≡ 0 ∷ (140 ∷ (160 ∷ (300 ∷ (320 ∷ []))))
unfolding on_contents draw_items new_container build for_each name_of
heights = refl

-- The end of the view is the top of the last button, whose rows are out of it.
scrolls : first_frame.scroll_height ≡ 320
unfolding on_contents draw_items new_container build for_each name_of
scrolls = refl

-- The row "Test" of an open item is pressed: its own row follows.
test_pressed :
    map (λ (e : Entry). e.group) second_frame.entries
    ≡ some (label (text "name:Helmet") ∷ (button (text "Test") ∷ (label (text "name:Test") ∷ [])))
      ∷ (none
          ∷ (some (
                label (text "name:Pants")
                ∷ (button (text "Test") ∷ (label (text "name:Test") ∷ [])))
              ∷ (none
                  ∷ (some (
                        label (text "name:Boots")
                        ∷ (button (text "Test") ∷ (label (text "name:Test") ∷ [])))
                      ∷ []))))
unfolding on_contents draw_items new_container build for_each name_of
test_pressed = refl

abbrev helmet : Properties
helmet = (build_item (text "Helmet")).properties

abbrev opened : Drawn
opened = for_each (λ i. i == 1) 0 helmet

for_each-turns_example :
    IsTurned (λ i. i == 1) 0 opened.rows (states helmet opened.left)
    × (changes helmet opened.left ≡ presses (λ i. i == 1) 0 opened.rows)
    × (shape opened.left ≡ shape helmet)
    × (opened.rows ≡ shown opened.left)
    × (opened.next ≡ 0 + length opened.rows)
for_each-turns_example = for_each-turns (λ i. i == 1) 0 helmet

fits : 140 * length first_frame.items < 2 ^ 32
unfolding on_contents draw_items new_container build for_each name_of
fits = omega arith

on_contents-Spaced_example :
    Spaced 0 second_frame.items second_frame.entries
    × (second_frame.scroll_height ≡ last_y 0 second_frame.entries)
on_contents-Spaced_example = on_contents-Spaced no_press (λ i row. row == 1) first_frame.items fits
