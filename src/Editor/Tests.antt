-- ===== src/Editor/Tests.antt =====
-- A concrete character of EditCharacterGuiScript.js, and the theorems of Editor at inputs that meet their
-- hypotheses.
use starfall.Base.{
  ℕ, ◌≡◌, refl, ap, subst, List, [], ◌∷◌, length, All, true, Option, none, some, pos, ◌+ℤ◌, ◌≤ℤ◌,
  arith,
}
use starfall.Network.Runtime.{Text, text, IsUint}
use starfall.Network.Send.{console_data}
use starfall.Network.Send.Bodies.{body_bytes}
use starfall.Network.Client.{send_packets}
use starfall.Network.Tests.{floats, wire_tcp, client}
use starfall.Editor.{NamedColor, Item, Child, Buttons, new_parts, match_parts, gui_parts}
use starfall.Editor.Choosing.{InRange, AllChosen, gui_parts-AllChosen}
use starfall.Editor.Saving.{
  Components, find_part, build_entries, build_group, find_parts, build_groups, document, save,
  push_line,
}
use starfall.Editor.Saving.Entries.{all_found, printed, build_group_lem}
use starfall.Editor.Saving.Sending.{with_packet, save_lem}

-- Colors are numbers below ten, whose three components have the same text.
abbrev components : Components ℕ
components = record { r = λ c. b'0' ∷ []; g = λ c. b'0' ∷ []; b = λ c. b'1' ∷ [] }

abbrev two_colors : List (NamedColor ℕ)
two_colors =
    record { name = text "red"; color = 4 } ∷ (record { name = text "blue"; color = 5 } ∷ [])

abbrev parts : List (Item ℕ)
parts = new_parts (λ s. 7)

-- All three buttons of every part.
abbrev all_pressed : Text → Buttons
all_pressed s = record { back = true; apply = true; next = true }

at_zero : (pos 0 ≤ℤ pos 0) × (pos 0 +ℤ pos 1 ≤ℤ pos 2)
unfolding ◌+ℤ◌
at_zero = (omega arith, omega arith)

parts-InRange : All (InRange 2) parts
unfolding new_parts
parts-InRange = (
  at_zero,
  (
    at_zero,
    (
      at_zero,
      (
        at_zero,
        (
          at_zero,
          (
            at_zero,
            (at_zero, (at_zero, (at_zero, (at_zero, (at_zero, (at_zero, (at_zero, tt))))))),
          ),
        ),
      ),
    ),
  ),
)

gui_parts-AllChosen_example : AllChosen 2 (gui_parts two_colors all_pressed parts (λ n. 7))
gui_parts-AllChosen_example =
    gui_parts-AllChosen two_colors all_pressed parts (λ n. 7) (omega arith) parts-InRange

-- A mesh with one material of a part.
abbrev mesh_children : List Child
mesh_children =
    record { name = text "Helmet"; materials = some ((0, text "MaterialHelmet") ∷ []) } ∷ []

abbrev matched : List (Item ℕ)
matched = match_parts mesh_children parts

build_group_lem_example :
    build_group components (text "head") (find_parts components parts (text "Helmet" ∷ []))
    ≡ printed components
        (text "head")
        (all_found (find_parts components parts (text "Helmet" ∷ [])))
build_group_lem_example =
    build_group_lem components (text "head") (find_parts components parts (text "Helmet" ∷ []))

-- The entry of a group of one part.
helmet_text :
    build_group components (text "head") (find_parts components parts (text "Helmet" ∷ []))
    ≡ some (
        text
          "\"head\":{\"type\":\"group\",\"content\":{\"Helmet\":{\"type\" : \"color\", \"red\" : \"0\", \"green\" : \"0\", \"blue\" : \"1\"}}}")
unfolding build_group build_entries find_part new_parts
helmet_text = refl

abbrev line_of : Option Text → Text
line_of none = []
line_of (some s) = s

line-IsUint : IsUint (
    length (
      body_bytes floats console_data
        (push_line components floats wire_tcp (line_of (document components parts)) client).player))
unfolding document build_groups build_group build_entries find_part new_parts
line-IsUint = omega arith

save_lem_example :
    (line : Text) × (document components parts ≡ some line)
    × (save components floats wire_tcp parts (text "hero") client
        ≡ send_packets wire_tcp (with_packet components floats wire_tcp line client))
save_lem_example =
    save_lem components floats wire_tcp parts b'h' (text "ero") client (unfold new_parts in refl)
      (λ line e.
        subst
          (λ l. IsUint (
            length (
              body_bytes floats console_data
                (push_line components floats wire_tcp l client).player)))
          (ap line_of e) line-IsUint)
