-- ===== src/Editor/Saving.antt =====
-- The save dialog of EditCharacterGuiScript.js: the text that it makes of the parts and sends as a line
-- of the console. The file that it writes the text to is left out.
pub mod Entries
pub mod Sending
use Prim.Native.String.{String}
use starfall.Base.{
  ℕ, suc, ◌-◌, ◌==◌, List, [], ◌∷◌, ◌++◌, length, Bool, true, false, not, ◌&&◌, Option, none, some,
  if◌then◌else◌,
}
use starfall.Base.Action.{Result, ok, fault, null_reference, Action, pure, throw, modify, ◌>>◌}
use starfall.Network.Runtime.{Text, text, Floats}
use starfall.Network.Structs.{User, Player}
use starfall.Network.Send.{console_data, enqueue}
use starfall.Network.Client.{GameClient, TcpClient, send_packets}
use starfall.Editor.{Item, same_text}

-- A color's components as `+` writes them after a text.
pub record Components (C : Type 0) : Type 0 where
  pub r : C → Text
  pub g : C → Text
  pub b : C → Text

-- `"\"" + s + "\""`
abbrev pub quoted : Text → Text
quoted s = text "\"" ++ (s ++ text "\"")

-- The groups with the parts that are looked for by name.
abbrev pub groups : List (Text × List Text)
groups =
    (text "head", text "Helmet" ∷ (text "Visor" ∷ (text "Trim" ∷ [])))
    ∷ ((text "top", text "Body" ∷ (text "Left Arm" ∷ (text "Right Arm" ∷ [])))
        ∷ ((text "bottom", text "Torso" ∷ (text "Left Leg" ∷ (text "Right Leg" ∷ [])))
            ∷ ((text "hands", text "Left Hand" ∷ (text "Right Hand" ∷ []))
                ∷ ((text "feet", text "Left Foot" ∷ (text "Right Foot" ∷ [])) ∷ []))))

module _ {C : Type 0} (components : Components C) where
  -- `FindPart(name)`
  unfoldable pub find_part : List (Item C) → Text → Option (Item C)
  find_part [] name = none
  find_part (i ∷ parts) name =
      let rest = find_part parts name in if same_text i.name name then some i else rest

  abbrev pub entry : Item C → Text
  entry i =
      quoted i.name
      ++ (text ":{\"type\" : \"color\", \"red\" : "
          ++ (quoted (components.r i.material)
              ++ (text ", \"green\" : "
                  ++ (quoted (components.g i.material)
                      ++ (text ", \"blue\" : "
                          ++ (quoted (components.b i.material) ++ text "}"))))))

  -- The loop of `BuildGroup`, from the part `p` on, of `n`. A part that is null throws.
  abbrev pub add_entry : Option (Item C) → Bool → Option Text → Option Text
  add_entry none last rest = none
  add_entry (some i) last none = none
  add_entry (some i) last (some s) = some (entry i ++ ((if last then [] else text ", ") ++ s))

  unfoldable pub build_entries : ℕ → ℕ → List (Option (Item C)) → Option Text
  build_entries p n [] = some []
  build_entries p n (part ∷ group) = add_entry part (p == n - 1) (build_entries (suc p) n group)

  abbrev pub in_group : Text → Option Text → Option Text
  in_group name none = none
  in_group name (some s) =
      some (quoted name ++ (text ":{\"type\":\"group\",\"content\":{" ++ (s ++ text "}}")))

  -- `BuildGroup`, on what it appends
  unfoldable pub build_group : Text → List (Option (Item C)) → Option Text
  build_group name group = in_group name (build_entries 0 (length group) group)

  abbrev pub find_parts : List (Item C) → List Text → List (Option (Item C))
  find_parts parts [] = []
  find_parts parts (name ∷ names) = find_part parts name ∷ find_parts parts names

  abbrev pub with_comma : Option Text → Option Text → Option Text
  with_comma none rest = none
  with_comma (some s) none = none
  with_comma (some s) (some t) = some (s ++ (text "," ++ t))

  unfoldable pub build_groups : List (Item C) → List (Text × List Text) → Option Text
  build_groups parts [] = some []
  build_groups parts ((name, names) ∷ []) = build_group name (find_parts parts names)
  build_groups parts ((name, names) ∷ (g ∷ gs)) =
      with_comma (build_group name (find_parts parts names)) (build_groups parts (g ∷ gs))

  abbrev pub in_document : Option Text → Option Text
  in_document none = none
  in_document (some s) = some (
      text "{\"head\" : { \"name\" : \"Parts\",\"datetime\" : \"--\" },\"body\" : { "
      ++ (s ++ text "},\"foot\" : {}}"))

  -- `builder.ToString()`, if no part is null
  unfoldable pub document : List (Item C) → Option Text
  document parts = in_document (build_groups parts groups)

  module _ {F N : Type 0} (fl : Floats F) (tcp : TcpClient N) where
    abbrev pub push_line : Text → GameClient F N → GameClient F N
    push_line line c = record c {
      player = record (c.player) {
        user = record (c.player.user) {
          console_queue = c.player.user.console_queue ++ (line ∷ []);
        };
      };
    }

    abbrev pub enqueue_line : GameClient F N → GameClient F N
    enqueue_line c = let (b, p) = enqueue fl console_data c.player in record c { player = p }

    abbrev pub send_line : Option Text → Action (GameClient F N) (Unit {0})
    send_line none = throw null_reference
    send_line (some line) = modify (λ c. enqueue_line (push_line line c)) >> send_packets tcp

    -- What the button OK does, for a name of the file.
    unfoldable pub save : List (Item C) → Text → Action (GameClient F N) (Unit {0})
    save parts [] = pure tt
    save parts (c ∷ name) = send_line (document parts)
