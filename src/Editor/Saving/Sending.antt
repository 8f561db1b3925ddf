-- ===== src/Editor/Saving/Sending.antt =====
-- What the button OK of EditCharacterGuiScript.js sends.
use starfall.Base.{
  ℕ, ◌≡◌, refl, ap, subst, ◌∙◌, List, [], ◌∷◌, map, length, Bool, true, false, arith, Option, none,
  some, if◌then◌else◌, inl, inr, Bool-cases,
}
use starfall.Network.Runtime.{Text, Floats, IsUint}
use starfall.Network.Send.{console_data, opcode_of}
use starfall.Network.Send.Bodies.{sent_packet, queue_packet, body_bytes, drained, enqueue_lem}
use starfall.Network.Client.{GameClient, TcpClient, send_packets}
use starfall.Editor.{Item, same_text}
use starfall.Editor.Saving.{
  Components, find_part, build_group, groups, find_parts, with_comma, build_groups, in_document,
  document, push_line, send_line, save,
}
use starfall.Editor.Saving.Entries.{all_found, found_part, printed, build_group_lem}

abbrev pub part_name : {C : Type 0} → Item C → Text
part_name i = i.name

abbrev pub is_some : {A : Type 0} → Option A → Bool
is_some none = false
is_some (some a) = true

abbrev pub has_name : Text → List Text → Bool
has_name name [] = false
has_name name (s ∷ names) =
    let rest = has_name name names in if same_text s name then true else rest

abbrev pub have_names : List Text → List Text → Bool
have_names [] names = true
have_names (s ∷ ss) names =
    let rest = have_names ss names in if has_name s names then rest else false

-- The names that the groups look for are among these.
abbrev pub cover : List (Text × List Text) → List Text → Bool
cover [] names = true
cover ((g, ss) ∷ gs) names =
    let rest = cover gs names in if have_names ss names then rest else false

module _ {C : Type 0} (components : Components C) where
  find_part-some :
      (parts : List (Item C)) (name : Text)
      → has_name name (map part_name parts) ≡ true
      → is_some (find_part components parts name) ≡ true
  unfolding find_part
  find_part-some [] name h = absurd (ground (arith, h))
  find_part-some (i ∷ parts) name h = elim (Bool-cases (same_text i.name name)) [
    | inl e ↦ rw e refl
    | inr e ↦ rw e (
        find_part-some parts name
          (subst (λ b. (if b then true else has_name name (map part_name parts)) ≡ true) e h))
  ]

  found_part-some :
      (part : Option (Item C)) (rest : Option (List (Item C)))
      → is_some part ≡ true
      → is_some rest ≡ true
      → is_some (found_part part rest) ≡ true
  found_part-some none rest h k = h
  found_part-some (some i) none h k = k
  found_part-some (some i) (some is) h k = refl

  all_found-some :
      (parts : List (Item C)) (names : List Text)
      → have_names names (map part_name parts) ≡ true
      → is_some (all_found (find_parts components parts names)) ≡ true
  all_found-some parts [] h = refl
  all_found-some parts (s ∷ names) h =
      found_part-some (find_part components parts s) (all_found (find_parts components parts names))
        (find_part-some parts s (ground (arith, h)))
        (all_found-some parts names (ground (arith, h)))

  printed-some :
      (name : Text) (found : Option (List (Item C)))
      → is_some found ≡ true
      → is_some (printed components name found) ≡ true
  printed-some name none h = h
  printed-some name (some is) h = refl

  build_group-some :
      (name : Text) (parts : List (Item C)) (names : List Text)
      → have_names names (map part_name parts) ≡ true
      → is_some (build_group components name (find_parts components parts names)) ≡ true
  build_group-some name parts names h =
      ap is_some (build_group_lem components name (find_parts components parts names))
      ∙ printed-some name (all_found (find_parts components parts names))
          (all_found-some parts names h)

  with_comma-some :
      (s t : Option Text)
      → is_some s ≡ true
      → is_some t ≡ true
      → is_some (with_comma components s t) ≡ true
  with_comma-some none t h k = h
  with_comma-some (some s) none h k = k
  with_comma-some (some s) (some t) h k = refl

  build_groups-some :
      (parts : List (Item C)) (gs : List (Text × List Text))
      → cover gs (map part_name parts) ≡ true
      → is_some (build_groups components parts gs) ≡ true
  unfolding build_groups
  build_groups-some parts [] h = refl
  build_groups-some parts ((name, names) ∷ []) h =
      build_group-some name parts names (ground (arith, h))
  build_groups-some parts ((name, names) ∷ (g ∷ gs)) h =
      with_comma-some (build_group components name (find_parts components parts names))
        (build_groups components parts (g ∷ gs))
        (build_group-some name parts names (ground (arith, h)))
        (build_groups-some parts (g ∷ gs) (ground (arith, h)))

  in_document-some :
      (s : Option Text) → is_some s ≡ true → (line : Text) × (in_document components s ≡ some line)
  in_document-some none h = absurd (ground (arith, h))
  in_document-some (some s) h = (_, refl)

  document-some :
      (parts : List (Item C))
      → cover groups (map part_name parts) ≡ true
      → (line : Text) × (document components parts ≡ some line)
  unfolding document
  document-some parts h =
      in_document-some (build_groups components parts groups) (build_groups-some parts groups h)

  module _ {F N : Type 0} (fl : Floats F) (tcp : TcpClient N) where
    -- The client with the packet of its console lines and one more at the end of the send queue.
    abbrev pub with_packet : Text → GameClient F N → GameClient F N
    with_packet line c =
        let p = (push_line components fl tcp line c).player in
        record c {
          player =
              queue_packet (sent_packet (opcode_of console_data) (body_bytes fl console_data p))
                (drained fl console_data p);
        }

    send_line_lem :
        (line : Text) (c : GameClient F N)
        → IsUint (length (body_bytes fl console_data (push_line components fl tcp line c).player))
        → send_line components fl tcp (some line) c ≡ send_packets tcp (with_packet line c)
    send_line_lem line c h =
        ap (λ r. let (b, p) = r in send_packets tcp (record c { player = p }))
          (enqueue_lem fl console_data (push_line components fl tcp line c).player h)

    -- OK, with a name for the file, makes a text of the parts and sends it: behind the packets that wait,
    -- in one packet of type 2 with the console lines that wait before it. No part that a group asks for
    -- may be missing, and the length of the packet's body must be a `uint`.
    pub save_lem :
        (parts : List (Item C)) (x : ℕ) (name : Text) (c : GameClient F N)
        → cover groups (map part_name parts) ≡ true
        → ((line : Text)
            → document components parts ≡ some line
            → IsUint
                (length (body_bytes fl console_data (push_line components fl tcp line c).player)))
        → (line : Text) × (document components parts ≡ some line)
          × (save components fl tcp parts (x ∷ name) c ≡ send_packets tcp (with_packet line c))
    unfolding save
    save_lem parts x name c h k =
        let (line, e) = document-some parts h in
        (line, e, ap (λ o. send_line components fl tcp o c) e ∙ send_line_lem line c (k line e))
