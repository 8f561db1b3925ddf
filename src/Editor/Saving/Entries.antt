-- ===== src/Editor/Saving/Entries.antt =====
-- The text of a group of parts in EditCharacterGuiScript.js.
use starfall.Base.{
  ℕ, suc, ◌+◌, ◌-◌, ◌==◌, ◌≡◌, refl, ap, ◌∙◌, List, [], ◌∷◌, ◌++◌, append-nil, map, length, Bool,
  true, false, arith, Option, none, some,
}
use starfall.Network.Runtime.{Text, text}
use starfall.Editor.{Item}
use starfall.Editor.Saving.{
  Components, quoted, entry, add_entry, build_entries, in_group, build_group,
}

-- The texts with a separator between them.
abbrev pub join : Text → List Text → Text
join sep [] = []
join sep (s ∷ []) = s
join sep (s ∷ (t ∷ ts)) = s ++ (sep ++ join sep (t ∷ ts))

-- The parts of a group, if none is null.
abbrev pub found_part :
    {C : Type 0} → Option (Item C) → Option (List (Item C)) → Option (List (Item C))
found_part none rest = none
found_part (some i) none = none
found_part (some i) (some is) = some (i ∷ is)

abbrev pub all_found : {C : Type 0} → List (Option (Item C)) → Option (List (Item C))
all_found [] = some []
all_found (part ∷ group) = found_part part (all_found group)

module _ {C : Type 0} (components : Components C) where
  -- The text of a group of which no part is null.
  abbrev pub printed : Text → Option (List (Item C)) → Option Text
  printed name none = none
  printed name (some is) = some (
      quoted name
      ++ (text ":{\"type\":\"group\",\"content\":{"
          ++ (join (text ", ") (map (entry components) is) ++ text "}}")))

  abbrev pub joined : Option (List (Item C)) → Option Text
  joined none = none
  joined (some is) = some (join (text ", ") (map (entry components) is))

  only_entry :
      (part : Option (Item C)) (last : Bool)
      → last ≡ true
      → add_entry components part last (some []) ≡ joined (found_part part (some []))
  only_entry none last h = refl
  only_entry (some i) last h = rw h (ap some (append-nil (entry components i)))

  entry_before :
      (part q : Option (Item C)) (found : Option (List (Item C))) (last : Bool)
      → last ≡ false
      → add_entry components part last (joined (found_part q found))
        ≡ joined (found_part part (found_part q found))
  entry_before none q found last h = refl
  entry_before (some i) none found last h = refl
  entry_before (some i) (some j) none last h = refl
  entry_before (some i) (some j) (some is) last h = rw h refl

  build_entries-joined :
      (p n : ℕ) (group : List (Option (Item C)))
      → p + length group ≡ n
      → build_entries components p n group ≡ joined (all_found group)
  unfolding build_entries
  build_entries-joined p n [] e = refl
  build_entries-joined p n (part ∷ []) e = only_entry part (p == n - 1) (ground (arith, e))
  build_entries-joined p n (part ∷ (q ∷ group)) e =
      ap (add_entry components part (p == n - 1))
        (build_entries-joined (suc p) n (q ∷ group) (omega (arith, e)))
      ∙ entry_before part q (all_found group) (p == n - 1) (ground (arith, e))

  in_group-joined :
      (name : Text) (found : Option (List (Item C)))
      → in_group components name (joined found) ≡ printed name found
  in_group-joined name none = refl
  in_group-joined name (some is) = refl

  -- The text of a group has the entries of its parts in their order, with a comma between any two and
  -- none behind the last, be the parts none, one or more; and one part that is null makes it throw.
  pub build_group_lem :
      (name : Text) (group : List (Option (Item C)))
      → build_group components name group ≡ printed name (all_found group)
  unfolding build_group
  build_group_lem name group =
      ap (in_group components name) (build_entries-joined 0 (length group) group (omega arith))
      ∙ in_group-joined name (all_found group)
