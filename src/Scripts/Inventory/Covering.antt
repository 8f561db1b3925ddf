-- ===== src/Scripts/Inventory/Covering.antt =====
-- Which slots are taken after `findEquipment`.
use starfall.Base.{
  ◌≡◌, sym, subst, List, [], ◌∷◌, ◌++◌, Bool, true, false, append-nil, append_assoc, if◌then◌else◌,
}
use starfall.Scripts.Inventory.{Names, Item, has_slot, is_taken, equip, find_equipment}
use starfall.Scripts.Inventory.Equipping.{any_free, equip_lem, worn_takes, equip_takes}

module _ {S : Type 0} (names : Names S) (defaults : List S) (s : S) where
  -- The slot is taken.
  abbrev Taken : List (Item S) → Type 0
  Taken items = is_taken names defaults items s ≡ true

  -- The item as the loop leaves it; `apparel` is its test.
  abbrev next_item : Bool → List (Item S) → Item S → List (Item S) → Item S
  next_item apparel before i after = if apparel then equip names defaults before i after else i

  next_item-Taken :
      (apparel : Bool) (before : List (Item S)) (i : Item S) (after : List (Item S))
      → Taken (before ++ (i ∷ after))
      → Taken (before ++ (next_item apparel before i after ∷ after))
  next_item-Taken false before i after h = h
  next_item-Taken true before i after h = rw (equip_lem names defaults before i after) (
      worn_takes names defaults before (any_free names defaults (before ++ (i ∷ after)) i.slots) i
        after s h)

  find_equipment-Taken :
      (before after : List (Item S))
      → Taken (before ++ after)
      → Taken (find_equipment names defaults before after)
  unfolding find_equipment
  find_equipment-Taken before [] h = subst Taken (append-nil before) h
  find_equipment-Taken before (i ∷ after) h =
      find_equipment-Taken (before ++ (next_item i.is_apparel before i after ∷ [])) after
        (rw (append_assoc before) (next_item-Taken i.is_apparel before i after h))

  find_from :
      (front before : List (Item S)) (i : Item S) (back : List (Item S))
      → i.is_apparel ≡ true
      → has_slot names s i.slots ≡ true
      → has_slot names s defaults ≡ true
      → Taken (find_equipment names defaults before (front ++ (i ∷ back)))
  unfolding find_equipment
  find_from [] before i back a h d =
      find_equipment-Taken (before ++ (next_item i.is_apparel before i back ∷ [])) back (
        rw (append_assoc before) (
          subst (λ b. Taken (before ++ (next_item b before i back ∷ back))) (sym a)
            (equip_takes names defaults before i back s h d)))
  find_from (j ∷ front) before i back a h d = find_from front _ i back a h d

-- After `findEquipment` every default slot for which the inventory has an item that is apparel is taken.
pub find_equipment_covers :
    {S : Type 0} (names : Names S) (defaults : List S) (front : List (Item S)) (i : Item S)
    (back : List (Item S)) (s : S)
    → i.is_apparel ≡ true
    → has_slot names s i.slots ≡ true
    → has_slot names s defaults ≡ true
    → is_taken names defaults (find_equipment names defaults [] (front ++ (i ∷ back))) s ≡ true
find_equipment_covers names defaults front i back s a h d =
    find_from names defaults s front [] i back a h d
