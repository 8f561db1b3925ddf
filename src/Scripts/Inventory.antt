-- ===== src/Scripts/Inventory.antt =====
-- Server/Plugins/Script/Entity/inventory.js: which items of an inventory are equipped. The names of
-- slots are strings, of which only the comparison matters: an interface.
pub mod Equipping
pub mod Covering
pub mod Loading
use starfall.Base.{◌≡◌, List, [], ◌∷◌, ◌++◌, Bool, true, false, not, ◌&&◌, ◌||◌, if◌then◌else◌}

pub record Names (S : Type 0) : Type 0 where
  pub same : S → S → Bool
  pub same_sound : (s t : S) → same s t ≡ true → s ≡ t

-- An item, with `Appearance.slots.names(item.data)` as its slots.
pub record Item (S : Type 0) : Type 0 where
  pub is_apparel : Bool
  pub slots : List S
  pub equipped : Bool

module _ {S : Type 0} (names : Names S) where
  abbrev pub has_slot : S → List S → Bool
  has_slot s [] = false
  has_slot s (t ∷ ts) = names.same s t || has_slot s ts

  -- Some equipped item has the slot.
  abbrev pub any_wears : S → List (Item S) → Bool
  any_wears s [] = false
  any_wears s (i ∷ items) = (i.equipped && has_slot s i.slots) || any_wears s items

  -- `equipped()[s]`, which is undefined unless `s` is one of `Appearance.slots.defaults()`.
  unfoldable pub is_taken : List S → List (Item S) → S → Bool
  is_taken defaults items s = has_slot s defaults && any_wears s items

  -- The loop of `equip` over the slots, for the item between the others of the inventory.
  unfoldable pub equip_slots : List S → List S → List (Item S) → Item S → List (Item S) → Item S
  equip_slots defaults [] before i after = i
  equip_slots defaults (s ∷ ss) before i after =
      let put_on = record i { equipped = true } in
      equip_slots defaults ss before
        (if is_taken defaults (before ++ (i ∷ after)) s then i else put_on) after

  unfoldable pub equip : List S → List (Item S) → Item S → List (Item S) → Item S
  equip defaults before i after = equip_slots defaults i.slots before i after

  -- `findEquipment`, with the items that it has been through in front.
  unfoldable pub find_equipment : List S → List (Item S) → List (Item S) → List (Item S)
  find_equipment defaults before [] = before
  find_equipment defaults before (i ∷ after) =
      let tried = equip defaults before i after in
      find_equipment defaults (before ++ ((if i.is_apparel then tried else i) ∷ [])) after
