-- ===== src/Scripts/Tests.antt =====
-- Concrete inventories, and the theorems of Scripts at inputs that meet their hypotheses.
use starfall.Base.{ℕ, ◌==◌, ◌≡◌, refl, List, [], ◌∷◌, ◌++◌, true, false, arith}
use starfall.Scripts.Inventory.{Names, Item, is_taken, equip_slots, equip, find_equipment}
use starfall.Scripts.Inventory.Covering.{find_equipment_covers}

eq_sound : (s t : ℕ) → (s == t) ≡ true → s ≡ t
eq_sound s t h = ground (arith, h)

-- Slots named by numbers: the head is 0, the top is 1 and the bottom is 2.
abbrev numbers : Names ℕ
numbers = record { same = λ s t. s == t; same_sound = eq_sound }

abbrev all_slots : List ℕ
all_slots = 0 ∷ (1 ∷ (2 ∷ []))

abbrev shirt : Item ℕ
shirt = record { is_apparel = true; slots = 1 ∷ []; equipped = true }

-- An item for the top and the bottom.
abbrev suit : Item ℕ
suit = record { is_apparel = true; slots = 1 ∷ (2 ∷ []); equipped = false }

-- The suit is put on although the shirt is worn on the top, since the bottom is free.
suit_conflicts : equip numbers all_slots (shirt ∷ []) suit [] ≡ record suit { equipped = true }
unfolding equip is_taken equip_slots
suit_conflicts = refl

find_equipment_covers_example :
    is_taken numbers all_slots (find_equipment numbers all_slots [] ((shirt ∷ []) ++ (suit ∷ []))) 2
    ≡ true
find_equipment_covers_example =
    find_equipment_covers numbers all_slots (shirt ∷ []) suit [] 2 refl refl refl
