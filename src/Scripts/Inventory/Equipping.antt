-- ===== src/Scripts/Inventory/Equipping.antt =====
-- When an item is equipped, and which slots are taken then.
use starfall.Base.{
  ◌≡◌, refl, ap, List, [], ◌∷◌, ◌++◌, Bool, true, false, not, ◌||◌, arith, Bool-cases, inl, inr,
}
use starfall.Scripts.Inventory.{Names, Item, has_slot, any_wears, is_taken, equip_slots, equip}

abbrev pub worn : {S : Type 0} → Bool → Item S → Item S
worn b i = record i { equipped = i.equipped || b }

module _ {S : Type 0} (names : Names S) where
  -- Some slot of the list is not taken.
  abbrev pub any_free : List S → List (Item S) → List S → Bool
  any_free defaults items [] = false
  any_free defaults items (s ∷ ss) =
      not (is_taken names defaults items s) || any_free defaults items ss

  equip_slots_lem :
      (defaults ss : List S) (before : List (Item S)) (i : Item S) (after : List (Item S))
      → equip_slots names defaults ss before i after
        ≡ worn (any_free defaults (before ++ (i ∷ after)) ss) i
  unfolding equip_slots
  equip_slots_lem defaults [] before i after = ground arith
  equip_slots_lem defaults (s ∷ ss) before i after =
      elim (Bool-cases (is_taken names defaults (before ++ (i ∷ after)) s)) [
        | inl e ↦ rw (e, equip_slots_lem defaults ss before i after)
        | inr e ↦
            rw (e, equip_slots_lem defaults ss before (record i { equipped = true }) after)
              (ap (λ b. record i { equipped = b }) (ground arith))
      ]

  -- `equip` puts an item on exactly when it was on or one of its slots was free, be the others taken
  -- or not, and changes nothing else of it.
  pub equip_lem :
      (defaults : List S) (before : List (Item S)) (i : Item S) (after : List (Item S))
      → equip names defaults before i after
        ≡ worn (any_free defaults (before ++ (i ∷ after)) i.slots) i
  unfolding equip
  equip_lem defaults before i after = equip_slots_lem defaults i.slots before i after

  any_wears-append :
      (s : S) (xs ys : List (Item S))
      → any_wears names s (xs ++ ys) ≡ (any_wears names s xs || any_wears names s ys)
  any_wears-append s [] ys = refl
  any_wears-append s (x ∷ xs) ys = ground (arith, any_wears-append s xs ys)

  -- Without a free slot among them each is taken.
  none_free :
      (defaults : List S) (items : List (Item S)) (s : S) (ss : List S)
      → any_free defaults items ss ≡ false
      → has_slot names s ss ≡ true
      → is_taken names defaults items s ≡ true
  none_free defaults items s [] h e = cc
  none_free defaults items s (t ∷ ss) h e = elim (Bool-cases (names.same s t)) [
    | inl same ↦ rw (names.same_sound s t same) (ground (arith, h))
    | inr other ↦ none_free defaults items s ss (ground (arith, h)) (ground (arith, e, other))
  ]

  -- An equipped item takes its slots, if they are among the default ones.
  equipped_takes :
      (defaults : List S) (before : List (Item S)) (i : Item S) (after : List (Item S)) (s : S)
      → i.equipped ≡ true
      → has_slot names s i.slots ≡ true
      → has_slot names s defaults ≡ true
      → is_taken names defaults (before ++ (i ∷ after)) s ≡ true
  unfolding is_taken
  equipped_takes defaults before i after s on h d =
      rw (any_wears-append s before (i ∷ after)) (ground (arith, on, h, d))

  -- Putting on more items frees no slot.
  pub worn_takes :
      (defaults : List S) (before : List (Item S)) (b : Bool) (i : Item S) (after : List (Item S))
      (s : S)
      → is_taken names defaults (before ++ (i ∷ after)) s ≡ true
      → is_taken names defaults (before ++ (worn b i ∷ after)) s ≡ true
  unfolding is_taken
  worn_takes defaults before b i after s h =
      rw (any_wears-append s before (worn b i ∷ after))
        (ground (arith, any_wears-append s before (i ∷ after), h))

  pub equip_takes :
      (defaults : List S) (before : List (Item S)) (i : Item S) (after : List (Item S)) (s : S)
      → has_slot names s i.slots ≡ true
      → has_slot names s defaults ≡ true
      → is_taken names defaults (before ++ (equip names defaults before i after ∷ after)) s ≡ true
  equip_takes defaults before i after s h d =
      let free = any_free defaults (before ++ (i ∷ after)) i.slots in
      rw (equip_lem defaults before i after) (elim (Bool-cases free) [
        | inl e ↦ equipped_takes defaults before (worn free i) after s (ground (arith, e)) h d
        | inr e ↦
            worn_takes defaults before free i after s
              (none_free defaults (before ++ (i ∷ after)) s i.slots e h)
      ])
