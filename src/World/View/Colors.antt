-- ===== src/World/View/Colors.antt =====
-- The color that a material has in a model, for class View of
-- Client/Assets/Scenes/WorldScene/WorldScript.js.
use starfall.Base.{
  ℕ, ◌==◌, ◌≡◌, refl, subst, List, [], ◌∷◌, true, false, Option, none, some, if◌then◌else◌,
  Bool-cases, inl, inr, arith,
}
use starfall.World.View.Jets.{has_material, paint_slot, paint_first}
use starfall.World.View.{Slot, Children}

module _ {C : Type 0} where
  -- The color of the first place of a material.
  abbrev pub slot_color : ℕ → List (Slot C) → Option C
  slot_color m [] = none
  slot_color m (s ∷ ss) =
      let rest = slot_color m ss in if s.material == m then some s.color else rest

  abbrev pub or_else : Option C → Option C → Option C
  or_else none rest = rest
  or_else (some c) rest = some c

  abbrev pub place_color : ℕ → Children C → Option C
  place_color m [] = none
  place_color m (none ∷ cs) = place_color m cs
  place_color m (some ss ∷ cs) = or_else (slot_color m ss) (place_color m cs)

  slot_color-has_no :
      (m : ℕ) (ss : List (Slot C)) → has_material m ss ≡ false → slot_color m ss ≡ none
  slot_color-has_no m [] h = refl
  slot_color-has_no m (s ∷ ss) h = elim (Bool-cases (s.material == m)) [
    | inl e ↦ ground arith
    | inr e ↦ ground (arith, slot_color-has_no m ss)
  ]

  slot_color-paint_slot :
      (m : ℕ) (c : C) (ss : List (Slot C))
      → has_material m ss ≡ true
      → slot_color m (paint_slot m c ss) ≡ some c
  slot_color-paint_slot m c [] h = cc
  slot_color-paint_slot m c (s ∷ ss) h = elim (Bool-cases (s.material == m)) [
    | inl e ↦ ground arith
    | inr e ↦ ground (arith, slot_color-paint_slot m c ss)
  ]

  slot_color-other :
      (m n : ℕ) (c : C) (ss : List (Slot C))
      → (m == n) ≡ false
      → slot_color m (paint_slot n c ss) ≡ slot_color m ss
  slot_color-other m n c [] h = refl
  slot_color-other m n c (s ∷ ss) h = elim (Bool-cases (s.material == n)) [
    | inl e ↦ ground arith
    | inr e ↦ ground (arith, slot_color-other m n c ss h)
  ]

  pub place_color-paint_first :
      (m : ℕ) (c a : C) (cs : Children C)
      → place_color m cs ≡ some a
      → place_color m (paint_first m c cs) ≡ some c
  place_color-paint_first m c a [] h = ground arith
  place_color-paint_first m c a (none ∷ cs) h = place_color-paint_first m c a cs h
  place_color-paint_first m c a (some ss ∷ cs) h = elim (Bool-cases (has_material m ss)) [
    | inl e ↦ rw (e, slot_color-paint_slot m c ss e)
    | inr e ↦
        let none_here = slot_color-has_no m ss e in
        rw (
          e,
          none_here,
          place_color-paint_first m c a cs
              (subst (λ o. or_else o (place_color m cs) ≡ some a) none_here h),
        )
  ]

  pub place_color-other :
      (m n : ℕ) (c : C) (cs : Children C)
      → (m == n) ≡ false
      → place_color m (paint_first n c cs) ≡ place_color m cs
  place_color-other m n c [] h = refl
  place_color-other m n c (none ∷ cs) h = place_color-other m n c cs h
  place_color-other m n c (some ss ∷ cs) h = elim (Bool-cases (has_material n ss)) [
    | inl e ↦ rw (e, slot_color-other m n c ss h)
    | inr e ↦ rw (e, place_color-other m n c cs h)
  ]
