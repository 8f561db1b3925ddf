-- ===== src/World/View/Jets.antt =====
-- Where Register and Recolor of class View in Client/Assets/Scenes/WorldScene/WorldScript.js color.
use starfall.Base.{
  ℕ, ◌==◌, ◌≡◌, refl, ap, ◌∙◌, List, [], ◌∷◌, Bool, true, false, Option, none, some, if◌then◌else◌,
  Bool-cases, inl, inr,
}
use starfall.World.View.{
  Slot, Children, Indices, one_more, material_index_of, next_child, first_found, register, set_slot,
  set_color, recolor,
}

abbrev pub is_found : Option ℕ → Bool
is_found none = false
is_found (some j) = true

is_found_more : (j : Option ℕ) → is_found (one_more j) ≡ is_found j
is_found_more none = refl
is_found_more (some j) = refl

module _ {C : Type 0} where
  abbrev pub has_material : ℕ → List (Slot C) → Bool
  has_material m [] = false
  has_material m (s ∷ ss) = let rest = has_material m ss in if s.material == m then true else rest

  abbrev pub paint_slot : ℕ → C → List (Slot C) → List (Slot C)
  paint_slot m c [] = []
  paint_slot m c (s ∷ ss) =
      let rest = s ∷ paint_slot m c ss in
      if s.material == m then record s { color = c } ∷ ss else rest

  -- The first material `m`, in the order of the children and of their renderers, gets the color.
  abbrev pub paint_first : ℕ → C → Children C → Children C
  paint_first m c [] = []
  paint_first m c (none ∷ cs) = none ∷ paint_first m c cs
  paint_first m c (some ss ∷ cs) =
      let rest = some ss ∷ paint_first m c cs in
      if has_material m ss then some (paint_slot m c ss) ∷ cs else rest

  abbrev recolor_slot : Option ℕ → C → List (Slot C) → List (Slot C)
  recolor_slot none c ss = ss
  recolor_slot (some j) c ss = set_slot j c ss

  recolor_slot_more :
      (j : Option ℕ) (c : C) (s : Slot C) (ss : List (Slot C))
      → recolor_slot (one_more j) c (s ∷ ss) ≡ s ∷ recolor_slot j c ss
  unfolding set_slot
  recolor_slot_more none c s ss = refl
  recolor_slot_more (some j) c s ss = refl

  is_found-material_index_of :
      (m : ℕ) (ss : List (Slot C)) → is_found (material_index_of m ss) ≡ has_material m ss
  unfolding material_index_of
  is_found-material_index_of m [] = refl
  is_found-material_index_of m (s ∷ ss) = elim (Bool-cases (s.material == m)) [
    | inl e ↦ rw e
    | inr e ↦ rw (e, is_found_more (material_index_of m ss), is_found-material_index_of m ss)
  ]

  recolor_slot-material_index_of :
      (m : ℕ) (c : C) (ss : List (Slot C))
      → recolor_slot (material_index_of m ss) c ss ≡ paint_slot m c ss
  unfolding material_index_of set_slot
  recolor_slot-material_index_of m c [] = refl
  recolor_slot-material_index_of m c (s ∷ ss) = elim (Bool-cases (s.material == m)) [
    | inl e ↦ rw e
    | inr e ↦
        rw (e, recolor_slot_more (material_index_of m ss), recolor_slot-material_index_of m c ss)
  ]

  recolor_next :
      (i : Option Indices) (c : C) (x : Option (List (Slot C))) (cs : Children C)
      → recolor (next_child i) c (x ∷ cs) ≡ x ∷ recolor i c cs
  unfolding recolor set_color
  recolor_next none c x cs = refl
  recolor_next (some i) c x cs = refl

  recolor_first :
      (j : Option ℕ) (i : Option Indices) (c : C) (ss : List (Slot C)) (cs : Children C)
      → recolor (first_found j (next_child i)) c (some ss ∷ cs)
        ≡ (if is_found j then some (recolor_slot j c ss) ∷ cs else some ss ∷ recolor i c cs)
  unfolding recolor set_color
  recolor_first none i c ss cs = recolor_next i c (some ss) cs
  recolor_first (some j) i c ss cs = refl

  -- Coloring what Register recorded for a material gives the color to the first place of that
  -- material, in the order of the children and of their materials, and leaves all else as it was;
  -- a material that no child has colors nothing.
  pub recolor-register :
      (m : ℕ) (c : C) (cs : Children C) → recolor (register m cs) c cs ≡ paint_first m c cs
  unfolding recolor register
  recolor-register m c [] = refl
  recolor-register m c (none ∷ cs) =
      recolor_next (register m cs) c none cs ∙ ap (λ r. none ∷ r) (recolor-register m c cs)
  recolor-register m c (some ss ∷ cs) = rw (
    recolor_first (material_index_of m ss) (register m cs) c ss cs,
    is_found-material_index_of m ss,
    recolor_slot-material_index_of m c ss,
    recolor-register m c cs,
  )
