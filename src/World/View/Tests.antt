-- ===== src/World/View/Tests.antt =====
-- A model with three children: one has no renderer, and the jets are in the other two.
use starfall.Base.{ℕ, ◌≡◌, refl, [], ◌∷◌, some, none}
use starfall.World.View.{
  Slot, Children, View, register, recolor, material_index_of, set_color, set_slot, update_jets,
  new_view,
}
use starfall.World.View.Lit.{IsLit, update_all, jets-IsLit}

abbrev slot : ℕ → ℕ → Slot ℕ
slot m c = record { material = m; color = c }

abbrev ship : Children ℕ
ship = some (slot 7 70 ∷ slot 8 80 ∷ []) ∷ none ∷ some (slot 9 90 ∷ slot 8 81 ∷ []) ∷ []

abbrev lit : View ℕ
lit = update_all 1 2 (1 ∷ 0 ∷ 2 ∷ []) (new_view (slot 8 80) (slot 9 90) ship)

children_lit :
    lit.children ≡ some (slot 7 70 ∷ slot 8 2 ∷ []) ∷ none ∷ some (slot 9 2 ∷ slot 8 81 ∷ []) ∷ []
unfolding new_view update_jets register recolor material_index_of set_color set_slot
children_lit = refl

jets-IsLit_example : IsLit 1 2 lit
jets-IsLit_example =
    jets-IsLit 1 2 (slot 8 80) (slot 9 90) ship (1 ∷ 0 ∷ 2 ∷ []) refl refl refl
      (refl, (refl, (refl, _)))
