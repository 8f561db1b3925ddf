-- ===== src/World/View/Kept.antt =====
-- Recolor of class View in Client/Assets/Scenes/WorldScene/WorldScript.js moves no material.
use starfall.Base.{ℕ, zero, suc, ◌≡◌, refl, List, [], ◌∷◌, Option, none, some}
use starfall.World.View.{
  Slot, Children, Indices, material_index_of, register, set_slot, set_color, recolor,
}

module _ {C : Type 0} where
  material_index_of-set_slot :
      (m j : ℕ) (c : C) (ss : List (Slot C))
      → material_index_of m (set_slot j c ss) ≡ material_index_of m ss
  unfolding material_index_of set_slot
  material_index_of-set_slot m j c [] = refl
  material_index_of-set_slot m zero c (s ∷ ss) = refl
  material_index_of-set_slot m (suc j) c (s ∷ ss) = rw (material_index_of-set_slot m j c ss)

  register-set_color :
      (m i j : ℕ) (c : C) (cs : Children C) → register m (set_color i j c cs) ≡ register m cs
  unfolding register set_color
  register-set_color m i j c [] = refl
  register-set_color m zero j c (none ∷ cs) = refl
  register-set_color m zero j c (some ss ∷ cs) = rw (material_index_of-set_slot m j c ss)
  register-set_color m (suc i) j c (none ∷ cs) = rw (register-set_color m i j c cs)
  register-set_color m (suc i) j c (some ss ∷ cs) = rw (register-set_color m i j c cs)

  pub register-recolor :
      (m : ℕ) (i : Option Indices) (c : C) (cs : Children C)
      → register m (recolor i c cs) ≡ register m cs
  unfolding recolor
  register-recolor m none c cs = refl
  register-recolor m (some i) c cs =
      register-set_color m i.mesh_renderer_index i.material_index c cs
