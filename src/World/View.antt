-- ===== src/World/View.antt =====
-- class View of Client/Assets/Scenes/WorldScene/WorldScript.js: the materials of the jets, which Register
-- finds among the children of the model and Recolor colors. A material is its number,
-- which its copy in a renderer keeps: Unity copies a shared material when its color is set.
pub mod Jets
pub mod Colors
pub mod Kept
pub mod Lit
mod Tests
use starfall.Base.{ℕ, zero, suc, ◌==◌, List, [], ◌∷◌, Bool, Option, none, some, if◌then◌else◌}

-- A material of a mesh renderer, with the color that it has there; a child without renderer is `none`.
pub record Slot (C : Type 0) : Type 0 where
  pub material : ℕ
  pub color : C

abbrev pub Children : Type 0 → Type 0
Children C = List (Option (List (Slot C)))

-- `Indices`
pub record Indices : Type 0 where
  pub mesh_renderer_index : ℕ
  pub material_index : ℕ

-- `recolorTable` has the two materials as its keys.
pub record View (C : Type 0) : Type 0 where
  pub children : Children C
  pub top_material : Slot C
  pub bottom_material : Slot C
  pub top_indices : Option Indices
  pub bottom_indices : Option Indices
  pub state : ℕ

-- The loop over the materials of a renderer, which counts `materialIndex`.
abbrev pub one_more : Option ℕ → Option ℕ
one_more none = none
one_more (some j) = some (suc j)

-- `Register`, which counts `meshRendererIndex` over all children.
abbrev pub next_child : Option Indices → Option Indices
next_child none = none
next_child (some i) = some (record i { mesh_renderer_index = suc i.mesh_renderer_index })

abbrev pub first_found : Option ℕ → Option Indices → Option Indices
first_found none rest = rest
first_found (some j) rest = some (record { mesh_renderer_index = zero; material_index = j })

module _ {C : Type 0} where
  unfoldable pub material_index_of : ℕ → List (Slot C) → Option ℕ
  material_index_of m [] = none
  material_index_of m (s ∷ ss) =
      let rest = one_more (material_index_of m ss) in if s.material == m then some zero else rest

  unfoldable pub register : ℕ → Children C → Option Indices
  register m [] = none
  register m (none ∷ cs) = next_child (register m cs)
  register m (some ss ∷ cs) = first_found (material_index_of m ss) (next_child (register m cs))

  -- `meshRenderer.materials[...].color = color`
  unfoldable pub set_slot : ℕ → C → List (Slot C) → List (Slot C)
  set_slot j c [] = []
  set_slot zero c (s ∷ ss) = record s { color = c } ∷ ss
  set_slot (suc j) c (s ∷ ss) = s ∷ set_slot j c ss

  abbrev pub set_renderer : ℕ → C → Option (List (Slot C)) → Option (List (Slot C))
  set_renderer j c none = none
  set_renderer j c (some ss) = some (set_slot j c ss)

  unfoldable pub set_color : ℕ → ℕ → C → Children C → Children C
  set_color i j c [] = []
  set_color zero j c (x ∷ cs) = set_renderer j c x ∷ cs
  set_color (suc i) j c (x ∷ cs) = x ∷ set_color i j c cs

  -- `Recolor`
  unfoldable pub recolor : Option Indices → C → Children C → Children C
  recolor none c cs = cs
  recolor (some i) c cs = set_color i.mesh_renderer_index i.material_index c cs

  unfoldable pub new_view : Slot C → Slot C → Children C → View C
  new_view top bottom cs = record {
    children = cs;
    top_material = top;
    bottom_material = bottom;
    top_indices = register top.material cs;
    bottom_indices = register bottom.material cs;
    state = 0;
  }

  abbrev pub recolor_jets : C → C → View C → View C
  recolor_jets top bottom v = record v {
    children = recolor v.bottom_indices bottom (recolor v.top_indices top v.children);
  }

  -- `UpdateJets`, with `Color.green` and `Color.red`
  unfoldable pub update_jets : C → C → ℕ → View C → View C
  update_jets green red s v =
      let v' = record v { state = s } in
      if s == 0
      then recolor_jets v.top_material.color v.bottom_material.color v'
      else if s == 1
      then recolor_jets green green v'
      else if s == 2
      then recolor_jets red red v'
      else v'
