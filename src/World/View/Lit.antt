-- ===== src/World/View/Lit.antt =====
-- UpdateJets of class View in Client/Assets/Scenes/WorldScene/WorldScript.js: the colors of the jets against
-- the state of the view.
use starfall.Base.{
  ℕ, zero, suc, ◌==◌, ◌≡◌, refl, sym, subst, ◌∙◌, List, [], ◌∷◌, true, false, Option, some, arith,
  ltb, All,
}
use starfall.World.View.{
  Slot, Children, Indices, View, register, recolor, new_view, recolor_jets, update_jets,
}
use starfall.World.View.Jets.{paint_first, recolor-register}
use starfall.World.View.Colors.{place_color, place_color-paint_first, place_color-other}
use starfall.World.View.Kept.{register-recolor}

module _ {C : Type 0} where
  -- The color of a jet in a state: its own, green or red.
  abbrev pub jet_color : C → C → C → ℕ → C
  jet_color green red own zero = own
  jet_color green red own (suc zero) = green
  jet_color green red own (suc (suc s)) = red

  pub record IsLit (green red : C) (v : View C) : Type 0 where
    pub top_registered : v.top_indices ≡ register v.top_material.material v.children
    pub bottom_registered : v.bottom_indices ≡ register v.bottom_material.material v.children
    pub distinct : (v.top_material.material == v.bottom_material.material) ≡ false
    pub distinct' : (v.bottom_material.material == v.top_material.material) ≡ false
    pub top_lit :
        place_color v.top_material.material v.children
        ≡ some (jet_color green red v.top_material.color v.state)
    pub bottom_lit :
        place_color v.bottom_material.material v.children
        ≡ some (jet_color green red v.bottom_material.color v.state)

  -- What `Recolor` does where the indices are those that `Register` found.
  recolor-IsPaint :
      (i : Option Indices) (m : ℕ) (c : C) (cs : Children C)
      → i ≡ register m cs
      → recolor i c cs ≡ paint_first m c cs
  recolor-IsPaint i m c cs h = rw (h, recolor-register m c cs)

  recolor-own :
      (i : Option Indices) (m : ℕ) (c a : C) (cs : Children C)
      → i ≡ register m cs
      → place_color m cs ≡ some a
      → place_color m (recolor i c cs) ≡ some c
  recolor-own i m c a cs h e =
      subst (λ r. place_color m r ≡ some c) (sym (recolor-IsPaint i m c cs h))
        (place_color-paint_first m c a cs e)

  recolor-other :
      (i : Option Indices) (m n : ℕ) (c : C) (cs : Children C)
      → i ≡ register n cs
      → (m == n) ≡ false
      → place_color m (recolor i c cs) ≡ place_color m cs
  recolor-other i m n c cs h e =
      subst (λ r. place_color m r ≡ place_color m cs) (sym (recolor-IsPaint i n c cs h))
        (place_color-other m n c cs e)

  recolor_jets-IsLit :
      (green red : C) (s : ℕ) (v : View C)
      → IsLit green red v
      → IsLit green red (
          recolor_jets
            (jet_color green red v.top_material.color s)
            (jet_color green red v.bottom_material.color s)
            (record v { state = s }))
  recolor_jets-IsLit green red s v h =
      let cs = v.children in
      let t = jet_color green red v.top_material.color s in
      let b = jet_color green red v.bottom_material.color s in
      let cs' = recolor v.top_indices t cs in
      let bottom' =
        h.bottom_registered
        ∙ sym (register-recolor v.bottom_material.material v.top_indices t cs) in
      record {
        top_registered =
            h.top_registered
            ∙ sym (register-recolor v.top_material.material v.top_indices t cs)
            ∙ sym (register-recolor v.top_material.material v.bottom_indices b cs');
        bottom_registered =
            bottom' ∙ sym (register-recolor v.bottom_material.material v.bottom_indices b cs');
        distinct = h.distinct;
        distinct' = h.distinct';
        top_lit =
            recolor-other v.bottom_indices v.top_material.material v.bottom_material.material b cs'
              bottom' h.distinct
            ∙ recolor-own v.top_indices v.top_material.material t _ cs h.top_registered h.top_lit;
        bottom_lit = recolor-own v.bottom_indices v.bottom_material.material b _ cs' bottom' (
            recolor-other v.top_indices v.bottom_material.material v.top_material.material t cs
              h.top_registered h.distinct'
            ∙ h.bottom_lit);
      }

  pub update_jets-IsLit :
      (green red : C) (s : ℕ) (v : View C)
      → IsLit green red v
      → ltb s 3 ≡ true
      → IsLit green red (update_jets green red s v)
  unfolding update_jets
  update_jets-IsLit green red zero v h e = recolor_jets-IsLit green red 0 v h
  update_jets-IsLit green red (suc zero) v h e = recolor_jets-IsLit green red 1 v h
  update_jets-IsLit green red (suc (suc zero)) v h e = recolor_jets-IsLit green red 2 v h
  update_jets-IsLit green red (suc (suc (suc s))) v h e = ground arith

  -- `UpdateJets`, called with each state in turn.
  abbrev pub update_all : C → C → List ℕ → View C → View C
  update_all green red [] v = v
  update_all green red (s ∷ ss) v = update_all green red ss (update_jets green red s v)

  new_view-IsLit :
      (green red : C) (top bottom : Slot C) (cs : Children C)
      → (top.material == bottom.material) ≡ false
      → place_color top.material cs ≡ some top.color
      → place_color bottom.material cs ≡ some bottom.color
      → IsLit green red (new_view top bottom cs)
  unfolding new_view
  new_view-IsLit green red top bottom cs d t b = record {
    top_registered = refl;
    bottom_registered = refl;
    distinct = d;
    distinct' = ground arith;
    top_lit = t;
    bottom_lit = b;
  }

  update_all-IsLit :
      (green red : C) (ss : List ℕ) (v : View C)
      → IsLit green red v
      → All (λ s. ltb s 3 ≡ true) ss
      → IsLit green red (update_all green red ss v)
  update_all-IsLit green red [] v h e = h
  update_all-IsLit green red (s ∷ ss) v h (e, es) =
      update_all-IsLit green red ss (update_jets green red s v)
        (update_jets-IsLit green red s v h e) es

  -- Where the materials of the two jets differ and have their own colors in the model, they have the
  -- colors of the state after any calls of UpdateJets with the states 0, 1 and 2: their own, green, red.
  -- The recorded indices still are where the materials stand.
  pub jets-IsLit :
      (green red : C) (top bottom : Slot C) (cs : Children C) (ss : List ℕ)
      → (top.material == bottom.material) ≡ false
      → place_color top.material cs ≡ some top.color
      → place_color bottom.material cs ≡ some bottom.color
      → All (λ s. ltb s 3 ≡ true) ss
      → IsLit green red (update_all green red ss (new_view top bottom cs))
  jets-IsLit green red top bottom cs ss d t b h =
      update_all-IsLit green red ss (new_view top bottom cs)
        (new_view-IsLit green red top bottom cs d t b) h
