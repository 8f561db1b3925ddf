-- ===== src/Editor/Choosing.antt =====
-- Which colors of EditCharacterGuiScript.js can be chosen.
use starfall.Base.{
  ℕ, zero, suc, ◌≤◌, ◌<◌, ltb, ◌≡◌, refl, subst, sym, List, [], ◌∷◌, length, get_elem?, All, Bool,
  true, not, ◌&&◌, arith, some, if◌then◌else◌, ℤ, pos, negsuc, ◌+ℤ◌, ◌-ℤ◌, ◌≤ℤ◌, ltb_ℤ, int_laws,
  ltb_ℤ-true, inl, inr, Bool-cases,
}
use starfall.Base.Action.{Result, ok, fault}
use starfall.Network.Runtime.{Text}
use starfall.Editor.{
  NamedColor, Item, Buttons, color_at, press_back, press_next, press_apply, choose, gui_part,
  after_part, gui_parts, is_unset, apply_color,
}

module _ {C : Type 0} where
  -- The part's color is one of the `n` that there are.
  abbrev pub InRange : ℕ → Item C → Type 0
  InRange n i = (pos 0 ≤ℤ i.selected) × (i.selected +ℤ pos 1 ≤ℤ pos n)

  press_back-InRange : (n : ℕ) (b : Bool) (i : Item C) → InRange n i → InRange n (press_back b i)
  press_back-InRange n b i (l, u) =
      elim (Bool-cases (b && ltb_ℤ (negsuc 0) (i.selected -ℤ pos 1))) [
        | inl e ↦
            subst (λ c. InRange n (if c then record i { selected = i.selected -ℤ pos 1 } else i))
              (sym e)
              (
                omega (int_laws, ltb_ℤ-true (negsuc 0) (i.selected -ℤ pos 1) (ground (arith, e))),
                omega (int_laws, u),
              )
        | inr e ↦
            subst (λ c. InRange n (if c then record i { selected = i.selected -ℤ pos 1 } else i))
              (sym e) (l, u)
      ]

  press_next-InRange : (n : ℕ) (b : Bool) (i : Item C) → InRange n i → InRange n (press_next n b i)
  press_next-InRange n b i (l, u) = elim (Bool-cases (b && ltb_ℤ (i.selected +ℤ pos 1) (pos n))) [
    | inl e ↦
        subst (λ c. InRange n (if c then record i { selected = i.selected +ℤ pos 1 } else i))
          (sym e)
          (
            omega (int_laws, l),
            omega (int_laws, ltb_ℤ-true (i.selected +ℤ pos 1) (pos n) (ground (arith, e))),
          )
    | inr e ↦
        subst (λ c. InRange n (if c then record i { selected = i.selected +ℤ pos 1 } else i))
          (sym e) (l, u)
  ]

  get_elem?-some :
      (cs : List (NamedColor C)) (n : ℕ)
      → n < length cs
      → (c : NamedColor C) × (get_elem? cs n ≡ some c)
  get_elem?-some [] n h = absurd (omega (arith, h))
  get_elem?-some (c ∷ cs) zero h = (c, refl)
  get_elem?-some (c ∷ cs) (suc n) h = get_elem?-some cs n (omega (arith, h))

  color_at-some :
      (cs : List (NamedColor C)) (s : ℤ)
      → (pos 0 ≤ℤ s)
      → (s +ℤ pos 1 ≤ℤ pos (length cs))
      → (c : NamedColor C) × (color_at cs s ≡ some c)
  color_at-some cs (pos n) l u = get_elem?-some cs n (omega (int_laws, u))
  color_at-some cs (negsuc n) l u = absurd (omega (arith, l))

  press_apply-InRange :
      (n : ℕ) (b : Bool) (c : NamedColor C) (i : Item C) (mesh : ℕ → C)
      → InRange n i
      → let (i', mesh') = press_apply b c (i, mesh) in InRange n i'
  press_apply-InRange n b c i mesh h = elim (Bool-cases (b && not (is_unset i.selected))) [
    | inl e ↦
        subst
          (λ t.
            let (i', m) = if t then apply_color c.color (i, mesh) else (i, mesh) in InRange n i')
          (sym e) h
    | inr e ↦
        subst
          (λ t.
            let (i', m) = if t then apply_color c.color (i, mesh) else (i, mesh) in InRange n i')
          (sym e) h
  ]

  -- The part keeps a color, and nothing is thrown.
  abbrev pub Chosen : ℕ → Result (Unit {0}) × (Item C × (ℕ → C)) → Type 0
  Chosen n (r, (i, mesh)) = (r ≡ ok tt) × InRange n i

  gui_part-Chosen :
      (cs : List (NamedColor C)) (b : Buttons) (i : Item C) (mesh : ℕ → C)
      → 1 ≤ length cs
      → InRange (length cs) i
      → Chosen (length cs) (gui_part cs b (i, mesh))
  unfolding gui_part
  gui_part-Chosen cs b i mesh n h =
      let back = press_back b.back i in
      let (l, u) = press_back-InRange (length cs) b.back i h in
      let (c, e) = color_at-some cs back.selected l u in
      let z : ltb 0 (length cs) ≡ true = ground arith in
      subst
        (λ t. Chosen (length cs) (
          if t
          then choose (length cs) b (color_at cs back.selected) (back, mesh)
          else (ok tt, (i, mesh))))
        (sym z)
        (subst (λ o. Chosen (length cs) (choose (length cs) b o (back, mesh))) (sym e)
          (
            refl,
            let (i', m) = press_apply b.apply c (back, mesh) in
                press_next-InRange (length cs) b.next i'
                  (press_apply-InRange (length cs) b.apply c back mesh (l, u)),
          ))

  abbrev pub AllChosen : ℕ → Result (Unit {0}) × (List (Item C) × (ℕ → C)) → Type 0
  AllChosen n (r, (parts, mesh)) = (r ≡ ok tt) × All (InRange n) parts

  after_part-AllChosen :
      (n : ℕ) (p : Result (Unit {0}) × (Item C × (ℕ → C))) (parts : List (Item C))
      (k : (ℕ → C) → Result (Unit {0}) × (List (Item C) × (ℕ → C)))
      → Chosen n p
      → ((mesh : ℕ → C) → AllChosen n (k mesh))
      → AllChosen n (after_part p parts k)
  after_part-AllChosen n (fault e, (i, mesh)) parts k (r, h) ks = absurd cc
  after_part-AllChosen n (ok a, (i, mesh)) parts k (r, h) ks =
      let (rs, hs) = ks mesh in (rs, (h, hs))

  -- Whatever buttons are pressed in a frame, no color is looked for that is not there, so that nothing is
  -- thrown, and the color of every part stays one of those that there are, if there are any.
  pub gui_parts-AllChosen :
      (cs : List (NamedColor C)) (b : Text → Buttons) (parts : List (Item C)) (mesh : ℕ → C)
      → 1 ≤ length cs
      → All (InRange (length cs)) parts
      → AllChosen (length cs) (gui_parts cs b parts mesh)
  unfolding gui_parts
  gui_parts-AllChosen cs b [] mesh n h = (refl, tt)
  gui_parts-AllChosen cs b (i ∷ parts) mesh n (h, hs) =
      after_part-AllChosen (length cs) (gui_part cs (b i.name) (i, mesh)) parts
        (gui_parts cs b parts) (gui_part-Chosen cs (b i.name) i mesh n h)
        (λ mesh'. gui_parts-AllChosen cs b parts mesh' n hs)
