-- ===== src/Console/Bounds.antt =====
-- Where ConsoleScript.js draws.
use starfall.Base.{
  ℕ, ltb, ◌≡◌, refl, subst, List, [], ◌∷◌, ◌++◌, Bool, true, false, arith, Option, some,
  if◌then◌else◌, ℤ, pos, ◌+ℤ◌, ◌-ℤ◌, ◌*ℤ◌, ◌≤ℤ◌, ltb_ℤ, inl, inr, Bool-cases, Option-cases,
  int_laws, ltb_ℤ-true, ltb_ℤ-false,
}
use starfall.Base.Action.{Result, ok, fault, Action, resume}
use starfall.Console.{
  Glyph, Colors, Block, Screen, window_width, window_height, line_height, new_line, contains,
  place_x, place_y, put_block, draw_glyph, draw_char, apply_to_texture,
}

-- A block begins in the window and ends to the left of its right border. Text of a heading has the
-- place of the title, and other text begins below it.
abbrev pub Inside : {C : Type 0} → Bool → Block C → Type 0
Inside heading b =
    (pos 0 ≤ℤ b.x)
    × (b.x +ℤ b.width +ℤ pos 1 ≤ℤ pos 256)
    × (pos 0 ≤ℤ b.y)
    × (if heading then b.y ≡ pos 224 else b.y +ℤ pos 1 ≤ℤ pos 224)

-- A glyph that a line has room for.
abbrev pub Fits : {C : Type 0} → Glyph C → Type 0
Fits g = (g.xoffset +ℤ g.width +ℤ pos 1 ≤ℤ pos 256) × (g.width +ℤ pos 1 ≤ℤ pos 256)

-- What a step and the steps after it keep of the blocks, both keep, with or without a throw.
pub resume-keeps :
    {C : Type 0} (Q : List (Block C) → Type 0) (r : Result (Unit {0}) × Screen C)
    (k : Action (Screen C) (Unit {0}))
    → (let (_, s) = r in Q s.blocks)
    → ((s : Screen C) → Q s.blocks → let (_, s') = k s in Q s'.blocks)
    → let (_, s') = resume (λ _. k) r in Q s'.blocks
resume-keeps Q (ok a, s) k h step = step s h
resume-keeps Q (fault e, s) k h step = h

module _ {C : Type 0} (unity : Colors C) (font : ℕ → Option (Glyph C)) where
  room :
      (x xo w : ℤ)
      → (xo +ℤ w +ℤ pos 1 ≤ℤ pos 256)
      → (w +ℤ pos 1 ≤ℤ pos 256)
      → ltb_ℤ (x +ℤ xo +ℤ w) (pos 256) ≡ true
      → place_x unity font (x +ℤ xo) +ℤ w +ℤ pos 1 ≤ℤ pos 256
  room x xo w h k e = elim (Bool-cases (ltb_ℤ (x +ℤ xo) (pos 0))) [
    | inl n ↦ rw n (omega (int_laws, k))
    | inr n ↦ rw n (ltb_ℤ-true (x +ℤ xo +ℤ w) (pos 256) e)
  ]

  -- The place of a text that is in the window is that of the title, or below it.
  abbrev pub LineOf : Bool → ℤ → Type 0
  LineOf heading y = if heading then y ≡ pos 224 else y +ℤ pos 1 ≤ℤ pos 224

  not_above : (x : ℤ) → contains unity font x window_height ≡ true → ⊥
  not_above x h = ground (arith, h)

  place_y-LineOf :
      (heading : Bool) (x y : ℤ)
      → contains unity font x (place_y unity font heading y) ≡ true
      → LineOf heading (place_y unity font heading y)
  unfolding ◌-ℤ◌
  place_y-LineOf true x y h = refl
  place_y-LineOf false x y h = elim (Bool-cases (ltb_ℤ y (pos 224))) [
    | inl e ↦ rw e (ltb_ℤ-true y (pos 224) e)
    | inr e ↦ absurd (
        not_above x
          (subst (λ b. contains unity font x (if b then y else window_height) ≡ true) e h))
  ]

  contains-lower : (x y : ℤ) → contains unity font x y ≡ true → (pos 0 ≤ℤ x) × (pos 0 ≤ℤ y)
  contains-lower x y h = (ground (arith, h), ground (arith, h))

  module _ (Q : List (Block C) → Type 0) (heading : Bool)
      (more : (bs : List (Block C)) (b : Block C)
        → Q bs
        → Inside heading b
        → Q (bs ++ (b ∷ []))) where
    put_block-keeps :
        (fore : Option C) (g : Glyph C) (x y : ℤ) (s : Screen C)
        → (x +ℤ g.width +ℤ pos 1 ≤ℤ pos 256)
        → (contains unity font x y ≡ true → LineOf heading y)
        → Q s.blocks
        → Q (put_block unity font fore g x y s).blocks
    unfolding put_block
    put_block-keeps fore g x y s w l h = elim (Bool-cases (contains unity font x y)) [
      | inl e ↦ rw e (more s.blocks _ h (let (lx, ly) = contains-lower x y e in (lx, w, ly, l e)))
      | inr e ↦ rw e h
    ]

    placed :
        (fore : Option C) (g : Glyph C) (y : ℤ) (s : Screen C)
        → Fits g
        → ltb_ℤ (s.cursor_x +ℤ g.xoffset +ℤ g.width) (pos 256) ≡ true
        → Q s.blocks
        → Q
            (put_block unity font fore g
              (place_x unity font (s.cursor_x +ℤ g.xoffset))
              (place_y unity font heading y)
              s).blocks
    placed fore g y s (f, w) e h =
        put_block-keeps fore g (place_x unity font (s.cursor_x +ℤ g.xoffset))
          (place_y unity font heading y) s (room s.cursor_x g.xoffset g.width f w e)
          (place_y-LineOf heading (place_x unity font (s.cursor_x +ℤ g.xoffset)) y) h

    -- A new line has room for a glyph that fits.
    room_on_new_line :
        (g : Glyph C) (s : Screen C)
        → Fits g
        → ltb_ℤ ((new_line unity font s).cursor_x +ℤ g.xoffset +ℤ g.width) (pos 256) ≡ true
    unfolding new_line
    room_on_new_line g s (f, w) =
        elim (Bool-cases (ltb_ℤ (pos 0 +ℤ g.xoffset +ℤ g.width) (pos 256))) [
          | inl e ↦ e
          | inr e ↦
              absurd (omega (int_laws, f, ltb_ℤ-false (pos 0 +ℤ g.xoffset +ℤ g.width) (pos 256) e))
        ]

    draw_glyph-keeps :
        (n : ℤ) (fore : Option C) (g : Glyph C) (s : Screen C)
        → Fits g
        → Q s.blocks
        → Q (draw_glyph unity font n fore heading g s).blocks
    unfolding draw_glyph
    draw_glyph-keeps n fore g s f h =
        elim (Bool-cases (ltb_ℤ (s.cursor_x +ℤ g.xoffset +ℤ g.width) window_width)) [
          | inl e ↦ rw e (placed fore g (s.cursor_y +ℤ g.yoffset +ℤ n *ℤ line_height) s f e h)
          | inr e ↦
              let s' = new_line unity font s in
              rw e (
                placed fore g (s'.cursor_y +ℤ g.yoffset +ℤ n *ℤ line_height) s' f
                  (room_on_new_line g s f) (unfold new_line in h))
        ]

    draw_char-keeps :
        (n : ℤ) (fore : Option C) (b : ℕ) (s : Screen C)
        → ((c : ℕ) (g : Glyph C) → font c ≡ some g → Fits g)
        → Q s.blocks
        → let (r, s') = draw_char unity font n fore heading b s in Q s'.blocks
    draw_char-keeps n fore b s fits h = elim (Bool-cases (ltb b 127)) [
      | inl e ↦ elim (Option-cases (font b)) [
        | inl z ↦ rw (e, z) h
        | inr (g, z) ↦ rw (e, z) (draw_glyph-keeps n fore g s (fits b g z) h)
      ]
      | inr e ↦ rw e h
    ]

    -- The loop stops at a character that the array has no place for.
    pub apply_to_texture-keeps :
        (n : ℤ) (fore : Option C) (bs : List ℕ) (s : Screen C)
        → ((c : ℕ) (g : Glyph C) → font c ≡ some g → Fits g)
        → Q s.blocks
        → let (r, s') = apply_to_texture unity font n fore heading bs s in Q s'.blocks
    unfolding apply_to_texture
    apply_to_texture-keeps n fore [] s fits h = h
    apply_to_texture-keeps n fore (b ∷ bs) s fits h =
        resume-keeps Q (draw_char unity font n fore heading b s)
          (apply_to_texture unity font n fore heading bs) (draw_char-keeps n fore b s fits h)
          (λ s' h'. apply_to_texture-keeps n fore bs s' fits h')
