-- ===== src/Console/House/Drawing.antt =====
-- What the console of ConsoleScript.js shows after its document is loaded.
use Prim.Native.String.{String}
use package.text.Mathlib.Text
use starfall.Base.{
  ℕ, List, [], ◌∷◌, ◌++◌, append_assoc, append-nil, map, All, All-append, ◌≡◌, refl, ap, sym, subst,
  ◌∙◌, Bool, true, false, Option, none, some, ℤ, inl, inr, Option-cases, if◌then◌else◌,
}
use starfall.Base.Action.{Result, ok, fault, Action, resume}
use starfall.Network.Runtime.{ascii_byte}
use starfall.Console.{
  Glyph, Colors, Block, Screen, Nodes, no_node, element, text_node, other_node, new_line,
  foreground,
}
use starfall.Console.Bounds.{Inside, Fits, apply_to_texture-keeps}
use starfall.Console.House.{House, recurse, cleared, load_document, load_console, document_text}

-- Whether text is a heading's behind a tag.
abbrev pub heading_behind : String → Bool → Bool
heading_behind tag heading =
    if Text.◌==◌ tag "block" then false else if Text.◌==◌ tag "heading" then true else heading

-- The blocks that a node and those that follow it have drawn, all or only the first of them: those of a
-- text are inside where its heading or the lack of one puts them, and an element's come before those of
-- the nodes behind it. A text and other nodes end their row of nodes.
abbrev pub Laid : {C : Type 0} → Bool → Nodes → List (Block C) → Type 0
Laid heading no_node bs = bs ≡ []
Laid {C = C} heading (element tag attr children next) bs =
    let heading' = heading_behind tag heading in
    (inner : List (Block C)) × (after : List (Block C)) × (bs ≡ inner ++ after)
    × Laid heading' children inner
    × Laid heading' next after
Laid heading (text_node t next) bs = All (Inside heading) bs
Laid heading (other_node next) bs = bs ≡ []

abbrev pub Shown : {C : Type 0} → Option Nodes → List (Block C) → Type 0
Shown none bs = bs ≡ []
Shown (some nodes) bs = Laid false nodes bs

Laid-nil : (C : Type 0) (heading : Bool) (nodes : Nodes) → Laid {C = C} heading nodes []
Laid-nil C heading no_node = refl
Laid-nil C heading (element tag attr children next) = (
  [],
  [],
  refl,
  Laid-nil C (heading_behind tag heading) children,
  Laid-nil C (heading_behind tag heading) next,
)
Laid-nil C heading (text_node t next) = tt
Laid-nil C heading (other_node next) = refl

module _ {C : Type 0} (unity : Colors C) (font : ℕ → Option (Glyph C))
    (load_xml : List ℕ → Option Nodes)
    (fits : (c : ℕ) (g : Glyph C) → font c ≡ some g → Fits g) where
  -- What drawing adds behind the blocks `old`.
  abbrev Adds : (List (Block C) → Type 0) → List (Block C) → List (Block C) → Type 0
  Adds L old bs = (new : List (Block C)) × (bs ≡ old ++ new) × L new

  text-Adds :
      (heading : Bool) (old bs : List (Block C)) (b : Block C)
      → Adds (All (Inside heading)) old bs
      → Inside heading b
      → Adds (All (Inside heading)) old (bs ++ (b ∷ []))
  text-Adds heading old bs b (new, e, h) i = (
    new ++ (b ∷ []),
    ap (λ t. t ++ (b ∷ [])) e ∙ append_assoc old new (b ∷ []),
    All-append (Inside heading) new (b ∷ []) h (i, tt),
  )

  blocks-new_line :
      (b : Bool) (s : Screen C) → (if b then new_line unity font s else s).blocks ≡ s.blocks
  unfolding new_line
  blocks-new_line true s = refl
  blocks-new_line false s = refl

  -- An element's children and, if nothing was thrown, the nodes behind it.
  element-Adds :
      (L K : List (Block C) → Type 0) (old : List (Block C)) (r : Result (Unit {0}) × Screen C)
      (k : Action (Screen C) (Unit {0}))
      → Adds L old r.1.blocks
      → K []
      → ((s : Screen C) → Adds K s.blocks (k s).1.blocks)
      → Adds
          (λ bs.
            (inner : List (Block C)) × (after : List (Block C)) × (bs ≡ inner ++ after)
            × L inner
            × K after)
          old
          (resume (λ _. k) r).1.blocks
  element-Adds L K old (ok a, s) k (inner, e, h) z step =
      let (after, e', h') = step s in
      (
        inner ++ after,
        e' ∙ ap (λ t. t ++ after) e ∙ append_assoc old inner after,
        (inner, after, refl, h, h'),
      )
  element-Adds L K old (fault x, s) k (inner, e, h) z step =
      (inner, e, (inner, [], sym (append-nil inner), h, z))

  recurse-Adds :
      (n : ℤ) (parent : String) (color : Option String) (heading : Bool) (nodes : Nodes)
      (s : Screen C)
      → Adds
          (Laid heading nodes)
          s.blocks
          (recurse unity font load_xml n parent color heading nodes s).1.blocks
  unfolding recurse
  recurse-Adds n parent color heading no_node s = ([], sym (append-nil s.blocks), refl)
  recurse-Adds n parent color heading (element tag attr children next) s =
      let is_block = Text.◌==◌ tag "block" in
      let heading' = heading_behind tag heading in
      let s' = if is_block then new_line unity font s else s in
      element-Adds (Laid heading' children) (Laid heading' next) s.blocks
        (recurse unity font load_xml n tag attr heading' children s')
        (recurse unity font load_xml n parent color heading' next)
        (subst
          (λ old.
            Adds (Laid heading' children) old
              (recurse unity font load_xml n tag attr heading' children s').1.blocks)
          (blocks-new_line is_block s) (recurse-Adds n tag attr heading' children s'))
        (Laid-nil C heading' next) (λ s''. recurse-Adds n parent color heading' next s'')
  recurse-Adds n parent color heading (text_node t next) s =
      apply_to_texture-keeps unity font (Adds (All (Inside heading)) s.blocks) heading
        (text-Adds heading s.blocks) n (foreground unity font parent color) (map ascii_byte t) s
        fits ([], sym (append-nil s.blocks), tt)
  recurse-Adds n parent color heading (other_node next) s = ([], sym (append-nil s.blocks), refl)

  -- Whatever the document, the offset of its lines and the focus, and whether the loading throws or not,
  -- the blocks that are then on the texture belong to texts of the document, in their order: those of a
  -- text begin in the window and end to the left of its right border, and they are on the line of the
  -- title if, of the elements that the text stands in and those that come before one of these or before
  -- the text among the children of one element, the last block or heading is a heading; else they begin
  -- below that line. A document that cannot be read draws nothing. Every glyph of the font has to be
  -- narrower than the window, with its offset too.
  pub load_console-Shown :
      (h : House C)
      → Shown
          (load_xml (document_text h.focused h.buffer))
          (load_console unity font load_xml h).1.screen.blocks
  unfolding load_console load_document
  load_console-Shown h = elim (Option-cases (load_xml (document_text h.focused h.buffer))) [
    | inl e ↦ rw e refl
    | inr (nodes, e) ↦
        let (new, z, l) =
          recurse-Adds h.line_offset "" none false nodes (cleared unity font load_xml) in
        rw e (subst (Laid false nodes) (sym z) l)
  ]
