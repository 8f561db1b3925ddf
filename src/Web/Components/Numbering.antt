-- ===== src/Web/Components/Numbering.antt =====
-- The numbers of the parts and the colors of components.appearance.js, and which colors a part gets.
use starfall.Base.{
  ℕ, suc, ◌+◌, ◌≡◌, refl, ap, sym, subst, ◌∙◌, List, [], ◌∷◌, ◌++◌, append_assoc, append-nil,
  length, Bool, true, false, arith, Option, none, some, inl, inr, Bool-cases,
}
use starfall.Scripts.Json.{Key, Json}
use starfall.Scripts.Mixins.{Underscore, each_object}
use starfall.Web.Components.{
  Color, Part, prop, chain, fold_calls, push_part, new_part, push_color, add_color, add_material,
  add_part, add_mesh, add_slot, style_parts,
}

-- A predicate on a result, if nothing was thrown.
abbrev pub Kept : {A : Type 0} → (A → Type 0) → Option A → Type 0
Kept P none = Unit {0}
Kept P (some a) = P a

chain-Kept :
    {A B : Type 0} (P : A → Type 0) (Q : B → Type 0) (o : Option A) (k : A → Option B)
    → Kept P o
    → ((a : A) → P a → Kept Q (k a))
    → Kept Q (chain o k)
chain-Kept P Q none k h step = tt
chain-Kept P Q (some a) k h step = step a h

-- What a call of the function keeps, all calls keep.
fold_calls-Kept :
    {A : Type 0} (P : A → Type 0) (f : A → Json → Option A)
    → ((a : A) (v : Json) → P a → Kept P (f a v))
    → (calls : List (Json × Key)) (a : A) → P a
    → Kept P (fold_calls f a calls)
unfolding fold_calls
fold_calls-Kept P f step [] a h = h
fold_calls-Kept P f step ((v, key) ∷ calls) a h =
    chain-Kept P P (f a v) (λ a'. fold_calls f a' calls) (step a v h)
      (λ a' h'. fold_calls-Kept P f step calls a' h')

Kept-self : {A : Type 0} (o : Option A) → Kept (λ a. o ≡ some a) o
Kept-self none = tt
Kept-self (some a) = refl

Kept-any : {A : Type 0} (o : Option A) → Kept (λ a. Unit {0}) o
Kept-any none = tt
Kept-any (some a) = tt

length-snoc : {A : Type 0} (xs : List A) (x : A) → suc (length xs) ≡ length (xs ++ (x ∷ []))
length-snoc [] x = refl
length-snoc (y ∷ xs) x = ap suc (length-snoc xs x)

-- The numbers of the elements of a list, from `i` on, and a predicate of each.
abbrev pub Counted : {A : Type 0} → (A → ℕ) → (A → Type 0) → ℕ → List A → Type 0
Counted index P i [] = Unit {0}
Counted index P i (x ∷ xs) = (index x ≡ i) × P x × Counted index P (suc i) xs

Counted-append :
    {A : Type 0} (index : A → ℕ) (P : A → Type 0) (i : ℕ) (xs : List A) (x : A)
    → Counted index P i xs
    → index x ≡ i + length xs
    → P x
    → Counted index P i (xs ++ (x ∷ []))
Counted-append index P i [] x h e p = (omega (arith, e), p, tt)
Counted-append index P i (y ∷ xs) x (hy, py, hs) e p =
    (hy, py, Counted-append index P (suc i) xs x hs (omega (arith, e)) p)

module _ (u : Underscore) (eq : Json → Json → Bool) where
  -- A color of the style whose number is that of the material.
  abbrev pub Matches : Color → Type 0
  Matches c = (v : Json) × (prop "color" c.material ≡ some v) × (eq c.number v ≡ true)

  abbrev pub Colored : ℕ × List Color → Type 0
  Colored (j, colors) = (j ≡ length colors) × Counted (λ c. c.index) Matches 0 colors

  push_color-Colored :
      (material style_color n c : Json) (s : ℕ × List Color)
      → prop "color" material ≡ some c
      → eq n c ≡ true
      → Colored s
      → Colored (push_color u eq material style_color n s)
  push_color-Colored material style_color n c (j, colors) e m (l, h) = (
    ap suc l ∙ length-snoc colors _,
    Counted-append (λ c. c.index) Matches 0 colors _ h (omega (arith, l)) (c, e, m),
  )

  add_color-Colored :
      (material : Json) (s : ℕ × List Color) (style_color : Json)
      → Colored s
      → Kept Colored (add_color u eq material s style_color)
  unfolding add_color
  add_color-Colored material s style_color h =
      chain-Kept (λ n. Unit {0}) Colored (prop "number" style_color) _
        (Kept-any (prop "number" style_color))
        (λ n _.
          chain-Kept (λ c. prop "color" material ≡ some c) Colored (prop "color" material) _
            (Kept-self (prop "color" material))
            (λ c e. elim (Bool-cases (eq n c)) [
              | inl m ↦ rw m (push_color-Colored material style_color n c s e m h)
              | inr m ↦ rw m h
            ]))

  add_material-Colored :
      (style : Json) (s : ℕ × List Color) (material : Json)
      → Colored s
      → Kept Colored (add_material u eq style s material)
  unfolding add_material
  add_material-Colored style s material h =
      fold_calls-Kept Colored (add_color u eq material) (add_color-Colored material)
        (each_object u style) s h

  -- A part of the style whose colors have the numbers from 0 on, and match.
  abbrev pub IsBuilt : Json → Part → Type 0
  IsBuilt style p = (p.style ≡ style) × (p.on ≡ false) × Counted (λ c. c.index) Matches 0 p.colors

  -- New parts behind others.
  abbrev pub Built : Json → List Part → ℕ × List Part → Type 0
  Built style before (i, parts) =
      (new : List Part) × (parts ≡ before ++ new)
      × (i ≡ length new)
      × Counted (λ p. p.index) (IsBuilt style) 0 new

  push_part-Built :
      (n style slot mesh part : Json) (colors : List Color) (before : List Part) (s : ℕ × List Part)
      → Counted (λ c. c.index) Matches 0 colors
      → Built style before s
      → Built style before (push_part u eq (new_part u eq n style slot mesh part colors) s)
  push_part-Built n style slot mesh part colors before (i, parts) k (new, e, l, h) =
      let p = new_part u eq n style slot mesh part colors i in
      (
        new ++ (p ∷ []),
        ap (λ ps. ps ++ (p ∷ [])) e ∙ append_assoc before new (p ∷ []),
        ap suc l ∙ length-snoc new p,
        Counted-append (λ q. q.index) (IsBuilt style) 0 new p h (omega (arith, l)) (refl, refl, k),
      )

  add_part-Built :
      (style slot mesh : Json) (before : List Part) (s : ℕ × List Part) (part : Json)
      → Built style before s
      → Kept (Built style before) (add_part u eq style slot mesh s part)
  unfolding add_part
  add_part-Built style slot mesh before s part h =
      chain-Kept (λ n. Unit {0}) (Built style before) (prop "name" part) _
        (Kept-any (prop "name" part))
        (λ n _.
          chain-Kept Colored (Built style before)
            (fold_calls (add_material u eq style) (0, []) (each_object u part)) _
            (fold_calls-Kept Colored (add_material u eq style) (add_material-Colored style)
              (each_object u part) (0, []) (refl, tt))
            (λ (j, colors) (l, k). push_part-Built n style slot mesh part colors before s k h))

  add_mesh-Built :
      (style slot : Json) (before : List Part) (s : ℕ × List Part) (mesh : Json)
      → Built style before s
      → Kept (Built style before) (add_mesh u eq style slot s mesh)
  unfolding add_mesh
  add_mesh-Built style slot before s mesh h =
      fold_calls-Kept (Built style before) (add_part u eq style slot mesh)
        (add_part-Built style slot mesh before) (each_object u mesh) s h

  add_slot-Built :
      (style : Json) (before : List Part) (s : ℕ × List Part) (slot : Json)
      → Built style before s
      → Kept (Built style before) (add_slot u eq style s slot)
  unfolding add_slot
  add_slot-Built style before s slot h =
      fold_calls-Kept (Built style before) (add_mesh u eq style slot)
        (add_mesh-Built style slot before) (each_object u slot) s h

  -- What a default style adds, if nothing throws: parts behind those that are there, off, numbered from
  -- 0 on in their order, each with colors that are numbered from 0 on, and whose numbers in the style
  -- equal the colors of the materials that they are for.
  pub style_parts-Built :
      (obj style : Json) (before : List Part) (i : ℕ) (parts : List Part)
      → style_parts u eq obj style before ≡ some (i, parts)
      → (new : List Part) × (parts ≡ before ++ new)
        × (i ≡ length new)
        × Counted (λ p. p.index) (IsBuilt style) 0 new
  unfolding style_parts
  style_parts-Built obj style before i parts e = subst (Kept (Built style before)) e (
      chain-Kept (λ slots. Unit {0}) (Built style before) (prop "slots" obj) _
        (Kept-any (prop "slots" obj))
        (λ slots _.
          fold_calls-Kept (Built style before) (add_slot u eq style) (add_slot-Built style before)
            (each_object u slots) (0, before) ([], sym (append-nil before), refl, tt)))
