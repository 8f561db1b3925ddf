-- ===== src/Web/Components/Sheets.antt =====
-- The style sheet that the parts share in `Model.data` of
-- Server/Plugins/Web/app/components.appearance.js.
use Prim.Native.String.{String}
use text.Mathlib.Text
use starfall.Base.{
  ◌≡◌, refl, ap, sym, subst, ◌∙◌, List, [], ◌∷◌, ◌++◌, append_assoc, append-nil, ◌&&◌, Option, none,
  some, if◌then◌else◌, All, Bool-cases, inl, inr,
}
use starfall.Web.Components.Styling.{
  Material, Entry, ColorComponent, PartComponent, PartObject, Sheet, reuse, assign, data_part,
  find_component, data_parts,
}
use starfall.Web.Components.Styled.{Colored, components, material_names, Distinct, Colored-before}
use starfall.Web.Components.Referring.{data_part-Colored}

-- The materials of a part refer to the colors of its component.
abbrev pub Refers : List Entry → PartComponent → List Material → Type 0
Refers style c ms = All (λ d. Colored style d ms) c.colors

abbrev pub PartRefers : List Entry → List PartComponent → PartObject → Type 0
PartRefers style comps p =
    (c : PartComponent) → find_component p.text comps ≡ some c → Refers style c p.materials

find_component-All :
    (P : PartComponent → Type 0) (t : String) (comps : List PartComponent) (c : PartComponent)
    → All P comps
    → find_component t comps ≡ some c
    → P c
unfolding find_component
find_component-All P t [] c h e = cc e
find_component-All P t (d ∷ comps) c (h, hs) e =
    elim (Bool-cases (d.on && Text.◌==◌ d.part_text t)) [
      | inl z ↦
          subst P
            (some_same d c
              (subst (λ b. (if b then some d else find_component t comps) ≡ some c) z e))
            h
      | inr z ↦
          find_component-All P t comps c hs
            (subst (λ b. (if b then some d else find_component t comps) ≡ some c) z e)
    ]
  where
    some_same : (x y : PartComponent) → some x ≡ some y → x ≡ y
    some_same x y e = ap (λ o. elim o [ none ↦ x | some z ↦ z ]) e

-- The style sheet only grows.
pub Grows : List Entry → List Entry → Type 0
Grows es fs = (more : List Entry) × (fs ≡ es ++ more)

pub Grows-refl : (es : List Entry) → Grows es es
unfolding Grows
Grows-refl es = ([], sym (append-nil es))

pub Grows-trans : (es fs gs : List Entry) → Grows es fs → Grows fs gs → Grows es gs
unfolding Grows
Grows-trans es fs gs (a, e) (b, e') = (a ++ b, e' ∙ ap (λ t. t ++ b) e ∙ append_assoc es a b)

data_part-Grows :
    (cs : List ColorComponent) (ms : List Material) (s : Sheet)
    → Grows s.style (data_part cs ms s).1.style
unfolding data_part Grows
data_part-Grows cs ms s =
    ((assign s.next_number (reuse s.style cs ms).0 (reuse s.style cs ms).1).entries, refl)

-- What `data_parts` does with a part, where `f` goes on with the style sheet.
abbrev parts_step :
    Option PartComponent
    → PartObject
    → (Sheet → List PartObject × Sheet)
    → Sheet
    → List PartObject × Sheet
parts_step o p f s = elim o [
  | none ↦ f s
  | some c ↦
      let (ms, s') = data_part c.colors p.materials s in
      let (rest, s'') = f s' in (record p { materials = ms } ∷ rest, s'')
]

pub data_parts-Grows :
    (comps : List PartComponent) (ps : List PartObject) (s : Sheet)
    → Grows s.style (data_parts comps ps s).1.style
unfolding data_parts
data_parts-Grows comps [] s = Grows-refl s.style
data_parts-Grows comps (p ∷ ps) s =
    step (find_component p.text comps) (λ s'. data_parts-Grows comps ps s')
  where
    step :
        (o : Option PartComponent)
        → ((s' : Sheet) → Grows s'.style (data_parts comps ps s').1.style)
        → Grows s.style (parts_step o p (data_parts comps ps) s).1.style
    step none ih = ih s
    step (some c) ih =
        Grows-trans s.style (data_part c.colors p.materials s).1.style _
          (data_part-Grows c.colors p.materials s) (ih (data_part c.colors p.materials s).1)

pub Refers-Grows :
    (es fs : List Entry) (c : PartComponent) (ms : List Material)
    → Grows es fs
    → Refers es c ms
    → Refers fs c ms
unfolding Grows
Refers-Grows es fs c ms (more, e) h = subst (λ t. Refers t c ms) (sym e) (all c.colors h)
  where
    all :
        (cs : List ColorComponent)
        → All (λ d. Colored es d ms) cs
        → All (λ d. Colored (es ++ more) d ms) cs
    all [] h = tt
    all (d ∷ cs) (h, hs) = (Colored-before es more d ms h, all cs hs)

some_same : (x y : PartComponent) → some x ≡ some y → x ≡ y
some_same x y e = ap (λ o. elim o [ none ↦ x | some z ↦ z ]) e

-- The parts of one mesh refer to the style sheet that is there after the mesh.
pub data_parts-PartRefers :
    (comps : List PartComponent) (ps : List PartObject) (s : Sheet)
    → All (λ c. Distinct (components c.colors)) comps
    → All (λ p. Distinct (material_names p.materials)) ps
    → All (PartRefers (data_parts comps ps s).1.style comps) (data_parts comps ps s).0
unfolding data_parts
data_parts-PartRefers comps [] s d n = tt
data_parts-PartRefers comps (p ∷ ps) s d (n, ns) =
    step (find_component p.text comps) refl (λ s'. data_parts-PartRefers comps ps s' d ns)
  where
    step :
        (o : Option PartComponent)
        → find_component p.text comps ≡ o
        → ((s' : Sheet)
            → All (PartRefers (data_parts comps ps s').1.style comps) (data_parts comps ps s').0)
        → All
            (PartRefers (parts_step o p (data_parts comps ps) s).1.style comps)
            (parts_step o p (data_parts comps ps) s).0
    step none e ih = ih s
    step (some c) e ih =
        let s' = (data_part c.colors p.materials s).1 in
        let distinct =
          find_component-All (λ k. Distinct (components k.colors)) p.text comps c d e in
        (
          (λ k z.
              subst
                (λ x.
                  Refers (data_parts comps ps s').1.style x (data_part c.colors p.materials s).0)
                (some_same c k (sym e ∙ z))
                (Refers-Grows s'.style (data_parts comps ps s').1.style c
                  (data_part c.colors p.materials s).0 (data_parts-Grows comps ps s')
                  (data_part-Colored c.colors p.materials s distinct n))),
          ih s',
        )
