-- ===== src/Web/Components/Styled.antt =====
-- What the numbers of the materials mean after `Model.data` of
-- Server/Plugins/Web/app/components.appearance.js.
use Prim.Native.String.{String}
use text.Mathlib.Text
use text.Mathlib.TextEquality.{eq_iff}
use starfall.Base.{
  ℕ, suc, ◌≡◌, ◌≢◌, refl, ap, sym, subst, ◌∙◌, List, [], ◌∷◌, ◌++◌, true, false, Option, none, some,
  if◌then◌else◌, All, Bool-cases, ◌⊎◌, inl, inr,
}
use starfall.Web.Components.Styling.{
  Rgb, Number, nth, Material, Entry, ColorComponent, same_rgb, find_entry, recolor, reuse,
  number_all,
}

-- An entry of the style sheet has this color and this number.
abbrev pub HasEntry : Rgb → Number → List Entry → Type 0
HasEntry c n [] = ⊥
HasEntry c n (e ∷ es) = ((same_rgb c e.rgb ≡ true) × (e.number ≡ n)) ⊎ HasEntry c n es

-- The materials of a component's name refer to its color.
abbrev pub Colored : List Entry → ColorComponent → List Material → Type 0
Colored style c [] = Unit {0}
Colored style c (m ∷ ms) =
    (m.name ≡ c.material → HasEntry c.current m.color style) × Colored style c ms

abbrev pub material_names : List Material → List String
material_names [] = []
material_names (m ∷ ms) = m.name ∷ material_names ms

abbrev pub Distinct : List String → Type 0
Distinct [] = Unit {0}
Distinct (n ∷ ns) = All (λ k. n ≢ k) ns × Distinct ns

abbrev pub components : List ColorComponent → List String
components [] = []
components (c ∷ cs) = c.material ∷ components cs

pub ne_test : (s t : String) → s ≢ t → Text.◌==◌ s t ≡ false
ne_test s t h = elim (Bool-cases (Text.◌==◌ s t)) [
  | inl e ↦ let (eq, _) = eq_iff s t in absurd (h (eq e))
  | inr e ↦ e
]

-- The entries that are added do not take others away.
pub HasEntry-before :
    (c : Rgb) (n : Number) (es fs : List Entry) → HasEntry c n es → HasEntry c n (es ++ fs)
HasEntry-before c n [] fs h = absurd h
HasEntry-before c n (e ∷ es) fs (inl h) = inl h
HasEntry-before c n (e ∷ es) fs (inr h) = inr (HasEntry-before c n es fs h)

pub HasEntry-behind :
    (c : Rgb) (n : Number) (es fs : List Entry) → HasEntry c n fs → HasEntry c n (es ++ fs)
HasEntry-behind c n [] fs h = h
HasEntry-behind c n (e ∷ es) fs h = inr (HasEntry-behind c n es fs h)

pub Colored-before :
    (es fs : List Entry) (c : ColorComponent) (ms : List Material)
    → Colored es c ms
    → Colored (es ++ fs) c ms
Colored-before es fs c [] h = tt
Colored-before es fs c (m ∷ ms) (h, hs) =
    (λ e. HasEntry-before c.current m.color es fs (h e), Colored-before es fs c ms hs)

pub find_entry-HasEntry :
    (c : Rgb) (es : List Entry) (e : Entry) → find_entry c es ≡ some e → HasEntry c e.number es
unfolding find_entry
find_entry-HasEntry c [] e h = cc h
find_entry-HasEntry c (d ∷ es) e h = elim (Bool-cases (same_rgb c d.rgb)) [
  | inl z ↦ inl (
    z,
    ap (λ o. elim o [ none ↦ d.number | some x ↦ x.number ])
        (subst (λ b. (if b then some d else find_entry c es) ≡ some e) z h),
  )
  | inr z ↦ inr (
      find_entry-HasEntry c es e
        (subst (λ b. (if b then some d else find_entry c es) ≡ some e) z h))
]

-- Recoloring by another name leaves a component's materials alone.
pub recolor-other :
    (style : List Entry) (c : ColorComponent) (n : String) (k : Number) (ms : List Material)
    → c.material ≢ n
    → Colored style c ms
    → Colored style c (recolor n k ms)
unfolding recolor
recolor-other style c n k [] h z = tt
recolor-other style c n k (m ∷ ms) h (z, zs) = elim (Bool-cases (Text.◌==◌ n m.name)) [
  | inl e ↦ rw e (
    (λ y. absurd (h (sym ((let (eq, _) = eq_iff n m.name in eq e) ∙ y)))),
    recolor-other style c n k ms h zs,
  )
  | inr e ↦ rw e (z, recolor-other style c n k ms h zs)
]

-- Recoloring by its own name, with the number of an entry of its color, colors them.
pub recolor-own :
    (style : List Entry) (c : ColorComponent) (k : Number) (ms : List Material)
    → HasEntry c.current k style
    → Colored style c (recolor c.material k ms)
unfolding recolor
recolor-own style c k [] h = tt
recolor-own style c k (m ∷ ms) h = elim (Bool-cases (Text.◌==◌ c.material m.name)) [
  | inl e ↦ rw e ((λ y. h), recolor-own style c k ms h)
  | inr e ↦ rw e (
    (λ y. absurd (cc (e, let (_, same) = eq_iff c.material m.name in same (sym y)))),
    recolor-own style c k ms h,
  )
]

pub material_names-recolor :
    (n : String) (k : Number) (ms : List Material)
    → material_names (recolor n k ms) ≡ material_names ms
unfolding recolor
material_names-recolor n k [] = refl
material_names-recolor n k (m ∷ ms) = elim (Bool-cases (Text.◌==◌ n m.name)) [
  | inl e ↦ rw e (ap (λ l. m.name ∷ l) (material_names-recolor n k ms))
  | inr e ↦ rw e (ap (λ l. m.name ∷ l) (material_names-recolor n k ms))
]

-- The names that a component's is not.
abbrev pub Apart : ColorComponent → List String → Type 0
Apart c ns = All (λ k. c.material ≢ k) ns

-- The filter's step for a component, where `f` goes on with the materials.
abbrev pub Kept : Type 0
Kept = List ColorComponent × List Material

abbrev pub reuse_step :
    Option Entry → ColorComponent → List Material → (List Material → Kept) → Kept
reuse_step o d ms f = elim o [
  | none ↦ let (kept, ms') = f ms in (d ∷ kept, ms')
  | some e ↦ f (recolor d.material e.number ms)
]

pub reuse_lem :
    (style : List Entry) (d : ColorComponent) (cs : List ColorComponent) (ms : List Material)
    → reuse style (d ∷ cs) ms ≡ reuse_step (find_entry d.current style) d ms (reuse style cs)
unfolding reuse
reuse_lem style d cs ms = refl

-- What is kept is apart from a component that the list is apart from, and its materials are let alone.
pub reuse-other :
    (style : List Entry) (c : ColorComponent) (cs : List ColorComponent) (ms : List Material)
    → Apart c (components cs)
    → Apart c (components (reuse style cs ms).0)
      × (Colored style c ms → Colored style c (reuse style cs ms).1)
unfolding reuse
reuse-other style c [] ms h = (tt, λ z. z)
reuse-other style c (d ∷ cs) ms (h, hs) =
    step (find_entry d.current style) (λ l. reuse-other style c cs l hs)
  where
    step :
        (o : Option Entry)
        → ((l : List Material)
            → Apart c (components (reuse style cs l).0)
              × (Colored style c l → Colored style c (reuse style cs l).1))
        → Apart c (components (reuse_step o d ms (reuse style cs)).0)
          × (Colored style c ms → Colored style c (reuse_step o d ms (reuse style cs)).1)
    step none ih = let (a, k) = ih ms in ((h, a), k)
    step (some e) ih =
        let (a, k) = ih (recolor d.material e.number ms) in
        (a, λ z. k (recolor-other style c d.material e.number ms h z))

pub reuse-Distinct :
    (style : List Entry) (cs : List ColorComponent) (ms : List Material)
    → Distinct (components cs)
    → Distinct (components (reuse style cs ms).0)
      × (material_names (reuse style cs ms).1 ≡ material_names ms)
unfolding reuse
reuse-Distinct style [] ms h = (tt, refl)
reuse-Distinct style (d ∷ cs) ms (h, hs) =
    step (find_entry d.current style) (λ l. reuse-Distinct style cs l hs)
  where
    step :
        (o : Option Entry)
        → ((l : List Material)
            → Distinct (components (reuse style cs l).0)
              × (material_names (reuse style cs l).1 ≡ material_names l))
        → Distinct (components (reuse_step o d ms (reuse style cs)).0)
          × (material_names (reuse_step o d ms (reuse style cs)).1 ≡ material_names ms)
    step none ih =
        let (a, n) = ih ms in let (apart, _) = reuse-other style d cs ms h in ((apart, a), n)
    step (some e) ih =
        let (a, n) = ih (recolor d.material e.number ms) in
        (a, n ∙ material_names-recolor d.material e.number ms)

-- The numbering.
pub number_all-other :
    (style : List Entry) (c : ColorComponent) (n : String) (next : ℕ) (last : Number)
    (ms : List Material)
    → c.material ≢ n
    → Colored style c ms
    → Colored style c (number_all n next last ms).materials
unfolding number_all
number_all-other style c n next last [] h z = tt
number_all-other style c n next last (m ∷ ms) h (z, zs) = elim (Bool-cases (Text.◌==◌ n m.name)) [
  | inl e ↦ rw e (
    (λ y. absurd (h (sym ((let (eq, _) = eq_iff n m.name in eq e) ∙ y)))),
    number_all-other style c n (suc next) (nth next) ms h zs,
  )
  | inr e ↦ rw e (z, number_all-other style c n next last ms h zs)
]

pub material_names-number_all :
    (n : String) (next : ℕ) (last : Number) (ms : List Material)
    → material_names (number_all n next last ms).materials ≡ material_names ms
unfolding number_all
material_names-number_all n next last [] = refl
material_names-number_all n next last (m ∷ ms) = elim (Bool-cases (Text.◌==◌ n m.name)) [
  | inl e ↦ rw e (ap (λ l. m.name ∷ l) (material_names-number_all n (suc next) (nth next) ms))
  | inr e ↦ rw e (ap (λ l. m.name ∷ l) (material_names-number_all n next last ms))
]

-- No material of the name: nothing changes.
pub number_all-none :
    (n : String) (next : ℕ) (last : Number) (ms : List Material)
    → All (λ k. n ≢ k) (material_names ms)
    → ((number_all n next last ms).last ≡ last) × ((number_all n next last ms).materials ≡ ms)
unfolding number_all
number_all-none n next last [] h = (refl, refl)
number_all-none n next last (m ∷ ms) (h, hs) =
    let (l, k) = number_all-none n next last ms hs in
    rw (ne_test n m.name h) (l, ap (λ rest. m ∷ rest) k)
