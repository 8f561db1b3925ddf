-- ===== src/Web/Components/Referring.antt =====
-- After `Model.data` of Server/Plugins/Web/app/components.appearance.js a material refers to the color that
-- was chosen for it.
use text.Mathlib.Text
use text.Mathlib.TextEquality.{eq_iff}
use starfall.Base.{
  ℕ, suc, ◌≡◌, ◌≢◌, refl, sym, subst, ◌∙◌, List, [], ◌∷◌, ◌++◌, true, Option, none, some,
  if◌then◌else◌, All, Bool-cases, inl, inr,
}
use starfall.Web.Components.Styling.{
  Rgb, Number, minus_one, nth, Material, Entry, ColorComponent, Sheet, same_rgb, find_entry,
  recolor, reuse, number_all, assign, data_part,
}
use starfall.Web.Components.Styled.{
  Colored, material_names, Distinct, components, HasEntry-behind, Colored-before,
  find_entry-HasEntry, recolor-own, Apart, reuse_step, reuse-other, reuse-Distinct,
  number_all-other, material_names-number_all, number_all-none,
}

same_rgb_refl : (c : Rgb) → same_rgb c c ≡ true
same_rgb_refl c =
    let (_, r) = eq_iff c.red c.red in
    let (_, g) = eq_iff c.green c.green in
    let (_, b) = eq_iff c.blue c.blue in rw (r refl, g refl, b refl) refl

Colored-none :
    (style : List Entry) (c : ColorComponent) (ms : List Material)
    → All (λ k. c.material ≢ k) (material_names ms)
    → Colored style c ms
Colored-none style c [] h = tt
Colored-none style c (m ∷ ms) (h, hs) = ((λ y. absurd (h (sym y))), Colored-none style c ms hs)

-- The only material of a component's name has the number of its new entry.
number_all-own :
    (c : ColorComponent) (x : Entry) (next : ℕ) (last : Number) (ms : List Material)
    → Distinct (material_names ms)
    → same_rgb c.current x.rgb ≡ true
    → x.number ≡ (number_all c.material next last ms).last
    → Colored (x ∷ []) c (number_all c.material next last ms).materials
unfolding number_all
number_all-own c x next last [] h q z = tt
number_all-own c x next last (m ∷ ms) (h, hs) q z =
    elim (Bool-cases (Text.◌==◌ c.material m.name)) [
      | inr e ↦ rw e (
        (λ y. absurd (cc (e, let (_, same) = eq_iff c.material m.name in same (sym y)))),
        number_all-own c x next last ms hs q (
            subst
              (λ b.
                x.number
                ≡ (number_all c.material (if b then suc next else next)
                    (if b then nth next else last) ms).last)
              e z),
      )
      | inl e ↦
          let same = let (eq, _) = eq_iff c.material m.name in eq e in
          let apart = subst (λ n. All (λ k. n ≢ k) (material_names ms)) (sym same) h in
          let (l, k) = number_all-none c.material (suc next) (nth next) ms apart in
          let z' : x.number ≡ (number_all c.material (suc next) (nth next) ms).last =
            subst
              (λ b.
                x.number
                ≡ (number_all c.material (if b then suc next else next)
                    (if b then nth next else last) ms).last)
              e z in
          rw e (
            (λ y. inl (q, z' ∙ l)),
            subst (Colored (x ∷ []) c) (sym k) (Colored-none (x ∷ []) c ms apart),
          )
    ]

assign-other :
    (style : List Entry) (c : ColorComponent) (next : ℕ) (cs : List ColorComponent)
    (ms : List Material)
    → Apart c (components cs)
    → Colored style c ms
    → Colored style c (assign next cs ms).materials
unfolding assign
assign-other style c next [] ms h z = z
assign-other style c next (d ∷ cs) ms (h, hs) z =
    let n = number_all d.material next minus_one ms in
    assign-other style c n.next_number cs n.materials hs
      (number_all-other style c d.material next minus_one ms h z)

Colored-behind :
    (es fs : List Entry) (c : ColorComponent) (ms : List Material)
    → Colored fs c ms
    → Colored (es ++ fs) c ms
Colored-behind es fs c [] h = tt
Colored-behind es fs c (m ∷ ms) (h, hs) =
    (λ e. HasEntry-behind c.current m.color es fs (h e), Colored-behind es fs c ms hs)

All-behind :
    (es fs : List Entry) (cs : List ColorComponent) (ms : List Material)
    → All (λ c. Colored fs c ms) cs
    → All (λ c. Colored (es ++ fs) c ms) cs
All-behind es fs [] ms h = tt
All-behind es fs (c ∷ cs) ms (h, hs) = (Colored-behind es fs c ms h, All-behind es fs cs ms hs)

-- Each component that gets a new entry has its materials refer to it.
assign-own :
    (next : ℕ) (cs : List ColorComponent) (ms : List Material)
    → Distinct (components cs)
    → Distinct (material_names ms)
    → All (λ c. Colored (assign next cs ms).entries c (assign next cs ms).materials) cs
unfolding assign
assign-own next [] ms h d = tt
assign-own next (c ∷ cs) ms (h, hs) d =
    let n = number_all c.material next minus_one ms in
    let rest = assign n.next_number cs n.materials in
    let entry : Entry = record { rgb = c.current; number = n.last } in
    (
      Colored-before (entry ∷ []) rest.entries c rest.materials (
          assign-other (entry ∷ []) c n.next_number cs n.materials h
            (number_all-own c entry next minus_one ms d (same_rgb_refl c.current) refl)),
      All-behind (entry ∷ []) rest.entries cs rest.materials (
          assign-own n.next_number cs n.materials hs
            (subst Distinct (sym (material_names-number_all c.material next minus_one ms)) d)),
    )

both-All :
    (P : ColorComponent → Type 0) (c : ColorComponent) (cs : List ColorComponent)
    → Apart c (components cs)
    → All P cs
    → All (λ c'. P c' × (c'.material ≢ c.material)) cs
both-All P c [] h p = tt
both-All P c (d ∷ cs) (h, hs) (p, ps) = ((p, λ e. h (sym e)), both-All P c cs hs ps)

-- What holds of the kept components, and of those whose materials the filter colored, holds of all.
reuse-All :
    (P T : ColorComponent → Type 0) (style : List Entry) (cs : List ColorComponent)
    (ms : List Material)
    → Distinct (components cs)
    → All P cs
    → All T (reuse style cs ms).0
    → ((c : ColorComponent)
        → P c
        → Apart c (components (reuse style cs ms).0)
        → Colored style c (reuse style cs ms).1
        → T c)
    → All T cs
unfolding reuse
reuse-All P T style [] ms d p k f = tt
reuse-All P T style (c ∷ cs) ms (d, ds) (p, ps) k f =
    step (find_entry c.current style) refl k f
      (λ P' l ps' k' f'. reuse-All P' T style cs l ds ps' k' f')
  where
    step :
        (o : Option Entry)
        → find_entry c.current style ≡ o
        → All T (reuse_step o c ms (reuse style cs)).0
        → ((c' : ColorComponent)
            → P c'
            → Apart c' (components (reuse_step o c ms (reuse style cs)).0)
            → Colored style c' (reuse_step o c ms (reuse style cs)).1
            → T c')
        → ((P' : ColorComponent → Type 0) (l : List Material)
            → All P' cs
            → All T (reuse style cs l).0
            → ((c' : ColorComponent)
                → P' c'
                → Apart c' (components (reuse style cs l).0)
                → Colored style c' (reuse style cs l).1
                → T c')
            → All T cs)
        → All T (c ∷ cs)
    step none e (k, ks) f ih = (
      k,
      ih (λ c'. P c' × (c'.material ≢ c.material)) ms (both-All P c cs d ps) ks
          (λ c' (p', h) a z. f c' p' (h, a) z),
    )
    step (some x) e k f ih =
        let l = recolor c.material x.number ms in
        let (a, keep) = reuse-other style c cs l d in
        (
          f c p a
              (keep (recolor-own style c x.number ms (find_entry-HasEntry c.current style x e))),
          ih P l ps k f,
        )

-- If the components of a part have different materials, and so has the part, then after the part is styled
-- every material of a component has the number of an entry in the style sheet whose color is what the
-- component's sliders say: the entry was there, or it is new.
pub data_part-Colored :
    (cs : List ColorComponent) (ms : List Material) (s : Sheet)
    → Distinct (components cs)
    → Distinct (material_names ms)
    → All (λ c. Colored (data_part cs ms s).1.style c (data_part cs ms s).0) cs
unfolding data_part
data_part-Colored cs ms s d n =
    let (kept, ms') = reuse s.style cs ms in
    let (dk, same) = reuse-Distinct s.style cs ms d in
    let a = assign s.next_number (reuse s.style cs ms).0 (reuse s.style cs ms).1 in
    reuse-All (λ c. Unit {0}) (λ c. Colored (s.style ++ a.entries) c a.materials) s.style cs ms d
      (all_unit cs)
      (All-behind s.style a.entries (reuse s.style cs ms).0 a.materials (
        assign-own s.next_number (reuse s.style cs ms).0 (reuse s.style cs ms).1 dk
          (subst Distinct (sym same) n)))
      (λ c p apart z. Colored-before s.style a.entries c a.materials (
        assign-other s.style c s.next_number (reuse s.style cs ms).0 (reuse s.style cs ms).1 apart
          z))
  where
    all_unit : (cs : List ColorComponent) → All (λ c. Unit {0}) cs
    all_unit [] = tt
    all_unit (c ∷ cs) = (tt, all_unit cs)
