-- ===== src/Web/Items/Showing.antt =====
-- What the item form of Server/Plugins/Web/items.js shows: the properties of the item type that its select
-- has chosen, for which it also has the inputs.
use Prim.Native.String.{String}
use package.text.Mathlib.Text
use text.Mathlib.TextEquality.{eq_iff}
use starfall.Base.{
  ◌≡◌, refl, subst, sym, ap, ◌∙◌, List, [], ◌∷◌, map, All, true, false, Option, none, some, ◌⊎◌,
  inl, inr, Bool-cases, arith,
}
use starfall.Scripts.Json.{Fields, end, Key}
use starfall.Web.Items.{
  Chooser, Body, item_body, type_body, Menu, Forms, name_of, keys_of, is_nonempty, select_value,
  last_named, get_selection, chooser_of, list_of, template, content, update, reset,
}
use starfall.Web.Items.Counting.{
  IsSingle, content-menus, update-cases, update-keeps, reset-menus, one_shown, registered,
}

-- An item type has a property at least: its name.
abbrev pub IsType : Fields → Type 0
IsType fs = is_nonempty fs ≡ true

abbrev pub IsOneOf : String → List Fields → Type 0
IsOneOf v [] = ⊥
IsOneOf v (t ∷ ts) = (name_of t ≡ v) ⊎ IsOneOf v ts

-- A type of that name.
abbrev pub IsNamed : String → Fields → Type 0
IsNamed v fs = IsType fs × (name_of fs ≡ v)

last_named-kept :
    (v : String) (found : Fields) (ts : List Fields)
    → IsNamed v found
    → All IsType ts
    → IsNamed v (last_named v found ts)
unfolding last_named
last_named-kept v found [] h hs = h
last_named-kept v found (t ∷ ts) h (k, ks) = elim (Bool-cases (Text.◌==◌ (name_of t) v)) [
  | inl e ↦ rw e (last_named-kept v t ts (k, let (eq, _) = eq_iff (name_of t) v in eq e) ks)
  | inr e ↦ rw e (last_named-kept v found ts h ks)
]

pub last_named-IsNamed :
    (v : String) (ts : List Fields) (found : Fields)
    → IsOneOf v ts
    → All IsType ts
    → IsNamed v (last_named v found ts)
unfolding last_named
last_named-IsNamed v [] found h hs = elim h [ ]
last_named-IsNamed v (t ∷ ts) found (inl e) (k, ks) =
    let (_, same) = eq_iff (name_of t) v in rw (same e) (last_named-kept v t ts (k, e) ks)
last_named-IsNamed v (t ∷ ts) found (inr h) (k, ks) = last_named-IsNamed v ts _ h ks

-- What a menu shows, of these types and with these inputs.
abbrev pub ShowsBody : List Fields → List Key → Body → Type 0
ShowsBody ts ks (item_body none l) = (ts ≡ []) × (l ≡ none)
ShowsBody ts ks (item_body (some c) l) =
    IsNamed c.value (last_named c.value end ts)
    × (c.options ≡ map name_of ts)
    × (l ≡ some (keys_of (last_named c.value end ts)))
    × (ks ≡ keys_of (last_named c.value end ts))
ShowsBody ts ks (type_body rows shown) = Unit {0}

pub data Shows (ts : List Fields) (ks : List Key) : List Menu → Type 0 where
  nothing : Shows ts ks []
  menu : (m : Menu) → ShowsBody ts ks m.body → Shows ts ks (m ∷ [])

-- A form whose menu shows the types that it has.
pub record IsShowing (f : Forms) : Type 0 where
  pub types_IsType : All IsType f.item_types
  pub menus_Shows : Shows f.item_types f.inputs f.menus

content-types : (f : Forms) → (content f).item_types ≡ f.item_types
unfolding content
content-types f = ground arith

content-inputs :
    (f : Forms)
    → is_nonempty (get_selection f) ≡ true
    → (content f).inputs ≡ keys_of (get_selection f)
unfolding content
content-inputs f h = rw h refl

-- What is selected when the template's menu is the only one.
selected_at :
    (f : Forms) (c : Chooser) (l : Option (List Key))
    → (content f).menus ≡ template f ∷ []
    → (template f).body ≡ item_body (some c) l
    → get_selection (content f) ≡ last_named c.value end (content f).item_types
unfolding get_selection select_value
selected_at f c l e b = ground (arith, e, b)

selected_none : (f : Forms) → f.item_types ≡ [] → get_selection f ≡ end
unfolding get_selection last_named
selected_none f e = rw e (none_of (select_value f.menus))
  where
    none_of : (o : Option String) → elim o [ none ↦ end | some v ↦ last_named v end [] ] ≡ end
    none_of none = refl
    none_of (some v) = refl

-- The types' first name is one of them.
selected_first :
    (f : Forms) (t : Fields) (ts : List Fields)
    → f.item_types ≡ t ∷ ts
    → All IsType (t ∷ ts)
    → IsSingle f.menus
    → get_selection (content f) ≡ last_named (name_of t) end (t ∷ ts)
selected_first f t ts e h s =
    selected_at f (record { options = map name_of (t ∷ ts); value = name_of t })
      (list_of (get_selection f)) (content-menus f s)
      (ap (λ us. item_body (chooser_of us) (list_of (get_selection f))) e)
    ∙ ap (λ us. last_named (name_of t) end us) (content-types f ∙ e)

Shows-at :
    (ts : List Fields) (ks : List Key) (ms : List Menu) (m : Menu)
    → ms ≡ m ∷ []
    → ShowsBody ts ks m.body
    → Shows ts ks ms
Shows-at ts ks ms m e h = subst (Shows ts ks) (sym e) (menu m h)

reset-types : (f : Forms) → (reset f).item_types ≡ f.item_types
unfolding reset
reset-types f = update-keeps (λ h. h.item_types) content-types f

-- The selection and the inputs that go with a new menu.
abbrev Selects : List Fields → Fields → List Key → Type 0
Selects [] sel ks = sel ≡ end
Selects (t ∷ ts) sel ks = (sel ≡ last_named (name_of t) end (t ∷ ts)) × (ks ≡ keys_of sel)

list_of-nonempty : (sel : Fields) → IsType sel → list_of sel ≡ some (keys_of sel)
list_of-nonempty sel h = rw h refl

template_shows :
    (ts : List Fields) (sel : Fields) (ks : List Key)
    → All IsType ts
    → Selects ts sel ks
    → ShowsBody ts ks (item_body (chooser_of ts) (list_of sel))
template_shows [] sel ks h e = (refl, ap list_of e)
template_shows (t ∷ ts) sel ks h (e, k) =
    let named = last_named-IsNamed (name_of t) (t ∷ ts) end (inl refl) h in
    let (nonempty, _) = named in
    (
      named,
      refl,
      ap list_of e ∙ list_of-nonempty (last_named (name_of t) end (t ∷ ts)) nonempty,
      k ∙ ap keys_of e,
    )

-- The first menu stays only if there are no types.
first-Selects :
    (f : Forms) (ts : List Fields)
    → f.item_types ≡ ts
    → All IsType ts
    → IsSingle f.menus
    → is_nonempty (get_selection (content f)) ≡ false
    → Selects ts (get_selection f) (reset f).inputs
first-Selects f [] e h s n = selected_none f e
first-Selects f (t ∷ ts) e h s n =
    let (nonempty, _) = last_named-IsNamed (name_of t) (t ∷ ts) end (inl refl) h in
    absurd (cc (nonempty, n, selected_first f t ts e h s))

second-Selects :
    (f : Forms) (ts : List Fields)
    → f.item_types ≡ ts
    → All IsType ts
    → IsSingle f.menus
    → (reset f).inputs ≡ keys_of (get_selection (content f))
    → Selects ts (get_selection (content f)) (reset f).inputs
second-Selects f [] e h s k = selected_none (content f) (content-types f ∙ e)
second-Selects f (t ∷ ts) e h s k = (selected_first f t ts e h s, k)

reset-inputs :
    (f : Forms)
    → update f ≡ content (content f)
    → is_nonempty (get_selection (content f)) ≡ true
    → (reset f).inputs ≡ keys_of (get_selection (content f))
unfolding reset
reset-inputs f u n = ap (λ h. h.inputs) u ∙ content-inputs (content f) n

-- `reset` shows the types that it has.
pub reset-IsShowing : (f : Forms) → All IsType f.item_types → IsSingle f.menus → IsShowing (reset f)
reset-IsShowing f h s = record {
  types_IsType = subst (All IsType) (sym (reset-types f)) h;
  menus_Shows =
      subst (λ ts. Shows ts (reset f).inputs (reset f).menus) (sym (reset-types f))
        (elim (update-cases f) [
          | inl (u, n) ↦
              Shows-at f.item_types (reset f).inputs (reset f).menus _ (reset-menus f f u s) (
                template_shows f.item_types (get_selection f) (reset f).inputs h
                  (first-Selects f f.item_types refl h s n))
          | inr (u, n) ↦
              let g = content f in
              Shows-at f.item_types (reset f).inputs (reset f).menus _
                (reset-menus f g u
                    (subst IsSingle (sym (content-menus f s)) (one_shown (template f)))
                  ∙ ap
                      (λ ts.
                        registered (item_body (chooser_of ts) (list_of (get_selection g))) ∷ [])
                      (content-types f))
                (template_shows f.item_types (get_selection g) (reset f).inputs h
                  (second-Selects f f.item_types refl h s (reset-inputs f u n)))
        ]);
}
