-- ===== src/Web/Items/Properties.antt =====
-- What the forms of Server/Plugins/Web/items.js send: the item with the typed values of its type's
-- properties, and the item type with the properties that were added.
use Prim.Native.String.{String}
use starfall.Base.{
  ◌≡◌, refl, subst, sym, ap, ◌∙◌, List, [], ◌∷◌, ◌++◌, Bool, true, false, Option, some, inl, inr,
  Bool-cases, if◌then◌else◌, arith,
}
use starfall.Scripts.Json.{
  Key, name, Json, undefined, string, Fields, end, field, same_key, has, get, put,
}
use starfall.Scripts.Json.Lookup.{same_key-eq, get-put}
use starfall.Web.Items.{
  Chooser, item_body, type_body, Menu, Forms, text_of, keys_of, select_value, last_named,
  get_selection, on_body, reset, content,
}
use starfall.Web.Items.Handlers.{
  Typed, close, ok_click, put_inputs, item_start, item_of, add_click, property_of, create_click,
  on_closed, is_empty, to_lower_case, perform, run, of_body, ok_clicked, add_clicked, handle,
}
use starfall.Web.Items.Counting.{registered, update-keeps}
use starfall.Web.Items.Showing.{IsShowing, Shows, ShowsBody, menu}

if_same {ℓ} : {A : Type ℓ} (b : Bool) (x : A) → (if b then x else x) ≡ x
if_same true x = refl
if_same false x = refl

-- The inputs put the values of the keys over the item.
get-put_inputs :
    (j : Key) (v : Key → Json) (sel item : Fields)
    → get j (put_inputs v (keys_of sel) item) ≡ (if has j sel then v j else get j item)
unfolding put_inputs has
get-put_inputs j v end item = refl
get-put_inputs j v (field k w fs) item = elim (Bool-cases (same_key k j)) [
  | inl e ↦ rw e (
      get-put_inputs j v fs (put k (v k) item)
      ∙ ap (λ r. if has j fs then v j else r)
          (get-put j k (v k) item ∙ (rw e (ap v (same_key-eq k j e))))
      ∙ if_same (has j fs) (v j))
  | inr e ↦ rw e (
      get-put_inputs j v fs (put k (v k) item)
      ∙ ap (λ r. if has j fs then v j else r) (get-put j k (v k) item ∙ (rw e refl)))
]

-- The item of a type with these keys.
abbrev pub item_entry : Typed → Fields → Key → Json
item_entry t sel k =
    if has k sel
    then t.value_of k
    else if same_key (name "data") k
    then t.appearance
    else if same_key (name "type") k
    then get (name "name") sel
    else undefined

get-item_start :
    (k : Key) (sel : Fields) (a : Json)
    → get k (item_start sel a) ≡ (
        if same_key (name "data") k
        then a
        else if same_key (name "type") k
        then get (name "name") sel
        else undefined)
unfolding get
get-item_start k sel a =
    get-put k (name "data") a (put (name "type") (get (name "name") sel) end)
    ∙ ap (λ r. if same_key (name "data") k then a else r)
        (get-put k (name "type") (get (name "name") sel) end)

-- What Ok sends, for a menu and the inputs of its list.
abbrev Sends : Typed → Forms → Chooser → Type 0
Sends t f c =
    let sel = last_named c.value end f.item_types in
    (item : Fields) × ((handle (ok_clicked t) f).inserted ≡ f.inserted ++ (item ∷ []))
    × ((handle (ok_clicked t) f).menus ≡ [])
    × ((k : Key) → get k item ≡ item_entry t sel k)
    × (text_of (get (name "name") sel) ≡ c.value)

Sends-at :
    (t : Typed) (f : Forms) (c : Chooser) (l : Option (List Key))
    → ShowsBody f.item_types f.inputs (item_body (some c) l)
    → Sends t (record f { menus = registered (item_body (some c) l) ∷ [] }) c
unfolding handle run perform ok_click close item_of get_selection select_value
Sends-at t f c l ((n, m), o, i, k) =
    let sel = last_named c.value end f.item_types in
    (
      put_inputs t.value_of f.inputs (item_start sel t.appearance),
      refl,
      refl,
      λ j.
          ap (λ ks. get j (put_inputs t.value_of ks (item_start sel t.appearance))) k
          ∙ get-put_inputs j t.value_of sel (item_start sel t.appearance)
          ∙ ap (λ r. if has j sel then t.value_of j else r) (get-item_start j sel t.appearance),
      m,
    )

showing_at :
    (ts : List Fields) (ks : List Key) (ms : List Menu) (m : Menu)
    → Shows ts ks ms
    → ms ≡ m ∷ []
    → ShowsBody ts ks m.body
showing_at ts ks ms m h e = shown (subst (Shows ts ks) e h)
  where
    shown : Shows ts ks (m ∷ []) → ShowsBody ts ks m.body
    shown (menu _ b) = b

-- Where the item form shows a select, Ok sends one item and removes the menu: the item's type is the name
-- that the select shows, its data the colors, and it has the typed value for each property of the type,
-- which goes before the other two.
pub ok-item :
    (t : Typed) (f : Forms) (c : Chooser) (l : Option (List Key))
    → f.menus ≡ registered (item_body (some c) l) ∷ []
    → IsShowing f
    → (item : Fields) × ((handle (ok_clicked t) f).inserted ≡ f.inserted ++ (item ∷ []))
      × ((handle (ok_clicked t) f).menus ≡ [])
      × ((k : Key) → get k item ≡ item_entry t (last_named c.value end f.item_types) k)
      × (text_of (get (name "name") (last_named c.value end f.item_types)) ≡ c.value)
ok-item t f c l e h =
    subst (λ (ms : List Menu). Sends t (record f { menus = ms }) c) (sym e)
      (Sends-at t f c l (showing_at f.item_types f.inputs f.menus _ h.menus_Shows e))

-- The property that clicks on Add describe: the last data type of its name, where a blank name is none.
abbrev pub described : Key → List Typed → Json → Json
described q [] found = found
described q (t ∷ ts) found = described q ts (
    if is_empty (to_lower_case t.property)
    then found
    else if same_key (name (to_lower_case t.property)) q
    then property_of t.data_type
    else found)

abbrev pub handle_adds : List Typed → Forms → Forms
handle_adds [] f = f
handle_adds (t ∷ ts) f = handle_adds ts (handle (add_clicked t) f)

-- The form while properties are added: its menu, and what it has so far.
abbrev Adding : List Typed → Forms → Forms → Type 0
Adding ts f g =
    ((rows : List (String × String)) × (b : Bool) × (g.menus ≡ registered (type_body rows b) ∷ []))
    × (g.created ≡ f.created)
    × ((q : Key) → get q g.prototype ≡ described q ts (get q f.prototype))

add_at :
    (t : Typed) (f : Forms) (rows : List (String × String)) (b : Bool)
    → Adding
        (t ∷ [])
        f
        (handle (add_clicked t) (record f { menus = registered (type_body rows b) ∷ [] }))
unfolding handle run perform add_click on_body of_body
add_at t f rows b = elim (Bool-cases (is_empty (to_lower_case t.property))) [
  | inl e ↦ rw e ((rows, b, refl), refl, λ q. refl)
  | inr e ↦ rw e (
    (rows ++ ((to_lower_case t.property, t.data_type) ∷ []), true, refl),
    refl,
    λ q. get-put q (name (to_lower_case t.property)) (property_of t.data_type) f.prototype,
  )
]

adds-Adding :
    (ts : List Typed) (f : Forms) (rows : List (String × String)) (b : Bool)
    → f.menus ≡ registered (type_body rows b) ∷ []
    → Adding ts f (handle_adds ts f)
adds-Adding [] f rows b e = ((rows, b, e), refl, λ q. refl)
adds-Adding (t ∷ ts) f rows b e =
    let (shown, c, d) =
      subst
        (λ (ms : List Menu). Adding (t ∷ []) f (handle (add_clicked t) (record f { menus = ms })))
        (sym e) (add_at t f rows b) in
    let (rows', b', e') = shown in
    let (shown', c', d') = adds-Adding ts (handle (add_clicked t) f) rows' b' e' in
    (shown', c' ∙ c, λ q. d' q ∙ ap (described q ts) (d q))

content-created : (f : Forms) → (content f).created ≡ f.created
unfolding content
content-created f = ground arith

reset-created : (f : Forms) → (reset f).created ≡ f.created
unfolding reset
reset-created f = update-keeps (λ h. h.created) content-created f

create_at :
    (t : Typed) (f : Forms) (rows : List (String × String)) (b : Bool)
    → is_empty t.type_name ≡ false
    → (handle (ok_clicked t) (record f { menus = registered (type_body rows b) ∷ [] })).created
      ≡ f.created ++ (put (name "name") (string (to_lower_case t.type_name)) f.prototype ∷ [])
unfolding handle run perform create_click on_closed
create_at t f rows b h = rw h (reset-created _)

-- On a form for a new item type that has no properties yet, clicks on Add and then one on Ok with a name
-- that is not empty send one item type more: it has that name in lower case and, for every other key,
-- what was added last under a property whose lower case is that key; an empty property adds nothing.
pub create-described :
    (ts : List Typed) (t : Typed) (f : Forms) (rows : List (String × String)) (b : Bool)
    → f.menus ≡ registered (type_body rows b) ∷ []
    → f.prototype ≡ end
    → is_empty t.type_name ≡ false
    → (p : Fields) × ((handle (ok_clicked t) (handle_adds ts f)).created ≡ f.created ++ (p ∷ []))
      × ((q : Key)
          → get q p ≡ (
              if same_key (name "name") q
              then string (to_lower_case t.type_name)
              else described q ts undefined))
unfolding get
create-described ts t f rows b e z h =
    let g = handle_adds ts f in
    let (shown, c, d) = adds-Adding ts f rows b e in
    let (rows', b', e') = shown in
    (
      put (name "name") (string (to_lower_case t.type_name)) g.prototype,
      subst
            (λ (ms : List Menu).
              (handle (ok_clicked t) (record g { menus = ms })).created
              ≡ g.created
                ++ (put (name "name") (string (to_lower_case t.type_name)) g.prototype ∷ []))
            (sym e') (create_at t g rows' b' h)
          ∙ ap
              (λ cs.
                cs ++ (put (name "name") (string (to_lower_case t.type_name)) g.prototype ∷ []))
              c,
      λ q.
          get-put q (name "name") (string (to_lower_case t.type_name)) g.prototype
          ∙ ap (λ r. if same_key (name "name") q then string (to_lower_case t.type_name) else r)
              (d q ∙ ap (λ fs. described q ts (get q fs)) z),
    )
