-- ===== src/Web/Items/Choosing.antt =====
-- The item form of Server/Plugins/Web/items.js over its events: the item type that is chosen.
use Prim.Native.String.{String}
use starfall.Base.{
  ◌≡◌, refl, List, [], ◌∷◌, ◌++◌, map, All, true, false, none, some, inl, inr, Bool-cases,
}
use starfall.Scripts.Json.{Fields, end, Key}
use starfall.Web.Items.{
  Handler, on_open, on_close, on_select, on_ok, on_cancel, on_new, on_add, on_back, on_create,
  Chooser, item_body, type_body, Menu, Forms, name_of, keys_of, select_value, last_named,
  get_selection, remove_menu, on_body, is_type, has_select, reset_types,
}
use starfall.Web.Items.Handlers.{
  Typed, untyped, close, open_form, select_change, ok_click, new_click, on_closed, add_click,
  add_row, create_click, is_empty, to_lower_case, perform, run, of_body, choose, Event,
  anchor_clicked, cancel_clicked, new_clicked, type_stored, ok_clicked, add_clicked, chosen,
  types_replied, handle,
}
use starfall.Web.Items.Counting.{
  IsRegistered, no_menu, one_menu, IsRegistered-IsSingle, IsSound, perform-IsSound, registered,
}
use starfall.Web.Items.Showing.{
  IsType, IsOneOf, IsNamed, Shows, nothing, menu, IsShowing, reset-IsShowing, last_named-IsNamed,
}

-- A menu that goes, or that is the item type form's, shows nothing.
removed-Shows :
    (ts : List Fields) (ks : List Key) (ms : List Menu)
    → IsRegistered ms
    → Shows ts ks (remove_menu ms)
removed-Shows ts ks _ no_menu = nothing
removed-Shows ts ks _ (one_menu b) = nothing

close-IsShowing : (f : Forms) → IsSound f → IsShowing f → IsShowing (close f)
unfolding close
close-IsShowing f s h = record {
  types_IsType = h.types_IsType;
  menus_Shows = removed-Shows f.item_types f.inputs f.menus s.menus_IsRegistered;
}

new-Shows :
    (f : Forms) (ms : List Menu)
    → IsRegistered ms
    → Shows f.item_types f.inputs (reset_types (record f { menus = remove_menu ms })).menus
unfolding reset_types on_body
new-Shows f _ no_menu = menu (registered (type_body [] false)) tt
new-Shows f _ (one_menu b) = menu (registered (type_body [] false)) tt

add-Shows :
    (ts : List Fields) (ks : List Key) (p d : String) (ms : List Menu)
    → IsRegistered ms
    → Shows ts ks ms
    → Shows ts ks (on_body is_type (add_row p d) ms)
unfolding on_body
add-Shows ts ks p d _ no_menu h = nothing
add-Shows ts ks p d _ (one_menu (item_body c l)) h = h
add-Shows ts ks p d _ (one_menu (type_body rows b)) h =
    menu (registered (type_body (rows ++ ((p, d) ∷ [])) true)) tt

-- The list is filled again with the properties of the type whose name the select has.
selected-Shows :
    (f : Forms) (c : Chooser) (l : List Key)
    → IsNamed c.value (last_named c.value end f.item_types)
    → c.options ≡ map name_of f.item_types
    → Shows f.item_types
        (select_change (record f { menus = registered (item_body (some c) (some l)) ∷ [] })).inputs
        (select_change (record f { menus = registered (item_body (some c) (some l)) ∷ [] })).menus
unfolding select_change on_body get_selection select_value
selected-Shows f c l n o =
    menu (registered (item_body (some c) (some (keys_of (last_named c.value end f.item_types)))))
      (n, o, refl, refl)

change-IsShowing :
    (f : Forms) (c : Chooser) (l : List Key)
    → All IsType f.item_types
    → IsNamed c.value (last_named c.value end f.item_types)
    → c.options ≡ map name_of f.item_types
    → IsShowing (select_change (record f { menus = registered (item_body (some c) (some l)) ∷ [] }))
unfolding select_change
change-IsShowing f c l ts n o = record { types_IsType = ts; menus_Shows = selected-Shows f c l n o }

change-Shows :
    (f : Forms) (ms : List Menu)
    → IsRegistered ms
    → Shows f.item_types f.inputs ms
    → Shows f.item_types
        (select_change (record f { menus = ms })).inputs
        (select_change (record f { menus = ms })).menus
unfolding select_change on_body
change-Shows f _ no_menu h = nothing
change-Shows f _ (one_menu (item_body none l)) (menu _ (e, k)) = menu _ (e, rw k refl)
change-Shows f _ (one_menu (item_body (some c) none)) (menu _ (n, o, k, i)) = cc k
change-Shows f _ (one_menu (item_body (some c) (some l))) (menu _ (n, o, k, i)) =
    selected-Shows f c l n o
change-Shows f _ (one_menu (type_body rows b)) h = menu _ tt

new-IsShowing : (f : Forms) → IsSound f → IsShowing f → IsShowing (new_click f)
unfolding new_click reset_types
new-IsShowing f s h = record {
  types_IsType = h.types_IsType;
  menus_Shows = new-Shows f f.menus s.menus_IsRegistered;
}

select_change-IsShowing : (f : Forms) → IsSound f → IsShowing f → IsShowing (select_change f)
unfolding select_change
select_change-IsShowing f s h = record {
  types_IsType = h.types_IsType;
  menus_Shows = change-Shows f f.menus s.menus_IsRegistered h.menus_Shows;
}

perform-IsShowing :
    (t : Typed) (h : Handler) (f : Forms) → IsSound f → IsShowing f → IsShowing (perform t h f)
unfolding perform open_form ok_click on_closed add_click create_click
perform-IsShowing t on_open f s h =
    reset-IsShowing _ h.types_IsType (IsRegistered-IsSingle f.menus s.menus_IsRegistered)
perform-IsShowing t on_close f s h = close-IsShowing f s h
perform-IsShowing t on_select f s h = select_change-IsShowing f s h
perform-IsShowing t on_ok f s h =
    close-IsShowing _ (record { anchored = s.anchored; menus_IsRegistered = s.menus_IsRegistered })
      (record { types_IsType = h.types_IsType; menus_Shows = h.menus_Shows })
perform-IsShowing t on_cancel f s h = close-IsShowing f s h
perform-IsShowing t on_new f s h = new-IsShowing f s h
perform-IsShowing t on_add f s h = elim (Bool-cases (is_empty (to_lower_case t.property))) [
  | inl e ↦ rw e h
  | inr e ↦ rw e (record {
    types_IsType = h.types_IsType;
    menus_Shows =
        add-Shows f.item_types f.inputs (to_lower_case t.property) t.data_type f.menus
          s.menus_IsRegistered h.menus_Shows;
  })
]
perform-IsShowing t on_back f s h =
    reset-IsShowing _ h.types_IsType (IsRegistered-IsSingle f.menus s.menus_IsRegistered)
perform-IsShowing t on_create f s h = elim (Bool-cases (is_empty t.type_name)) [
  | inl e ↦ rw e h
  | inr e ↦
      rw e (reset-IsShowing _ h.types_IsType (IsRegistered-IsSingle f.menus s.menus_IsRegistered))
]

run-IsShowing :
    (t : Typed) (hs : List Handler) (f : Forms) → IsSound f → IsShowing f → IsShowing (run t hs f)
unfolding run
run-IsShowing t [] f s h = h
run-IsShowing t (k ∷ ks) f s h =
    run-IsShowing t ks (perform t k f) (perform-IsSound t k f s) (perform-IsShowing t k f s h)

-- The user chooses another option, of which there is a type.
chosen-Shows :
    (f : Forms) (v : String) (ms : List Menu)
    → All IsType f.item_types
    → IsOneOf v f.item_types
    → IsRegistered ms
    → Shows f.item_types f.inputs ms
    → IsShowing (
        run untyped
          (of_body has_select (λ m. m.select) ms)
          (record f { menus = on_body has_select (choose v) ms }))
unfolding run on_body of_body perform
chosen-Shows f v _ ts o no_menu h = record { types_IsType = ts; menus_Shows = nothing }
chosen-Shows f v _ ts o (one_menu (item_body none l)) h = record {
  types_IsType = ts;
  menus_Shows = h;
}
chosen-Shows f v _ ts o (one_menu (item_body (some c) none)) (menu _ (n, p, k, i)) = cc k
chosen-Shows f v _ ts o (one_menu (item_body (some c) (some l))) (menu _ (n, p, k, i)) =
    let c' = record c { value = v } in
    change-IsShowing f c' l ts (last_named-IsNamed v f.item_types end o ts) p
chosen-Shows f v _ ts o (one_menu (type_body rows b)) h = record {
  types_IsType = ts;
  menus_Shows = h;
}

-- An option is chosen that the select has, and the types that the server sends have names.
abbrev pub Possible : Event → Forms → Type 0
Possible (chosen v) f = IsOneOf v f.item_types
Possible (types_replied (some ts)) f = All IsType ts
Possible _ f = Unit {0}

-- Each possible event keeps the list and the inputs those of the item type that the select shows.
pub handle-IsShowing :
    (e : Event) (f : Forms) → IsSound f → IsShowing f → Possible e f → IsShowing (handle e f)
unfolding handle
handle-IsShowing anchor_clicked f s h p = run-IsShowing _ _ f s h
handle-IsShowing cancel_clicked f s h p = run-IsShowing _ _ f s h
handle-IsShowing new_clicked f s h p = run-IsShowing _ _ f s h
handle-IsShowing type_stored f s h p = record {
  types_IsType = h.types_IsType;
  menus_Shows = h.menus_Shows;
}
handle-IsShowing (ok_clicked t) f s h p = run-IsShowing _ _ f s h
handle-IsShowing (add_clicked t) f s h p = run-IsShowing _ _ f s h
handle-IsShowing (chosen v) f s h p =
    chosen-Shows f v f.menus h.types_IsType p s.menus_IsRegistered h.menus_Shows
handle-IsShowing (types_replied none) f s h p =
    reset-IsShowing _ h.types_IsType (IsRegistered-IsSingle f.menus s.menus_IsRegistered)
handle-IsShowing (types_replied (some ts)) f s h p =
    reset-IsShowing _ p (IsRegistered-IsSingle f.menus s.menus_IsRegistered)
