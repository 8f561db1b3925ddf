-- ===== src/Web/Items/Counting.antt =====
-- The elements and handlers of the forms of Server/Plugins/Web/items.js, which each event keeps.
use Prim.Native.String.{String}
use starfall.Base.{
  ◌≡◌, refl, subst, sym, ap, ◌∙◌, List, [], ◌∷◌, ◌++◌, Bool, true, false, Option, none, some, ◌⊎◌,
  inl, inr, Bool-cases, arith,
}
use starfall.Scripts.Json.{Key}
use starfall.Web.Items.{
  Chooser, bare, register, chooser_of, list_of, Handler, on_open, on_close, on_select, on_ok,
  on_cancel, on_new, on_add, on_back, on_create, Body, item_body, type_body, Menu, Forms,
  is_nonempty, get_selection, remove_menu, template, content, update, on_body, is_item, is_type,
  has_select, reset, reset_types,
}
use starfall.Web.Items.Handlers.{
  Typed, close, open_form, select_change, refill, ok_click, new_click, on_closed, add_click,
  add_row, create_click, is_empty, to_lower_case, perform, run, choose, Event, anchor_clicked,
  cancel_clicked, new_clicked, type_stored, ok_clicked, add_clicked, chosen, types_replied, handle,
}

-- A menu on which each button has its handler once: the item form's, where a select has one if it is
-- there, and the item type form's.
abbrev pub select_handlers : Bool → List Handler
select_handlers true = on_select ∷ []
select_handlers false = []

abbrev pub registered : Body → Menu
registered (item_body c l) = record {
  body = item_body c l;
  ok_button = on_ok ∷ [];
  cancel_button = on_cancel ∷ [];
  new_button = on_new ∷ [];
  add_button = [];
  select = select_handlers (has_select (item_body c l));
}
registered (type_body rows shown) = record {
  body = type_body rows shown;
  ok_button = on_create ∷ [];
  cancel_button = on_back ∷ [];
  new_button = [];
  add_button = on_add ∷ [];
  select = [];
}

-- One menu at most.
pub data IsRegistered : List Menu → Type 0 where
  no_menu : IsRegistered []
  one_menu : (b : Body) → IsRegistered (registered b ∷ [])

-- The anchor opens the form, or closes it.
pub data IsAnchored : List Handler → Type 0 where
  opens : IsAnchored (on_open ∷ [])
  closes : IsAnchored (on_close ∷ [])

pub record IsSound (f : Forms) : Type 0 where
  pub anchored : IsAnchored f.anchor
  pub menus_IsRegistered : IsRegistered f.menus

-- One menu at most, whatever its handlers.
pub data IsSingle : List Menu → Type 0 where
  none_shown : IsSingle []
  one_shown : (m : Menu) → IsSingle (m ∷ [])

pub IsRegistered-IsSingle : (ms : List Menu) → IsRegistered ms → IsSingle ms
IsRegistered-IsSingle _ no_menu = none_shown
IsRegistered-IsSingle _ (one_menu b) = one_shown (registered b)

remove_menu-append : (ms : List Menu) (m : Menu) → IsSingle ms → remove_menu ms ++ (m ∷ []) ≡ m ∷ []
remove_menu-append _ m none_shown = refl
remove_menu-append _ m (one_shown m') = refl

-- `contentFunc` leaves one menu, the template's, and so does `update`.
pub content-menus : (f : Forms) → IsSingle f.menus → (content f).menus ≡ template f ∷ []
unfolding content
content-menus f r = remove_menu-append f.menus (template f) r

pub update-cases :
    (f : Forms)
    → (update f ≡ content f) × (is_nonempty (get_selection (content f)) ≡ false)
      ⊎ (update f ≡ content (content f)) × (is_nonempty (get_selection (content f)) ≡ true)
unfolding update
update-cases f = elim (Bool-cases (is_nonempty (get_selection (content f)))) [
  | inl e ↦ inr (rw e refl, e)
  | inr e ↦ inl (rw e refl, e)
]

register-bare :
    (c : Option Chooser) (l : Option (List Key))
    → register (bare (item_body c l) ∷ []) ≡ registered (item_body c l) ∷ []
unfolding register on_body
register-bare none l = refl
register-bare (some c) l = refl

-- `reset` leaves one menu, with all its handlers.
pub reset-menus :
    (f g : Forms)
    → update f ≡ content g
    → IsSingle g.menus
    → (reset f).menus
      ≡ registered (item_body (chooser_of g.item_types) (list_of (get_selection g))) ∷ []
unfolding reset
reset-menus f g e s =
    ap (λ h. register h.menus) e
    ∙ ap register (content-menus g s)
    ∙ register-bare (chooser_of g.item_types) (list_of (get_selection g))

one_menu-at : (ms : List Menu) (b : Body) → ms ≡ registered b ∷ [] → IsRegistered ms
one_menu-at ms b e = subst IsRegistered (sym e) (one_menu b)

pub reset-IsRegistered : (f : Forms) → IsSingle f.menus → IsRegistered (reset f).menus
reset-IsRegistered f s = elim (update-cases f) [
  | inl (e, _) ↦
      one_menu-at (reset f).menus (item_body (chooser_of f.item_types) (list_of (get_selection f)))
        (reset-menus f f e s)
  | inr (e, _) ↦
      let g = content f in
      one_menu-at (reset f).menus (item_body (chooser_of g.item_types) (list_of (get_selection g)))
        (reset-menus f (content f) e
          (subst IsSingle (sym (content-menus f s)) (one_shown (template f))))
]

content-anchor : (f : Forms) → (content f).anchor ≡ f.anchor
unfolding content
content-anchor f = ground arith

-- What `contentFunc` keeps, `update` keeps.
pub update-keeps {ℓ} :
    {A : Type ℓ} (p : Forms → A)
    → ((f : Forms) → p (content f) ≡ p f)
    → (f : Forms) → p (update f) ≡ p f
update-keeps p k f = elim (update-cases f) [
  | inl (e, _) ↦ ap p e ∙ k f
  | inr (e, _) ↦ ap p e ∙ k (content f) ∙ k f
]

pub reset-anchor : (f : Forms) → (reset f).anchor ≡ f.anchor
unfolding reset
reset-anchor f = update-keeps (λ h. h.anchor) content-anchor f

pub reset-IsSound : (f : Forms) → IsAnchored f.anchor → IsSingle f.menus → IsSound (reset f)
reset-IsSound f a s = record {
  anchored = subst IsAnchored (sym (reset-anchor f)) a;
  menus_IsRegistered = reset-IsRegistered f s;
}

remove_menu-single : (ms : List Menu) → IsSingle ms → remove_menu ms ≡ []
remove_menu-single _ none_shown = refl
remove_menu-single _ (one_shown m) = refl

reset_types-IsRegistered : (f : Forms) → f.menus ≡ [] → IsRegistered (reset_types f).menus
unfolding reset_types on_body
reset_types-IsRegistered f e =
    subst (λ ms. IsRegistered (reset_types (record f { menus = ms })).menus) (sym e)
      (one_menu (type_body [] false))

reset_types-anchor : (f : Forms) → (reset_types f).anchor ≡ f.anchor
unfolding reset_types
reset_types-anchor f = refl

select_change-IsRegistered :
    (keys : List Key) (ms : List Menu)
    → IsRegistered ms
    → IsRegistered (on_body is_item (refill keys) ms)
unfolding on_body
select_change-IsRegistered keys _ no_menu = no_menu
select_change-IsRegistered keys _ (one_menu (item_body none l)) = one_menu (item_body none _)
select_change-IsRegistered keys _ (one_menu (item_body (some c) l)) =
    one_menu (item_body (some c) _)
select_change-IsRegistered keys _ (one_menu (type_body rows b)) = one_menu (type_body rows b)

add_row-IsRegistered :
    (p d : String) (ms : List Menu)
    → IsRegistered ms
    → IsRegistered (on_body is_type (add_row p d) ms)
unfolding on_body
add_row-IsRegistered p d _ no_menu = no_menu
add_row-IsRegistered p d _ (one_menu (item_body c l)) = one_menu (item_body c l)
add_row-IsRegistered p d _ (one_menu (type_body rows b)) =
    one_menu (type_body (rows ++ ((p, d) ∷ [])) true)

choose-IsRegistered :
    (v : String) (ms : List Menu)
    → IsRegistered ms
    → IsRegistered (on_body has_select (choose v) ms)
unfolding on_body
choose-IsRegistered v _ no_menu = no_menu
choose-IsRegistered v _ (one_menu (item_body none l)) = one_menu (item_body none l)
choose-IsRegistered v _ (one_menu (item_body (some c) l)) =
    one_menu (item_body (some (record c { value = v })) l)
choose-IsRegistered v _ (one_menu (type_body rows b)) = one_menu (type_body rows b)

-- Every handler keeps the forms sound.
close-IsSound : (f : Forms) → IsSound f → IsSound (close f)
unfolding close
close-IsSound f s = record {
  anchored = opens;
  menus_IsRegistered =
      subst IsRegistered
        (sym (remove_menu-single f.menus (IsRegistered-IsSingle f.menus s.menus_IsRegistered)))
        no_menu;
}

pub perform-IsSound : (t : Typed) (h : Handler) (f : Forms) → IsSound f → IsSound (perform t h f)
unfolding perform open_form select_change ok_click new_click on_closed add_click create_click
perform-IsSound t on_open f s =
    reset-IsSound _ closes (IsRegistered-IsSingle f.menus s.menus_IsRegistered)
perform-IsSound t on_close f s = close-IsSound f s
perform-IsSound t on_select f s = record {
  anchored = s.anchored;
  menus_IsRegistered = select_change-IsRegistered _ f.menus s.menus_IsRegistered;
}
perform-IsSound t on_ok f s =
    close-IsSound _ (record { anchored = s.anchored; menus_IsRegistered = s.menus_IsRegistered })
perform-IsSound t on_cancel f s = close-IsSound f s
perform-IsSound t on_new f s =
    let emptied = record f { menus = remove_menu f.menus } in
    record {
      anchored = subst IsAnchored (sym (reset_types-anchor emptied)) s.anchored;
      menus_IsRegistered =
          reset_types-IsRegistered emptied
            (remove_menu-single f.menus (IsRegistered-IsSingle f.menus s.menus_IsRegistered));
    }
perform-IsSound t on_add f s = elim (Bool-cases (is_empty (to_lower_case t.property))) [
  | inl e ↦ rw e s
  | inr e ↦ rw e (record {
    anchored = s.anchored;
    menus_IsRegistered =
        add_row-IsRegistered (to_lower_case t.property) t.data_type f.menus s.menus_IsRegistered;
  })
]
perform-IsSound t on_back f s =
    reset-IsSound _ s.anchored (IsRegistered-IsSingle f.menus s.menus_IsRegistered)
perform-IsSound t on_create f s = elim (Bool-cases (is_empty t.type_name)) [
  | inl e ↦ rw e s
  | inr e ↦ rw e (reset-IsSound _ s.anchored (IsRegistered-IsSingle f.menus s.menus_IsRegistered))
]

pub run-IsSound : (t : Typed) (hs : List Handler) (f : Forms) → IsSound f → IsSound (run t hs f)
unfolding run
run-IsSound t [] f s = s
run-IsSound t (h ∷ hs) f s = run-IsSound t hs (perform t h f) (perform-IsSound t h f s)

-- Each event keeps that the anchor opens the form or closes it and that there is at most one menu, on
-- which each button has its own handler once, and so has the select if there is one.
pub handle-IsSound : (e : Event) (f : Forms) → IsSound f → IsSound (handle e f)
unfolding handle
handle-IsSound anchor_clicked f s = run-IsSound _ _ f s
handle-IsSound cancel_clicked f s = run-IsSound _ _ f s
handle-IsSound new_clicked f s = run-IsSound _ _ f s
handle-IsSound type_stored f s = record {
  anchored = s.anchored;
  menus_IsRegistered = s.menus_IsRegistered;
}
handle-IsSound (ok_clicked t) f s = run-IsSound _ _ f s
handle-IsSound (add_clicked t) f s = run-IsSound _ _ f s
handle-IsSound (chosen v) f s = run-IsSound _ _ _ (record {
  anchored = s.anchored;
  menus_IsRegistered = choose-IsRegistered v f.menus s.menus_IsRegistered;
})
handle-IsSound (types_replied none) f s =
    reset-IsSound _ s.anchored (IsRegistered-IsSingle f.menus s.menus_IsRegistered)
handle-IsSound (types_replied (some ts)) f s =
    reset-IsSound _ s.anchored (IsRegistered-IsSingle f.menus s.menus_IsRegistered)
