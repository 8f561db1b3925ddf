-- ===== src/Web/Items/Sequences.antt =====
-- The forms of Server/Plugins/Web/items.js after any sequence of events, from the page's start on.
use starfall.Base.{List, [], ◌∷◌}
use starfall.Web.Items.{Forms}
use starfall.Web.Items.Handlers.{Event, handle, registered_anchor}
use starfall.Web.Items.Counting.{opens, no_menu, IsSound, handle-IsSound}
use starfall.Web.Items.Showing.{IsShowing, nothing}
use starfall.Web.Items.Choosing.{Possible, handle-IsShowing}

abbrev pub handle_all : List Event → Forms → Forms
handle_all [] f = f
handle_all (e ∷ es) f = handle_all es (handle e f)

-- Each event can come when it does.
abbrev pub AllPossible : List Event → Forms → Type 0
AllPossible [] f = Unit {0}
AllPossible (e ∷ es) f = Possible e f × AllPossible es (handle e f)

handle_all-keeps : (es : List Event) (f : Forms) → IsSound f → IsSound (handle_all es f)
handle_all-keeps [] f s = s
handle_all-keeps (e ∷ es) f s = handle_all-keeps es (handle e f) (handle-IsSound e f s)

handle_all-shows :
    (es : List Event) (f : Forms)
    → IsSound f
    → IsShowing f
    → AllPossible es f
    → IsShowing (handle_all es f)
handle_all-shows [] f s h p = h
handle_all-shows (e ∷ es) f s h (p, ps) =
    handle_all-shows es (handle e f) (handle-IsSound e f s) (handle-IsShowing e f s h p) ps

anchor-IsSound : IsSound registered_anchor
anchor-IsSound = record { anchored = opens; menus_IsRegistered = no_menu }

-- After any events from the page's start on, whatever the user does and whenever a reply comes: the page
-- has one menu at most, on which each button has its own handler once and no other, and so has the select
-- if there is one, and the anchor has one handler, which opens the form or closes it.
pub events-IsSound : (es : List Event) → IsSound (handle_all es registered_anchor)
events-IsSound es = handle_all-keeps es registered_anchor anchor-IsSound

-- After any events from the page's start on, the item form's list and inputs, if it is shown, are those of
-- the item type that its select shows, and its options are the names of the types that the server sent
-- last; without types it has no select and no list. Each option that the user chooses has to be the name
-- of a type that the page has then, and each type that the server sends has to have a property.
pub events-IsShowing :
    (es : List Event)
    → AllPossible es registered_anchor
    → IsShowing (handle_all es registered_anchor)
events-IsShowing es p =
    handle_all-shows es registered_anchor anchor-IsSound
      (record { types_IsType = tt; menus_Shows = nothing }) p
