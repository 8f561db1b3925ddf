-- ===== src/Web/Session/Rows/Shown.antt =====
-- What the page of Server/Plugins/Web/app/app.js shows in a session.
use Prim.Native.String.{String}
use starfall.Base.{
  ℕ, zero, suc, ◌+◌, ◌-◌, ◌<◌, ◌≡◌, refl, sym, subst, Bool, true, false, not, ◌&&◌, ◌==◌, leb, ltb,
  List, [], ◌++◌, map, length, All, All-append, All-map, none, some, arith, inl, inr, Bool-cases,
}
use starfall.Web.Page.{
  Message, Reply, Row, Filter, render, set_visible, hide, is_blank, underscored,
}
use starfall.Web.Filters.{change, add, has_id, named}
use starfall.Web.Filters.Hiding.{hide_row, hide_lem, filter-keeps}
use starfall.Web.App.{
  Account, App, initial, times, login_click, login_done, store_max, on_console, more_update, init,
  on_more, more_done, more_click, on_new, new_click, news_update, updater_done,
}
use starfall.Web.App.Events.{
  Event, login_clicked, login_replied, console_replied, new_clicked, new_replied, more_clicked,
  more_replied, timed_out, max_replied, filter_added, filter_changed, handle,
}
use starfall.Web.Session.Rows.{
  view, Filtered, DistinctIds, Sound, map-All_ids, map-DistinctIds, id-hide_row, id-set_visible,
  map-Filtered, hide_obj-Filtered, unfiltered, render-above, render-DistinctIds, append-DistinctIds,
}
use starfall.Web.Session.{Enabled, InSession, logged_in, InSession-induction}

-- Rows of different ids below the counter, from which `hide` takes the filtered ones.
hide-Sound :
    (on : List Filter) (rows : List Row) (c : ℕ)
    → DistinctIds rows
    → All (λ r. r.id < c) rows
    → Sound (record { on = on; rows = hide on rows; counter = c })
hide-Sound on rows c d b =
    subst (λ rs. Sound (record { on = on; rows = rs; counter = c })) (sym (hide_lem on rows))
      (
        map-Filtered on rows,
        map-DistinctIds (hide_row on) (id-hide_row on) rows d,
        map-All_ids (hide_row on) (id-hide_row on) (λ i. i < c) rows b,
      )

module _ (c : ℕ) (ms : List Message) (rows : List Row) (below : All (λ r. r.id < c) rows) where
  still_below : All (λ r. r.id < c + length ms) rows
  still_below = All-map (λ r h. omega (arith, h)) rows below

  render_below : All (λ r. r.id < c + length ms) (render c ms)
  render_below = All-map (λ r (l, u). u) (render c ms) (render-above c ms)

  new-DistinctIds : DistinctIds rows → DistinctIds (render c ms ++ rows)
  new-DistinctIds d = append-DistinctIds (render c ms) rows (render-DistinctIds c ms) d (
      All-map (λ r (l, u). All-map (λ s h. ground (arith, l, h)) rows below) (render c ms)
        (render-above c ms))

  more-DistinctIds : DistinctIds rows → DistinctIds (rows ++ render c ms)
  more-DistinctIds d = append-DistinctIds rows (render c ms) d (render-DistinctIds c ms) (
      All-map (λ r h. All-map (λ s (l, u). ground (arith, l, h)) (render c ms) (render-above c ms))
        rows below)

on_new-Sound : (obj : Reply) (app : App) → Sound (view app) → Sound (view (on_new obj app))
unfolding on_new
on_new-Sound obj app (f, d, b) =
    let c = app.counter in
    let ms = obj.messages in
    hide-Sound app.filters.on (render c ms ++ app.rows) (c + length ms)
      (new-DistinctIds c ms app.rows b d)
      (All-append (λ r. r.id < c + length ms) (render c ms) app.rows (render_below c ms app.rows b)
        (still_below c ms app.rows b))

on_more-Sound : (obj : Reply) (app : App) → Sound (view app) → Sound (view (on_more obj app))
unfolding on_more
on_more-Sound obj app (f, d, b) =
    let c = app.counter in
    let ms = obj.messages in
    hide-Sound app.filters.on (app.rows ++ render c ms) (c + length ms)
      (more-DistinctIds c ms app.rows b d)
      (All-append (λ r. r.id < c + length ms) app.rows (render c ms) (still_below c ms app.rows b)
        (render_below c ms app.rows b))

on_console-Sound : (obj : Reply) (app : App) → Sound (view (on_console obj app))
unfolding on_console
on_console-Sound obj app =
    let c = app.counter in
    let ms = obj.messages in
    hide-Sound app.filters.on (render c ms) (c + length ms) (render-DistinctIds c ms)
      (render_below c ms [] tt)

pub view-more_update : (obj : Reply) (app : App) → view (more_update obj app) ≡ view app
unfolding more_update
view-more_update obj app = elim (Bool-cases (leb obj.upper obj.offset)) [
  | inl e ↦ rw e
  | inr e ↦ rw e
]

pub view-updater_done : (n : ℕ) (app : App) → view (updater_done n app) ≡ view app
unfolding updater_done news_update
view-updater_done n app = elim (Bool-cases (ltb app.db_max n && not (app.db_max == 0))) [
  | inl e ↦ elim (Bool-cases app.new_button.hidden) [ inl h ↦ rw (e, h) | inr h ↦ rw (e, h) ]
  | inr e ↦ rw e
]

pub view-add : (input : String) (app : App) → (add input app.filters).on ≡ app.filters.on
unfolding add
view-add input app =
    let obj = named (underscored input) in
    elim (Bool-cases (not (is_blank obj.name) && not (has_id obj.id app.filters.panel))) [
      | inl e ↦ rw e refl
      | inr e ↦ rw e refl
    ]

pub view-new_clicks : (n : ℕ) (app : App) → view (times n new_click app) ≡ view app
unfolding times new_click
view-new_clicks zero app = refl
view-new_clicks (suc n) app = view-new_clicks n (new_click app)

pub view-more_clicks : (n : ℕ) (app : App) → view (times n more_click app) ≡ view app
unfolding times more_click
view-more_clicks zero app = refl
view-more_clicks (suc n) app = view-more_clicks n (more_click app)

change-Sound :
    (b : Bool) (f : Filter) (app : App)
    → Sound (view app)
    → Sound (view (handle (filter_changed b f) app))
unfolding handle change
change-Sound true f app (h, d, b) = (
  hide_obj-Filtered app.filters.on f app.rows h,
  map-DistinctIds (set_visible false f) (id-set_visible false f) app.rows d,
  map-All_ids (set_visible false f) (id-set_visible false f) (λ i. i < app.counter) app.rows b,
)
change-Sound false f app (h, d, b) = (
  subst (λ on. All (Filtered on) (map (set_visible true f) app.rows))
      (sym (filter-keeps f app.filters.on)) (unfiltered (map (set_visible true f) app.rows)),
  map-DistinctIds (set_visible true f) (id-set_visible true f) app.rows d,
  map-All_ids (set_visible true f) (id-set_visible true f) (λ i. i < app.counter) app.rows b,
)

Sound-handle :
    (e : Event) (app : App) → Sound (view app) → Enabled e app → Sound (view (handle e app))
unfolding handle more_done
Sound-handle (login_clicked user pass) app s h = absurd h
Sound-handle (login_replied reply) app s h = absurd h
Sound-handle (console_replied obj) app s h = absurd h
Sound-handle new_clicked app s h = subst Sound (sym (view-new_clicks app.new_button.handlers app)) s
Sound-handle (new_replied obj) app s h =
    on_new-Sound obj (record app { pending = record app.pending { news = app.pending.news - 1 } }) s
Sound-handle more_clicked app s h =
    subst Sound (sym (view-more_clicks app.more_button.handlers app)) s
Sound-handle (more_replied none) app s h = s
Sound-handle (more_replied (some obj)) app s h =
    let app' = record app { pending = record app.pending { mores = app.pending.mores - 1 } } in
    subst Sound (sym (view-more_update obj (on_more obj app'))) (on_more-Sound obj app' s)
Sound-handle timed_out app s h = s
Sound-handle (max_replied n) app s h =
    subst Sound
      (sym (
        view-updater_done n
          (record app { pending = record app.pending { maxes = app.pending.maxes - 1 } })))
      s
Sound-handle (filter_added input) app s h =
    subst (λ on. Sound (record { on = on; rows = app.rows; counter = app.counter }))
      (sym (view-add input app)) s
Sound-handle (filter_changed b f) app s h = change-Sound b f app s

Sound-logged_in :
    (user pass : String) (reply : Account) (obj : Reply)
    → Sound (view (logged_in user pass reply obj))
unfolding handle login_click login_done init
Sound-logged_in user pass reply obj =
    let app = handle (login_replied reply) (handle (login_clicked user pass) initial) in
    let asked = record app {
      pending = record app.pending { consoles = app.pending.consoles - 1 };
    } in
    let stored = store_max obj.upper asked in
    subst Sound (sym (view-more_update obj (on_console obj stored))) (on_console-Sound obj stored)

-- In a session, every row whose name is filtered is hidden, those that came later too, no two rows
-- have the same id, and the counter is above all ids.
pub InSession-rows : (app : App) → InSession app → Sound (view app)
InSession-rows = InSession-induction (λ app. Sound (view app)) Sound-logged_in Sound-handle
