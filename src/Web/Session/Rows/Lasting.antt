-- ===== src/Web/Session/Rows/Lasting.antt =====
-- How long the settings of Server/Plugins/Web/app/app.js hide rows.
use Prim.Native.String.{String}
use starfall.Base.{
  ℕ, ltb, Bool-cases, inl, inr, ◌-◌, ◌≡◌, refl, ap, subst, ◌∙◌, List, [], ◌∷◌, ◌++◌, true, false,
  none, some,
}
use starfall.Web.Page.{Reply, Filter}
use starfall.Web.Filters.{change}
use starfall.Web.Filters.Hiding.{filter-keeps}
use starfall.Web.App.{
  Account, App, login_click, login_done, store_max, on_console, init, on_more, more_done, on_new,
}
use starfall.Web.App.Events.{
  Event, login_clicked, login_replied, console_replied, new_clicked, new_replied, more_clicked,
  more_replied, timed_out, max_replied, filter_added, filter_changed, handle,
}
use starfall.Web.Session.{Enabled, InSession, started, handled, logged_in}
use starfall.Web.Session.News.Announcing.{run, Possible}
use starfall.Web.Session.Rows.{Sound}
use starfall.Web.Session.Rows.Shown.{
  view-more_update, view-updater_done, view-add, view-new_clicks, view-more_clicks, InSession-rows,
}

-- The filters that were turned on since a setting was turned off for the last time.
abbrev pub turn : Event → List Filter → List Filter
turn (filter_changed true f) on = on ++ (f ∷ [])
turn (filter_changed false f) on = []
turn _ on = on

abbrev pub turned_on : List Event → List Filter → List Filter
turned_on [] on = on
turned_on (e ∷ es) on = turned_on es (turn e on)

on-handle :
    (e : Event) (app : App) → Enabled e app → (handle e app).filters.on ≡ turn e app.filters.on
unfolding handle more_done on_new on_more change
on-handle (login_clicked user pass) app h = absurd h
on-handle (login_replied reply) app h = absurd h
on-handle (console_replied obj) app h = absurd h
on-handle new_clicked app h = ap (λ v. v.on) (view-new_clicks app.new_button.handlers app)
on-handle (new_replied obj) app h = refl
on-handle more_clicked app h = ap (λ v. v.on) (view-more_clicks app.more_button.handlers app)
on-handle (more_replied none) app h = refl
on-handle (more_replied (some obj)) app h =
    ap (λ v. v.on)
      (view-more_update obj (
        on_more obj
          (record app { pending = record app.pending { mores = app.pending.mores - 1 } })))
on-handle timed_out app h = refl
on-handle (max_replied n) app h =
    ap (λ v. v.on)
      (view-updater_done n
        (record app { pending = record app.pending { maxes = app.pending.maxes - 1 } }))
on-handle (filter_added input) app h = view-add input app
on-handle (filter_changed true f) app h = refl
on-handle (filter_changed false f) app h = filter-keeps f app.filters.on

on-run :
    (es : List Event) (app : App)
    → Possible es app
    → (run es app).filters.on ≡ turned_on es app.filters.on
on-run [] app h = refl
on-run (e ∷ es) app (h, hs) = on-run es (handle e app) hs ∙ ap (turned_on es) (on-handle e app h)

run-InSession :
    (es : List Event) (app : App) → InSession app → Possible es app → InSession (run es app)
run-InSession [] app s h = s
run-InSession (e ∷ es) app s (h, hs) = run-InSession es (handle e app) (handled e app s h) hs

on-store_max : (n : ℕ) (app : App) → (store_max n app).filters.on ≡ app.filters.on
unfolding store_max
on-store_max n app = elim (Bool-cases (ltb app.db_max n)) [ inl e ↦ rw e | inr e ↦ rw e ]

on-logged_in :
    (user pass : String) (reply : Account) (obj : Reply)
    → (logged_in user pass reply obj).filters.on ≡ []
unfolding handle login_click login_done init on_console
on-logged_in user pass reply obj =
    ap (λ v. v.on) (view-more_update obj _) ∙ on-store_max obj.upper _

-- After a login and any events of a session that can come then, a row is hidden if its name is that of a
-- filter whose setting was turned on after the last time that any setting was turned off, also where the
-- row came later; no two rows have the same id, and the counter is above all ids.
pub run-rows :
    (user pass : String) (reply : Account) (obj : Reply) (es : List Event)
    → Possible es (logged_in user pass reply obj)
    → Sound (record {
      on = turned_on es [];
      rows = (run es (logged_in user pass reply obj)).rows;
      counter = (run es (logged_in user pass reply obj)).counter;
    })
run-rows user pass reply obj es h =
    let app = logged_in user pass reply obj in
    let last = run es app in
    subst (λ on. Sound (record { on = on; rows = last.rows; counter = last.counter }))
      (on-run es app h ∙ ap (turned_on es) (on-logged_in user pass reply obj))
      (InSession-rows last (run-InSession es app (started user pass reply obj) h))
