-- ===== src/Web/Session/Polling.antt =====
-- `updater`: the question for the newest row.
use Prim.Native.String.{String}
use starfall.Base.{
  ℕ, zero, suc, ◌+◌, ◌-◌, ◌≡◌, refl, ap, ◌∙◌, not, ◌&&◌, ◌==◌, leb, ltb, Option, none, some, arith,
  inl, inr, Bool-cases,
}
use starfall.Web.Page.{Reply}
use starfall.Web.App.{
  Account, App, initial, times, login_click, login_done, store_max, on_console, more_update, init,
  on_more, more_done, more_click, on_new, new_click, news_update, updater_done,
}
use starfall.Web.App.Events.{
  Event, login_clicked, login_replied, console_replied, new_clicked, new_replied, more_clicked,
  more_replied, timed_out, max_replied, filter_added, filter_changed, handle,
}
use starfall.Web.Session.{Enabled, InSession, logged_in, InSession-induction}

-- The timeouts and the questions that are under way.
abbrev pub polls : App → ℕ
polls app = app.pending.timers + app.pending.maxes

pub pending-store_max : (n : ℕ) (app : App) → (store_max n app).pending ≡ app.pending
unfolding store_max
pending-store_max n app = elim (Bool-cases (ltb app.db_max n)) [ inl e ↦ rw e | inr e ↦ rw e ]

pub pending-more_update : (obj : Reply) (app : App) → (more_update obj app).pending ≡ app.pending
unfolding more_update
pending-more_update obj app = elim (Bool-cases (leb obj.upper obj.offset)) [
  | inl e ↦ rw e
  | inr e ↦ rw e
]

pub pending-more_done : (obj : Option Reply) (app : App) → (more_done obj app).pending ≡ app.pending
unfolding more_done on_more
pending-more_done none app = refl
pending-more_done (some obj) app = pending-more_update obj (on_more obj app)

pub pending-updater_done : (n : ℕ) (app : App) → (updater_done n app).pending ≡ app.pending
unfolding updater_done news_update
pending-updater_done n app = elim (Bool-cases (ltb app.db_max n && not (app.db_max == 0))) [
  | inl e ↦ elim (Bool-cases app.new_button.hidden) [ inl h ↦ rw (e, h) | inr h ↦ rw (e, h) ]
  | inr e ↦ rw e
]

polls-new_clicks : (n : ℕ) (app : App) → polls (times n new_click app) ≡ polls app
unfolding times new_click
polls-new_clicks zero app = refl
polls-new_clicks (suc n) app = polls-new_clicks n (new_click app)

polls-more_clicks : (n : ℕ) (app : App) → polls (times n more_click app) ≡ polls app
unfolding times more_click
polls-more_clicks zero app = refl
polls-more_clicks (suc n) app = polls-more_clicks n (more_click app)

-- No event of the session starts a second question, and none ends the asking.
polls-handle : (e : Event) (app : App) → Enabled e app → polls (handle e app) ≡ polls app
unfolding handle on_new
polls-handle (login_clicked user pass) app h = absurd h
polls-handle (login_replied reply) app h = absurd h
polls-handle (console_replied obj) app h = absurd h
polls-handle new_clicked app h = polls-new_clicks app.new_button.handlers app
polls-handle (new_replied obj) app h = refl
polls-handle more_clicked app h = polls-more_clicks app.more_button.handlers app
polls-handle (more_replied obj) app h =
    ap (λ p. p.timers + p.maxes)
      (pending-more_done obj
        (record app { pending = record app.pending { mores = app.pending.mores - 1 } }))
polls-handle timed_out app h = omega (arith, h)
polls-handle (max_replied n) app h =
    ap (λ p. suc p.timers + p.maxes)
      (pending-updater_done n
        (record app { pending = record app.pending { maxes = app.pending.maxes - 1 } }))
    ∙ omega (arith, h)
polls-handle (filter_added input) app h = refl
polls-handle (filter_changed b f) app h = refl

polls-logged_in :
    (user pass : String) (reply : Account) (obj : Reply) → polls (logged_in user pass reply obj) ≡ 1
unfolding handle login_click login_done init on_console
polls-logged_in user pass reply obj =
    let app = handle (login_replied reply) (handle (login_clicked user pass) initial) in
    let asked = record app {
      pending = record app.pending { consoles = app.pending.consoles - 1 };
    } in
    ap (λ p. suc p.timers + p.maxes)
      (pending-more_update obj (on_console obj (store_max obj.upper asked))
        ∙ pending-store_max obj.upper asked)

-- In a session, either a timeout is due, at whose end the page asks for the newest row of the log, or
-- the reply to that question is: one of the two, and a single one, after every event. No request is
-- taken to fail.
pub InSession-polls : (app : App) → InSession app → polls app ≡ 1
InSession-polls =
    InSession-induction (λ app. polls app ≡ 1) polls-logged_in λ e app p h. polls-handle e app h ∙ p
