-- ===== src/Web/Session/News.antt =====
-- `news` of Server/Plugins/Web/app/app.js: when the button New shows, and what its click asks for.
pub mod Announcing
use Prim.Native.String.{String}
use starfall.Base.{
  ℕ, zero, suc, ◌+◌, ◌-◌, ◌≤◌, ◌<◌, ◌≡◌, refl, ap, ap₂, sym, subst, ◌∙◌, Bool, true, false, not,
  ◌&&◌, ◌==◌, leb, ltb, List, [], ◌∷◌, ◌++◌, if◌then◌else◌, Option, none, some, arith, inl, inr,
  Bool-cases, ltb→lt, ◌⊎◌,
}
use starfall.Web.Page.{Reply, Button, Query}
use starfall.Web.App.{
  Account, App, Request, new, initial, times, login_click, login_done, store_max, on_console,
  more_update, init, on_more, more_done, more_click, on_new, new_click, news_update, updater_done,
}
use starfall.Web.App.Events.{
  Event, login_clicked, login_replied, console_replied, new_clicked, new_replied, more_clicked,
  more_replied, timed_out, max_replied, filter_added, filter_changed, handle,
}
use starfall.Web.Session.{Enabled, InSession, logged_in, times-cases, InSession-induction}

-- The part of an App that `news` and `updater` work on.
pub record View : Type 0 where
  pub button : Button
  pub next_data : Option Query
  pub db_max : ℕ

abbrev pub view : App → View
view app = record { button = app.new_button; next_data = app.next_data; db_max = app.db_max }

-- The button is hidden, or its one handler asks for what came after a row older than the newest.
abbrev pub Silent : View → Type 0
Silent v = (v.button.hidden ≡ true) × (v.button.handlers ≡ 0)

abbrev pub Announces : View → Type 0
Announces v =
    (v.button.hidden ≡ false)
    × (v.button.handlers ≡ 1)
    × ((q : Query) × (v.next_data ≡ some q) × (q.offset ≡ 0) × (q.upper < v.db_max) × (1 ≤ q.upper))

abbrev pub Tells : View → Type 0
Tells v = Silent v ⊎ Announces v

view-more_update : (obj : Reply) (app : App) → view (more_update obj app) ≡ view app
unfolding more_update
view-more_update obj app = elim (Bool-cases (leb obj.upper obj.offset)) [
  | inl e ↦ rw e
  | inr e ↦ rw e
]

pub view-more_done : (obj : Option Reply) (app : App) → view (more_done obj app) ≡ view app
unfolding more_done on_more
view-more_done none app = refl
view-more_done (some obj) app = view-more_update obj (on_more obj app)

pub view-more_clicks : (n : ℕ) (app : App) → view (times n more_click app) ≡ view app
unfolding times more_click
view-more_clicks zero app = refl
view-more_clicks (suc n) app = view-more_clicks n (more_click app)

-- A newer row than the newest that the page knows, unless that is 0.
pub updater_done-Announces :
    (n : ℕ) (app : App)
    → Tells (view app)
    → 1 ≤ app.db_max
    → app.db_max < n
    → Announces (view (updater_done n app))
unfolding updater_done news_update
updater_done-Announces n app (inl (h, b)) m c =
    let e : ltb app.db_max n ≡ true = ground arith in
    let z : (app.db_max == 0) ≡ false = ground arith in
    rw (e, z, h) (refl, ap suc b, (record { upper = app.db_max; offset = 0 }, refl, refl, c, m))
updater_done-Announces n app (inr (h, b, (q, d, o, l, u))) m c =
    let e : ltb app.db_max n ≡ true = ground arith in
    let z : (app.db_max == 0) ≡ false = ground arith in
    rw (e, z, h) (refl, b, (q, d, o, omega (arith, l, c), u))

pub updater_done-id :
    (n : ℕ) (app : App)
    → (ltb app.db_max n && not (app.db_max == 0)) ≡ false
    → updater_done n app ≡ app
unfolding updater_done
updater_done-id n app e = rw e

updater_done-Tells : (n : ℕ) (app : App) → Tells (view app) → Tells (view (updater_done n app))
updater_done-Tells n app t = elim (Bool-cases (ltb app.db_max n && not (app.db_max == 0))) [
  | inl e ↦ inr (updater_done-Announces n app t (ground (arith, e)) (ground (arith, e)))
  | inr e ↦ subst (λ a. Tells (view a)) (sym (updater_done-id n app e)) t
]

new_clicks-Silent :
    (app : App) → Tells (view app) → Silent (view (times app.new_button.handlers new_click app))
unfolding new_click
new_clicks-Silent app (inl (h, b)) =
    times-cases (λ a. Silent (view a)) new_click app.new_button.handlers app (omega (arith, b))
      (λ _. (h, b)) (λ z. absurd (omega (arith, b, z)))
new_clicks-Silent app (inr (h, b, _)) =
    times-cases (λ a. Silent (view a)) new_click app.new_button.handlers app (omega (arith, b))
      (λ z. absurd (omega (arith, b, z))) (λ _. (refl, refl))

pub Tells-handle :
    (e : Event) (app : App) → Tells (view app) → Enabled e app → Tells (view (handle e app))
unfolding handle on_new
Tells-handle (login_clicked user pass) app t h = absurd h
Tells-handle (login_replied reply) app t h = absurd h
Tells-handle (console_replied obj) app t h = absurd h
Tells-handle new_clicked app t h = inl (new_clicks-Silent app t)
Tells-handle (new_replied obj) app t h = inl (refl, refl)
Tells-handle more_clicked app t h =
    subst Tells (sym (view-more_clicks app.more_button.handlers app)) t
Tells-handle (more_replied obj) app t h =
    subst Tells
      (sym (
        view-more_done obj
          (record app { pending = record app.pending { mores = app.pending.mores - 1 } })))
      t
Tells-handle timed_out app t h = t
Tells-handle (max_replied n) app t h =
    updater_done-Tells n
      (record app { pending = record app.pending { maxes = app.pending.maxes - 1 } }) t
Tells-handle (filter_added input) app t h = t
Tells-handle (filter_changed b f) app t h = t

Tells-logged_in :
    (user pass : String) (reply : Account) (obj : Reply)
    → Tells (view (logged_in user pass reply obj))
unfolding handle login_click login_done init on_console
Tells-logged_in user pass reply obj =
    let app = handle (login_replied reply) (handle (login_clicked user pass) initial) in
    let asked = record app {
      pending = record app.pending { consoles = app.pending.consoles - 1 };
    } in
    subst Tells (sym (view-more_update obj (on_console obj (store_max obj.upper asked))))
      (inl (refl, refl))

-- In a session, the button New is hidden and its click is not handled, or it shows, its click is
-- handled once, and asks for the rows above one that is not 0 and not the newest that the page knows.
pub InSession-news : (app : App) → InSession app → Tells (view app)
InSession-news = InSession-induction (λ app. Tells (view app)) Tells-logged_in Tells-handle

click-Tells :
    (app : App)
    → Tells (view app)
    → app.new_button.hidden ≡ false
    → (q : Query) × ((handle new_clicked app).sent ≡ app.sent ++ (new (some q) ∷ []))
      × (q.upper < app.db_max)
unfolding handle new_click
click-Tells app (inl (h, b)) v = absurd (ground (arith, h, v))
click-Tells app (inr (h, b, (q, d, o, l, u))) v = (
  q,
  times-cases (λ a. a.sent ≡ app.sent ++ (new (some q) ∷ [])) new_click app.new_button.handlers app
      (omega (arith, b)) (λ z. absurd (omega (arith, b, z)))
      (λ _. ap (λ n. app.sent ++ (new n ∷ [])) d),
  l,
)

-- In a session, a click on the button New, if it shows, sends one request, for the rows above one that
-- is older than the newest that the page knows of.
pub new_clicked-sends :
    (app : App)
    → InSession app
    → app.new_button.hidden ≡ false
    → (q : Query) × ((handle new_clicked app).sent ≡ app.sent ++ (new (some q) ∷ []))
      × (q.upper < app.db_max)
new_clicked-sends app s = click-Tells app (InSession-news app s)
