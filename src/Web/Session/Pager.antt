-- ===== src/Web/Session/Pager.antt =====
-- `more` of Server/Plugins/Web/app/app.js as a pager: it offers the next part of the log, loads it, or
-- is finished.
pub mod Asking
use Prim.Native.String.{String}
use starfall.Base.{
  ℕ, zero, suc, ◌-◌, ◌≡◌, refl, ap, ap₂, sym, subst, true, false, not, ◌&&◌, ◌==◌, leb, ltb, List,
  [], ◌∷◌, ◌++◌, if◌then◌else◌, Option, none, some, arith, inl, inr, Bool-cases,
}
use starfall.Web.Page.{Reply, Button}
use starfall.Web.App.{
  Account, App, initial, times, login_click, login_done, store_max, on_console, more_update, init,
  on_more, more_done, more_click, next_obj, on_new, new_click, news_update, updater_done,
}
use starfall.Web.App.Events.{
  Event, login_clicked, login_replied, console_replied, new_clicked, new_replied, more_clicked,
  more_replied, timed_out, max_replied, filter_added, filter_changed, handle,
}
use starfall.Web.Session.{Enabled, InSession, logged_in, times-cases, InSession-induction}

-- What the button More stands for: a part of the log to ask for from `upper` and `offset` on, a
-- request that is under way, or the end of the log.
pub data Pager : Type 0 where
  offering : Reply → Pager
  loading finished : Pager

abbrev pub offer : Reply → Pager
offer obj = if leb obj.upper obj.offset then finished else offering obj

abbrev pub turn : Pager → Pager
turn (offering obj) = loading
turn p = p

abbrev pub receive : Option Reply → Pager
receive none = finished
receive (some obj) = offer obj

-- What an event does to a pager.
abbrev pub page_turn : Event → Pager → Pager
page_turn more_clicked p = turn p
page_turn (more_replied obj) p = receive obj
page_turn _ p = p

-- The part of an App that `more` works on.
pub record View : Type 0 where
  pub queue : List Reply
  pub button : Button
  pub mores : ℕ

abbrev pub view : App → View
view app = record { queue = app.queue; button = app.more_button; mores = app.pending.mores }

abbrev pub Shows : Pager → View → Type 0
Shows (offering obj) v =
    (v.queue ≡ obj ∷ []) × (v.button.handlers ≡ 1) × (v.button.hidden ≡ false) × (v.mores ≡ 0)
Shows loading v = (v.queue ≡ []) × (v.button.handlers ≡ 0) × (v.mores ≡ 1)
Shows finished v =
    (v.queue ≡ []) × (v.button.handlers ≡ 0) × (v.button.hidden ≡ true) × (v.mores ≡ 0)

view-updater_done : (n : ℕ) (app : App) → view (updater_done n app) ≡ view app
unfolding updater_done news_update
view-updater_done n app = elim (Bool-cases (ltb app.db_max n && not (app.db_max == 0))) [
  | inl e ↦ elim (Bool-cases app.new_button.hidden) [ inl h ↦ rw (e, h) | inr h ↦ rw (e, h) ]
  | inr e ↦ rw e
]

view-new_clicks : (n : ℕ) (app : App) → view (times n new_click app) ≡ view app
unfolding times new_click
view-new_clicks zero app = refl
view-new_clicks (suc n) app = view-new_clicks n (new_click app)

-- `more.update` on an empty queue, with a button that has just been made.
more_update-Shows :
    (obj : Reply) (app : App)
    → view app ≡ record { queue = []; button = record { hidden = false; handlers = 0 }; mores = 0 }
    → Shows (offer obj) (view (more_update obj app))
unfolding more_update
more_update-Shows obj app e = elim (Bool-cases (leb obj.upper obj.offset)) [
  | inl c ↦ rw c (ap (λ v. v.queue) e, ap (λ v. v.button.handlers) e, refl, ap (λ v. v.mores) e)
  | inr c ↦ rw c (
    ap (λ v. v.queue ++ (obj ∷ [])) e,
    ap (λ v. suc v.button.handlers) e,
    ap (λ v. v.button.hidden) e,
    ap (λ v. v.mores) e,
  )
]

more_click-loading :
    {obj : Reply} (app : App)
    → app.queue ≡ obj ∷ []
    → app.pending.mores ≡ 0
    → Shows loading (view (more_click app))
unfolding more_click
more_click-loading app q m = (ap (λ w. let (o, rest) = next_obj w in rest) q, refl, ap suc m)

more_click-Shows :
    (p : Pager) (app : App)
    → Shows p (view app)
    → Shows (turn p) (view (times app.more_button.handlers more_click app))
more_click-Shows (offering obj) app (q, b, h, m) =
    times-cases (λ a. Shows loading (view a)) more_click app.more_button.handlers app
      (omega (arith, b)) (λ z. absurd (omega (arith, b, z))) (λ _. more_click-loading app q m)
more_click-Shows loading app (q, b, m) =
    times-cases (λ a. Shows loading (view a)) more_click app.more_button.handlers app
      (omega (arith, b)) (λ _. (q, b, m)) (λ z. absurd (omega (arith, b, z)))
more_click-Shows finished app (q, b, h, m) =
    times-cases (λ a. Shows finished (view a)) more_click app.more_button.handlers app
      (omega (arith, b)) (λ _. (q, b, h, m)) (λ z. absurd (omega (arith, b, z)))

-- Each event of a session does to the page's More what it does to a pager.
pub page_turn-Shows :
    (e : Event) (p : Pager) (app : App)
    → Shows p (view app)
    → Enabled e app
    → Shows (page_turn e p) (view (handle e app))
unfolding handle on_new more_done on_more
page_turn-Shows (login_clicked user pass) p app s h = absurd h
page_turn-Shows (login_replied reply) p app s h = absurd h
page_turn-Shows (console_replied obj) p app s h = absurd h
page_turn-Shows new_clicked p app s h =
    subst (Shows p) (sym (view-new_clicks app.new_button.handlers app)) s
page_turn-Shows (new_replied obj) p app s h = s
page_turn-Shows more_clicked p app s h = more_click-Shows p app s
page_turn-Shows (more_replied obj) (offering o) app (_, _, _, m) h = absurd (omega (arith, m, h))
page_turn-Shows (more_replied none) loading app (q, b, m) h = (q, b, refl, ap (λ n. n - 1) m)
page_turn-Shows (more_replied (some obj)) loading app (q, b, m) h =
    more_update-Shows obj
      (on_more obj (record app { pending = record app.pending { mores = app.pending.mores - 1 } }))
      (ap₂
        (λ r n. record { queue = r; button = record { hidden = false; handlers = 0 }; mores = n }) q
        (ap (λ n. n - 1) m))
page_turn-Shows (more_replied obj) finished app (_, _, _, m) h = absurd (omega (arith, m, h))
page_turn-Shows timed_out p app s h = s
page_turn-Shows (max_replied n) p app s h =
    subst (Shows p)
      (sym (
        view-updater_done n
          (record app { pending = record app.pending { maxes = app.pending.maxes - 1 } })))
      s
page_turn-Shows (filter_added input) p app s h = s
page_turn-Shows (filter_changed b f) p app s h = s

view-store_max : (n : ℕ) (app : App) → view (store_max n app) ≡ view app
unfolding store_max
view-store_max n app = elim (Bool-cases (ltb app.db_max n)) [ inl e ↦ rw e | inr e ↦ rw e ]

logged_in-Shows :
    (user pass : String) (reply : Account) (obj : Reply)
    → Shows (offer obj) (view (logged_in user pass reply obj))
unfolding handle login_click login_done init on_console
logged_in-Shows user pass reply obj =
    let app = handle (login_replied reply) (handle (login_clicked user pass) initial) in
    let asked = record app {
      pending = record app.pending { consoles = app.pending.consoles - 1 };
    } in
    more_update-Shows obj (on_console obj (store_max obj.upper asked)) (
      ap {B = View} (λ v. record v { button = record { hidden = false; handlers = 0 } })
        (view-store_max obj.upper asked))

-- In a session, the page shows a pager: so at most one request for more rows is under way, its click is
-- handled once at most, and nothing waits in the queue but the rows that the next click asks for.
pub InSession-pager : (app : App) → InSession app → (p : Pager) × Shows p (view app)
InSession-pager =
    InSession-induction (λ app. (p : Pager) × Shows p (view app))
      (λ user pass reply obj. (offer obj, logged_in-Shows user pass reply obj))
      λ e app (p, s) h. (page_turn e p, page_turn-Shows e p app s h)
