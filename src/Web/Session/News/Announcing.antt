-- ===== src/Web/Session/News/Announcing.antt =====
-- When the button New of Server/Plugins/Web/app/app.js comes to show, in runs of a session.
use starfall.Base.{
  ℕ, zero, suc, ◌-◌, ◌≤◌, ◌<◌, ◌≡◌, refl, ap, ◌∙◌, true, false, ◌==◌, List, [], ◌∷◌, if◌then◌else◌,
  arith, inl, inr, Bool-cases,
}
use starfall.Web.App.{App, times, on_new, new_click}
use starfall.Web.App.Events.{
  Event, login_clicked, login_replied, console_replied, new_clicked, new_replied, more_clicked,
  more_replied, timed_out, max_replied, filter_added, filter_changed, handle,
}
use starfall.Web.Session.Polling.{InSession-polls}
use starfall.Web.Session.News.{
  view, Tells, updater_done-Announces, updater_done-id, Tells-handle, InSession-news,
  view-more_done, view-more_clicks,
}
use starfall.Web.Session.{handled, Enabled, InSession}

abbrev pub run : List Event → App → App
run [] app = app
run (e ∷ es) app = run es (handle e app)

abbrev pub Possible : List Event → App → Type 0
Possible [] app = Unit {0}
Possible (e ∷ es) app = Enabled e app × Possible es (handle e app)

-- What is left of the poll, up to the answer that the newest row is `n`.
abbrev pub rest_of_poll : ℕ → App → List Event
rest_of_poll n app =
    if app.pending.maxes == 0 then timed_out ∷ (max_replied n ∷ []) else max_replied n ∷ []

max_replied-shows :
    (n : ℕ) (app : App)
    → Tells (view app)
    → 1 ≤ app.db_max
    → app.db_max < n
    → (handle (max_replied n) app).new_button.hidden ≡ false
unfolding handle
max_replied-shows n app t m c =
    let (h, _, _) =
      updater_done-Announces n
        (record app { pending = record app.pending { maxes = app.pending.maxes - 1 } }) t m c in
    h

-- In a session whose page knows a row, the button New shows after at most two events, the end of a
-- timeout and the answer to its question, which can come, if the answer names a newer row than the
-- page knows and no other event comes between.
pub rest_of_poll-shows :
    (app : App) (n : ℕ)
    → InSession app
    → 1 ≤ app.db_max
    → app.db_max < n
    → Possible (rest_of_poll n app) app × ((run (rest_of_poll n app) app).new_button.hidden ≡ false)
rest_of_poll-shows app n s m c = elim (Bool-cases (app.pending.maxes == 0)) [
  | inl e ↦ rw e (
    (ground (arith, e, InSession-polls app s), (unfold handle in omega arith, tt)),
    max_replied-shows n (handle timed_out app)
        (Tells-handle timed_out app (InSession-news app s)
          (ground (arith, e, InSession-polls app s)))
        (unfold handle in m) (unfold handle in c),
  )
  | inr e ↦ rw e ((ground (arith, e), tt), max_replied-shows n app (InSession-news app s) m c)
]

max-new_clicks : (n : ℕ) (app : App) → (times n new_click app).db_max ≡ app.db_max
unfolding times new_click
max-new_clicks zero app = refl
max-new_clicks (suc n) app = max-new_clicks n (new_click app)

max_kept : (e : Event) (app : App) → app.db_max ≡ 0 → Enabled e app → (handle e app).db_max ≡ 0
unfolding handle on_new
max_kept (login_clicked user pass) app z h = absurd h
max_kept (login_replied reply) app z h = absurd h
max_kept (console_replied obj) app z h = absurd h
max_kept new_clicked app z h = max-new_clicks app.new_button.handlers app ∙ z
max_kept (new_replied obj) app z h = z
max_kept more_clicked app z h =
    ap (λ v. v.db_max) (view-more_clicks app.more_button.handlers app) ∙ z
max_kept (more_replied obj) app z h =
    ap (λ v. v.db_max)
      (view-more_done obj
        (record app { pending = record app.pending { mores = app.pending.mores - 1 } }))
    ∙ z
max_kept timed_out app z h = z
max_kept (max_replied n) app z h =
    ap (λ a. a.db_max)
      (updater_done-id n
        (record app { pending = record app.pending { maxes = app.pending.maxes - 1 } })
        (ground (arith, z)))
    ∙ z
max_kept (filter_added input) app z h = z
max_kept (filter_changed b f) app z h = z

silent : (app : App) → Tells (view app) → app.db_max ≡ 0 → app.new_button.hidden ≡ true
silent app (inl (h, _)) z = h
silent app (inr (_, _, (q, _, _, l, _))) z = absurd (omega (arith, l, z))

-- A session whose page knows no row never shows the button New, whatever happens and whatever rows
-- the server says are the newest.
pub empty_log-silent :
    (es : List Event) (app : App)
    → InSession app
    → app.db_max ≡ 0
    → Possible es app
    → ((run es app).db_max ≡ 0) × ((run es app).new_button.hidden ≡ true)
empty_log-silent [] app s z h = (z, silent app (InSession-news app s) z)
empty_log-silent (e ∷ es) app s z (h, hs) =
    empty_log-silent es (handle e app) (handled e app s h) (max_kept e app z h) hs
