-- ===== src/Web/Session/Pager/Asking.antt =====
-- What More of Server/Plugins/Web/app/app.js asks the server for.
use starfall.Base.{
  ℕ, zero, suc, ◌-◌, ◌≡◌, refl, ap, sym, not, ◌&&◌, ◌==◌, leb, ltb, List, [], ◌∷◌, ◌++◌, ◌∙◌,
  append-nil, Option, none, some, arith, inl, inr, Bool-cases,
}
use starfall.Web.Page.{Reply}
use starfall.Web.App.{
  Request, login, console, new, more, max, App, times, more_update, on_more, more_done, more_click,
  next_obj, on_new, new_click, news_update, updater_done,
}
use starfall.Web.App.Events.{
  Event, login_clicked, login_replied, console_replied, new_clicked, new_replied, more_clicked,
  more_replied, timed_out, max_replied, filter_added, filter_changed, handle,
}
use starfall.Web.Session.{Enabled, times-cases}
use starfall.Web.Session.Pager.{
  Pager, offering, loading, finished, page_turn, view, Shows, page_turn-Shows,
}

-- The rows that requests ask for, less the requests that More does not send.
abbrev pub mores_of : List Request → List (Option Reply)
mores_of [] = []
mores_of (more obj ∷ rs) = obj ∷ mores_of rs
mores_of (_ ∷ rs) = mores_of rs

-- What an event asks for at a pager.
abbrev pub asks : Event → Pager → List (Option Reply)
asks more_clicked (offering obj) = some obj ∷ []
asks _ _ = []

mores_of-append : (xs ys : List Request) → mores_of (xs ++ ys) ≡ mores_of xs ++ mores_of ys
mores_of-append [] ys = refl
mores_of-append (login a ∷ xs) ys = mores_of-append xs ys
mores_of-append (console ∷ xs) ys = mores_of-append xs ys
mores_of-append (new q ∷ xs) ys = mores_of-append xs ys
mores_of-append (more obj ∷ xs) ys = ap (λ t. obj ∷ t) (mores_of-append xs ys)
mores_of-append (max ∷ xs) ys = mores_of-append xs ys

mores_of-other :
    (r : Request) (rs : List Request)
    → mores_of (r ∷ []) ≡ []
    → mores_of (rs ++ (r ∷ [])) ≡ mores_of rs
mores_of-other r rs h =
    mores_of-append rs (r ∷ []) ∙ ap (λ t. mores_of rs ++ t) h ∙ append-nil (mores_of rs)

-- A request list that an event leaves.
nothing_asked : (rs rs' : List (Option Reply)) → rs' ≡ rs → rs' ≡ rs ++ []
nothing_asked rs rs' h = h ∙ sym (append-nil rs)

sent-updater_done : (n : ℕ) (app : App) → (updater_done n app).sent ≡ app.sent
unfolding updater_done news_update
sent-updater_done n app = elim (Bool-cases (ltb app.db_max n && not (app.db_max == 0))) [
  | inl e ↦ elim (Bool-cases app.new_button.hidden) [ inl h ↦ rw (e, h) | inr h ↦ rw (e, h) ]
  | inr e ↦ rw e
]

sent-more_update : (obj : Reply) (app : App) → (more_update obj app).sent ≡ app.sent
unfolding more_update
sent-more_update obj app = elim (Bool-cases (leb obj.upper obj.offset)) [
  | inl c ↦ rw c
  | inr c ↦ rw c
]

mores_of-new_clicks :
    (n : ℕ) (app : App) → mores_of (times n new_click app).sent ≡ mores_of app.sent
unfolding times new_click
mores_of-new_clicks zero app = refl
mores_of-new_clicks (suc n) app =
    mores_of-new_clicks n (new_click app) ∙ mores_of-other (new app.next_data) app.sent refl

more_click-asks :
    (p : Pager) (app : App)
    → Shows p (view app)
    → mores_of (times app.more_button.handlers more_click app).sent
      ≡ mores_of app.sent ++ asks more_clicked p
unfolding more_click
more_click-asks (offering obj) app (q, b, h, m) =
    times-cases (λ a. mores_of a.sent ≡ mores_of app.sent ++ (some obj ∷ [])) more_click
      app.more_button.handlers app (omega (arith, b)) (λ z. absurd (omega (arith, b, z)))
      (λ _.
        mores_of-append app.sent (more (next_obj app.queue).0 ∷ [])
        ∙ ap (λ w. mores_of app.sent ++ ((next_obj w).0 ∷ [])) q)
more_click-asks loading app (q, b, m) =
    times-cases (λ a. mores_of a.sent ≡ mores_of app.sent ++ []) more_click app.more_button.handlers
      app (omega (arith, b)) (λ _. nothing_asked (mores_of app.sent) (mores_of app.sent) refl)
      (λ z. absurd (omega (arith, b, z)))
more_click-asks finished app (q, b, h, m) =
    times-cases (λ a. mores_of a.sent ≡ mores_of app.sent ++ []) more_click app.more_button.handlers
      app (omega (arith, b)) (λ _. nothing_asked (mores_of app.sent) (mores_of app.sent) refl)
      (λ z. absurd (omega (arith, b, z)))

asks-handle :
    (e : Event) (p : Pager) (app : App)
    → Shows p (view app)
    → Enabled e app
    → mores_of (handle e app).sent ≡ mores_of app.sent ++ asks e p
unfolding handle on_new more_done on_more
asks-handle (login_clicked user pass) p app s h = absurd h
asks-handle (login_replied reply) p app s h = absurd h
asks-handle (console_replied obj) p app s h = absurd h
asks-handle new_clicked p app s h =
    nothing_asked (mores_of app.sent) _ (mores_of-new_clicks app.new_button.handlers app)
asks-handle (new_replied obj) p app s h = nothing_asked (mores_of app.sent) _ refl
asks-handle more_clicked p app s h = more_click-asks p app s
asks-handle (more_replied none) p app s h = nothing_asked (mores_of app.sent) _ refl
asks-handle (more_replied (some obj)) p app s h =
    let answered = record app { pending = record app.pending { mores = app.pending.mores - 1 } } in
    nothing_asked (mores_of app.sent) _ (ap mores_of (sent-more_update obj (on_more obj answered)))
asks-handle timed_out p app s h =
    nothing_asked (mores_of app.sent) _ (mores_of-other max app.sent refl)
asks-handle (max_replied n) p app s h = nothing_asked (mores_of app.sent) _ (
    ap mores_of (
      sent-updater_done n
        (record app { pending = record app.pending { maxes = app.pending.maxes - 1 } })))
asks-handle (filter_added input) p app s h = nothing_asked (mores_of app.sent) _ refl
asks-handle (filter_changed b f) p app s h = nothing_asked (mores_of app.sent) _ refl

-- On a page whose More shows a pager, each event that can come in a session does to More what it does to
-- the pager: a click on an offer sends one request, which asks for just the offered rows, and leaves it
-- loading; a reply brings the next offer or the end; no other event changes it, and none sends such a
-- request.
pub page_turn-handle :
    (e : Event) (p : Pager) (app : App)
    → Shows p (view app)
    → Enabled e app
    → Shows (page_turn e p) (view (handle e app))
      × (mores_of (handle e app).sent ≡ mores_of app.sent ++ asks e p)
page_turn-handle e p app s h = (page_turn-Shows e p app s h, asks-handle e p app s h)
