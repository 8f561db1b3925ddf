-- ===== src/Web/Session.antt =====
-- What stays true of the page of Server/Plugins/Web/app/app.js from its first log on, if the user
-- logs in once: the requests that are under way, and what the buttons ask for.
pub mod Pager
pub mod News
pub mod Polling
pub mod Rows
use Prim.Native.String.{String}
use starfall.Base.{
  ℕ, suc, zero, ◌+◌, ◌≤◌, ◌≡◌, refl, subst, List, Bool, true, false, Option, none, some, arith,
}
use starfall.Web.Page.{Reply}
use starfall.Web.App.{Account, App, initial, times}
use starfall.Web.App.Events.{
  Event, login_clicked, login_replied, console_replied, new_clicked, new_replied, more_clicked,
  more_replied, timed_out, max_replied, filter_added, filter_changed, handle,
}

-- A reply comes after its request, a timeout after its start, and there is no second login.
abbrev pub Enabled : Event → App → Type 0
Enabled (login_clicked user pass) app = ⊥
Enabled (login_replied reply) app = ⊥
Enabled (console_replied obj) app = ⊥
Enabled (new_replied obj) app = 1 ≤ app.pending.news
Enabled (more_replied obj) app = 1 ≤ app.pending.mores
Enabled timed_out app = 1 ≤ app.pending.timers
Enabled (max_replied n) app = 1 ≤ app.pending.maxes
Enabled _ app = Unit {0}

-- The page after a login and the reply to it, when the log comes.
abbrev pub logged_in : String → String → Account → Reply → App
logged_in user pass reply obj =
    handle (console_replied obj)
      (handle (login_replied reply) (handle (login_clicked user pass) initial))

pub data InSession : App → Type 0 where
  started :
      (user pass : String) (reply : Account) (obj : Reply)
      → InSession (logged_in user pass reply obj)
  handled : (e : Event) (app : App) → InSession app → Enabled e app → InSession (handle e app)

-- A button with at most one handler: its click does its action once, or nothing.
pub times-cases {ℓ} :
    (P : App → Type ℓ) (f : App → App) (n : ℕ) (app : App)
    → n ≤ 1
    → (n ≡ 0 → P app)
    → (n ≡ 1 → P (f app))
    → P (times n f app)
unfolding times
times-cases P f zero app h k₀ k₁ = k₀ refl
times-cases P f (suc zero) app h k₀ k₁ = k₁ refl
times-cases P f (suc (suc n)) app h k₀ k₁ = absurd (omega (arith, h))

-- What the start has and each event keeps, every page of a session has.
pub InSession-induction {ℓ} :
    (P : App → Type ℓ)
    → ((user pass : String) (reply : Account) (obj : Reply) → P (logged_in user pass reply obj))
    → ((e : Event) (app : App) → P app → Enabled e app → P (handle e app))
    → (app : App) → InSession app
    → P app
InSession-induction P s k _ (started user pass reply obj) = s user pass reply obj
InSession-induction P s k _ (handled e app r h) = k e app (InSession-induction P s k app r) h
