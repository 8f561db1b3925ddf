-- ===== src/Web/App/Events.antt =====
-- The events of the page of Server/Plugins/Web/app/app.js, each with what its handlers do.
use Prim.Native.String.{String}
use starfall.Base.{ℕ, suc, ◌-◌, Bool, Option}
use starfall.Web.Page.{Reply, Filter}
use starfall.Web.Filters.{change, add}
use starfall.Web.App.{
  Account, max, App, send, times, login_click, login_done, updater_init, init, more_done,
  more_click, on_new, new_click, updater_done,
}

-- A click on the login button, on New, on More and in the panel; the change of a setting; the end of
-- a timeout; and the replies.
pub data Event : Type 0 where
  login_clicked : String → String → Event
  login_replied : Account → Event
  console_replied : Reply → Event
  new_clicked : Event
  new_replied : Reply → Event
  more_clicked : Event
  more_replied : Option Reply → Event
  timed_out : Event
  max_replied : ℕ → Event
  filter_added : String → Event
  filter_changed : Bool → Filter → Event

abbrev pub changed : Bool → Filter → App → App
changed b f app =
    let (filters', rows') = change b f app.filters app.rows in
    record app { filters = filters'; rows = rows' }

-- What the page does on an event.
unfoldable pub handle : Event → App → App
handle (login_clicked user pass) app = login_click user pass app
handle (login_replied reply) app =
    login_done reply
      (record app { pending = record app.pending { logins = app.pending.logins - 1 } })
handle (console_replied obj) app =
    init obj (record app { pending = record app.pending { consoles = app.pending.consoles - 1 } })
handle new_clicked app = times app.new_button.handlers new_click app
handle (new_replied obj) app =
    on_new obj (record app { pending = record app.pending { news = app.pending.news - 1 } })
handle more_clicked app = times app.more_button.handlers more_click app
handle (more_replied obj) app =
    more_done obj (record app { pending = record app.pending { mores = app.pending.mores - 1 } })
handle timed_out app =
    send max (record app.pending { maxes = suc app.pending.maxes; timers = app.pending.timers - 1 })
      app
handle (max_replied n) app =
    updater_init (
      updater_done n
        (record app { pending = record app.pending { maxes = app.pending.maxes - 1 } }))
handle (filter_added input) app = record app { filters = add input app.filters }
handle (filter_changed b f) app = changed b f app
