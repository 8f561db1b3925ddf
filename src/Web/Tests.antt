-- ===== src/Web/Tests.antt =====
-- Concrete sessions of the page of Server/Plugins/Web/app/app.js, and the theorems of Web at inputs
-- that meet their hypotheses.
use starfall.Base.{pos, none, ◌≡◌, refl, List, [], ◌∷◌, ◌++◌, map, true, false, some, arith}
use starfall.Network.Runtime.{text}
use starfall.Web.Colors.{digits, channel, to_hex}
use starfall.Scripts.Json.{null}
use starfall.Web.Page.{Message, Reply, Filter, hide, render}
use starfall.Web.Filters.{Filters, named, change}
use starfall.Web.App.{
  Account, App, new, max, console, initial, times, login_click, login_done, store_max, on_console,
  more_update, init, new_click, updater_done, news_update, on_new,
}
use starfall.Web.App.Events.{
  Event, filter_changed, new_clicked, new_replied, more_clicked, timed_out, max_replied,
  login_clicked, login_replied, console_replied, handle,
}
use starfall.Web.Session.{InSession, started, handled, logged_in}
use starfall.Web.Session.Pager.{offering, loading, Shows}
use starfall.Web.Session.Pager.{view as view_more}
use starfall.Web.Session.Pager.Asking.{mores_of, page_turn-handle}
use starfall.Web.Session.News.Announcing.{
  run, Possible, rest_of_poll, rest_of_poll-shows, empty_log-silent,
}
use starfall.Web.Session.Rows.{Sound}
use starfall.Web.Session.Rows.Lasting.{run-rows}

abbrev message_of_login : Message
message_of_login = record { name = "Login"; body = null }

abbrev message_of_chat : Message
message_of_chat = record { name = "Chat"; body = null }

abbrev user : Account
user = record { userid = some 7; usertype = some 1; username = some "ann"; password = some "pw" }

-- The log has five rows, of which the last comes first.
abbrev first_reply : Reply
first_reply = record { messages = message_of_chat ∷ []; upper = 5; offset = 1 }

abbrev session : App
session = logged_in "ann" "pw" user first_reply

session-InSession : InSession session
session-InSession = started "ann" "pw" user first_reply

abbrev later_reply : Reply
later_reply = record { messages = message_of_login ∷ []; upper = 6; offset = 0 }

-- An empty log.
abbrev no_reply : Reply
no_reply = record { messages = []; upper = 0; offset = 0 }

abbrev empty_session : App
empty_session = logged_in "ann" "pw" user no_reply

page_turn-handle_example :
    Shows loading (view_more (handle more_clicked session))
    × (mores_of (handle more_clicked session).sent
        ≡ mores_of session.sent ++ (some first_reply ∷ []))
page_turn-handle_example =
    page_turn-handle more_clicked (offering first_reply) session
      (unfold handle login_click login_done init store_max on_console more_update in
        (refl, refl, refl, refl))
      tt

-- The server says that row 6 is the newest.
abbrev announced : App
announced = handle (max_replied 6) (handle timed_out session)

announced-InSession : InSession announced
announced-InSession =
    handled (max_replied 6) (handle timed_out session)
      (handled timed_out session session-InSession
        (unfold handle login_click login_done init store_max on_console more_update in omega arith))
      (unfold handle login_click login_done init store_max on_console more_update in omega arith)

-- Row 9 comes after the click on New and before the reply to it: the button is shown for it, and the
-- reply hides the button, with no request for row 9 made.
abbrev missed : App
missed =
    run (new_clicked ∷ (timed_out ∷ (max_replied 9 ∷ (new_replied no_reply ∷ (new_clicked ∷ [])))))
      announced

row_missed :
    (missed.new_button.hidden ≡ true)
    × (missed.db_max ≡ 9)
    × (missed.sent ≡ announced.sent ++ (new (some (record { upper = 5; offset = 0 })) ∷ (max ∷ [])))
unfolding handle login_click login_done init store_max on_console more_update updater_done
    news_update new_click times on_new
row_missed = (refl, refl, refl)

-- A second login while the page is shown: the first click on More then asks for the rows after the
-- first log again.
abbrev second_reply : Reply
second_reply = record { messages = []; upper = 9; offset = 1 }

abbrev twice : App
twice =
    run (login_clicked "ann" "pw" ∷ (login_replied user ∷ (console_replied second_reply ∷ [])))
      session

stale_query : twice.queue ≡ first_reply ∷ (second_reply ∷ [])
unfolding handle login_click login_done init store_max on_console more_update
stale_query = refl

-- A login that the server refuses is followed by the request for the log.
refused_login :
    (handle (login_replied (record user { userid = some 0 })) initial).sent ≡ console ∷ []
unfolding handle login_done
refused_login = refl

rest_of_poll-shows_example :
    Possible (rest_of_poll 6 session) session
    × ((run (rest_of_poll 6 session) session).new_button.hidden ≡ false)
rest_of_poll-shows_example =
    rest_of_poll-shows session 6 session-InSession
      (unfold handle login_click login_done init store_max on_console more_update in omega arith)
      (unfold handle login_click login_done init store_max on_console more_update in omega arith)

empty_log-silent_example :
    ((run (timed_out ∷ (max_replied 6 ∷ [])) empty_session).db_max ≡ 0)
    × ((run (timed_out ∷ (max_replied 6 ∷ [])) empty_session).new_button.hidden ≡ true)
empty_log-silent_example =
    empty_log-silent (timed_out ∷ (max_replied 6 ∷ [])) empty_session
      (started "ann" "pw" user no_reply)
      (unfold handle login_click login_done init store_max on_console more_update in refl)
      (unfold handle login_click login_done init store_max on_console more_update in
        (omega arith, (omega arith, tt)))

abbrev chat_filter : Filter
chat_filter = named "Chat"

abbrev login_filter : Filter
login_filter = named "Login"

-- Both settings are turned on, and then a row comes that one of them hides.
abbrev filtering : List Event
filtering =
    filter_changed true chat_filter
    ∷ (filter_changed true login_filter
        ∷ (new_clicked
            ∷ (timed_out ∷ (max_replied 6 ∷ (new_clicked ∷ (new_replied later_reply ∷ []))))))

run-rows_example : Sound (record {
  on = chat_filter ∷ (login_filter ∷ []);
  rows = (run filtering session).rows;
  counter = (run filtering session).counter;
})
run-rows_example = run-rows "ann" "pw" user first_reply filtering (
    unfold handle login_click login_done init store_max on_console more_update updater_done
      news_update new_click times change in
    (tt, (tt, (tt, (omega arith, (omega arith, (tt, (omega arith, tt))))))))

rows_hidden : map (λ r. r.visible) (run filtering session).rows ≡ false ∷ (false ∷ [])
unfolding handle login_click login_done init store_max on_console more_update updater_done
    news_update new_click times on_new change hide render
rows_hidden = refl

abbrev two_on : Filters
two_on = record {
  on = chat_filter ∷ (login_filter ∷ []);
  panel = chat_filter ∷ (login_filter ∷ []);
}

ten_as_hex : to_hex (some (pos 10)) (some (pos 255)) none ≡ text "#0aff00"
unfolding to_hex channel digits
ten_as_hex = refl
