-- ===== src/Web/App.antt =====
-- The `App` of Server/Plugins/Web/app/app.js: `login`, `console`, `news`, `more` and `updater`. What
-- the page asks of the server is an entry of `sent`; a reply, a click and a timeout are events.
pub mod Events
use Prim.Native.String.{String}
use starfall.Base.{
  ℕ, suc, zero, ◌+◌, ◌-◌, ◌==◌, ltb, leb, List, [], ◌∷◌, ◌++◌, length, Bool, true, false, not, ◌&&◌,
  Option, none, some, if◌then◌else◌,
}
use starfall.Web.Page.{Message, Reply, Query, Row, Button, fresh, bind, render, Filter, hide}
use starfall.Web.Filters.{Filters, change, add}

-- `login.data`, and a reply to a login. A property that the server leaves out is undefined.
pub record Account : Type 0 where
  pub userid : Option ℕ
  pub usertype : Option ℕ
  pub username : Option String
  pub password : Option String

pub data Request : Type 0 where
  login : Account → Request
  console : Request
  new : Option Query → Request
  more : Option Reply → Request
  max : Request

-- How many requests of a kind have no reply yet, and how many timeouts are due.
pub record Pending : Type 0 where
  pub logins : ℕ
  pub consoles : ℕ
  pub news : ℕ
  pub mores : ℕ
  pub maxes : ℕ
  pub timers : ℕ

-- An App with its page. Before the page has buttons, they are here without handlers.
pub record App : Type 0 where
  pub account : Account
  pub complete : Bool
  pub filters : Filters
  pub counter : ℕ
  pub rows : List Row
  pub new_button : Button
  pub more_button : Button
  pub next_data : Option Query
  pub news_data : Option Query
  pub db_max : ℕ
  pub queue : List Reply
  pub pending : Pending
  pub sent : List Request

abbrev pub initial : App
initial = record {
  account = record { userid = some 0; usertype = some 0; username = some ""; password = some "" };
  complete = false;
  filters = record { on = []; panel = [] };
  counter = 0;
  rows = [];
  new_button = fresh;
  more_button = fresh;
  next_data = none;
  news_data = none;
  db_max = 0;
  queue = [];
  pending = record { logins = 0; consoles = 0; news = 0; mores = 0; maxes = 0; timers = 0 };
  sent = [];
}

abbrev pub send : Request → Pending → App → App
send r p app = record app { sent = app.sent ++ (r ∷ []); pending = p }

-- A button with `n` handlers runs the action of its click so often.
unfoldable pub times : ℕ → (App → App) → App → App
times zero f app = app
times (suc n) f app = times n f (f app)

-- `login.onClick`, with the texts of the inputs
unfoldable pub login_click : String → String → App → App
login_click user pass app =
    let data' = record app.account { username = some user; password = some pass } in
    send (login data') (record app.pending { logins = suc app.pending.logins })
      (record app { account = data' })

-- `this.data.userid != 0 && this.data.userid != undefined`
abbrev pub is_user : Option ℕ → Bool
is_user none = false
is_user (some i) = not (i == 0)

-- `login.done`, and the callback that the constructor gives to `login`
unfoldable pub login_done : Account → App → App
login_done reply app =
    send console (record app.pending { consoles = suc app.pending.consoles })
      (record app {
        account = reply;
        complete = if is_user reply.userid then true else app.complete;
      })

-- `storeMax`
unfoldable pub store_max : ℕ → App → App
store_max n app =
    if ltb app.db_max n
    then record app { db_max = n; news_data = some (record { upper = n; offset = 0 }) }
    else app

-- `console.onConsole`
unfoldable pub on_console : Reply → App → App
on_console obj app = record app {
  rows = hide app.filters.on (render app.counter obj.messages);
  counter = app.counter + length obj.messages;
  new_button = record { hidden = true; handlers = 0 };
  more_button = fresh;
}

-- `more.update`
unfoldable pub more_update : Reply → App → App
more_update obj app =
    if leb obj.upper obj.offset
    then record app { more_button = record app.more_button { hidden = true } }
    else record app { queue = app.queue ++ (obj ∷ []); more_button = bind app.more_button }

-- `updater.init`
abbrev pub updater_init : App → App
updater_init app = record app { pending = record app.pending { timers = suc app.pending.timers } }

-- `init`
unfoldable pub init : Reply → App → App
init obj app = updater_init (more_update obj (on_console obj (store_max obj.upper app)))

-- `more.onMore`
unfoldable pub on_more : Reply → App → App
on_more obj app = record app {
  rows = hide app.filters.on (app.rows ++ render app.counter obj.messages);
  counter = app.counter + length obj.messages;
  more_button = fresh;
}

-- `more.done`, where the empty object is `none`
unfoldable pub more_done : Option Reply → App → App
more_done none app = record app { more_button = record app.more_button { hidden = true } }
more_done (some obj) app = more_update obj (on_more obj app)

-- `more.dataFunc`
abbrev pub next_obj : List Reply → Option Reply × List Reply
next_obj [] = (none, [])
next_obj (obj ∷ queue) = (some obj, queue)

-- `more.onClick`
unfoldable pub more_click : App → App
more_click app =
    let (obj, queue') = next_obj app.queue in
    send (more obj) (record app.pending { mores = suc app.pending.mores })
      (record app { queue = queue'; more_button = record app.more_button { handlers = 0 } })

-- `news.onNew`
unfoldable pub on_new : Reply → App → App
on_new obj app = record app {
  rows = hide app.filters.on (render app.counter obj.messages ++ app.rows);
  counter = app.counter + length obj.messages;
  new_button = record { hidden = true; handlers = 0 };
}

-- `news.onClick`
unfoldable pub new_click : App → App
new_click app =
    send (new app.next_data) (record app.pending { news = suc app.pending.news })
      (record app { new_button = record { hidden = true; handlers = 0 } })

-- `news.update`, with the `dataFunc` of the constructor
unfoldable pub news_update : App → App
news_update app =
    if app.new_button.hidden
    then record app {
      next_data = some (record { upper = app.db_max; offset = 0 });
      new_button = record { hidden = false; handlers = suc app.new_button.handlers };
    }
    else app

-- `updater.done`
unfoldable pub updater_done : ℕ → App → App
updater_done n app =
    if ltb app.db_max n && not (app.db_max == 0)
    then record (news_update app) { db_max = n }
    else app
