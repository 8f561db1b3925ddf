-- ===== src/Web/Page.antt =====
-- What Server/Plugins/Web/app/app.js keeps in the document: the rows of `#page-portal-content`, the
-- buttons above and below them, and the messages of a reply.
use Prim.Native.Char.{code}
use Prim.Native.String.{String}
use text.Mathlib.Text
use starfall.Base.{ℕ, suc, ◌==◌, List, [], ◌∷◌, map, Bool, true, false, if◌then◌else◌}
use starfall.Scripts.Json.{Json}

-- A message of the log. Of its head, the time is left out.
pub record Message : Type 0 where
  pub name : String
  pub body : Json

-- What the server answers: the messages, and the rows from which to ask for more.
pub record Reply : Type 0 where
  pub messages : List Message
  pub upper : ℕ
  pub offset : ℕ

pub record Query : Type 0 where
  pub upper : ℕ
  pub offset : ℕ

-- The element `message_<id>` of a message. A fade counts from its start.
pub record Row : Type 0 where
  pub id : ℕ
  pub message : Message
  pub visible : Bool

-- A button in its `div`: whether that is hidden, and how often the button's `click` is handled.
pub record Button : Type 0 where
  pub hidden : Bool
  pub handlers : ℕ

abbrev pub fresh : Button
fresh = record { hidden = false; handlers = 0 }

-- `$(button).click(f)`
abbrev pub bind : Button → Button
bind b = record b { handlers = suc b.handlers }

-- `render`: the rows of the messages, numbered from the counter on.
unfoldable pub render : ℕ → List Message → List Row
render counter [] = []
render counter (m ∷ ms) =
    record { id = counter; message = m; visible = true } ∷ render (suc counter) ms

-- A setting of the panel that hides the messages of a name.
pub record Filter : Type 0 where
  pub name : String
  pub id : String

-- `showObj` and `hideObj`
abbrev pub set_visible : Bool → Filter → Row → Row
set_visible b f r = if Text.◌==◌ r.message.name f.name then record r { visible = b } else r

abbrev pub show_obj : Filter → List Row → List Row
show_obj f rows = map (set_visible true f) rows

abbrev pub hide_obj : Filter → List Row → List Row
hide_obj f rows = map (set_visible false f) rows

-- `hide`
unfoldable pub hide : List Filter → List Row → List Row
hide [] rows = rows
hide (f ∷ on) rows = hide on (hide_obj f rows)

-- `split(" ").join("_")`
abbrev pub underscored : String → String
underscored String.[] = String.[]
underscored (String.◌∷◌ c s) = String.◌∷◌ (if code c == b' ' then "_" else c) (underscored s)

abbrev pub joined : String → String → String
joined String.[] t = t
joined (String.◌∷◌ c s) t = String.◌∷◌ c (joined s t)

abbrev pub is_blank : String → Bool
is_blank String.[] = true
is_blank (String.◌∷◌ c s) = false
