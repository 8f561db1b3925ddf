-- ===== src/Web/Filters.antt =====
-- `App.prototype.filters` of Server/Plugins/Web/app/app.js. Names of filters are taken to be valid
-- in a selector.
pub mod Hiding
pub mod Panel
use Prim.Native.String.{String}
use text.Mathlib.Text
use starfall.Base.{List, [], ◌∷◌, ◌++◌, Bool, true, false, not, ◌&&◌, ◌||◌, if◌then◌else◌, filter}
use starfall.Web.Page.{Message, Row, Filter, show_obj, hide_obj, underscored, joined, is_blank}

-- `on`, and the settings that the panel shows.
pub record Filters : Type 0 where
  pub on : List Filter
  pub panel : List Filter

-- What JavaScript's `every` and `filter` take an answer of a function for: `return false` and no
-- `return` at all are both false.
pub data Answer : Type 0 where
  answered_false unanswered : Answer

abbrev pub truthy : Answer → Bool
truthy answered_false = false
truthy unanswered = false

-- The function in `filter`, for a filter that is on.
abbrev pub answer : Message → Filter → Answer
answer m f = if Text.◌==◌ f.name m.name then answered_false else unanswered

-- `this.on.every(...)`
abbrev pub every_answer : Message → List Filter → Bool
every_answer m [] = true
every_answer m (f ∷ on) = truthy (answer m f) && every_answer m on

-- `filter(messages)`
unfoldable pub filter_messages : List Filter → List Message → List Message
filter_messages on messages = filter (λ m. every_answer m on) messages

-- The function that takes a filter out of `on`.
abbrev pub keeps : Filter → Filter → Answer
keeps obj a = if Text.◌==◌ a.id obj.id then answered_false else unanswered

-- The `change` of a setting, to "on" or to another value.
unfoldable pub change : Bool → Filter → Filters → List Row → Filters × List Row
change true obj fs rows = (record fs { on = fs.on ++ (obj ∷ []) }, hide_obj obj rows)
change false obj fs rows =
    (record fs { on = filter (λ a. truthy (keeps obj a)) fs.on }, show_obj obj rows)

abbrev pub has_id : String → List Filter → Bool
has_id id [] = false
has_id id (f ∷ fs) = Text.◌==◌ f.id id || has_id id fs

-- The filter of a name, with the id of its setting.
abbrev pub named : String → Filter
named name = record { name = name; id = joined "filter-item-" name }

-- The click that `registerClick` handles, with the text of the input.
unfoldable pub add : String → Filters → Filters
add input fs =
    let obj = named (underscored input) in
    if not (is_blank obj.name) && not (has_id obj.id fs.panel)
    then record fs { panel = fs.panel ++ (obj ∷ []) }
    else fs
