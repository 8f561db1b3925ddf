-- ===== src/Web/Filters/Hiding.antt =====
-- Which rows the filters of Server/Plugins/Web/app/app.js hide.
use Prim.Native.String.{String}
use text.Mathlib.Text
use starfall.Base.{
  ◌≡◌, refl, ap, ap₂, sym, ◌∙◌, List, [], ◌∷◌, map, Bool, false, ◌||◌, if◌then◌else◌, filter, inl,
  inr, Bool-cases,
}
use starfall.Web.Page.{Message, Row, Filter, set_visible, hide_obj, hide}
use starfall.Web.Filters.{Filters, truthy, answer, filter_messages, keeps, change}

abbrev pub has_name : String → List Filter → Bool
has_name s [] = false
has_name s (f ∷ fs) = Text.◌==◌ s f.name || has_name s fs

-- A row whose name is filtered is hidden, and another is left as it is.
abbrev pub hide_row : List Filter → Row → Row
hide_row on r = if has_name r.message.name on then record r { visible = false } else r

hide_row-cons :
    (f : Filter) (on : List Filter) (r : Row)
    → hide_row on (set_visible false f r) ≡ hide_row (f ∷ on) r
hide_row-cons f on r = elim (Bool-cases (Text.◌==◌ r.message.name f.name)) [
  | inl e ↦ elim (Bool-cases (has_name r.message.name on)) [ inl h ↦ rw (e, h) | inr h ↦ rw (e, h) ]
  | inr e ↦ rw e
]

map-map :
    (f g h : Row → Row)
    → ((r : Row) → f (g r) ≡ h r)
    → (rows : List Row) → map f (map g rows) ≡ map h rows
map-map f g h k [] = refl
map-map f g h k (r ∷ rows) = ap₂ (λ x xs. x ∷ xs) (k r) (map-map f g h k rows)

map_id : (rows : List Row) → map (hide_row []) rows ≡ rows
map_id [] = refl
map_id (r ∷ rows) = ap (λ xs. r ∷ xs) (map_id rows)

-- `hide` hides the rows whose name some filter has that is on, and leaves the others as they are.
pub hide_lem : (on : List Filter) (rows : List Row) → hide on rows ≡ map (hide_row on) rows
unfolding hide
hide_lem [] rows = sym (map_id rows)
hide_lem (f ∷ on) rows =
    hide_lem on (hide_obj f rows)
    ∙ map-map (hide_row on) (set_visible false f) (hide_row (f ∷ on)) (hide_row-cons f on) rows

-- The function answers "no" for every filter: by `return false`, or since it does not return.
never_truthy : (m : Message) (f : Filter) → truthy (answer m f) ≡ false
never_truthy m f = elim (Bool-cases (Text.◌==◌ f.name m.name)) [ inl e ↦ rw e | inr e ↦ rw e ]

-- `filter` blocks every message as soon as one filter is on, whatever its name, and none otherwise.
pub filter_messages_lem :
    (on : List Filter) (messages : List Message)
    → filter_messages on messages ≡ elim on [ [] ↦ messages | _ ∷ _ ↦ [] ]
unfolding filter_messages
filter_messages_lem [] [] = refl
filter_messages_lem [] (m ∷ ms) = ap (λ xs. m ∷ xs) (filter_messages_lem [] ms)
filter_messages_lem (f ∷ on) [] = refl
filter_messages_lem (f ∷ on) (m ∷ ms) = rw (never_truthy m f) (filter_messages_lem (f ∷ on) ms)

keeps_none : (obj a : Filter) → truthy (keeps obj a) ≡ false
keeps_none obj a = elim (Bool-cases (Text.◌==◌ a.id obj.id)) [ inl e ↦ rw e | inr e ↦ rw e ]

pub filter-keeps : (obj : Filter) (on : List Filter) → filter (λ a. truthy (keeps obj a)) on ≡ []
filter-keeps obj [] = refl
filter-keeps obj (a ∷ on) = rw (keeps_none obj a) (filter-keeps obj on)

-- Turning any filter off turns all filters off, for the messages to come: none of them is hidden.
pub change_off-hide :
    (obj : Filter) (fs : Filters) (rows later : List Row)
    → let (fs', rows') = change false obj fs rows in (fs'.on ≡ []) × (hide fs'.on later ≡ later)
unfolding change
change_off-hide obj fs rows later =
    let e = filter-keeps obj fs.on in (e, ap (λ on. hide on later) e ∙ unfold hide in refl)
