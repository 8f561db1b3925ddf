-- ===== src/Web/Session/Rows.antt =====
-- The rows that the page of Server/Plugins/Web/app/app.js shows.
pub mod Shown
pub mod Lasting
use Prim.Native.String.{String}
use text.Mathlib.Text
use text.Mathlib.TextPositions.{eq_refl}
use starfall.Base.{
  ℕ, zero, suc, ◌+◌, ◌-◌, ◌≤◌, ◌<◌, ◌≡◌, refl, ap, ap₂, sym, subst, ◌∙◌, Bool, true, false, not,
  ◌&&◌, ◌||◌, ◌==◌, leb, ltb, List, [], ◌∷◌, ◌++◌, map, length, All, All-append, All-map, filter,
  if◌then◌else◌, Option, none, some, arith, inl, inr, Bool-cases,
}
use starfall.Web.Page.{Message, Reply, Row, Filter, render, set_visible, hide_obj, hide}
use starfall.Web.Filters.{Filters, change, keeps, truthy}
use starfall.Web.Filters.Hiding.{has_name, hide_row, hide_lem, filter-keeps}
use starfall.Web.App.{
  Account, App, initial, times, login_click, login_done, store_max, on_console, more_update, init,
  on_more, more_done, more_click, on_new, new_click, news_update, updater_done,
}
use starfall.Web.App.Events.{
  Event, login_clicked, login_replied, console_replied, new_clicked, new_replied, more_clicked,
  more_replied, timed_out, max_replied, filter_added, filter_changed, handle,
}
use starfall.Web.Session.{Enabled, InSession, logged_in, InSession-induction}

-- The part of an App that is shown.
pub record View : Type 0 where
  pub on : List Filter
  pub rows : List Row
  pub counter : ℕ

abbrev pub view : App → View
view app = record { on = app.filters.on; rows = app.rows; counter = app.counter }

abbrev pub Filtered : List Filter → Row → Type 0
Filtered on r = has_name r.message.name on ≡ true → r.visible ≡ false

-- No row has the id `i`, and no two rows have the same.
abbrev pub Absent : ℕ → List Row → Type 0
Absent i rows = All (λ r. (r.id == i) ≡ false) rows

abbrev pub DistinctIds : List Row → Type 0
DistinctIds [] = Unit {0}
DistinctIds (r ∷ rows) = Absent r.id rows × DistinctIds rows

abbrev pub Sound : View → Type 0
Sound v = All (Filtered v.on) v.rows × DistinctIds v.rows × All (λ r. r.id < v.counter) v.rows

-- A change of rows that keeps their ids.
module _ (g : Row → Row) (keeps_id : (r : Row) → (g r).id ≡ r.id) where
  pub map-All_ids :
      (P : ℕ → Type 0) (rows : List Row) → All (λ r. P r.id) rows → All (λ r. P r.id) (map g rows)
  map-All_ids P [] h = tt
  map-All_ids P (r ∷ rows) (h, hs) = (subst P (sym (keeps_id r)) h, map-All_ids P rows hs)

  pub map-DistinctIds : (rows : List Row) → DistinctIds rows → DistinctIds (map g rows)
  map-DistinctIds [] h = tt
  map-DistinctIds (r ∷ rows) (h, hs) = (
    subst (λ i. Absent i (map g rows)) (sym (keeps_id r))
        (map-All_ids (λ i. (i == r.id) ≡ false) rows h),
    map-DistinctIds rows hs,
  )

pub id-hide_row : (on : List Filter) (r : Row) → (hide_row on r).id ≡ r.id
id-hide_row on r = elim (Bool-cases (has_name r.message.name on)) [ inl e ↦ rw e | inr e ↦ rw e ]

pub id-set_visible : (b : Bool) (f : Filter) (r : Row) → (set_visible b f r).id ≡ r.id
id-set_visible b f r = elim (Bool-cases (Text.◌==◌ r.message.name f.name)) [
  | inl e ↦ rw e
  | inr e ↦ rw e
]

hide_row-Filtered : (on : List Filter) (r : Row) → Filtered on (hide_row on r)
hide_row-Filtered on r = elim (Bool-cases (has_name r.message.name on)) [
  | inl e ↦
      subst (Filtered on) (sym (ap (λ b. if b then record r { visible = false } else r) e))
        (λ _. refl)
  | inr e ↦
      subst (Filtered on) (sym (ap (λ b. if b then record r { visible = false } else r) e))
        (λ h. absurd (ground (arith, e, h)))
]

pub map-Filtered : (on : List Filter) (rows : List Row) → All (Filtered on) (map (hide_row on) rows)
map-Filtered on [] = tt
map-Filtered on (r ∷ rows) = (hide_row-Filtered on r, map-Filtered on rows)

has_name-append :
    (s : String) (on : List Filter) (f : Filter)
    → Text.◌==◌ s f.name ≡ false
    → has_name s (on ++ (f ∷ [])) ≡ has_name s on
has_name-append s [] f e = rw e refl
has_name-append s (g ∷ on) f e = ap (λ b. Text.◌==◌ s g.name || b) (has_name-append s on f e)

-- A filter that is turned on next to others.
set_visible-Filtered :
    (on : List Filter) (f : Filter) (r : Row)
    → Filtered on r
    → Filtered (on ++ (f ∷ [])) (set_visible false f r)
set_visible-Filtered on f r h = elim (Bool-cases (Text.◌==◌ r.message.name f.name)) [
  | inl e ↦
      subst (Filtered (on ++ (f ∷ [])))
        (sym (ap (λ b. if b then record r { visible = false } else r) e)) (λ _. refl)
  | inr e ↦
      subst (Filtered (on ++ (f ∷ [])))
        (sym (ap (λ b. if b then record r { visible = false } else r) e))
        (λ k. h (sym (has_name-append r.message.name on f e) ∙ k))
]

pub hide_obj-Filtered :
    (on : List Filter) (f : Filter) (rows : List Row)
    → All (Filtered on) rows
    → All (Filtered (on ++ (f ∷ []))) (hide_obj f rows)
hide_obj-Filtered on f [] h = tt
hide_obj-Filtered on f (r ∷ rows) (h, hs) =
    (set_visible-Filtered on f r h, hide_obj-Filtered on f rows hs)

pub unfiltered : (rows : List Row) → All (Filtered []) rows
unfiltered [] = tt
unfiltered (r ∷ rows) = ((λ h. absurd (ground (arith, h))), unfiltered rows)

-- The rows of a reply have the ids from the counter on.
pub render-above :
    (c : ℕ) (ms : List Message) → All (λ r. (c ≤ r.id) × (r.id < c + length ms)) (render c ms)
unfolding render
render-above c [] = tt
render-above c (m ∷ ms) = (
  (omega arith, omega arith),
  All-map (λ r (l, u). (omega (arith, l), omega (arith, u))) (render (suc c) ms)
      (render-above (suc c) ms),
)

pub render-DistinctIds : (c : ℕ) (ms : List Message) → DistinctIds (render c ms)
unfolding render
render-DistinctIds c [] = tt
render-DistinctIds c (m ∷ ms) = (
  All-map (λ r (l, u). ground (arith, l)) (render (suc c) ms) (render-above (suc c) ms),
  render-DistinctIds (suc c) ms,
)

pub append-DistinctIds :
    (xs ys : List Row)
    → DistinctIds xs
    → DistinctIds ys
    → All (λ x. All (λ y. (y.id == x.id) ≡ false) ys) xs
    → DistinctIds (xs ++ ys)
append-DistinctIds [] ys hx hy h = hy
append-DistinctIds (x ∷ xs) ys (a, hx) hy (h, hs) =
    (All-append (λ r. (r.id == x.id) ≡ false) xs ys a h, append-DistinctIds xs ys hx hy hs)
