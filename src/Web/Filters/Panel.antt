-- ===== src/Web/Filters/Panel.antt =====
-- The settings of the panel of Server/Plugins/Web/app/app.js.
use Prim.Native.String.{String}
use text.Mathlib.Text
use text.Mathlib.TextPositions.{eq_refl}
use text.Mathlib.TextEquality.{eq_iff}
use starfall.Base.{
  ◌≡◌, refl, sym, subst, List, [], ◌∷◌, ◌++◌, true, false, not, ◌&&◌, arith, inl, inr, Bool-cases,
}
use starfall.Web.Page.{Filter, underscored, is_blank}
use starfall.Web.Filters.{Filters, has_id, named, add}

-- The ids of the settings are different, and no name is blank.
abbrev pub Settings : List Filter → Type 0
Settings [] = Unit {0}
Settings (f ∷ fs) = (has_id f.id fs ≡ false) × (is_blank f.name ≡ false) × Settings fs

differs : (s t : String) → Text.◌==◌ s t ≡ false → Text.◌==◌ t s ≡ false
differs s t h = elim (Bool-cases (Text.◌==◌ t s)) [
  | inl e ↦ absurd (
      ground (
        arith,
        h,
        subst (λ u. Text.◌==◌ s u ≡ true) (sym (let (to, _) = eq_iff t s in to e)) (eq_refl s),
      ))
  | inr e ↦ e
]

has_id-append :
    (i : String) (fs : List Filter) (obj : Filter)
    → has_id i fs ≡ false
    → Text.◌==◌ obj.id i ≡ false
    → has_id i (fs ++ (obj ∷ [])) ≡ false
has_id-append i [] obj h e = rw e refl
has_id-append i (f ∷ fs) obj h e = ground (arith, h, has_id-append i fs obj (ground (arith, h)) e)

-- A filter behind others, whose id none of them has.
Settings-append :
    (fs : List Filter) (obj : Filter)
    → Settings fs
    → has_id obj.id fs ≡ false
    → is_blank obj.name ≡ false
    → Settings (fs ++ (obj ∷ []))
Settings-append [] obj s h b = (refl, b, tt)
Settings-append (f ∷ fs) obj (u, n, s) h b = (
  has_id-append f.id fs obj u (differs f.id obj.id (ground (arith, h))),
  n,
  Settings-append fs obj s (ground (arith, h)) b,
)

-- What the panel's click adds has a name, and an id that no other setting has.
pub add-Settings :
    (input : String) (fs : Filters) → Settings fs.panel → Settings (add input fs).panel
unfolding add
add-Settings input fs s =
    let obj = named (underscored input) in
    elim (Bool-cases (not (is_blank obj.name) && not (has_id obj.id fs.panel))) [
      | inl e ↦ rw e (Settings-append fs.panel obj s (ground (arith, e)) (ground (arith, e)))
      | inr e ↦ rw e s
    ]
