-- ===== src/Scripts/Appearance/Slots.antt =====
-- `slots.names` on what `Xml2Json` makes of an element with slots.
use Prim.Native.String.{String}
use starfall.Base.{
  ◌≡◌, refl, ap, ◌∙◌, List, [], ◌∷◌, map, Bool, false, some, filter, inl, inr, Bool-cases,
}
use starfall.Scripts.Json.{name, object, Fields, field, has, get}
use starfall.Scripts.Mixins.{Underscore, codes, parses_int}
use starfall.Scripts.Xml.{Elements, count, to_object, recurse}
use starfall.Scripts.Xml.Shape.{Plain}
use starfall.Scripts.Xml.Uniform.{uniform, value, each_object-to_object}
use starfall.Scripts.Appearance.{slot_names, names}

-- The properties of the object of a slot, and whether it has a name.
abbrev pub fields : Fields × Elements → Fields
fields (attr, cs) = recurse 0 (count cs) cs attr

abbrev pub is_named : Fields × Elements → Bool
is_named p = has (name "name") (fields p)

slot_names-uniform :
    (s : String) (ps : List (Fields × Elements))
    → slot_names (map (λ p. (value p, name s)) ps)
      ≡ some (map (λ p. get (name "name") (fields p)) (filter is_named ps))
unfolding slot_names
slot_names-uniform s [] = refl
slot_names-uniform s ((attr, cs) ∷ ps) = elim (Bool-cases (is_named (attr, cs))) [
  | inl e ↦ rw (e, slot_names-uniform s ps) refl
  | inr e ↦ rw (e, slot_names-uniform s ps) refl
]

-- The names of the slots of an element, in the document's order, be there none, one or more of them:
-- of each child of its `slots` that has a name, that name, if the children have one name of their own,
-- which no attribute of `slots` has, and which is no number.
pub names-uniform :
    (u : Underscore) (s : String) (attr : Fields) (ps : List (Fields × Elements)) (rest : Fields)
    → Plain s attr
    → parses_int (codes s) ≡ false
    → names u (object (field (name "slots") (to_object attr (uniform s ps)) rest))
      ≡ some (map (λ p. get (name "name") (fields p)) (filter is_named ps))
unfolding names has get
names-uniform u s attr ps rest plain k =
    ap slot_names (each_object-to_object u s attr ps plain k) ∙ slot_names-uniform s ps
