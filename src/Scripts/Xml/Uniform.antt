-- ===== src/Scripts/Xml/Uniform.antt =====
-- `eachObject` on the object of an element whose children all have one name.
use Prim.Native.String.{String}
use starfall.Base.{
  ℕ, suc, ◌+◌, ◌==◌, ◌≡◌, refl, ap, ◌∙◌, List, [], ◌∷◌, ◌++◌, length, length-append, true, false,
  arith, map, append_assoc,
}
use starfall.Scripts.Json.{Key, name, Json, Fields}
use starfall.Scripts.Mixins.{Underscore, codes, parses_int, is_object, each_field, each_object}
use starfall.Scripts.Xml.{Elements, no_more, child, count, add_child, recurse, to_object}
use starfall.Scripts.Xml.Shape.{
  Plain, with_first, numbered, has-Plain, put-Plain, has-numbered, put-numbered, collect-numbered,
  each_field-Plain, each_field-numbered, each_field-with_first,
}

-- Children with the name `s`, each with its attributes and its own children.
abbrev pub uniform : String → List (Fields × Elements) → Elements
uniform s [] = no_more
uniform s ((attr, cs) ∷ ps) = child s attr cs (uniform s ps)

abbrev pub value : Fields × Elements → Json
value (attr, cs) = to_object attr cs

count-uniform : (s : String) (ps : List (Fields × Elements)) → count (uniform s ps) ≡ length ps
count-uniform s [] = refl
count-uniform s ((a, cs) ∷ ps) = omega (arith, count-uniform s ps)

module _ (s : String) (attr : Fields) (plain : Plain s attr) where
  add_first : (n : ℕ) (v : Json) → add_child 0 n s v attr ≡ with_first s v attr
  unfolding add_child
  add_first n v = rw (has-Plain s attr plain) (put-Plain s v attr plain)

  add_later :
      (i n : ℕ) (vs : List Json) (v x : Json)
      → i ≡ 1 + length vs
      → (suc i == n) ≡ false
      → add_child i n s x (numbered 1 s vs (with_first s v attr))
        ≡ numbered 1 s (vs ++ (x ∷ [])) (with_first s v attr)
  unfolding add_child
  add_later i n vs v x e last =
      rw (has-numbered s 1 vs v attr, last) (put-numbered s i 1 vs x v attr plain e)

  add_last :
      (i n : ℕ) (vs : List Json) (v x : Json)
      → i ≡ 1 + length vs
      → (suc i == n) ≡ true
      → add_child i n s x (numbered 1 s vs (with_first s v attr))
        ≡ numbered 0 s (v ∷ (vs ++ (x ∷ []))) attr
  unfolding add_child
  add_last i n vs v x e last =
      rw
        (
          has-numbered s 1 vs v attr,
          last,
          put-numbered s i 1 vs x v attr plain e,
          has-numbered s 1 (vs ++ (x ∷ [])) v attr,
        )
        (collect-numbered s (vs ++ (x ∷ [])) v attr plain)

  recurse_later :
      (i n : ℕ) (vs : List Json) (v : Json) (p : Fields × Elements) (ps : List (Fields × Elements))
      → i ≡ 1 + length vs
      → n ≡ suc i + length ps
      → recurse i n (uniform s (p ∷ ps)) (numbered 1 s vs (with_first s v attr))
        ≡ numbered 0 s (v ∷ (vs ++ map value (p ∷ ps))) attr
  unfolding recurse
  recurse_later i n vs v (a, cs) [] e en = add_last i n vs v (to_object a cs) e (ground (arith, en))
  recurse_later i n vs v (a, cs) (p ∷ ps) e en =
      ap (recurse (suc i) n (uniform s (p ∷ ps)))
        (add_later i n vs v (to_object a cs) e (ground (arith, en)))
      ∙ recurse_later (suc i) n (vs ++ (to_object a cs ∷ [])) v p ps
          (omega (arith, e, length-append {0} vs (to_object a cs ∷ []))) (omega (arith, en))
      ∙ ap (λ ws. numbered 0 s (v ∷ ws) attr)
          (append_assoc vs (to_object a cs ∷ []) (map value (p ∷ ps)))

map-value :
    (s : String) (ps : List (Fields × Elements))
    → map {B = Json × Key} (λ v. (v, name s)) (map value ps) ≡ map (λ p. (value p, name s)) ps
map-value s [] = refl
map-value s ((a, cs) ∷ ps) = ap (λ t. (to_object a cs, name s) ∷ t) (map-value s ps)

-- `eachObject` on the object that `Xml2Json` makes of an element calls its function for the objects of
-- the children, in their order, be there none, one or more, and for nothing else, if all children
-- have one name, which no attribute has, and no name of a child or an attribute is a number.
pub each_object-to_object :
    (u : Underscore) (s : String) (attr : Fields) (ps : List (Fields × Elements))
    → Plain s attr
    → parses_int (codes s) ≡ false
    → each_object u (to_object attr (uniform s ps)) ≡ map (λ p. (value p, name s)) ps
unfolding each_object recurse
each_object-to_object u s attr [] plain k = each_field-Plain s u attr plain
each_object-to_object u s attr ((a, cs) ∷ []) plain k =
    ap (each_field u) (add_first s attr plain 1 (to_object a cs))
    ∙ each_field-with_first s u (to_object a cs) attr plain k (unfold is_object in refl)
each_object-to_object u s attr ((a, cs) ∷ (p ∷ ps)) plain k =
    let n = count (uniform s ((a, cs) ∷ (p ∷ ps))) in
    ap (λ fs. each_field u (recurse 1 n (uniform s (p ∷ ps)) fs))
      (add_first s attr plain n (to_object a cs))
    ∙ ap (each_field u) (
        recurse_later s attr plain 1 n [] (to_object a cs) p ps (omega arith)
          (omega (arith, count-uniform s ps)))
    ∙ each_field-numbered s u 0 (to_object a cs ∷ map value (p ∷ ps)) attr plain
    ∙ ap (λ t. (to_object a cs, name s) ∷ t) (map-value s (p ∷ ps))
